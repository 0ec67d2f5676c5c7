-- ===== src/Ical/Cuts.antt =====
-- The chunk that app/ical.py decodes is the code points that fit.
use fincal.Prelude.{
  ℕ, zero, suc, ◌+◌, ◌-◌, ◌≤◌, ◌<◌, ◌≡◌, refl, sym, ap, ◌∙◌, Bool, true, false, none, some, List,
  [], ◌∷◌, ◌++◌, leb, eqb, length, arith, inl, inr, Bool-cases, eqb_iff, leb→le, le→leb,
  if◌then◌else◌, all, and_parts,
}
use fincal.Prelude.Text.{Text, take}
use fincal.Ical.Fold.{utf8, encode, prepend, decode, decode_from, shorten}
use fincal.Ical.Utf8.{is_scalar, size, decode-utf8, decode_partial}
use fincal.Ical.Fits.{
  fit, bytes, bytes_nil, bytes_cons, size_bounds, fit_nil, fit_yes, fit_no, fit_low,
}

take-append_past :
    (n : ℕ) (xs ys : List ℕ) → length xs ≤ n → take n (xs ++ ys) ≡ xs ++ take (n - length xs) ys
take-append_past n [] ys h = ap (λ m. take m ys) (omega arith)
take-append_past zero (x ∷ xs) ys h = absurd (omega (arith, h))
take-append_past (suc n) (x ∷ xs) ys h =
    ap (λ zs. x ∷ zs) (take-append_past n xs ys (omega (arith, h)))
    ∙ ap (λ m. x ∷ xs ++ take m ys) (omega arith)

prepend-if :
    (c : ℕ) (b : Bool) (s : Text)
    → prepend c (if b then some s else none) ≡ (if b then some (c ∷ s) else none)
prepend-if c true s = refl
prepend-if c false s = refl

decode_nothing : decode [] ≡ some []
unfolding decode_from
decode_nothing = refl

not_leb : (a b : ℕ) → leb a b ≡ false → b < a
not_leb a b h = ground (arith, h)

eqb_shift : (b n k : ℕ) → k ≤ n → eqb b (n - k) ≡ eqb (k + b) n
eqb_shift b n k h = ground arith

decode-take_stop :
    (n c : ℕ) (s : Text)
    → is_scalar c ≡ true
    → leb (size c) n ≡ false
    → decode (take n (encode (c ∷ s))) ≡ (if eqb (bytes []) n then some [] else none)
unfolding encode
decode-take_stop zero c s scalar stops = decode_nothing ∙ rw bytes_nil refl
decode-take_stop (suc n) c s scalar stops =
    let inside : suc n < size c = not_leb (size c) (suc n) stops in
    let nonzero : eqb 0 (suc n) ≡ false = ground arith in
    decode_partial c n (encode s) scalar inside ∙ rw (bytes_nil, nonzero) refl

decode-take :
    (n : ℕ) (t : Text)
    → all is_scalar t ≡ true
    → n ≤ bytes t
    → decode (take n (encode t)) ≡ (if eqb (bytes (fit n t).0) n then some (fit n t).0 else none)
unfolding encode
decode-take zero [] h low = decode_nothing ∙ rw (fit_nil 0, bytes_nil) refl
decode-take (suc n) [] h low = absurd (omega (arith, low, bytes_nil))
decode-take n (c ∷ s) h low =
    let (scalar, scalars) = and_parts (is_scalar c) (all is_scalar s) h in
    let at = bytes_cons c s in
    elim (Bool-cases (leb (size c) n)) [
      | inl fits ↦
          let m = n - size c in
          let a = (fit m s).0 in
          let room : size c ≤ n = leb→le (size c) n fits in
          let same : eqb (bytes a) m ≡ eqb (bytes (c ∷ a)) n =
            eqb_shift (bytes a) n (size c) room ∙ ap (λ x. eqb x n) (sym (bytes_cons c a)) in
          ap decode (take-append_past n (utf8 c) (encode s) room)
          ∙ decode-utf8 c (take m (encode s)) scalar
          ∙ ap (prepend c) (decode-take m s scalars (omega (arith, low, at, room)))
          ∙ prepend-if c (eqb (bytes a) m) a
          ∙ rw (fit_yes n c s fits, same) refl
      | inr stops ↦ decode-take_stop n c s scalar stops ∙ rw (fit_no n c s stops) refl
    ]

-- One byte less makes no difference when the last one was not used.
fit_less : (n : ℕ) (t : Text) → bytes (fit (suc n) t).0 ≤ n → fit n t ≡ fit (suc n) t
fit_less n [] low = fit_nil n ∙ sym (fit_nil (suc n))
fit_less n (c ∷ s) low = elim (Bool-cases (leb (size c) n)) [
  | inl fits ↦
      let m = n - size c in
      let room : size c ≤ n = leb→le (size c) n fits in
      let more : leb (size c) (suc n) ≡ true = le→leb (size c) (suc n) (omega (arith, room)) in
      let e : suc n - size c ≡ suc m = omega (arith, room) in
      let low2 = rw (fit_yes (suc n) c s more) at low in
      let used = bytes_cons c (fit (suc n - size c) s).0 in
      let shift = ap (λ k. bytes (fit k s).0) e in
      let less = fit_less m s (omega (arith, low2, used, shift, room)) in
      fit_yes n c s fits
      ∙ ap (λ (p : Text × Text). (c ∷ p.0, p.1)) (less ∙ ap (λ k. fit k s) (sym e))
      ∙ sym (fit_yes (suc n) c s more)
  | inr stops ↦ elim (Bool-cases (leb (size c) (suc n))) [
    | inl fits ↦
        let low2 = rw (fit_yes (suc n) c s fits) at low in
        let used = bytes_cons c (fit (suc n - size c) s).0 in
        let over = not_leb (size c) n stops in absurd (omega (arith, low2, used, over))
    | inr still ↦ fit_no n c s stops ∙ sym (fit_no (suc n) c s still)
  ]
]

-- The chunk of at most `n` bytes is what fits them.
pub shorten-fit :
    (n : ℕ) (t : Text)
    → all is_scalar t ≡ true
    → n ≤ bytes t
    → shorten (encode t) n ≡ ((fit n t).0, bytes (fit n t).0)
unfolding shorten
shorten-fit zero [] h low = rw (fit_nil 0, bytes_nil) refl
shorten-fit zero (c ∷ s) h low =
    let large : leb (size c) 0 ≡ false = ground (arith, size_bounds c) in
    rw (fit_no 0 c s large, bytes_nil) refl
shorten-fit (suc n) t h low =
    let next = shorten-fit n t h (omega (arith, low)) in
    let text = decode-take (suc n) t h low in
    elim (Bool-cases (eqb (bytes (fit (suc n) t).0) (suc n))) [
      | inl full ↦ rw (text, full, (eqb_iff (bytes (fit (suc n) t).0) (suc n)).0 full) refl
      | inr part ↦
          let less : bytes (fit (suc n) t).0 ≤ n = ground (arith, part, fit_low (suc n) t) in
          rw (text, part) (next ∙ ap (λ (p : Text × Text). (p.0, bytes p.0)) (fit_less n t less))
    ]
