-- ===== src/Ical/Fits.antt =====
-- Where app/ical.py cuts a line: before the first code point that does not fit.
use fincal.Prelude.{
  ℕ, ◌+◌, ◌-◌, ◌≤◌, ◌≡◌, refl, sym, ap, ◌∙◌, true, false, List, [], ◌∷◌, ◌++◌, leb, length, arith,
  inl, inr, Bool-cases, append_assoc, leb→le, le→leb, if◌then◌else◌, all, length-append, and_parts,
}
use fincal.Prelude.Text.{Text, drop}
use fincal.Ical.Fold.{utf8, encode}
use fincal.Ical.Utf8.{is_scalar, size}

-- The code points that fit `n` bytes, and the others.
unfoldable pub fit : ℕ → Text → Text × Text
fit n [] = ([], [])
fit n (c ∷ s) =
    let rest = fit (n - size c) s in if leb (size c) n then (c ∷ rest.0, rest.1) else ([], c ∷ s)

unfoldable pub bytes : Text → ℕ
bytes s = length (encode s)

pub bytes_nil : bytes [] ≡ 0
unfolding bytes encode
bytes_nil = refl

pub bytes_cons : (c : ℕ) (s : Text) → bytes (c ∷ s) ≡ size c + bytes s
unfolding bytes encode
bytes_cons c s = length-append (utf8 c) (encode s)

pub size_bounds : (c : ℕ) → (1 ≤ size c) × (size c ≤ 4)
size_bounds c = ground arith

pub fit_yes :
    (n c : ℕ) (s : Text)
    → leb (size c) n ≡ true
    → fit n (c ∷ s) ≡ (c ∷ (fit (n - size c) s).0, (fit (n - size c) s).1)
unfolding fit
fit_yes n c s h = rw h refl

pub fit_no : (n c : ℕ) (s : Text) → leb (size c) n ≡ false → fit n (c ∷ s) ≡ ([], c ∷ s)
unfolding fit
fit_no n c s h = rw h refl

pub fit_nil : (n : ℕ) → fit n [] ≡ ([], [])
unfolding fit
fit_nil n = refl

pub fit_low : (n : ℕ) (t : Text) → bytes (fit n t).0 ≤ n
fit_low n [] = rw (fit_nil n, bytes_nil) (omega arith)
fit_low n (c ∷ s) = elim (Bool-cases (leb (size c) n)) [
  | inl fits ↦
      let rest = fit_low (n - size c) s in
      let room = leb→le (size c) n fits in
      let at = bytes_cons c (fit (n - size c) s).0 in
      rw (fit_yes n c s fits) (omega (arith, rest, room, at))
  | inr stops ↦ rw (fit_no n c s stops, bytes_nil) (omega arith)
]

pub fit_joins : (n : ℕ) (t : Text) → (fit n t).0 ++ (fit n t).1 ≡ t
fit_joins n [] = rw (fit_nil n) refl
fit_joins n (c ∷ s) = elim (Bool-cases (leb (size c) n)) [
  | inl fits ↦ rw (fit_yes n c s fits) (ap (λ x. c ∷ x) (fit_joins (n - size c) s))
  | inr stops ↦ rw (fit_no n c s stops) refl
]

pub fit_some : (n c : ℕ) (s : Text) → size c ≤ n → (fit n (c ∷ s)).0 ≡ c ∷ (fit (n - size c) s).0
fit_some n c s h = ap (λ (p : Text × Text). p.0) (fit_yes n c s (le→leb (size c) n h))

encode-append : (a b : Text) → encode (a ++ b) ≡ encode a ++ encode b
unfolding encode
encode-append [] b = refl
encode-append (c ∷ a) b =
    ap (λ x. utf8 c ++ x) (encode-append a b) ∙ sym (append_assoc (utf8 c) (encode a) (encode b))

drop-append : (xs ys : List ℕ) → drop (length xs) (xs ++ ys) ≡ ys
drop-append [] ys = refl
drop-append (x ∷ xs) ys = drop-append xs ys

-- What is left after the bytes of the chunk.
pub drop-fit : (n : ℕ) (t : Text) → drop (bytes (fit n t).0) (encode t) ≡ encode (fit n t).1
unfolding bytes
drop-fit n t =
    let (a, b) = fit n t in
    ap (λ x. drop (length (encode a)) (encode x)) (sym (fit_joins n t))
    ∙ ap (drop (length (encode a))) (encode-append a b)
    ∙ drop-append (encode a) (encode b)

pub bytes-fit : (n : ℕ) (t : Text) → bytes (fit n t).0 + bytes (fit n t).1 ≡ bytes t
unfolding bytes
bytes-fit n t =
    let (a, b) = fit n t in
    sym (length-append (encode a) (encode b))
    ∙ ap length (sym (encode-append a b))
    ∙ ap (λ x. length (encode x)) (fit_joins n t)

pub scalars-fit : (n : ℕ) (t : Text) → all is_scalar t ≡ true → all is_scalar (fit n t).1 ≡ true
scalars-fit n [] h = rw (fit_nil n) refl
scalars-fit n (c ∷ s) h = elim (Bool-cases (leb (size c) n)) [
  | inl fits ↦
      rw (fit_yes n c s fits)
        (scalars-fit (n - size c) s (and_parts (is_scalar c) (all is_scalar s) h).1)
  | inr stops ↦ rw (fit_no n c s stops) h
]
