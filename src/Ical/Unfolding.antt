-- ===== src/Ical/Unfolding.antt =====
-- The folded lines of app/ical.py: short enough, and unfolded to what they were.
use fincal.Prelude.{
  ℕ, zero, suc, ◌-◌, ◌≤◌, ◌≡◌, refl, sym, ap, ◌∙◌, Bool, true, false, List, [], ◌∷◌, ◌++◌, ◌&&◌,
  not, leb, eqb, length, arith, inl, inr, Bool-cases, le→leb, if◌then◌else◌, all, and_parts,
  append_assoc, append-nil,
}
use fincal.Prelude.Text.{Text, drop}
use fincal.Ical.Fold.{encode, limit, indent, fold_bytes, fold_line, fold_ical_lines}
use fincal.Ical.Utf8.{is_scalar, size}
use fincal.Ical.Fits.{
  fit, bytes, bytes_cons, size_bounds, fit_low, fit_some, fit_joins, scalars-fit,
}
use fincal.Ical.Folding.{
  room, room_low, room_holds, fold_bytes_end, fold_bytes_round, round_progress,
}

-- How a reader unfolds, by RFC 5545: a line that starts with a space continues the one before it.
-- The first component is what continues a line that stands before all of these.
abbrev pub is_continuation : Text → Bool
is_continuation [] = false
is_continuation (c ∷ s) = eqb c 32

abbrev pub gather : List Text → Text × List Text
gather [] = ([], [])
gather (l ∷ ls) =
    let rest = gather ls in
    if is_continuation l then (drop 1 l ++ rest.0, rest.1) else ([], (l ++ rest.0) ∷ rest.1)

unfoldable pub unfold_lines : List Text → List Text
unfold_lines ls = (gather ls).1

gather_rest :
    (fuel : ℕ) (t : Text) (ls : List Text)
    → all is_scalar t ≡ true
    → bytes t ≤ fuel
    → gather (fold_bytes fuel false (encode t) ++ ls) ≡ (t ++ (gather ls).0, (gather ls).1)
gather_rest fuel [] ls h enough = ap (λ xs. gather (xs ++ ls)) (fold_bytes_end fuel false)
gather_rest zero (c ∷ s) ls h enough = absurd (omega (arith, enough, bytes_cons c s, size_bounds c))
gather_rest (suc fuel) (c ∷ s) ls h enough =
    let t = c ∷ s in
    let n = room false t in
    let a = (fit n t).0 in
    let b = (fit n t).1 in
    let less : bytes b ≤ fuel = omega (arith, round_progress false c s, enough) in
    let later = gather_rest fuel b ls (scalars-fit n t h) less in
    ap (λ xs. gather (xs ++ ls)) (fold_bytes_round fuel false c s h)
    ∙ ap (λ (p : Text × List Text). (a ++ p.0, p.1)) later
    ∙ ap (λ x. (x, (gather ls).1))
        (sym (append_assoc a b (gather ls).0) ∙ ap (λ x. x ++ (gather ls).0) (fit_joins n t))

-- Every line has at most 75 bytes.
abbrev pub all_short : List Text → Bool
all_short = all (λ (l : Text). leb (bytes l) 75)

pub no_fuel : (first : Bool) (raw : List ℕ) → fold_bytes 0 first raw ≡ []
unfolding fold_bytes
no_fuel first raw = refl

bytes-indent : (first : Bool) (a : Text) → bytes a ≤ limit first → bytes (indent first ++ a) ≤ 75
bytes-indent true a h = h
bytes-indent false a h = omega (arith, bytes_cons 32 a, h)

short_rest :
    (fuel : ℕ) (first : Bool) (t : Text)
    → all is_scalar t ≡ true
    → all_short (fold_bytes fuel first (encode t)) ≡ true
short_rest fuel first [] h = ap all_short (fold_bytes_end fuel first)
short_rest zero first (c ∷ s) h = ap all_short (no_fuel first (encode (c ∷ s)))
short_rest (suc fuel) first (c ∷ s) h =
    let t = c ∷ s in
    let n = room first t in
    let later = short_rest fuel false (fit n t).1 (scalars-fit n t h) in
    let short =
      le→leb _ 75 (bytes-indent first (fit n t).0 (omega (arith, fit_low n t, room_low first t))) in
    rw (fold_bytes_round fuel first c s h, later, short) refl

all_short-append :
    (xs ys : List Text) → all_short xs ≡ true → all_short ys ≡ true → all_short (xs ++ ys) ≡ true
all_short-append [] ys h k = k
all_short-append (x ∷ xs) ys h k = ground (arith, all_short-append xs ys, h, k)

first_chunk :
    (c : ℕ) (s : Text) → let n = room true (c ∷ s) in (fit n (c ∷ s)).0 ≡ c ∷ (fit (n - size c) s).0
first_chunk c s =
    let t = c ∷ s in
    fit_some (room true t) c s
      (room_holds true (size c) t (omega (arith, bytes_cons c s)) (size_bounds c).1)

-- The lines that the first round starts.
gather_first :
    (fuel c : ℕ) (s : Text) (ls : List Text)
    → all is_scalar (c ∷ s) ≡ true
    → eqb c 32 ≡ false
    → bytes (c ∷ s) ≤ fuel
    → gather (fold_bytes fuel true (encode (c ∷ s)) ++ ls)
      ≡ ([], ((c ∷ s) ++ (gather ls).0) ∷ (gather ls).1)
gather_first zero c s ls h starts enough =
    absurd (omega (arith, enough, bytes_cons c s, size_bounds c))
gather_first (suc fuel) c s ls h starts enough =
    let t = c ∷ s in
    let n = room true t in
    let a = (fit n t).0 in
    let b = (fit n t).1 in
    let less : bytes b ≤ fuel = omega (arith, round_progress true c s, enough) in
    let later = gather_rest fuel b ls (scalars-fit n t h) less in
    let own : is_continuation a ≡ false = ap is_continuation (first_chunk c s) ∙ starts in
    ap (λ xs. gather (xs ++ ls)) (fold_bytes_round fuel true c s h)
    ∙ rw (own, later) refl
    ∙ ap (λ (x : Text). ([], x ∷ (gather ls).1))
        (sym (append_assoc a b (gather ls).0) ∙ ap (λ x. x ++ (gather ls).0) (fit_joins n t))

gather_long :
    (line : Text) (ls : List Text)
    → all is_scalar line ≡ true
    → is_continuation line ≡ false
    → leb (length (encode line)) 75 ≡ false
    → gather (fold_bytes (length (encode line)) true (encode line) ++ ls)
      ≡ ([], (line ++ (gather ls).0) ∷ (gather ls).1)
unfolding bytes encode
gather_long [] ls h starts long = cc
gather_long (c ∷ s) ls h starts long =
    gather_first (length (encode (c ∷ s))) c s ls h starts (omega arith)

short_line : (line : Text) → all is_scalar line ≡ true → all_short (fold_line line) ≡ true
unfolding fold_line bytes
short_line line h = elim (Bool-cases (leb (length (encode line)) 75)) [
  | inl short ↦ rw (short, short) refl
  | inr long ↦ rw long (short_rest (length (encode line)) true line h)
]

gather_line :
    (line : Text) (ls : List Text)
    → all is_scalar line ≡ true
    → is_continuation line ≡ false
    → gather (fold_line line ++ ls) ≡ ([], (line ++ (gather ls).0) ∷ (gather ls).1)
unfolding fold_line
gather_line line ls h starts = elim (Bool-cases (leb (length (encode line)) 75)) [
  | inl short ↦ rw (short, starts) refl
  | inr long ↦ rw long (gather_long line ls h starts long)
]

-- A content line: code points that UTF-8 can encode, and no space in front.
abbrev pub is_content : Text → Bool
is_content line = all is_scalar line && not (is_continuation line)

gather_lines :
    (lines : List Text) → all is_content lines ≡ true → gather (fold_ical_lines lines) ≡ ([], lines)
unfolding fold_ical_lines
gather_lines [] h = refl
gather_lines (line ∷ lines) h =
    let (content, rest) = and_parts (is_content line) (all is_content lines) h in
    let (scalars, starts) = and_parts (all is_scalar line) (not (is_continuation line)) content in
    let later = gather_lines lines rest in
    let own : is_continuation line ≡ false = ground (arith, starts) in
    gather_line line (fold_ical_lines lines) scalars own
    ∙ rw later (ap (λ (x : Text). ([], x ∷ lines)) (append-nil line))

short_lines :
    (lines : List Text) → all is_content lines ≡ true → all_short (fold_ical_lines lines) ≡ true
unfolding fold_ical_lines
short_lines [] h = refl
short_lines (line ∷ lines) h =
    let (content, rest) = and_parts (is_content line) (all is_content lines) h in
    let (scalars, starts) = and_parts (all is_scalar line) (not (is_continuation line)) content in
    all_short-append (fold_line line) (fold_ical_lines lines) (short_line line scalars)
      (short_lines lines rest)

-- Every line of the feed has at most 75 bytes, no code point is cut in two, and a reader that joins
-- the continuations gets the content lines back.
pub unfold-fold_ical_lines :
    (lines : List Text)
    → all is_content lines ≡ true
    → (unfold_lines (fold_ical_lines lines) ≡ lines) × (all_short (fold_ical_lines lines) ≡ true)
unfolding unfold_lines
unfold-fold_ical_lines lines h =
    (ap (λ (p : Text × List Text). p.1) (gather_lines lines h), short_lines lines h)
