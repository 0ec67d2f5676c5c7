-- ===== src/Ical/Folding.antt =====
-- One round of the folding of app/ical.py.
use fincal.Prelude.{
  ℕ, zero, suc, ◌-◌, ◌≤◌, ◌<◌, ◌≡◌, refl, ap, ◌∙◌, Bool, true, false, [], ◌∷◌, ◌++◌, arith, all,
}
use fincal.Prelude.Text.{Text, is_empty}
use fincal.Ical.Fold.{encode, min, limit, indent, fold_bytes}
use fincal.Ical.Utf8.{is_scalar, size}
use fincal.Ical.Fits.{fit, bytes, bytes_cons, size_bounds, fit_some, drop-fit, bytes-fit}
use fincal.Ical.Cuts.{shorten-fit}

-- How many bytes of the text the next line takes.
abbrev pub room : Bool → Text → ℕ
room first t = min (limit first) (bytes t)

pub room_low : (first : Bool) (t : Text) → (room first t ≤ bytes t) × (room first t ≤ limit first)
room_low first t = ground arith

pub fold_bytes_end : (fuel : ℕ) (first : Bool) → fold_bytes fuel first (encode []) ≡ []
unfolding fold_bytes encode
fold_bytes_end zero first = refl
fold_bytes_end (suc fuel) first = refl

nonempty : (c : ℕ) (s : Text) → is_empty (encode (c ∷ s)) ≡ false
unfolding encode
nonempty c s = ground arith

-- A round takes what fits.
pub fold_bytes_round :
    (fuel : ℕ) (first : Bool) (c : ℕ) (s : Text)
    → all is_scalar (c ∷ s) ≡ true
    → let parts = fit (room first (c ∷ s)) (c ∷ s) in
      fold_bytes (suc fuel) first (encode (c ∷ s))
      ≡ (indent first ++ parts.0) ∷ fold_bytes fuel false (encode parts.1)
unfolding fold_bytes bytes
fold_bytes_round fuel first c s h =
    let t = c ∷ s in
    let n = room first t in
    let chunk = shorten-fit n t h (room_low first t).0 in
    rw (nonempty c s, chunk, drop-fit n t) refl

pub room_holds : (first : Bool) (k : ℕ) (t : Text) → k ≤ bytes t → k ≤ 4 → k ≤ room first t
room_holds first k t h small = ground (arith, h, small)

-- A chunk has its code point at least, and leaves fewer bytes.
pub round_progress :
    (first : Bool) (c : ℕ) (s : Text) → bytes (fit (room first (c ∷ s)) (c ∷ s)).1 < bytes (c ∷ s)
round_progress first c s =
    let t = c ∷ s in
    let n = room first t in
    let (low, high) = size_bounds c in
    let at = bytes_cons c s in
    let holds : size c ≤ n = room_holds first (size c) t (omega (arith, at)) high in
    let used = ap bytes (fit_some n c s holds) ∙ bytes_cons c (fit (n - size c) s).0 in
    omega (arith, bytes-fit n t, used, low)
