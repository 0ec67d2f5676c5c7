-- ===== src/Fiscal/Collapse/SameDate.antt =====
-- The pass over the announcement dates.
use mathlib.Core.List.Memᴰ
use mathlib.Core.List.{Memᴰ}
use fincal.Prelude.{
  ◌≡◌, refl, sym, ◌∙◌, ◌⊎◌, inl, inr, Bool, true, false, some, List, [], ◌∷◌, foldl, Bool-cases,
  Option-cases,
}
use fincal.Prelude.Interfaces.{◌==◌, nat_eq, bool_eq, list_eq, pair_eq, option_eq, beq_iff}
use fincal.Calendar.{date_eq}
use fincal.Fiscal.Row.{Row}
use fincal.Fiscal.Identity.{is_disclosure}
use fincal.Fiscal.Authority.{same_date_rank}
use fincal.Fiscal.Scan.{Choice}
use fincal.Fiscal.Scan.Place.{place, place_at, settle, scan-eq-place}
use fincal.Fiscal.Collapse.Announced.{IsAnnounced, same_date_key-IsAnnounced, matched}
use fincal.Fiscal.Collapse.{DateKey, same_date_key, same_date_choice, collapse_same_date}

abbrev kind : Row → Bool
kind row = is_disclosure row.report_type

-- The outcomes of a meeting: of two different kinds the release stays.
data Outcome (row y : Row) : Type 0 where
  both : same_date_choice row y ≡ Choice.both → Outcome row y
  replace :
      same_date_choice row y ≡ Choice.replace → kind row ≡ false → kind y ≡ true → Outcome row y
  discard :
      same_date_choice row y ≡ Choice.discard → kind row ≡ true → kind y ≡ false → Outcome row y

outcome : (row y : Row) → Outcome row y
unfolding same_date_choice same_date_rank
outcome row y = elim (Bool-cases (kind row)) [
  | inl dr ↦ elim (Bool-cases (kind y)) [
    | inl dy ↦ both (rw (dr, dy))
    | inr ry ↦ discard (rw (dr, ry)) dr ry
  ]
  | inr rr ↦ elim (Bool-cases (kind y)) [
    | inl dy ↦ replace (rw (rr, dy)) rr dy
    | inr ry ↦ both (rw (rr, ry))
  ]
]

-- A row is in the list, or it is a disclosure and a release of its date is.
data Covered (x : Row) (xs : List Row) : Type 0 where
  kept : Memᴰ x xs → Covered x xs
  announced :
      (w : Row)
      → kind x ≡ true
      → kind w ≡ false
      → (k : DateKey) → IsAnnounced k w
      → IsAnnounced k x
      → Memᴰ w xs
      → Covered x xs

Covered-cons : (x y : Row) (xs : List Row) → Covered x xs → Covered x (y ∷ xs)
Covered-cons x y xs (kept m) = kept (Memᴰ.tail m)
Covered-cons x y xs (announced w dx rw' k aw ax m) = announced w dx rw' k aw ax (Memᴰ.tail m)

settle_row :
    (k : DateKey) (row y : Row) (xs : List Row)
    → IsAnnounced k row
    → IsAnnounced k y
    → Covered row (settle same_date_key same_date_choice (same_date_choice row y) row y xs)
settle_row k row y xs h g = elim (outcome row y) [
  | both c ↦ rw c (kept (Memᴰ.tail (Memᴰ.append_right xs (Memᴰ.head refl))))
  | replace c _ _ ↦ rw c (kept (Memᴰ.head refl))
  | discard c dr ry ↦ rw c (announced y dr ry k g h (Memᴰ.head refl))
]

place_at_row :
    (k : DateKey) (row : Row) (xs : List Row)
    → same_date_key row ≡ some k
    → Covered row (place_at same_date_key same_date_choice k row xs)
unfolding place_at
place_at_row k row [] h = kept (Memᴰ.head refl)
place_at_row k row (y ∷ xs) h = elim (Bool-cases (same_date_key y == some k)) [
  | inl same ↦
      rw same (settle_row k row y xs (same_date_key-IsAnnounced k row h) (matched k y same))
  | inr other ↦ rw other (
      Covered-cons row y (place_at same_date_key same_date_choice k row xs)
        (place_at_row k row xs h))
]

settle_old :
    (k : DateKey) (row y x : Row) (xs : List Row)
    → IsAnnounced k row
    → IsAnnounced k y
    → Memᴰ x (y ∷ xs)
    → Covered x (settle same_date_key same_date_choice (same_date_choice row y) row y xs)
settle_old k row y x xs h g m = elim (outcome row y) [
  | both c ↦ rw c (kept (Memᴰ.append_left (row ∷ []) m))
  | replace c rr dy ↦ rw c (elim (Memᴰ.cases_cons m) [
    | inl here ↦ rw here (announced row dy rr k h g (Memᴰ.head refl))
    | inr later ↦ kept (Memᴰ.tail later)
  ])
  | discard c _ _ ↦ rw c (kept m)
]

place_at_old :
    (k : DateKey) (row : Row) (xs : List Row) (x : Row)
    → same_date_key row ≡ some k
    → Memᴰ x xs
    → Covered x (place_at same_date_key same_date_choice k row xs)
unfolding place_at
place_at_old k row [] x h m = elim m [ ]
place_at_old k row (y ∷ xs) x h (Memᴰ.head p) = elim (Bool-cases (same_date_key y == some k)) [
  | inl same ↦
      rw same (
        settle_old k row y x xs (same_date_key-IsAnnounced k row h) (matched k y same)
          (Memᴰ.head p))
  | inr other ↦ rw other (kept (Memᴰ.head p))
]
place_at_old k row (y ∷ xs) x h (Memᴰ.tail m) = elim (Bool-cases (same_date_key y == some k)) [
  | inl same ↦
      rw same (
        settle_old k row y x xs (same_date_key-IsAnnounced k row h) (matched k y same)
          (Memᴰ.tail m))
  | inr other ↦ rw other (
      Covered-cons x y (place_at same_date_key same_date_choice k row xs)
        (place_at_old k row xs x h m))
]

abbrev placed : List Row → Row → List Row
placed = place same_date_key same_date_choice

place_row : (row : Row) (xs : List Row) → Covered row (placed xs row)
unfolding place
place_row row xs = elim (Option-cases (same_date_key row)) [
  | inl free ↦ rw free (kept (Memᴰ.append_right xs (Memᴰ.head refl)))
  | inr (k, known) ↦ rw known (place_at_row k row xs known)
]

place_old : (row x : Row) (xs : List Row) → Memᴰ x xs → Covered x (placed xs row)
unfolding place
place_old row x xs m = elim (Option-cases (same_date_key row)) [
  | inl free ↦ rw free (kept (Memᴰ.append_left (row ∷ []) m))
  | inr (k, known) ↦ rw known (place_at_old k row xs x known m)
]

-- A release that is covered is there itself.
release_kept : (w : Row) (xs : List Row) → kind w ≡ false → Covered w xs → Memᴰ w xs
release_kept w xs rw' (kept m) = m
release_kept w xs rw' (announced v dw rv k aw ax m) = cc

covered_step : (row x : Row) (xs : List Row) → Covered x xs → Covered x (placed xs row)
covered_step row x xs (kept m) = place_old row x xs m
covered_step row x xs (announced w dx rw' k aw ax m) =
    announced w dx rw' k aw ax (release_kept w (placed xs row) rw' (place_old row w xs m))

covered_through :
    (rows : List Row) (x : Row) (xs : List Row) → Covered x xs → Covered x (foldl placed xs rows)
covered_through [] x xs c = c
covered_through (row ∷ rows) x xs c =
    covered_through rows x (placed xs row) (covered_step row x xs c)

covered_all :
    (rows : List Row) (x : Row) (xs : List Row) → Memᴰ x rows → Covered x (foldl placed xs rows)
covered_all [] x xs m = elim m [ ]
covered_all (row ∷ rows) x xs (Memᴰ.head p) =
    rw p (covered_through rows row (placed xs row) (place_row row xs))
covered_all (row ∷ rows) x xs (Memᴰ.tail m) = covered_all rows x (placed xs row) m

Covered-cases :
    (x : Row) (xs : List Row)
    → Covered x xs
    → Memᴰ x xs
      ⊎ ((w : Row) × Memᴰ w xs
          × (kind x ≡ true)
          × (kind w ≡ false)
          × ((k : DateKey) × IsAnnounced k w × IsAnnounced k x))
Covered-cases x xs (kept m) = inl m
Covered-cases x xs (announced w dx rw' k aw ax m) = inr (w, m, dx, rw', (k, aw, ax))

-- The pass drops a row only if it is a disclosure, and only if a release stays that has the same
-- symbol, market and report date, none of which is missing or empty.
pub collapse_same_date-keeps :
    (rows : List Row) (x : Row)
    → Memᴰ x rows
    → Memᴰ x (collapse_same_date rows)
      ⊎ ((w : Row) × Memᴰ w (collapse_same_date rows)
          × (is_disclosure x.report_type ≡ true)
          × (is_disclosure w.report_type ≡ false)
          × ((k : DateKey) × IsAnnounced k w × IsAnnounced k x))
unfolding collapse_same_date
collapse_same_date-keeps rows x m =
    rw (scan-eq-place same_date_key same_date_choice rows)
      (Covered-cases x (foldl placed [] rows) (covered_all rows x [] m))

choice_same : (row y : Row) → kind row ≡ kind y → same_date_choice row y ≡ Choice.both
unfolding same_date_choice
choice_same row y h = rw (h, (beq_iff (kind y) (kind y)).1 refl)

choice_release :
    (row y : Row) → kind row ≡ false → kind y ≡ true → same_date_choice row y ≡ Choice.replace
unfolding same_date_choice same_date_rank
choice_release row y rr dy = rw (rr, dy)

-- Two disclosures of one symbol, market and date are both kept, and a release that comes after them
-- takes the place of the first only: the output still mixes a release and a disclosure of one date.
pub same_date_leftover :
    (k : DateKey) (first second release : Row)
    → same_date_key first ≡ some k
    → same_date_key second ≡ some k
    → same_date_key release ≡ some k
    → is_disclosure first.report_type ≡ true
    → is_disclosure second.report_type ≡ true
    → is_disclosure release.report_type ≡ false
    → collapse_same_date (first ∷ second ∷ release ∷ []) ≡ release ∷ second ∷ []
unfolding collapse_same_date place place_at
same_date_leftover k first second release kf ks kr df ds dr =
    rw (scan-eq-place same_date_key same_date_choice (first ∷ second ∷ release ∷ [])) (
      simp (
        kf,
        ks,
        kr,
        (beq_iff (some k) (some k)).1 refl,
        choice_same second first (ds ∙ sym df),
        choice_release release first dr df,
      ))
