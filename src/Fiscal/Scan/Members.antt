-- ===== src/Fiscal/Scan/Members.antt =====
-- Whatever a meeting decides, every row that is kept came in.
use mathlib.Core.List.Memᴰ
use mathlib.Core.List.{Memᴰ}
use fincal.Prelude.{
  ◌≡◌, ◌⊎◌, inl, inr, Option, some, List, [], ◌∷◌, foldl, Option-cases, Bool-cases,
}
use fincal.Prelude.Interfaces.{Eq, ◌==◌, option_eq}
use fincal.Fiscal.Scan.{Choice, scan}
use fincal.Fiscal.Scan.Place.{place, place_at, settle, scan-eq-place}

module _ {ℓ κ} {R : Type ℓ} {K : Type κ} ⦃e : Eq K⦄ (key : R → Option K)
    (choose : R → R → Choice) where
  settle-mem :
      (c : Choice) (row y x : R) (xs : List R)
      → Memᴰ x (settle key choose c row y xs)
      → Memᴰ x (y ∷ xs) ⊎ (x ≡ row)
  settle-mem Choice.replace row y x xs (Memᴰ.head p) = inr p
  settle-mem Choice.replace row y x xs (Memᴰ.tail m) = inl (Memᴰ.tail m)
  settle-mem Choice.discard row y x xs m = inl m
  settle-mem Choice.both row y x xs m = elim (Memᴰ.append_cases (y ∷ xs) m) [
    | inl old ↦ inl old
    | inr new ↦ inr (Memᴰ.eq_of_singleton new)
  ]

  place_at-mem :
      (k : K) (row : R) (xs : List R) (x : R)
      → Memᴰ x (place_at key choose k row xs)
      → Memᴰ x xs ⊎ (x ≡ row)
  unfolding place_at
  place_at-mem k row [] x m = inr (Memᴰ.eq_of_singleton m)
  place_at-mem k row (y ∷ xs) x m = elim (Bool-cases (key y == some k)) [
    | inl same ↦ settle-mem (choose row y) row y x xs (rw same at m)
    | inr other ↦ elim (Memᴰ.cases_cons (rw other at m)) [
      | inl here ↦ inl (Memᴰ.head here)
      | inr later ↦ elim (place_at-mem k row xs x later) [
        | inl old ↦ inl (Memᴰ.tail old)
        | inr new ↦ inr new
      ]
    ]
  ]

  place-mem :
      (row : R) (xs : List R) (x : R) → Memᴰ x (place key choose xs row) → Memᴰ x xs ⊎ (x ≡ row)
  unfolding place
  place-mem row xs x m = elim (Option-cases (key row)) [
    | inl free ↦ elim (Memᴰ.append_cases xs (rw free at m)) [
      | inl old ↦ inl old
      | inr new ↦ inr (Memᴰ.eq_of_singleton new)
    ]
    | inr (k, known) ↦ place_at-mem k row xs x (rw known at m)
  ]

  places-mem :
      (rows xs : List R) (x : R)
      → Memᴰ x (foldl (place key choose) xs rows)
      → Memᴰ x xs ⊎ Memᴰ x rows
  places-mem [] xs x m = inl m
  places-mem (row ∷ rows) xs x m = elim (places-mem rows (place key choose xs row) x m) [
    | inr later ↦ inr (Memᴰ.tail later)
    | inl here ↦ elim (place-mem row xs x here) [ inl old ↦ inl old | inr p ↦ inr (Memᴰ.head p) ]
  ]

  pub scan-mem : (rows : List R) (x : R) → Memᴰ x (scan key choose rows).kept → Memᴰ x rows
  scan-mem rows x m = elim (places-mem rows [] x (rw (scan-eq-place key choose rows) at m)) [
    | inl absent ↦ absurd (Memᴰ.not-nil absent)
    | inr here ↦ here
  ]
