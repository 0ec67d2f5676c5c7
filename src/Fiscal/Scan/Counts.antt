-- ===== src/Fiscal/Scan/Counts.antt =====
-- How many rows of a key the loop keeps, and what it does with rows that have none.
use fincal.Prelude.{
  zero, suc, ◌≤◌, ◌≡◌, ◌∙◌, sym, Bool, not, inl, inr, Option, some, List, [], ◌∷◌, ◌++◌, count,
  keep, is_some, if◌then◌else◌, arith, Option-cases, Bool-cases, foldl, ◌+◌, keep-append,
  count-append, append-nil, append_assoc,
}
use fincal.Prelude.Interfaces.{Eq, ◌==◌, option_eq, beq_iff}
use fincal.Fiscal.Scan.{Choice, scan}
use fincal.Fiscal.Scan.Place.{place, place_at, settle, scan-eq-place}
use fincal.Fiscal.Scan.Winners.{keep_better, winners_from}

abbrev pub has_key {ℓ κ} : {R : Type ℓ} {K : Type κ} ⦃e : Eq K⦄ → (R → Option K) → K → R → Bool
has_key key k row = key row == some k

abbrev pub lacks_key {ℓ κ} : {R : Type ℓ} {K : Type κ} → (R → Option K) → R → Bool
lacks_key key row = not (is_some (key row))

-- Whatever a meeting decides, no row is kept more often than it came in.
module _ {ℓ κ} {R : Type ℓ} {K : Type κ} ⦃e : Eq K⦄ (key : R → Option K)
    (choose : R → R → Choice) where
  count-settle_le :
      (p : R → Bool) (c : Choice) (row x : R) (xs : List R)
      → count p (settle key choose c row x xs) ≤ count p (x ∷ xs) + count p (row ∷ [])
  count-settle_le p Choice.replace row x xs = ground arith
  count-settle_le p Choice.discard row x xs = ground arith
  count-settle_le p Choice.both row x xs = ground (arith, count-append p xs (row ∷ []))

  count-place_at_le :
      (p : R → Bool) (k : K) (row : R) (xs : List R)
      → count p (place_at key choose k row xs) ≤ count p xs + count p (row ∷ [])
  unfolding place_at
  count-place_at_le p k row [] = omega arith
  count-place_at_le p k row (x ∷ xs) = elim (Bool-cases (key x == some k)) [
    | inl same ↦ rw same (count-settle_le p (choose row x) row x xs)
    | inr other ↦ rw other (ground (arith, count-place_at_le p k row xs))
  ]

  count-places_le :
      (p : R → Bool) (rows xs : List R)
      → count p (foldl (place key choose) xs rows) ≤ count p xs + count p rows
  unfolding place
  count-places_le p [] xs = omega arith
  count-places_le p (row ∷ rows) xs = elim (Option-cases (key row)) [
    | inl free ↦
        rw free
          (ground (arith, count-append p xs (row ∷ []), count-places_le p rows (xs ++ row ∷ [])))
    | inr (k, known) ↦ rw known (
        ground (
          arith,
          count-place_at_le p k row xs,
          count-places_le p rows (place_at key choose k row xs),
        ))
  ]

  pub count-scan_le :
      (p : R → Bool) (rows : List R) → count p (scan key choose rows).kept ≤ count p rows
  count-scan_le p rows =
      rw (scan-eq-place key choose rows) (omega (arith, count-places_le p rows []))

module _ {ℓ κ} {R : Type ℓ} {K : Type κ} ⦃e : Eq K⦄ (key : R → Option K)
    (better : R → R → Bool) where
  count-place_at :
      (k j : K) (row : R) (xs : List R)
      → key row ≡ some k
      → count (has_key key j) (place_at key (keep_better better) k row xs) ≡ (
          if k == j
          then (elim (count (has_key key j) xs) [ zero ↦ 1 | suc n ↦ suc n ])
          else count (has_key key j) xs)
  unfolding place_at
  count-place_at k j row [] h = ground (arith, beq_iff k j)
  count-place_at k j row (x ∷ xs) h = ground (
    arith,
    beq_iff k j,
    beq_iff (key x) (some k),
    beq_iff (key x) (some j),
    count-place_at k j row xs h,
  )

  count-place_le :
      (j : K) (row : R) (xs : List R)
      → count (has_key key j) xs ≤ 1
      → count (has_key key j) (place key (keep_better better) xs row) ≤ 1
  unfolding place
  count-place_le j row xs h = elim (Option-cases (key row)) [
    | inl free ↦ ground (arith, count-append (has_key key j) xs (row ∷ []))
    | inr (k, known) ↦ ground (arith, count-place_at k j row xs known)
  ]

  -- No two kept rows share a key.
  pub count-winners_from :
      (j : K) (rows xs : List R)
      → count (has_key key j) xs ≤ 1
      → count (has_key key j) (winners_from key better xs rows) ≤ 1
  count-winners_from j [] xs h = h
  count-winners_from j (row ∷ rows) xs h =
      count-winners_from j rows (place key (keep_better better) xs row) (count-place_le j row xs h)

  keep-place_at :
      (k : K) (row : R) (xs : List R)
      → key row ≡ some k
      → keep (lacks_key key) (place_at key (keep_better better) k row xs) ≡ keep (lacks_key key) xs
  unfolding place_at
  keep-place_at k row [] h = ground arith
  keep-place_at k row (x ∷ xs) h =
      ground (arith, beq_iff (key x) (some k), keep-place_at k row xs h)

  keep-place :
      (row : R) (xs : List R)
      → keep (lacks_key key) (place key (keep_better better) xs row)
        ≡ keep (lacks_key key) xs ++ keep (lacks_key key) (row ∷ [])
  unfolding place
  keep-place row xs = elim (Option-cases (key row)) [
    | inl free ↦ rw free (rw free at (keep-append (lacks_key key) xs (row ∷ [])))
    | inr (k, known) ↦
        rw (known, keep-place_at k row xs known) (sym (append-nil (keep (lacks_key key) xs)))
  ]

  -- Rows without a key are all kept, in their order.
  pub keep-winners_from :
      (rows xs : List R)
      → keep (lacks_key key) (winners_from key better xs rows)
        ≡ keep (lacks_key key) xs ++ keep (lacks_key key) rows
  keep-winners_from [] xs = sym (append-nil (keep (lacks_key key) xs))
  keep-winners_from (row ∷ rows) xs =
      keep-winners_from rows (place key (keep_better better) xs row)
      ∙ rw (keep-place row xs, append_assoc) (rw (← keep-append (lacks_key key) (row ∷ []) rows))
