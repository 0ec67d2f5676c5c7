-- ===== src/Fiscal/Collapse/Batch.antt =====
-- `collapse_rows_by_period`, the pass over a provider's batch before it is written.
use fincal.Prelude.{
  ℕ, suc, zero, ◌+◌, ◌≤◌, ◌≡◌, ◌∙◌, sym, refl, inl, inr, Bool, true, false, Option, some, List, [],
  ◌∷◌, arith, count, count-append, foldl, set, get_elem?, if◌then◌else◌, Option-cases,
}
use fincal.Prelude.Interfaces.{Eq, list_order, nat_order, nat_eq, list_eq, pair_eq}
use fincal.Prelude.Int.{ℤ, int_order, int_eq}
use fincal.Prelude.Text.{Text}
use fincal.Prelude.Dict
use fincal.Fiscal.Identity.{FiscalKey}
use fincal.Fiscal.Scan.{Choice, Scan, start, apply, step, scan}
use fincal.Fiscal.Scan.Place.{
  IsIndexed, position_of, get_elem?-position_of, step_lem, scan-eq-place,
}
use fincal.Fiscal.Scan.Winners.{keep_better}
use fincal.Fiscal.Scan.Counts.{has_key, count-winners_from}
use fincal.Fiscal.Collapse.{batch_better, collapse_rows_by_period}

-- Nothing is lost on the way: what is replaced or refused goes to `dropped`.
module _ {ℓ κ} {R : Type ℓ} {K : Type κ} ⦃e : Eq K⦄ (key : R → Option K) (better : R → R → Bool)
    (p : R → Bool) where
  count-set :
      (xs : List R) (i : ℕ) (old row : R)
      → get_elem? xs i ≡ some old
      → count p (set xs i row) + count p (old ∷ []) ≡ count p xs + count p (row ∷ [])
  count-set [] i old row h = cc
  count-set (x ∷ xs) zero old row h = ground arith
  count-set (x ∷ xs) (suc i) old row h = ground (arith, count-set xs i old row h)

  -- How often a row was seen: kept or dropped.
  abbrev seen : Scan R K → ℕ
  seen s = count p s.kept + count p s.dropped

  seen-apply :
      (b : Bool) (i : ℕ) (old row : R) (s : Scan R K)
      → get_elem? s.kept i ≡ some old
      → seen (apply (if b then Choice.replace else Choice.discard) i old row s)
        ≡ seen s + count p (row ∷ [])
  seen-apply true i old row s h =
      omega (arith, count-set s.kept i old row h, count-append {ℓ} p s.dropped (old ∷ []))
  seen-apply false i old row s h = omega (arith, count-append {ℓ} p s.dropped (row ∷ []))

  seen-step :
      (s : Scan R K) (row : R)
      → IsIndexed key (keep_better better) s
      → seen (step key (keep_better better) s row) ≡ seen s + count p (row ∷ [])
  unfolding step
  seen-step s row h = elim (Option-cases (key row)) [
    | inl free ↦ rw free (omega (arith, count-append {ℓ} p s.kept (row ∷ [])))
    | inr (k, known) ↦ elim (Option-cases (Dict.get k s.positions)) [
      | inl miss ↦ rw (known, miss) (omega (arith, count-append {ℓ} p s.kept (row ∷ [])))
      | inr (i, hit) ↦
          let (old, there, same) = get_elem?-position_of key k s.kept i (sym (h.index k) ∙ hit) in
          rw (known, hit, there) (seen-apply (better row old) i old row s there)
    ]
  ]

  seen-steps :
      (rows : List R) (s : Scan R K)
      → IsIndexed key (keep_better better) s
      → seen (foldl (step key (keep_better better)) s rows) ≡ seen s + count p rows
  seen-steps [] s h = omega arith
  seen-steps (row ∷ rows) s h = ground (
    arith,
    seen-step s row h,
    seen-steps rows (step key (keep_better better) s row)
        (step_lem key (keep_better better) s row h).0,
  )

  pub seen-scan :
      (rows : List R)
      → count p (scan key (keep_better better) rows).kept
          + count p (scan key (keep_better better) rows).dropped
        ≡ count p rows
  unfolding scan Dict.get position_of
  seen-scan rows = omega (arith, seen-steps rows start (record { index = λ k. refl }))

module _ {ℓ} {R : Type ℓ} (identity_of : R → Option FiscalKey) (date_of : R → Option Text)
    (rank_of : Option (R → ℤ)) where
  -- The pass loses no row silently: whatever is counted, the rows that it returns and the rows that
  -- it reports as dropped make up the batch; and it returns at most one row of each fiscal identity.
  pub collapse_rows-conserves :
      (p : R → Bool) (k : FiscalKey) (rows : List R)
      → (count p (collapse_rows_by_period identity_of date_of rank_of rows).kept
            + count p (collapse_rows_by_period identity_of date_of rank_of rows).dropped
          ≡ count p rows)
        × (count
              (has_key identity_of k)
              (collapse_rows_by_period identity_of date_of rank_of rows).kept
            ≤ 1)
  unfolding collapse_rows_by_period
  collapse_rows-conserves p k rows = (
    seen-scan identity_of (batch_better date_of rank_of) p rows,
    rw (scan-eq-place identity_of (keep_better (batch_better date_of rank_of)) rows)
        (count-winners_from identity_of (batch_better date_of rank_of) k rows [] (omega arith)),
  )
