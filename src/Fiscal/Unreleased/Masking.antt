-- ===== src/Fiscal/Unreleased/Masking.antt =====
-- What the masking of future-dated rows guarantees.
use mathlib.Core.Path.{ap₂}
use fincal.Prelude.{
  ◌&&◌, any, ◌≡◌, inl, inr, refl, ◌∙◌, Bool, true, false, some, List, [], ◌∷◌, arith, count, not,
  is_some, ◌||◌, if◌then◌else◌, Bool-cases, map,
}
use fincal.Prelude.Interfaces.{◌==◌, nat_eq, list_eq, option_eq}
use fincal.Calendar.{Date}
use fincal.Fiscal.Row.{Row, DateCell}
use fincal.Fiscal.Identity.{has_actuals}
use fincal.Fiscal.Unreleased.{
  mask, report_date_in_future, report_date_value, report_date_is_future, has_unreleased_actuals,
  hide_unreleased_actuals,
}

module _ (clock : Date) (today : DateCell) where
  -- What becomes of one row.
  abbrev pub shown : Row → Row
  shown row = if has_unreleased_actuals clock today row then mask row else row

  hide-eq-map :
      (rows : List Row)
      → hide_unreleased_actuals clock today rows
        ≡ (map shown rows, count (has_unreleased_actuals clock today) rows)
  unfolding hide_unreleased_actuals
  hide-eq-map [] = refl
  hide-eq-map (row ∷ rows) = elim (Bool-cases (has_unreleased_actuals clock today row)) [
    | inl yes' ↦ rw (yes', hide-eq-map rows)
    | inr no' ↦ rw (no', hide-eq-map rows)
  ]

  masked_is_masked : (row : Row) → has_unreleased_actuals clock today (mask row) ≡ true
  unfolding mask has_unreleased_actuals
  masked_is_masked row = refl

  mask-mask : (row : Row) → mask (mask row) ≡ mask row
  unfolding mask
  mask-mask row = refl

  -- Whether a row is masked is seen on it afterwards too.
  shown-flag :
      (row : Row)
      → has_unreleased_actuals clock today (shown row) ≡ has_unreleased_actuals clock today row
  shown-flag row = elim (Bool-cases (has_unreleased_actuals clock today row)) [
    | inl is ↦ rw is (masked_is_masked row)
    | inr isnt ↦ rw isnt isnt
  ]

  shown-shown : (row : Row) → shown (shown row) ≡ shown row
  shown-shown row = elim (Bool-cases (has_unreleased_actuals clock today row)) [
    | inl is ↦ rw is (rw (masked_is_masked row) (mask-mask row))
    | inr isnt ↦ rw (isnt, isnt)
  ]

  shown_twice : (rows : List Row) → map shown (map shown rows) ≡ map shown rows
  shown_twice [] = refl
  shown_twice (row ∷ rows) = ap₂ ◌∷◌ (shown-shown row) (shown_twice rows)

  count-shown :
      (rows : List Row)
      → count (has_unreleased_actuals clock today) (map shown rows)
        ≡ count (has_unreleased_actuals clock today) rows
  count-shown [] = refl
  count-shown (row ∷ rows) = rw (shown-flag row, count-shown rows)

  -- A second consumer reaches the same verdict: masking masked rows again changes no row, and
  -- reports the same number.
  hide_twice :
      (rows : List Row)
      → hide_unreleased_actuals clock today (hide_unreleased_actuals clock today rows).0
        ≡ hide_unreleased_actuals clock today rows
  hide_twice rows =
      rw (hide-eq-map rows)
        (hide-eq-map (map shown rows) ∙ ap₂ (λ a b. (a, b)) (shown_twice rows) (count-shown rows))

  -- An actual of a report that has not happened.
  abbrev pub premature : Row → Bool
  premature row = report_date_is_future clock today row && has_actuals row

  masked-not_premature : (row : Row) → premature (mask row) ≡ false
  unfolding mask has_actuals
  masked-not_premature row = ground arith

  split_tests :
      (code future actual : Bool)
      → (if code then true else if not future then false else actual) ≡ false
      → (future && actual) ≡ false
  split_tests code future actual h = ground arith

  unmasked-not_premature :
      (row : Row) → has_unreleased_actuals clock today row ≡ false → premature row ≡ false
  unfolding has_unreleased_actuals has_actuals
  unmasked-not_premature row h =
      split_tests (row.comparison_unavailable_reason == some report_date_in_future)
        (report_date_is_future clock today row)
        (is_some row.eps_actual || is_some row.revenue_actual) h

  shown-not_premature : (row : Row) → premature (shown row) ≡ false
  shown-not_premature row = elim (Bool-cases (has_unreleased_actuals clock today row)) [
    | inl is ↦ rw is (masked-not_premature row)
    | inr isnt ↦ rw isnt (unmasked-not_premature row isnt)
  ]

  date-shown : (row : Row) → report_date_value (shown row) ≡ report_date_value row
  unfolding mask report_date_value
  date-shown row = ground arith

  dates_kept :
      (rows : List Row) → map report_date_value (map shown rows) ≡ map report_date_value rows
  dates_kept [] = refl
  dates_kept (row ∷ rows) = ap₂ ◌∷◌ (date-shown row) (dates_kept rows)

  any-shown : (rows : List Row) → any premature (map shown rows) ≡ false
  any-shown [] = refl
  any-shown (row ∷ rows) = rw (shown-not_premature row, any-shown rows)

  -- After the masking no row states an actual for a report that has not happened, and every row
  -- still has the report date it had.
  pub hide_safe :
      (rows : List Row)
      → (any premature (hide_unreleased_actuals clock today rows).0 ≡ false)
        × (map report_date_value (hide_unreleased_actuals clock today rows).0
            ≡ map report_date_value rows)
  hide_safe rows = rw (hide-eq-map rows) (any-shown rows, dates_kept rows)
