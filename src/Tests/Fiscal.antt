-- ===== src/Tests/Fiscal.antt =====
-- The fiscal rules of app/fiscal.py on sample rows.
use mathlib.Core.List.{Memᴰ}
use fincal.Prelude.{
  ◌≤◌, ◌≡◌, ◌≢◌, ◌↔◌, ◌⊎◌, ◌+◌, refl, true, false, Option, none, some, List, [], ◌∷◌, count, any,
  map, ap, sym, ◌∙◌, if◌then◌else◌,
}
use fincal.Prelude.Interfaces.{nat_eq, list_eq, pair_eq, nat_order, list_order}
use fincal.Prelude.Int.{ℤ, pos, int_eq}
use fincal.Prelude.Text.{Text, codes}
use fincal.Calendar.{Date}
use fincal.Fiscal.Row.{Row, Scalar, DateCell}
use fincal.Fiscal.Identity.{FiscalKey, fiscal_key, is_disclosure, report_date_of}
use fincal.Fiscal.Authority.{outranks}
use fincal.Fiscal.Authority.Rules.{Precedes, outranks_of_Precedes}
use fincal.Prelude.Dict
use fincal.Fiscal.Scan.{scan}
use fincal.Fiscal.Scan.Counts.{has_key}
use fincal.Fiscal.Collapse.{
  DateKey, same_date_key, collapse_periods, collapse_same_date, collapse_fiscal_duplicates,
  collapse_rows_by_period,
}
use fincal.Fiscal.Collapse.Announced.{IsAnnounced}
use fincal.Fiscal.Collapse.SameDate.{collapse_same_date-keeps, same_date_leftover}
use fincal.Fiscal.Collapse.Order.{HasIds, collapse_periods-order_free}
use fincal.Fiscal.Collapse.Batch.{collapse_rows-conserves}
use fincal.Fiscal.Collapse.Result.{
  IsListed, collapse-represents, collapse-one_per_period, collapse-in_order,
}
use fincal.Fiscal.Labels.{fiscal_label_consistent}
use fincal.Fiscal.Labels.Conflicts.{label-refused_iff, Contradicts}
use fincal.Fiscal.Comparison.{
  comparison_unavailable_reason, declared_attribution, has_comparable_values, basis_unverified,
}
use fincal.Fiscal.Comparison.Reasons.{
  Agree, Disagree, comparison-none_iff, comparison-never_unverified,
}
use fincal.Fiscal.Unreleased.{hide_unreleased_actuals, report_date_value}
use fincal.Fiscal.Unreleased.Masking.{hide_safe, premature}
use fincal.Tests.Rows.{
  reported_row, predicted_row, misplaced_row, annual_row, half_year_row, release_row,
}

abbrev third_quarter : FiscalKey
third_quarter = ((codes "AAPL", codes "US"), (pos 2025, pos 3))

abbrev announced : DateKey
announced = ((codes "0700.HK", codes "HK"), record { year = 2025; month = 7; day = 31 })

reported_row_key : fiscal_key reported_row ≡ some third_quarter
unfolding fiscal_key
reported_row_key = refl

predicted_row_key : fiscal_key predicted_row ≡ some third_quarter
unfolding fiscal_key
predicted_row_key = refl

abbrev two_rows : List Row
two_rows = predicted_row ∷ reported_row ∷ []

collapse-one_per_period_example :
    count (has_key fiscal_key third_quarter) (collapse_fiscal_duplicates two_rows) ≤ 1
collapse-one_per_period_example = collapse-one_per_period two_rows third_quarter

collapse-represents_example :
    (w : Row) × Memᴰ w two_rows
    × (fiscal_key w ≡ some third_quarter)
    × (outranks predicted_row w ≡ false)
    × (Memᴰ w (collapse_fiscal_duplicates two_rows)
        ⊎ ((v : Row) × Memᴰ v (collapse_fiscal_duplicates two_rows)
            × (is_disclosure w.report_type ≡ true)
            × (is_disclosure v.report_type ≡ false)
            × ((day : DateKey) × IsAnnounced day v × IsAnnounced day w)))
collapse-represents_example =
    collapse-represents two_rows predicted_row third_quarter (Memᴰ.head refl) predicted_row_key

collapse-in_order_example :
    ((x : Row) → Memᴰ x (collapse_fiscal_duplicates two_rows) → Memᴰ x two_rows)
    × IsListed (collapse_fiscal_duplicates two_rows)
collapse-in_order_example = collapse-in_order two_rows

outranks_of_Precedes_example : outranks reported_row predicted_row ≡ true
outranks_of_Precedes_example =
    outranks_of_Precedes reported_row predicted_row (Precedes.confirmed refl refl)

abbrev same_rows : List Row
same_rows = reported_row ∷ predicted_row ∷ []

id_given : (x : Row) → Memᴰ x two_rows → (n : ℤ) × (x.id ≡ some n)
id_given x (Memᴰ.head e) = (pos 2, ap (λ row. row.id) e)
id_given x (Memᴰ.tail (Memᴰ.head e)) = (pos 1, ap (λ row. row.id) e)
id_given x (Memᴰ.tail (Memᴰ.tail m)) = elim m [ ]

ids_differ : (x y : Row) → x ≡ predicted_row → y ≡ reported_row → x.id ≢ y.id
ids_differ x y e f h =
    let shown : Path (Option ℤ) (some (pos 2)) (some (pos 1)) =
      sym (ap (λ row. row.id) e) ∙ h ∙ ap (λ row. row.id) f in
    cc

id_distinct : (x y : Row) → Memᴰ x two_rows → Memᴰ y two_rows → x.id ≡ y.id → x ≡ y
id_distinct x y (Memᴰ.head e) (Memᴰ.head f) h = e ∙ sym f
id_distinct x y (Memᴰ.head e) (Memᴰ.tail (Memᴰ.head f)) h = absurd (ids_differ x y e f h)
id_distinct x y (Memᴰ.tail (Memᴰ.head e)) (Memᴰ.head f) h = absurd (ids_differ y x f e (sym h))
id_distinct x y (Memᴰ.tail (Memᴰ.head e)) (Memᴰ.tail (Memᴰ.head f)) h = e ∙ sym f
id_distinct x y (Memᴰ.tail (Memᴰ.tail m)) n h = elim m [ ]
id_distinct x y (Memᴰ.head e) (Memᴰ.tail (Memᴰ.tail n)) h = elim n [ ]
id_distinct x y (Memᴰ.tail (Memᴰ.head e)) (Memᴰ.tail (Memᴰ.tail n)) h = elim n [ ]

two_ids : HasIds two_rows
two_ids = record { given = λ x m. id_given x m; distinct = λ x y m n h. id_distinct x y m n h }

swapped : (x y z : Row) → Memᴰ x (y ∷ z ∷ []) → Memᴰ x (z ∷ y ∷ [])
swapped x y z (Memᴰ.head e) = Memᴰ.tail (Memᴰ.head e)
swapped x y z (Memᴰ.tail (Memᴰ.head e)) = Memᴰ.head e
swapped x y z (Memᴰ.tail (Memᴰ.tail m)) = elim m [ ]

predicted_row_outranked : Memᴰ reported_row (collapse_periods two_rows)
unfolding collapse_periods scan fiscal_key outranks Dict.get Dict.put
predicted_row_outranked = Memᴰ.head refl

collapse_periods-order_free_example : Memᴰ reported_row (collapse_periods same_rows)
collapse_periods-order_free_example =
    collapse_periods-order_free two_rows same_rows reported_row third_quarter two_ids
      (λ x. (swapped x predicted_row reported_row, swapped x reported_row predicted_row))
      predicted_row_outranked reported_row_key

abbrev identity : Row → Option FiscalKey
identity = fiscal_key

abbrev no_date : Row → Option Text
no_date row = none

abbrev rank : Row → ℤ
rank row = if is_disclosure row.report_type then pos 1 else pos 0

collapse_rows-conserves_example :
    (count
          (λ row. row.is_predicted)
          (collapse_rows_by_period identity no_date (some rank) two_rows).kept
        + count
            (λ row. row.is_predicted)
            (collapse_rows_by_period identity no_date (some rank) two_rows).dropped
      ≡ 1)
    × (count
          (has_key identity third_quarter)
          (collapse_rows_by_period identity no_date (some rank) two_rows).kept
        ≤ 1)
collapse_rows-conserves_example =
    collapse_rows-conserves identity no_date (some rank) (λ row. row.is_predicted) third_quarter
      two_rows

abbrev summer : DateCell
summer = DateCell.date (record { year = 2025; month = 7; day = 31 })

label-refused_iff_example :
    (fiscal_label_consistent
        (some (codes "AAPL"))
        (some (codes "US"))
        (Scalar.number (pos 2025))
        (Scalar.number (pos 3))
        summer
        (misplaced_row ∷ [])
      ≡ false)
    ↔ ((row : Row) × Memᴰ row (misplaced_row ∷ [])
        × Contradicts
            (some (codes "AAPL"))
            (some (codes "US"))
            (pos 2025)
            (pos 3)
            (record { year = 2025; month = 7; day = 31 })
            row)
label-refused_iff_example =
    label-refused_iff (some (codes "AAPL")) (some (codes "US")) (pos 2025) (pos 3)
      (record { year = 2025; month = 7; day = 31 }) (Scalar.number (pos 2025))
      (Scalar.number (pos 3)) summer (misplaced_row ∷ []) refl refl refl refl refl

reported_row_is_complete : has_comparable_values reported_row ≡ true
unfolding has_comparable_values
reported_row_is_complete = refl

comparison-none_iff_example : (comparison_unavailable_reason reported_row ≡ none) ↔ (
    Agree
      (declared_attribution reported_row.estimate_currency)
      (declared_attribution reported_row.actual_currency)
    × ¬ Disagree
        (declared_attribution reported_row.estimate_basis)
        (declared_attribution reported_row.actual_basis))
comparison-none_iff_example = comparison-none_iff reported_row reported_row_is_complete

comparison-never_unverified_example :
    comparison_unavailable_reason reported_row ≢ some basis_unverified
comparison-never_unverified_example = comparison-never_unverified reported_row

abbrev clock : Date
clock = record { year = 2025; month = 8; day = 15 }

abbrev mixed_rows : List Row
mixed_rows = reported_row ∷ misplaced_row ∷ []

hide_safe_example :
    (any
        (premature clock DateCell.missing)
        (hide_unreleased_actuals clock DateCell.missing mixed_rows).0
      ≡ false)
    × (map report_date_value (hide_unreleased_actuals clock DateCell.missing mixed_rows).0
        ≡ map report_date_value mixed_rows)
hide_safe_example = hide_safe clock DateCell.missing mixed_rows

abbrev one_day : List Row
one_day = half_year_row ∷ release_row ∷ []

collapse_same_date-keeps_example :
    Memᴰ half_year_row (collapse_same_date one_day)
    ⊎ ((w : Row) × Memᴰ w (collapse_same_date one_day)
        × (is_disclosure half_year_row.report_type ≡ true)
        × (is_disclosure w.report_type ≡ false)
        × ((k : DateKey) × IsAnnounced k w × IsAnnounced k half_year_row))
collapse_same_date-keeps_example = collapse_same_date-keeps one_day half_year_row (Memᴰ.head refl)

annual_row_day : same_date_key annual_row ≡ some announced
unfolding same_date_key report_date_of
annual_row_day = refl

half_year_row_day : same_date_key half_year_row ≡ some announced
unfolding same_date_key report_date_of
half_year_row_day = refl

release_row_day : same_date_key release_row ≡ some announced
unfolding same_date_key report_date_of
release_row_day = refl

annual_row_kind : is_disclosure annual_row.report_type ≡ true
unfolding is_disclosure
annual_row_kind = refl

half_year_row_kind : is_disclosure half_year_row.report_type ≡ true
unfolding is_disclosure
half_year_row_kind = refl

release_row_kind : is_disclosure release_row.report_type ≡ false
unfolding is_disclosure
release_row_kind = refl

same_date_leftover_example :
    collapse_same_date (annual_row ∷ half_year_row ∷ release_row ∷ [])
    ≡ release_row ∷ half_year_row ∷ []
same_date_leftover_example =
    same_date_leftover announced annual_row half_year_row release_row annual_row_day
      half_year_row_day release_row_day annual_row_kind half_year_row_kind release_row_kind
