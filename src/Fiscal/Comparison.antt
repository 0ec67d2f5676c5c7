-- ===== src/Fiscal/Comparison.antt =====
-- app/fiscal.py: whether an estimate and an actual, or the actuals of two periods, may be compared.
pub mod Reasons
use fincal.Prelude.{Bool, true, false, Option, none, some, ◌&&◌, ◌||◌, not, if◌then◌else◌, is_some}
use fincal.Prelude.Interfaces.{◌==◌, nat_eq, list_eq}
use fincal.Prelude.Int.{ℤ}
use fincal.Prelude.Text.{Text, codes, is_empty, strip, lower, upper, or_empty}
use fincal.Fiscal.Row.{Row, truthy}

-- The reason codes, and the label of an attribution that is not known.
abbrev pub unknown_attribution : Text
unknown_attribution = codes "unknown"

abbrev pub currency_unknown : Text
currency_unknown = codes "currency_unknown"

abbrev pub currency_mismatch : Text
currency_mismatch = codes "currency_mismatch"

abbrev pub basis_mismatch : Text
basis_mismatch = codes "basis_mismatch"

abbrev pub basis_unverified : Text
basis_unverified = codes "basis_unverified"

-- On the value of the field, which the callers name.
unfoldable pub declared_attribution : Option Text → Option Text
declared_attribution none = none
declared_attribution (some value) =
    let text = strip value in
    if is_empty text || lower text == unknown_attribution then none else some (upper text)

unfoldable pub has_comparable_values : Row → Bool
has_comparable_values row =
    (is_some row.eps_estimate && is_some row.eps_actual)
    || (is_some row.revenue_estimate && is_some row.revenue_actual)

-- Two sources as `_same_declared_source` and `_same_actual_source` compare them.
unfoldable pub same_source : Option Text → Option Text → Bool
same_source first second =
    if not (truthy first) || not (truthy second)
    then false
    else lower (strip (or_empty first)) == lower (strip (or_empty second))

-- Both bases are stated (a declared text is not empty), or one of them is not.
abbrev pub compare_bases : Option Text → Option Text → Option Text → Option Text
compare_bases (some left) (some right) unstated =
    if left == right then none else some basis_mismatch
compare_bases _ _ unstated = unstated

abbrev pub compare_currencies : Option Text → Option Text → Option Text → Option Text
compare_currencies (some left) (some right) bases =
    if not (left == right) then some currency_mismatch else bases
compare_currencies _ _ bases = some currency_unknown

unfoldable pub comparison_unavailable_reason : Row → Option Text
comparison_unavailable_reason row =
    if not (has_comparable_values row)
    then none
    else compare_currencies (declared_attribution row.estimate_currency)
        (declared_attribution row.actual_currency)
        (compare_bases (declared_attribution row.estimate_basis)
          (declared_attribution row.actual_basis) none)

-- GROWTH_VALUE_FIELDS; a metric that is not one of its keys is a ValueError.
pub data Metric : Type 0 where
  eps : Metric
  revenue : Metric

unfoldable pub actual_of : Metric → Row → Option ℤ
actual_of Metric.eps row = row.eps_actual
actual_of Metric.revenue row = row.revenue_actual

abbrev pub compare_growth : Metric → Row → Row → Option Text
compare_growth metric current prior =
    if not (is_some (actual_of metric current)) || not (is_some (actual_of metric prior))
    then none
    else compare_currencies (declared_attribution current.actual_currency)
        (declared_attribution prior.actual_currency)
        (compare_bases (declared_attribution current.actual_basis)
          (declared_attribution prior.actual_basis)
          (if same_source current.actual_source prior.actual_source
            then none
            else some basis_unverified))

-- A row that is not there is `none`.
unfoldable pub growth_unavailable_reason : Option Row → Option Row → Metric → Option Text
unfolding actual_of
growth_unavailable_reason (some current) (some prior) metric = compare_growth metric current prior
growth_unavailable_reason _ _ metric = none
