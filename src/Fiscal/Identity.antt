-- ===== src/Fiscal/Identity.antt =====
-- app/fiscal.py: report types, the fiscal key, and the readings of a row that the ranking uses.
use fincal.Prelude.{Bool, Option, none, some, ◌||◌, not, if◌then◌else◌, is_some}
use fincal.Prelude.Interfaces.{◌==◌, nat_eq, list_eq, option_eq}
use fincal.Prelude.Int.{ℤ}
use fincal.Prelude.Text.{Text, codes, strip, lower, upper, or_empty}
use fincal.Calendar.{Date}
use fincal.Fiscal.Row.{Row, Scalar, DateCell, truthy, to_int, is_blank}

-- The constants REPORT_TYPE_QUARTERLY, REPORT_TYPE_HALF_YEAR and REPORT_TYPE_ANNUAL.
abbrev pub quarterly : Text
quarterly = codes "Q"

abbrev pub half_year : Text
half_year = codes "H"

abbrev pub annual : Text
annual = codes "A"

-- PERIOD_TYPE_REPORT_TYPES, and DEFAULT_REPORT_TYPE for every other text.
unfoldable pub report_type_for_period_type : Option Text → Text
report_type_for_period_type period_type =
    let t = lower (strip (or_empty period_type)) in
    if t == codes "qf"
    then quarterly
    else if t == codes "3q"
    then quarterly
    else if t == codes "saf"
    then half_year
    else if t == codes "af"
    then annual
    else quarterly

-- Membership in DISCLOSURE_REPORT_TYPES.
unfoldable pub is_disclosure : Option Text → Bool
is_disclosure report_type =
    let t = upper (strip (or_empty report_type)) in t == half_year || t == annual

-- (symbol, market) and (fiscal_year, fiscal_quarter)
abbrev pub FiscalKey : Type 0
FiscalKey = (Text × Text) × (ℤ × ℤ)

abbrev join_ints : Text → Text → Option ℤ → Option ℤ → Option FiscalKey
join_ints symbol market (some y) (some q) = some ((symbol, market), (y, q))
join_ints symbol market _ _ = none

unfoldable pub fiscal_key_from_parts :
    Option Text → Option Text → Scalar → Scalar → Option FiscalKey
fiscal_key_from_parts symbol market fiscal_year fiscal_quarter =
    if not (truthy symbol) || not (truthy market)
    then none
    else if is_blank fiscal_year || is_blank fiscal_quarter
    then none
    else join_ints (or_empty symbol) (or_empty market) (to_int fiscal_year) (to_int fiscal_quarter)

unfoldable pub fiscal_key : Row → Option FiscalKey
unfolding fiscal_key_from_parts
fiscal_key row = fiscal_key_from_parts row.symbol row.market row.fiscal_year row.fiscal_quarter

-- The conversions of `report_date_of`, on the cell that it settled for.
abbrev pub date_of_cell : DateCell → Option Date
date_of_cell (DateCell.datetime d _) = some d
date_of_cell (DateCell.date d) = some d
date_of_cell (DateCell.text t) = t.sliced
date_of_cell DateCell.missing = none
date_of_cell DateCell.other = none

-- The argument wins over the row's own cell unless it is None.
abbrev settle : DateCell → DateCell → DateCell
settle DateCell.missing own = own
settle given own = given

unfoldable pub report_date_of : Row → DateCell → Option Date
report_date_of row report_date = date_of_cell (settle report_date row.report_date)

unfoldable pub has_actuals : Row → Bool
has_actuals row = is_some row.eps_actual || is_some row.revenue_actual
