-- ===== src/Fiscal/Unreleased.antt =====
-- app/fiscal.py: actuals of a report whose date is still ahead.
pub mod Masking
use fincal.Prelude.{
  ℕ, zero, suc, Bool, true, false, Option, none, some, List, [], ◌∷◌, ◌||◌, not, if◌then◌else◌,
  is_some,
}
use fincal.Prelude.Interfaces.{◌==◌, nat_eq, list_eq, option_eq}
use fincal.Prelude.Text.{Text, codes}
use fincal.Calendar.{Date, date_lt}
use fincal.Fiscal.Row.{Row, Stamp, DateCell, IsoText}

-- COMPARISON_REPORT_DATE_IN_FUTURE
abbrev pub report_date_in_future : Text
report_date_in_future = codes "report_date_in_future"

abbrev of_stripped : IsoText → Option Date
of_stripped t = if t.is_blank then none else t.stripped

abbrev pub date_value : DateCell → Option Date
date_value (DateCell.datetime d _) = some d
date_value (DateCell.date d) = some d
date_value (DateCell.text t) = of_stripped t
date_value DateCell.missing = none
date_value DateCell.other = none

unfoldable pub report_date_value : Row → Option Date
report_date_value row = date_value row.report_date

-- `_coerce_today`: what cannot be read is the day of the clock, `date.today()`.
unfoldable pub coerce_today : Date → DateCell → Date
coerce_today clock today = elim (date_value today) [ none ↦ clock | some d ↦ d ]

abbrev is_after : Option Date → Date → Bool
is_after none today = false
is_after (some d) today = date_lt today d

unfoldable pub report_date_is_future : Date → DateCell → Row → Bool
unfolding report_date_value coerce_today
report_date_is_future clock today row = is_after (report_date_value row) (coerce_today clock today)

unfoldable pub has_unreleased_actuals : Date → DateCell → Row → Bool
has_unreleased_actuals clock today row =
    if row.comparison_unavailable_reason == some report_date_in_future
    then true
    else if not (report_date_is_future clock today row)
    then false
    else is_some row.eps_actual || is_some row.revenue_actual

-- The assignments of the loop of `hide_unreleased_actuals`.
unfoldable pub mask : Row → Row
mask row = record row {
  eps_actual = none;
  revenue_actual = none;
  actual_as_of = Stamp.missing;
  date_status = some (if row.is_predicted then codes "predicted" else codes "scheduled");
  comparison_unavailable_reason = some report_date_in_future;
}

-- The rows as they are left, and how many were masked.
unfoldable pub hide_unreleased_actuals : Date → DateCell → List Row → List Row × ℕ
unfolding mask
hide_unreleased_actuals clock today [] = ([], 0)
hide_unreleased_actuals clock today (row ∷ rows) =
    let (rest, masked) = hide_unreleased_actuals clock today rows in
    if not (has_unreleased_actuals clock today row)
    then (row ∷ rest, masked)
    else (mask row ∷ rest, suc masked)
