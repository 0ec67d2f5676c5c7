-- ===== src/Fiscal/Labels.antt =====
-- app/fiscal.py, `fiscal_label_consistent`: whether a fiscal label fits the dates of the rows that
-- are already there.
pub mod Conflicts
use fincal.Prelude.{
  Bool, true, false, Option, none, some, List, [], ◌∷◌, ◌&&◌, ◌||◌, not, if◌then◌else◌,
}
use fincal.Prelude.Interfaces.{◌==◌, ◌<?◌, nat_eq, list_eq, option_eq}
use fincal.Prelude.Int.{ℤ, int_eq, int_order}
use fincal.Prelude.Text.{Text}
use fincal.Calendar.{Date, date_lt}
use fincal.Fiscal.Row.{Row, Scalar, DateCell, truthy, to_int}
use fincal.Fiscal.Identity.{report_date_of, date_of_cell}

-- The two comparisons of the loop, where year, quarter and date of the row are readable.
abbrev pub dates_fit : ℤ → ℤ → Date → Option ℤ → Option ℤ → Option Date → Bool
dates_fit year quarter candidate (some y) (some q) (some d) =
    if not (y == year) || q == quarter
    then true
    else if q <? quarter && date_lt candidate d
    then false
    else not (quarter <? q && date_lt d candidate)
dates_fit year quarter candidate _ _ _ = true

-- One round of the loop: `false` is its `return False`.
unfoldable pub row_fits : Option Text → Option Text → ℤ → ℤ → Date → Row → Bool
row_fits symbol market year quarter candidate row =
    if not (row.symbol == symbol) || not (row.market == market)
    then true
    else dates_fit year quarter candidate (to_int row.fiscal_year) (to_int row.fiscal_quarter)
        (report_date_of row DateCell.missing)

unfoldable pub rows_fit : Option Text → Option Text → ℤ → ℤ → Date → List Row → Bool
unfolding row_fits
rows_fit symbol market year quarter candidate [] = true
rows_fit symbol market year quarter candidate (row ∷ rows) =
    row_fits symbol market year quarter candidate row
    && rows_fit symbol market year quarter candidate rows

abbrev judge : Option Text → Option Text → Option ℤ → Option ℤ → Option Date → List Row → Bool
judge symbol market (some year) (some quarter) (some candidate) rows =
    if not (truthy symbol) || not (truthy market)
    then true
    else rows_fit symbol market year quarter candidate rows
judge symbol market _ _ _ rows = true

unfoldable pub fiscal_label_consistent :
    Option Text → Option Text → Scalar → Scalar → DateCell → List Row → Bool
unfolding rows_fit
fiscal_label_consistent symbol market fiscal_year fiscal_quarter report_date existing_rows =
    judge symbol market (to_int fiscal_year) (to_int fiscal_quarter) (date_of_cell report_date)
      existing_rows
