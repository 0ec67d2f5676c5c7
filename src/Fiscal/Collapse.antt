-- ===== src/Fiscal/Collapse.antt =====
-- app/fiscal.py: the passes that collapse the rows of one period, or of one announcement.

pub mod Periods
pub mod Announced
pub mod SameDate
pub mod Order
pub mod Batch
pub mod Result
use fincal.Prelude.{Bool, true, false, Option, none, some, List, ◌&&◌, ◌||◌, not, if◌then◌else◌}
use fincal.Prelude.Interfaces.{◌==◌, ◌<?◌, nat_eq, bool_eq, list_eq, pair_eq, nat_order, list_order}
use fincal.Prelude.Int.{ℤ, int_eq, int_order}
use fincal.Prelude.Text.{Text, is_empty, or_empty}
use fincal.Prelude.Sort
use fincal.Calendar.{Date, date_eq}
use fincal.Fiscal.Row.{Row, DateCell, truthy}
use fincal.Fiscal.Identity.{FiscalKey, fiscal_key, report_date_of, is_disclosure}
use fincal.Fiscal.Authority.{outranks, same_date_rank, sort_key}
use fincal.Fiscal.Scan.{Choice, Scan, scan}
use fincal.Fiscal.Scan.Winners.{keep_better}

-- The first loop of `collapse_fiscal_duplicates`.
unfoldable pub collapse_periods : List Row → List Row
collapse_periods rows = (scan fiscal_key (keep_better outranks) rows).kept

-- ((symbol, market), date)
abbrev pub DateKey : Type 0
DateKey = (Text × Text) × Date

abbrev pub date_key_of : Text → Text → Option Date → Option DateKey
date_key_of symbol market none = none
date_key_of symbol market (some d) = some ((symbol, market), d)

unfoldable pub same_date_key : Row → Option DateKey
same_date_key row =
    if not (truthy row.symbol) || not (truthy row.market)
    then none
    else date_key_of (or_empty row.symbol) (or_empty row.market)
        (report_date_of row DateCell.missing)

unfoldable pub same_date_choice : Row → Row → Choice
same_date_choice row incumbent =
    if is_disclosure row.report_type == is_disclosure incumbent.report_type
    then Choice.both
    else if same_date_rank row <? same_date_rank incumbent
    then Choice.replace
    else Choice.discard

-- `_collapse_same_date`
unfoldable pub collapse_same_date : List Row → List Row
collapse_same_date rows = (scan same_date_key same_date_choice rows).kept

unfoldable pub collapse_fiscal_duplicates : List Row → List Row
unfolding collapse_periods collapse_same_date
collapse_fiscal_duplicates rows = Sort.sorted sort_key (collapse_same_date (collapse_periods rows))

-- `value in (None, "")`
abbrev blank : Option Text → Bool
blank none = true
blank (some s) = is_empty s

abbrev later : Option Text → Option Text → Bool
later (some left) (some right) = right <? left
later _ _ = false

-- `_is_newer`, of two cells as `str` prints them.
unfoldable pub is_newer : Option Text → Option Text → Bool
is_newer left right = if blank left then false else if blank right then true else later left right

module _ {ℓ} {R : Type ℓ} where
  -- `rank_of` is the optional argument of that name.
  unfoldable pub batch_better : (R → Option Text) → Option (R → ℤ) → R → R → Bool
  batch_better date_of none row incumbent = is_newer (date_of row) (date_of incumbent)
  batch_better date_of (some rank) row incumbent =
      if rank row == rank incumbent
      then is_newer (date_of row) (date_of incumbent)
      else rank row <? rank incumbent

  -- The list that is returned, and what was appended to `dropped`.
  unfoldable pub collapse_rows_by_period :
      (R → Option FiscalKey) → (R → Option Text) → Option (R → ℤ) → List R → Scan R FiscalKey
  unfolding batch_better
  collapse_rows_by_period identity_of date_of rank_of rows =
      scan identity_of (keep_better (batch_better date_of rank_of)) rows
