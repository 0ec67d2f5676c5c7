-- ===== src/Fiscal/Reschedule.antt =====
-- app/fiscal.py: the loop of `reschedule_confirmed_rows` over the periods of a batch. The table
-- `earnings` is a list of rows under the unique key of symbol, market, date and report type; the
-- entries of the batch are arguments, one for each fiscal key.
pub mod Takeover
use fincal.Prelude.{
  ℕ, zero, suc, Bool, true, false, Option, none, some, List, [], ◌∷◌, ◌++◌, ◌&&◌, not, eqb, keep,
  any, count, is_some, if◌then◌else◌,
}
use fincal.Prelude.Interfaces.{◌==◌, nat_eq, list_eq, option_eq, pair_eq}
use fincal.Prelude.Int.{ℤ, int_eq}
use fincal.Prelude.Text.{Text, codes, strip, upper, or_empty}
use fincal.Calendar.{Date, date_eq}
use fincal.Fiscal.Row.{Row, DateCell, truthy}
use fincal.Fiscal.Identity.{FiscalKey, fiscal_key, report_date_of, is_disclosure}
use fincal.Fiscal.Authority.{outranks}

-- What a batch says of a period: the date and the report type of its best row, and its figures.
pub record Entry : Type 0 where
  pub report_date : DateCell
  pub report_type : Text
  pub eps_estimate : Option ℤ
  pub eps_actual : Option ℤ
  pub revenue_estimate : Option ℤ
  pub revenue_actual : Option ℤ

pub data Reason : Type 0 where
  takeover_failed target_occupied unique_violation : Reason

-- RescheduleOutcome, without the rows of the batch. A move has the row's id and whether it is a
-- takeover.
pub record Outcome : Type 0 where
  pub moves : List (Option ℤ × Bool)
  pub skipped : List (FiscalKey × Reason)
  pub dropped : List FiscalKey
  pub predictions_cleared : List (Option ℤ)

-- The state of the loop: the table, the variable `takeover`, and the outcome.
pub record State : Type 0 where
  pub table : List Row
  pub takeover : Bool
  pub outcome : Outcome

abbrev pub date_of : Row → Option Date
date_of r = report_date_of r DateCell.missing

-- Two rows with one natural key.
abbrev same_natural : Row → Row → Bool
same_natural a b =
    a.symbol == b.symbol
    && a.market == b.market
    && date_of a == date_of b
    && a.report_type == b.report_type

-- The unique constraint of the table.
unfoldable pub is_unique : List Row → Bool
is_unique [] = true
is_unique (r ∷ rs) = not (any (same_natural r) rs) && is_unique rs

unfoldable pub rewritten : (Row → Bool) → (Row → Row) → List Row → List Row
rewritten p f [] = []
rewritten p f (r ∷ rs) = (if p r then f r else r) ∷ rewritten p f rs

-- An UPDATE: the number of rows and the table, or `none` for the UniqueViolation.
unfoldable pub write : (Row → Bool) → (Row → Row) → List Row → Option (ℕ × List Row)
write p f table =
    let new = rewritten p f table in if is_unique new then some (count p table, new) else none

-- The confirmed rows of a period that have a date.
unfoldable pub confirmed : FiscalKey → List Row → List Row
confirmed key = keep (λ r. not r.is_predicted && fiscal_key r == some key && is_some (date_of r))

-- `min(group, key=authority_key)`: the first of the rows that none outranks.
unfoldable pub best : Row → List Row → Row
best r [] = r
best r (s ∷ rows) = best (if outranks s r then s else r) rows

-- `coalesce(new, old)`
abbrev coalesce : Option ℤ → Option ℤ → Option ℤ
coalesce none old = old
coalesce (some n) old = some n

-- _TAKEOVER_ASSIGNMENT; the stamp `updated_at` is not read by the loop.
unfoldable pub take_over : Entry → Row → Row
take_over entry r = record r {
  report_type = some entry.report_type;
  eps_estimate = coalesce entry.eps_estimate r.eps_estimate;
  eps_actual = coalesce entry.eps_actual r.eps_actual;
  revenue_estimate = coalesce entry.revenue_estimate r.revenue_estimate;
  revenue_actual = coalesce entry.revenue_actual r.revenue_actual;
}

abbrev redate : Date → Row → Row
redate d r = record r { report_date = DateCell.date d }

-- `_target_holder`
unfoldable pub target_holder : FiscalKey → Date → Text → List Row → Option Row
target_holder key d report_type [] = none
target_holder key d report_type (r ∷ rs) =
    if r.symbol == some key.0.0
      && r.market == some key.0.1
      && date_of r == some d
      && r.report_type == some report_type
    then some r
    else target_holder key d report_type rs

-- `_prediction_of_period`; the holder has the symbol and the market of the key.
unfoldable pub prediction_of_period : Row → FiscalKey → Bool
prediction_of_period holder key = holder.is_predicted && fiscal_key holder == some key

-- `_delete_stale_prediction`
unfoldable pub delete_stale_prediction : Row → FiscalKey → List Row → List Row
delete_stale_prediction holder key =
    keep (λ r. not (r.id == holder.id && r.is_predicted && fiscal_key r == some key))

abbrev moved : Row → Bool → ℕ → Outcome → Outcome
moved winner takeover zero o = o
moved winner takeover (suc n) o = record o { moves = o.moves ++ (winner.id, takeover) ∷ [] }

abbrev skip : FiscalKey → Reason → Outcome → Outcome
skip key reason o = record o { skipped = o.skipped ++ (key, reason) ∷ [] }

-- What a statement within its savepoint leaves.
abbrev settle : FiscalKey → Row → Reason → Option (ℕ × List Row) → List Row → State → State
settle key winner reason none before s = record s {
  table = before;
  outcome = skip key reason s.outcome;
}
settle key winner reason (some (rowcount, table)) before s = record s {
  table = table;
  outcome = moved winner s.takeover rowcount s.outcome;
}

-- The date stays: only a takeover writes.
abbrev keep_date : FiscalKey → Entry → Row → State → State
keep_date key entry winner s =
    if s.takeover
    then settle key winner Reason.takeover_failed
        (write (λ r. r.id == winner.id) (take_over entry) s.table) s.table s
    else s

-- The UPDATE of the date, with the figures in a takeover.
abbrev change_date : FiscalKey → Entry → Row → Date → List Row → List Row → State → State
change_date key entry winner d table before s =
    settle key winner Reason.unique_violation
      (write (λ r. r.id == winner.id && date_of r == date_of winner)
        (λ r. redate d (if s.takeover then take_over entry r else r)) table)
      before s

-- The target is free, held by the period's own prediction, or occupied. The savepoint stands
-- before the deletion.
abbrev move_to : FiscalKey → Entry → Row → Date → Option Row → State → State
move_to key entry winner d none s = change_date key entry winner d s.table s.table s
move_to key entry winner d (some holder) s =
    if prediction_of_period holder key
    then change_date key entry winner d (delete_stale_prediction holder key s.table) s.table
        (record s {
          outcome = record s.outcome {
            predictions_cleared = s.outcome.predictions_cleared ++ holder.id ∷ [];
          };
        })
    else record s { outcome = skip key Reason.target_occupied s.outcome }

-- From the line that sets `takeover` on.
unfoldable pub apply_entry : FiscalKey → Entry → Row → Date → State → State
apply_entry key entry winner d s =
    let t = record s {
      takeover =
          s.takeover
          && not (is_disclosure (some entry.report_type))
          && is_disclosure winner.report_type;
    } in
    if date_of winner == some d
    then keep_date key entry winner t
    else move_to key entry winner d (target_holder key d entry.report_type t.table) t

abbrev align : Bool → Entry → Row → Entry
align align_report_type entry winner =
    if align_report_type && truthy winner.report_type
    then record entry { report_type = upper (strip (or_empty winner.report_type)) }
    else entry

abbrev with_date : FiscalKey → Entry → Row → Option Date → State → State
with_date key entry winner none s = s
with_date key entry winner (some d) s =
    if is_disclosure (some entry.report_type) && not (is_disclosure winner.report_type)
    then record s { outcome = record s.outcome { dropped = s.outcome.dropped ++ key ∷ [] } }
    else apply_entry key entry winner d s

abbrev pub cell_date : DateCell → Option Date
cell_date (DateCell.date d) = some d
cell_date (DateCell.datetime d _) = some d
cell_date (DateCell.text t) = t.sliced
cell_date _ = none

abbrev in_group : Bool → FiscalKey → Entry → List Row → State → State
in_group align_report_type key entry [] s = s
in_group align_report_type key entry (r ∷ rows) s =
    let winner = best r rows in
    let aligned = align align_report_type entry winner in
    with_date key aligned winner (cell_date aligned.report_date) s

-- The loop. The groups were read before it, from the table `stored`.
unfoldable pub reschedule : Bool → List Row → List (FiscalKey × Entry) → State → State
reschedule align_report_type stored [] s = s
reschedule align_report_type stored ((key, entry) ∷ entries) s =
    reschedule align_report_type stored entries
      (in_group align_report_type key entry (confirmed key stored) s)
