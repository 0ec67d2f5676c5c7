-- ===== src/Fiscal/Authority.antt =====
-- app/fiscal.py: the ranking of the rows that share a period, and the order of the output.
pub mod Rules
use fincal.Prelude.{Bool, Option, none, some, List, [], ◌∷◌, ◌&&◌, not, if◌then◌else◌}
use fincal.Prelude.Interfaces.{◌<?◌, nat_order, list_order}
use fincal.Prelude.Int.{ℤ, pos, neg, int_order}
use fincal.Prelude.Text.{Text, is_empty, or_empty}
use fincal.Calendar.{Date, isoformat, to_ordinal}
use fincal.Fiscal.Row.{Row, Stamp, DateCell}
use fincal.Fiscal.Identity.{is_disclosure, has_actuals, report_date_of}

-- `first or second` of two stamps.
abbrev pub or_stamp : Stamp → Stamp → Stamp
or_stamp Stamp.missing second = second
or_stamp (Stamp.text s) second = if is_empty s then second else Stamp.text s
or_stamp (Stamp.datetime t) second = Stamp.datetime t

-- `-ts.timestamp() if isinstance(ts, datetime) else 0`, in microseconds.
abbrev pub newest_first : Stamp → ℤ
newest_first (Stamp.datetime t) = neg t
newest_first _ = pos 0

abbrev flag : Bool → ℤ
flag b = if b then pos 1 else pos 0

abbrev latest_first : Option Date → ℤ
latest_first none = pos 0
latest_first (some d) = neg (pos (to_ordinal d))

abbrev highest_first : Option ℤ → ℤ
highest_first none = neg (pos 0)
highest_first (some n) = neg n

-- (predicted, disclosure, reported, recency, date_key, ts_key, id_key)
unfoldable pub authority_key : Row → DateCell → List ℤ
authority_key row report_date =
    let ts = or_stamp row.updated_at row.created_at in
    let pure_prediction = row.is_predicted && not (has_actuals row) in
    flag row.is_predicted
    ∷ flag (is_disclosure row.report_type)
    ∷ flag (not (has_actuals row))
    ∷ (if pure_prediction then newest_first ts else pos 0)
    ∷ latest_first (report_date_of row report_date)
    ∷ newest_first ts
    ∷ highest_first row.id
    ∷ []

-- `authority_key(a) < authority_key(b)`: the row `a` outranks the row `b`.
unfoldable pub outranks : Row → Row → Bool
unfolding authority_key
outranks a b = authority_key a DateCell.missing <? authority_key b DateCell.missing

-- (report date or "", market, symbol)
unfoldable pub sort_key : Row → List Text
sort_key row =
    elim (report_date_of row DateCell.missing) [ none ↦ [] | some d ↦ isoformat d ]
    ∷ or_empty row.market
    ∷ or_empty row.symbol
    ∷ []

-- (disclosure, authority_key), as one flat sequence: the tuples are compared alike.
unfoldable pub same_date_rank : Row → List ℤ
unfolding authority_key
same_date_rank row = flag (is_disclosure row.report_type) ∷ authority_key row DateCell.missing
