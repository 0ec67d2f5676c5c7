-- ===== src/Ical/Events.antt =====
-- app/ical.py: the revision number and the identity of an event, and the event of each identity.
-- The column `report_date` is a DATE, so that the events have a date, a `datetime` or none; the
-- generator would raise on other values.
use fincal.Prelude.{
  ℕ, suc, ◌+◌, ◌*◌, ◌/◌, Bool, Option, none, some, List, [], ◌∷◌, ◌++◌, ◌||◌, not, eqb,
  if◌then◌else◌, keep,
}
use fincal.Prelude.Interfaces.{◌==◌, ◌<?◌, nat_eq, list_eq, option_eq, nat_order, list_order}
use fincal.Prelude.Int.{ℤ, pos, negsuc, ◌-ℤ◌, int_order}
use fincal.Prelude.Text.{Text, codes}
use fincal.Prelude.Decimal.{decimal}
use fincal.Prelude.Dict
use fincal.Calendar.{Date, to_ordinal, isoformat}
use fincal.Fiscal.Row.{Row, Scalar, DateCell, Stamp, is_blank}
use fincal.Fiscal.Authority.{authority_key}

-- `event.get("report_date")`, with a `datetime` as its day.
unfoldable pub event_date : Row → Option Date
event_date e = elim e.report_date [
  | DateCell.date d ↦ some d
  | DateCell.datetime d _ ↦ some d
  | _ ↦ none
]

abbrev pub micros : ℕ
micros = 1000000

-- Midnight UTC of a day, in microseconds since 1970, whose first day has the ordinal 719163.
unfoldable pub midnight : Date → ℤ
midnight d = pos (to_ordinal d * 86400 * micros) -ℤ pos (719163 * 86400 * micros)

-- _SEQUENCE_EPOCH, the first moment of 2020
unfoldable pub sequence_epoch : ℤ
sequence_epoch = pos (1577836800 * micros)

unfoldable pub is_tentative : Row → Bool
is_tentative event = event.is_predicted || event.date_status == some (codes "predicted")

abbrev pub rank : Bool → ℕ
rank tentative = if tentative then 0 else 1

-- `max(0, int(microseconds / 10 ** 6) * 2 + rank)`; `int` cuts off towards zero.
abbrev pub sequence_at : ℤ → ℕ → ℕ
sequence_at (pos n) r = n / micros * 2 + r
sequence_at (negsuc n) r = if eqb (suc n / micros) 0 then r else 0

abbrev pub or_midnight : Option ℤ → Date → ℤ
or_midnight none report_date = midnight report_date
or_midnight (some t) report_date = t

-- The text of an integer, and of the other values of a cell.
abbrev pub show_ℤ : ℤ → Text
show_ℤ (pos n) = decimal n
show_ℤ (negsuc n) = 45 ∷ decimal (suc n)

abbrev pub or_default : Option Text → Text → Text
or_default none default = default
or_default (some s) default = s

-- `strftime("%Y%m%d")`
unfoldable pub compact_date : Date → Text
compact_date d = keep (λ c. not (eqb c 45)) (isoformat d)

-- The identities in their order, and the event of each.
abbrev pub Chosen : Type 0
Chosen = List Text × List (Text × (Row × Date))

-- `_authority_key`
unfoldable pub key_of : Row × Date → List ℤ
key_of (event, report_date) = authority_key event (DateCell.date report_date)

abbrev pub choose : Option (Row × Date) → Text → Row × Date → Chosen → Chosen
choose none uid event (order, chosen) = (order ++ uid ∷ [], Dict.put uid event chosen)
choose (some old) uid event (order, chosen) =
    if key_of event <? key_of old then (order, Dict.put uid event chosen) else (order, chosen)

-- `parse_moment` is `datetime.fromisoformat` on a stamp that is a text, in microseconds since 1970;
-- `show_other` is the text of a cell that is neither a number nor a text; `app_name` is APP_NAME.
module _ (parse_moment : Text → Option ℤ) (show_other app_name : Text) where
  unfoldable pub event_moment : Row → Option ℤ
  event_moment event = elim event.updated_at [
    | Stamp.missing ↦ none
    | Stamp.datetime t ↦ some t
    | Stamp.text s ↦ parse_moment s
  ]

  unfoldable pub revision_moment : Row → Date → ℤ
  revision_moment event report_date = or_midnight (event_moment event) report_date

  unfoldable pub event_sequence : Row → Date → ℕ
  event_sequence event report_date =
      sequence_at (revision_moment event report_date -ℤ sequence_epoch) (rank (is_tentative event))

  abbrev pub show_scalar : Scalar → Text
  show_scalar Scalar.missing = codes "None"
  show_scalar (Scalar.number n) = show_ℤ n
  show_scalar (Scalar.text s) = s
  show_scalar Scalar.other = show_other

  unfoldable pub event_uid : Row → Date → Text
  event_uid event report_date =
      let head =
        codes "fincal-"
        ++ or_default event.symbol (codes "?")
        ++ codes "-"
        ++ or_default event.market (codes "US") in
      if is_blank event.fiscal_year || is_blank event.fiscal_quarter
      then head ++ codes "-" ++ compact_date report_date ++ codes "@" ++ app_name
      else head
        ++ codes "-FY"
        ++ show_scalar event.fiscal_year
        ++ codes "-Q"
        ++ show_scalar event.fiscal_quarter
        ++ codes "@"
        ++ app_name

  abbrev pub take_event : Option Date → Row → Chosen → Chosen
  take_event none event c = c
  take_event (some d) event c =
      choose (Dict.get (event_uid event d) c.1) (event_uid event d) (event, d) c

  unfoldable pub dedupe_from : Chosen → List Row → Chosen
  dedupe_from c [] = c
  dedupe_from c (e ∷ es) = dedupe_from (take_event (event_date e) e c) es

  unfoldable pub dedupe_events : List Row → Chosen
  dedupe_events earnings = dedupe_from ([], []) earnings
