-- ===== src/Ical/Feed.antt =====
-- app/ical.py: `generate_ical`.
use fincal.Prelude.{
  suc, Bool, true, false, Option, none, some, List, [], ◌∷◌, ◌++◌, ◌&&◌, ◌||◌, not, ltb, keep,
  if◌then◌else◌,
}
use fincal.Prelude.Interfaces.{◌==◌, nat_eq, list_eq, option_eq}
use fincal.Prelude.Int.{ℤ, pos, int_eq}
use fincal.Prelude.Text.{Text, codes, is_empty, or_empty}
use fincal.Prelude.Decimal.{decimal}
use fincal.Prelude.Dict
use fincal.Calendar.{Date, days_in_month}
use fincal.Fiscal.Row.{Row, Scalar, DateCell}
use fincal.Fiscal.Comparison.{declared_attribution, comparison_unavailable_reason}
use fincal.Fiscal.Unreleased.{has_unreleased_actuals}
use fincal.Ical.Escape.{escape_ical}
use fincal.Ical.Fold.{fold_ical_lines}
use fincal.Ical.Labels
use fincal.Ical.Labels.{
  label, labelled, status_marker, company_label, comparability_note, attributed_amount, chinese,
}
use fincal.Ical.Events.{
  or_default, show_scalar, compact_date, event_sequence, revision_moment, dedupe_events,
}

-- The columns of an event that the ranking does not read.
pub record Columns : Type 0 where
  pub company_name : Option Text
  pub company_name_en : Option Text
  pub before_after : Option Text
  pub date_source : Option Text

-- What the generator calls: the clock and the zones of Python, the text of its values, the name of
-- the program, and the other columns of a row.
pub record Environment : Type 0 where
  pub parse_moment : Text → Option ℤ
  pub show_other : Text
  pub app_name : Text
  pub show_figure : ℤ → Text
  -- `strftime("%Y%m%dT%H%M%SZ")` of a moment
  pub format_moment : ℤ → Text
  -- `_utc_ical_timestamp`
  pub utc_timestamp : Date → Text → Text → Text
  pub today : Date
  pub columns : Row → Columns

-- `bool(value)` of a cell.
abbrev is_given : Scalar → Bool
is_given Scalar.missing = false
is_given (Scalar.number n) = not (n == pos 0)
is_given (Scalar.text s) = not (is_empty s)
is_given Scalar.other = true

-- `separator.join(texts)`
unfoldable pub join : Text → List Text → Text
join separator [] = []
join separator (t ∷ []) = t
join separator (t ∷ u ∷ ts) = t ++ separator ++ join separator (u ∷ ts)

-- The texts that are not empty.
abbrev given : List Text → List Text
given = keep (λ t. not (is_empty t))

-- `report_date + timedelta(days=1)`; the last day of the year 9999 is an OverflowError.
unfoldable pub next_day : Date → Date
next_day d =
    if ltb d.day (days_in_month d.year d.month)
    then record d { day = suc d.day }
    else if ltb d.month 12
    then record d { month = suc d.month; day = 1 }
    else record { year = suc d.year; month = 1; day = 1 }

-- `comparison_unavailable_reason` of the event, or what the figures say.
abbrev reason_of : Row → Option Text
reason_of e = elim e.comparison_unavailable_reason [
  | none ↦ comparison_unavailable_reason e
  | some r ↦ if is_empty r then comparison_unavailable_reason e else some r
]

module _ (env : Environment) (title_lang : Text) where
  abbrev shown : Scalar → Text
  shown = show_scalar env.parse_moment env.show_other env.app_name

  abbrev fq_str : Row → Text
  fq_str e = if is_given e.fiscal_quarter then codes "Q" ++ shown e.fiscal_quarter else []

  abbrev pub unreleased : Row → Bool
  unreleased e = has_unreleased_actuals env.today DateCell.missing e

  -- The status that the marker goes by.
  abbrev shown_status : Row → Text
  shown_status e =
      if unreleased e && or_empty e.date_status == codes "reported"
      then (if e.is_predicted then codes "predicted" else codes "scheduled")
      else or_empty e.date_status

  abbrev source_tag : Row → Text
  source_tag e =
      let status = shown_status e in
      let tag = if status == codes "reported" then [] else status_marker status title_lang in
      if is_empty tag && not (status == codes "reported") && e.is_predicted
      then status_marker (codes "predicted") title_lang
      else tag

  abbrev company : Row → Text
  company e = company_label (env.columns e).company_name (env.columns e).company_name_en title_lang

  unfoldable pub summary : Row → Text
  summary e =
      join (codes " ") (
        or_default e.symbol (codes "?") ∷ given (company e ∷ fq_str e ∷ [])
        ++ (if title_lang == chinese then codes "财报" else codes "Earnings") ∷ [])
      ++ source_tag e

  abbrev time_label : Row → Text
  time_label e =
      let when = or_empty (env.columns e).before_after in
      if when == codes "before"
      then label Labels.pre_market title_lang
      else if when == codes "after"
      then label Labels.after_hours title_lang
      else []

  -- A labelled value, or nothing for an empty one.
  abbrev line_of : Labels.Label → Text → Text
  line_of entry value = if is_empty value then [] else labelled entry value title_lang

  abbrev date_source_line : Row → Text
  date_source_line e =
      let source = or_empty (env.columns e).date_source in
      if source == codes "unknown" then [] else line_of Labels.date_source source

  abbrev amount_line : Labels.Label → Option ℤ → Option Text → Text
  amount_line entry value currency =
      attributed_amount env.show_figure (label entry title_lang) value
        (declared_attribution currency) title_lang

  abbrev note_line : Option Text → Text
  note_line none = []
  note_line (some reason) = comparability_note reason title_lang

  unfoldable pub description : Row → Text
  description e = join (10 ∷ []) (
      given (
        line_of Labels.company (company e)
        ∷ (if is_given e.fiscal_year
            then labelled Labels.fiscal (codes "FY" ++ shown e.fiscal_year ++ codes " " ++ fq_str e)
                title_lang
            else [])
        ∷ line_of Labels.timing (time_label e)
        ∷ (if e.is_predicted then label Labels.predicted_warning title_lang else [])
        ∷ date_source_line e
        ∷ amount_line Labels.eps_estimate e.eps_estimate e.estimate_currency
        ∷ amount_line Labels.eps_actual (if unreleased e then none else e.eps_actual)
            e.actual_currency
        ∷ note_line (reason_of e)
        ∷ []))

  abbrev pub timed : Text → Text → Row → Date → List Text
  timed start stop e d =
      (codes "DTSTART:" ++ env.utc_timestamp d start (or_default e.market (codes "US")))
      ∷ (codes "DTEND:" ++ env.utc_timestamp d stop (or_default e.market (codes "US")))
      ∷ []

  unfoldable pub times : Row → Date → List Text
  times e d =
      let when = or_empty (env.columns e).before_after in
      if when == codes "before"
      then timed (codes "080000") (codes "090000") e d
      else if when == codes "after"
      then timed (codes "160000") (codes "170000") e d
      else (codes "DTSTART;VALUE=DATE:" ++ compact_date d)
        ∷ (codes "DTEND;VALUE=DATE:" ++ compact_date (next_day d))
        ∷ []

  -- `_stable_event_stamp`
  unfoldable pub stamp : Row → Date → Text
  stamp e d = env.format_moment (revision_moment env.parse_moment env.show_other env.app_name e d)

  unfoldable pub event_lines : Text → Row × Date → List Text
  event_lines uid (e, d) =
      codes "BEGIN:VEVENT"
        ∷ (codes "SEQUENCE:"
            ++ decimal (event_sequence env.parse_moment env.show_other env.app_name e d))
        ∷ (codes "UID:" ++ escape_ical uid)
        ∷ (codes "DTSTAMP:" ++ stamp e d)
        ∷ (codes "LAST-MODIFIED:" ++ stamp e d)
        ∷ (codes "SUMMARY:" ++ escape_ical (summary e))
        ∷ (codes "DESCRIPTION:" ++ escape_ical (description e))
        ∷ (codes "CATEGORIES:Earnings" ++ (if e.is_predicted then codes ",Predicted" else []))
        ∷ times e d
      ++ (codes "STATUS:"
          ++ (if e.is_predicted || unreleased e then codes "TENTATIVE" else codes "CONFIRMED"))
        ∷ codes "END:VEVENT"
        ∷ []

  -- `chosen[uid]`; every identity of the order has an event.
  abbrev lines_of : Option (Row × Date) → Text → List Text
  lines_of none uid = []
  lines_of (some event) uid = event_lines uid event

  unfoldable pub all_event_lines : List Text → List (Text × (Row × Date)) → List Text
  all_event_lines [] chosen = []
  all_event_lines (uid ∷ uids) chosen =
      lines_of (Dict.get uid chosen) uid ++ all_event_lines uids chosen

  unfoldable pub header : List Text
  header =
      codes "BEGIN:VCALENDAR"
      ∷ codes "VERSION:2.0"
      ∷ codes "PRODID:-//FinCal//Earnings Calendar//EN"
      ∷ codes "CALSCALE:GREGORIAN"
      ∷ codes "METHOD:PUBLISH"
      ∷ (codes "NAME:" ++ escape_ical (label Labels.calendar_name title_lang))
      ∷ (codes "X-WR-CALNAME:" ++ escape_ical (label Labels.calendar_name title_lang))
      ∷ codes "X-WR-TIMEZONE:Asia/Shanghai"
      ∷ codes "REFRESH-INTERVAL;VALUE=DURATION:PT12H"
      ∷ []

  -- The content lines, before they are folded.
  unfoldable pub feed_lines : List Row → List Text
  feed_lines earnings =
      let result = dedupe_events env.parse_moment env.show_other env.app_name earnings in
      header ++ all_event_lines result.0 result.1 ++ codes "END:VCALENDAR" ∷ []

  unfoldable pub generate_ical : List Row → Text
  generate_ical earnings = join (13 ∷ 10 ∷ []) (fold_ical_lines (feed_lines earnings))
