-- ===== src/Tests/Ical.antt =====
-- A folded line, a prediction and its confirmation, and the event of a quarter.
use fincal.Prelude.{
  is_some, not, all, ℕ, ◌+◌, ◌≤◌, ◌≡◌, refl, true, false, none, some, [], ◌∷◌, ◌++◌, count,
  if◌then◌else◌, Option,
}
use fincal.Prelude.Interfaces.{◌==◌, nat_eq, list_eq}
use fincal.Prelude.Int.{ℤ, pos, ltb_ℤ, ◌-ℤ◌}
use fincal.Prelude.Text.{Text, codes}
use fincal.Calendar.{Date}
use fincal.Fiscal.Row.{Row, Stamp}
use fincal.Ical.Fold.{
  encode, fold_ical_lines, fold_line, fold_bytes, shorten, decode_from, following, lead_bits,
}
use fincal.Ical.Escape.{escape_ical, unescape, newlines}
use fincal.Ical.Escaping.{breaks_line, unescape-escape_ical}
use fincal.Ical.Unfolding.{unfold_lines, all_short, unfold-fold_ical_lines}
use fincal.Ical.Events.{
  event_date, event_uid, event_sequence, revision_moment, event_moment, sequence_epoch,
  is_tentative, dedupe_events,
}
use fincal.Ical.Revisions.{sequence_end, event_sequence-rises}
use fincal.Ical.Utf8.{is_scalar}
use fincal.Ical.Feed.{Environment, feed_lines, header, all_event_lines, event_lines, generate_ical}
use fincal.Ical.Reading.{read_feed}
use fincal.Ical.ReadBack.{read_feed-generate_ical}
use fincal.Ical.Feed.{description, join, next_day, stamp, summary, times}
use fincal.Ical.Escape.{escape_newlines, replace_char, replace_pair, escape_marks}
use fincal.Ical.Labels.{
  label, chinese, calendar_name, after_hours, attributed_amount, company, company_label,
  comparability_note, date_source, english, eps_actual, eps_estimate, fiscal, labelled, pre_market,
  predicted_warning, separator, status_marker, timing, unknown_currency, wording,
}
use fincal.Ical.Events.{dedupe_from, compact_date, key_of, midnight}
use fincal.Prelude.Dict
use fincal.Prelude.Decimal.{decimal}
use fincal.Calendar.{
  days_before_month, days_before_year, days_in_month, is_leap, isoformat, leap_day, to_ordinal,
}
use fincal.Fiscal.Authority.{authority_key}
use fincal.Fiscal.Comparison.{
  comparison_unavailable_reason, declared_attribution, has_comparable_values,
}
use fincal.Fiscal.Identity.{has_actuals, is_disclosure, report_date_of}
use fincal.Fiscal.Unreleased.{
  coerce_today, has_unreleased_actuals, report_date_is_future, report_date_value,
}
use fincal.Ical.Dedupe.{IsBest}
use fincal.Ical.Identities.{dedupe_events-IsBest}
use fincal.Tests.Rows.{reported_row, predicted_row}

-- Thirty times a character of three bytes: the line is cut after 25 of them.
abbrev ten_times : ℕ → Text
ten_times c = c ∷ c ∷ c ∷ c ∷ c ∷ c ∷ c ∷ c ∷ c ∷ c ∷ []

abbrev long_line : Text
long_line = ten_times 36130 ++ ten_times 25253 ++ ten_times 36130

long_line-fold :
    fold_line long_line
    ≡ (ten_times 36130 ++ ten_times 25253 ++ (36130 ∷ 36130 ∷ 36130 ∷ 36130 ∷ 36130 ∷ []))
      ∷ (32 ∷ 36130 ∷ 36130 ∷ 36130 ∷ 36130 ∷ 36130 ∷ [])
      ∷ []
unfolding fold_line fold_bytes encode shorten decode_from following lead_bits
long_line-fold = refl

unfold-fold_ical_lines_example :
    (unfold_lines (fold_ical_lines (long_line ∷ [])) ≡ long_line ∷ [])
    × (all_short (fold_ical_lines (long_line ∷ [])) ≡ true)
unfold-fold_ical_lines_example = unfold-fold_ical_lines (long_line ∷ []) refl

abbrev no_text : Text → Option ℤ
no_text s = none

abbrev app : Text
app = codes "fincal"

-- The quarter is predicted in July of 2025 and confirmed within the same second.
abbrev july : ℤ
july = pos 1752000000000000

abbrev predicted : Row
predicted = record predicted_row { updated_at = Stamp.datetime july }

abbrev confirmed : Row
confirmed = record reported_row { updated_at = Stamp.datetime july }

abbrev day : Date
day = record { year = 2025; month = 7; day = 31 }

july_order :
    ltb_ℤ
      (revision_moment no_text [] app confirmed day)
      (revision_moment no_text [] app predicted day)
    ≡ false
unfolding revision_moment event_moment
july_order = refl

july_begun : ltb_ℤ (revision_moment no_text [] app confirmed day) sequence_epoch ≡ false
unfolding revision_moment event_moment sequence_epoch
july_begun = refl

july_early : ltb_ℤ (revision_moment no_text [] app confirmed day) sequence_end ≡ true
unfolding revision_moment event_moment
july_early = refl

confirmed-is_tentative : is_tentative confirmed ≡ false
unfolding is_tentative
confirmed-is_tentative = refl

event_sequence-rises_example :
    (event_sequence no_text [] app predicted day + (if is_tentative predicted then 1 else 0)
      ≤ event_sequence no_text [] app confirmed day)
    × (event_sequence no_text [] app confirmed day ≤ 2147483647)
event_sequence-rises_example =
    event_sequence-rises no_text [] app predicted confirmed day day july_order july_begun july_early
      confirmed-is_tentative

reported-event_date : event_date reported_row ≡ some day
unfolding event_date
reported-event_date = refl

dedupe_events-IsBest_example :
    let result = dedupe_events no_text [] app (predicted_row ∷ reported_row ∷ []) in
    let uid = event_uid no_text [] app reported_row day in
    (count (λ u. u == uid) result.0 ≡ 1)
    × IsBest no_text [] app uid (reported_row, day) result
    × (count (λ u. u == uid) result.0 ≡ (if is_some (Dict.get uid result.1) then 1 else 0))
dedupe_events-IsBest_example =
    dedupe_events-IsBest no_text [] app (predicted_row ∷ []) [] reported_row day
      (event_uid no_text [] app reported_row day) reported-event_date

abbrev evil : Text
evil = codes "a,b" ++ 13 ∷ 10 ∷ codes "END:VEVENT"

unescape-escape_ical_example :
    (unescape (escape_ical evil) ≡ newlines evil)
    × (all (λ c. not (breaks_line c)) (escape_ical evil) ≡ true)
unescape-escape_ical_example = unescape-escape_ical evil

-- A feed of one event.
abbrev plain_environment : Environment
plain_environment = record {
  parse_moment = no_text;
  show_other = [];
  app_name = app;
  show_figure = λ n. codes "1.43";
  format_moment = λ t. codes "20250731T000000Z";
  utc_timestamp = λ d t m. codes "20250731T200000Z";
  today = day;
  columns = λ r. record {
    company_name = some (36130 ∷ 26524 ∷ []);
    company_name_en = some (codes "Apple");
    before_after = some (codes "after");
    date_source = none;
  };
}

one_event-scalars :
    all (all is_scalar) (feed_lines plain_environment (codes "en") (reported_row ∷ [])) ≡ true
unfolding feed_lines header all_event_lines event_lines escape_ical escape_newlines replace_char
    replace_pair escape_marks label chinese calendar_name dedupe_events dedupe_from event_date
    Dict.get Dict.put event_uid decimal event_sequence ◌-ℤ◌ days_before_month days_before_year
    days_in_month is_leap isoformat leap_day to_ordinal authority_key comparison_unavailable_reason
    declared_attribution has_comparable_values has_actuals is_disclosure report_date_of coerce_today
    has_unreleased_actuals report_date_is_future report_date_value compact_date event_moment
    is_tentative key_of midnight revision_moment sequence_epoch description join next_day stamp
    summary times after_hours attributed_amount company company_label comparability_note date_source
    english eps_actual eps_estimate fiscal labelled pre_market predicted_warning separator
    status_marker timing unknown_currency wording
one_event-scalars = refl

read_feed-generate_ical_example :
    read_feed (generate_ical plain_environment (codes "en") (reported_row ∷ []))
    ≡ feed_lines plain_environment (codes "en") (reported_row ∷ [])
read_feed-generate_ical_example =
    read_feed-generate_ical plain_environment (codes "en") (reported_row ∷ []) (λ t. refl)
      (λ d t m. refl) one_event-scalars
