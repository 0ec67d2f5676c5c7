-- ===== src/Ical/Plain.antt =====
-- The lines of the feed of app/ical.py: none holds a line break, none starts with a space.
use fincal.Prelude.{
  ℕ, zero, suc, ◌+◌, ◌/◌, ◌%◌, ◌≡◌, refl, Bool, true, List, [], ◌∷◌, ◌++◌, ◌&&◌, ◌||◌, not, eqb,
  ltb, keep, all, arith, inl, inr, Bool-cases, Option-cases, if◌then◌else◌,
}
use fincal.Prelude.Interfaces.{◌==◌, nat_eq, list_eq}
use fincal.Prelude.Int.{ℤ}
use fincal.Prelude.Text.{Text, codes, or_empty}
use fincal.Prelude.Decimal.{decimal, decimal_from}
use fincal.Prelude.Dict
use fincal.Calendar.{Date, isoformat}
use fincal.Fiscal.Row.{Row}
use fincal.Ical.Escape.{escape_ical}
use fincal.Ical.Escaping.{breaks_line, unescape-escape_ical}
use fincal.Ical.Unfolding.{is_continuation}
use fincal.Ical.Labels
use fincal.Ical.Labels.{label}
use fincal.Ical.Events.{or_default, event_sequence, revision_moment, compact_date, dedupe_events}
use fincal.Ical.Feed.{
  Environment, unreleased, timed, summary, description, next_day, times, stamp, event_lines,
  all_event_lines, header, feed_lines,
}

-- No line break.
abbrev pub is_plain : Text → Bool
is_plain = all (λ c. not (breaks_line c))

-- No line break, and no space in front.
abbrev pub is_line : Text → Bool
is_line l = is_plain l && not (is_continuation l)

pub plain-append : (s t : Text) → is_plain s ≡ true → is_plain t ≡ true → is_plain (s ++ t) ≡ true
plain-append [] t h k = k
plain-append (c ∷ s) t h k = ground (arith, plain-append s t, h, k)

escape_plain : (t : Text) → is_plain (escape_ical t) ≡ true
escape_plain t = (unescape-escape_ical t).1

decimal_from_plain : (fuel n : ℕ) → is_plain (decimal_from fuel n) ≡ true
decimal_from_plain zero n = refl
decimal_from_plain (suc fuel) n = elim (Bool-cases (ltb n 10)) [
  | inl small ↦ rw small (ground arith)
  | inr large ↦
      let last : is_plain ((48 + n % 10) ∷ []) ≡ true = ground arith in
      rw large (
        plain-append (decimal_from fuel (n / 10)) ((48 + n % 10) ∷ [])
          (decimal_from_plain fuel (n / 10)) last)
]

decimal_plain : (n : ℕ) → is_plain (decimal n) ≡ true
unfolding decimal
decimal_plain n = decimal_from_plain (suc n) n

plain-keep : (p : ℕ → Bool) (s : Text) → is_plain s ≡ true → is_plain (keep p s) ≡ true
plain-keep p [] h = refl
plain-keep p (c ∷ s) h = ground (arith, plain-keep p s, h)

compact_date_plain : (d : Date) → is_plain (compact_date d) ≡ true
unfolding compact_date isoformat
compact_date_plain d = plain-keep (λ c. not (eqb c 45)) (isoformat d) (ground arith)

-- A property's name and its value.
property_line :
    (c : ℕ) (name value : Text)
    → is_line (c ∷ name) ≡ true
    → is_plain value ≡ true
    → is_line ((c ∷ name) ++ value) ≡ true
property_line c name value named h = ground (arith, plain-append name value, named, h)

-- Lists of such lines.
data AreLines : List Text → Type 0 where
  no_more : AreLines []
  also : {x : Text} {xs : List Text} → is_line x ≡ true → AreLines xs → AreLines (x ∷ xs)

lines_sound : (xs : List Text) → AreLines xs → all is_line xs ≡ true
lines_sound _ AreLines.no_more = refl
lines_sound _ (AreLines.also {x = x} {xs = xs} h k) = rw (h, lines_sound xs k) refl

lines-append : (xs ys : List Text) → AreLines xs → AreLines ys → AreLines (xs ++ ys)
lines-append _ ys AreLines.no_more k = k
lines-append _ ys (AreLines.also {x = x} {xs = xs} h k) j = AreLines.also h (lines-append xs ys k j)

module _ (env : Environment) (title_lang : Text)
    (moments : (t : ℤ) → is_plain (env.format_moment t) ≡ true)
    (stamps : (d : Date) (t m : Text) → is_plain (env.utc_timestamp d t m) ≡ true) where
  header_lines : AreLines (header env title_lang)
  unfolding header
  header_lines =
      let name = escape_ical (label Labels.calendar_name title_lang) in
      let h = escape_plain (label Labels.calendar_name title_lang) in
      AreLines.also refl (
        AreLines.also refl (
          AreLines.also refl (
            AreLines.also refl (
              AreLines.also refl (
                AreLines.also (property_line 78 (codes "AME:") name refl h) (
                  AreLines.also (property_line 88 (codes "-WR-CALNAME:") name refl h)
                    (AreLines.also refl (AreLines.also refl AreLines.no_more))))))))

  timed_lines :
      (start stop : Text) (e : Row) (d : Date) → AreLines (timed env title_lang start stop e d)
  timed_lines start stop e d =
      let market = or_default e.market (codes "US") in
      AreLines.also
        (property_line 68 (codes "TSTART:") (env.utc_timestamp d start market) refl
          (stamps d start market))
        (AreLines.also
          (property_line 68 (codes "TEND:") (env.utc_timestamp d stop market) refl
            (stamps d stop market))
          AreLines.no_more)

  times_lines : (e : Row) (d : Date) → AreLines (times env title_lang e d)
  unfolding times
  times_lines e d = elim (Bool-cases (or_empty (env.columns e).before_after == codes "before")) [
    | inl before ↦ rw before (timed_lines (codes "080000") (codes "090000") e d)
    | inr other ↦ elim (Bool-cases (or_empty (env.columns e).before_after == codes "after")) [
      | inl after ↦ rw (other, after) (timed_lines (codes "160000") (codes "170000") e d)
      | inr neither ↦
          rw (other, neither)
            (AreLines.also
              (property_line 68 (codes "TSTART;VALUE=DATE:") (compact_date d) refl
                (compact_date_plain d))
              (AreLines.also
                (property_line 68 (codes "TEND;VALUE=DATE:") (compact_date (next_day d)) refl
                  (compact_date_plain (next_day d)))
                AreLines.no_more))
    ]
  ]

  category_line :
      (e : Row)
      → is_line (codes "CATEGORIES:Earnings" ++ (if e.is_predicted then codes ",Predicted" else []))
        ≡ true
  category_line e = elim (Bool-cases e.is_predicted) [ inl t ↦ rw t refl | inr f ↦ rw f refl ]

  status_line :
      (e : Row)
      → is_line (
          codes "STATUS:"
          ++ (if e.is_predicted || unreleased env title_lang e
              then codes "TENTATIVE"
              else codes "CONFIRMED"))
        ≡ true
  status_line e = elim (Bool-cases (e.is_predicted || unreleased env title_lang e)) [
    | inl t ↦ rw t refl
    | inr f ↦ rw f refl
  ]

  event_lines_plain :
      (uid : Text) (e : Row) (d : Date) → AreLines (event_lines env title_lang uid (e, d))
  unfolding event_lines stamp
  event_lines_plain uid e d =
      let number = event_sequence env.parse_moment env.show_other env.app_name e d in
      let moment = revision_moment env.parse_moment env.show_other env.app_name e d in
      let made = env.format_moment moment in
      let title = summary env title_lang e in
      let body = description env title_lang e in
      AreLines.also refl (
        AreLines.also
          (property_line 83 (codes "EQUENCE:") (decimal number) refl (decimal_plain number))
          (AreLines.also (property_line 85 (codes "ID:") (escape_ical uid) refl (escape_plain uid))
            (AreLines.also (property_line 68 (codes "TSTAMP:") made refl (moments moment)) (
              AreLines.also (property_line 76 (codes "AST-MODIFIED:") made refl (moments moment)) (
                AreLines.also
                  (property_line 83 (codes "UMMARY:") (escape_ical title) refl (escape_plain title))
                  (AreLines.also
                    (property_line 68 (codes "ESCRIPTION:") (escape_ical body) refl
                      (escape_plain body))
                    (AreLines.also (category_line e) (
                      lines-append (times env title_lang e d) _ (times_lines e d) (
                        AreLines.also (status_line e) (AreLines.also refl AreLines.no_more))))))))))

  all_event_lines_plain :
      (uids : List Text) (chosen : List (Text × (Row × Date)))
      → AreLines (all_event_lines env title_lang uids chosen)
  unfolding all_event_lines
  all_event_lines_plain [] chosen = AreLines.no_more
  all_event_lines_plain (uid ∷ uids) chosen =
      let rest = all_event_lines env title_lang uids chosen in
      let later = all_event_lines_plain uids chosen in
      elim (Option-cases (Dict.get uid chosen)) [
        | inl missing ↦ rw missing later
        | inr ((e, d), found) ↦ rw found (
            lines-append (event_lines env title_lang uid (e, d)) rest (event_lines_plain uid e d)
              later)
      ]

  feed-AreLines : (earnings : List Row) → AreLines (feed_lines env title_lang earnings)
  unfolding feed_lines
  feed-AreLines earnings =
      let result = dedupe_events env.parse_moment env.show_other env.app_name earnings in
      let events = all_event_lines env title_lang result.0 result.1 in
      lines-append (header env title_lang ++ events) (codes "END:VCALENDAR" ∷ [])
        (lines-append (header env title_lang) events header_lines
          (all_event_lines_plain result.0 result.1))
        (AreLines.also refl AreLines.no_more)

  pub feed_lines_plain :
      (earnings : List Row) → all is_line (feed_lines env title_lang earnings) ≡ true
  feed_lines_plain earnings =
      lines_sound (feed_lines env title_lang earnings) (feed-AreLines earnings)
