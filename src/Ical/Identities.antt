-- ===== src/Ical/Identities.antt =====
-- One event for each identity of the feed of app/ical.py.
use mathlib.Core.Path.{subst}
use fincal.Prelude.{
  ◌≡◌, refl, sym, Option, some, List, [], ◌∷◌, ◌++◌, inl, inr, Option-cases, count, is_some,
  if◌then◌else◌,
}
use fincal.Prelude.Interfaces.{◌==◌, nat_eq, list_eq, nat_order, list_order}
use fincal.Prelude.Int.{ℤ, int_order}
use fincal.Prelude.Text.{Text}
use fincal.Prelude.Dict
use fincal.Prelude.Dict.{get-put, get-put_self}
use fincal.Calendar.{Date}
use fincal.Fiscal.Row.{Row}
use fincal.Ical.Events.{event_date, event_uid, Chosen, take_event, dedupe_from, dedupe_events}
use fincal.Ical.Dedupe.{IsBest, IsChosen, uid_of, choose-IsBest, choose_self, choose-IsChosen}

module _ (parse_moment : Text → Option ℤ) (show_other app_name : Text) where
  abbrev taken : Row → Chosen → Chosen
  taken e = take_event parse_moment show_other app_name (event_date e) e

  taken-IsChosen :
      (e : Row) (c : Chosen)
      → IsChosen parse_moment show_other app_name c
      → IsChosen parse_moment show_other app_name (taken e c)
  taken-IsChosen e c ok = elim (Option-cases (event_date e)) [
    | inl undated ↦ rw undated ok
    | inr (d, dated) ↦ rw dated (choose-IsChosen parse_moment show_other app_name (e, d) c ok)
  ]

  taken-IsBest :
      (e : Row) (x : Row × Date) (uid : Text) (c : Chosen)
      → IsBest parse_moment show_other app_name uid x c
      → IsBest parse_moment show_other app_name uid x (taken e c)
  taken-IsBest e x uid c b = elim (Option-cases (event_date e)) [
    | inl undated ↦ rw undated b
    | inr (d, dated) ↦ rw dated (choose-IsBest parse_moment show_other app_name x (e, d) uid c b)
  ]

  abbrev from : Chosen → List Row → Chosen
  from = dedupe_from parse_moment show_other app_name

  from-IsChosen :
      (es : List Row) (c : Chosen)
      → IsChosen parse_moment show_other app_name c
      → IsChosen parse_moment show_other app_name (from c es)
  unfolding dedupe_from
  from-IsChosen [] c ok = ok
  from-IsChosen (e ∷ es) c ok = from-IsChosen es (taken e c) (taken-IsChosen e c ok)

  from-IsBest :
      (es : List Row) (x : Row × Date) (uid : Text) (c : Chosen)
      → IsBest parse_moment show_other app_name uid x c
      → IsBest parse_moment show_other app_name uid x (from c es)
  unfolding dedupe_from
  from-IsBest [] x uid c b = b
  from-IsBest (e ∷ es) x uid c b = from-IsBest es x uid (taken e c) (taken-IsBest e x uid c b)

  from-append : (es fs : List Row) (c : Chosen) → from c (es ++ fs) ≡ from (from c es) fs
  unfolding dedupe_from
  from-append [] fs c = refl
  from-append (e ∷ es) fs c = from-append es fs (taken e c)

  nothing-IsChosen : IsChosen parse_moment show_other app_name ([], [])
  unfolding Dict.get
  nothing-IsChosen = record {
    unlisted = λ uid h. refl;
    listed = λ uid x h. cc;
    keyed = λ uid x h. cc;
  }

  count-IsChosen :
      (uid : Text) (c : Chosen)
      → IsChosen parse_moment show_other app_name c
      → count (λ u. u == uid) c.0 ≡ (if is_some (Dict.get uid c.1) then 1 else 0)
  count-IsChosen uid c ok = elim (Option-cases (Dict.get uid c.1)) [
    | inl missing ↦ rw missing (ok.unlisted uid missing)
    | inr (x, found) ↦ rw found (ok.listed uid x found)
  ]

  -- One VEVENT for each identity: the identity of an event with a date is listed exactly once, and
  -- an event of that identity is kept for it which the given one does not outrank. No identity at
  -- all is listed twice, and each that is listed has an event.
  pub dedupe_events-IsBest :
      (before after : List Row) (e : Row) (d : Date) (uid : Text)
      → event_date e ≡ some d
      → let result = dedupe_events parse_moment show_other app_name (before ++ e ∷ after) in
        let own = event_uid parse_moment show_other app_name e d in
        (count (λ u. u == own) result.0 ≡ 1)
        × IsBest parse_moment show_other app_name own (e, d) result
        × (count (λ u. u == uid) result.0 ≡ (if is_some (Dict.get uid result.1) then 1 else 0))
  unfolding dedupe_events dedupe_from
  dedupe_events-IsBest before after e d uid dated =
      let start : Chosen = ([], []) in
      let so_far = from start before in
      let ok = from-IsChosen before start nothing-IsChosen in
      let whole = from-IsChosen (before ++ e ∷ after) start nothing-IsChosen in
      let own = uid_of parse_moment show_other app_name (e, d) in
      let here : IsBest parse_moment show_other app_name own (e, d) (taken e so_far) =
        rw dated (choose_self parse_moment show_other app_name (e, d) so_far ok) in
      let there = from-IsBest after (e, d) own (taken e so_far) here in
      let best =
        subst (λ c. IsBest parse_moment show_other app_name own (e, d) c)
          (sym (from-append before (e ∷ after) start)) there in
      (
        whole.listed own best.best best.found,
        best,
        count-IsChosen uid (from start (before ++ e ∷ after)) whole,
      )
