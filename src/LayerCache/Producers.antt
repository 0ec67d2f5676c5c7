-- ===== src/LayerCache/Producers.antt =====
-- The methods of `LayerCache` that start, join and finish a fetch, cut into their critical
-- sections, at the calls of the fetcher and at the waiting: what runs between two cuts is one step.
use fincal.Prelude.{
  ℕ, zero, suc, ◌+◌, Bool, true, false, Option, none, some, List, ◌∷◌, ◌&&◌, ltb, if◌then◌else◌,
}
use fincal.Prelude.Interfaces.{◌==◌, nat_eq, list_eq, option_eq}
use fincal.Prelude.Text.{Text}
use fincal.Prelude.Dict
use fincal.LayerCache.State.{
  Entry, Cache, get, put, mark_stale, begin_fetch, is_stale_valid, event_is_set, fresh_entry,
  ttl_or,
}

-- A call that will run the fetcher, or a background refresh. `event` is the lock object that it
-- owns; a caller that only waits for another producer owns none.
pub record Producer : Type 0 where
  pub key : Text
  pub ticket : ℕ
  pub event : Option ℕ

-- Where a request is answered from.
pub data Route {ℓ} (A : Type ℓ) : Type ℓ where
  fresh : Entry A → Route A
  stale : Entry A → Route A
  blocking : Route A

-- How a blocking fetch ends: with a payload and its entry, or by raising the fetcher's error.
pub data Answer {ℓ} (A : Type ℓ) : Type ℓ where
  answer : A → Entry A → Answer A
  raised : Answer A

-- The lock that a caller would wait for: one that is not set.
abbrev pub waited_lock : Option ℕ → List ℕ → Option ℕ
waited_lock none events = none
waited_lock (some event) events = if event_is_set event events then none else some event

-- `entry.last_success_at` as a truth value: the time 0 counts as none.
abbrev pub succeeded : Option ℕ → Bool
succeeded none = false
succeeded (some zero) = false
succeeded (some (suc n)) = true

module _ {ℓ} {A : Type ℓ} where
  -- A new `threading.Event` in `_locks[key]`.
  unfoldable pub take_lock : Text → Cache A → ℕ × Cache A
  take_lock key c = (
    c.next_event,
    record c { locks = Dict.put key c.next_event c.locks; next_event = c.next_event + 1 },
  )

  abbrev pub set_refreshing : Text → Option (Entry A) → Cache A → Cache A
  set_refreshing key none c = c
  set_refreshing key (some entry) c = record c {
    entries = Dict.put key (record entry { refreshing = true }) c.entries;
  }

  abbrev pub start_refresh : Text → Cache A → Option Producer × Cache A
  start_refresh key c =
      let (event, locked) = take_lock key (set_refreshing key (Dict.get key c.entries) c) in
      let (ticket, begun) = begin_fetch key locked in
      (some (record { key = key; ticket = ticket; event = some event }), begun)

  -- `_trigger_refresh` up to the start of its thread.
  abbrev pub refresh_unless : Option ℕ → Text → Cache A → Option Producer × Cache A
  refresh_unless (some event) key c = (none, c)
  refresh_unless none key c = start_refresh key c

  unfoldable pub trigger_refresh : Text → Cache A → Option Producer × Cache A
  unfolding take_lock begin_fetch
  trigger_refresh key c = refresh_unless (Dict.get key c.locks) key c

  abbrev pub own_unless : Option ℕ → Text → ℕ → Cache A → Producer × Cache A
  own_unless (some event) key ticket c = (record { key = key; ticket = ticket; event = none }, c)
  own_unless none key ticket c =
      let (event, locked) = take_lock key c in
      (record { key = key; ticket = ticket; event = some event }, locked)

  -- The critical section of `_do_fetch` up to its wait, or to its call of the fetcher. The ticket is
  -- that of the call of `begin_fetch` in front of it, a critical section of its own.
  unfoldable pub claim : Text → ℕ → Cache A → Producer × Cache A
  unfolding take_lock
  claim key ticket c = own_unless (waited_lock (Dict.get key c.locks) c.set_events) key ticket c

  -- What a caller that waited reads: an entry, or nothing, and then it fetches itself.
  unfoldable pub joined : Producer → Cache A → Option (Entry A)
  joined p c = Dict.get p.key c.entries

  abbrev pub release_event : Option ℕ → Text → Cache A → Cache A
  release_event none key c = c
  release_event (some event) key c = record c {
    locks = if Dict.get key c.locks == some event then Dict.pop key c.locks else c.locks;
    set_events = event ∷ c.set_events;
  }

  -- The `finally` blocks.
  unfoldable pub release : Producer → Cache A → Cache A
  release p c = release_event p.event p.key c

  -- The fetcher returned: store the snapshot, and release.
  unfoldable pub finish_ok : ℕ → Option ℕ → A → Producer → Cache A → Cache A
  unfolding release
  finish_ok now ttl payload p c = release p (put now p.key payload ttl (some p.ticket) c).1

  -- The fetcher raised: mark what is there as stale, and release.
  unfoldable pub finish_failed : Text → Producer → Cache A → Cache A
  unfolding release
  finish_failed code p c = release p (mark_stale p.key code (some p.ticket) c)

  -- What `_do_fetch` returns after a snapshot was offered to `put`.
  abbrev pub answer_stored : ℕ → Option ℕ → ℕ → A → Option (Entry A) → Answer A
  answer_stored now ttl default_ttl payload none =
      answer payload (fresh_entry now payload (ttl_or ttl default_ttl))
  answer_stored now ttl default_ttl payload (some entry) = answer payload entry

  unfoldable pub answer_ok : ℕ → Option ℕ → A → Producer → Cache A → Answer A
  answer_ok now ttl payload p c =
      answer_stored now ttl c.default_ttl payload (put now p.key payload ttl (some p.ticket) c).0

  abbrev pub answer_stale : Option (Entry A) → Answer A
  answer_stale none = raised
  answer_stale (some entry) =
      if succeeded entry.last_success_at then answer entry.payload entry else raised

  unfoldable pub answer_failed : Text → Producer → Cache A → Answer A
  answer_failed code p c =
      answer_stale (Dict.get p.key (mark_stale p.key code (some p.ticket) c).entries)

  abbrev pub route_of : ℕ → Text → Option (Entry A) → Cache A → Route A
  route_of now key none c = Route.blocking
  route_of now key (some entry) c =
      if ltb now entry.expires_at
      then Route.fresh entry
      else if succeeded entry.last_success_at && is_stale_valid now key c
      then Route.stale entry
      else Route.blocking

  -- `get_or_refresh` up to the choice of the route. The clock is read once, and no other caller comes
  -- between the reading of the entry and the choice. A stale answer goes on with `trigger_refresh`,
  -- a blocking one with `begin_fetch` and `claim`, each a step of its own.
  unfoldable pub get_or_refresh : ℕ → Text → Cache A → Route A × Cache A
  get_or_refresh now key c =
      let (entry, touched) = get key c in (route_of now key entry touched, touched)
