-- ===== src/LayerCache/State.antt =====
-- The object `LayerCache`, and the methods that touch nothing but its tables. Each method is one
-- critical section; the value of `time.time()` is an argument. Times are whole numbers of a fixed
-- unit. A lock object of the dict `_locks` is a number, and `set_events` are those that are set.
use fincal.Prelude.{
  ℕ, zero, suc, ◌+◌, Bool, true, false, Option, none, some, List, [], ◌∷◌, ◌++◌, not, ltb,
  if◌then◌else◌, length, map, any, keep, is_some, eqb,
}
use fincal.Prelude.Interfaces.{nat_eq, list_eq}
use fincal.Prelude.Int.{ℤ, pos, negsuc}
use fincal.Prelude.Text.{Text, is_empty}
use fincal.Prelude.Dict

pub record Entry {ℓ} (A : Type ℓ) : Type ℓ where
  pub payload : A
  pub fetched_at : ℕ
  pub expires_at : ℕ
  pub last_success_at : Option ℕ
  pub stale : Bool
  pub error_code : Option Text
  pub refreshing : Bool

-- `entries` is the OrderedDict, least recently used first.
pub record Cache {ℓ} (A : Type ℓ) : Type ℓ where
  pub entries : List (Text × Entry A)
  pub locks : List (Text × ℕ)
  pub set_events : List ℕ
  pub next_event : ℕ
  pub tickets : List (Text × ℕ)
  pub applied : List (Text × ℕ)
  pub default_ttl : ℕ
  pub stale_ttl : ℕ
  pub max_entries : Option ℕ

-- `max_entries if max_entries and max_entries > 0 else None`
abbrev pub cap_of : Option ℤ → Option ℕ
cap_of none = none
cap_of (some (negsuc n)) = none
cap_of (some (pos zero)) = none
cap_of (some (pos (suc n))) = some (suc n)

-- `ttl or self._default_ttl`
abbrev pub ttl_or : Option ℕ → ℕ → ℕ
ttl_or none fallback = fallback
ttl_or (some zero) fallback = fallback
ttl_or (some (suc n)) fallback = suc n

-- `d.get(key, 0)`
abbrev pub or_zero : Option ℕ → ℕ
or_zero none = 0
or_zero (some n) = n

abbrev pub event_is_set : ℕ → List ℕ → Bool
event_is_set e events = any (λ x. eqb x e) events

-- `now - last < stale_ttl`, the difference taken over the integers.
abbrev pub within_stale : ℕ → ℕ → Option ℕ → Bool
within_stale now stale_ttl none = false
within_stale now stale_ttl (some last) = ltb now (last + stale_ttl)

abbrev pub keys_of {κ} : {V : Type κ} → List (Text × V) → List Text
keys_of = map (λ e. e.0)

module _ {ℓ} {A : Type ℓ} where
  unfoldable pub init : ℕ → ℕ → Option ℤ → Cache A
  init default_ttl stale_ttl max_entries = record {
    entries = [];
    locks = [];
    set_events = [];
    next_event = 0;
    tickets = [];
    applied = [];
    default_ttl = default_ttl;
    stale_ttl = stale_ttl;
    max_entries = cap_of max_entries;
  }

  -- `OrderedDict.move_to_end`, of a key that is present.
  abbrev pub move_found : Text → Option (Entry A) → List (Text × Entry A) → List (Text × Entry A)
  move_found key none d = d
  move_found key (some entry) d = Dict.pop key d ++ (key, entry) ∷ []

  unfoldable pub move_to_end : Text → List (Text × Entry A) → List (Text × Entry A)
  move_to_end key d = move_found key (Dict.get key d) d

  unfoldable pub get : Text → Cache A → Option (Entry A) × Cache A
  unfolding move_to_end
  get key c = (Dict.get key c.entries, record c { entries = move_to_end key c.entries })

  unfoldable pub is_fresh : ℕ → Text → Cache A → Bool
  is_fresh now key c = elim (Dict.get key c.entries) [
    | none ↦ false
    | some e ↦ ltb now e.expires_at
  ]

  unfoldable pub is_stale_valid : ℕ → Text → Cache A → Bool
  is_stale_valid now key c = elim (Dict.get key c.entries) [
    | none ↦ false
    | some e ↦ within_stale now c.stale_ttl e.last_success_at
  ]

  -- `_next_ticket_locked`, and `begin_fetch` around it.
  unfoldable pub begin_fetch : Text → Cache A → ℕ × Cache A
  begin_fetch key c =
      let ticket = or_zero (Dict.get key c.tickets) + 1 in
      (ticket, record c { tickets = Dict.put key ticket c.tickets })

  -- `_is_live_locked`
  unfoldable pub is_live : Text → Cache A → Bool
  is_live key c = elim (Dict.get key c.locks) [
    | none ↦ false
    | some e ↦ not (event_is_set e c.set_events)
  ]

  -- `_forget_key_locked`
  unfoldable pub forget_key : Text → Cache A → Cache A
  forget_key key c = record c { tickets = Dict.pop key c.tickets; applied = Dict.pop key c.applied }

  -- Delete the entry, and forget the key.
  unfoldable pub drop_key : Text → Cache A → Cache A
  unfolding forget_key
  drop_key key c = forget_key key (record c { entries = Dict.pop key c.entries })

  -- `next((k for k in self._entries if not self._is_live_locked(k)), None)`
  unfoldable pub first_idle : List (Text × Entry A) → Cache A → Option Text
  first_idle [] c = none
  first_idle ((key, _) ∷ d) c = if is_live key c then first_idle d c else some key

  abbrev pub with_victim : Option Text → Cache A → (Text → Cache A) → Cache A
  with_victim none c next = c
  with_victim (some victim) c next = next victim

  -- The loop of `_evict_locked`. Each round deletes a key, so the number of entries is enough fuel.
  unfoldable pub evict_rounds : ℕ → ℕ → Cache A → Cache A
  evict_rounds zero limit c = c
  evict_rounds (suc fuel) limit c =
      let next = λ (victim : Text). evict_rounds fuel limit (drop_key victim c) in
      if ltb limit (length c.entries) then with_victim (first_idle c.entries c) c next else c

  abbrev pub evict_to : Option ℕ → Cache A → Cache A
  evict_to none c = c
  evict_to (some limit) c = evict_rounds (length c.entries) limit c

  unfoldable pub evict : Cache A → Cache A
  evict c = evict_to c.max_entries c

  -- The entry that `put` stores.
  abbrev pub fresh_entry : ℕ → A → ℕ → Entry A
  fresh_entry now payload ttl = record {
    payload = payload;
    fetched_at = now;
    expires_at = now + ttl;
    last_success_at = some now;
    stale = false;
    error_code = none;
    refreshing = false;
  }

  abbrev pub note_applied : Text → Option ℕ → Cache A → Cache A
  note_applied key none c = c
  note_applied key (some ticket) c = record c { applied = Dict.put key ticket c.applied }

  abbrev pub store : Text → Entry A → Cache A → Cache A
  store key entry c = record c { entries = move_to_end key (Dict.put key entry c.entries) }

  -- `ticket is not None and ticket < self._applied.get(key, 0)`
  abbrev pub is_outdated : Text → Option ℕ → Cache A → Bool
  is_outdated key none c = false
  is_outdated key (some ticket) c = ltb ticket (or_zero (Dict.get key c.applied))

  -- The entry that is returned, and the cache.
  unfoldable pub put : ℕ → Text → A → Option ℕ → Option ℕ → Cache A → Option (Entry A) × Cache A
  unfolding move_to_end
  put now key payload ttl ticket c =
      let entry = fresh_entry now payload (ttl_or ttl c.default_ttl) in
      if is_outdated key ticket c
      then (Dict.get key c.entries, c)
      else (some entry, evict (store key entry (note_applied key ticket c)))

  abbrev pub mark : Text → Entry A → Entry A
  mark code entry = record entry { stale = true; error_code = some code; refreshing = false }

  -- The entry is changed in place: it keeps its position.
  abbrev pub mark_found : Option (Entry A) → Text → Text → Option ℕ → Cache A → Cache A
  mark_found none key code ticket c = c
  mark_found (some entry) key code ticket c =
      if is_outdated key ticket c
      then c
      else record c { entries = Dict.put key (mark code entry) c.entries }

  unfoldable pub mark_stale : Text → Text → Option ℕ → Cache A → Cache A
  mark_stale key code ticket c = mark_found (Dict.get key c.entries) key code ticket c

  -- The loop of `invalidate`.
  unfoldable pub clear_keys : List Text → Cache A → Cache A
  unfolding drop_key
  clear_keys [] c = c
  clear_keys (key ∷ keys) c = clear_keys keys (if is_live key c then c else drop_key key c)

  -- All entries, and the locks of keys that have no entry.
  abbrev pub all_keys : Cache A → List Text
  all_keys c =
      keys_of c.entries ++ keep (λ k. not (is_some (Dict.get k c.entries))) (keys_of c.locks)

  abbrev pub chosen_keys : Option Text → Cache A → List Text
  chosen_keys none c = all_keys c
  chosen_keys (some key) c = if is_empty key then all_keys c else key ∷ []

  unfoldable pub invalidate : Option Text → Cache A → Cache A
  unfolding clear_keys
  invalidate key c = clear_keys (chosen_keys key c) c
