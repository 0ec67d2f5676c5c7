-- ===== src/LayerCache/Locks.antt =====
-- The methods that move entries and tickets leave the locks alone.
use fincal.Prelude.{
  inl, inr, ℕ, zero, suc, ◌≡◌, refl, ◌∙◌, Option, none, some, List, [], ◌∷◌, length, ltb,
  Bool-cases, Option-cases,
}
use fincal.Prelude.Interfaces.{nat_eq, list_eq}
use fincal.Prelude.Text.{Text}
use fincal.Prelude.Dict
use fincal.LayerCache.State.{
  Entry, Cache, get, put, mark_stale, begin_fetch, invalidate, clear_keys, chosen_keys, drop_key,
  is_live, evict, evict_to, evict_rounds, first_idle, note_applied, store, fresh_entry, ttl_or,
  is_outdated, mark_found,
}

-- The three fields that belong to the locks are the same.
pub record SameLocks {ℓ} {A : Type ℓ} (c c' : Cache A) : Type 0 where
  pub locks : c'.locks ≡ c.locks
  pub set_events : c'.set_events ≡ c.set_events
  pub next_event : c'.next_event ≡ c.next_event

module _ {ℓ} {A : Type ℓ} where
  SameLocks-refl : (c : Cache A) → SameLocks c c
  SameLocks-refl c = record { locks = refl; set_events = refl; next_event = refl }

  SameLocks-trans : (a b c : Cache A) → SameLocks a b → SameLocks b c → SameLocks a c
  SameLocks-trans a b c h k = record {
    locks = k.locks ∙ h.locks;
    set_events = k.set_events ∙ h.set_events;
    next_event = k.next_event ∙ h.next_event;
  }

  drop_key-SameLocks : (k : Text) (c : Cache A) → SameLocks c (drop_key k c)
  unfolding drop_key
  drop_key-SameLocks k c = record { locks = refl; set_events = refl; next_event = refl }

  evict_rounds-SameLocks : (fuel limit : ℕ) (c : Cache A) → SameLocks c (evict_rounds fuel limit c)
  unfolding evict_rounds
  evict_rounds-SameLocks zero limit c = SameLocks-refl c
  evict_rounds-SameLocks (suc fuel) limit c = elim (Bool-cases (ltb limit (length c.entries))) [
    | inr fits ↦ rw fits (SameLocks-refl c)
    | inl over ↦ elim (Option-cases (first_idle c.entries c)) [
      | inl busy ↦ rw (over, busy) (SameLocks-refl c)
      | inr (v, idle) ↦
          rw (over, idle)
            (SameLocks-trans c (drop_key v c) (evict_rounds fuel limit (drop_key v c))
              (drop_key-SameLocks v c) (evict_rounds-SameLocks fuel limit (drop_key v c)))
    ]
  ]

  evict_to-SameLocks : (m : Option ℕ) (c : Cache A) → SameLocks c (evict_to m c)
  evict_to-SameLocks none c = SameLocks-refl c
  evict_to-SameLocks (some limit) c = evict_rounds-SameLocks (length c.entries) limit c

  note_applied-SameLocks :
      (k : Text) (t : Option ℕ) (c : Cache A) → SameLocks c (note_applied k t c)
  note_applied-SameLocks k none c = SameLocks-refl c
  note_applied-SameLocks k (some t) c = record {
    locks = refl;
    set_events = refl;
    next_event = refl;
  }

  store-SameLocks : (k : Text) (entry : Entry A) (c : Cache A) → SameLocks c (store k entry c)
  store-SameLocks k entry c = record { locks = refl; set_events = refl; next_event = refl }

  pub put-SameLocks :
      (now : ℕ) (k : Text) (x : A) (ttl t : Option ℕ) (c : Cache A)
      → SameLocks c (put now k x ttl t c).1
  unfolding put evict
  put-SameLocks now k x ttl t c = elim (Bool-cases (is_outdated k t c)) [
    | inl old ↦ rw old (SameLocks-refl c)
    | inr new ↦
        let entry = fresh_entry now x (ttl_or ttl c.default_ttl) in
        let stored = store k entry (note_applied k t c) in
        let same =
          SameLocks-trans c (note_applied k t c) stored (note_applied-SameLocks k t c)
            (store-SameLocks k entry (note_applied k t c)) in
        rw new (
          SameLocks-trans c stored (evict_to stored.max_entries stored) same
            (evict_to-SameLocks stored.max_entries stored))
  ]

  mark_found-SameLocks :
      (o : Option (Entry A)) (k code : Text) (t : Option ℕ) (c : Cache A)
      → SameLocks c (mark_found o k code t c)
  mark_found-SameLocks none k code t c = SameLocks-refl c
  mark_found-SameLocks (some entry) k code t c = elim (Bool-cases (is_outdated k t c)) [
    | inl old ↦ rw old (SameLocks-refl c)
    | inr new ↦ rw new (record { locks = refl; set_events = refl; next_event = refl })
  ]

  pub mark_stale-SameLocks :
      (k code : Text) (t : Option ℕ) (c : Cache A) → SameLocks c (mark_stale k code t c)
  unfolding mark_stale
  mark_stale-SameLocks k code t c = mark_found-SameLocks (Dict.get k c.entries) k code t c

  clear_keys-SameLocks : (ks : List Text) (c : Cache A) → SameLocks c (clear_keys ks c)
  unfolding clear_keys
  clear_keys-SameLocks [] c = SameLocks-refl c
  clear_keys-SameLocks (k ∷ ks) c = elim (Bool-cases (is_live k c)) [
    | inl live ↦ rw live (clear_keys-SameLocks ks c)
    | inr idle ↦ rw idle (
        SameLocks-trans c (drop_key k c) (clear_keys ks (drop_key k c)) (drop_key-SameLocks k c)
          (clear_keys-SameLocks ks (drop_key k c)))
  ]

  pub invalidate-SameLocks : (key : Option Text) (c : Cache A) → SameLocks c (invalidate key c)
  unfolding invalidate
  invalidate-SameLocks key c = clear_keys-SameLocks (chosen_keys key c) c

  pub get-SameLocks : (k : Text) (c : Cache A) → SameLocks c (get k c).1
  unfolding get
  get-SameLocks k c = record { locks = refl; set_events = refl; next_event = refl }

  pub begin_fetch-SameLocks : (k : Text) (c : Cache A) → SameLocks c (begin_fetch k c).1
  unfolding begin_fetch
  begin_fetch-SameLocks k c = record { locks = refl; set_events = refl; next_event = refl }
