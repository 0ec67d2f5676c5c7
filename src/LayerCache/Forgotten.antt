-- ===== src/LayerCache/Forgotten.antt =====
-- What the tickets do not order: a producer that outlives an invalidation of its key.
use fincal.Prelude.{ℕ, ◌+◌, ◌≤◌, ◌≡◌, ap, ◌∙◌, false, Option, none, some, arith, ltb}
use fincal.Prelude.Interfaces.{nat_eq, list_eq}
use fincal.Prelude.Text.{Text, is_empty}
use fincal.Prelude.Dict
use fincal.Prelude.Dict.{get-put_self, get-pop_self}
use fincal.LayerCache.State.{
  Cache, is_live, put, begin_fetch, invalidate, drop_key, evict, evict_to, fresh_entry, ttl_or,
  or_zero, store, note_applied,
}
use fincal.LayerCache.Tickets.{get-stored}

module _ {ℓ} {A : Type ℓ} where
  evict_unbounded : (c : Cache A) → c.max_entries ≡ none → evict c ≡ c
  unfolding evict
  evict_unbounded c h = ap (λ m. evict_to m c) h

  -- Without a cap, a `put` that is not refused stores its entry and its ticket.
  put_unbounded :
      (now : ℕ) (k : Text) (x : A) (ttl : Option ℕ) (t : ℕ) (c : Cache A)
      → c.max_entries ≡ none
      → or_zero (Dict.get k c.applied) ≤ t
      → (put now k x ttl (some t) c).1
        ≡ store k (fresh_entry now x (ttl_or ttl c.default_ttl)) (note_applied k (some t) c)
  unfolding put
  put_unbounded now k x ttl t c unbounded newer =
      let in_time : ltb t (or_zero (Dict.get k c.applied)) ≡ false = ground arith in
      rw in_time (
        evict_unbounded
          (store k (fresh_entry now x (ttl_or ttl c.default_ttl)) (note_applied k (some t) c))
          unbounded)

  -- An invalidation drops the entry and the tickets of an idle key.
  invalidate_idle :
      (k : Text) (c : Cache A)
      → is_empty k ≡ false
      → is_live k c ≡ false
      → invalidate (some k) c ≡ drop_key k c
  unfolding invalidate
  invalidate_idle k c named idle = rw (named, idle)

  -- The first fetch after an invalidation, up to its landing.
  pub refetch : ℕ → Text → A → Option ℕ → Cache A → Cache A
  refetch now k new ttl c =
      let (ticket, begun) = begin_fetch k (invalidate (some k) c) in
      (put now k new ttl (some ticket) begun).1

  -- The cache after the first fetch took its ticket: the counter starts again at 1.
  begun : Text → Cache A → Cache A
  begun k c = record (drop_key k c) { tickets = Dict.put k 1 (drop_key k c).tickets }

  begin_dropped : (k : Text) (c : Cache A) → begin_fetch k (drop_key k c) ≡ (1, begun k c)
  unfolding begin_fetch drop_key begun
  begin_dropped k c =
      ap
        (λ o. (
          or_zero o + 1,
          record (drop_key k c) { tickets = Dict.put k (or_zero o + 1) (drop_key k c).tickets },
        ))
        (get-pop_self k c.tickets)

  applied_begun : (k : Text) (c : Cache A) → Dict.get k (begun k c).applied ≡ none
  unfolding begun drop_key
  applied_begun k c = get-pop_self k c.applied

  refetch-eq :
      (now : ℕ) (k : Text) (new : A) (ttl : Option ℕ) (c : Cache A)
      → is_empty k ≡ false
      → is_live k c ≡ false
      → c.max_entries ≡ none
      → refetch now k new ttl c
        ≡ store k
            (fresh_entry now new (ttl_or ttl c.default_ttl))
            (note_applied k (some 1) (begun k c))
  unfolding refetch begun drop_key
  refetch-eq now k new ttl c named idle unbounded =
      ap (λ p. (put now k new ttl (some p.0) p.1).1)
        (ap (begin_fetch k) (invalidate_idle k c named idle) ∙ begin_dropped k c)
      ∙ put_unbounded now k new ttl 1 (begun k c) unbounded (rw (applied_begun k c) (omega arith))

  -- In a cache without a cap, let a key have no live producer when it is invalidated, and be fetched
  -- again. A fetch that still holds a ticket from before may finish after that: whatever ticket it
  -- holds, if it is at least 1, its older snapshot replaces the newer one.
  pub invalidate-lets_old_win :
      (now later : ℕ) (k : Text) (new old : A) (ttl : Option ℕ) (t : ℕ) (c : Cache A)
      → is_empty k ≡ false
      → is_live k c ≡ false
      → c.max_entries ≡ none
      → 1 ≤ t
      → Dict.get k (put later k old ttl (some t) (refetch now k new ttl c)).1.entries
        ≡ some (fresh_entry later old (ttl_or ttl c.default_ttl))
  unfolding begun drop_key
  invalidate-lets_old_win now later k new old ttl t c named idle unbounded held =
      let entry = fresh_entry now new (ttl_or ttl c.default_ttl) in
      let landed = store k entry (note_applied k (some 1) (begun k c)) in
      let applied : Dict.get k landed.applied ≡ some 1 = get-put_self k 1 (begun k c).applied in
      ap (λ d. Dict.get k (put later k old ttl (some t) d).1.entries)
        (refetch-eq now k new ttl c named idle unbounded)
      ∙ ap (λ d. Dict.get k d.entries)
          (put_unbounded later k old ttl t landed unbounded (rw applied held))
      ∙ get-stored k (fresh_entry later old (ttl_or ttl c.default_ttl)) landed.entries
