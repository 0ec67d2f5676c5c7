-- ===== src/LayerCache/Tickets.antt =====
-- The ordering tickets: which snapshot stays when several producers of a key finish.
use fincal.Prelude.{ℕ, ◌≤◌, ◌<◌, ◌≡◌, ap, ◌∙◌, true, false, Option, some, List, arith, ltb, lt→ltb}
use fincal.Prelude.Interfaces.{nat_eq, list_eq}
use fincal.Prelude.Text.{Text}
use fincal.Prelude.Dict
use fincal.Prelude.Dict.{get-put_self, get-pop-append}
use fincal.LayerCache.State.{
  Entry, Cache, is_live, put, fresh_entry, ttl_or, or_zero, store, note_applied, move_to_end,
}
use fincal.LayerCache.Bound.{evict-Keeps}

module _ {ℓ} {A : Type ℓ} where
  -- A stored entry is found, also after it was moved to the end.
  pub get-stored :
      (k : Text) (e : Entry A) (d : List (Text × Entry A))
      → Dict.get k (move_to_end k (Dict.put k e d)) ≡ some e
  unfolding move_to_end
  get-stored k e d = rw (get-put_self k e d) (get-pop-append k e (Dict.put k e d))

  -- What is read after a `put` that was not refused: the new entry, if it is not evicted at once.
  put-stores :
      (now : ℕ) (k : Text) (x : A) (ttl : Option ℕ) (t : ℕ) (c : Cache A)
      → is_live k c ≡ true
      → or_zero (Dict.get k c.applied) ≤ t
      → (Dict.get k (put now k x ttl (some t) c).1.entries
          ≡ some (fresh_entry now x (ttl_or ttl c.default_ttl)))
        × (Dict.get k (put now k x ttl (some t) c).1.applied ≡ some t)
  unfolding put is_live
  put-stores now k x ttl t c live newer =
      let entry = fresh_entry now x (ttl_or ttl c.default_ttl) in
      let in_time : ltb t (or_zero (Dict.get k c.applied)) ≡ false = ground arith in
      let kept = evict-Keeps (store k entry (note_applied k (some t) c)) k live in
      rw in_time (kept.0 ∙ get-stored k entry c.entries, kept.1 ∙ get-put_self k t c.applied)

  -- A snapshot with a smaller ticket than the applied one changes nothing.
  put-refused :
      (now : ℕ) (k : Text) (x : A) (ttl : Option ℕ) (t u : ℕ) (c : Cache A)
      → Dict.get k c.applied ≡ some u
      → t < u
      → put now k x ttl (some t) c ≡ (Dict.get k c.entries, c)
  unfolding put
  put-refused now k x ttl t u c at less = rw (at, lt→ltb t u less)

  -- Of two fetches of a key with a live producer, where no higher ticket than theirs has been applied,
  -- the one that started later wins also if it finishes first: once its snapshot has landed, the snapshot of the earlier ticket leaves the cache
  -- as it is, and the earlier producer is handed the newer entry.
  pub put-later_ticket_wins :
      (now later : ℕ) (k : Text) (new old : A) (ttl : Option ℕ) (t u : ℕ) (c : Cache A)
      → is_live k c ≡ true
      → or_zero (Dict.get k c.applied) ≤ u
      → t < u
      → put later k old ttl (some t) (put now k new ttl (some u) c).1
        ≡ (some (fresh_entry now new (ttl_or ttl c.default_ttl)), (put now k new ttl (some u) c).1)
  put-later_ticket_wins now later k new old ttl t u c live newer less =
      let stored = put-stores now k new ttl u c live newer in
      put-refused later k old ttl t u (put now k new ttl (some u) c).1 stored.1 less
      ∙ ap (λ e. (e, (put now k new ttl (some u) c).1)) stored.0
