-- ===== src/Tests/LayerCache.antt =====
-- The cache of app/layer_cache.py on small tables.
use fincal.Prelude.{◌⊎◌, ltb, length, ℕ, ◌≤◌, ◌≡◌, refl, true, false, none, some, [], ◌∷◌, arith}
use fincal.Prelude.Interfaces.{nat_eq, list_eq}
use fincal.Prelude.Text.{Text, codes}
use fincal.Prelude.Dict
use fincal.LayerCache.State.{Cache, is_live, evict, put, fresh_entry, or_zero}
use fincal.LayerCache.Bound.{Settled, Keeps, evict-Settled, evict-Keeps}
use fincal.LayerCache.Tickets.{put-later_ticket_wins}
use fincal.LayerCache.Forgotten.{invalidate-lets_old_win, refetch}

abbrev quote : Text
quote = codes "quote:AAPL"

abbrev news : Text
news = codes "news:AAPL"

-- Two entries under a cap of one; the older key has a live producer.
abbrev busy : Cache ℕ
busy = record {
  entries = (quote, fresh_entry 10 157 60) ∷ (news, fresh_entry 20 3 60) ∷ [];
  locks = (quote, 0) ∷ [];
  set_events = [];
  next_event = 1;
  tickets = (quote, 2) ∷ [];
  applied = [];
  default_ttl = 60;
  stale_ttl = 600;
  max_entries = some 1;
}

-- The same table with no cap and no producer.
abbrev idle : Cache ℕ
idle = record busy { locks = []; max_entries = none }

locked_quote : is_live quote busy ≡ true
unfolding is_live Dict.get
locked_quote = refl

unlocked_quote : is_live quote idle ≡ false
unfolding is_live Dict.get
unlocked_quote = refl

nothing_applied : or_zero (Dict.get quote busy.applied) ≤ 2
unfolding Dict.get
nothing_applied = omega arith

evict-Settled_example :
    Settled 1 (evict busy) × ((ltb 1 (length busy.entries) ≡ true) ⊎ (evict busy ≡ busy))
evict-Settled_example = evict-Settled busy 1 refl

evict-Keeps_example : Keeps quote busy (evict busy)
evict-Keeps_example = evict-Keeps busy quote locked_quote

put-later_ticket_wins_example :
    put 31 quote 150 none (some 1) (put 30 quote 160 none (some 2) busy).1
    ≡ (some (fresh_entry 30 160 60), (put 30 quote 160 none (some 2) busy).1)
put-later_ticket_wins_example =
    put-later_ticket_wins 30 31 quote 160 150 none 1 2 busy locked_quote nothing_applied
      (omega arith)

invalidate-lets_old_win_example :
    Dict.get quote (put 41 quote 150 none (some 1) (refetch 40 quote 160 none idle)).1.entries
    ≡ some (fresh_entry 41 150 60)
invalidate-lets_old_win_example =
    invalidate-lets_old_win 40 41 quote 160 150 none 1 idle refl unlocked_quote refl (omega arith)
