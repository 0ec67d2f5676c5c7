-- ===== src/Symbol/Stored.antt =====
-- app/symbol.py: rows that were read from the database, codes of the provider Longbridge, and the
-- keys for sorting.
use fincal.Prelude.{
  ℕ, ◌-◌, Bool, true, Option, none, some, List, [], ◌∷◌, ◌++◌, ◌&&◌, ◌||◌, not, eqb, if◌then◌else◌,
  length, any,
}
use fincal.Prelude.Interfaces.{◌==◌, nat_eq, list_eq, pair_eq}
use fincal.Prelude.Decimal.{decimal}
use fincal.Prelude.Text.{
  Text, codes, is_empty, strip, upper, isdigit, endswith, take, split_last, zfill, digits_value,
  or_empty,
}
use fincal.Symbol.{clean, dot, hk, is_served, normalize, market_mismatch, pad_hk, remove_from}

abbrev pub Pair : Type 0
Pair = Text × Text

pub record StoredRow : Type 0 where
  pub symbol : Option Text
  pub market : Option Text

abbrev pub with_market : Text → Option Text → Option Pair
with_market market none = none
with_market market (some symbol) = some (symbol, market)

unfoldable pub resolve_stored : Option Text → Option Text → Option Pair
unfolding normalize market_mismatch
resolve_stored symbol market =
    let m = clean (or_empty market) in
    let s = strip (or_empty symbol) in
    if not (is_served m) || is_empty s
    then none
    else if market_mismatch s m
    then none
    else with_market m (normalize s m)

-- The lists `resolved` and `skipped`; the latter is only written to the log.
pub record Resolved : Type 0 where
  pub resolved : List Pair
  pub skipped : List StoredRow

abbrev pub take_pair : StoredRow → Option Pair → Resolved → Resolved
take_pair row none r = record r { skipped = r.skipped ++ row ∷ [] }
take_pair row (some pair) r =
    if any (λ p. p == pair) r.resolved then r else record r { resolved = r.resolved ++ pair ∷ [] }

abbrev pub resolve_from : List StoredRow → Resolved → Resolved
resolve_from [] r = r
resolve_from (row ∷ rows) r =
    resolve_from rows (take_pair row (resolve_stored row.symbol row.market) r)

unfoldable pub resolve_stored_rows : List StoredRow → Resolved
unfolding resolve_stored
resolve_stored_rows rows = resolve_from rows (record { resolved = []; skipped = [] })

abbrev pub to_lb_symbol : Text → Text
to_lb_symbol symbol = clean symbol

-- `s.split(c)`
abbrev pub cons_head : ℕ → List Text → List Text
cons_head c [] = (c ∷ []) ∷ []
cons_head c (part ∷ parts) = (c ∷ part) ∷ parts

abbrev pub split_all : ℕ → Text → List Text
split_all d [] = [] ∷ []
split_all d (c ∷ s) = let rest = split_all d s in if eqb c d then [] ∷ rest else cons_head c rest

abbrev pub lb_symbol : Text → Text → Pair
lb_symbol market ticker =
    let padded = if market == hk && isdigit ticker then pad_hk ticker else ticker in
    (if market == hk then padded ++ dot ∷ market else padded, market)

abbrev pub counter_parts : List Text → Pair
counter_parts (kind ∷ market ∷ ticker ∷ []) = lb_symbol market ticker
counter_parts _ = ([], [])

unfoldable pub from_lb_counter_id : Text → Pair
unfolding pad_hk
from_lb_counter_id counter_id = counter_parts (split_all 47 (clean counter_id))

pub record CalendarInfo : Type 0 where
  pub symbol : Option Text
  pub market : Option Text
  pub counter_id : Option Text

-- The last item of `raw.rpartition(".")`.
abbrev pub suffix_of : Text → Option (Text × Text) → Text
suffix_of raw none = raw
suffix_of raw (some (head, tail)) = tail

-- `none` is the ValueError of `normalize`.
unfoldable pub from_lb_calendar_info : CalendarInfo → Option Pair
unfolding normalize from_lb_counter_id
from_lb_calendar_info info =
    let raw = strip (or_empty info.symbol) in
    let market = clean (or_empty info.market) in
    let suffix = upper (suffix_of raw (split_last dot raw)) in
    let by_counter = some (from_lb_counter_id (or_empty info.counter_id)) in
    if is_empty raw
    then by_counter
    else if is_served suffix
    then with_market suffix (normalize raw suffix)
    else if is_served market
    then with_market market (normalize raw market)
    else by_counter

abbrev pub differs : Option Text → Text → Bool
differs none s = true
differs (some r) s = not (r == s)

unfoldable pub is_dirty_hk_5digit : Text → Bool
unfolding normalize
is_dirty_hk_5digit code =
    let s = clean code in
    let c = if endswith s (codes ".HK") then take (length s - 3) s else s in
    isdigit c && eqb (length c) 5 && differs (normalize c hk) (c ++ dot ∷ hk)

unfoldable pub sort_key : Text → Text
sort_key symbol =
    let s = upper symbol in
    let num = remove_from (codes ".HK") 0 s in
    if endswith s (codes ".HK") && isdigit num
    then codes "HK:" ++ zfill 6 (decimal (digits_value 0 num))
    else s
