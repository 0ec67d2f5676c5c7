-- ===== src/Symbol.antt =====
-- app/symbol.py: the spellings of a stock symbol. A `str` is a list of ASCII codes; a function that
-- raises ValueError returns an option.
pub mod Stored
pub mod Digits
pub mod Spelling
pub mod RoundTrip
pub mod Numeric
pub mod Servable
use fincal.Prelude.{
  ℕ, zero, suc, ◌+◌, ◌-◌, ◌*◌, ◌/◌, ◌%◌, Bool, true, false, Option, none, some, List, [], ◌∷◌, ◌++◌,
  ◌&&◌, ◌||◌, not, ltb, leb, eqb, if◌then◌else◌, length,
}
use fincal.Prelude.Interfaces.{◌==◌, nat_eq, list_eq}
use fincal.Prelude.Text.{
  Text, codes, is_empty, strip, upper, isdigit, isalpha, startswith, endswith, drop, take, contains,
  split_first, split_last, lstrip_zeros, zfill, digits_value, digit_char, or_empty,
}

abbrev pub us : Text
us = codes "US"

abbrev pub hk : Text
hk = codes "HK"

-- The code of `.`
abbrev pub dot : ℕ
dot = 46

-- `s.strip().upper()`
abbrev pub clean : Text → Text
clean s = upper (strip s)

-- `(ticker.lstrip("0") or "0").zfill(4)`
abbrev pub or_zero : Text → Text
or_zero [] = codes "0"
or_zero (c ∷ s) = c ∷ s

unfoldable pub pad_hk : Text → Text
pad_hk ticker = zfill 4 (or_zero (lstrip_zeros ticker))

abbrev pub futu_parts : Text → Option (Text × Text) → Text
futu_parts s none = s
futu_parts s (some (ticker, market)) =
    market ++ dot ∷ (if market == hk && isdigit ticker then zfill 5 ticker else ticker)

unfoldable pub to_futu_code : Text → Text
to_futu_code symbol = futu_parts (clean symbol) (split_last dot (clean symbol))

abbrev pub internal_parts : Text → Option (Text × Text) → Text
internal_parts s none = s
internal_parts s (some (market, ticker)) =
    (if market == hk && isdigit ticker then pad_hk ticker else ticker) ++ dot ∷ market

unfoldable pub from_futu_code : Text → Text
unfolding pad_hk
from_futu_code futu_code = internal_parts (clean futu_code) (split_first dot (clean futu_code))

-- `s.replace(p, "")` of a text p that is not empty; the number counts what is left to skip of an
-- occurrence.
abbrev pub remove_from : Text → ℕ → Text → Text
remove_from p n [] = []
remove_from p (suc n) (c ∷ s) = remove_from p n s
remove_from p zero (c ∷ s) =
    let skipped = remove_from p (length p - 1) s in
    let kept = remove_from p 0 s in if startswith (c ∷ s) p then skipped else c ∷ kept

abbrev pub normalize_hk : Text → Text
normalize_hk s = (if isdigit s then pad_hk s else s) ++ dot ∷ hk

abbrev pub strip_prefix : Text → Text
strip_prefix s = if startswith s (codes "US.") then drop 3 s else s

-- `s[:-3]` of a text with the suffix.
abbrev pub strip_suffix : Text → Text
strip_suffix s = if endswith s (codes ".US") then take (length s - 3) s else s

-- The refusal of a numeric code is the ValueError.
abbrev pub normalize_us : Text → Option Text
normalize_us s = if isdigit s then none else some s

unfoldable pub normalize : Text → Text → Option Text
unfolding pad_hk
normalize symbol market =
    if clean market == hk
    then some (normalize_hk (remove_from (codes ".HK") 0 (clean symbol)))
    else normalize_us (strip_suffix (strip_prefix (clean symbol)))

-- Membership in SERVED_MARKETS.
abbrev pub is_served : Text → Bool
is_served market = market == us || market == hk

-- `_is_hk_ticker`, with HK_TICKER_MAX_DIGITS.
unfoldable pub is_hk_ticker : Text → Bool
is_hk_ticker ticker = isdigit ticker && leb (length ticker) 5

-- `s.startswith(prefix) and len(s) > len(prefix)` of one of the prefixes, which have three characters.
abbrev pub has_prefix : Text → Text → Bool
has_prefix s prefix = startswith s prefix && ltb 3 (length s)

abbrev pub bare_head : Text → Option (Text × Text) → Text
bare_head s none = s
bare_head s (some (head, tail)) = if not (is_empty head) && is_served tail then head else s

unfoldable pub bare_ticker : Text → Text
bare_ticker code =
    let s = clean code in
    let t = if has_prefix s (codes "US.") || has_prefix s (codes "HK.") then drop 3 s else s in
    bare_head t (split_last dot t)

abbrev pub market_of_suffix : Text → Option (Text × Text) → Option Text
market_of_suffix s none = if isdigit s then (if is_hk_ticker s then some hk else none) else some us
market_of_suffix s (some (head, tail)) =
    if is_empty head
    then none
    else if is_served tail
    then some tail
    else if eqb (length tail) 1 && isalpha tail
    then some us
    else none

-- The body behind `str(code).strip().upper()`.
abbrev pub market_of_clean : Text → Option Text
market_of_clean s =
    if is_empty s
    then none
    else if has_prefix s (codes "US.")
    then some us
    else if has_prefix s (codes "HK.")
    then some hk
    else market_of_suffix s (split_last dot s)

unfoldable pub market_of : Text → Option Text
unfolding is_hk_ticker
market_of code = market_of_clean (clean code)

abbrev pub is_us : Option Text → Bool
is_us none = false
is_us (some market) = market == us

unfoldable pub market_mismatch : Text → Text → Bool
unfolding market_of is_hk_ticker
market_mismatch symbol market =
    let m = clean market in
    let s = clean symbol in
    if is_empty s
    then false
    else if m == hk
    then not (endswith s (codes ".HK") || (not (contains dot s) && is_hk_ticker s))
    else if m == us
    then not (is_us (market_of s))
    else false
