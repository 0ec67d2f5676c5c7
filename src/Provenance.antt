-- ===== src/Provenance.antt =====
-- app/provenance.py: which source wins, and the labels of currencies and accounting standards; and
-- app/sync_quality.py: the status of a run from its counts.
pub mod Labels
use fincal.Prelude.{
  ℕ, Bool, true, false, Option, none, some, List, [], ◌∷◌, ◌&&◌, not, ltb, leb, eqb, if◌then◌else◌,
  length, all,
}
use fincal.Prelude.Interfaces.{◌==◌, nat_eq, list_eq}
use fincal.Prelude.Text.{Text, codes, is_empty, strip, upper, or_empty}

-- SOURCE_PRIORITY, with 0 for every other source.
unfoldable pub source_priority : Text → ℕ
source_priority source =
    if source == codes "algorithm"
    then 1
    else if source == codes "longbridge"
    then 2
    else if source == codes "futu"
    then 3
    else if source == codes "kurumi"
    then 4
    else 0

unfoldable pub should_replace : Text → Text → Bool
unfolding source_priority
should_replace current_source proposed_source =
    ltb (source_priority current_source) (source_priority proposed_source)

-- UNKNOWN_ATTRIBUTION
abbrev pub unknown : Text
unknown = codes "unknown"

-- The pattern of three capital letters.
abbrev pub is_capital : ℕ → Bool
is_capital c = leb 65 c && leb c 90

abbrev pub is_iso_currency : Text → Bool
is_iso_currency s = eqb (length s) 3 && all is_capital s

unfoldable pub normalize_currency : Option Text → Text
normalize_currency value =
    let text = upper (strip (or_empty value)) in if is_iso_currency text then text else unknown

-- _BASIS_ALIASES
abbrev pub basis_alias : Text → Option Text
basis_alias s =
    if s == codes "US_GAAP"
    then some (codes "gaap")
    else if s == codes "USGAAP"
    then some (codes "gaap")
    else if s == codes "GAAP"
    then some (codes "gaap")
    else if s == codes "IFRS"
    then some (codes "ifrs")
    else if s == codes "国际会计准则"
    then some (codes "ifrs")
    else if s == codes "国际财务报告准则"
    then some (codes "ifrs")
    else none

abbrev pub alias_or : Option Text → Text → Text
alias_or none fallback = fallback
alias_or (some s) fallback = s

unfoldable pub normalize_basis : Option Text → Text
normalize_basis value =
    let text = strip (or_empty value) in
    if is_empty text
    then unknown
    else alias_or (basis_alias (upper text)) (alias_or (basis_alias text) unknown)

pub record SyncQuality : Type 0 where
  pub fetched : ℕ
  pub written : ℕ
  pub skipped : ℕ
  pub failed : ℕ
  pub unresolved : ℕ
  pub status : Text

unfoldable pub classify : SyncQuality → SyncQuality
classify q = record q {
  status =
      if ltb 0 q.failed && ltb 0 q.written
      then codes "partial"
      else if ltb 0 q.failed && eqb q.written 0
      then codes "unavailable"
      else if eqb q.written 0 && eqb q.fetched 0
      then codes "unavailable"
      else codes "success";
}
