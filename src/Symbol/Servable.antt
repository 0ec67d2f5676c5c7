-- ===== src/Symbol/Servable.antt =====
-- Which stored rows are served, and as what.
use fincal.Prelude.{
  ◌≤◌, ◌≡◌, refl, ap, sym, ◌∙◌, Bool, true, false, Option, none, some, List, [], ◌∷◌, ◌&&◌, ◌||◌,
  length, leb, if◌then◌else◌, any, count, count-append, any-append, arith, inl, inr, Bool-cases,
}
use fincal.Prelude.Interfaces.{◌==◌, beq_iff, nat_eq, list_eq, pair_eq, option_eq}
use fincal.Prelude.Text.{Text, isdigit, or_empty}
use fincal.Symbol.{clean, us, hk, is_us}
use fincal.Symbol.RoundTrip.{hk_symbol}
use fincal.Symbol.Numeric.{resolve-clean, resolve-us, resolve-hk, resolve-unserved}
use fincal.Symbol.Stored.{
  Pair, StoredRow, Resolved, take_pair, resolve_stored, resolve_from, resolve_stored_rows,
}

-- The test `pair in resolved`.
abbrev pub holds : Pair → List Pair → Bool
holds pair = any (λ p. p == pair)

abbrev pub resolves_to : Pair → StoredRow → Bool
resolves_to pair row = resolve_stored row.symbol row.market == some pair

abbrev pub unservable : StoredRow → Bool
unservable row = resolve_stored row.symbol row.market == none

or_false : (b : Bool) → (b || false) ≡ b
or_false b = ground arith

or_assoc : (a b c : Bool) → ((a || b) || c) ≡ (a || (b || c))
or_assoc a b c = ground arith

take_pair-holds :
    (pair : Pair) (row : StoredRow) (o : Option Pair) (r : Resolved)
    → holds pair (take_pair row o r).resolved ≡ (holds pair r.resolved || (o == some pair))
take_pair-holds pair row none r = ground arith
take_pair-holds pair row (some q) r = elim (Bool-cases (holds q r.resolved)) [
  | inl there ↦ elim (Bool-cases (q == pair)) [
    | inl same ↦
        let found : holds pair r.resolved ≡ true =
          sym (ap (λ p. holds p r.resolved) ((beq_iff q pair).0 same)) ∙ there in
        rw (there, same, found) refl
    | inr other ↦ rw (there, other) (sym (or_false (holds pair r.resolved)))
  ]
  | inr missing ↦ rw missing (
      any-append (λ p. p == pair) r.resolved (q ∷ [])
      ∙ ap (λ b. holds pair r.resolved || b) (or_false (q == pair)))
]

resolve_from-holds :
    (pair : Pair) (rows : List StoredRow) (r : Resolved)
    → holds pair (resolve_from rows r).resolved
      ≡ (holds pair r.resolved || any (resolves_to pair) rows)
resolve_from-holds pair [] r = sym (or_false (holds pair r.resolved))
resolve_from-holds pair (row ∷ rows) r =
    let o = resolve_stored row.symbol row.market in
    resolve_from-holds pair rows (take_pair row o r)
    ∙ ap (λ b. b || any (resolves_to pair) rows) (take_pair-holds pair row o r)
    ∙ or_assoc (holds pair r.resolved) (o == some pair) (any (resolves_to pair) rows)

absent : (pair : Pair) (ps : List Pair) → holds pair ps ≡ false → count (λ p. p == pair) ps ≡ 0
absent pair [] h = refl
absent pair (p ∷ ps) h = ground (arith, absent pair ps)

take_pair-distinct :
    (pair : Pair) (row : StoredRow) (o : Option Pair) (r : Resolved)
    → count (λ p. p == pair) r.resolved ≤ 1
    → count (λ p. p == pair) (take_pair row o r).resolved ≤ 1
take_pair-distinct pair row none r h = h
take_pair-distinct pair row (some q) r h = elim (Bool-cases (holds q r.resolved)) [
  | inl there ↦ rw there h
  | inr missing ↦ rw missing (elim (Bool-cases (q == pair)) [
    | inl same ↦
        let lacking : holds pair r.resolved ≡ false =
          sym (ap (λ p. holds p r.resolved) ((beq_iff q pair).0 same)) ∙ missing in
        rw (count-append (λ p. p == pair) r.resolved (q ∷ []), absent pair r.resolved lacking, same)
          (omega arith)
    | inr other ↦ rw (count-append (λ p. p == pair) r.resolved (q ∷ []), other) (omega (arith, h))
  ])
]

resolve_from-distinct :
    (pair : Pair) (rows : List StoredRow) (r : Resolved)
    → count (λ p. p == pair) r.resolved ≤ 1
    → count (λ p. p == pair) (resolve_from rows r).resolved ≤ 1
resolve_from-distinct pair [] r h = h
resolve_from-distinct pair (row ∷ rows) r h =
    resolve_from-distinct pair rows (take_pair row (resolve_stored row.symbol row.market) r)
      (take_pair-distinct pair row (resolve_stored row.symbol row.market) r h)

-- The result for a list of stored rows has a pair exactly when one of the rows resolves to it, and
-- has it once.
pub resolve_rows-exact :
    (rows : List StoredRow) (pair : Pair)
    → (holds pair (resolve_stored_rows rows).resolved ≡ any (resolves_to pair) rows)
      × (count (λ p. p == pair) (resolve_stored_rows rows).resolved ≤ 1)
unfolding resolve_stored_rows
resolve_rows-exact rows pair = (
  resolve_from-holds pair rows (record { resolved = []; skipped = [] }),
  resolve_from-distinct pair rows (record { resolved = []; skipped = [] }) (omega arith),
)

-- Whatever the stored market is, a missing or an unknown one included, a stored numeric code is
-- served exactly when the market is HK, up to case and outer blanks, and the code has at most five
-- digits; it is then served under HK as the symbol of its number.
pub resolve-numeric :
    (s : Text) (market : Option Text)
    → isdigit s ≡ true
    → resolve_stored (some s) market
      ≡ (if clean (or_empty market) == hk && leb (length s) 5 then some (hk_symbol s, hk) else none)
resolve-numeric s market d = elim (Bool-cases (clean (or_empty market) == hk)) [
  | inl is_hk ↦
      let e = (beq_iff (clean (or_empty market)) hk).0 is_hk in
      rw is_hk (resolve-clean (some s) market (some hk) e ∙ resolve-hk s d)
  | inr not_hk ↦ elim (Bool-cases (clean (or_empty market) == us)) [
    | inl is_us ↦
        let e = (beq_iff (clean (or_empty market)) us).0 is_us in
        rw not_hk (resolve-clean (some s) market (some us) e ∙ resolve-us s d)
    | inr not_us ↦ rw not_hk (resolve-unserved (some s) market (ground (arith, not_us, not_hk)))
  ]
]
