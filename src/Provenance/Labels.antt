-- ===== src/Provenance/Labels.antt =====
-- The labels that are stored are stable, and the status says what the counts say.
use fincal.Prelude.{
  ◌≡◌, refl, ap, ◌∙◌, Bool, true, Option, some, [], ◌∷◌, ◌&&◌, ◌||◌, ltb, eqb, if◌then◌else◌,
  length, all, arith, inl, inr, Bool-cases, and_parts,
}
use fincal.Prelude.Interfaces.{◌==◌, nat_eq, list_eq}
use fincal.Prelude.Text.{Text, codes, strip, upper, or_empty}
use fincal.Symbol.Spelling.{is_plain, clean-plain}
use fincal.Provenance.{
  unknown, is_capital, is_iso_currency, normalize_currency, SyncQuality, classify,
}

plain-capitals : (s : Text) → all is_capital s ≡ true → is_plain s ≡ true
plain-capitals [] h = refl
plain-capitals (c ∷ s) h = ground (arith, plain-capitals s)

currency_of : (s : Text) → is_iso_currency s ≡ true → normalize_currency (some s) ≡ s
unfolding normalize_currency
currency_of s h =
    let capitals = (and_parts (eqb (length s) 3) (all is_capital s) h).1 in
    ap (λ t. if is_iso_currency t then t else unknown) (clean-plain s (plain-capitals s capitals))
    ∙ ap (λ b. if b then s else unknown) h

unknown_stays : normalize_currency (some unknown) ≡ unknown
unfolding normalize_currency
unknown_stays = refl

or_right : (a b : Bool) → b ≡ true → (a || b) ≡ true
or_right a b h = ground arith

-- A label that was stored is stored again as it is, and a label is `unknown` or three capital
-- letters.
pub currency-stable :
    (value : Option Text)
    → (normalize_currency (some (normalize_currency value)) ≡ normalize_currency value)
      × ((normalize_currency value == unknown || is_iso_currency (normalize_currency value)) ≡ true)
unfolding normalize_currency
currency-stable value =
    let text = upper (strip (or_empty value)) in
    elim (Bool-cases (is_iso_currency text)) [
      | inl iso ↦
          rw iso (currency_of text iso, or_right (text == unknown) (is_iso_currency text) iso)
      | inr other ↦ rw other (refl, refl)
    ]

-- A run is partial exactly when rows failed and rows were written, and a success exactly when none
-- failed and some were fetched or written.
classify-status :
    (q : SyncQuality)
    → (((classify q).status == codes "partial") ≡ (ltb 0 q.failed && ltb 0 q.written))
      × (((classify q).status == codes "success")
          ≡ (eqb q.failed 0 && (ltb 0 q.written || ltb 0 q.fetched)))
unfolding classify
classify-status q = (ground arith, ground arith)
