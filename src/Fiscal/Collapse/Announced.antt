-- ===== src/Fiscal/Collapse/Announced.antt =====
-- The rows that the key of the announcement dates describes.
use fincal.Prelude.{
  ◌≡◌, sym, true, false, Option, none, some, ap, ◌||◌, not, if◌then◌else◌, [], ◌∷◌,
}
use fincal.Prelude.Interfaces.{◌==◌, nat_eq, bool_eq, list_eq, pair_eq, option_eq, beq_iff}
use fincal.Calendar.{Date, date_eq}
use fincal.Fiscal.Row.{Row, DateCell, truthy}
use fincal.Prelude.Text.{Text, is_empty, or_empty}
use fincal.Fiscal.Identity.{report_date_of}
use fincal.Fiscal.Collapse.{DateKey, date_key_of, same_date_key}

-- The row has the symbol, the market and the report date of the key, and neither text is empty.
pub record IsAnnounced (k : DateKey) (row : Row) : Type 0 where
  pub symbol : row.symbol ≡ some k.0.0
  pub market : row.market ≡ some k.0.1
  pub has_symbol : is_empty k.0.0 ≡ false
  pub has_market : is_empty k.0.1 ≡ false
  pub day : report_date_of row DateCell.missing ≡ some k.1

-- A key says what the row has, not what it lacks.
key_parts :
    (symbol market : Option Text) (d : Option Date) (k : DateKey)
    → (if not (truthy symbol) || not (truthy market)
        then none
        else date_key_of (or_empty symbol) (or_empty market) d)
      ≡ some k
    → (symbol ≡ some k.0.0)
      × (market ≡ some k.0.1)
      × (is_empty k.0.0 ≡ false)
      × (is_empty k.0.1 ≡ false)
      × (d ≡ some k.1)
key_parts none market d k h = cc
key_parts (some []) market d k h = cc
key_parts (some (a ∷ s)) none d k h = cc
key_parts (some (a ∷ s)) (some []) d k h = cc
key_parts (some (a ∷ s)) (some (b ∷ m)) none k h = cc
key_parts (some (a ∷ s)) (some (b ∷ m)) (some d) k h =
    let shown : Path (Option DateKey) (some ((a ∷ s, b ∷ m), d)) (some k) = h in
    let e : ((a ∷ s, b ∷ m), d) ≡ k = cc in
    (
      ap (λ j. some j.0.0) e,
      ap (λ j. some j.0.1) e,
      ap (λ j. is_empty j.0.0) (sym e),
      ap (λ j. is_empty j.0.1) (sym e),
      ap (λ j. some j.1) e,
    )

pub same_date_key-IsAnnounced :
    (k : DateKey) (row : Row) → same_date_key row ≡ some k → IsAnnounced k row
unfolding same_date_key
same_date_key-IsAnnounced k row h =
    let (e, f, has_symbol, has_market, day) =
      key_parts row.symbol row.market (report_date_of row DateCell.missing) k h in
    record { symbol = e; market = f; has_symbol = has_symbol; has_market = has_market; day = day }

pub matched : (k : DateKey) (y : Row) → (same_date_key y == some k) ≡ true → IsAnnounced k y
matched k y h = same_date_key-IsAnnounced k y ((beq_iff (same_date_key y) (some k)).0 h)
