-- ===== src/Tests/Symbol.antt =====
-- Spellings of stock symbols, by app/symbol.py.
use fincal.Prelude.{
  ◌&&◌, ◌≤◌, ◌≡◌, ◌↔◌, refl, none, some, List, [], ◌∷◌, ◌++◌, any, count, leb, length,
  if◌then◌else◌,
}
use fincal.Prelude.Interfaces.{◌==◌, nat_eq, list_eq, pair_eq}
use fincal.Prelude.Text.{codes, digits_value}
use fincal.Symbol.{clean, us, hk, dot, normalize, to_futu_code, from_futu_code}
use fincal.Symbol.RoundTrip.{hk_symbol, normalize-hk_iff, futu-hk_round_trip, futu-round_trip}
use fincal.Symbol.Stored.{StoredRow, resolve_stored, resolve_stored_rows}
use fincal.Symbol.Servable.{holds, resolves_to, resolve_rows-exact, resolve-numeric}

normalize-hk_iff_example :
    (normalize (codes "700") hk ≡ normalize (codes "00700") hk)
    ↔ (digits_value 0 (codes "700") ≡ digits_value 0 (codes "00700"))
normalize-hk_iff_example = normalize-hk_iff (codes "700") (codes "00700") refl refl

futu-hk_round_trip_example :
    from_futu_code (to_futu_code (codes "0700" ++ dot ∷ hk)) ≡ hk_symbol (codes "0700")
futu-hk_round_trip_example = futu-hk_round_trip (codes "0700") refl

futu-round_trip_example :
    from_futu_code (to_futu_code (codes "BRK.B" ++ dot ∷ us)) ≡ codes "BRK.B" ++ dot ∷ us
futu-round_trip_example = futu-round_trip (codes "BRK.B") us refl refl refl refl

abbrev stored : List StoredRow
stored =
    record { symbol = some (codes "700"); market = some (codes "hk") }
    ∷ record { symbol = some (codes "0700"); market = some (codes "US") }
    ∷ record { symbol = some (codes "00700.HK"); market = some (codes "HK") }
    ∷ []

resolve_rows-exact_example :
    (holds (codes "0700.HK", hk) (resolve_stored_rows stored).resolved
      ≡ any (resolves_to (codes "0700.HK", hk)) stored)
    × (count (λ p. p == (codes "0700.HK", hk)) (resolve_stored_rows stored).resolved ≤ 1)
resolve_rows-exact_example = resolve_rows-exact stored (codes "0700.HK", hk)

resolve-numeric_example : resolve_stored (some (codes "0700")) (some (codes " hk")) ≡ (
    if clean (codes " hk") == hk && leb (length (codes "0700")) 5
    then some (hk_symbol (codes "0700"), hk)
    else none)
resolve-numeric_example = resolve-numeric (codes "0700") (some (codes " hk")) refl
