-- ===== src/Tests/Provenance.antt =====
-- A currency as a provider spells it.
use fincal.Prelude.{◌≡◌, true, Option, some, ◌||◌}
use fincal.Prelude.Interfaces.{◌==◌, nat_eq, list_eq}
use fincal.Prelude.Text.{Text, codes}
use fincal.Provenance.{unknown, is_iso_currency, normalize_currency}
use fincal.Provenance.Labels.{currency-stable}

abbrev spelled : Option Text
spelled = some (codes " hkd ")

currency-stable_example :
    (normalize_currency (some (normalize_currency spelled)) ≡ normalize_currency spelled)
    × ((normalize_currency spelled == unknown || is_iso_currency (normalize_currency spelled))
        ≡ true)
currency-stable_example = currency-stable spelled
