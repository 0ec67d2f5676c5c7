-- ===== src/Tests/Prediction.antt =====
-- A predicted date and a streak.
use fincal.Prelude.{◌≡◌, refl, some, List, [], ◌∷◌}
use fincal.Prelude.Int.{pos, ◌+ℤ◌}
use fincal.Prelude.Sort
use fincal.Calendar.{Date, days_in_month, to_ordinal, days_before_year, days_before_month, leap_day}
use fincal.Prediction.{Sample, pick_predicted_date}
use fincal.Prediction.Choice.{Promised, pick-Promised}

abbrev samples : List Sample
samples =
    record { year = 2024; month = 8; day = 1; year_offset = pos 0 }
    ∷ record { year = 2023; month = 8; day = 3; year_offset = pos 0 }
    ∷ []

-- The first of August 2026 is a Saturday, the third a Monday.
abbrev monday : Date
monday = record { year = 2026; month = 8; day = 3 }

picked : pick_predicted_date samples 2026 ≡ some monday
unfolding pick_predicted_date Sort.sorted ◌+ℤ◌ days_in_month to_ordinal days_before_year
    days_before_month leap_day
picked = refl

pick-Promised_example : Promised monday samples
pick-Promised_example = pick-Promised samples 2026 monday picked
