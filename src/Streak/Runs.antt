-- ===== src/Streak/Runs.antt =====
-- The streak against a plain description: the longest run of consecutive quarters, back from the
-- first one, that are all decided in one direction.
use fincal.Prelude.{ℕ, suc, Bool, false, List, [], ◌∷◌, if◌then◌else◌}
use fincal.Fiscal.Row.{Row}
use fincal.Streak.{Period, Direction, Streak, Verdict, verdict, previous_period, same_direction}

abbrev pub is_decided : Direction → Verdict → Bool
is_decided d (Verdict.decided e) = same_direction d e
is_decided d _ = false

-- How many rows in front are the quarter, the one before it and so on, all decided in a direction.
unfoldable pub run : Direction → Period → List Row → ℕ
run d expected [] = 0
run d expected (row ∷ rows) =
    let rest = run d (previous_period expected) rows in
    if is_decided d (verdict expected row) then suc rest else 0
