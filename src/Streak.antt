-- ===== src/Streak.antt =====
-- app/phase3.py: the run of quarters in which the EPS was above its estimate, or below. The years
-- and quarters of the rows are integers or missing, as the table has them.
pub mod Runs
use fincal.Prelude.{
  ℕ, zero, suc, ◌+◌, Bool, true, false, Option, none, some, List, [], ◌∷◌, not, eqb, if◌then◌else◌,
}
use fincal.Prelude.Interfaces.{◌==◌, ◌<?◌, nat_eq, list_eq, option_eq, pair_eq}
use fincal.Prelude.Int.{ℤ, pos, negsuc, ◌-ℤ◌, int_eq, int_order}
use fincal.Prelude.Text.{Text, codes}
use fincal.Fiscal.Row.{Row, Scalar, to_int}
use fincal.Fiscal.Comparison.{comparison_unavailable_reason}

abbrev pub missing_values : Text
missing_values = codes "missing_values"

abbrev pub direction_changed : Text
direction_changed = codes "direction_changed"

abbrev pub not_adjacent : Text
not_adjacent = codes "not_adjacent"

-- (fiscal year, fiscal quarter)
abbrev pub Period : Type 0
Period = ℤ × ℤ

abbrev pub join_period : Option ℤ → Option ℤ → Option Period
join_period (some y) (some q) = some (y, q)
join_period _ _ = none

unfoldable pub streak_period : Row → Option Period
streak_period row = join_period (to_int row.fiscal_year) (to_int row.fiscal_quarter)

unfoldable pub previous_period : Period → Period
previous_period (y, q) = if q == pos 1 then (y -ℤ pos 1, pos 4) else (y, q -ℤ pos 1)

pub data Direction : Type 0 where
  beat : Direction
  miss : Direction

abbrev pub same_direction : Direction → Direction → Bool
same_direction Direction.beat Direction.beat = true
same_direction Direction.miss Direction.miss = true
same_direction Direction.beat Direction.miss = false
same_direction Direction.miss Direction.beat = false

-- `kind` is none for the text `unavailable`.
pub record Streak : Type 0 where
  pub kind : Option Direction
  pub count : ℕ
  pub reason : Option Text
  pub break_period : Option Period
  pub break_reason : Option Text

abbrev pub or_reason : Option Text → Option Text → Option Text
or_reason none reason = reason
or_reason (some code) reason = some code

unfoldable pub no_streak : Option Text → Option Period → Option Text → Streak
no_streak reason period break_reason = record {
  kind = none;
  count = 0;
  reason = reason;
  break_period = period;
  break_reason = or_reason break_reason reason;
}

-- What the tests of the loop find of a row, in their order.
pub data Verdict : Type 0 where
  gap : Verdict
  incomparable : Text → Verdict
  undecided : Verdict
  decided : Direction → Verdict

abbrev pub decide : Option ℤ → Option ℤ → Verdict
decide (some actual) (some estimate) =
    if actual == estimate
    then Verdict.undecided
    else Verdict.decided (if estimate <? actual then Direction.beat else Direction.miss)
decide _ _ = Verdict.undecided

abbrev pub compare_values : Option Text → Row → Verdict
compare_values (some reason) row = Verdict.incomparable reason
compare_values none row = decide row.eps_actual row.eps_estimate

unfoldable pub verdict : Period → Row → Verdict
unfolding streak_period
verdict expected row =
    if not (streak_period row == some expected)
    then Verdict.gap
    else compare_values (comparison_unavailable_reason row) row

-- The result when the loop ends after some quarters.
abbrev pub ended : Option Direction → ℕ → Option Period → Option Text → Streak
ended kind count period break_reason = record {
  kind = kind;
  count = count;
  reason = none;
  break_period = period;
  break_reason = break_reason;
}

abbrev pub continues : Option Direction → Direction → Bool
continues none d = true
continues (some kind) d = same_direction kind d

-- One round of the loop; `next` is the rest of it, with the direction and the count as they are
-- then.
abbrev pub round :
    Verdict → Option Direction → ℕ → Option Period → (Option Direction → ℕ → Streak) → Streak
round Verdict.gap kind count period next = ended kind count period (some not_adjacent)
round (Verdict.incomparable reason) kind count period next =
    if eqb count 0
    then no_streak (some reason) period none
    else ended kind count period (some reason)
round Verdict.undecided kind count period next =
    if eqb count 0
    then no_streak none period (some missing_values)
    else ended kind count period (some missing_values)
round (Verdict.decided d) kind count period next =
    if continues kind d
    then next (some d) (count + 1)
    else ended kind count period (some direction_changed)

unfoldable pub streak_from : List Row → Period → Option Direction → ℕ → Streak
unfolding verdict previous_period no_streak
streak_from [] expected kind count = ended kind count none none
streak_from (row ∷ rows) expected kind count =
    round (verdict expected row) kind count (streak_period row)
      (λ k n. streak_from rows (previous_period expected) k n)

-- `_beat_miss_streak`
unfoldable pub beat_miss_streak : List Row → ℤ → ℤ → Streak
unfolding streak_from
beat_miss_streak rows fiscal_year fiscal_quarter =
    streak_from rows (fiscal_year, fiscal_quarter) none 0
