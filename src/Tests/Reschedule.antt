-- ===== src/Tests/Reschedule.antt =====
-- A batch with a release of two periods, the second of which stores a disclosure.
use fincal.Prelude.{◌≡◌, refl, true, false, none, some, List, [], ◌∷◌}
use fincal.Prelude.Int.{pos}
use fincal.Prelude.Text.{codes}
use fincal.Calendar.{Date}
use fincal.Fiscal.Row.{Row, DateCell}
use fincal.Fiscal.Identity.{
  FiscalKey, is_disclosure, fiscal_key, fiscal_key_from_parts, report_date_of,
}
use fincal.Fiscal.Reschedule.{
  Entry, State, reschedule, confirmed, best, apply_entry, write, rewritten, is_unique, take_over,
}
use fincal.Fiscal.Reschedule.Takeover.{takes_over, reschedule-no_takeover}
use fincal.Tests.Rows.{reported_row, annual_row}

abbrev day : Date
day = record { year = 2025; month = 7; day = 31 }

abbrev release : Entry
release = record {
  report_date = DateCell.date day;
  report_type = codes "Q";
  eps_estimate = none;
  eps_actual = some (pos 160);
  revenue_estimate = none;
  revenue_actual = none;
}

abbrev apple : FiscalKey
apple = ((codes "AAPL", codes "US"), (pos 2025, pos 3))

abbrev tencent : FiscalKey
tencent = ((codes "0700.HK", codes "HK"), (pos 2025, pos 4))

abbrev stored : List Row
stored = reported_row ∷ annual_row ∷ []

abbrev start : State
start = record {
  table = stored;
  takeover = true;
  outcome = record { moves = []; skipped = []; dropped = []; predictions_cleared = [] };
}

apple-confirmed : confirmed apple stored ≡ reported_row ∷ []
unfolding confirmed fiscal_key fiscal_key_from_parts report_date_of
apple-confirmed = refl

reported-is_disclosure : is_disclosure reported_row.report_type ≡ false
unfolding is_disclosure
reported-is_disclosure = refl

release-is_disclosure : is_disclosure (some release.report_type) ≡ false
unfolding is_disclosure
release-is_disclosure = refl

reschedule-no_takeover_example :
    takes_over (reschedule false stored ((apple, release) ∷ (tencent, release) ∷ []) start)
    ≡ takes_over start
reschedule-no_takeover_example =
    reschedule-no_takeover stored apple release reported_row day ((tencent, release) ∷ []) start
      apple-confirmed reported-is_disclosure release-is_disclosure refl

-- Alone, the second period is taken over.
alone-reschedule : takes_over (reschedule false stored ((tencent, release) ∷ []) start) ≡ true
unfolding reschedule confirmed fiscal_key fiscal_key_from_parts report_date_of is_disclosure best
    apply_entry write rewritten is_unique take_over
alone-reschedule = refl
