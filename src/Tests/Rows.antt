-- ===== src/Tests/Rows.antt =====
-- Sample rows of the table `earnings`.
use fincal.Prelude.{true, false, none, some}
use fincal.Prelude.Int.{pos}
use fincal.Prelude.Text.{codes}
use fincal.Fiscal.Row.{Row, Scalar, DateCell, Stamp}

-- The third quarter of 2025, reported on the 31st of July with an EPS of 1.57 against 1.43.
abbrev pub reported_row : Row
reported_row = record {
  id = some (pos 1);
  symbol = some (codes "AAPL");
  market = some (codes "US");
  fiscal_year = Scalar.number (pos 2025);
  fiscal_quarter = Scalar.number (pos 3);
  report_date = DateCell.date (record { year = 2025; month = 7; day = 31 });
  report_type = some (codes "Q");
  is_predicted = false;
  eps_estimate = some (pos 143);
  eps_actual = some (pos 157);
  revenue_estimate = none;
  revenue_actual = none;
  estimate_currency = some (codes "USD");
  actual_currency = some (codes "usd");
  estimate_basis = none;
  actual_basis = some (codes "gaap");
  estimate_source = some (codes "longbridge");
  actual_source = some (codes "futu");
  actual_as_of = Stamp.missing;
  date_status = none;
  comparison_unavailable_reason = none;
  created_at = Stamp.datetime (pos 100);
  updated_at = Stamp.datetime (pos 200);
}

-- A prediction of the same quarter.
abbrev pub predicted_row : Row
predicted_row = record reported_row {
  id = some (pos 2);
  report_date = DateCell.date (record { year = 2025; month = 8; day = 1 });
  is_predicted = true;
  eps_actual = none;
  actual_basis = none;
}

-- The second quarter of the year, with a later date than the third.
abbrev pub misplaced_row : Row
misplaced_row = record reported_row {
  id = some (pos 3);
  fiscal_quarter = Scalar.number (pos 2);
  report_date = DateCell.date (record { year = 2025; month = 9; day = 1 });
}

-- Two disclosures and a release of one company on one day.
abbrev pub annual_row : Row
annual_row = record reported_row {
  id = some (pos 4);
  symbol = some (codes "0700.HK");
  market = some (codes "HK");
  fiscal_quarter = Scalar.number (pos 4);
  report_type = some (codes "A");
}

abbrev pub half_year_row : Row
half_year_row = record annual_row {
  id = some (pos 5);
  fiscal_quarter = Scalar.number (pos 2);
  report_type = some (codes "H");
}

abbrev pub release_row : Row
release_row = record annual_row {
  id = some (pos 6);
  fiscal_quarter = Scalar.number (pos 1);
  report_type = some (codes "Q");
}
