-- ===== src/Tests/Freshness.antt =====
-- The freshness of a pipeline with one stage that failed.
use fincal.Prelude.{◌≡◌, none, some, [], ◌∷◌, ◌&&◌, all, if◌then◌else◌}
use fincal.Prelude.Interfaces.{◌==◌, nat_eq, list_eq, option_eq}
use fincal.Prelude.Int.{pos}
use fincal.Prelude.Text.{codes}
use fincal.Freshness.Entries.{sync_stages, derived_tables, status_failed}
use fincal.Freshness.Summary.{Rows, check_freshness}
use fincal.Freshness.Verdict.{stage_ok, table_ok, check-healthy_iff}

abbrev one_failed : Rows
one_failed = record {
  stages =
      (
        codes "longbridge",
        record {
          last_success_at = some 1000;
          last_run_at = some 2000;
          last_run_status = some status_failed;
          last_run_error_code = some (codes "longbridge_no_rows");
        },
      )
      ∷ [];
  tables = (codes "earnings_consensus", some 1500) ∷ [];
}

check-healthy_iff_example :
    (((check_freshness 3000 (pos 19200) (some one_failed)).error_code == none) ≡ (
      all (stage_ok 3000 (pos 19200) one_failed) sync_stages
      && all (table_ok 3000 (pos 19200) one_failed) derived_tables))
    × ((check_freshness 3000 (pos 19200) (some one_failed)).status ≡ (
        if all (stage_ok 3000 (pos 19200) one_failed) sync_stages
          && all (table_ok 3000 (pos 19200) one_failed) derived_tables
        then codes "healthy"
        else codes "degraded"))
check-healthy_iff_example = check-healthy_iff 3000 (pos 19200) one_failed
