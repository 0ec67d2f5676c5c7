-- ===== src/Freshness/Summary.antt =====
-- app/freshness.py: the summary of all stages and tables. What the two queries return is an
-- argument: `none` when the database cannot be read.
use fincal.Prelude.{
  ℕ, Bool, true, false, Option, none, some, List, [], ◌∷◌, ◌++◌, ◌&&◌, not, if◌then◌else◌, map,
  keep,
}
use fincal.Prelude.Interfaces.{◌==◌, nat_eq, list_eq, option_eq}
use fincal.Prelude.Int.{ℤ, int_order}
use fincal.Prelude.Text.{Text, codes}
use fincal.Prelude.Dict
use fincal.Freshness.Entries.{
  sync_stages, derived_tables, status_fresh, status_stale, status_never, status_unknown,
  status_failed, error_stage_stale, error_stage_never, error_stage_failed, error_data_stale,
  error_unavailable, Kind, is_stage, Entry, StageRow, or_no_row, entry_of,
}

pub record Summary : Type 0 where
  pub status : Text
  pub error_code : Option Text
  pub threshold_hours : ℤ
  pub checked_at : ℕ
  pub stale_stages : List Text
  pub never_run_stages : List Text
  pub failed_stages : List Text
  pub stale_data : List Text
  pub entries : List Entry

-- `_unavailable`
unfoldable pub unavailable : ℕ → ℤ → Summary
unavailable now threshold = record {
  status = status_unknown;
  error_code = some error_unavailable;
  threshold_hours = threshold;
  checked_at = now;
  stale_stages = [];
  never_run_stages = [];
  failed_stages = [];
  stale_data = [];
  entries = [];
}

abbrev pub has_rows : List Text → Bool
has_rows [] = false
has_rows (name ∷ names) = true

abbrev pub or_never : Option (Option ℕ) → Option ℕ
or_never none = none
or_never (some last_at) = last_at

-- What the queries return: rows by stage, and the last fetch by table.
pub record Rows : Type 0 where
  pub stages : List (Text × StageRow)
  pub tables : List (Text × Option ℕ)

abbrev pub stage_entries : List Text → ℕ → ℤ → Rows → List Entry
stage_entries [] now threshold rows = []
stage_entries (name ∷ names) now threshold rows =
    entry_of name Kind.stage now threshold (or_no_row (Dict.get name rows.stages))
    ∷ stage_entries names now threshold rows

abbrev pub table_row : Option (Option ℕ) → StageRow
table_row last_at = record (or_no_row none) { last_success_at = or_never last_at }

abbrev pub table_entries : List Text → ℕ → ℤ → Rows → List Entry
table_entries [] now threshold rows = []
table_entries (name ∷ names) now threshold rows =
    entry_of name Kind.derived now threshold (table_row (Dict.get name rows.tables))
    ∷ table_entries names now threshold rows

-- The names of the entries of one kind whose status passes a test.
abbrev pub names_of : (Kind → Bool) → (Text → Bool) → List Entry → List Text
names_of of_kind test entries =
    map (λ e. e.stage) (keep (λ e. of_kind e.kind && test e.status) entries)

abbrev pub stages_with : Text → List Entry → List Text
stages_with status = names_of is_stage (λ s. s == status)

abbrev pub summarize : ℕ → ℤ → List Entry → Summary
summarize now threshold entries =
    let stale_stages = stages_with status_stale entries in
    let never_run_stages = stages_with status_never entries in
    let failed_stages = stages_with status_failed entries in
    let stale_data = names_of (λ k. not (is_stage k)) (λ s. not (s == status_fresh)) entries in
    let error_code =
      if has_rows never_run_stages
      then some error_stage_never
      else if has_rows failed_stages
      then some error_stage_failed
      else if has_rows stale_stages
      then some error_stage_stale
      else if has_rows stale_data
      then some error_data_stale
      else none in
    record {
      status = if error_code == none then codes "healthy" else codes "degraded";
      error_code = error_code;
      threshold_hours = threshold;
      checked_at = now;
      stale_stages = stale_stages;
      never_run_stages = never_run_stages;
      failed_stages = failed_stages;
      stale_data = stale_data;
      entries = entries;
    }

abbrev pub check_rows : ℕ → ℤ → Option Rows → Summary
check_rows now threshold none = unavailable now threshold
check_rows now threshold (some rows) = summarize now threshold (
    stage_entries sync_stages now threshold rows ++ table_entries derived_tables now threshold rows)

unfoldable pub check_freshness : ℕ → ℤ → Option Rows → Summary
unfolding unavailable entry_of
check_freshness now threshold rows = check_rows now threshold rows

-- The keys of AGGREGATE_KEYS: all but the entries.
pub record Snapshot : Type 0 where
  pub status : Text
  pub error_code : Option Text
  pub threshold_hours : ℤ
  pub stale_stages : List Text
  pub never_run_stages : List Text
  pub failed_stages : List Text
  pub stale_data : List Text
  pub checked_at : ℕ

unfoldable pub health_snapshot : Summary → Snapshot
health_snapshot s = record {
  status = s.status;
  error_code = s.error_code;
  threshold_hours = s.threshold_hours;
  stale_stages = s.stale_stages;
  never_run_stages = s.never_run_stages;
  failed_stages = s.failed_stages;
  stale_data = s.stale_data;
  checked_at = s.checked_at;
}

unfoldable pub unavailable_snapshot : ℕ → ℤ → Snapshot
unfolding unavailable health_snapshot
unavailable_snapshot now threshold = health_snapshot (unavailable now threshold)
