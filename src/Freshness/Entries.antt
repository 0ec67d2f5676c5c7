-- ===== src/Freshness/Entries.antt =====
-- app/freshness.py: the declared stages and tables, and the verdict on one of them. A time is a
-- number of microseconds since the epoch, read as UTC; an age and the threshold are in hundredths
-- of an hour.
use fincal.Prelude.{
  ℕ, suc, ◌-◌, ◌*◌, ◌/◌, ◌%◌, Bool, true, false, Option, none, some, List, [], ◌∷◌, ◌&&◌, ltb, leb,
  eqb, if◌then◌else◌,
}
use fincal.Prelude.Interfaces.{◌==◌, ◌<?◌, nat_eq, list_eq, option_eq}
use fincal.Prelude.Int.{ℤ, pos, neg, int_order}
use fincal.Prelude.Text.{Text, codes, is_empty}

-- SYNC_STAGES, and the names of DERIVED_TABLES.
unfoldable pub sync_stages : List Text
sync_stages =
    codes "longbridge"
    ∷ codes "futu"
    ∷ codes "stock_names"
    ∷ codes "consensus"
    ∷ codes "prediction"
    ∷ []

unfoldable pub derived_tables : List Text
derived_tables =
    codes "earnings_consensus"
    ∷ codes "earnings_forecast_eps"
    ∷ codes "earnings_institution_ratings"
    ∷ []

-- The STATUS_ and ERROR_ constants.
abbrev pub status_fresh : Text
status_fresh = codes "fresh"

abbrev pub status_stale : Text
status_stale = codes "stale"

abbrev pub status_never : Text
status_never = codes "never"

abbrev pub status_unknown : Text
status_unknown = codes "unknown"

abbrev pub status_failed : Text
status_failed = codes "failed"

abbrev pub error_stage_stale : Text
error_stage_stale = codes "sync_stage_stale"

abbrev pub error_stage_never : Text
error_stage_never = codes "sync_stage_never_run"

abbrev pub error_stage_failed : Text
error_stage_failed = codes "sync_stage_run_failed"

abbrev pub error_data_stale : Text
error_data_stale = codes "sync_data_stale"

abbrev pub error_data_missing : Text
error_data_missing = codes "sync_data_never_fetched"

abbrev pub error_unavailable : Text
error_unavailable = codes "sync_freshness_unavailable"

pub data Kind : Type 0 where
  stage : Kind
  derived : Kind

abbrev pub is_stage : Kind → Bool
is_stage Kind.stage = true
is_stage Kind.derived = false

pub record Entry : Type 0 where
  pub stage : Text
  pub kind : Kind
  pub last_success_at : Option ℕ
  pub age_hours : Option ℤ
  pub status : Text
  pub error_code : Option Text
  pub last_run_at : Option ℕ
  pub last_run_status : Option Text
  pub last_run_error_code : Option Text

-- A quotient rounded as `round` does, a half to the even neighbour.
abbrev pub round_div : ℕ → ℕ → ℕ
round_div n d =
    let q = n / d in
    let r = n % d in
    if ltb (2 * r) d then q else if ltb d (2 * r) then suc q else if eqb (q % 2) 0 then q else suc q

-- `round((now - last_at).total_seconds() / 3600.0, 2)`
unfoldable pub age_of : ℕ → ℕ → ℤ
age_of now last_at =
    if leb last_at now
    then pos (round_div (now - last_at) 36000000)
    else neg (pos (round_div (last_at - now) 36000000))

-- A row of the first query.
pub record StageRow : Type 0 where
  pub last_success_at : Option ℕ
  pub last_run_at : Option ℕ
  pub last_run_status : Option Text
  pub last_run_error_code : Option Text

-- `stage_rows.get(stage) or {}`
abbrev pub or_no_row : Option StageRow → StageRow
or_no_row none = record {
  last_success_at = none;
  last_run_at = none;
  last_run_status = none;
  last_run_error_code = none;
}
or_no_row (some row) = row

abbrev pub or_code : Option Text → Text → Text
or_code none code = code
or_code (some s) code = if is_empty s then code else s

-- The judgement by the last success: the age, the status and the error code.
abbrev pub judge_age : Kind → Option ℕ → ℕ → ℤ → Option ℤ × Text × Option Text
judge_age kind none now threshold =
    (none, status_never, some (if is_stage kind then error_stage_never else error_data_missing))
judge_age kind (some last_at) now threshold =
    let age = age_of now last_at in
    if threshold <? age
    then (
      some age,
      status_stale,
      some (if is_stage kind then error_stage_stale else error_data_stale),
    )
    else (some age, status_fresh, none)

-- `_entry`
unfoldable pub entry_of : Text → Kind → ℕ → ℤ → StageRow → Entry
entry_of name kind now threshold row =
    let (age, status, code) = judge_age kind row.last_success_at now threshold in
    let failed = is_stage kind && (row.last_run_status == some status_failed) in
    record {
      stage = name;
      kind = kind;
      last_success_at = row.last_success_at;
      age_hours = age;
      status = if failed then status_failed else status;
      error_code =
          if failed then some (or_code row.last_run_error_code error_stage_failed) else code;
      last_run_at = row.last_run_at;
      last_run_status = row.last_run_status;
      last_run_error_code = row.last_run_error_code;
    }
