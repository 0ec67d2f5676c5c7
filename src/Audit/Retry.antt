-- ===== src/Audit/Retry.antt =====
-- app/sync_audit.py: the requests of a retry, and the start of a run, which fulfils them.
use fincal.Prelude.{
  ℕ, suc, Bool, false, Option, none, some, List, [], ◌∷◌, ◌++◌, ◌&&◌, not, if◌then◌else◌, keep,
  count, is_some,
}
use fincal.Prelude.Interfaces.{◌==◌, nat_eq, list_eq, option_eq}
use fincal.Prelude.Text.{Text, codes}
use fincal.Prelude.Decimal.{decimal}
use fincal.Prelude.Dict
use fincal.Audit.{
  Status, is_skipped, Value, Run, Table, update, insert_run, max_attempt, running_conflict, truthy,
}

-- RETRY_REQUEST_PHASE
unfoldable pub retry_requested : Text
retry_requested = codes "retry_requested"

-- RETRY_SATISFIED_BY
unfoldable pub satisfied_by_run : Text
satisfied_by_run = codes "satisfied_by_run"

unfoldable pub retry_request_key : ℕ → Text
retry_request_key original_run_id = codes "retry-request:" ++ decimal original_run_id

abbrev pub default_timeout_seconds : ℕ
default_timeout_seconds = 3600

-- STAGE_TIMEOUT_SECONDS of app/config.py
unfoldable pub stage_timeout_seconds : List (Text × ℕ)
stage_timeout_seconds =
    (codes "longbridge", 900)
    ∷ (codes "futu", 1500)
    ∷ (codes "stock_names", 900)
    ∷ (codes "consensus", 2400)
    ∷ (codes "prediction", 600)
    ∷ (codes "futu_eps_field_fix", 1500)
    ∷ []

budget_or : (Text → Option ℕ) → Text → Option ℕ → ℕ
budget_or override stage none = default_timeout_seconds
budget_or override stage (some default) = elim (override stage) [ none ↦ default | some n ↦ n ]

-- `stage_timeout`, with 3600 on its KeyError. `override` reads the number in the environment's
-- FINCAL_STAGE_TIMEOUT variable of a stage.
unfoldable pub stage_budget : (Text → Option ℕ) → Text → ℕ
unfolding budget_or
stage_budget override stage = budget_or override stage (Dict.get stage stage_timeout_seconds)

-- `status='skipped' AND phase='retry_requested'`
unfoldable pub is_request : Run → Bool
is_request r = is_skipped r.status && r.phase == some retry_requested

-- `details ? 'satisfied_by_run'`
unfoldable pub is_satisfied : Run → Bool
is_satisfied r = is_some (Dict.get satisfied_by_run r.details)

unfoldable pub is_pending : Run → Bool
is_pending r = is_request r && not (is_satisfied r)

-- The newest request under a key.
unfoldable pub last_request : Text → List Run → Option Run
last_request key [] = none
last_request key (r ∷ rs) =
    if r.idempotency_key == some key && is_request r then some r else last_request key rs

abbrev pub blocks : Option Run → Bool
blocks none = false
blocks (some r) = not (is_satisfied r)

request_details : ℕ → Option Text → ℕ → List (Text × Value)
request_details original_run_id requested_by now =
    (codes "retry_requested_for", Value.text (decimal original_run_id))
    ∷ (codes "requested_by", elim requested_by [ none ↦ Value.null | some t ↦ Value.text t ])
    ∷ (codes "requested_at", Value.moment now)
    ∷ (codes "reason_code", Value.text (codes "retry_requires_cron"))
    ∷ (codes "executed_by", Value.text (codes "scripts/cron_sync.sh"))
    ∷ []

unfoldable pub request_row : (Text → Option ℕ) → ℕ → Text → Text → ℕ → Option Text → ℕ → ℕ → Run
unfolding request_details
request_row override original_run_id stage source symbol_count requested_by attempt now = record {
  id = 0;
  stage = stage;
  status = Status.skipped;
  source = source;
  symbol_count = symbol_count;
  record_count = 0;
  details = request_details original_run_id requested_by now;
  error_code = none;
  started_at = now;
  finished_at = some now;
  heartbeat_at = some now;
  attempt = attempt;
  idempotency_key = some (retry_request_key original_run_id);
  phase = some retry_requested;
  current = none;
  total = none;
  timeout_seconds = stage_budget override stage;
}

unfoldable pub request_retry :
    (Text → Option ℕ) → ℕ → Text → Text → ℕ → Option Text → ℕ → Table → Option ℕ × Table
request_retry override original_run_id stage source symbol_count requested_by now s =
    let key = retry_request_key original_run_id in
    let attempt = suc (max_attempt key s.rows) in
    if blocks (last_request key s.rows)
    then (none, s)
    else insert_run
        (request_row override original_run_id stage source symbol_count requested_by attempt now) s

-- `details || {...}` of a request that a run fulfils
unfoldable pub satisfy : ℕ → ℕ → Run → Run
satisfy run_id now r = record r {
  finished_at = some now;
  details =
      Dict.put (codes "satisfied_at") (Value.moment now)
        (Dict.put satisfied_by_run (Value.number run_id) r.details);
}

abbrev pub pending_for : Text → Run → Bool
pending_for stage r = r.stage == stage && is_pending r

unfoldable pub consume_retry_requests : Text → ℕ → ℕ → Table → ℕ × Table
consume_retry_requests stage run_id now s =
    (count (pending_for stage) s.rows, update (pending_for stage) (satisfy run_id now) s)

-- `ORDER BY id`
oldest_first : List Run → List Run
oldest_first [] = []
oldest_first (r ∷ rs) = oldest_first rs ++ r ∷ []

unfoldable pub pending_retry_requests : Option Text → Table → List Run
unfolding oldest_first
pending_retry_requests none s = oldest_first (keep is_pending s.rows)
pending_retry_requests (some stage) s = oldest_first (keep (pending_for stage) s.rows)

unfoldable pub new_run : Text → Text → ℕ → Option Text → ℕ → ℕ → ℕ → Run
new_run stage source symbol_count idempotency_key timeout_seconds attempt now = record {
  id = 0;
  stage = stage;
  status = Status.running;
  source = source;
  symbol_count = symbol_count;
  record_count = 0;
  details = [];
  error_code = none;
  started_at = now;
  finished_at = none;
  heartbeat_at = some now;
  attempt = attempt;
  idempotency_key = idempotency_key;
  phase = none;
  current = none;
  total = none;
  timeout_seconds = timeout_seconds;
}

abbrev pub next_attempt : Option Text → List Run → ℕ
next_attempt none rows = 1
next_attempt (some key) rows = if truthy (some key) then suc (max_attempt key rows) else 1

-- After the INSERT: the requests of the stage are fulfilled by the run, when there is one.
unfoldable pub then_consume : Text → ℕ → Option ℕ × Table → Option ℕ × Table
then_consume stage now (none, s) = (none, s)
then_consume stage now (some run_id, s) =
    (some run_id, (consume_retry_requests stage run_id now s).1)

unfoldable pub start_run : Text → Text → ℕ → Option Text → ℕ → ℕ → Table → Option ℕ × Table
start_run stage source symbol_count idempotency_key timeout_seconds now s =
    if truthy idempotency_key && running_conflict idempotency_key s.rows
    then (none, s)
    else then_consume stage now (
        insert_run
          (new_run stage source symbol_count idempotency_key timeout_seconds
            (next_attempt idempotency_key s.rows) now)
          s)
