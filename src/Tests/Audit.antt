-- ===== src/Tests/Audit.antt =====
-- A run that is cancelled, a request of its retry, and the reaper, on small tables.
use fincal.Prelude.{
  all, foldl, ℕ, ◌+◌, ◌-◌, ◌*◌, ◌≤◌, arith, ◌≢◌, ◌≡◌, refl, true, false, not, Option, none, some,
  List, [], ◌∷◌, count, any, if◌then◌else◌, is_some,
}
use fincal.Prelude.Interfaces.{nat_eq, list_eq, option_eq}
use fincal.Prelude.Dict
use fincal.Prelude.Text.{Text, codes}
use fincal.Prelude.Decimal.{decimal}
use fincal.Audit.{
  Run, Table, Status, Value, empty, runs_for, row_of, update_rows, insert_run, running_conflict,
  request_cancel, finish_run, is_cancelled, max_attempt, cancelled_by_admin,
}
use fincal.Audit.Retry.{
  start_run, then_consume, new_run, request_retry, request_row, consume_retry_requests, satisfy,
  pending_for, pending_retry_requests, satisfied_by_run, is_pending, is_request, last_request,
  retry_request_key, retry_requested,
}
use fincal.Audit.Reaper.{Pass}
use fincal.Audit.Steps.{Step, Reaches}
use fincal.Audit.Start.{start_run-Reaches}
use fincal.Audit.Running.{one_running}
use fincal.Audit.Terminal.{HasEnded, ended_for_good}
use fincal.Audit.Requests.{start_run-fulfils}
use fincal.Audit.Asking.{request_retry-harmless}
use fincal.Audit.Heartbeats.{HeartbeatThrottle, Call}
use fincal.Audit.Throttle.{beat, of_run, is_covered, table_after, written, written_bound}

abbrev futu : Text
futu = codes "futu"

abbrev full : Text
full = codes "futu:earnings:full"

-- One run of the stage, started at 100 with a budget of 1500 seconds.
abbrev once : Table
once = (start_run futu futu 2 (some full) 1500 100 empty).1

once-Reaches : Reaches empty once
once-Reaches = start_run-Reaches futu futu 2 (some full) 1500 100 empty empty Reaches.here

one_running_example :
    let result = start_run futu futu 2 (some full) 1500 200 once in
    (count (runs_for full) once.rows ≤ 1)
    × (is_some result.0 ≡ not (any (runs_for full) once.rows))
    × (count (runs_for full) result.1.rows ≡ 1)
one_running_example = one_running futu futu full 2 1500 200 once once-Reaches

-- It is cancelled, and its script reports a success afterwards.
abbrev stopped : Table
stopped = (request_cancel 1 300 once).1

abbrev reported : Table
reported = (finish_run 1 Status.success 40 [] none 400 stopped).1

stopped-Reaches : Reaches empty stopped
stopped-Reaches = Reaches.then once stopped once-Reaches (Step.cancelled once 1 300)

reported-Reaches : Reaches stopped reported
reported-Reaches =
    Reaches.then stopped reported Reaches.here
      (Step.finished stopped 1 Status.success 40 [] none 400)

abbrev the_cancelled : Run
the_cancelled = record (new_run futu futu 2 (some full) 1500 1 100) {
  id = 1;
  status = Status.cancelled;
  finished_at = some 300;
  error_code = some cancelled_by_admin;
}

stopped-HasEnded : HasEnded 1 (Status.cancelled, 0, some cancelled_by_admin) stopped
unfolding start_run then_consume insert_run running_conflict consume_retry_requests update_rows
    max_attempt request_cancel new_run row_of is_pending is_request
stopped-HasEnded = record { row = the_cancelled; found = refl; over = refl; same = refl }

ended_for_good_example :
    HasEnded 1 (Status.cancelled, 0, some cancelled_by_admin) reported
    × (is_cancelled 1 reported ≡ true)
ended_for_good_example =
    ended_for_good stopped reported 1 (Status.cancelled, 0, some cancelled_by_admin) stopped-Reaches
      reported-Reaches stopped-HasEnded

-- Its retry is asked for, and the next round fulfils the request.
abbrev no_override : Text → Option ℕ
no_override stage = none

abbrev asked : Table
asked = (request_retry no_override 1 futu futu 2 none 500 stopped).1

stopped-request_retry : (request_retry no_override 1 futu futu 2 none 500 stopped).0 ≡ some 2
unfolding request_retry start_run then_consume insert_run running_conflict consume_retry_requests
    update_rows max_attempt request_cancel new_run request_row is_pending is_request last_request
    retry_request_key retry_requested decimal
stopped-request_retry = refl

abbrev seven : ℕ
seven = 7

seven_apart : seven ≢ 1
seven_apart e = omega (arith, e)

request_retry-harmless_example :
    (is_some (start_run futu futu 2 (some full) 1500 600 asked).0
      ≡ is_some (start_run futu futu 2 (some full) 1500 600 stopped).0)
    × ((request_retry no_override 1 futu futu 2 none 600 asked).0 ≡ none)
    × (is_some (request_retry no_override 7 futu futu 2 none 600 asked).0
        ≡ is_some (request_retry no_override 7 futu futu 2 none 600 stopped).0)
request_retry-harmless_example =
    request_retry-harmless no_override 1 futu futu 2 none 500 stopped 2 futu futu 2 (some full) 1500
      600 seven seven_apart stopped-request_retry

abbrev the_request : Run
the_request = request_row no_override 1 futu futu 2 none 1 500

abbrev requested : Table
requested = (insert_run the_request stopped).1

requested-Reaches : Reaches empty requested
requested-Reaches =
    Reaches.then stopped requested stopped-Reaches
      (Step.requested stopped no_override 1 futu futu 2 none 1 500)

requested-start_run : (start_run futu futu 2 (some full) 1500 600 requested).0 ≡ some 3
unfolding start_run then_consume insert_run running_conflict consume_retry_requests update_rows
    max_attempt request_cancel new_run request_row is_pending is_request retry_request_key decimal
requested-start_run = refl

requested-row_of : row_of 2 requested.rows ≡ some (record the_request { id = 2 })
unfolding start_run then_consume insert_run running_conflict consume_retry_requests update_rows
    max_attempt request_cancel new_run request_row is_pending is_request row_of
requested-row_of = refl

start_run-fulfils_example :
    let t = (start_run futu futu 2 (some full) 1500 600 requested).1 in
    let r = record the_request { id = 2 } in
    (row_of 2 t.rows ≡ some (if pending_for futu r then satisfy 3 600 r else r))
    × (Dict.get satisfied_by_run (satisfy 3 600 r).details ≡ some (Value.number 3))
    × (pending_retry_requests (some futu) t ≡ [])
start_run-fulfils_example =
    start_run-fulfils futu futu 2 (some full) 1500 600 requested 3 2 (record the_request { id = 2 })
      requested-Reaches requested-start_run requested-row_of

-- The process of the run dies, the database does not answer one pass, and the next one is late.
abbrev passes : List Pass
passes =
    record { at = 1000; answers = true }
    ∷ record { at = 1700; answers = false }
    ∷ record { at = 2000; answers = true }
    ∷ []

abbrev the_run : Run
the_run = record (new_run futu futu 2 (some full) 1500 1 100) { id = 1 }

-- Three calls within 100 ticks and an interval of 60: at most two heartbeats.
abbrev call_at : ℕ → Call
call_at clock = record {
  run_id = 1;
  phase = none;
  current = none;
  total = none;
  clock = clock;
  now = clock;
}

abbrev calls : List Call
calls = call_at 10 ∷ call_at 50 ∷ call_at 90 ∷ []

written_bound_example :
    let new : HeartbeatThrottle = record { interval_seconds = 60; last = [] } in
    (table_after calls new once ≡ foldl beat once (written calls new once))
    × (60 * count (of_run 1) (written calls new once) ≤ (110 - 10) + 60)
    × (all (is_covered 60 (written calls new once)) calls ≡ true)
written_bound_example = written_bound 60 1 calls once 10 110 refl (omega arith)
