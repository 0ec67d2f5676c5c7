-- ===== src/Audit/Steps.antt =====
-- What the processes and the operators do to the table, one transaction of app/sync_audit.py at a
-- time. `start_run` is three of them: the look for a running row, the INSERT and the consumption
-- of the requests; another process may come between them, so the INSERT is of any attempt.
use fincal.Prelude.{ℕ, Option, List}
use fincal.Prelude.Text.{Text}
use fincal.Audit.{Status, Value, Table, insert_run, finish_run, heartbeat, request_cancel}
use fincal.Audit.Retry.{request_row, consume_retry_requests, new_run}
use fincal.Audit.Reaper.{recover_stale_runs, reap_timeout_runs}

pub data Step : Table → Table → Type 0 where
  started :
      (s : Table) (stage source : Text) (symbol_count : ℕ) (key : Option Text)
      (timeout attempt now : ℕ)
      → Step s (insert_run (new_run stage source symbol_count key timeout attempt now) s).1
  consumed :
      (s : Table) (stage : Text) (run_id now : ℕ)
      → Step s (consume_retry_requests stage run_id now s).1
  requested :
      (s : Table) (override : Text → Option ℕ) (original_run_id : ℕ) (stage source : Text)
      (symbol_count : ℕ) (requested_by : Option Text) (attempt now : ℕ)
      → Step s
          (insert_run
            (request_row override original_run_id stage source symbol_count requested_by attempt
              now)
            s).1
  finished :
      (s : Table) (run_id : ℕ) (status : Status) (record_count : ℕ) (details : List (Text × Value))
      (error_code : Option Text) (now : ℕ)
      → Step s (finish_run run_id status record_count details error_code now s).1
  beaten :
      (s : Table) (run_id : ℕ) (phase : Option Text) (current total : Option ℕ) (now : ℕ)
      → Step s (heartbeat run_id phase current total now s)
  cancelled : (s : Table) (run_id now : ℕ) → Step s (request_cancel run_id now s).1
  recovered : (s : Table) (timeout now : ℕ) → Step s (recover_stale_runs timeout now s).1
  reaped : (s : Table) (timeout now : ℕ) → Step s (reap_timeout_runs timeout now s).1

-- The tables that any number of steps lead to.
pub data Reaches (s : Table) : Table → Type 0 where
  here : Reaches s s
  then : (t u : Table) → Reaches s t → Step t u → Reaches s u
