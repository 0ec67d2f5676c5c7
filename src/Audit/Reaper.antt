-- ===== src/Audit/Reaper.antt =====
-- app/sync_audit.py and app/timeout_reaper.py: the runs whose process is gone.
use fincal.Prelude.{
  ℕ, ◌+◌, Bool, false, Option, none, some, List, [], ◌∷◌, ◌&&◌, ltb, eqb, if◌then◌else◌, count,
}
use fincal.Prelude.Interfaces.{nat_eq, list_eq}
use fincal.Prelude.Text.{Text, codes}
use fincal.Prelude.Dict
use fincal.Audit.{Status, is_running, Value, Run, Table, update}
use fincal.Audit.Retry.{default_timeout_seconds}

abbrev pub is_before : Option ℕ → ℕ → ℕ → Bool
is_before none seconds now = false
is_before (some t) seconds now = ltb (t + seconds) now

-- `heartbeat_at IS NULL AND started_at < cutoff OR heartbeat_at < cutoff`
unfoldable pub is_stale : ℕ → ℕ → Run → Bool
is_stale seconds now r = elim r.heartbeat_at [
  | none ↦ is_before (some r.started_at) seconds now
  | some t ↦ is_before (some t) seconds now
]

-- The assignments of both recoveries.
unfoldable pub interrupt : Text → Text → ℕ → Run → Run
interrupt error_code recovered_by now r = record r {
  status = Status.interrupted;
  finished_at = some now;
  error_code = some error_code;
  details = Dict.put (codes "recovered_by") (Value.text recovered_by) r.details;
}

unfoldable pub recover_stale_runs : ℕ → ℕ → Table → ℕ × Table
recover_stale_runs timeout_seconds now s =
    let stale = λ (r : Run). is_running r.status && is_stale timeout_seconds now r in
    (
      count stale s.rows,
      update stale (interrupt (codes "interrupted_stale_on_startup") (codes "startup") now) s,
    )

-- `COALESCE(NULLIF(timeout_seconds, 0), fallback)`
abbrev pub budget : ℕ → Run → ℕ
budget fallback r = if eqb r.timeout_seconds 0 then fallback else r.timeout_seconds

-- `COALESCE(heartbeat_at, started_at)`
abbrev pub last_sign : Run → ℕ
last_sign r = elim r.heartbeat_at [ none ↦ r.started_at | some t ↦ t ]

unfoldable pub is_timed_out : ℕ → ℕ → Run → Bool
is_timed_out fallback now r = is_running r.status && ltb (last_sign r + budget fallback r) now

unfoldable pub reap_timeout_runs : ℕ → ℕ → Table → ℕ × Table
reap_timeout_runs timeout_seconds now s = (
  count (is_timed_out timeout_seconds now) s.rows,
  update (is_timed_out timeout_seconds now)
      (interrupt (codes "timeout_reaper") (codes "reaper") now) s,
)

-- A pass of the loop: the moment after the waiting, and whether the database answers.
pub record Pass : Type 0 where
  pub at : ℕ
  pub answers : Bool

-- A database error leaves the table and counts nothing.
unfoldable pub reap_once : Pass → Table → ℕ × Table
reap_once pass s =
    if pass.answers then reap_timeout_runs default_timeout_seconds pass.at s else (0, s)

-- The passes until the stop event is set.
unfoldable pub run_reaper_loop : List Pass → Table → Table
run_reaper_loop [] s = s
run_reaper_loop (pass ∷ passes) s = run_reaper_loop passes (reap_once pass s).1
