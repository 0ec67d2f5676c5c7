-- ===== src/Audit/Timeouts.antt =====
-- The reaper of app/timeout_reaper.py on a run whose process is gone.
use fincal.Prelude.{ℕ, ◌≡◌, Bool, some, ◌&&◌}
use fincal.Prelude.Text.{codes}
use fincal.Audit.{Run, Table, Status, row_of}
use fincal.Audit.Retry.{default_timeout_seconds}
use fincal.Audit.Reaper.{interrupt, is_timed_out, Pass}

-- A pass that gets an answer after the budget of a run has passed since its last sign of life.
abbrev pub ends : Run → Pass → Bool
ends r pass = pass.answers && is_timed_out default_timeout_seconds pass.at r

-- The row of an id is a run with this status.
abbrev pub HasStatus : ℕ → Status → Table → Type 0
HasStatus i status s = (r : Run) × (row_of i s.rows ≡ some r) × (r.status ≡ status)

abbrev reap : Pass → Run → Run
reap pass = interrupt (codes "timeout_reaper") (codes "reaper") pass.at
