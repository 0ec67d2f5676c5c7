-- ===== src/Audit.antt =====
-- app/sync_audit.py: the table `sync_runs` and the statements on it. The moments of the clocks
-- are seconds, and one argument stands for the clock of the process and that of the database. The
-- newest row is the first one.
pub mod Retry
pub mod Reaper
pub mod Steps
pub mod Rows
pub mod Start
pub mod Running
pub mod Terminal
pub mod Requests
pub mod Asking
pub mod Timeouts
pub mod Heartbeats
pub mod Throttle
use fincal.Prelude.{
  ℕ, suc, ◌+◌, Bool, true, false, Option, none, some, List, [], ◌∷◌, ◌&&◌, not, eqb, ltb, any,
  if◌then◌else◌, count,
}
use fincal.Prelude.Interfaces.{◌==◌, nat_eq, list_eq, option_eq}
use fincal.Prelude.Text.{Text, codes, is_empty}
use fincal.Prelude.Dict

-- The values that the CHECK constraint of the column allows.
pub data Status : Type 0 where
  running success failed skipped interrupted cancelled : Status

-- A value of the JSON column `details`.
pub data Value : Type 0 where
  null : Value
  number : ℕ → Value
  text : Text → Value
  moment : ℕ → Value

pub record Run : Type 0 where
  pub id : ℕ
  pub stage : Text
  pub status : Status
  pub source : Text
  pub symbol_count : ℕ
  pub record_count : ℕ
  pub details : List (Text × Value)
  pub error_code : Option Text
  pub started_at : ℕ
  pub finished_at : Option ℕ
  pub heartbeat_at : Option ℕ
  pub attempt : ℕ
  pub idempotency_key : Option Text
  pub phase : Option Text
  pub current : Option ℕ
  pub total : Option ℕ
  pub timeout_seconds : ℕ

pub record Table : Type 0 where
  pub rows : List Run
  pub next_id : ℕ

abbrev pub empty : Table
empty = record { rows = []; next_id = 1 }

abbrev pub is_running : Status → Bool
is_running Status.running = true
is_running _ = false

abbrev pub is_skipped : Status → Bool
is_skipped Status.skipped = true
is_skipped _ = false

-- `UPDATE sync_runs SET f WHERE p`
unfoldable pub update_rows : (Run → Bool) → (Run → Run) → List Run → List Run
update_rows p f [] = []
update_rows p f (r ∷ rs) = (if p r then f r else r) ∷ update_rows p f rs

abbrev pub update : (Run → Bool) → (Run → Run) → Table → Table
update p f s = record s { rows = update_rows p f s.rows }

-- The row of an id.
unfoldable pub row_of : ℕ → List Run → Option Run
row_of i [] = none
row_of i (r ∷ rs) = if eqb r.id i then some r else row_of i rs

-- `idempotency_key=%s AND status='running'`
abbrev pub runs_for : Text → Run → Bool
runs_for key r = is_running r.status && r.idempotency_key == some key

-- The partial unique index on the keys of the running rows; NULL conflicts with nothing.
unfoldable pub running_conflict : Option Text → List Run → Bool
running_conflict none rows = false
running_conflict (some key) rows = any (runs_for key) rows

-- The INSERT of a row under the next id: `none` is the UniqueViolation. The sequence of the ids
-- moves on either way.
unfoldable pub insert_run : Run → Table → Option ℕ × Table
insert_run r s =
    if is_running r.status && running_conflict r.idempotency_key s.rows
    then (none, record s { next_id = suc s.next_id })
    else (
      some s.next_id,
      record { rows = record r { id = s.next_id } ∷ s.rows; next_id = suc s.next_id },
    )

-- `COALESCE(MAX(attempt), 0)` over the rows of a key
unfoldable pub max_attempt : Text → List Run → ℕ
max_attempt key [] = 0
max_attempt key (r ∷ rs) =
    let rest = max_attempt key rs in
    if r.idempotency_key == some key && ltb rest r.attempt then r.attempt else rest

-- `if idempotency_key`
abbrev pub truthy : Option Text → Bool
truthy none = false
truthy (some key) = not (is_empty key)

unfoldable pub finish_run :
    ℕ → Status → ℕ → List (Text × Value) → Option Text → ℕ → Table → Bool × Table
finish_run run_id status record_count details error_code now s =
    let matches = λ (r : Run). eqb r.id run_id && is_running r.status in
    (
      ltb 0 (count matches s.rows),
      update matches
          (λ r. record r {
            status = status;
            record_count = record_count;
            details = details;
            error_code = error_code;
            finished_at = some now;
            heartbeat_at = some now;
          })
          s,
    )

abbrev pub is_cancelled_at : Option Run → Bool
is_cancelled_at none = true
is_cancelled_at (some r) = not (is_running r.status)

unfoldable pub is_cancelled : ℕ → Table → Bool
is_cancelled run_id s = is_cancelled_at (row_of run_id s.rows)

-- A column that an optional argument sets.
abbrev pub set_or {ℓ} : {A : Type ℓ} → Option A → Option A → Option A
set_or none old = old
set_or (some a) old = some a

unfoldable pub heartbeat : ℕ → Option Text → Option ℕ → Option ℕ → ℕ → Table → Table
heartbeat run_id phase current total now =
    update (λ r. eqb r.id run_id)
      (λ r. record r {
        heartbeat_at = some now;
        phase = set_or phase r.phase;
        current = set_or current r.current;
        total = set_or total r.total;
      })

unfoldable pub save_checkpoint : ℕ → Text → ℕ → ℕ → ℕ → Table → Table
save_checkpoint run_id phase current total =
    heartbeat run_id (some phase) (some current) (some total)

abbrev pub checkpoint_at : Option Run → Option (Option Text × ℕ × Option ℕ)
checkpoint_at none = none
checkpoint_at (some r) = elim r.current [ none ↦ none | some c ↦ some (r.phase, c, r.total) ]

unfoldable pub get_checkpoint : ℕ → Table → Option (Option Text × ℕ × Option ℕ)
get_checkpoint run_id s = checkpoint_at (row_of run_id s.rows)

unfoldable pub cancelled_by_admin : Text
cancelled_by_admin = codes "cancelled_by_admin"

unfoldable pub request_cancel : ℕ → ℕ → Table → Bool × Table
request_cancel run_id now s =
    let matches = λ (r : Run). eqb r.id run_id && is_running r.status in
    (
      ltb 0 (count matches s.rows),
      update matches
          (λ r. record r {
            status = Status.cancelled;
            finished_at = some now;
            error_code = some cancelled_by_admin;
          })
          s,
    )
