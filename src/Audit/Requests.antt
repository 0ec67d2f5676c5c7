-- ===== src/Audit/Requests.antt =====
-- The requests of a retry in app/sync_audit.py: what fulfils one.
use fincal.Prelude.{
  ℕ, ◌≡◌, refl, sym, ap, ◌∙◌, true, false, Option, none, some, List, [], ◌∷◌, arith, inl, inr,
  Bool-cases, keep, if◌then◌else◌,
}
use fincal.Prelude.Interfaces.{nat_eq, list_eq, option_eq}
use fincal.Prelude.Text.{Text, codes}
use fincal.Prelude.Dict
use fincal.Prelude.Dict.{get-put, get-put_self}
use fincal.Audit.{Run, Table, Value, empty, update_rows, row_of, running_conflict}
use fincal.Audit.Retry.{
  satisfied_by_run, is_satisfied, is_pending, satisfy, pending_for, consume_retry_requests,
  pending_retry_requests, start_run,
}
use fincal.Audit.Steps.{Reaches}
use fincal.Audit.Rows.{row_of-update, updated, row_of_older, ids_below}
use fincal.Audit.Start.{with_fresh_run, fresh_run, start_run_busy, start_run_free}
use fincal.Audit.Running.{Reaches-IsSound, empty-IsSound}

satisfy-satisfier :
    (run_id now : ℕ) (r : Run)
    → Dict.get satisfied_by_run (satisfy run_id now r).details ≡ some (Value.number run_id)
unfolding satisfy satisfied_by_run
satisfy-satisfier run_id now r =
    let key = codes "satisfied_by_run" in
    let d = Dict.put key (Value.number run_id) r.details in
    get-put (codes "satisfied_at") key (Value.moment now) d
    ∙ get-put_self key (Value.number run_id) r.details

satisfy-pending : (run_id now : ℕ) (r : Run) → is_pending (satisfy run_id now r) ≡ false
unfolding is_pending is_satisfied
satisfy-pending run_id now r = ground (arith, satisfy-satisfier run_id now r)

satisfy-pending_for :
    (stage : Text) (run_id now : ℕ) (r : Run) → pending_for stage (satisfy run_id now r) ≡ false
satisfy-pending_for stage run_id now r = ground (arith, satisfy-pending run_id now r)

none_pending :
    (stage : Text) (run_id now : ℕ) (rows : List Run)
    → keep (pending_for stage) (update_rows (pending_for stage) (satisfy run_id now) rows) ≡ []
unfolding update_rows
none_pending stage run_id now [] = refl
none_pending stage run_id now (r ∷ rs) = elim (Bool-cases (pending_for stage r)) [
  | inl hit ↦ rw (hit, satisfy-pending_for stage run_id now r) (none_pending stage run_id now rs)
  | inr missed ↦ rw (missed, missed) (none_pending stage run_id now rs)
]

none_pending_after :
    (stage : Text) (run_id now : ℕ) (s : Table)
    → pending_retry_requests (some stage) (consume_retry_requests stage run_id now s).1 ≡ []
unfolding pending_retry_requests consume_retry_requests
none_pending_after stage run_id now s = rw (none_pending stage run_id now s.rows) refl

-- A row of the table before the run was inserted, after its requests were consumed.
consumed_row :
    (stage : Text) (run_id now i : ℕ) (r row : Run) (rows : List Run)
    → ids_below run_id rows ≡ true
    → row_of i rows ≡ some r
    → row_of i
        (update_rows (pending_for stage) (satisfy run_id now) (record row { id = run_id } ∷ rows))
      ≡ some (if pending_for stage r then satisfy run_id now r else r)
unfolding satisfy
consumed_row stage run_id now i r row rows low found =
    let new = record row { id = run_id } in
    let other : row_of i (new ∷ rows) ≡ some r = row_of_older run_id i r row rows low found in
    row_of-update (pending_for stage) (satisfy run_id now) i (new ∷ rows) (λ r. refl)
    ∙ ap (updated (pending_for stage) (satisfy run_id now)) other

-- A run that starts fulfils every request of its stage, and it only: each pending request of the
-- stage names the run, every other row of the table is as it was, and no request of the stage is
-- pending any more.
pub start_run-fulfils :
    (stage source : Text) (symbol_count : ℕ) (key : Option Text) (timeout now : ℕ) (s : Table)
    (run_id i : ℕ) (r : Run)
    → Reaches empty s
    → (start_run stage source symbol_count key timeout now s).0 ≡ some run_id
    → row_of i s.rows ≡ some r
    → let t = (start_run stage source symbol_count key timeout now s).1 in
      (row_of i t.rows ≡ some (if pending_for stage r then satisfy run_id now r else r))
      × (Dict.get satisfied_by_run (satisfy run_id now r).details ≡ some (Value.number run_id))
      × (pending_retry_requests (some stage) t ≡ [])
unfolding consume_retry_requests update_rows
start_run-fulfils stage source symbol_count key timeout now s run_id i r path starts found =
    let sound = Reaches-IsSound empty s path empty-IsSound in
    elim (Bool-cases (running_conflict key s.rows)) [
      | inl busy ↦
          let (nothing, same) = start_run_busy stage source symbol_count key timeout now s busy in
          let clash : Path (Option ℕ) none (some run_id) = sym nothing ∙ starts in cc
      | inr free ↦
          let t = with_fresh_run stage source symbol_count key timeout now s in
          let started = start_run_free stage source symbol_count key timeout now s free in
          let same : Path (Option ℕ) (some s.next_id) (some run_id) =
            sym (ap (λ (o : Option ℕ × Table). o.0) started) ∙ starts in
          let e : run_id ≡ s.next_id = cc in
          let row = fresh_run stage source symbol_count key timeout now s in
          rw (started, e)
            (
              consumed_row stage s.next_id now i r row s.rows sound.low found,
              satisfy-satisfier s.next_id now r,
              none_pending_after stage s.next_id now t,
            )
    ]
