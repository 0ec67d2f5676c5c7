-- ===== src/Audit/Terminal.antt =====
-- A run of app/sync_audit.py that has ended stays as it ended.
use fincal.Prelude.{
  ℕ, ◌≡◌, refl, ap, ◌∙◌, Bool, true, false, Option, some, ◌&&◌, arith, inl, inr, Bool-cases,
  if◌then◌else◌,
}
use fincal.Prelude.Text.{Text}
use fincal.Audit.{
  Run, Table, Status, empty, is_running, update, row_of, running_conflict, insert_run, finish_run,
  heartbeat, request_cancel, is_cancelled,
}
use fincal.Audit.Retry.{request_row, consume_retry_requests, new_run, satisfy}
use fincal.Audit.Reaper.{recover_stale_runs, reap_timeout_runs, interrupt, is_timed_out}
use fincal.Audit.Steps.{Step, Reaches}
use fincal.Audit.Rows.{KeepsId, row_of-update, updated, row_of_older}
use fincal.Audit.Running.{IsSound, Reaches-IsSound, empty-IsSound}

-- What a run ended with.
abbrev pub ending : Run → Status × ℕ × Option Text
ending r = (r.status, r.record_count, r.error_code)

-- The row of an id has ended, with this.
pub record HasEnded (i : ℕ) (e : Status × ℕ × Option Text) (s : Table) : Type 0 where
  pub row : Run
  pub found : row_of i s.rows ≡ some row
  pub over : is_running row.status ≡ false
  pub same : ending row ≡ e

-- A conditional assignment that leaves the endings of the runs that have ended.
KeepsEnds : (Run → Bool) → (Run → Run) → Type 0
KeepsEnds p f = (r : Run) → is_running r.status ≡ false → p r ≡ true → ending (f r) ≡ ending r

update-HasEnded :
    (p : Run → Bool) (f : Run → Run) (s : Table) (i : ℕ) (e : Status × ℕ × Option Text)
    → KeepsId f
    → KeepsEnds p f
    → HasEnded i e s
    → HasEnded i e (update p f s)
unfolding KeepsEnds
update-HasEnded p f s i e ids ends x =
    let at : row_of i (update p f s).rows ≡ some (if p x.row then f x.row else x.row) =
      row_of-update p f i s.rows ids ∙ ap (updated p f) x.found in
    elim (Bool-cases (p x.row)) [
      | inl hit ↦
          let kept = ends x.row x.over hit in
          record {
            row = f x.row;
            found = rw hit at at;
            over = ap (λ (o : Status × ℕ × Option Text). is_running o.0) kept ∙ x.over;
            same = kept ∙ x.same;
          }
      | inr missed ↦ record { row = x.row; found = rw missed at at; over = x.over; same = x.same }
    ]

insert-HasEnded :
    (r : Run) (s : Table) (i : ℕ) (e : Status × ℕ × Option Text)
    → IsSound s
    → HasEnded i e s
    → HasEnded i e (insert_run r s).1
unfolding insert_run
insert-HasEnded r s i e sound x =
    elim (Bool-cases (is_running r.status && running_conflict r.idempotency_key s.rows)) [
      | inl clash ↦ rw clash record { row = x.row; found = x.found; over = x.over; same = x.same }
      | inr free ↦ rw free record {
        row = x.row;
        found = row_of_older s.next_id i x.row r s.rows sound.low x.found;
        over = x.over;
        same = x.same;
      }
    ]

HasEnded-Step :
    (s t : Table) (i : ℕ) (e : Status × ℕ × Option Text)
    → Step s t
    → IsSound s
    → HasEnded i e s
    → HasEnded i e t
unfolding consume_retry_requests satisfy finish_run heartbeat request_cancel recover_stale_runs
    reap_timeout_runs interrupt is_timed_out KeepsEnds
HasEnded-Step _ _ i e (Step.started s stage source count key timeout attempt now) sound x =
    insert-HasEnded (new_run stage source count key timeout attempt now) s i e sound x
HasEnded-Step _ _ i e (Step.consumed s stage run_id now) sound x =
    update-HasEnded _ (satisfy run_id now) s i e (λ r. refl) (λ r over hit. refl) x
HasEnded-Step _ _ i e (Step.requested s override original stage source count by attempt now) sound
      x =
    insert-HasEnded (request_row override original stage source count by attempt now) s i e sound x
HasEnded-Step _ _ i e (Step.finished s run_id status count details code now) sound x =
    update-HasEnded _ _ s i e (λ r. refl) (λ r over hit. ground (arith, over, hit)) x
HasEnded-Step _ _ i e (Step.beaten s run_id phase current total now) sound x =
    update-HasEnded _ _ s i e (λ r. refl) (λ r over hit. refl) x
HasEnded-Step _ _ i e (Step.cancelled s run_id now) sound x =
    update-HasEnded _ _ s i e (λ r. refl) (λ r over hit. ground (arith, over, hit)) x
HasEnded-Step _ _ i e (Step.recovered s timeout now) sound x =
    update-HasEnded _ _ s i e (λ r. refl) (λ r over hit. ground (arith, over, hit)) x
HasEnded-Step _ _ i e (Step.reaped s timeout now) sound x =
    update-HasEnded _ _ s i e (λ r. refl) (λ r over hit. ground (arith, over, hit)) x

HasEnded-Reaches :
    (s t : Table) (i : ℕ) (e : Status × ℕ × Option Text)
    → Reaches s t
    → IsSound s
    → HasEnded i e s
    → HasEnded i e t
HasEnded-Reaches s _ i e Reaches.here sound x = x
HasEnded-Reaches s _ i e (Reaches.then t u path step) sound x =
    HasEnded-Step t u i e step (Reaches-IsSound s t path sound)
      (HasEnded-Reaches s t i e path sound x)

-- No run leaves a terminal state: whatever steps follow, the run keeps its status, its number of
-- records and its error code, and the scripts that poll it find it cancelled.
pub ended_for_good :
    (s t : Table) (i : ℕ) (e : Status × ℕ × Option Text)
    → Reaches empty s
    → Reaches s t
    → HasEnded i e s
    → HasEnded i e t × (is_cancelled i t ≡ true)
unfolding is_cancelled
ended_for_good s t i e before after x =
    let y = HasEnded-Reaches s t i e after (Reaches-IsSound empty s before empty-IsSound) x in
    (y, rw (y.found, y.over) refl)
