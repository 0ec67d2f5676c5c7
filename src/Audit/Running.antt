-- ===== src/Audit/Running.antt =====
-- The partial unique index: at most one run of a key is running.
use mathlib.Core.Bool.{true≢false}
use fincal.Prelude.{
  ℕ, ◌≤◌, ◌≡◌, refl, sym, ap, ◌∙◌, Bool, true, false, Option, none, some, List, [], ◌∷◌, ◌&&◌, not,
  any, count, arith, inl, inr, Bool-cases, and_parts, is_some,
}
use fincal.Prelude.Interfaces.{◌==◌, beq_iff, nat_eq, list_eq, option_eq, list_eqb_refl}
use fincal.Prelude.Text.{Text}
use fincal.Audit.{
  Run, Table, Status, empty, is_running, update, update_rows, runs_for, running_conflict,
  insert_run, finish_run, heartbeat, request_cancel,
}
use fincal.Audit.Retry.{
  request_row, consume_retry_requests, new_run, satisfy, start_run, pending_for,
}
use fincal.Audit.Reaper.{recover_stale_runs, reap_timeout_runs, interrupt}
use fincal.Audit.Steps.{Step, Reaches}
use fincal.Audit.Start.{with_fresh_run, start_run_busy, start_run_free}
use fincal.Audit.Rows.{
  KeepsId, StartsNone, count-update_le, ids_below, ids_below-update, ids_below-suc, none_running,
}

-- The ids are those that the sequence gave out, and no key has two running rows.
pub record IsSound (s : Table) : Type 0 where
  pub low : ids_below s.next_id s.rows ≡ true
  pub single : (key : Text) → count (runs_for key) s.rows ≤ 1

update-IsSound :
    (p : Run → Bool) (f : Run → Run) (s : Table)
    → KeepsId f
    → StartsNone p f
    → IsSound s
    → IsSound (update p f s)
update-IsSound p f s ids starts x = record {
  low = ids_below-update p f s.next_id s.rows ids x.low;
  single = λ key. omega (arith, count-update_le p f key s.rows starts, x.single key);
}

-- A row that conflicts with nothing runs for a key that nothing else runs for.
alone :
    (status : Status) (o : Option Text) (key : Text) (rows : List Run)
    → (is_running status && running_conflict o rows) ≡ false
    → (is_running status && o == some key) ≡ true
    → count (runs_for key) rows ≡ 0
unfolding running_conflict
alone status none key rows free mine =
    absurd (true≢false (sym (and_parts (is_running status) false mine).1))
alone status (some k) key rows free mine =
    let (running, same) = and_parts (is_running status) (k == key) mine in
    let at_k : any (runs_for k) rows ≡ false = rw running at free in
    let equal = (beq_iff k key).0 same in
    none_running key rows (ap (λ j. any (runs_for j) rows) (sym equal) ∙ at_k)

insert_single :
    (r : Run) (n : ℕ) (key : Text) (rows : List Run)
    → (is_running r.status && running_conflict r.idempotency_key rows) ≡ false
    → count (runs_for key) rows ≤ 1
    → count (runs_for key) (record r { id = n } ∷ rows) ≤ 1
insert_single r n key rows free h = elim (Bool-cases (runs_for key r)) [
  | inl mine ↦ rw mine (omega (arith, alone r.status r.idempotency_key key rows free mine))
  | inr other ↦ rw other h
]

insert-IsSound : (r : Run) (s : Table) → IsSound s → IsSound (insert_run r s).1
unfolding insert_run running_conflict
insert-IsSound r s x =
    elim (Bool-cases (is_running r.status && running_conflict r.idempotency_key s.rows)) [
      | inl clash ↦
          rw clash record { low = ids_below-suc s.next_id s.rows x.low; single = x.single }
      | inr free ↦ rw free record {
        low = ground (arith, ids_below-suc s.next_id s.rows, x.low);
        single = λ key. insert_single r s.next_id key s.rows free (x.single key);
      }
    ]

interrupt-IsSound :
    (p : Run → Bool) (code by : Text) (now : ℕ) (s : Table)
    → IsSound s
    → IsSound (update p (interrupt code by now) s)
unfolding interrupt
interrupt-IsSound p code by now s x =
    update-IsSound p (interrupt code by now) s (λ r. refl) (λ key r hit h. cc) x

IsSound-Step : (s t : Table) → Step s t → IsSound s → IsSound t
unfolding consume_retry_requests satisfy finish_run heartbeat request_cancel recover_stale_runs
    reap_timeout_runs
IsSound-Step _ _ (Step.started s stage source count key timeout attempt now) x =
    insert-IsSound (new_run stage source count key timeout attempt now) s x
IsSound-Step _ _ (Step.consumed s stage run_id now) x =
    update-IsSound _ (satisfy run_id now) s (λ r. refl) (λ key r hit h. h) x
IsSound-Step _ _ (Step.requested s override original stage source count by attempt now) x =
    insert-IsSound (request_row override original stage source count by attempt now) s x
IsSound-Step _ _ (Step.finished s run_id status count details code now) x =
    update-IsSound _ _ s (λ r. refl) (λ key r hit h. ground (arith, hit, h)) x
IsSound-Step _ _ (Step.beaten s run_id phase current total now) x =
    update-IsSound _ _ s (λ r. refl) (λ key r hit h. h) x
IsSound-Step _ _ (Step.cancelled s run_id now) x =
    update-IsSound _ _ s (λ r. refl) (λ key r hit h. cc) x
IsSound-Step _ _ (Step.recovered s timeout now) x = interrupt-IsSound _ _ _ now s x
IsSound-Step _ _ (Step.reaped s timeout now) x = interrupt-IsSound _ _ _ now s x

pub Reaches-IsSound : (s t : Table) → Reaches s t → IsSound s → IsSound t
Reaches-IsSound s _ Reaches.here x = x
Reaches-IsSound s _ (Reaches.then t u path step) x =
    IsSound-Step t u step (Reaches-IsSound s t path x)

pub empty-IsSound : IsSound empty
empty-IsSound = record { low = refl; single = λ key. omega arith }

count-satisfy :
    (p : Run → Bool) (run_id now : ℕ) (key : Text) (rows : List Run)
    → count (runs_for key) (update_rows p (satisfy run_id now) rows) ≡ count (runs_for key) rows
unfolding update_rows satisfy
count-satisfy p run_id now key [] = refl
count-satisfy p run_id now key (r ∷ rs) = ground (arith, count-satisfy p run_id now key rs)

some_running :
    (key : Text) (rows : List Run) → any (runs_for key) rows ≡ true → 1 ≤ count (runs_for key) rows
some_running key [] h = cc
some_running key (r ∷ rs) h = ground (arith, some_running key rs)

-- At most one run of a key is running in every table that the steps lead to; `start_run` starts
-- one exactly when none is, and afterwards exactly one is.
pub one_running :
    (stage source key : Text) (symbol_count timeout now : ℕ) (s : Table)
    → Reaches empty s
    → let result = start_run stage source symbol_count (some key) timeout now s in
      (count (runs_for key) s.rows ≤ 1)
      × (is_some result.0 ≡ not (any (runs_for key) s.rows))
      × (count (runs_for key) result.1.rows ≡ 1)
unfolding running_conflict consume_retry_requests new_run
one_running stage source key symbol_count timeout now s path =
    let single = (Reaches-IsSound empty s path empty-IsSound).single key in
    elim (Bool-cases (any (runs_for key) s.rows)) [
      | inl busy ↦
          let (skipped, same) =
            start_run_busy stage source symbol_count (some key) timeout now s busy in
          let exact : count (runs_for key) s.rows ≡ 1 =
            omega (arith, single, some_running key s.rows busy) in
          (single, rw (skipped, busy) refl, rw same exact)
      | inr free ↦
          let t = with_fresh_run stage source symbol_count (some key) timeout now s in
          let kept = count-satisfy (pending_for stage) s.next_id now key t.rows in
          let none_before = none_running key s.rows free in
          let one : count (runs_for key) t.rows ≡ 1 =
            rw (list_eqb_refl key) (omega (arith, none_before)) in
          let started = start_run_free stage source symbol_count (some key) timeout now s free in
          (single, rw (started, free) refl, rw started (kept ∙ one))
    ]
