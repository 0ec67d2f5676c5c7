-- ===== src/Audit/Start.antt =====
-- The two courses of `start_run` of app/sync_audit.py, and its place among the steps.
use fincal.Prelude.{ℕ, suc, ◌≡◌, refl, true, false, Option, none, some, ◌∷◌, inl, inr, Bool-cases}
use fincal.Prelude.Text.{Text}
use fincal.Audit.{Run, Table, running_conflict, insert_run, truthy}
use fincal.Audit.Retry.{consume_retry_requests, new_run, next_attempt, start_run, then_consume}
use fincal.Audit.Steps.{Step, Reaches}

module _ (stage source : Text) (symbol_count : ℕ) (key : Option Text) (timeout now : ℕ)
    (s : Table) where
  abbrev pub fresh_run : Run
  fresh_run = record (new_run stage source symbol_count key timeout (next_attempt key s.rows) now) {
    id = s.next_id;
  }

  abbrev pub with_fresh_run : Table
  with_fresh_run = record { rows = fresh_run ∷ s.rows; next_id = suc s.next_id }

  pub start_run_busy :
      running_conflict key s.rows ≡ true
      → let result = start_run stage source symbol_count key timeout now s in
        (result.0 ≡ none) × (result.1.rows ≡ s.rows)
  unfolding start_run insert_run then_consume new_run
  start_run_busy busy = elim (Bool-cases (truthy key)) [
    | inl t ↦ rw (t, busy) (refl, refl)
    | inr f ↦ rw (f, busy) (refl, refl)
  ]

  pub start_run_free :
      running_conflict key s.rows ≡ false
      → start_run stage source symbol_count key timeout now s
        ≡ (some s.next_id, (consume_retry_requests stage s.next_id now with_fresh_run).1)
  unfolding start_run insert_run then_consume new_run
  start_run_free free = elim (Bool-cases (truthy key)) [
    | inl t ↦ rw (t, free) refl
    | inr f ↦ rw (f, free) refl
  ]

  -- A call of `start_run` is some of the steps.
  pub start_run-Reaches :
      (r : Table)
      → Reaches r s
      → Reaches r (start_run stage source symbol_count key timeout now s).1
  unfolding start_run insert_run then_consume new_run
  start_run-Reaches r path =
      let attempt = next_attempt key s.rows in
      let inserted = insert_run (new_run stage source symbol_count key timeout attempt now) s in
      let first : Reaches r inserted.1 =
        Reaches.then s inserted.1 path
          (Step.started s stage source symbol_count key timeout attempt now) in
      elim (Bool-cases (running_conflict key s.rows)) [
        | inl busy ↦ elim (Bool-cases (truthy key)) [
          | inl t ↦ rw (t, busy) path
          | inr f ↦ rw (f, busy) (rw busy at first)
        ]
        | inr free ↦
            let t = with_fresh_run in
            let both =
              Reaches.then t (consume_retry_requests stage s.next_id now t).1 (rw free at first)
                (Step.consumed t stage s.next_id now) in
            rw (start_run_free free) both
      ]
