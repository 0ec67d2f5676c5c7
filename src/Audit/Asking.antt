-- ===== src/Audit/Asking.antt =====
-- app/sync_audit.py: what a request of a retry leaves alone.
use fincal.Prelude.{
  ℕ, suc, ◌≡◌, ◌≢◌, refl, sym, ap, ◌∙◌, true, false, Option, none, some, List, ◌∷◌, not, arith, inl,
  inr, Bool-cases, is_some,
}
use fincal.Prelude.Interfaces.{◌==◌, beq_iff, nat_eq, list_eq, option_eq, list_eqb_refl}
use fincal.Prelude.Text.{Text, drop}
use fincal.Prelude.Decimal.{decimal_injective}
use fincal.Prelude.Dict
use fincal.Prelude.Dict.{get-put, get-put_self}
use fincal.Audit.{Run, Table, running_conflict, insert_run, is_running, max_attempt}
use fincal.Audit.Retry.{
  satisfied_by_run, is_request, is_satisfied, last_request, request_row, request_retry, start_run,
  retry_request_key, blocks, retry_requested,
}
use fincal.Audit.Start.{start_run_busy, start_run_free}

-- The keys of the requests tell the runs apart.
retry_request_key-apart : (m n : ℕ) → m ≢ n → (retry_request_key m == retry_request_key n) ≡ false
unfolding retry_request_key
retry_request_key-apart m n apart = elim (Bool-cases (retry_request_key m == retry_request_key n)) [
  | inr other ↦ other
  | inl same ↦
      let equal = (beq_iff (retry_request_key m) (retry_request_key n)).0 same in
      absurd (apart (decimal_injective m n (ap (drop 14) equal)))
]

skipped-conflict :
    (row : Run) (rows : List Run) (key : Option Text)
    → is_running row.status ≡ false
    → running_conflict key (row ∷ rows) ≡ running_conflict key rows
unfolding running_conflict
skipped-conflict row rows none idle = refl
skipped-conflict row rows (some key) idle = ground (arith, idle)

-- The answer of `start_run` depends on the rows that conflict, and on nothing else.
start_run-answer :
    (stage source : Text) (symbol_count : ℕ) (key : Option Text) (timeout now : ℕ) (s : Table)
    → is_some (start_run stage source symbol_count key timeout now s).0
      ≡ not (running_conflict key s.rows)
start_run-answer stage source symbol_count key timeout now s =
    elim (Bool-cases (running_conflict key s.rows)) [
      | inl busy ↦
          rw (busy, (start_run_busy stage source symbol_count key timeout now s busy).0) refl
      | inr free ↦ rw (free, start_run_free stage source symbol_count key timeout now s free) refl
    ]

module _ (override : Text → Option ℕ) (original : ℕ) (stage source : Text) (symbol_count : ℕ)
    (by : Option Text) (now : ℕ) (s : Table) where
  new_request : Run
  new_request =
      record (request_row override original stage source symbol_count by
        (suc (max_attempt (retry_request_key original) s.rows)) now) { id = s.next_id }

  -- What `request_retry` does when it is not refused.
  request_retry_accepted :
      (q : ℕ)
      → (request_retry override original stage source symbol_count by now s).0 ≡ some q
      → request_retry override original stage source symbol_count by now s
        ≡ (some s.next_id, record { rows = new_request ∷ s.rows; next_id = suc s.next_id })
  unfolding request_retry insert_run new_request request_row
  request_retry_accepted q asked =
      elim (Bool-cases (blocks (last_request (retry_request_key original) s.rows))) [
        | inl refused ↦ cc (rw refused at asked)
        | inr free ↦ rw free refl
      ]

  new_request-last :
      last_request (retry_request_key original) (new_request ∷ s.rows) ≡ some new_request
  unfolding last_request new_request request_row is_request
  new_request-last =
      rw (list_eqb_refl (retry_request_key original), list_eqb_refl retry_requested) refl

  new_request-skipped : is_running new_request.status ≡ false
  unfolding new_request request_row
  new_request-skipped = refl

  new_request-blocks : blocks (some new_request) ≡ true
  unfolding new_request request_row is_satisfied satisfied_by_run Dict.get
  new_request-blocks = refl

  request_retry_refused :
      (later : ℕ) (t : Table)
      → blocks (last_request (retry_request_key original) t.rows) ≡ true
      → (request_retry override original stage source symbol_count by later t).0 ≡ none
  unfolding request_retry
  request_retry_refused later t refused = rw refused refl

  new_request-other :
      (key : Text)
      → (retry_request_key original == key) ≡ false
      → last_request key (new_request ∷ s.rows) ≡ last_request key s.rows
  unfolding last_request new_request request_row
  new_request-other key other = rw other refl

  request_retry-answer :
      (other later : ℕ) (t : Table)
      → is_some (request_retry override other stage source symbol_count by later t).0
        ≡ not (blocks (last_request (retry_request_key other) t.rows))
  unfolding request_retry insert_run request_row
  request_retry-answer other later t =
      elim (Bool-cases (blocks (last_request (retry_request_key other) t.rows))) [
        | inl refused ↦ rw (refused) refl
        | inr free ↦ rw (free) refl
      ]

  -- A request that is accepted keeps no run from starting, under any key; while it is pending the
  -- same run cannot be asked for again, and any other run can be as before.
  pub request_retry-harmless :
      (q : ℕ) (stage_2 source_2 : Text) (count_2 : ℕ) (key : Option Text) (timeout later other : ℕ)
      → other ≢ original
      → (request_retry override original stage source symbol_count by now s).0 ≡ some q
      → let t = (request_retry override original stage source symbol_count by now s).1 in
        (is_some (start_run stage_2 source_2 count_2 key timeout later t).0
          ≡ is_some (start_run stage_2 source_2 count_2 key timeout later s).0)
        × ((request_retry override original stage source symbol_count by later t).0 ≡ none)
        × (is_some (request_retry override other stage source symbol_count by later t).0
            ≡ is_some (request_retry override other stage source symbol_count by later s).0)
  request_retry-harmless q stage_2 source_2 count_2 key timeout later other apart asked =
      let rows = new_request ∷ s.rows in
      let t : Table = record { rows = rows; next_id = suc s.next_id } in
      let answer = start_run-answer stage_2 source_2 count_2 key timeout later in
      let last = ap blocks new_request-last ∙ new_request-blocks in
      rw (request_retry_accepted q asked) (
        answer t
            ∙ ap not (skipped-conflict new_request s.rows key new_request-skipped)
            ∙ sym (answer s),
        request_retry_refused later t last,
        request_retry-answer other later t
            ∙ ap (λ o. not (blocks o))
                (new_request-other (retry_request_key other)
                  (retry_request_key-apart original other (λ e. apart (sym e))))
            ∙ sym (request_retry-answer other later s),
      )
