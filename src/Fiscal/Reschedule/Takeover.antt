-- ===== src/Fiscal/Reschedule/Takeover.antt =====
-- The variable `takeover` in the loop of `reschedule_confirmed_rows` in app/fiscal.py.
use fincal.Prelude.{
  ℕ, zero, suc, ◌≡◌, refl, ap, ◌∙◌, Bool, false, Option, none, some, List, [], ◌∷◌, ◌++◌, ◌&&◌,
  ◌||◌, not, any, arith, inl, inr, Bool-cases, if◌then◌else◌, any-append,
}
use fincal.Prelude.Interfaces.{◌==◌, nat_eq, list_eq, option_eq, pair_eq}
use fincal.Prelude.Int.{ℤ, int_eq}
use fincal.Calendar.{Date, date_eq}
use fincal.Fiscal.Row.{Row}
use fincal.Fiscal.Identity.{FiscalKey, is_disclosure}
use fincal.Fiscal.Reschedule.{
  Entry, State, Reason, write, redate, take_over, delete_stale_prediction, settle, keep_date,
  change_date, move_to, apply_entry, with_date, in_group, cell_date, reschedule, confirmed, best,
  prediction_of_period, target_holder, align, date_of,
}

-- Whether one of the moves is a takeover.
abbrev pub takes_over : State → Bool
takes_over s = any (λ (m : Option ℤ × Bool). m.1) s.outcome.moves

-- The variable is false, and the moves have as many takeovers as before, none or some.
record IsLost (before : Bool) (s : State) : Type 0 where
  off : s.takeover ≡ false
  same : takes_over s ≡ before

or_false : (b : Bool) → (b || (false || false)) ≡ b
or_false b = ground arith

settle-IsLost :
    (key : FiscalKey) (winner : Row) (reason : Reason) (written : Option (ℕ × List Row))
    (table : List Row) (s : State) (b : Bool)
    → IsLost b s
    → IsLost b (settle key winner reason written table s)
settle-IsLost key winner reason none table s b x = record { off = x.off; same = x.same }
settle-IsLost key winner reason (some (zero, new)) table s b x = record {
  off = x.off;
  same = x.same;
}
settle-IsLost key winner reason (some (suc n, new)) table s b x = record {
  off = x.off;
  same =
      any-append (λ (m : Option ℤ × Bool). m.1) s.outcome.moves ((winner.id, s.takeover) ∷ [])
      ∙ rw x.off (or_false (takes_over s) ∙ x.same);
}

change-IsLost :
    (key : FiscalKey) (entry : Entry) (winner : Row) (d : Date) (table before : List Row)
    (s : State) (b : Bool)
    → IsLost b s
    → IsLost b (change_date key entry winner d table before s)
change-IsLost key entry winner d table before s b x =
    settle-IsLost key winner Reason.unique_violation
      (write (λ r. r.id == winner.id && date_of r == date_of winner)
        (λ r. redate d (if s.takeover then take_over entry r else r)) table)
      before s b x

move-IsLost :
    (key : FiscalKey) (entry : Entry) (winner : Row) (d : Date) (holder : Option Row) (s : State)
    (b : Bool)
    → IsLost b s
    → IsLost b (move_to key entry winner d holder s)
move-IsLost key entry winner d none s b x = change-IsLost key entry winner d s.table s.table s b x
move-IsLost key entry winner d (some holder) s b x =
    elim (Bool-cases (prediction_of_period holder key)) [
      | inl own ↦
          let cleared : State = record s {
            outcome = record s.outcome {
              predictions_cleared = s.outcome.predictions_cleared ++ holder.id ∷ [];
            };
          } in
          rw own (
            change-IsLost key entry winner d (delete_stale_prediction holder key s.table) s.table
              cleared b (record { off = x.off; same = x.same }))
      | inr other ↦ rw other record { off = x.off; same = x.same }
    ]

-- The part of a round that follows the assignment.
abbrev rest_of_round : FiscalKey → Entry → Row → Date → State → State
rest_of_round key entry winner d t =
    if date_of winner == some d
    then keep_date key entry winner t
    else move_to key entry winner d (target_holder key d entry.report_type t.table) t

rest-IsLost :
    (key : FiscalKey) (entry : Entry) (winner : Row) (d : Date) (t : State) (b : Bool)
    → IsLost b t
    → IsLost b (rest_of_round key entry winner d t)
rest-IsLost key entry winner d t b x = elim (Bool-cases (date_of winner == some d)) [
  | inl same ↦ rw (same, x.off) record { off = refl; same = x.same }
  | inr other ↦
      rw other
        (move-IsLost key entry winner d (target_holder key d entry.report_type t.table) t b x)
]

-- A round that starts with the variable false, or sets it so.
apply-IsLost :
    (key : FiscalKey) (entry : Entry) (winner : Row) (d : Date) (s : State)
    → (s.takeover
        && not (is_disclosure (some entry.report_type))
        && is_disclosure winner.report_type)
      ≡ false
    → IsLost (takes_over s) (apply_entry key entry winner d s)
unfolding apply_entry
apply-IsLost key entry winner d s off =
    let t : State = record s {
      takeover =
          s.takeover
          && not (is_disclosure (some entry.report_type))
          && is_disclosure winner.report_type;
    } in
    rest-IsLost key entry winner d t (takes_over s) (record { off = off; same = refl })

apply-keeps_IsLost :
    (key : FiscalKey) (entry : Entry) (winner : Row) (d : Date) (s : State) (b : Bool)
    → IsLost b s
    → IsLost b (apply_entry key entry winner d s)
apply-keeps_IsLost key entry winner d s b x =
    let off =
      ap
        (λ t. t && not (is_disclosure (some entry.report_type)) && is_disclosure winner.report_type)
        x.off in
    let y = apply-IsLost key entry winner d s off in record { off = y.off; same = y.same ∙ x.same }

dated-IsLost :
    (key : FiscalKey) (entry : Entry) (winner : Row) (d : Option Date) (s : State) (b : Bool)
    → IsLost b s
    → IsLost b (with_date key entry winner d s)
dated-IsLost key entry winner none s b x = x
dated-IsLost key entry winner (some d) s b x =
    elim (Bool-cases
      (is_disclosure (some entry.report_type) && not (is_disclosure winner.report_type))) [
        | inl drops ↦ rw drops record { off = x.off; same = x.same }
        | inr stays ↦ rw stays (apply-keeps_IsLost key entry winner d s b x)
      ]

group-IsLost :
    (aligned : Bool) (key : FiscalKey) (entry : Entry) (group : List Row) (s : State) (b : Bool)
    → IsLost b s
    → IsLost b (in_group aligned key entry group s)
group-IsLost aligned key entry [] s b x = x
group-IsLost aligned key entry (r ∷ rows) s b x =
    let winner = best r rows in
    let e = align aligned entry winner in dated-IsLost key e winner (cell_date e.report_date) s b x

loop-IsLost :
    (aligned : Bool) (stored : List Row) (entries : List (FiscalKey × Entry)) (s : State) (b : Bool)
    → IsLost b s
    → IsLost b (reschedule aligned stored entries s)
unfolding reschedule
loop-IsLost aligned stored [] s b x = x
loop-IsLost aligned stored ((key, entry) ∷ entries) s b x =
    loop-IsLost aligned stored entries (in_group aligned key entry (confirmed key stored) s) b
      (group-IsLost aligned key entry (confirmed key stored) s b x)

-- Once a period whose stored row is a release gets a date, no later period of the batch is taken
-- over, although the caller asked for takeovers: the moves have a takeover afterwards only if they
-- had one before that period.
pub reschedule-no_takeover :
    (stored : List Row) (key : FiscalKey) (entry : Entry) (winner : Row) (d : Date)
    (entries : List (FiscalKey × Entry)) (s : State)
    → confirmed key stored ≡ winner ∷ []
    → is_disclosure winner.report_type ≡ false
    → is_disclosure (some entry.report_type) ≡ false
    → cell_date entry.report_date ≡ some d
    → takes_over (reschedule false stored ((key, entry) ∷ entries) s) ≡ takes_over s
unfolding reschedule best
reschedule-no_takeover stored key entry winner d entries s group release incoming dated =
    let off : (s.takeover
          && not (is_disclosure (some entry.report_type))
          && is_disclosure winner.report_type)
        ≡ false =
      ground (arith, release) in
    let here = apply-IsLost key entry winner d s off in
    let first : IsLost (takes_over s) (in_group false key entry (confirmed key stored) s) =
      rw (group, dated, incoming) here in
    (loop-IsLost false stored entries (in_group false key entry (confirmed key stored) s)
      (takes_over s) first).same
