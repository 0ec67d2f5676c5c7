-- ===== src/Audit/Rows.antt =====
-- What an UPDATE and an INSERT do to the rows of app/sync_audit.py.
use fincal.Prelude.{
  ℕ, suc, ◌≤◌, ◌≡◌, refl, sym, ap, ◌∙◌, Bool, true, false, Option, none, some, List, [], ◌∷◌, eqb,
  if◌then◌else◌, any, all, count, arith, inl, inr, Bool-cases, eqb_iff, ltb,
}
use fincal.Prelude.Interfaces.{nat_eq, list_eq, option_eq}
use fincal.Prelude.Text.{Text}
use fincal.Audit.{Run, update_rows, row_of, runs_for}

-- An assignment that keeps the id of a row.
abbrev pub KeepsId : (Run → Run) → Type 0
KeepsId f = (r : Run) → (f r).id ≡ r.id

-- A conditional assignment after which a row runs for a key only if it did before.
abbrev pub StartsNone : (Run → Bool) → (Run → Run) → Type 0
StartsNone p f =
    (key : Text) (r : Run) → p r ≡ true → runs_for key (f r) ≡ true → runs_for key r ≡ true

abbrev pub updated : (Run → Bool) → (Run → Run) → Option Run → Option Run
updated p f none = none
updated p f (some r) = some (if p r then f r else r)

row_of_nil : (i : ℕ) → row_of i [] ≡ none
unfolding row_of
row_of_nil i = refl

pub row_of_hit : (i : ℕ) (r : Run) (rs : List Run) → eqb r.id i ≡ true → row_of i (r ∷ rs) ≡ some r
unfolding row_of
row_of_hit i r rs h = rw h refl

pub row_of_miss :
    (i : ℕ) (r : Run) (rs : List Run) → eqb r.id i ≡ false → row_of i (r ∷ rs) ≡ row_of i rs
unfolding row_of
row_of_miss i r rs h = rw h refl

KeepsId-if :
    (p : Run → Bool) (f : Run → Run) (r : Run) → KeepsId f → (if p r then f r else r).id ≡ r.id
KeepsId-if p f r k = elim (Bool-cases (p r)) [ inl h ↦ rw h (k r) | inr h ↦ rw h refl ]

pub row_of-update :
    (p : Run → Bool) (f : Run → Run) (i : ℕ) (rows : List Run)
    → KeepsId f
    → row_of i (update_rows p f rows) ≡ updated p f (row_of i rows)
unfolding update_rows
row_of-update p f i [] k = rw (row_of_nil i) refl
row_of-update p f i (r ∷ rs) k =
    let new = if p r then f r else r in
    let at = ap (λ n. eqb n i) (KeepsId-if p f r k) in
    elim (Bool-cases (eqb r.id i)) [
      | inl same ↦
          row_of_hit i new (update_rows p f rs) (at ∙ same)
          ∙ sym (ap (updated p f) (row_of_hit i r rs same))
      | inr other ↦
          row_of_miss i new (update_rows p f rs) (at ∙ other)
          ∙ row_of-update p f i rs k
          ∙ sym (ap (updated p f) (row_of_miss i r rs other))
    ]

pub count-update_le :
    (p : Run → Bool) (f : Run → Run) (key : Text) (rows : List Run)
    → StartsNone p f
    → count (runs_for key) (update_rows p f rows) ≤ count (runs_for key) rows
unfolding update_rows
count-update_le p f key [] k = omega arith
count-update_le p f key (r ∷ rs) k = ground (arith, k key r, count-update_le p f key rs k)

-- All ids of the rows are below a number.
abbrev pub ids_below : ℕ → List Run → Bool
ids_below n = all (λ (r : Run). ltb r.id n)

pub ids_below-update :
    (p : Run → Bool) (f : Run → Run) (n : ℕ) (rows : List Run)
    → KeepsId f
    → ids_below n rows ≡ true
    → ids_below n (update_rows p f rows) ≡ true
unfolding update_rows
ids_below-update p f n [] k h = refl
ids_below-update p f n (r ∷ rs) k h = ground (arith, k r, ids_below-update p f n rs k)

pub ids_below-suc :
    (n : ℕ) (rows : List Run) → ids_below n rows ≡ true → ids_below (suc n) rows ≡ true
ids_below-suc n [] h = refl
ids_below-suc n (r ∷ rs) h = ground (arith, ids_below-suc n rs)

-- An id that no row can have finds none.
pub row_of_fresh : (n : ℕ) (rows : List Run) → ids_below n rows ≡ true → row_of n rows ≡ none
unfolding row_of
row_of_fresh n [] h = refl
row_of_fresh n (r ∷ rs) h = ground (arith, row_of_fresh n rs)

pub none_running :
    (key : Text) (rows : List Run) → any (runs_for key) rows ≡ false → count (runs_for key) rows ≡ 0
none_running key [] h = refl
none_running key (r ∷ rs) h = ground (arith, none_running key rs)

-- A row that was there before an INSERT is found after it.
pub row_of_older :
    (n i : ℕ) (r row : Run) (rows : List Run)
    → ids_below n rows ≡ true
    → row_of i rows ≡ some r
    → row_of i (record row { id = n } ∷ rows) ≡ some r
row_of_older n i r row rows low found = elim (Bool-cases (eqb n i)) [
  | inr other ↦ row_of_miss i (record row { id = n }) rows other ∙ found
  | inl same ↦
      let at_i = ap (λ m. row_of m rows) (sym ((eqb_iff n i).0 same)) in
      let clash : Path (Option Run) none (some r) =
        sym (row_of_fresh n rows low) ∙ sym at_i ∙ found in
      cc
]
