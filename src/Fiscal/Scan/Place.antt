-- ===== src/Fiscal/Scan/Place.antt =====
-- The loop without its dict: a row meets the first kept row of its key. The positions that the
-- dict remembers are those of these rows, so the loop never reads outside the list.
use fincal.Prelude.{
  ℕ, zero, suc, ◌≡◌, ◌≢◌, refl, ap, ◌∙◌, sym, inl, inr, Option, none, some, List, [], ◌∷◌, ◌++◌,
  foldl, length, get_elem?, set, if◌then◌else◌, arith, Option-cases, Bool-cases,
}
use fincal.Prelude.Interfaces.{Eq, ◌==◌, option_eq, beq_iff}
use fincal.Prelude.Dict
use fincal.Prelude.Dict.{get-put}
use fincal.Fiscal.Scan.{Choice, Scan, start, apply, step, scan}

module _ {ℓ κ} {R : Type ℓ} {K : Type κ} ⦃e : Eq K⦄ (key : R → Option K) where
  -- Where the first row of a key stands.
  unfoldable pub position_of : K → List R → Option ℕ
  position_of k [] = none
  position_of k (x ∷ xs) =
      if key x == some k
      then some 0
      else elim (position_of k xs) [ none ↦ none | some i ↦ some (suc i) ]

  position_of-append :
      (k : K) (xs : List R) (row : R)
      → position_of k (xs ++ row ∷ []) ≡ elim (position_of k xs) [
        | some i ↦ some i
        | none ↦ if key row == some k then some (length xs) else none
      ]
  unfolding position_of
  position_of-append k [] row = ground arith
  position_of-append k (x ∷ xs) row = ground (arith, position_of-append k xs row)

  -- The row at the position has the key.
  pub get_elem?-position_of :
      (k : K) (xs : List R) (i : ℕ)
      → position_of k xs ≡ some i
      → (row : R) × (get_elem? xs i ≡ some row) × (key row ≡ some k)
  unfolding position_of
  get_elem?-position_of k [] i h = cc
  get_elem?-position_of k (x ∷ xs) zero h = (x, refl, ground (arith, beq_iff (key x) (some k)))
  get_elem?-position_of k (x ∷ xs) (suc i) h = get_elem?-position_of k xs i (ground arith)

  position_of-set :
      (j : K) (xs : List R) (i : ℕ) (old row : R)
      → get_elem? xs i ≡ some old
      → key old ≡ key row
      → position_of j (set xs i row) ≡ position_of j xs
  unfolding position_of
  position_of-set j [] i old row h k = refl
  position_of-set j (x ∷ xs) zero old row h k = ground arith
  position_of-set j (x ∷ xs) (suc i) old row h k =
      ground (arith, position_of-set j xs i old row h k)

  module _ (choose : R → R → Choice) where
    -- The new row meets the first row of its key, or goes to the end.
    abbrev pub settle : Choice → R → R → List R → List R
    settle Choice.replace row x xs = row ∷ xs
    settle Choice.discard row x xs = x ∷ xs
    settle Choice.both row x xs = x ∷ xs ++ row ∷ []

    unfoldable pub place_at : K → R → List R → List R
    place_at k row [] = row ∷ []
    place_at k row (x ∷ xs) =
        if key x == some k then settle (choose row x) row x xs else x ∷ place_at k row xs

    abbrev pub place_keyed : Option K → R → List R → List R
    place_keyed none row xs = xs ++ row ∷ []
    place_keyed (some k) row xs = place_at k row xs

    unfoldable pub place : List R → R → List R
    place xs row = place_keyed (key row) row xs

    place_at-none :
        (k : K) (row : R) (xs : List R)
        → position_of k xs ≡ none
        → place_at k row xs ≡ xs ++ row ∷ []
    unfolding position_of place_at
    place_at-none k row [] h = refl
    place_at-none k row (x ∷ xs) h = ground (arith, place_at-none k row xs)

    abbrev applied : Choice → ℕ → R → List R → List R
    applied Choice.replace i row xs = set xs i row
    applied Choice.discard i row xs = xs
    applied Choice.both i row xs = xs ++ row ∷ []

    place_at-some :
        (k : K) (row old : R) (xs : List R) (i : ℕ)
        → position_of k xs ≡ some i
        → get_elem? xs i ≡ some old
        → place_at k row xs ≡ applied (choose row old) i row xs
    unfolding position_of place_at
    place_at-some k row old [] i h g = cc
    place_at-some k row old (x ∷ xs) zero h g = ground arith
    place_at-some k row old (x ∷ xs) (suc i) h g = ground (arith, place_at-some k row old xs i)

    -- The dict holds the position of the first row of each key.
    pub record IsIndexed (s : Scan R K) : Type (ℓ ⊔ κ) where
      pub index : (k : K) → Dict.get k s.positions ≡ position_of k s.kept

    -- A new key is noted with the position at which its row is appended.
    index-arrive :
        (s : Scan R K) (row : R) (k j : K)
        → IsIndexed s
        → key row ≡ some k
        → Dict.get k s.positions ≡ none
        → Dict.get j (Dict.put k (length s.kept) s.positions) ≡ position_of j (s.kept ++ row ∷ [])
    index-arrive s row k j h known miss = ground (
      arith,
      get-put k j (length s.kept) s.positions,
      position_of-append j s.kept row,
      h.index j,
      h.index k,
      beq_iff k j,
    )

    -- A row without a new key leaves every position as it is.
    index-append :
        (s : Scan R K) (row : R) (j : K)
        → IsIndexed s
        → ((key row ≡ some j) → position_of j s.kept ≢ none)
        → Dict.get j s.positions ≡ position_of j (s.kept ++ row ∷ [])
    index-append s row j h known = elim (Option-cases (position_of j s.kept)) [
      | inr (i, at) ↦ ground (arith, h.index j, position_of-append j s.kept row)
      | inl miss ↦ elim (Bool-cases (key row == some j)) [
        | inl same ↦ absurd (known ((beq_iff (key row) (some j)).0 same) miss)
        | inr other ↦ ground (arith, h.index j, position_of-append j s.kept row)
      ]
    ]

    step-none :
        (s : Scan R K) (row : R)
        → IsIndexed s
        → key row ≡ none
        → IsIndexed (step key choose s row) × ((step key choose s row).kept ≡ place s.kept row)
    unfolding step place
    step-none s row h free =
        rw free (record { index = λ j. index-append s row j h (λ p. cc) }, refl)

    step-new :
        (s : Scan R K) (row : R) (k : K)
        → IsIndexed s
        → key row ≡ some k
        → Dict.get k s.positions ≡ none
        → IsIndexed (step key choose s row) × ((step key choose s row).kept ≡ place s.kept row)
    unfolding step place
    step-new s row k h known miss =
        rw (known, miss)
          (
            record { index = λ j. index-arrive s row k j h known miss },
            sym (place_at-none k row s.kept (sym (h.index k) ∙ miss)),
          )

    -- The three outcomes of a meeting, all at a position that the dict gave.
    index-applied :
        (s : Scan R K) (row old : R) (k : K) (i : ℕ) (c : Choice)
        → IsIndexed s
        → key row ≡ some k
        → position_of k s.kept ≡ some i
        → get_elem? s.kept i ≡ some old
        → key old ≡ some k
        → IsIndexed (apply c i old row s) × ((apply c i old row s).kept ≡ applied c i row s.kept)
    index-applied s row old k i Choice.replace h known at there same = (
      record {
        index = λ j. h.index j ∙ sym (position_of-set j s.kept i old row there (same ∙ sym known));
      },
      refl,
    )
    index-applied s row old k i Choice.discard h known at there same =
        (record { index = h.index }, refl)
    index-applied s row old k i Choice.both h known at there same =
        (record { index = λ j. index-append s row j h (λ p. ground (arith, at, p, known)) }, refl)

    step-met :
        (s : Scan R K) (row : R) (k : K) (i : ℕ)
        → IsIndexed s
        → key row ≡ some k
        → Dict.get k s.positions ≡ some i
        → IsIndexed (step key choose s row) × ((step key choose s row).kept ≡ place s.kept row)
    unfolding step place
    step-met s row k i h known hit =
        let at = sym (h.index k) ∙ hit in
        let (old, there, same) = get_elem?-position_of k s.kept i at in
        let met = index-applied s row old k i (choose row old) h known at there same in
        rw (known, hit, there) (met.0, met.1 ∙ sym (place_at-some k row old s.kept i at there))

    -- One round of the loop keeps the dict right and does what `place` does.
    pub step_lem :
        (s : Scan R K) (row : R)
        → IsIndexed s
        → IsIndexed (step key choose s row) × ((step key choose s row).kept ≡ place s.kept row)
    step_lem s row h = elim (Option-cases (key row)) [
      | inl free ↦ step-none s row h free
      | inr (k, known) ↦ elim (Option-cases (Dict.get k s.positions)) [
        | inl miss ↦ step-new s row k h known miss
        | inr (i, hit) ↦ step-met s row k i h known hit
      ]
    ]

    steps_lem :
        (rows : List R) (s : Scan R K)
        → IsIndexed s
        → (foldl (step key choose) s rows).kept ≡ foldl place s.kept rows
    steps_lem [] s h = refl
    steps_lem (row ∷ rows) s h =
        let done = step_lem s row h in
        steps_lem rows (step key choose s row) done.0 ∙ ap (λ xs. foldl place xs rows) done.1

    -- The loop with its dict keeps what the loop without it keeps.
    pub scan-eq-place : (rows : List R) → (scan key choose rows).kept ≡ foldl place [] rows
    unfolding scan Dict.get position_of
    scan-eq-place rows = steps_lem rows start (record { index = λ k. refl })
