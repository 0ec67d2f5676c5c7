-- ===== src/Fiscal/Scan/Winners.antt =====
-- What the loop keeps when a meeting keeps the better of two rows: one row for each key, and none
-- of the rows of its key is better.
use mathlib.Core.List.Memᴰ
use mathlib.Core.List.{Memᴰ}
use fincal.Prelude.{
  ◌≡◌, refl, ◌∙◌, sym, Bool, true, false, inl, inr, Option, some, List, [], ◌∷◌, foldl,
  if◌then◌else◌, arith, Option-cases, Bool-cases,
}
use fincal.Prelude.Interfaces.{Eq, ◌==◌, option_eq, beq_iff}
use fincal.Fiscal.Scan.{Choice}
use fincal.Fiscal.Scan.Place.{place, place_at}

-- `better` is a strict order in which "not better" is transitive.
pub record IsRanking {ℓ} {R : Type ℓ} (better : R → R → Bool) : Type ℓ where
  pub asymm : (a b : R) → better a b ≡ true → better b a ≡ false
  pub not_trans : (a b c : R) → better a b ≡ false → better b c ≡ false → better a c ≡ false

abbrev pub keep_better {ℓ} : {R : Type ℓ} → (R → R → Bool) → R → R → Choice
keep_better better row incumbent = if better row incumbent then Choice.replace else Choice.discard

pub IsRanking-irrefl {ℓ} :
    {R : Type ℓ} (better : R → R → Bool) → IsRanking better → (a : R) → better a a ≡ false
IsRanking-irrefl better r a = ground (arith, r.asymm a a)

module _ {ℓ κ} {R : Type ℓ} {K : Type κ} ⦃e : Eq K⦄ (key : R → Option K)
    (better : R → R → Bool) where
  abbrev pub winners_from : List R → List R → List R
  winners_from = foldl (place key (keep_better better))

  -- Every row of the list still has a row of its key that it does not beat.
  abbrev pub Rival : (k : K) → R → List R → Type (ℓ ⊔ κ)
  Rival k x xs = (w : R) × Memᴰ w xs × (key w ≡ some k) × (better x w ≡ false)

  module _ (r : IsRanking better) where
    place_at-Rival :
        (k j : K) (row : R) (xs : List R) (x : R)
        → key row ≡ some k
        → Memᴰ x xs
        → key x ≡ some j
        → Rival j x (place_at key (keep_better better) k row xs)
    unfolding place_at
    place_at-Rival k j row [] x h m kx = elim m [ ]
    place_at-Rival k j row (y ∷ xs) x h (Memᴰ.head p) kx = elim (Bool-cases (key y == some k)) [
      | inr other ↦ (y, rw other (Memᴰ.head refl), rw p at kx, rw p (IsRanking-irrefl better r y))
      | inl same ↦ elim (Bool-cases (better row y)) [
        | inr loses ↦
            (y, rw (same, loses) (Memᴰ.head refl), rw p at kx, rw p (IsRanking-irrefl better r y))
        | inl wins ↦ (
          row,
          rw (same, wins) (Memᴰ.head refl),
          h ∙ sym ((beq_iff (key y) (some k)).0 same) ∙ (rw p at kx),
          rw p (r.asymm row y wins),
        )
      ]
    ]
    place_at-Rival k j row (y ∷ xs) x h (Memᴰ.tail n) kx = elim (Bool-cases (key y == some k)) [
      | inr other ↦
          let (w, m, kw, b) = place_at-Rival k j row xs x h n kx in
          (w, rw other (Memᴰ.tail m), kw, b)
      | inl same ↦ elim (Bool-cases (better row y)) [
        | inr loses ↦ (x, rw (same, loses) (Memᴰ.tail n), kx, IsRanking-irrefl better r x)
        | inl wins ↦ (x, rw (same, wins) (Memᴰ.tail n), kx, IsRanking-irrefl better r x)
      ]
    ]

    place_at-Rival_self :
        (k : K) (row : R) (xs : List R)
        → key row ≡ some k
        → Rival k row (place_at key (keep_better better) k row xs)
    unfolding place_at
    place_at-Rival_self k row [] h = (row, Memᴰ.head refl, h, IsRanking-irrefl better r row)
    place_at-Rival_self k row (y ∷ xs) h = elim (Bool-cases (key y == some k)) [
      | inl same ↦ elim (Bool-cases (better row y)) [
        | inl wins ↦ (row, rw (same, wins) (Memᴰ.head refl), h, IsRanking-irrefl better r row)
        | inr loses ↦
            (y, rw (same, loses) (Memᴰ.head refl), (beq_iff (key y) (some k)).0 same, loses)
      ]
      | inr other ↦
          let (w, m, kw, b) = place_at-Rival_self k row xs h in (w, rw other (Memᴰ.tail m), kw, b)
    ]

  module _ (r : IsRanking better) where
    place-Rival :
        (k : K) (row : R) (xs : List R) (x : R)
        → Memᴰ x xs
        → key x ≡ some k
        → Rival k x (place key (keep_better better) xs row)
    unfolding place
    place-Rival k row xs x m kx = elim (Option-cases (key row)) [
      | inl free ↦ (x, rw free (Memᴰ.append_left (row ∷ []) m), kx, IsRanking-irrefl better r x)
      | inr (j, known) ↦ rw known (place_at-Rival r j k row xs x known m kx)
    ]

    place-Rival_self :
        (k : K) (row : R) (xs : List R)
        → key row ≡ some k
        → Rival k row (place key (keep_better better) xs row)
    unfolding place
    place-Rival_self k row xs known = rw known (place_at-Rival_self r k row xs known)

    -- A rival of a kept row is met later by one that is at least as good.
    Rival-through :
        (k : K) (rows xs : List R) (x : R) → Rival k x xs → Rival k x (winners_from xs rows)
    Rival-through k [] xs x rival = rival
    Rival-through k (row ∷ rows) xs x (w, m, kw, b) =
        let (w', m', kw', b') = place-Rival k row xs w m kw in
        Rival-through k rows (place key (keep_better better) xs row) x
          (w', m', kw', r.not_trans x w w' b b')

    -- Every row that came in finds a kept row of its key that it does not beat.
    pub winners_from-Rival :
        (k : K) (rows xs : List R) (x : R)
        → Memᴰ x rows
        → key x ≡ some k
        → Rival k x (winners_from xs rows)
    winners_from-Rival k [] xs x m kx = elim m [ ]
    winners_from-Rival k (row ∷ rows) xs x (Memᴰ.head p) kx =
        Rival-through k rows (place key (keep_better better) xs row) x
          (rw p (place-Rival_self k row xs (rw p at kx)))
    winners_from-Rival k (row ∷ rows) xs x (Memᴰ.tail m) kx =
        winners_from-Rival k rows (place key (keep_better better) xs row) x m kx
