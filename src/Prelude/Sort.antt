-- ===== src/Prelude/Sort.antt =====
-- Python's `sorted(xs, key=key)`: a stable sort by keys.
use fincal.Prelude.Interfaces.{Order, ◌<?◌, lt_asymm}
use fincal.Prelude.Tests.{if◌then◌else◌}
use fincal.Prelude.Lists.{count}
use Prim.Native.Nat.{◌+◌}
use mathlib.Core.Path.{◌≡◌, refl}
use mathlib.Core.Bool.{Bool, true, false}
use mathlib.Core.Logic.{◌⊎◌, ◌↔◌, inl, inr}
use mathlib.Core.List.Memᴰ
use mathlib.Core.List.{List, [], ◌∷◌, foldl, Memᴰ}
use native.Mathlib.Omega.{arith}

module _ {ℓ κ} {A : Type ℓ} {B : Type κ} ⦃o : Order B⦄ (key : A → B) where
  -- Behind every element whose key is not greater.
  unfoldable pub insert : List A → A → List A
  insert [] x = x ∷ []
  insert (y ∷ ys) x = if key x <? key y then x ∷ y ∷ ys else y ∷ insert ys x

  unfoldable pub sorted : List A → List A
  unfolding insert
  sorted xs = foldl insert [] xs

  -- No element stands before one with a smaller key.
  abbrev pub IsSorted : List A → Type 0
  IsSorted [] = Unit
  IsSorted (x ∷ []) = Unit
  IsSorted (x ∷ y ∷ ys) = ((key y <? key x) ≡ false) × IsSorted (y ∷ ys)

  insert-IsSorted : (xs : List A) (x : A) → IsSorted xs → IsSorted (insert xs x)
  unfolding insert
  insert-IsSorted [] x s = tt
  insert-IsSorted (y ∷ []) x s = ground (arith, lt_asymm (key x) (key y))
  insert-IsSorted (y ∷ z ∷ zs) x s =
      ground (arith, lt_asymm (key x) (key y), insert-IsSorted (z ∷ zs) x s.1)

  foldl-IsSorted : (xs ys : List A) → IsSorted ys → IsSorted (foldl insert ys xs)
  foldl-IsSorted [] ys s = s
  foldl-IsSorted (x ∷ xs) ys s = foldl-IsSorted xs (insert ys x) (insert-IsSorted ys x s)

  pub sorted-IsSorted : (xs : List A) → IsSorted (sorted xs)
  unfolding sorted
  sorted-IsSorted xs = foldl-IsSorted xs [] tt

  count-insert :
      (p : A → Bool) (xs : List A) (x : A) → count p (insert xs x) ≡ count p xs + count p (x ∷ [])
  unfolding insert
  count-insert p [] x = omega arith
  count-insert p (y ∷ ys) x = ground (arith, count-insert p ys x)

  count-foldl :
      (p : A → Bool) (xs ys : List A) → count p (foldl insert ys xs) ≡ count p ys + count p xs
  count-foldl p [] ys = omega arith
  count-foldl p (x ∷ xs) ys = ground (arith, count-insert p ys x, count-foldl p xs (insert ys x))

  -- Sorting keeps how often anything occurs.
  pub count-sorted : (p : A → Bool) (xs : List A) → count p (sorted xs) ≡ count p xs
  unfolding sorted
  count-sorted p xs = omega (arith, count-foldl p xs [])

  insert-mem_new : (xs : List A) (x : A) → Memᴰ x (insert xs x)
  unfolding insert
  insert-mem_new [] x = Memᴰ.head refl
  insert-mem_new (y ∷ ys) x =
      elim (key x <? key y) as (λ b. Memᴰ x (if b then x ∷ y ∷ ys else y ∷ insert ys x)) [
        | true ↦ Memᴰ.head refl
        | false ↦ Memᴰ.tail (insert-mem_new ys x)
      ]

  insert-mem_old : (xs : List A) (x z : A) → Memᴰ z xs → Memᴰ z (insert xs x)
  unfolding insert
  insert-mem_old [] x z m = elim m [ ]
  insert-mem_old (y ∷ ys) x z (Memᴰ.head p) =
      elim (key x <? key y) as (λ b. Memᴰ z (if b then x ∷ y ∷ ys else y ∷ insert ys x)) [
        | true ↦ Memᴰ.tail (Memᴰ.head p)
        | false ↦ Memᴰ.head p
      ]
  insert-mem_old (y ∷ ys) x z (Memᴰ.tail m) =
      let rec = insert-mem_old ys x z m in
      elim (key x <? key y) as (λ b. Memᴰ z (if b then x ∷ y ∷ ys else y ∷ insert ys x)) [
        | true ↦ Memᴰ.tail (Memᴰ.tail m)
        | false ↦ Memᴰ.tail rec
      ]

  insert-mem : (xs : List A) (x z : A) → Memᴰ z (insert xs x) → Memᴰ z xs ⊎ (z ≡ x)
  unfolding insert
  insert-mem [] x z m = inr (Memᴰ.eq_of_singleton m)
  insert-mem (y ∷ ys) x z m =
      let rec = insert-mem ys x z in
      (elim (key x <? key y)
          as (λ b. Memᴰ z (if b then x ∷ y ∷ ys else y ∷ insert ys x) → Memᴰ z (y ∷ ys) ⊎ (z ≡ x)) [
            | true ↦ λ n. elim (Memᴰ.cases_cons n) [ inl p ↦ inr p | inr q ↦ inl q ]
            | false ↦ λ n. elim (Memᴰ.cases_cons n) [
              | inl p ↦ inl (Memᴰ.head p)
              | inr q ↦ elim (rec q) [ inl old ↦ inl (Memᴰ.tail old) | inr new ↦ inr new ]
            ]
          ])
        m

  sorted_from-mem : (xs ys : List A) (z : A) → Memᴰ z (foldl insert ys xs) → Memᴰ z ys ⊎ Memᴰ z xs
  sorted_from-mem [] ys z m = inl m
  sorted_from-mem (x ∷ xs) ys z m = elim (sorted_from-mem xs (insert ys x) z m) [
    | inr later ↦ inr (Memᴰ.tail later)
    | inl here ↦ elim (insert-mem ys x z here) [ inl old ↦ inl old | inr p ↦ inr (Memᴰ.head p) ]
  ]

  mem-sorted_from : (xs ys : List A) (z : A) → Memᴰ z ys ⊎ Memᴰ z xs → Memᴰ z (foldl insert ys xs)
  mem-sorted_from [] ys z (inl m) = m
  mem-sorted_from [] ys z (inr m) = elim m [ ]
  mem-sorted_from (x ∷ xs) ys z (inl m) =
      mem-sorted_from xs (insert ys x) z (inl (insert-mem_old ys x z m))
  mem-sorted_from (x ∷ xs) ys z (inr (Memᴰ.head p)) =
      mem-sorted_from xs (insert ys x) z (inl (rw p (insert-mem_new ys x)))
  mem-sorted_from (x ∷ xs) ys z (inr (Memᴰ.tail m)) = mem-sorted_from xs (insert ys x) z (inr m)

  -- Sorting neither adds nor drops an element.
  pub sorted-mem : (xs : List A) (z : A) → Memᴰ z (sorted xs) ↔ Memᴰ z xs
  unfolding sorted
  sorted-mem xs z = (
    λ m. elim (sorted_from-mem xs [] z m) [ inl n ↦ absurd (Memᴰ.not-nil n) | inr h ↦ h ],
    λ m. mem-sorted_from xs [] z (inr m),
  )
