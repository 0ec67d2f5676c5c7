-- ===== src/Prelude/Dict.antt =====
-- Python's `dict` as an association list in insertion order. Assignment to a present key keeps
-- the key's place.
use fincal.Prelude.Interfaces.{Eq, ◌==◌, beq_iff}
use Prim.Native.Nat.{◌≤◌, ◌<◌}
use fincal.Prelude.Lists.{length}
use fincal.Prelude.Tests.{if◌then◌else◌}
use mathlib.Core.Path.{◌≡◌, refl}
use mathlib.Core.Option.{Option, none, some}
use mathlib.Core.List.{List, [], ◌∷◌, ◌++◌}
use native.Mathlib.Omega.{arith}

module _ {ℓ κ} {K : Type ℓ} {V : Type κ} ⦃e : Eq K⦄ where
  -- `d.get(k)`
  unfoldable pub get : K → List (K × V) → Option V
  get k [] = none
  get k ((j, v) ∷ d) = if j == k then some v else get k d

  -- `d[k] = v`
  unfoldable pub put : K → V → List (K × V) → List (K × V)
  put k v [] = (k, v) ∷ []
  put k v ((j, w) ∷ d) = if j == k then (j, v) ∷ d else (j, w) ∷ put k v d

  -- `d.pop(k, None)`
  unfoldable pub pop : K → List (K × V) → List (K × V)
  pop k [] = []
  pop k ((j, w) ∷ d) = let rest = pop k d in if j == k then rest else (j, w) ∷ rest

  pub get-put :
      (k j : K) (v : V) (d : List (K × V))
      → get j (put k v d) ≡ (if k == j then some v else get j d)
  unfolding get put
  get-put k j v [] = refl
  get-put k j v ((i, w) ∷ d) =
      ground (arith, beq_iff i k, beq_iff i j, beq_iff k j, get-put k j v d)

  pub get-pop : (k j : K) (d : List (K × V)) → get j (pop k d) ≡ (if k == j then none else get j d)
  unfolding get pop
  get-pop k j [] = ground arith
  get-pop k j ((i, w) ∷ d) = ground (arith, beq_iff i k, beq_iff i j, beq_iff k j, get-pop k j d)

  pub length-pop_le : (k : K) (d : List (K × V)) → length (pop k d) ≤ length d
  unfolding pop
  length-pop_le k [] = omega arith
  length-pop_le k ((i, w) ∷ d) = ground (arith, length-pop_le k d)

  -- Dropping a present key makes the dict shorter.
  pub length-pop_lt :
      (k : K) (v : V) (d : List (K × V)) → get k d ≡ some v → length (pop k d) < length d
  unfolding get pop
  length-pop_lt k v [] h = cc
  length-pop_lt k v ((i, w) ∷ d) h = ground (arith, length-pop_le k d, length-pop_lt k v d)

  pub get-append :
      (k : K) (d f : List (K × V))
      → get k (d ++ f) ≡ elim (get k d) [ none ↦ get k f | some v ↦ some v ]
  unfolding get
  get-append k [] f = refl
  get-append k ((i, w) ∷ d) f = ground (arith, get-append k d f)

  pub get-put_self : (k : K) (v : V) (d : List (K × V)) → get k (put k v d) ≡ some v
  get-put_self k v d = rw (get-put k k v d, e.beq_refl k)

  pub get-pop_self : (k : K) (d : List (K × V)) → get k (pop k d) ≡ none
  get-pop_self k d = rw (get-pop k k d, e.beq_refl k)

  -- A key that was popped and appended is found with its new value.
  pub get-pop-append : (k : K) (v : V) (d : List (K × V)) → get k (pop k d ++ (k, v) ∷ []) ≡ some v
  unfolding get
  get-pop-append k v d = rw (get-append k (pop k d) ((k, v) ∷ []), get-pop_self k d, e.beq_refl k)
