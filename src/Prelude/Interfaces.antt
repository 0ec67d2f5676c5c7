-- ===== src/Prelude/Interfaces.antt =====
-- Equality and order tests as interfaces, with their instances for numbers, options, pairs and
-- lists. The order of a list is Python's order of tuples and of texts.
use Prim.Native.Nat.{ℕ}
use mathlib.Core.Path.{◌≡◌, refl, sym, ap, ap₂, ◌∙◌}
use mathlib.Core.Logic.{◌↔◌, ◌≢◌, ◌⊎◌, inl, inr}
use mathlib.Core.Bool.{Bool, true, false, ◌&&◌, not, false≢true}
use mathlib.Core.Option.{Option, none, some}
use mathlib.Core.List.{List, [], ◌∷◌}
use native.Mathlib.Omega.{arith}
use fincal.Prelude.Tests.{ltb, eqb, if◌then◌else◌, and_parts, Bool-cases}

-- A Boolean test that decides equality.
pub record Eq {ℓ} (A : Type ℓ) : Type ℓ where
  pub beq : A → A → Bool
  pub beq_sound : (a b : A) → beq a b ≡ true → a ≡ b
  pub beq_refl : (a : A) → beq a a ≡ true

infix 50 ◌==◌
abbrev pub ◌==◌ {ℓ} : {A : Type ℓ} ⦃e : Eq A⦄ → A → A → Bool
◌==◌ ⦃e⦄ = e.beq

-- A strict linear order by a Boolean test.
pub record Order {ℓ} (A : Type ℓ) : Type ℓ where
  pub lt : A → A → Bool
  pub irrefl : (a : A) → lt a a ≡ false
  pub trans : (a b c : A) → lt a b ≡ true → lt b c ≡ true → lt a c ≡ true
  pub connex : (a b : A) → lt a b ≡ false → lt b a ≡ false → a ≡ b

infix 50 ◌<?◌
abbrev pub ◌<?◌ {ℓ} : {A : Type ℓ} ⦃o : Order A⦄ → A → A → Bool
◌<?◌ ⦃o⦄ = o.lt

pub eqb_sound : (a b : ℕ) → eqb a b ≡ true → a ≡ b
eqb_sound a b h = ground arith

pub eqb_refl : (a : ℕ) → eqb a a ≡ true
eqb_refl a = ground arith

instance abbrev pub nat_eq : Eq ℕ
nat_eq = record { beq = eqb; beq_sound = eqb_sound; beq_refl = eqb_refl }

abbrev pub bool_eqb : Bool → Bool → Bool
bool_eqb true b = b
bool_eqb false b = not b

pub bool_eqb_sound : (a b : Bool) → bool_eqb a b ≡ true → a ≡ b
bool_eqb_sound a b h = ground arith

pub bool_eqb_refl : (a : Bool) → bool_eqb a a ≡ true
bool_eqb_refl a = ground arith

instance abbrev pub bool_eq : Eq Bool
bool_eq = record { beq = bool_eqb; beq_sound = bool_eqb_sound; beq_refl = bool_eqb_refl }

module _ {ℓ} {A : Type ℓ} ⦃e : Eq A⦄ where
  -- What an equality test says when it fails.
  pub ne_of_beq : (a b : A) → (a == b) ≡ false → a ≢ b
  ne_of_beq a b h p = false≢true (sym h ∙ ap (λ x. x == b) p ∙ e.beq_refl b)

  pub beq_iff : (a b : A) → ((a == b) ≡ true) ↔ (a ≡ b)
  beq_iff a b = (e.beq_sound a b, λ p. ap (λ x. x == b) p ∙ e.beq_refl b)

  pub beq_comm : (a b : A) → (a == b) ≡ (b == a)
  beq_comm a b = ground (arith, beq_iff a b, beq_iff b a)

  abbrev pub option_eqb : Option A → Option A → Bool
  option_eqb none none = true
  option_eqb (some a) (some b) = a == b
  option_eqb _ _ = false

  pub option_eqb_sound : (a b : Option A) → option_eqb a b ≡ true → a ≡ b
  option_eqb_sound none none h = refl
  option_eqb_sound none (some b) h = cc
  option_eqb_sound (some a) none h = cc
  option_eqb_sound (some a) (some b) h = ap some (e.beq_sound a b h)

  pub option_eqb_refl : (a : Option A) → option_eqb a a ≡ true
  option_eqb_refl none = refl
  option_eqb_refl (some a) = e.beq_refl a

  instance abbrev pub option_eq : Eq (Option A)
  option_eq = record { beq = option_eqb; beq_sound = option_eqb_sound; beq_refl = option_eqb_refl }

  abbrev pub list_eqb : List A → List A → Bool
  list_eqb [] [] = true
  list_eqb (x ∷ xs) (y ∷ ys) = x == y && list_eqb xs ys
  list_eqb _ _ = false

  pub list_eqb_sound : (xs ys : List A) → list_eqb xs ys ≡ true → xs ≡ ys
  list_eqb_sound [] [] h = refl
  list_eqb_sound [] (y ∷ ys) h = cc
  list_eqb_sound (x ∷ xs) [] h = cc
  list_eqb_sound (x ∷ xs) (y ∷ ys) h =
      let both = and_parts (x == y) (list_eqb xs ys) h in
      ap₂ ◌∷◌ (e.beq_sound x y both.0) (list_eqb_sound xs ys both.1)

  pub list_eqb_refl : (xs : List A) → list_eqb xs xs ≡ true
  list_eqb_refl [] = refl
  list_eqb_refl (x ∷ xs) = rw (e.beq_refl x) (list_eqb_refl xs)

  instance abbrev pub list_eq : Eq (List A)
  list_eq = record { beq = list_eqb; beq_sound = list_eqb_sound; beq_refl = list_eqb_refl }

module _ {ℓ κ} {A : Type ℓ} {B : Type κ} ⦃e : Eq A⦄ ⦃f : Eq B⦄ where
  abbrev pub pair_eqb : A × B → A × B → Bool
  pair_eqb p q = p.0 == q.0 && p.1 == q.1

  pub pair_eqb_sound : (p q : A × B) → pair_eqb p q ≡ true → p ≡ q
  pair_eqb_sound p q h =
      let both = and_parts (p.0 == q.0) (p.1 == q.1) h in
      λ i. (e.beq_sound p.0 q.0 both.0 i, f.beq_sound p.1 q.1 both.1 i)

  pub pair_eqb_refl : (p : A × B) → pair_eqb p p ≡ true
  pair_eqb_refl p = rw (e.beq_refl p.0) (f.beq_refl p.1)

  instance abbrev pub pair_eq : Eq (A × B)
  pair_eq = record { beq = pair_eqb; beq_sound = pair_eqb_sound; beq_refl = pair_eqb_refl }

pub ltb_irrefl : (a : ℕ) → ltb a a ≡ false
ltb_irrefl a = ground arith

pub ltb_trans : (a b c : ℕ) → ltb a b ≡ true → ltb b c ≡ true → ltb a c ≡ true
ltb_trans a b c h k = ground arith

pub ltb_connex : (a b : ℕ) → ltb a b ≡ false → ltb b a ≡ false → a ≡ b
ltb_connex a b h k = ground arith

instance abbrev pub nat_order : Order ℕ
nat_order = record { lt = ltb; irrefl = ltb_irrefl; trans = ltb_trans; connex = ltb_connex }

module _ {ℓ} {A : Type ℓ} ⦃o : Order A⦄ where
  pub lt_asymm : (a b : A) → (a <? b) ≡ true → (b <? a) ≡ false
  lt_asymm a b h = ground (arith, o.trans a b a, o.irrefl a)

  -- To be not smaller is transitive too.
  pub not_lt_trans : (a b c : A) → (a <? b) ≡ false → (b <? c) ≡ false → (a <? c) ≡ false
  not_lt_trans a b c h k = ground (arith, o.trans b a c, o.trans a c b, o.connex a b, o.connex b c)

  -- Lexicographic: the first difference decides, and a proper prefix is smaller.
  abbrev pub lex : List A → List A → Bool
  lex [] [] = false
  lex [] (y ∷ ys) = true
  lex (x ∷ xs) [] = false
  lex (x ∷ xs) (y ∷ ys) = if x <? y then true else if y <? x then false else lex xs ys

  pub lex_irrefl : (xs : List A) → lex xs xs ≡ false
  lex_irrefl [] = refl
  lex_irrefl (x ∷ xs) = rw (o.irrefl x) (lex_irrefl xs)

  pub lex_connex : (xs ys : List A) → lex xs ys ≡ false → lex ys xs ≡ false → xs ≡ ys
  lex_connex [] [] h k = refl
  lex_connex [] (y ∷ ys) h k = cc
  lex_connex (x ∷ xs) [] h k = cc
  lex_connex (x ∷ xs) (y ∷ ys) h k = ground (arith, o.connex x y, lex_connex xs ys)

  -- Of two lists in order the first elements differ, or they are equal and the rests are in order.
  pub lex_head :
      (x y : A) (xs ys : List A)
      → lex (y ∷ ys) (x ∷ xs) ≡ false
      → ((x <? y) ≡ true) ⊎ ((x ≡ y) × (lex ys xs ≡ false))
  lex_head x y xs ys h = elim (Bool-cases (x <? y)) [
    | inl less ↦ inl less
    | inr first ↦ elim (Bool-cases (y <? x)) [
      | inl more ↦ cc (rw more at h)
      | inr second ↦ inr (o.connex x y first second, rw (second, first) at h)
    ]
  ]

  pub lex_trans : (xs ys zs : List A) → lex xs ys ≡ true → lex ys zs ≡ true → lex xs zs ≡ true
  lex_trans [] [] zs h k = cc
  lex_trans [] (y ∷ ys) [] h k = cc
  lex_trans [] (y ∷ ys) (z ∷ zs) h k = refl
  lex_trans (x ∷ xs) [] zs h k = cc
  lex_trans (x ∷ xs) (y ∷ ys) [] h k = cc
  lex_trans (x ∷ xs) (y ∷ ys) (z ∷ zs) h k =
      ground
        (arith, o.trans x y z, o.connex x y, o.connex y z, not_lt_trans z y x, lex_trans xs ys zs)

  instance abbrev pub list_order : Order (List A)
  list_order = record { lt = lex; irrefl = lex_irrefl; trans = lex_trans; connex = lex_connex }
