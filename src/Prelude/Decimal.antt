-- ===== src/Prelude/Decimal.antt =====
-- The decimal digits of a number, as Python's `str` writes them.
use Prim.Native.Nat.{ℕ, zero, suc, ◌+◌, ◌-◌, ◌*◌, ◌/◌, ◌%◌, ◌<◌}
use mathlib.Core.Path.{◌≡◌, sym, ap, ◌∙◌}
use mathlib.Core.Logic.{inl, inr}
use mathlib.Core.List.{[], ◌∷◌, ◌++◌}
use native.Mathlib.Omega.{arith}
use fincal.Prelude.Tests.{ltb, if◌then◌else◌, Bool-cases}
use fincal.Prelude.Text.{Text, digits_value}

-- The digits of `n`, when `fuel` is at least their number.
abbrev pub decimal_from : ℕ → ℕ → Text
decimal_from zero n = []
decimal_from (suc fuel) n =
    let rest = decimal_from fuel (n / 10) in
    if ltb n 10 then (48 + n) ∷ [] else rest ++ (48 + n % 10) ∷ []

-- `str(n)`: a number has at most as many digits as it counts, and one more.
unfoldable pub decimal : ℕ → Text
decimal n = decimal_from (suc n) n

digits_value-append :
    (acc c : ℕ) (s : Text) → digits_value acc (s ++ (48 + c) ∷ []) ≡ digits_value acc s * 10 + c
digits_value-append acc c [] = omega arith
digits_value-append acc c (d ∷ s) = digits_value-append (acc * 10 + (d - 48)) c s

digits_value-decimal_from : (fuel n : ℕ) → n < fuel → digits_value 0 (decimal_from fuel n) ≡ n
digits_value-decimal_from zero n h = absurd (omega arith)
digits_value-decimal_from (suc fuel) n h = elim (Bool-cases (ltb n 10)) [
  | inl small ↦ rw small (omega arith)
  | inr large ↦
      let low : n / 10 < fuel = ground (arith, large) in
      let rest = digits_value-decimal_from fuel (n / 10) low in
      rw large (omega (arith, rest, digits_value-append 0 (n % 10) (decimal_from fuel (n / 10))))
]

-- Different numbers are written differently.
pub decimal_injective : (m n : ℕ) → decimal m ≡ decimal n → m ≡ n
unfolding decimal
decimal_injective m n h =
    sym (digits_value-decimal_from (suc m) m (omega arith))
    ∙ ap (digits_value 0) h
    ∙ digits_value-decimal_from (suc n) n (omega arith)
