-- ===== src/Symbol/Digits.antt =====
-- The four-digit form of a numeric code, and the number that a code stands for.
use mathlib.Core.Path.{ap₂}
use fincal.Prelude.{
  ℕ, zero, suc, ◌+◌, ◌-◌, ◌*◌, ◌≤◌, ◌<◌, ◌≡◌, ◌↔◌, ap, sym, ◌∙◌, refl, Bool, true, false, [], ◌∷◌,
  ◌++◌, not, arith, length, leb, eqb, all, inl, inr, Bool-cases, and_parts, leb→le,
}
use fincal.Prelude.Text.{Text, is_digit, lstrip_zeros, zeros, zfill, digits_value}
use fincal.Symbol.{pad_hk, or_zero}

digit_value_lt : (c : ℕ) → is_digit c ≡ true → c - 48 < 10
digit_value_lt c h = ground arith

digit_injective : (c d : ℕ) → is_digit c ≡ true → is_digit d ≡ true → c - 48 ≡ d - 48 → c ≡ d
digit_injective c d h k e = ground arith

-- A larger number in front makes a larger number, unless digits are missing behind.
value_mono :
    (a b : ℕ) (s t : Text)
    → all is_digit s ≡ true
    → a < b
    → length s ≤ length t
    → digits_value a s < digits_value b t
value_mono a b [] [] h l n = l
value_mono a b [] (d ∷ t) h l n =
    value_mono a (b * 10 + (d - 48)) [] t h (omega arith) (omega arith)
value_mono a b (c ∷ s) [] h l n = absurd (omega arith)
value_mono a b (c ∷ s) (d ∷ t) h l n =
    value_mono (a * 10 + (c - 48)) (b * 10 + (d - 48)) s t
      (and_parts (is_digit c) (all is_digit s) h).1
      (let lower = digit_value_lt c (and_parts (is_digit c) (all is_digit s) h).0 in
        omega (arith, l, lower))
      (omega (arith, n))

-- Digit strings of one length that stand for one number are one string.
value_injective :
    (a b : ℕ) (s t : Text)
    → all is_digit s ≡ true
    → all is_digit t ≡ true
    → length s ≡ length t
    → digits_value a s ≡ digits_value b t
    → (a ≡ b) × (s ≡ t)
value_injective a b [] [] h k n e = (e, refl)
value_injective a b [] (d ∷ t) h k n e = absurd (omega (arith, n))
value_injective a b (c ∷ s) [] h k n e = absurd (omega (arith, n))
value_injective a b (c ∷ s) (d ∷ t) h k n e =
    let (hc, hs) = and_parts (is_digit c) (all is_digit s) h in
    let (kd, kt) = and_parts (is_digit d) (all is_digit t) k in
    let (front, rest) =
      value_injective (a * 10 + (c - 48)) (b * 10 + (d - 48)) s t hs kt (omega (arith, n)) e in
    let c_low = digit_value_lt c hc in
    let d_low = digit_value_lt d kd in
    let digits : c - 48 ≡ d - 48 = omega (arith, front, c_low, d_low) in
    (
      omega (arith, front, c_low, d_low),
      ap₂ (λ x xs. x ∷ xs) (digit_injective c d hc kd digits) rest,
    )

-- Leading zeros add nothing.
value-lstrip_zeros : (s : Text) → digits_value 0 (lstrip_zeros s) ≡ digits_value 0 s
value-lstrip_zeros [] = refl
value-lstrip_zeros (c ∷ s) = elim (Bool-cases (eqb c 48)) [
  | inl zero_first ↦
      let nothing : 0 * 10 + (c - 48) ≡ 0 = ground arith in
      rw (zero_first, nothing) (value-lstrip_zeros s)
  | inr other ↦ rw other refl
]

pub value-zeros : (n : ℕ) (s : Text) → digits_value 0 (zeros n ++ s) ≡ digits_value 0 s
value-zeros zero s = refl
value-zeros (suc n) s = value-zeros n s

value-or_zero : (s : Text) → digits_value 0 (or_zero s) ≡ digits_value 0 s
value-or_zero [] = refl
value-or_zero (c ∷ s) = refl

-- The padded code stands for the number of the code.
pub value-pad_hk : (s : Text) → digits_value 0 (pad_hk s) ≡ digits_value 0 s
unfolding pad_hk
value-pad_hk s =
    value-zeros (4 - length (or_zero (lstrip_zeros s))) (or_zero (lstrip_zeros s))
    ∙ value-or_zero (lstrip_zeros s)
    ∙ value-lstrip_zeros s

pub all-zeros : (n : ℕ) (s : Text) → all is_digit s ≡ true → all is_digit (zeros n ++ s) ≡ true
all-zeros zero s h = h
all-zeros (suc n) s h = all-zeros n s h

pub all-lstrip_zeros : (s : Text) → all is_digit s ≡ true → all is_digit (lstrip_zeros s) ≡ true
all-lstrip_zeros [] h = refl
all-lstrip_zeros (c ∷ s) h = ground (arith, all-lstrip_zeros s)

all-or_zero : (s : Text) → all is_digit s ≡ true → all is_digit (or_zero s) ≡ true
all-or_zero [] h = refl
all-or_zero (c ∷ s) h = h

pub all-pad_hk : (s : Text) → all is_digit s ≡ true → all is_digit (pad_hk s) ≡ true
unfolding pad_hk
all-pad_hk s h =
    all-zeros (4 - length (or_zero (lstrip_zeros s))) (or_zero (lstrip_zeros s))
      (all-or_zero (lstrip_zeros s) (all-lstrip_zeros s h))

-- A text with no zero in front.
abbrev leads : Text → Bool
leads [] = true
leads (c ∷ s) = not (eqb c 48)

leads-lstrip_zeros : (s : Text) → leads (lstrip_zeros s) ≡ true
leads-lstrip_zeros [] = refl
leads-lstrip_zeros (c ∷ s) = ground (arith, leads-lstrip_zeros s)

-- A number has one spelling with no zero in front.
longer_larger :
    (s t : Text) (d : ℕ)
    → all is_digit s ≡ true
    → is_digit d ≡ true
    → eqb d 48 ≡ false
    → length s ≤ length t
    → digits_value 0 s < digits_value 0 (d ∷ t)
longer_larger s t d h k z n = value_mono 0 (0 * 10 + (d - 48)) s t h (ground arith) n

one_length :
    (s t : Text)
    → all is_digit s ≡ true
    → all is_digit t ≡ true
    → leads t ≡ true
    → digits_value 0 s ≡ digits_value 0 t
    → length t ≤ length s
one_length s [] h k l e = omega arith
one_length s (d ∷ t) h k l e =
    let (kd, kt) = and_parts (is_digit d) (all is_digit t) k in
    elim (Bool-cases (leb (length s) (length t))) [
      | inr longer ↦ ground arith
      | inl fits ↦
          let larger =
            longer_larger s t d h kd (ground arith) (leb→le (length s) (length t) fits) in
          absurd (omega (arith, larger, e))
    ]

stripped_injective :
    (s t : Text)
    → all is_digit s ≡ true
    → all is_digit t ≡ true
    → leads s ≡ true
    → leads t ≡ true
    → digits_value 0 s ≡ digits_value 0 t
    → s ≡ t
stripped_injective s t h k ls lt e =
    (value_injective 0 0 s t h k
      (omega (arith, one_length s t h k lt e, one_length t s k h ls (sym e))) e).1

-- Two numeric codes have the same four-digit form exactly when they stand for the same number.
pub pad_hk-eq_iff :
    (s t : Text)
    → all is_digit s ≡ true
    → all is_digit t ≡ true
    → (pad_hk s ≡ pad_hk t) ↔ (digits_value 0 s ≡ digits_value 0 t)
unfolding pad_hk
pad_hk-eq_iff s t h k = (
  λ e. sym (value-pad_hk s) ∙ ap (digits_value 0) e ∙ value-pad_hk t,
  λ e.
      ap (λ u. zfill 4 (or_zero u))
        (stripped_injective (lstrip_zeros s) (lstrip_zeros t) (all-lstrip_zeros s h)
          (all-lstrip_zeros t k) (leads-lstrip_zeros s) (leads-lstrip_zeros t)
          (value-lstrip_zeros s ∙ e ∙ sym (value-lstrip_zeros t))),
)

-- The form of a form is the form.
pub pad_hk-twice : (s : Text) → all is_digit s ≡ true → pad_hk (pad_hk s) ≡ pad_hk s
pad_hk-twice s h = (pad_hk-eq_iff (pad_hk s) s (all-pad_hk s h) h).1 (value-pad_hk s)
