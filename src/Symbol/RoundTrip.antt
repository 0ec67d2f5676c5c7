-- ===== src/Symbol/RoundTrip.antt =====
-- Every spelling of a code leads to one symbol, and a symbol survives the way to the provider Futu
-- and back.
use fincal.Prelude.{
  ℕ, zero, suc, ◌-◌, ◌≡◌, ◌↔◌, refl, ap, sym, ◌∙◌, true, false, Option, some, [], ◌∷◌, ◌++◌, not,
  length, if◌then◌else◌, all, and_parts,
}
use fincal.Prelude.Interfaces.{◌==◌, nat_eq, list_eq}
use fincal.Prelude.Text.{
  Text, codes, is_digit, is_empty, isdigit, zeros, zfill, digits_value, contains, split_first,
  split_last, lstrip_zeros,
}
use fincal.Symbol.{
  dot, hk, pad_hk, or_zero, remove_from, normalize, normalize_hk, to_futu_code, from_futu_code,
  futu_parts, internal_parts,
}
use fincal.Symbol.Digits.{
  all-pad_hk, pad_hk-eq_iff, value-zeros, all-zeros, all-lstrip_zeros, pad_hk-twice,
}
use fincal.Symbol.Spelling.{
  plain, is_plain, all-append, clean-plain, plain-digits, remove-digits, remove-suffix,
  split_first-parts, split_last-parts,
}

-- The symbol of a numeric code of Hong Kong.
abbrev pub hk_symbol : Text → Text
hk_symbol s = pad_hk s ++ dot ∷ hk

pub digits_of : (s : Text) → isdigit s ≡ true → all is_digit s ≡ true
digits_of s h = (and_parts (not (is_empty s)) (all is_digit s) h).1

isdigit-zeros : (n : ℕ) (s : Text) → isdigit s ≡ true → isdigit (zeros n ++ s) ≡ true
isdigit-zeros zero s h = h
isdigit-zeros (suc n) s h = all-zeros n s (digits_of s h)

isdigit-or_zero : (s : Text) → all is_digit s ≡ true → isdigit (or_zero s) ≡ true
isdigit-or_zero [] h = refl
isdigit-or_zero (c ∷ s) h = h

isdigit-pad_hk : (s : Text) → isdigit s ≡ true → isdigit (pad_hk s) ≡ true
unfolding pad_hk
isdigit-pad_hk s h =
    let stripped = lstrip_zeros s in
    isdigit-zeros (4 - length (or_zero stripped)) (or_zero stripped)
      (isdigit-or_zero stripped (all-lstrip_zeros s (digits_of s h)))

plain_suffix : (s : Text) → is_plain s ≡ true → is_plain (s ++ dot ∷ hk) ≡ true
plain_suffix s h = rw (all-append plain s (dot ∷ hk), h) refl

normalize-clean :
    (s r : Text)
    → is_plain s ≡ true
    → remove_from (codes ".HK") 0 s ≡ r
    → isdigit r ≡ true
    → normalize s hk ≡ some (hk_symbol r)
unfolding normalize
normalize-clean s r p e d =
    ap (λ t. some (normalize_hk (remove_from (codes ".HK") 0 t))) (clean-plain s p)
    ∙ ap (λ t. some (normalize_hk t)) e
    ∙ rw d refl

-- A numeric code for Hong Kong, with its suffix or without, becomes its symbol, and a symbol stays
-- as it is.
pub normalize-hk_spellings :
    (s : Text)
    → isdigit s ≡ true
    → (normalize s hk ≡ some (hk_symbol s))
      × (normalize (s ++ dot ∷ hk) hk ≡ some (hk_symbol s))
      × (normalize (hk_symbol s) hk ≡ some (hk_symbol s))
normalize-hk_spellings s d =
    let ds = digits_of s d in
    let padded = isdigit-pad_hk s d in
    (
      normalize-clean s s (plain-digits s ds) (remove-digits s ds) d,
      normalize-clean (s ++ dot ∷ hk) s (plain_suffix s (plain-digits s ds)) (remove-suffix s ds) d,
      normalize-clean (hk_symbol s) (pad_hk s)
            (plain_suffix (pad_hk s) (plain-digits (pad_hk s) (digits_of (pad_hk s) padded)))
            (remove-suffix (pad_hk s) (digits_of (pad_hk s) padded)) padded
          ∙ ap (λ t. some (t ++ dot ∷ hk)) (pad_hk-twice s ds),
    )

hk_symbol-injective :
    (s t : Text)
    → isdigit s ≡ true
    → isdigit t ≡ true
    → Path (Option Text) (some (hk_symbol s)) (some (hk_symbol t))
    → pad_hk s ≡ pad_hk t
hk_symbol-injective s t d e h =
    let same : hk_symbol s ≡ hk_symbol t = cc in
    sym (remove-suffix (pad_hk s) (all-pad_hk s (digits_of s d)))
    ∙ ap (remove_from (codes ".HK") 0) same
    ∙ remove-suffix (pad_hk t) (all-pad_hk t (digits_of t e))

-- Two numeric codes become the same symbol of Hong Kong exactly when they are the same number.
pub normalize-hk_iff :
    (s t : Text)
    → isdigit s ≡ true
    → isdigit t ≡ true
    → (normalize s hk ≡ normalize t hk) ↔ (digits_value 0 s ≡ digits_value 0 t)
normalize-hk_iff s t d e =
    let at_s = (normalize-hk_spellings s d).0 in
    let at_t = (normalize-hk_spellings t e).0 in
    let forms = pad_hk-eq_iff s t (digits_of s d) (digits_of t e) in
    (
      λ h. forms.0 (hk_symbol-injective s t d e (sym at_s ∙ h ∙ at_t)),
      λ v. at_s ∙ ap (λ u. some (u ++ dot ∷ hk)) (forms.1 v) ∙ sym at_t,
    )

to_futu_code-parts :
    (t m : Text)
    → is_plain (t ++ dot ∷ m) ≡ true
    → contains dot m ≡ false
    → to_futu_code (t ++ dot ∷ m) ≡ futu_parts (t ++ dot ∷ m) (some (t, m))
unfolding to_futu_code
to_futu_code-parts t m p n =
    ap (λ s. futu_parts s (split_last dot s)) (clean-plain (t ++ dot ∷ m) p)
    ∙ ap (futu_parts (t ++ dot ∷ m)) (split_last-parts t m n)

from_futu_code-parts :
    (t m : Text)
    → is_plain (m ++ dot ∷ t) ≡ true
    → contains dot m ≡ false
    → from_futu_code (m ++ dot ∷ t) ≡ internal_parts (m ++ dot ∷ t) (some (m, t))
unfolding from_futu_code
from_futu_code-parts t m p n =
    ap (λ s. internal_parts s (split_first dot s)) (clean-plain (m ++ dot ∷ t) p)
    ∙ ap (internal_parts (m ++ dot ∷ t)) (split_first-parts m t n)

plain_parts : (s t : Text) → is_plain s ≡ true → is_plain t ≡ true → is_plain (s ++ dot ∷ t) ≡ true
plain_parts s t p q = rw (all-append plain s (dot ∷ t), p, q) refl

-- A numeric code with the suffix of Hong Kong, in whatever padding, comes back from the spelling of
-- Futu as its symbol.
pub futu-hk_round_trip :
    (s : Text) → isdigit s ≡ true → from_futu_code (to_futu_code (s ++ dot ∷ hk)) ≡ hk_symbol s
futu-hk_round_trip s d =
    let ds = digits_of s d in
    let wide = zfill 5 s in
    let dw = isdigit-zeros (5 - length s) s d in
    let there : to_futu_code (s ++ dot ∷ hk) ≡ hk ++ dot ∷ wide =
      to_futu_code-parts s hk (plain_suffix s (plain-digits s ds)) refl
      ∙ ap (λ b. hk ++ dot ∷ (if b then wide else s)) d in
    let back : from_futu_code (hk ++ dot ∷ wide) ≡ pad_hk wide ++ dot ∷ hk =
      from_futu_code-parts wide hk
        (plain_parts hk wide refl (plain-digits wide (digits_of wide dw))) refl
      ∙ ap (λ b. (if b then pad_hk wide else wide) ++ dot ∷ hk) dw in
    ap from_futu_code there
    ∙ back
    ∙ ap (λ t. t ++ dot ∷ hk)
        ((pad_hk-eq_iff wide s (digits_of wide dw) ds).1 (value-zeros (5 - length s) s))

-- A symbol without blanks and small letters, of a market that is not HK and has no dot, comes back
-- as it was, whatever dots its ticker has.
pub futu-round_trip :
    (ticker market : Text)
    → is_plain ticker ≡ true
    → is_plain market ≡ true
    → contains dot market ≡ false
    → (market == hk) ≡ false
    → from_futu_code (to_futu_code (ticker ++ dot ∷ market)) ≡ ticker ++ dot ∷ market
futu-round_trip ticker market p q n other =
    let there : to_futu_code (ticker ++ dot ∷ market) ≡ market ++ dot ∷ ticker =
      to_futu_code-parts ticker market (plain_parts ticker market p q) n ∙ rw other refl in
    let back : from_futu_code (market ++ dot ∷ ticker) ≡ ticker ++ dot ∷ market =
      from_futu_code-parts ticker market (plain_parts market ticker q p) n ∙ rw other refl in
    ap from_futu_code there ∙ back
