-- ===== src/Symbol/Spelling.antt =====
-- What the text methods do on symbols: clean texts, digits, and the parts around a dot.
use fincal.Prelude.{
  ℕ, ◌≡◌, refl, ap, ◌∙◌, Bool, true, false, none, some, [], ◌∷◌, ◌++◌, ◌&&◌, not, leb, eqb, all,
  arith, and_parts,
}
use fincal.Prelude.Text.{
  Text, codes, is_space, is_digit, upper_char, upper, lstrip, rstrip, strip, contains, split_first,
  split_last,
}
use fincal.Symbol.{clean, dot, remove_from}

-- A character that `strip` and `upper` leave alone.
abbrev pub plain : ℕ → Bool
plain c = not (is_space c) && not (leb 97 c && leb c 122)

abbrev pub is_plain : Text → Bool
is_plain = all plain

pub all-append : (p : ℕ → Bool) (s t : Text) → all p (s ++ t) ≡ (all p s && all p t)
all-append p [] t = refl
all-append p (c ∷ s) t = ground (arith, all-append p s t)

upper-plain : (s : Text) → is_plain s ≡ true → upper s ≡ s
upper-plain [] h = refl
upper-plain (c ∷ s) h =
    let (hc, hs) = and_parts (plain c) (is_plain s) h in
    let same : upper_char c ≡ c = ground arith in rw (same, upper-plain s hs) refl

lstrip-plain : (s : Text) → is_plain s ≡ true → lstrip s ≡ s
lstrip-plain [] h = refl
lstrip-plain (c ∷ s) h = ground arith

rstrip-plain : (s : Text) → is_plain s ≡ true → rstrip s ≡ s
rstrip-plain [] h = refl
rstrip-plain (c ∷ s) h = ground (arith, rstrip-plain s)

pub strip-plain : (s : Text) → is_plain s ≡ true → strip s ≡ s
strip-plain s h = ap rstrip (lstrip-plain s h) ∙ rstrip-plain s h

-- A plain text is clean.
pub clean-plain : (s : Text) → is_plain s ≡ true → clean s ≡ s
clean-plain s h = ap upper (strip-plain s h) ∙ upper-plain s h

pub plain-digits : (s : Text) → all is_digit s ≡ true → is_plain s ≡ true
plain-digits [] h = refl
plain-digits (c ∷ s) h = ground (arith, plain-digits s)

-- Digits hold no suffix, and behind digits the suffix is all that goes.
pub remove-digits : (s : Text) → all is_digit s ≡ true → remove_from (codes ".HK") 0 s ≡ s
remove-digits [] h = refl
remove-digits (c ∷ s) h =
    let (hc, hs) = and_parts (is_digit c) (all is_digit s) h in
    let other : eqb c 46 ≡ false = ground arith in rw other (ap (λ t. c ∷ t) (remove-digits s hs))

pub remove-suffix :
    (s : Text) → all is_digit s ≡ true → remove_from (codes ".HK") 0 (s ++ codes ".HK") ≡ s
remove-suffix [] h = refl
remove-suffix (c ∷ s) h =
    let (hc, hs) = and_parts (is_digit c) (all is_digit s) h in
    let other : eqb c 46 ≡ false = ground arith in rw other (ap (λ t. c ∷ t) (remove-suffix s hs))

pub split_first-parts :
    (m t : Text) → contains dot m ≡ false → split_first dot (m ++ dot ∷ t) ≡ some (m, t)
split_first-parts [] t h = refl
split_first-parts (c ∷ m) t h =
    let other : eqb c dot ≡ false = ground arith in
    let later : contains dot m ≡ false = ground arith in
    rw (other, split_first-parts m t later) refl

pub split_last-none : (m : Text) → contains dot m ≡ false → split_last dot m ≡ none
split_last-none [] h = refl
split_last-none (c ∷ m) h =
    let other : eqb c dot ≡ false = ground arith in
    let later : contains dot m ≡ false = ground arith in rw (split_last-none m later, other) refl

pub split_last-parts :
    (t m : Text) → contains dot m ≡ false → split_last dot (t ++ dot ∷ m) ≡ some (t, m)
split_last-parts [] m h = rw (split_last-none m h) refl
split_last-parts (c ∷ t) m h = rw (split_last-parts t m h) refl
