-- ===== src/Symbol/Numeric.antt =====
-- A numeric code of app/symbol.py in the markets US and HK, and in any other.
use fincal.Prelude.{
  ℕ, zero, suc, ◌-◌, ◌≡◌, refl, ap, ◌∙◌, Bool, true, false, Option, none, some, [], ◌∷◌, ◌&&◌, ◌||◌,
  not, length, leb, if◌then◌else◌, all, arith, and_parts, eqb_iff,
}
use fincal.Prelude.Interfaces.{◌==◌, nat_eq, list_eq, pair_eq, option_eq}
use fincal.Prelude.Text.{
  Text, codes, is_digit, is_empty, isdigit, drop, startswith, endswith, contains, strip, or_empty,
}
use fincal.Symbol.{
  clean, dot, us, hk, is_served, is_hk_ticker, market_of, market_of_clean, market_mismatch, is_us,
  normalize,
}
use fincal.Symbol.Spelling.{clean-plain, plain-digits, strip-plain, split_last-none}
use fincal.Symbol.RoundTrip.{hk_symbol, normalize-hk_spellings, digits_of}
use fincal.Symbol.Stored.{with_market, resolve_stored}

and_false : (b : Bool) → (b && false) ≡ false
and_false b = ground arith

drop-digits : (n : ℕ) (s : Text) → all is_digit s ≡ true → all is_digit (drop n s) ≡ true
drop-digits zero s h = h
drop-digits (suc n) [] h = refl
drop-digits (suc n) (c ∷ s) h = drop-digits n s (and_parts (is_digit c) (all is_digit s) h).1

no_dot : (s : Text) → all is_digit s ≡ true → contains dot s ≡ false
no_dot [] h = refl
no_dot (c ∷ s) h = ground (arith, no_dot s)

not_suffix : (s : Text) → all is_digit s ≡ true → (s == codes ".HK") ≡ false
not_suffix [] h = refl
not_suffix (c ∷ s) h = ground arith

endswith-digits : (s : Text) → all is_digit s ≡ true → endswith s (codes ".HK") ≡ false
endswith-digits s h =
    let other = not_suffix (drop (length s - 3) s) (drop-digits (length s - 3) s h) in
    rw other (and_false (leb 3 (length s)))

no_prefix :
    (c : ℕ) (p s : Text) → is_digit c ≡ false → all is_digit s ≡ true → startswith s (c ∷ p) ≡ false
no_prefix c p [] h k = refl
no_prefix c p (d ∷ s) h k = ground (arith, eqb_iff d c)

hk_or_none :
    (b c : Bool) → b ≡ true → is_us (if b then (if c then some hk else none) else some us) ≡ false
hk_or_none true true h = refl
hk_or_none true false h = refl
hk_or_none false c h = cc

-- A numeric code is never one of the market US.
market_of-digits : (s : Text) → isdigit s ≡ true → is_us (market_of_clean s) ≡ false
unfolding is_hk_ticker
market_of-digits s d =
    let ds = digits_of s d in
    let full : is_empty s ≡ false = ground arith in
    let u : startswith s (codes "US.") ≡ false = no_prefix 85 (codes "S.") s refl ds in
    let h : startswith s (codes "HK.") ≡ false = no_prefix 72 (codes "K.") s refl ds in
    rw (full, u, h, split_last-none s (no_dot s ds)) (hk_or_none (isdigit s) (is_hk_ticker s) d)

mismatch-us : (s : Text) → isdigit s ≡ true → market_mismatch s us ≡ true
unfolding market_mismatch market_of
mismatch-us s d =
    let plain = plain-digits s (digits_of s d) in
    let fixed = clean-plain s plain in
    let full : is_empty s ≡ false = ground arith in
    let inner : is_us (market_of s) ≡ false =
      ap (λ t. is_us (market_of_clean t)) fixed ∙ market_of-digits s d in
    rw (fixed, full, inner) refl

mismatch-hk : (s : Text) → isdigit s ≡ true → market_mismatch s hk ≡ not (leb (length s) 5)
unfolding market_mismatch is_hk_ticker
mismatch-hk s d =
    let ds = digits_of s d in
    let fixed = clean-plain s (plain-digits s ds) in
    let full : is_empty s ≡ false = ground arith in
    rw (fixed, full, endswith-digits s ds, no_dot s ds, ds) refl

served_if :
    (b : Bool) (o : Option Text) (r : Text)
    → o ≡ some r
    → (if not b then none else with_market hk o) ≡ (if b then some (r, hk) else none)
served_if true o r h = ap (with_market hk) h
served_if false o r h = refl

-- A stored market counts as it is cleaned.
pub resolve-clean :
    (symbol market other : Option Text)
    → clean (or_empty market) ≡ clean (or_empty other)
    → resolve_stored symbol market ≡ resolve_stored symbol other
unfolding resolve_stored
resolve-clean symbol market other e =
    let s = strip (or_empty symbol) in
    ap
      (λ m.
        if not (is_served m) || is_empty s
        then none
        else if market_mismatch s m
        then none
        else with_market m (normalize s m))
      e

pub resolve-us : (s : Text) → isdigit s ≡ true → resolve_stored (some s) (some us) ≡ none
unfolding resolve_stored
resolve-us s d =
    let fixed = strip-plain s (plain-digits s (digits_of s d)) in
    let full : is_empty s ≡ false = ground arith in rw (fixed, full, mismatch-us s d) refl

pub resolve-hk :
    (s : Text)
    → isdigit s ≡ true
    → resolve_stored (some s) (some hk)
      ≡ (if leb (length s) 5 then some (hk_symbol s, hk) else none)
unfolding resolve_stored
resolve-hk s d =
    let fixed = strip-plain s (plain-digits s (digits_of s d)) in
    let full : is_empty s ≡ false = ground arith in
    rw (fixed, full, mismatch-hk s d)
      (served_if (leb (length s) 5) (normalize s hk) (hk_symbol s) (normalize-hk_spellings s d).0)

pub resolve-unserved :
    (symbol market : Option Text)
    → is_served (clean (or_empty market)) ≡ false
    → resolve_stored symbol market ≡ none
unfolding resolve_stored
resolve-unserved symbol market h = rw h refl
