-- ===== src/Prelude/Text.antt =====
-- Texts as lists of code points, and the methods of Python's `str` that the program calls, on
-- ASCII characters.
use fincal.Prelude.Interfaces.{◌==◌, nat_eq, list_eq}
use fincal.Prelude.Tests.{leb, eqb, if◌then◌else◌}
use fincal.Prelude.Lists.{length, all}
use Prim.Native.Nat.{ℕ, zero, suc, ◌+◌, ◌-◌, ◌*◌, ◌%◌}
use fincal.Prelude.Int.{ℤ, pos, neg}
use Prim.Native.Char.{code}
use Prim.Native.String.{String}
use mathlib.Core.Bool.{Bool, true, false, ◌&&◌, ◌||◌, not}
use mathlib.Core.Option
use mathlib.Core.Option.{Option, none, some}
use mathlib.Core.List.{List, [], ◌∷◌, ◌++◌, map}

abbrev pub Text : Type 0
Text = List ℕ

-- The code points of a literal.
abbrev pub codes : String → Text
codes String.[] = []
codes (String.◌∷◌ c s) = code c ∷ codes s

abbrev pub is_empty : Text → Bool
is_empty [] = true
is_empty (c ∷ s) = false

-- `str(value or "")`
abbrev pub or_empty : Option Text → Text
or_empty none = []
or_empty (some s) = s

-- The ASCII characters that `strip` removes: the separators 9 to 13 and 28 to 31, and the blank.
abbrev pub is_space : ℕ → Bool
is_space c = (leb 9 c && leb c 13) || (leb 28 c && leb c 32)

abbrev pub is_digit : ℕ → Bool
is_digit c = leb 48 c && leb c 57

abbrev pub is_alpha : ℕ → Bool
is_alpha c = (leb 65 c && leb c 90) || (leb 97 c && leb c 122)

abbrev pub upper_char : ℕ → ℕ
upper_char c = if leb 97 c && leb c 122 then c - 32 else c

abbrev pub lower_char : ℕ → ℕ
lower_char c = if leb 65 c && leb c 90 then c + 32 else c

-- `s.lstrip()`
abbrev pub lstrip : Text → Text
lstrip [] = []
lstrip (c ∷ s) = let rest = lstrip s in if is_space c then rest else c ∷ s

-- `s.rstrip()`: a blank is dropped when nothing stays behind it.
abbrev pub rstrip : Text → Text
rstrip [] = []
rstrip (c ∷ s) = let rest = rstrip s in if is_empty rest && is_space c then [] else c ∷ rest

-- `s.strip()`
abbrev pub strip : Text → Text
strip s = rstrip (lstrip s)

-- `s.upper()` and `s.lower()`
abbrev pub upper : Text → Text
upper = map upper_char

abbrev pub lower : Text → Text
lower = map lower_char

-- `s.isdigit()` and `s.isalpha()`, false of the empty text.
abbrev pub isdigit : Text → Bool
isdigit s = not (is_empty s) && all is_digit s

abbrev pub isalpha : Text → Bool
isalpha s = not (is_empty s) && all is_alpha s

-- `s.startswith(p)`
abbrev pub startswith : Text → Text → Bool
startswith s [] = true
startswith [] (d ∷ p) = false
startswith (c ∷ s) (d ∷ p) = eqb c d && startswith s p

-- `s[n:]`
abbrev pub drop : ℕ → Text → Text
drop zero s = s
drop (suc n) [] = []
drop (suc n) (c ∷ s) = drop n s

-- `s[:n]`
abbrev pub take : ℕ → Text → Text
take zero s = []
take (suc n) [] = []
take (suc n) (c ∷ s) = c ∷ take n s

-- `s.endswith(p)`
abbrev pub endswith : Text → Text → Bool
endswith s p = leb (length p) (length s) && (drop (length s - length p) s == p)

-- `c in s`, for one character.
abbrev pub contains : ℕ → Text → Bool
contains d [] = false
contains d (c ∷ s) = eqb c d || contains d s

abbrev pub prepend : ℕ → Option (Text × Text) → Option (Text × Text)
prepend c none = none
prepend c (some (head, tail)) = some (c ∷ head, tail)

-- `s.split(c, 1)`: the text before and after the first separator.
abbrev pub split_first : ℕ → Text → Option (Text × Text)
split_first d [] = none
split_first d (c ∷ s) =
    let rest = split_first d s in if eqb c d then some ([], s) else prepend c rest

abbrev pub split_behind : Bool → ℕ → Text → Option (Text × Text) → Option (Text × Text)
split_behind here c s (some (head, tail)) = some (c ∷ head, tail)
split_behind here c s none = if here then some ([], s) else none

-- `s.rsplit(c, 1)`: the text before and after the last separator.
abbrev pub split_last : ℕ → Text → Option (Text × Text)
split_last d [] = none
split_last d (c ∷ s) = split_behind (eqb c d) c s (split_last d s)

-- `s.lstrip("0")`
abbrev pub lstrip_zeros : Text → Text
lstrip_zeros [] = []
lstrip_zeros (c ∷ s) = let rest = lstrip_zeros s in if eqb c 48 then rest else c ∷ s

abbrev pub zeros : ℕ → Text
zeros zero = []
zeros (suc n) = 48 ∷ zeros n

-- `s.zfill(n)` of a text that begins with no sign.
abbrev pub zfill : ℕ → Text → Text
zfill n s = zeros (n - length s) ++ s

-- The number that decimal digits stand for, most significant first.
abbrev pub digits_value : ℕ → Text → ℕ
digits_value acc [] = acc
digits_value acc (c ∷ s) = digits_value (acc * 10 + (c - 48)) s

-- `int(s)` after the sign: digits, with single underscores between two of them.
abbrev pub int_scan : Bool → ℕ → Text → Option ℕ
int_scan after_digit acc [] = if after_digit then some acc else none
int_scan after_digit acc (c ∷ s) = elim (is_digit c) [
  | true ↦ int_scan true (acc * 10 + (c - 48)) s
  | false ↦ elim (eqb c 95 && after_digit) [ true ↦ int_scan false acc s | false ↦ none ]
]

abbrev pub int_signed : Text → Option ℤ
int_signed [] = none
int_signed (c ∷ s) =
    if eqb c 45
    then Option.map (λ n. neg (pos n)) (int_scan false 0 s)
    else if eqb c 43
    then Option.map pos (int_scan false 0 s)
    else Option.map pos (int_scan false 0 (c ∷ s))

-- `int(s)` of a text, `none` for its `ValueError`.
abbrev pub int_of : Text → Option ℤ
int_of s = int_signed (strip s)

-- One decimal digit.
abbrev pub digit_char : ℕ → ℕ
digit_char n = 48 + n % 10
