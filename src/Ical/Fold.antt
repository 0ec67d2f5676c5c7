-- ===== src/Ical/Fold.antt =====
-- app/ical.py: `_fold_ical_lines`, with the encoding and the decoding of UTF-8.
use fincal.Prelude.{
  ℕ, zero, suc, ◌+◌, ◌-◌, ◌*◌, ◌/◌, ◌%◌, Bool, true, false, Option, none, some, List, [], ◌∷◌, ◌++◌,
  ◌&&◌, ltb, leb, length, if◌then◌else◌,
}
use fincal.Prelude.Text.{Text, take, drop, is_empty}

-- The bytes of a code point.
abbrev pub utf8 : ℕ → List ℕ
utf8 c =
    if ltb c 128
    then c ∷ []
    else if ltb c 2048
    then (192 + c / 64) ∷ (128 + c % 64) ∷ []
    else if ltb c 65536
    then (224 + c / 4096) ∷ (128 + c / 64 % 64) ∷ (128 + c % 64) ∷ []
    else (240 + c / 262144) ∷ (128 + c / 4096 % 64) ∷ (128 + c / 64 % 64) ∷ (128 + c % 64) ∷ []

-- `line.encode("utf-8")`
unfoldable pub encode : Text → List ℕ
encode [] = []
encode (c ∷ s) = utf8 c ++ encode s

abbrev pub prepend : ℕ → Option Text → Option Text
prepend c none = none
prepend c (some s) = some (c ∷ s)

-- How many bytes follow a first byte, and the bits that it has itself.
unfoldable pub following : ℕ → ℕ
following b = if ltb b 128 then 0 else if ltb b 224 then 1 else if ltb b 240 then 2 else 3

unfoldable pub lead_bits : ℕ → ℕ
lead_bits b = if ltb b 224 then b - 192 else if ltb b 240 then b - 224 else b - 240

-- A code point whose last byte was read comes before the rest.
abbrev pub complete : ℕ → ℕ → Option Text → Option Text
complete zero c rest = prepend c rest
complete (suc need) c rest = rest

-- The decoder waits for `need` more bytes of a code point whose first bits are `acc`; `none` is
-- the UnicodeDecodeError. The forms that an encoder never writes are not told apart.
unfoldable pub decode_from : ℕ → ℕ → List ℕ → Option Text
decode_from zero acc [] = some []
decode_from (suc need) acc [] = none
decode_from zero acc (b ∷ bs) =
    let rest = decode_from (following b) (lead_bits b) bs in
    if ltb b 128 then prepend b rest else if leb 192 b && ltb b 248 then rest else none
decode_from (suc need) acc (b ∷ bs) =
    let c = acc * 64 + (b - 128) in
    let rest = decode_from need c bs in
    if leb 128 b && ltb b 192 then complete need c rest else none

-- `chunk.decode("utf-8")`
abbrev pub decode : List ℕ → Option Text
decode = decode_from 0 0

abbrev pub decoded : Option Text → ℕ → Text × ℕ → Text × ℕ
decoded none n shorter = shorter
decoded (some text) n shorter = (text, n)

-- The chunk of `n` bytes, shortened by one byte until it can be decoded: its text and its length.
unfoldable pub shorten : List ℕ → ℕ → Text × ℕ
shorten raw zero = ([], 0)
shorten raw (suc n) =
    let shorter = shorten raw n in decoded (decode (take (suc n) raw)) (suc n) shorter

abbrev pub min : ℕ → ℕ → ℕ
min a b = if ltb a b then a else b

abbrev pub limit : Bool → ℕ
limit first = if first then 75 else 74

abbrev pub indent : Bool → Text
indent first = if first then [] else 32 ∷ []

-- The loop over the bytes that are left, on fuel.
unfoldable pub fold_bytes : ℕ → Bool → List ℕ → List Text
fold_bytes zero first raw = []
fold_bytes (suc fuel) first raw =
    let chunk = shorten raw (min (limit first) (length raw)) in
    let rest = fold_bytes fuel false (drop chunk.1 raw) in
    if is_empty raw then [] else (indent first ++ chunk.0) ∷ rest

-- The lines of one content line: as many rounds as bytes are enough.
unfoldable pub fold_line : Text → List Text
fold_line line =
    let raw = encode line in
    if leb (length raw) 75 then line ∷ [] else fold_bytes (length raw) true raw

unfoldable pub fold_ical_lines : List Text → List Text
fold_ical_lines [] = []
fold_ical_lines (line ∷ lines) = fold_line line ++ fold_ical_lines lines
