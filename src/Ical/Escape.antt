-- ===== src/Ical/Escape.antt =====
-- app/ical.py: `_escape_ical`, on the text that `str` gives.
use fincal.Prelude.{ℕ, true, false, [], ◌∷◌, ◌++◌, ◌&&◌, ◌||◌, eqb, if◌then◌else◌}
use fincal.Prelude.Text.{Text}

-- `s.replace(c, new)` for one character.
unfoldable pub replace_char : ℕ → Text → Text → Text
replace_char c new [] = []
replace_char c new (d ∷ s) =
    let rest = replace_char c new s in if eqb d c then new ++ rest else d ∷ rest

-- `s.replace(a + b, new)` for two characters.
unfoldable pub replace_pair : ℕ → ℕ → Text → Text → Text
replace_pair a b new [] = []
replace_pair a b new (c ∷ []) = c ∷ []
replace_pair a b new (c ∷ d ∷ s) = elim (eqb c a && eqb d b) [
  | true ↦ new ++ replace_pair a b new s
  | false ↦ c ∷ replace_pair a b new (d ∷ s)
]

abbrev pub backslash : ℕ
backslash = 92

abbrev pub semicolon : ℕ
semicolon = 59

abbrev pub comma : ℕ
comma = 44

abbrev pub line_feed : ℕ
line_feed = 10

abbrev pub carriage_return : ℕ
carriage_return = 13

-- A backslash and an `n`.
abbrev pub escaped_newline : Text
escaped_newline = backslash ∷ 110 ∷ []

unfoldable pub escape_marks : Text → Text
escape_marks value = replace_char comma (backslash ∷ comma ∷ []) (
    replace_char semicolon (backslash ∷ semicolon ∷ [])
      (replace_char backslash (backslash ∷ backslash ∷ []) value))

unfoldable pub escape_newlines : Text → Text
escape_newlines value = replace_char line_feed escaped_newline (
    replace_char carriage_return escaped_newline
      (replace_pair carriage_return line_feed escaped_newline value))

unfoldable pub escape_ical : Text → Text
escape_ical value = escape_newlines (escape_marks value)

-- How a calendar reads a TEXT value, by RFC 5545: a backslash and the letter n, in either case,
-- is a line break, and before any other character a backslash is dropped.
abbrev pub unescaped : ℕ → ℕ
unescaped d = if eqb d 110 || eqb d 78 then line_feed else d

unfoldable pub unescape : Text → Text
unescape [] = []
unescape (c ∷ []) = c ∷ []
unescape (c ∷ d ∷ s) = elim (eqb c backslash) [
  | true ↦ unescaped d ∷ unescape s
  | false ↦ c ∷ unescape (d ∷ s)
]

-- Each of the three line breaks as one line feed.
unfoldable pub newlines : Text → Text
newlines [] = []
newlines (c ∷ []) = if eqb c carriage_return then line_feed ∷ [] else c ∷ []
newlines (c ∷ d ∷ s) = elim (eqb c carriage_return) [
  | true ↦ elim (eqb d line_feed) [
    | true ↦ line_feed ∷ newlines s
    | false ↦ line_feed ∷ newlines (d ∷ s)
  ]
  | false ↦ c ∷ newlines (d ∷ s)
]
