-- ===== src/Ical/Escaping.antt =====
-- The escaped texts of app/ical.py: a calendar reads them back, and they stay on one line.
use fincal.Prelude.{
  ℕ, ◌≡◌, refl, ap, ◌∙◌, Bool, true, false, [], ◌∷◌, ◌++◌, ◌||◌, not, eqb, all, arith, inl, inr,
  Bool-cases, eqb_iff, if◌then◌else◌,
}
use fincal.Prelude.Text.{Text}
use fincal.Ical.Escape.{
  replace_char, replace_pair, backslash, semicolon, comma, line_feed, carriage_return,
  escaped_newline, escape_marks, escape_newlines, escape_ical, unescaped, unescape, newlines,
}

-- What the three marks become, one character at a time.
abbrev mark : ℕ → Text
mark c = if eqb c backslash || eqb c semicolon || eqb c comma then backslash ∷ c ∷ [] else c ∷ []

abbrev marks : Text → Text
marks [] = []
marks (c ∷ s) = mark c ++ marks s

escape_marks-marks : (s : Text) → escape_marks s ≡ marks s
unfolding escape_marks replace_char
escape_marks-marks [] = refl
escape_marks-marks (c ∷ s) = ground (arith, escape_marks-marks s)

-- A character, or the escape of a line feed.
abbrev line : ℕ → Text
line c = if eqb c line_feed then escaped_newline else c ∷ []

escape_newlines_other :
    (c : ℕ) (s : Text)
    → eqb c carriage_return ≡ false
    → escape_newlines (c ∷ s) ≡ line c ++ escape_newlines s
unfolding escape_newlines replace_char replace_pair
escape_newlines_other c [] h = ground (arith, h)
escape_newlines_other c (d ∷ s) h = ground (arith, h)

escape_newlines_pair :
    (s : Text)
    → escape_newlines (carriage_return ∷ line_feed ∷ s) ≡ escaped_newline ++ escape_newlines s
unfolding escape_newlines replace_char replace_pair
escape_newlines_pair s = refl

escape_newlines_return :
    (d : ℕ) (s : Text)
    → eqb d line_feed ≡ false
    → escape_newlines (carriage_return ∷ d ∷ s) ≡ escaped_newline ++ escape_newlines (d ∷ s)
unfolding escape_newlines replace_char replace_pair
escape_newlines_return d s h = ground (arith, h)

-- What a character becomes in all.
abbrev escape_char : ℕ → Text
escape_char c = if eqb c line_feed then escaped_newline else mark c

abbrev escaped : Text → Text
escaped [] = []
escaped (c ∷ s) = escape_char c ++ escaped s

abbrev is_mark : ℕ → Bool
is_mark c = eqb c backslash || eqb c semicolon || eqb c comma

escape_newlines-mark :
    (c : ℕ) (s : Text)
    → eqb c carriage_return ≡ false
    → escape_newlines (mark c ++ s) ≡ escape_char c ++ escape_newlines s
escape_newlines-mark c s h = elim (Bool-cases (is_mark c)) [
  | inl m ↦
      let no_feed : eqb c line_feed ≡ false = ground (arith, m) in
      rw (m, no_feed)
        (escape_newlines_other backslash (c ∷ s) refl
          ∙ ap (λ x. backslash ∷ x) (rw no_feed at (escape_newlines_other c s h)))
  | inr n ↦ rw n (escape_newlines_other c s h)
]

escape_newlines-return_marks :
    (d : ℕ) (s : Text)
    → eqb d line_feed ≡ false
    → escape_newlines (carriage_return ∷ marks (d ∷ s))
      ≡ escaped_newline ++ escape_newlines (marks (d ∷ s))
escape_newlines-return_marks d s h = elim (Bool-cases (is_mark d)) [
  | inl m ↦ rw m (escape_newlines_return backslash (d ∷ marks s) refl)
  | inr n ↦ rw n (escape_newlines_return d (marks s) h)
]

newlines_return :
    (d : ℕ) (s : Text)
    → eqb d line_feed ≡ false
    → newlines (carriage_return ∷ d ∷ s) ≡ line_feed ∷ newlines (d ∷ s)
unfolding newlines
newlines_return d s h = ground (arith, h)

newlines_other :
    (c d : ℕ) (s : Text)
    → eqb c carriage_return ≡ false
    → newlines (c ∷ d ∷ s) ≡ c ∷ newlines (d ∷ s)
unfolding newlines
newlines_other c d s h = ground (arith, h)

empty_newlines : escape_newlines [] ≡ []
unfolding escape_newlines replace_char replace_pair
empty_newlines = refl

last_return : escape_newlines (carriage_return ∷ []) ≡ escaped_newline
unfolding escape_newlines replace_char replace_pair
last_return = refl

unescape_nil : unescape [] ≡ []
unfolding unescape
unescape_nil = refl

escape_newlines-marks : (t : Text) → escape_newlines (marks t) ≡ escaped (newlines t)
unfolding newlines
escape_newlines-marks [] = empty_newlines
escape_newlines-marks (c ∷ []) = elim (Bool-cases (eqb c carriage_return)) [
  | inl r ↦ rw ((eqb_iff c carriage_return).0 r) last_return
  | inr n ↦ rw n (escape_newlines-mark c [] n ∙ ap (λ x. escape_char c ++ x) empty_newlines)
]
escape_newlines-marks (c ∷ d ∷ s) = elim (Bool-cases (eqb c carriage_return)) [
  | inl r ↦ elim (Bool-cases (eqb d line_feed)) [
    | inl f ↦
        rw ((eqb_iff c carriage_return).0 r, (eqb_iff d line_feed).0 f)
          (escape_newlines_pair (marks s)
            ∙ ap (λ x. escaped_newline ++ x) (escape_newlines-marks s))
    | inr g ↦
        rw ((eqb_iff c carriage_return).0 r, newlines_return d s g)
          (escape_newlines-return_marks d s g
            ∙ ap (λ x. escaped_newline ++ x) (escape_newlines-marks (d ∷ s)))
  ]
  | inr n ↦ rw (newlines_other c d s n) (
      escape_newlines-mark c (marks (d ∷ s)) n
      ∙ ap (λ x. escape_char c ++ x) (escape_newlines-marks (d ∷ s)))
]

unescape_other : (c : ℕ) (s : Text) → eqb c backslash ≡ false → unescape (c ∷ s) ≡ c ∷ unescape s
unfolding unescape
unescape_other c [] h = refl
unescape_other c (d ∷ s) h = ground (arith, h)

unescape_mark : (d : ℕ) (s : Text) → unescape (backslash ∷ d ∷ s) ≡ unescaped d ∷ unescape s
unfolding unescape
unescape_mark d s = refl

unescape-escaped : (u : Text) → unescape (escaped u) ≡ u
unescape-escaped [] = unescape_nil
unescape-escaped (c ∷ u) = elim (Bool-cases (eqb c line_feed)) [
  | inl f ↦
      rw ((eqb_iff c line_feed).0 f)
        (unescape_mark 110 (escaped u) ∙ ap (λ x. line_feed ∷ x) (unescape-escaped u))
  | inr g ↦ elim (Bool-cases (is_mark c)) [
    | inl m ↦
        let same : unescaped c ≡ c = ground (arith, m) in
        rw (g, m) (unescape_mark c (escaped u) ∙ rw (same, unescape-escaped u) refl)
    | inr n ↦
        let plain : eqb c backslash ≡ false = ground (arith, n) in
        rw (g, n) (unescape_other c (escaped u) plain ∙ rw (unescape-escaped u) refl)
  ]
]

abbrev pub breaks_line : ℕ → Bool
breaks_line c = eqb c line_feed || eqb c carriage_return

newlines-no_return : (t : Text) → all (λ c. not (eqb c carriage_return)) (newlines t) ≡ true
unfolding newlines
newlines-no_return [] = refl
newlines-no_return (c ∷ []) = ground arith
newlines-no_return (c ∷ d ∷ s) = ground (arith, newlines-no_return s, newlines-no_return (d ∷ s))

escaped-one_line :
    (u : Text)
    → all (λ c. not (eqb c carriage_return)) u ≡ true
    → all (λ c. not (breaks_line c)) (escaped u) ≡ true
escaped-one_line [] h = refl
escaped-one_line (c ∷ u) h = ground (arith, escaped-one_line u, h)

-- A calendar that reads an escaped text gets the text back, with each of its line breaks as a
-- single line feed; and the escaped text has no line break of its own, so that no value can start
-- a content line.
pub unescape-escape_ical :
    (t : Text)
    → (unescape (escape_ical t) ≡ newlines t)
      × (all (λ c. not (breaks_line c)) (escape_ical t) ≡ true)
unfolding escape_ical
unescape-escape_ical t =
    let e = ap escape_newlines (escape_marks-marks t) ∙ escape_newlines-marks t in
    rw e (unescape-escaped (newlines t), escaped-one_line (newlines t) (newlines-no_return t))
