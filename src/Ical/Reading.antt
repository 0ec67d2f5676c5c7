-- ===== src/Ical/Reading.antt =====
-- A reader of the feed of app/ical.py, by RFC 5545, and what it reads.
use fincal.Prelude.{
  ℕ, ◌≡◌, refl, ap, ◌∙◌, true, false, List, [], ◌∷◌, ◌++◌, ◌&&◌, eqb, all, arith, and_parts,
  append_assoc,
}
use fincal.Prelude.Text.{Text}
use fincal.Ical.Unfolding.{unfold_lines}
use fincal.Ical.Plain.{is_plain}
use fincal.Ical.Feed.{join}

abbrev cons_first : ℕ → List Text → List Text
cons_first c [] = (c ∷ []) ∷ []
cons_first c (l ∷ ls) = (c ∷ l) ∷ ls

-- The lines between the line breaks CR LF.
unfoldable pub split_crlf : Text → List Text
split_crlf [] = [] ∷ []
split_crlf (c ∷ []) = (c ∷ []) ∷ []
split_crlf (c ∷ d ∷ s) = elim (eqb c 13 && eqb d 10) [
  | true ↦ [] ∷ split_crlf s
  | false ↦ cons_first c (split_crlf (d ∷ s))
]

abbrev pub crlf : Text
crlf = 13 ∷ 10 ∷ []

-- The content lines of a text.
abbrev pub read_feed : Text → List Text
read_feed text = unfold_lines (split_crlf text)

split_step :
    (c : ℕ) (s : Text) → eqb c 13 ≡ false → split_crlf (c ∷ s) ≡ cons_first c (split_crlf s)
unfolding split_crlf
split_step c [] h = refl
split_step c (d ∷ s) h = ground (arith, h)

split_break : (s : Text) → split_crlf (13 ∷ 10 ∷ s) ≡ [] ∷ split_crlf s
unfolding split_crlf
split_break s = refl

plain_parts :
    (c : ℕ) (l : Text) → is_plain (c ∷ l) ≡ true → (eqb c 13 ≡ false) × (is_plain l ≡ true)
plain_parts c l h = ground (arith, h)

split_nothing : split_crlf [] ≡ [] ∷ []
unfolding split_crlf
split_nothing = refl

split_plain : (l : Text) → is_plain l ≡ true → split_crlf l ≡ l ∷ []
split_plain [] h = split_nothing
split_plain (c ∷ l) h =
    let (other, rest) = plain_parts c l h in
    split_step c l other ∙ ap (cons_first c) (split_plain l rest)

split_plain-append :
    (l s : Text) → is_plain l ≡ true → split_crlf (l ++ 13 ∷ 10 ∷ s) ≡ l ∷ split_crlf s
split_plain-append [] s h = split_break s
split_plain-append (c ∷ l) s h =
    let (other, rest) = plain_parts c l h in
    split_step c (l ++ 13 ∷ 10 ∷ s) other ∙ ap (cons_first c) (split_plain-append l s rest)

pub split-join :
    (l : Text) (ls : List Text)
    → all is_plain (l ∷ ls) ≡ true
    → split_crlf (join crlf (l ∷ ls)) ≡ l ∷ ls
unfolding join
split-join l [] h = split_plain l (and_parts (is_plain l) true h).0
split-join l (m ∷ ls) h =
    let (plain, rest) = and_parts (is_plain l) (all is_plain (m ∷ ls)) h in
    ap split_crlf (append_assoc l crlf (join crlf (m ∷ ls)))
    ∙ split_plain-append l (join crlf (m ∷ ls)) plain
    ∙ ap (λ x. l ∷ x) (split-join m ls rest)
