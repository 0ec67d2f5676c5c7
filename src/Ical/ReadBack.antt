-- ===== src/Ical/ReadBack.antt =====
-- What a reader finds in the feed of app/ical.py.
use mathlib.Core.Bool.{true≢false}
use fincal.Prelude.{
  ℕ, zero, suc, ◌≡◌, refl, sym, ap, ◌∙◌, Bool, true, false, List, [], ◌∷◌, ◌++◌, not, all, arith,
  inl, inr, Bool-cases, and_parts, length, leb,
}
use fincal.Prelude.Int.{ℤ}
use fincal.Prelude.Text.{Text}
use fincal.Calendar.{Date}
use fincal.Fiscal.Row.{Row}
use fincal.Ical.Fold.{encode, indent, fold_bytes, fold_line, fold_ical_lines}
use fincal.Ical.Utf8.{is_scalar}
use fincal.Ical.Fits.{fit, fit_joins, scalars-fit}
use fincal.Ical.Folding.{room, fold_bytes_end, fold_bytes_round}
use fincal.Ical.Unfolding.{
  is_continuation, is_content, no_fuel, unfold_lines, unfold-fold_ical_lines,
}
use fincal.Ical.Plain.{is_plain, is_line, plain-append, feed_lines_plain}
use fincal.Ical.Feed.{Environment, header, join, feed_lines, generate_ical}
use fincal.Ical.Reading.{read_feed, crlf, split-join}

plain_split : (s t : Text) → is_plain (s ++ t) ≡ true → (is_plain s ≡ true) × (is_plain t ≡ true)
plain_split [] t h = (refl, h)
plain_split (c ∷ s) t h = ground (arith, plain_split s t, h)

indent_plain : (first : Bool) → is_plain (indent first) ≡ true
indent_plain true = refl
indent_plain false = refl

all_plain-append :
    (xs ys : List Text)
    → all is_plain xs ≡ true
    → all is_plain ys ≡ true
    → all is_plain (xs ++ ys) ≡ true
all_plain-append [] ys h k = k
all_plain-append (x ∷ xs) ys h k = ground (arith, all_plain-append xs ys, h, k)

fold_bytes_plain :
    (fuel : ℕ) (first : Bool) (t : Text)
    → all is_scalar t ≡ true
    → is_plain t ≡ true
    → all is_plain (fold_bytes fuel first (encode t)) ≡ true
fold_bytes_plain zero first t h plain = ap (all is_plain) (no_fuel first (encode t))
fold_bytes_plain (suc fuel) first [] h plain = ap (all is_plain) (fold_bytes_end (suc fuel) first)
fold_bytes_plain (suc fuel) first (c ∷ s) h plain =
    let t = c ∷ s in
    let n = room first t in
    let (a, b) = plain_split (fit n t).0 (fit n t).1 (ap is_plain (fit_joins n t) ∙ plain) in
    let later = fold_bytes_plain fuel false (fit n t).1 (scalars-fit n t h) b in
    let piece = plain-append (indent first) (fit n t).0 (indent_plain first) a in
    rw (fold_bytes_round fuel first c s h, later, piece) refl

fold_line_plain :
    (l : Text) → all is_scalar l ≡ true → is_plain l ≡ true → all is_plain (fold_line l) ≡ true
unfolding fold_line
fold_line_plain l h plain = elim (Bool-cases (leb (length (encode l)) 75)) [
  | inl short ↦ rw (short, plain) refl
  | inr long ↦ rw long (fold_bytes_plain (length (encode l)) true l h plain)
]

fold_plain :
    (lines : List Text)
    → all is_content lines ≡ true
    → all is_line lines ≡ true
    → all is_plain (fold_ical_lines lines) ≡ true
unfolding fold_ical_lines
fold_plain [] h k = refl
fold_plain (l ∷ lines) h k =
    let (content, contents) = and_parts (is_content l) (all is_content lines) h in
    let scalars = (and_parts (all is_scalar l) (not (is_continuation l)) content).0 in
    let (own, others) = and_parts (is_line l) (all is_line lines) k in
    let plain = (and_parts (is_plain l) (not (is_continuation l)) own).0 in
    all_plain-append (fold_line l) (fold_ical_lines lines) (fold_line_plain l scalars plain)
      (fold_plain lines contents others)

abbrev is_nothing : List Text → Bool
is_nothing [] = true
is_nothing (l ∷ ls) = false

unfold_nothing : unfold_lines [] ≡ []
unfolding unfold_lines
unfold_nothing = refl

-- Lines that can be encoded, and are lines, are content lines.
contents :
    (lines : List Text)
    → all (all is_scalar) lines ≡ true
    → all is_line lines ≡ true
    → all is_content lines ≡ true
contents [] h k = refl
contents (l ∷ lines) h k = ground (arith, contents lines, h, k)

feed_some :
    (env : Environment) (title_lang : Text) (earnings : List Row)
    → is_nothing (feed_lines env title_lang earnings) ≡ false
unfolding feed_lines header
feed_some env title_lang earnings = refl

read_back :
    (folded lines : List Text)
    → unfold_lines folded ≡ lines
    → all is_plain folded ≡ true
    → is_nothing lines ≡ false
    → read_feed (join crlf folded) ≡ lines
read_back [] lines h plain some_line =
    absurd (true≢false (ap is_nothing (sym unfold_nothing ∙ h) ∙ some_line))
read_back (f ∷ fs) lines h plain some_line = ap unfold_lines (split-join f fs plain) ∙ h

-- The feed is read back line by line: when its text can be encoded, and no moment that is written
-- out has a line break, a calendar that splits the feed at the line breaks and joins the
-- continuations finds exactly the content lines that were generated, so that no name, date or
-- figure of an event adds, ends or hides a line.
pub read_feed-generate_ical :
    (env : Environment) (title_lang : Text) (earnings : List Row)
    → ((t : ℤ) → is_plain (env.format_moment t) ≡ true)
    → ((d : Date) (t m : Text) → is_plain (env.utc_timestamp d t m) ≡ true)
    → all (all is_scalar) (feed_lines env title_lang earnings) ≡ true
    → read_feed (generate_ical env title_lang earnings) ≡ feed_lines env title_lang earnings
unfolding generate_ical
read_feed-generate_ical env title_lang earnings moments stamps scalars =
    let lines = feed_lines env title_lang earnings in
    let plain = feed_lines_plain env title_lang moments stamps earnings in
    let content = contents lines scalars plain in
    read_back (fold_ical_lines lines) lines (unfold-fold_ical_lines lines content).0
      (fold_plain lines content plain) (feed_some env title_lang earnings)
