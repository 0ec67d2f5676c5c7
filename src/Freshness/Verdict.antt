-- ===== src/Freshness/Verdict.antt =====
-- When the pipeline counts as healthy, and what is reported when it does not.
use mathlib.Core.Path.{ap₂}
use fincal.Prelude.{
  ℕ, ◌≡◌, refl, ap, ◌∙◌, Bool, true, false, Option, none, some, List, [], ◌∷◌, ◌++◌, ◌&&◌, not,
  if◌then◌else◌, all, arith, inl, inr, Bool-cases,
}
use fincal.Prelude.Interfaces.{◌==◌, ◌<?◌, nat_eq, list_eq, option_eq}
use fincal.Prelude.Int.{ℤ, int_order}
use fincal.Prelude.Text.{Text, codes}
use fincal.Prelude.Dict
use fincal.Freshness.Entries.{
  Kind, Entry, age_of, entry_of, or_no_row, sync_stages, derived_tables, is_stage, status_fresh,
  status_stale, status_never, status_failed, judge_age, error_stage_never, error_stage_failed,
  error_stage_stale, error_data_stale,
}
use fincal.Freshness.Summary.{
  Rows, or_never, table_row, stage_entries, table_entries, names_of, stages_with, has_rows,
  summarize, check_freshness,
}

-- The last success is there, and not older than the threshold.
abbrev pub in_time : ℕ → ℤ → Option ℕ → Bool
in_time now threshold none = false
in_time now threshold (some last_at) = not (threshold <? age_of now last_at)

-- A stage that succeeded in time, and whose most recent run did not fail.
abbrev pub stage_ok : ℕ → ℤ → Rows → Text → Bool
stage_ok now threshold rows name =
    let row = or_no_row (Dict.get name rows.stages) in
    in_time now threshold row.last_success_at && not (row.last_run_status == some status_failed)

abbrev pub table_ok : ℕ → ℤ → Rows → Text → Bool
table_ok now threshold rows name = in_time now threshold (or_never (Dict.get name rows.tables))

-- No entry is listed.
abbrev quiet : List Entry → Bool
quiet entries =
    not (has_rows (stages_with status_never entries))
    && (not (has_rows (stages_with status_failed entries))
        && (not (has_rows (stages_with status_stale entries))
            && not (
                has_rows
                  (names_of (λ k. not (is_stage k)) (λ s. not (s == status_fresh)) entries))))

abbrev entry_ok : Entry → Bool
entry_ok e =
    if is_stage e.kind
    then not (e.status == status_never)
      && (not (e.status == status_failed) && not (e.status == status_stale))
    else e.status == status_fresh

names_of-none :
    (k : Kind → Bool) (t : Text → Bool) (es : List Entry)
    → not (has_rows (names_of k t es)) ≡ all (λ e. not (k e.kind && t e.status)) es
names_of-none k t [] = refl
names_of-none k t (e ∷ es) = elim (Bool-cases (k e.kind && t e.status)) [
  | inl listed ↦ rw listed refl
  | inr other ↦ rw other (names_of-none k t es)
]

regroup :
    (b x y z f p q r s : Bool)
    → ((not (b && x) && p)
        && ((not (b && y) && q) && ((not (b && z) && r) && (not (not b && not f) && s))))
      ≡ ((if b then not x && (not y && not z) else f) && (p && (q && (r && s))))
regroup true true y z f p q r s = ground arith
regroup true false y z f p q r s = ground arith
regroup false x y z true p q r s = ground arith
regroup false x y z false p q r s = ground arith

abbrev not_listed : (Kind → Bool) → (Text → Bool) → List Entry → Bool
not_listed k t = all (λ e. not (k e.kind && t e.status))

abbrev unlisted : List Entry → Bool
unlisted es =
    not_listed is_stage (λ s. s == status_never) es
    && (not_listed is_stage (λ s. s == status_failed) es
        && (not_listed is_stage (λ s. s == status_stale) es
            && not_listed (λ k. not (is_stage k)) (λ s. not (s == status_fresh)) es))

unlisted-ok : (es : List Entry) → unlisted es ≡ all entry_ok es
unlisted-ok [] = refl
unlisted-ok (e ∷ es) =
    regroup (is_stage e.kind) (e.status == status_never) (e.status == status_failed)
      (e.status == status_stale) (e.status == status_fresh)
      (not_listed is_stage (λ s. s == status_never) es)
      (not_listed is_stage (λ s. s == status_failed) es)
      (not_listed is_stage (λ s. s == status_stale) es)
      (not_listed (λ k. not (is_stage k)) (λ s. not (s == status_fresh)) es)
    ∙ ap (λ b. entry_ok e && b) (unlisted-ok es)

quiet-ok : (es : List Entry) → quiet es ≡ all entry_ok es
quiet-ok es =
    ap₂ (λ a b. a && b) (names_of-none is_stage (λ s. s == status_never) es)
      (ap₂ (λ a b. a && b) (names_of-none is_stage (λ s. s == status_failed) es)
        (ap₂ (λ a b. a && b) (names_of-none is_stage (λ s. s == status_stale) es)
          (names_of-none (λ k. not (is_stage k)) (λ s. not (s == status_fresh)) es)))
    ∙ unlisted-ok es

-- The statuses that the judgement gives, and which of them are good.
stage_status :
    (now : ℕ) (threshold : ℤ) (o : Option ℕ) (failed : Bool)
    → (let s = if failed then status_failed else (judge_age Kind.stage o now threshold).1 in
        not (s == status_never) && (not (s == status_failed) && not (s == status_stale)))
      ≡ (in_time now threshold o && not failed)
stage_status now threshold none true = refl
stage_status now threshold none false = refl
stage_status now threshold (some t) true = ground arith
stage_status now threshold (some t) false = elim (Bool-cases (threshold <? age_of now t)) [
  | inl old ↦ rw old refl
  | inr new ↦ rw new refl
]

table_status :
    (now : ℕ) (threshold : ℤ) (o : Option ℕ)
    → ((judge_age Kind.derived o now threshold).1 == status_fresh) ≡ in_time now threshold o
table_status now threshold none = refl
table_status now threshold (some t) = elim (Bool-cases (threshold <? age_of now t)) [
  | inl old ↦ rw old refl
  | inr new ↦ rw new refl
]

entry_ok-stage :
    (now : ℕ) (threshold : ℤ) (rows : Rows) (name : Text)
    → entry_ok (entry_of name Kind.stage now threshold (or_no_row (Dict.get name rows.stages)))
      ≡ stage_ok now threshold rows name
unfolding entry_of
entry_ok-stage now threshold rows name =
    let row = or_no_row (Dict.get name rows.stages) in
    stage_status now threshold row.last_success_at (row.last_run_status == some status_failed)

entry_ok-table :
    (now : ℕ) (threshold : ℤ) (rows : Rows) (name : Text)
    → entry_ok (entry_of name Kind.derived now threshold (table_row (Dict.get name rows.tables)))
      ≡ table_ok now threshold rows name
unfolding entry_of
entry_ok-table now threshold rows name =
    table_status now threshold (or_never (Dict.get name rows.tables))

stage_entries-ok :
    (now : ℕ) (threshold : ℤ) (rows : Rows) (names : List Text)
    → all entry_ok (stage_entries names now threshold rows)
      ≡ all (stage_ok now threshold rows) names
stage_entries-ok now threshold rows [] = refl
stage_entries-ok now threshold rows (name ∷ names) =
    rw (entry_ok-stage now threshold rows name, stage_entries-ok now threshold rows names) refl

table_entries-ok :
    (now : ℕ) (threshold : ℤ) (rows : Rows) (names : List Text)
    → all entry_ok (table_entries names now threshold rows)
      ≡ all (table_ok now threshold rows) names
table_entries-ok now threshold rows [] = refl
table_entries-ok now threshold rows (name ∷ names) =
    rw (entry_ok-table now threshold rows name, table_entries-ok now threshold rows names) refl

all-append_entries :
    (es fs : List Entry) → all entry_ok (es ++ fs) ≡ (all entry_ok es && all entry_ok fs)
all-append_entries [] fs = refl
all-append_entries (e ∷ es) fs = ground (arith, all-append_entries es fs)

code_none :
    (a b c d : Bool)
    → ((if a
          then some error_stage_never
          else if b
          then some error_stage_failed
          else if c
          then some error_stage_stale
          else if d
          then some error_data_stale
          else none)
        == none)
      ≡ (not a && (not b && (not c && not d)))
code_none true b c d = refl
code_none false true c d = refl
code_none false false true d = refl
code_none false false false true = refl
code_none false false false false = refl

summary-quiet :
    (now : ℕ) (threshold : ℤ) (es : List Entry)
    → ((summarize now threshold es).error_code == none) ≡ quiet es
summary-quiet now threshold es =
    code_none (has_rows (stages_with status_never es)) (has_rows (stages_with status_failed es))
      (has_rows (stages_with status_stale es))
      (has_rows (names_of (λ k. not (is_stage k)) (λ s. not (s == status_fresh)) es))

-- The summary of a database that can be read is healthy exactly when every declared stage succeeded
-- in time and did not fail in its most recent run, and every derived table was fetched in time; and
-- it has an error code exactly when it is not healthy.
pub check-healthy_iff :
    (now : ℕ) (threshold : ℤ) (rows : Rows)
    → let healthy =
        all (stage_ok now threshold rows) sync_stages
        && all (table_ok now threshold rows) derived_tables in
      (((check_freshness now threshold (some rows)).error_code == none) ≡ healthy)
      × ((check_freshness now threshold (some rows)).status
          ≡ (if healthy then codes "healthy" else codes "degraded"))
unfolding check_freshness
check-healthy_iff now threshold rows =
    let stages = stage_entries sync_stages now threshold rows in
    let tables = table_entries derived_tables now threshold rows in
    let sound : quiet (stages ++ tables) ≡ (
        all (stage_ok now threshold rows) sync_stages
        && all (table_ok now threshold rows) derived_tables) =
      quiet-ok (stages ++ tables)
      ∙ all-append_entries stages tables
      ∙ ap₂ (λ a b. a && b) (stage_entries-ok now threshold rows sync_stages)
          (table_entries-ok now threshold rows derived_tables) in
    (
      summary-quiet now threshold (stages ++ tables) ∙ sound,
      ap (λ b. if b then codes "healthy" else codes "degraded")
          (summary-quiet now threshold (stages ++ tables) ∙ sound),
    )
