-- ===== src/Ical/Labels.antt =====
-- app/ical.py: the words of the feed in its two languages.
use fincal.Prelude.{Option, none, some, [], ◌++◌, if◌then◌else◌}
use fincal.Prelude.Interfaces.{◌==◌, nat_eq, list_eq}
use fincal.Prelude.Int.{ℤ}
use fincal.Prelude.Text.{Text, codes, strip, is_empty, or_empty}
use fincal.Fiscal.Comparison.{currency_unknown, currency_mismatch, basis_mismatch, basis_unverified}

-- An entry of `_LABELS`.
pub record Label : Type 0 where
  pub en : Text
  pub zh : Text

unfoldable pub company : Label
company = record { en = codes "Company"; zh = codes "公司" }

unfoldable pub fiscal : Label
fiscal = record { en = codes "Fiscal"; zh = codes "财季" }

unfoldable pub timing : Label
timing = record { en = codes "Timing"; zh = codes "时间" }

unfoldable pub date_source : Label
date_source = record { en = codes "Date source"; zh = codes "日期来源" }

unfoldable pub eps_estimate : Label
eps_estimate = record { en = codes "EPS Est"; zh = codes "EPS 预期" }

unfoldable pub eps_actual : Label
eps_actual = record { en = codes "EPS Actual"; zh = codes "EPS 实际" }

unfoldable pub predicted_warning : Label
predicted_warning = record {
  en = codes "⚠ Predicted date (not confirmed)";
  zh = codes "⚠ 预测日期（未经确认）";
}

unfoldable pub unknown_currency : Label
unknown_currency = record { en = codes "currency unknown"; zh = codes "币种未知" }

unfoldable pub pre_market : Label
pre_market = record { en = codes "Pre-market"; zh = codes "盘前" }

unfoldable pub after_hours : Label
after_hours = record { en = codes "After-hours"; zh = codes "盘后" }

unfoldable pub calendar_name : Label
calendar_name = record { en = codes "FinCal Earnings"; zh = codes "FinCal 财报日历" }

unfoldable pub chinese : Text
chinese = codes "zh"

unfoldable pub english : Text
english = codes "en"

-- `_label`: a language that is not in the table reads as English.
unfoldable pub label : Label → Text → Text
label entry title_lang = if title_lang == chinese then entry.zh else entry.en

unfoldable pub separator : Text → Text
separator title_lang = if title_lang == chinese then codes "：" else codes ": "

unfoldable pub labelled : Label → Text → Text → Text
labelled entry value title_lang = label entry title_lang ++ separator title_lang ++ value

-- A language that is not in these tables reads as Chinese, unlike in the others.
unfoldable pub status_marker : Text → Text → Text
status_marker date_status title_lang =
    if date_status == codes "predicted"
    then (if title_lang == english then codes " [Predicted]" else codes " [预测]")
    else if date_status == codes "unavailable"
    then (if title_lang == english then codes " [Unconfirmed]" else codes " [未确认]")
    else []

unfoldable pub company_label : Option Text → Option Text → Text → Text
company_label company_name company_name_en title_lang =
    let company = strip (or_empty company_name) in
    let name_en = strip (or_empty company_name_en) in
    if title_lang == chinese then company else if is_empty name_en then company else name_en

-- The words for a reason, or the reason itself.
unfoldable pub wording : Text → Text → Text
wording reason title_lang =
    if reason == currency_mismatch
    then label (record { en = codes "different currencies"; zh = codes "币种不同" }) title_lang
    else if reason == currency_unknown
    then label (record { en = codes "currency undeclared"; zh = codes "币种未标明" }) title_lang
    else if reason == basis_mismatch
    then label (record { en = codes "different accounting bases"; zh = codes "口径不同" }) title_lang
    else if reason == basis_unverified
    then label (record { en = codes "accounting base unverified"; zh = codes "口径未经同一来源确认" })
        title_lang
    else reason

unfoldable pub comparability_note : Text → Text → Text
comparability_note reason title_lang =
    if title_lang == chinese
    then codes "对比：不可用（" ++ wording reason title_lang ++ codes "；" ++ reason ++ codes "）"
    else codes "Comparability: unavailable ("
      ++ wording reason title_lang
      ++ codes "; "
      ++ reason
      ++ codes ")"

-- `currency or placeholder`
abbrev currency_or : Option Text → Text → Text
currency_or none placeholder = placeholder
currency_or (some currency) placeholder = if is_empty currency then placeholder else currency

-- `show` is the text of a figure.
unfoldable pub attributed_amount : (ℤ → Text) → Text → Option ℤ → Option Text → Text → Text
attributed_amount show name none currency title_lang = []
attributed_amount show name (some value) currency title_lang =
    name
    ++ separator title_lang
    ++ show value
    ++ codes " ("
    ++ currency_or currency (label unknown_currency title_lang)
    ++ codes ")"
