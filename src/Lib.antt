-- ===== src/Lib.antt =====
-- fincal
--
-- FinCal is a calendar of earnings reports for US and Hong Kong stocks. Providers deliver rows
-- (symbol, market, fiscal period, report date, estimates, actuals), which are normalised and
-- written to the table `earnings`; the API, the web page and the iCal feed read them. This library
-- models the parts that decide what a row means and which rows are shown.
--
--   Fiscal (app/fiscal.py)
--     Row          the row of the table, a dict whose missing keys read as None
--     Identity     `fiscal_key`, `fiscal_key_from_parts`, `report_date_of`, `has_actuals`,
--                  `is_disclosure`, `report_type_for_period_type`
--     Authority    `authority_key`, `sort_key`, `_same_date_rank`; Rules has the documented order
--     Scan         the loop with the list `kept` and the dict `positions`, which
--                  `collapse_fiscal_duplicates`, `_collapse_same_date` and
--                  `collapse_rows_by_period` share, and what holds of it
--     Collapse     these three functions
--     Labels       `fiscal_label_consistent`
--     Comparison   `comparison_unavailable_reason`, `growth_unavailable_reason`
--     Unreleased   `hide_unreleased_actuals`
--     Reschedule   the loop of `reschedule_confirmed_rows` on a table with its unique key
--   LayerCache (app/layer_cache.py)
--     State        the tables of `LayerCache` and the methods that are one critical section
--     Producers    `get_or_refresh`, `_trigger_refresh`, `_do_fetch`, cut into their critical
--                  sections, at the calls of the fetcher and at the waiting
--   Symbol (app/symbol.py)
--     Symbol       `to_futu_code`, `from_futu_code`, `normalize`, `bare_ticker`, `market_of`,
--                  `market_mismatch`
--     Stored       `resolve_stored`, `resolve_stored_rows`, the codes of Longbridge, `sort_key`
--   Freshness (app/freshness.py)
--     Entries      `_entry`;  Summary: `check_freshness`, `health_snapshot`
--   Prediction (scripts/predict_earnings.py): `pick_predicted_date`, `next_quarter`
--   Streak (app/phase3.py): `_beat_miss_streak`
--   Audit (app/sync_audit.py, app/timeout_reaper.py)
--     Audit        the table `sync_runs` with its unique index (app/db.py), `finish_run`,
--                  `heartbeat`, `request_cancel`, the checkpoints
--     Retry        `start_run`, `request_retry`, `consume_retry_requests`
--     Reaper       `recover_stale_runs`, `reap_timeout_runs`, the loop of the reaper
--     Steps        the transactions of processes and operators as a step relation on the table
--     Heartbeats   `HeartbeatThrottle`
--   Ical (app/ical.py)
--     Escape       `_escape_ical`;  Fold: `_fold_ical_lines`, on the bytes of UTF-8
--     Events       `_event_uid`, `_event_sequence`, `_dedupe_events`
--     Labels       the words in two languages;  Feed: `generate_ical`
--     Reading      a reader by RFC 5545, against which the feed is stated
--   Singleflight (app/singleflight.py): `Singleflight.do` and `_cleanup`, and the steps of threads
--   Provenance (app/provenance.py, app/sync_quality.py): labels, and the status of a run
--   Calendar and Prelude: dates, texts, dicts and sorting as Python has them.
--
-- The routes call `collapse_fiscal_duplicates` and `hide_unreleased_actuals` on what they read; the
-- scripts call `collapse_rows_by_period` and `fiscal_label_consistent` on what they write, and fill
-- the quarters ahead with predicted dates; the detail panel shows the streak of beats; all of
-- them name stocks through app/symbol.py, and keep remote answers in a `LayerCache`.
--
-- A stage of the pipeline is a run of the table `sync_runs`, which Freshness judges; the feed
-- ranks the rows of a quarter by `Fiscal.Authority` and names the reasons of `Fiscal.Comparison`.
--
-- Conventions. A text is a list of code points; the methods of `str` are those of ASCII. A number of the database is a scaled integer: the
-- code asks whether it is there, or compares two of them. A time is an argument. An exception that
-- a caller sees is `none`. The loop of `_evict_locked` runs on fuel, one round for each entry, and
-- `LayerCache.Bound` shows that this is enough; the decimal digits of a number are printed on fuel,
-- one more than the number; the folding of a line runs on fuel, one round for each byte, and
-- `Ical.Unfolding` shows that nothing is lost. Every other loop is structural. The clocks of a
-- process and of the database are one argument. The time zones, the text of a figure and the
-- format of a moment are fields of the environment of the feed.
--
-- Not modelled: the other functions of app/fiscal.py that drive a database cursor, the routes,
-- the synchronisation scripts, the advisory locks of PostgreSQL, and the interleaving of the
-- producers of a cache, of which only the single steps are here.
pub mod Prelude
pub mod Audit
pub mod Calendar
pub mod Ical
pub mod Fiscal
pub mod LayerCache
pub mod Symbol
pub mod Freshness
pub mod Prediction
pub mod Streak
pub mod Singleflight
pub mod Provenance
pub mod Tests
