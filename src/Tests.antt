-- ===== src/Tests.antt =====
-- Concrete runs of the program's functions, and each theorem with conditions at an input that
-- meets them.
mod Rows
mod Audit
mod Fiscal
mod Ical
mod LayerCache
mod Symbol
mod Reschedule
mod Freshness
mod Prediction
mod Singleflight
mod Provenance
