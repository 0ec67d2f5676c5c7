-- ===== src/Freshness.antt =====
-- app/freshness.py: how old the data of the declared pipeline is.
pub mod Entries
pub mod Summary
pub mod Verdict
