-- ===== src/Fiscal.antt =====
-- app/fiscal.py: the fiscal identity of an `earnings` row, which row represents a period, and
-- whether two numbers may be compared.
pub mod Row
pub mod Identity
pub mod Authority
pub mod Scan
pub mod Collapse
pub mod Labels
pub mod Comparison
pub mod Unreleased
pub mod Reschedule
