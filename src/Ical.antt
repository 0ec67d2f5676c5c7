-- ===== src/Ical.antt =====
-- app/ical.py: the texts of the calendar feed.
pub mod Escape
pub mod Escaping
pub mod Fold
pub mod Utf8
pub mod Fits
pub mod Cuts
pub mod Folding
pub mod Unfolding
pub mod Events
pub mod Revisions
pub mod Dedupe
pub mod Identities
pub mod Labels
pub mod Feed
pub mod Plain
pub mod Reading
pub mod ReadBack
