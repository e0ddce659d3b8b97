-- ===== src/Venues.antt =====
-- backend/data/venues.py: the holiday calendar, the venue catalogue and the matching of names.
pub mod Holidays
pub mod Profiles
pub mod Catalogue
pub mod Matching
pub mod Weekdays
pub mod Resolved
