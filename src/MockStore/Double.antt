-- ===== src/MockStore/Double.antt =====
-- A booked slot stays with its key until its protection ends.
pub mod Entries
pub mod Kept
pub mod Booked
