-- ===== src/Throttle.antt =====
-- `SlidingWindowThrottle` of backend/services/throttle.py: a bounded count of recent events per key.
mod Window
pub mod Quota
pub mod Tracked
pub mod Full
pub mod Runs
unfoldable pub use Window.*
