-- ===== src/Dispatcher.antt =====
-- `WatchScheduleDispatcher` of backend/workers/dispatcher.py: due schedule markers become queue
-- publications, each under a lease of the store.
mod Sweep
pub mod Flight
unfoldable pub use Sweep.*
