-- ===== src/Redis.antt =====
-- `RedisWatchRepository` of backend/db/repositories/watches.py and the Lua scripts of
-- backend/db/repositories/watch_scripts.py that it runs.
mod State
mod Scripts
mod Methods
pub mod View
pub mod Tied
mod Claiming
mod Creating
pub mod Leader
pub mod Dispatch
pub mod Documents
pub mod Recovery
pub mod Race
pub mod Calls
pub mod Refine
mod Keeps
mod Ending
mod Committing
unfoldable pub use State.*
unfoldable pub use Scripts.*
unfoldable pub use Methods.*
