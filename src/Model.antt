-- ===== src/Model.antt =====
-- backend/models and the decision types of backend/db/repositories/watch_decisions.py: the data
-- that the watch engine passes about.
mod Reservation
mod Watches
mod Runtime
mod Decisions
unfoldable pub use Reservation.*
unfoldable pub use Watches.*
unfoldable pub use Runtime.*
unfoldable pub use Decisions.*
