-- ===== src/Service.antt =====
-- `WatchService` of backend/services/watch_service.py over the in-memory store.
mod Env
mod Builders
mod Sequence
mod Commit
mod Poll
mod Legacy
mod Create
pub mod Answered
pub mod Total
pub mod Isolation
pub mod Documents
pub mod Effects
pub mod Described
unfoldable pub use Env.*
unfoldable pub use Builders.*
unfoldable pub use Sequence.*
unfoldable pub use Commit.*
unfoldable pub use Poll.*
unfoldable pub use Legacy.*
unfoldable pub use Create.*
