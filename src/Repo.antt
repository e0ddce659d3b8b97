-- ===== src/Repo.antt =====
-- `InMemoryWatchRepository` of backend/db/repositories/watches.py. Each method is one critical
-- section under the store's lock, so it is a function from the state to the state and a result.
mod State
mod Claims
mod Transitions
mod Dispatch
mod Documents
mod Recovery
pub mod Steps
pub mod Coherent
pub mod Reach
pub mod Fencing
pub mod Final
pub mod Booking
pub mod Retention
unfoldable pub use State.*
unfoldable pub use Claims.*
unfoldable pub use Transitions.*
unfoldable pub use Dispatch.*
unfoldable pub use Documents.*
unfoldable pub use Recovery.*
