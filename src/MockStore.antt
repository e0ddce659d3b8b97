-- ===== src/MockStore.antt =====
-- `InMemoryMockBookingStateRepository` of backend/db/repositories/mock_booking.py: the slots that
-- the mock provider offers, its bookings, and the tombstones that keep a booked slot from coming
-- back. Each method is one critical section.
mod State
mod Search
mod Bookings
pub mod Double
pub mod Offered
pub mod Bookable
unfoldable pub use State.*
unfoldable pub use Search.*
unfoldable pub use Bookings.*
