-- ===== src/Offers.antt =====
-- The slots that backend/integrations/mock_booking.py generates for a query.
pub mod Times
pub mod Generate
pub mod Within
