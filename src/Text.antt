-- ===== src/Text.antt =====
-- The f-strings that name windows, permits and events: decimal print of a count, and a key with
-- its count behind a colon. The print is Python's `str(int)` of a count that is not negative.
mod Decimal
pub use Decimal.{numbered_injective, numbered-suc-ne}
unfoldable pub use Decimal.{decimal, numbered}
