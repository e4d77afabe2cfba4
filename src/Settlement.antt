-- ===== src/Settlement.antt =====
-- The settlement service (settlement/): deposits, withdrawals and yield between the contracts and
-- the exchange.
pub mod Blocks
pub mod Ranges
pub mod Loops
pub mod Events
pub mod Accounts
pub mod Receipts
pub mod Withdrawals
pub mod Suspension
pub mod Dropped
pub mod ClaimYield
pub mod Tests
