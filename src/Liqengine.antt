-- ===== src/Liqengine.antt =====
-- The liquidation engine (liqengine/): which orders and takeovers an account under its margin gets,
-- and the service that walks over the accounts.
pub mod Account
pub mod Engine
pub mod Orders
pub mod Required
pub mod Filled
pub mod Service
pub mod Handle
pub mod Justified
pub mod Assistant
pub mod Polling
pub mod Insurance
pub mod Tests
