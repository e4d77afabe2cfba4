-- ===== src/Api.antt =====
-- The handlers of the API server (api/).
pub mod Balance
pub mod Locks
pub mod Handlers
pub mod Funds
pub mod Stakes
pub mod Unstakes
pub mod Payouts
pub mod PayoutTests
pub mod Tests
