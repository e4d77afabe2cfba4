-- ===== src/Referrals.antt =====
-- The referral service's arithmetic: levels by traded volume, the bonus for a milestone that is
-- passed, and the commissions on the fees of matched fills (referrals/levels.go,
-- referrals/utils.go). Amounts are decimals behind the interface of Decimal.
pub mod Levels
pub mod Bonus
pub mod BonusProof
pub mod Fees
pub mod Payouts
mod Tests
