-- ===== src/Profile.antt =====
-- The profile service (profile/): tiers by traded volume.
pub mod TierCalc
pub mod Picks
pub mod Recalculate
pub mod Periodics
pub mod Updates
pub mod Tests
