-- ===== src/Lib.antt =====
-- A model of the Go services of the exchange's backend.
--
-- Parts and files
-- * referrals/ (Referrals): a referrer's level by volume (levels.go and GetLevel of utils.go are
--   Referrals.Levels), the milestones that a rise in volume pays (calculateBonus is
--   Referrals.Bonus), and the commissions on the fees of matched fills (addToFees and
--   calculateFees are Referrals.Fees).
-- * tdecimal/bcd.go (TDecimal): the packed decimals that the services exchange with Tarantool
--   (getNumberLength, encodeStringToBCD, decodeStringFromBCD are TDecimal.Bcd).
-- * profile/tier_calc.go (Profile): the tier that a profile trades at (TierCalc.Recalculate is
--   Profile.TierCalc). The answers of the services that it asks are arguments of the model.
-- * profile/periodics/tier and profile/periodics/onboard_tier (Profile.Periodics): RunOnce of both
--   services, which send the tiers on in batches, and the volumes of profile/volume_cache.go.
-- * liqengine/ (Liqengine): the actions for an account under its margin (liquidation_engine.go is
--   Liqengine.Engine on the data of Liqengine.Account) and the loop over the accounts
--   (ProcessLiquidations of liquidation_service.go is Liqengine.Service, with the log of the calls
--   that it makes); the polling and the account data of tnt_assistant.go are
--   Liqengine.Assistant, and sellOnMarket of insurance_service.go is in Liqengine.Insurance. What
--   Tarantool answers is an argument of the model.
-- * archiver/batcher.go (Archiver): the rows that a snapshot reads from Tarantool in batches
--   (snapshotBatcher is Archiver.Batcher). The select of the broker is an argument.
-- * settlement/ (Settlement): the blocks whose events ethereum_handler.go reads (the loops of
--   processDepositsAndStaking, DistributeYield and completeWithdrawalsAndUnstakes are
--   Settlement.Blocks), what its handlers do with the events (processEvents, depositHandler and the
--   others are Settlement.Events), the pending operations that it cancels
--   (ProcessDroppedDepositsAndStakes is Settlement.Dropped), its claim of the yield
--   (Settlement.ClaimYield), and the suspension of withdrawals in
--   settlement_service.go (ProcessWithdrawal of all the goroutines is Settlement.Withdrawals).
-- * funding/funding_service.go (Funding): ProcessFunding and limit, with the log of PayFunding.
-- * slipstopper/ (Slipstopper): the searches of avl_tree.go over the list of the tree's iterator, and
--   OnPriceUpdate of matcher.go. The tree is a package's.
-- * auth/ (Auth): VerifyProfile of verify.go is in Auth, and the signatures of payload.go are
--   Auth.Payload; OnboardFrontend and OnboardMarketMaker are Auth.Onboard. The cryptography is an
--   argument.
-- * pricing/market_price_service.go (Pricing): the index price of a market from its sources' prices.
-- * api/balance.go (Api): HandleWithdrawal, CancelWithdrawal, ClaimWithdrawal, CancelUnstake and
--   HandleStakeFromBalance are in Api.Balance, as programs of requests and responses.
--   ProcessUnstakes is Api.Unstakes.
-- Common has the shared notation, the tests on numbers, lists, Go's maps (association lists) and
-- the loop that cuts a slice into batches.
--
-- Conventions
-- * github.com/shopspring/decimal is third-party code. Decimal.Decimal is the interface that the
--   models take: a decimal has a positive and a negative part in natural numbers, counted in a
--   common unit, and the laws say what the operations do with them. Decimal.Hundredths is an
--   instance with two places after the point; the concrete runs use it.
-- * Float64.Float64 is the interface for Go's float64: comparisons are exact, rounded operations
--   have no laws; Float64.Convert has the conversions from and to decimals.
--   Float64.Tenthousandths is an instance for the concrete runs.
-- * An error is a value of a result type; where Go panics the model has an error or `none`. In the
--   liquidation engine a pointer is an `Option`, and it is read where Go dereferences it.
-- * The snapshot loop runs on fuel: one round for each row of the space, and one more.
-- * The loops of the settlement run on a list of rounds, each with the answers of the chain and of
--   Tarantool; with the list used up a loop is still running.
-- * ProcessLiquidations runs on the list of answers of GetNextLiqBatch, one for each round.
-- * A loop whose end depends on its data runs on fuel: calculateBonus on 13 rounds (twelve
--   levels, and one more test), the batches on one round for each element and one test.
--
-- Not modelled: SQL, HTTP, Tarantool and websocket calls, generated contract bindings, and the
-- Lua application of Tarantool (another language).
pub mod Common
pub mod Decimal
pub mod Referrals
pub mod TDecimal
pub mod Profile
pub mod Float64
pub mod Liqengine
pub mod Archiver
pub mod Settlement
pub mod Funding
pub mod Slipstopper
pub mod Auth
pub mod Pricing
pub mod Api
