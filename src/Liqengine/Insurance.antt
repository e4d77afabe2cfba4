-- ===== src/Liqengine/Insurance.antt =====
-- `sellOnMarket` of liqengine/insurance_service.go, `ClawbackRequired` and `GetOrCreateInsurance` of
-- liqengine/tnt_assistant.go, and `CancelAllOrders` and `QueueLiquidateActions` of
-- liqengine/liquidation_service.go. The answers of Tarantool are arguments; `none` is an error.
use rabbit_dex_backend.Common.{
  ℕ, Bool, true, false, not, ◌&&◌, Option, none, some, List, [], ◌∷◌, ◌++◌, ltb, ◌==◌,
  if◌then◌else◌, length,
}
use rabbit_dex_backend.Float64.{Float64, Convert, lt_f}
use rabbit_dex_backend.Liqengine.Account.{ProfileCache, AccountData}
use rabbit_dex_backend.Liqengine.Engine.{is_interval_passed, waterfall1, required_actions}
use rabbit_dex_backend.Liqengine.Service.{
  Call, wait_for_cancel_all, update_last_checked, queue_if_any, vaults_if_any,
}

pub data SellOutcome : Type 0 where
  sold : ℕ → SellOutcome
  get_data_failed cancel_failed nil_pointer : SellOutcome

-- The answer of `GetProfileById(0)`.
pub data Lookup : Type 0 where
  found : ℕ → Lookup
  profile_not_found lookup_failed : Lookup

-- `GetOrCreateInsurance`; `fatal` ends the process.
pub data Insurance : Type 0 where
  insurance : ℕ → Insurance
  insurance_failed fatal : Insurance

unfoldable pub check_insurance : ℕ → Insurance
check_insurance id = if id == 0 then insurance id else fatal

unfoldable pub get_or_create_insurance : Lookup → Option ℕ → Insurance
get_or_create_insurance (found id) created = check_insurance id
get_or_create_insurance lookup_failed created = insurance_failed
get_or_create_insurance profile_not_found none = insurance_failed
get_or_create_insurance profile_not_found (some id) = check_insurance id

module _ {D : Type 0} where
  -- `CancelAllOrders`: whether it was accepted, and the call.
  unfoldable pub cancel_all_orders : Bool → ProfileCache D → Bool × List (Call D)
  cancel_all_orders accepted profile = (accepted, wait_for_cancel_all profile.profile_id ∷ [])

module _ {D : Type 0} (F : Type 0) ⦃fl : Float64 F⦄ ⦃conv : Convert D F⦄ where
  open fl use {lit}
  open conv use {to_float}

  -- `ClawbackRequired`: the third invariant is broken and the insurance has no margin left.
  -- `none` is a nil pointer.
  unfoldable pub clawback_required : Option Bool → Option (AccountData D) → Option Bool
  clawback_required none account = some false
  clawback_required (some true) account = some false
  clawback_required (some false) none = some false
  clawback_required (some false) (some account) = elim account.cache.account_margin [
    | none ↦ none
    | some margin ↦ some (not (lt_f (lit 10) (to_float margin)))
  ]

  -- `QueueLiquidateActions`: whether it succeeds, and the calls; `none` is a panic.
  unfoldable pub queue_liquidate_actions : Option (AccountData D) → Option (Bool × List (Call D))
  queue_liquidate_actions none = some (false, [])
  queue_liquidate_actions (some account) = elim (required_actions F account) [
    | none ↦ none
    | some required ↦ some (true, queue_if_any required.0 ++ vaults_if_any required.1)
  ]

  -- `sellOnMarket`
  unfoldable pub sell_on_market : ℕ → Bool → Option (AccountData D) → SellOutcome × List (Call D)
  sell_on_market now accepted none = (get_data_failed, [])
  sell_on_market now accepted (some account) =
      let cancel : Call D = wait_for_cancel_all account.cache.profile_id in
      elim account.cache.last_liq_check [
        | none ↦ (nil_pointer, [])
        | some last_liq_check ↦
            if ltb 0 (length account.positions) && is_interval_passed now last_liq_check
            then (if accepted
                then elim (waterfall1 F account) [
                  | none ↦ (nil_pointer, cancel ∷ [])
                  | some actions ↦ (
                    sold (length actions),
                    cancel ∷ queue_if_any actions
                        ++ (update_last_checked account.cache.profile_id ∷ []),
                  )
                ]
                else (cancel_failed, cancel ∷ []))
            else (sold 0, [])
      ]
