-- ===== src/Api/Balance.antt =====
-- Handlers of api/balance.go that take the withdrawal lock of the profile, as programs: the requests
-- to Tarantool that they make, in order, and the responses that they write. What Tarantool answers
-- is an argument. `defer` asks for the release of the lock at every way out, a panic too.
use Prim.Native.String.{String}
use text.Mathlib.Text.{◌==◌ as str_eq}
use rabbit_dex_backend.Common.{
  ℕ, Bool, false, not, Option, none, some, List, [], ◌∷◌, ◌++◌, if◌then◌else◌,
}
use rabbit_dex_backend.Float64.{Float64, Convert, lt_f}
use rabbit_dex_backend.Decimal.{Decimal, lt_dec}

pub data Call (D : Type 0) : Type 0 where
  acquire_withdraw_lock release_withdraw_lock check_withdraw_allowed : Call D
  invalidate_cache invalidate_cache_and_notify cached_is_inv3_valid : Call D
  get_profile_by_wallet : Call D
  create_withdrawal : D → Call D
  cancel_withdrawal cancel_unstake : ℕ → Call D
  get_claim_withdrawal_response : ℕ → Call D
  -- the vault's profile, the amount and the vault's `CurrentNav`
  process_stake : ℕ → D → D → Call D

-- `ErrorResponse` with an error of its own or with one of Tarantool, `SuccessResponse`, and a panic.
pub data Response : Type 0 where
  error : String → Response
  given_error success panic : Response

pub record Program (D : Type 0) : Type 0 where
  pub calls : List (Call D)
  pub responses : List Response
  -- whether the failure of the lock's release is logged
  pub is_release_logged : Bool

-- The cache of a profile, with the field of it that is read, its withdrawable balance or a vault's
-- account equity: an error, nil, or a cache.
pub data Cache (D : Type 0) : Type 0 where
  cache_failed nil_cache : Cache D
  cache : D → Cache D

pub data Vault : Type 0 where
  vault_failed nil_vault : Vault
  profile : ℕ → String → Vault

pub record Answers (D : Type 0) : Type 0 where
  pub bind_ok : Bool
  pub status_active : Bool
  pub acquire_ok : Bool
  pub release_ok : Bool
  pub withdraw_allowed : Bool
  pub profile_cache : Cache D
  pub vault_profile : Vault
  pub vault_cache : Cache D
  pub inv3_valid : Option Bool
  -- whether the request that the handler is for succeeds
  pub request_ok : Bool
  pub notify_ok : Bool

module _ {D : Type 0} where
  abbrev pub respond : Response → Program D
  respond r = record { calls = []; responses = r ∷ []; is_release_logged = false }

  abbrev pub request : Call D → Program D → Program D
  request c p = record p { calls = c ∷ p.calls }

  -- A response behind which the handler goes on.
  abbrev pub respond_on : Response → Program D → Program D
  respond_on r p = record p { responses = r ∷ p.responses }

  -- The lock and its `defer`, which only logs that the release has failed.
  unfoldable pub with_lock : Bool → Bool → String → Program D → Program D
  with_lock acquire_ok release_ok locked body = request acquire_withdraw_lock (
      if acquire_ok
      then record body {
        calls = body.calls ++ (release_withdraw_lock ∷ []);
        is_release_logged = not release_ok;
      }
      else respond (error locked))

  unfoldable pub notify : Answers D → String → Program D
  notify a failed =
      request invalidate_cache_and_notify
        (if a.notify_ok then respond success else respond (error failed))

  -- `CachedIsInv3Valid`
  unfoldable pub check_inv3 : Answers D → Program D → Program D
  check_inv3 a body = request cached_is_inv3_valid (elim a.inv3_valid [
    | none ↦ respond given_error
    | some valid ↦ if valid then body else respond (error "INV3_BROKEN")
  ])

  -- `CancelWithdrawal`
  unfoldable pub cancel_withdrawal_of : Answers D → ℕ → Program D
  cancel_withdrawal_of a id =
      if not a.bind_ok
      then respond given_error
      else with_lock a.acquire_ok a.release_ok "CANCEL_WITHDRAWAL_UNAVAILABLE_LOCK_ACQUIRE_ERROR" (
          request (cancel_withdrawal id) (
            if not a.request_ok
            then respond given_error
            else request invalidate_cache (elim a.profile_cache [
              | cache_failed ↦ respond (error "CANCEL_WITHDRAWAL_UNAVAILABLE_CACHE_ERROR")
              | nil_cache ↦ check_inv3 a (notify a "CANCEL_WITHDRAWAL_UNAVAILABLE_CACHE_ERROR")
              | cache _ ↦ check_inv3 a (notify a "CANCEL_WITHDRAWAL_UNAVAILABLE_CACHE_ERROR")
            ])))

  -- `ClaimWithdrawal`
  unfoldable pub claim_withdrawal : Answers D → ℕ → Program D
  claim_withdrawal a id =
      if not a.bind_ok
      then respond given_error
      else with_lock a.acquire_ok a.release_ok "CLAIM_WITHDRAWAL_UNAVAILABLE_LOCK_ACQUIRE_ERROR" (
          request (get_claim_withdrawal_response id)
            (if a.request_ok then respond success else respond given_error))

  -- `CancelUnstake`
  unfoldable pub cancel_unstake_of : Answers D → ℕ → Program D
  cancel_unstake_of a id =
      if not a.bind_ok
      then respond given_error
      else with_lock a.acquire_ok a.release_ok "CANCEL_UNSTAKE_UNAVAILABLE_LOCK_ACQUIRE_ERROR" (
          request (cancel_unstake id) (
            if a.request_ok
            then notify a "UNSTAKE_CACHE_ERROR"
            else respond (error "CANCEL_UNSTAKE_FAILED")))

  -- `HandleStakeFromBalance` behind the vault's profile.
  unfoldable pub stake_in : Answers D → D → ℕ → Program D
  stake_in a amount vault_id = request invalidate_cache (elim a.vault_cache [
    | cache_failed ↦ respond given_error
    | nil_cache ↦ respond panic
    | cache current_nav ↦ request (process_stake vault_id amount current_nav) (
        if a.request_ok
        then notify a "STAKE_CACHE_ERROR"
        else respond (error "STAKE_FROM_BALANCE_ERROR"))
  ])

  unfoldable pub find_vault : Answers D → D → Program D
  find_vault a amount = request get_profile_by_wallet (elim a.vault_profile [
    | vault_failed ↦ respond given_error
    | nil_vault ↦ respond_on (error "STAKE_TARGET_IS_NOT_A_VAULT") (respond panic)
    | profile id type ↦
        if str_eq type "vault"
        then stake_in a amount id
        else respond_on (error "STAKE_TARGET_IS_NOT_A_VAULT") (stake_in a amount id)
  ])

module _ {F : Type 0} ⦃fl : Float64 F⦄ where
  open fl use {lit, mul, div, thousands, le_f}

  -- `RoundDownToTick` of tick/tick.go
  unfoldable pub round_down_to_tick : F → F → F
  round_down_to_tick size tick =
      if le_f tick (lit 0)
      then size
      else mul (thousands (div (mul size (lit 10_000_000)) tick)) tick

  -- `math.Min`
  abbrev pub min_float : F → F → F
  min_float x y = if lt_f x y then x else y

module _ {D F : Type 0} ⦃dec : Decimal D⦄ ⦃fl : Float64 F⦄ ⦃cv : Convert D F⦄ where
  open dec use {nil, le_dec}
  open fl use {lit, le_f}
  open cv use {to_float, of_float}

  unfoldable pub create : Answers D → D → F → Program D
  create a balance available =
      if lt_dec balance (of_float available)
      then respond (error "NOT_ENOUGH_FUNDS")
      else request (create_withdrawal (of_float available))
          (if a.request_ok then notify a "WITHDRAW_CACHE_ERROR" else respond given_error)

  -- `HandleWithdrawal` behind its cache, with `USDT_TICK`.
  unfoldable pub withdraw : Answers D → F → F → D → Program D
  withdraw a usdt_tick amount balance = check_inv3 a (
      if le_f amount (lit 0)
      then respond (error "WRONG_AMOUNT")
      else if le_dec balance nil
      then respond (error "NOT_ENOUGH_FUNDS")
      else create a balance (round_down_to_tick (min_float (to_float balance) amount) usdt_tick))

  unfoldable pub handle_withdrawal : Answers D → F → F → Program D
  handle_withdrawal a usdt_tick amount =
      if not a.bind_ok
      then respond given_error
      else if not a.status_active
      then respond (error "PROFILE_NOT_ACTIVE")
      else with_lock a.acquire_ok a.release_ok "WITHDRAW_UNAVAILABLE_LOCK_ACQUIRE_ERROR" (
          request check_withdraw_allowed (
            if not a.withdraw_allowed
            then respond (error "WITHDRAW_UNAVAILABLE_PENDING_EXIST")
            else request invalidate_cache (elim a.profile_cache [
              | cache_failed ↦ respond given_error
              | nil_cache ↦ respond (error "WITHDRAW_UNAVAILABLE_CACHE_NOT_EXIST")
              | cache balance ↦ withdraw a usdt_tick amount balance
            ])))

  -- `HandleStakeFromBalance`
  unfoldable pub handle_stake_from_balance : Answers D → F → Program D
  handle_stake_from_balance a amount =
      if not a.bind_ok
      then respond given_error
      else with_lock a.acquire_ok a.release_ok "STAKE_UNAVAILABLE_LOCK_ACQUIRE_ERROR" (
          request invalidate_cache (elim a.profile_cache [
            | cache_failed ↦ respond given_error
            | nil_cache ↦ respond panic
            | cache balance ↦
                if lt_dec balance (of_float amount)
                then respond_on (error "NOT_ENOUGH_FUNDS") (find_vault a (of_float amount))
                else find_vault a (of_float amount)
          ]))
