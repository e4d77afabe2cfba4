-- ===== src/Api/Handlers.antt =====
-- The handlers of Balance hold the withdrawal lock for what they do.
use Prim.Native.String.{String}
use text.Mathlib.Text.{◌==◌ as str_eq}
use rabbit_dex_backend.Common.{ℕ, ◌≡◌, refl, Bool, true, false, not, if◌then◌else◌}
use rabbit_dex_backend.Float64.{Float64, Convert}
use rabbit_dex_backend.Decimal.{Decimal, lt_dec}
use rabbit_dex_backend.Api.Balance.{
  check_withdraw_allowed, invalidate_cache, create_withdrawal, cancel_withdrawal, cancel_unstake,
  get_claim_withdrawal_response, process_stake, error, given_error, success, panic, Program,
  cache_failed, nil_cache, cache, Vault, vault_failed, nil_vault, profile, Answers, respond,
  request, respond_on, with_lock, notify, check_inv3, cancel_withdrawal_of, claim_withdrawal,
  cancel_unstake_of, create, withdraw, handle_withdrawal, stake_in, find_vault,
  handle_stake_from_balance, round_down_to_tick, min_float,
}
use rabbit_dex_backend.Api.Locks.{
  is_locked, IsInside, with_lock-is_locked, bound-is_locked, if-IsInside, cache-IsInside,
  notify-IsInside, check_inv3-IsInside,
}

module _ {D : Type 0} where
  cancel_withdrawal_of-is_locked :
      (a : Answers D) (id : ℕ)
      → is_locked a.acquire_ok a.release_ok (cancel_withdrawal_of a id) ≡ true
  unfolding cancel_withdrawal_of
  cancel_withdrawal_of-is_locked a id =
      bound-is_locked a.bind_ok a.acquire_ok a.release_ok
        "CANCEL_WITHDRAWAL_UNAVAILABLE_LOCK_ACQUIRE_ERROR"
        (request (cancel_withdrawal id) (if not a.request_ok then respond given_error else rest))
        (
          refl,
          if-IsInside (not a.request_ok) (respond given_error) rest tt (
            refl,
            cache-IsInside a.profile_cache (respond (error failed)) (check_inv3 a (notify a failed))
                (λ balance. check_inv3 a (notify a failed)) tt checked (λ balance. checked),
          ),
        )
    where
      failed : String
      failed = "CANCEL_WITHDRAWAL_UNAVAILABLE_CACHE_ERROR"

      checked : IsInside (check_inv3 a (notify a failed))
      checked = check_inv3-IsInside a (notify a failed) (notify-IsInside a failed)

      rest : Program D
      rest = request invalidate_cache (elim a.profile_cache [
        | cache_failed ↦ respond (error failed)
        | nil_cache ↦ check_inv3 a (notify a failed)
        | cache _ ↦ check_inv3 a (notify a failed)
      ])

  claim_withdrawal-is_locked :
      (a : Answers D) (id : ℕ) → is_locked a.acquire_ok a.release_ok (claim_withdrawal a id) ≡ true
  unfolding claim_withdrawal
  claim_withdrawal-is_locked a id =
      bound-is_locked a.bind_ok a.acquire_ok a.release_ok
        "CLAIM_WITHDRAWAL_UNAVAILABLE_LOCK_ACQUIRE_ERROR"
        (request (get_claim_withdrawal_response id)
          (if a.request_ok then respond success else respond given_error))
        (refl, if-IsInside a.request_ok (respond success) (respond given_error) tt tt)

  cancel_unstake_of-is_locked :
      (a : Answers D) (id : ℕ) → is_locked a.acquire_ok a.release_ok (cancel_unstake_of a id) ≡ true
  unfolding cancel_unstake_of
  cancel_unstake_of-is_locked a id =
      bound-is_locked a.bind_ok a.acquire_ok a.release_ok
        "CANCEL_UNSTAKE_UNAVAILABLE_LOCK_ACQUIRE_ERROR"
        (request (cancel_unstake id) (
          if a.request_ok
          then notify a "UNSTAKE_CACHE_ERROR"
          else respond (error "CANCEL_UNSTAKE_FAILED")))
        (
          refl,
          if-IsInside a.request_ok (notify a "UNSTAKE_CACHE_ERROR")
              (respond (error "CANCEL_UNSTAKE_FAILED")) (notify-IsInside a "UNSTAKE_CACHE_ERROR")
              tt,
        )

  stake_in-IsInside :
      (a : Answers D) (amount : D) (vault_id : ℕ) → IsInside (stake_in a amount vault_id)
  unfolding stake_in
  stake_in-IsInside a amount vault_id = (
    refl,
    cache-IsInside a.vault_cache (respond given_error) (respond panic)
        (λ nav. request (process_stake vault_id amount nav) (
          if a.request_ok
          then notify a "STAKE_CACHE_ERROR"
          else respond (error "STAKE_FROM_BALANCE_ERROR")))
        tt tt
        (λ nav. (
          refl,
          if-IsInside a.request_ok (notify a "STAKE_CACHE_ERROR")
              (respond (error "STAKE_FROM_BALANCE_ERROR")) (notify-IsInside a "STAKE_CACHE_ERROR")
              tt,
        )),
  )

  find_vault-IsInside : (a : Answers D) (amount : D) → IsInside (find_vault a amount)
  unfolding find_vault
  find_vault-IsInside a amount = (refl, go a.vault_profile)
    where
      no_vault : Program D → Program D
      no_vault p = respond_on (error "STAKE_TARGET_IS_NOT_A_VAULT") p

      go :
          (o : Vault)
          → IsInside (elim o as (λ x. Program D) [
            | vault_failed ↦ respond given_error
            | nil_vault ↦ no_vault (respond panic)
            | profile id type ↦
                if str_eq type "vault"
                then stake_in a amount id
                else no_vault (stake_in a amount id)
          ])
      go vault_failed = tt
      go nil_vault = tt
      go (profile id type) =
          if-IsInside (str_eq type "vault") (stake_in a amount id) (no_vault (stake_in a amount id))
            (stake_in-IsInside a amount id) (stake_in-IsInside a amount id)

module _ {D F : Type 0} ⦃dec : Decimal D⦄ ⦃fl : Float64 F⦄ ⦃cv : Convert D F⦄ where
  open dec use {nil, le_dec}
  open fl use {lit, le_f}
  open cv use {to_float, of_float}

  create-IsInside :
      (a : Answers D) (balance : D) (available : F) → IsInside (create a balance available)
  unfolding create
  create-IsInside a balance available =
      if-IsInside (lt_dec balance (of_float available)) (respond (error "NOT_ENOUGH_FUNDS"))
        (request (create_withdrawal (of_float available))
          (if a.request_ok then notify a "WITHDRAW_CACHE_ERROR" else respond given_error))
        tt
        (
          refl,
          if-IsInside a.request_ok (notify a "WITHDRAW_CACHE_ERROR") (respond given_error)
              (notify-IsInside a "WITHDRAW_CACHE_ERROR") tt,
        )

  withdraw-IsInside :
      (a : Answers D) (usdt_tick amount : F) (balance : D)
      → IsInside (withdraw a usdt_tick amount balance)
  unfolding withdraw
  withdraw-IsInside a usdt_tick amount balance = check_inv3-IsInside a _ (
      if-IsInside (le_f amount (lit 0)) (respond (error "WRONG_AMOUNT"))
        (if le_dec balance nil then respond (error "NOT_ENOUGH_FUNDS") else made) tt
        (if-IsInside (le_dec balance nil) (respond (error "NOT_ENOUGH_FUNDS")) made tt (
          create-IsInside a balance
            (round_down_to_tick (min_float (to_float balance) amount) usdt_tick))))
    where
      made : Program D
      made = create a balance (round_down_to_tick (min_float (to_float balance) amount) usdt_tick)

  handle_withdrawal-is_locked :
      (a : Answers D) (usdt_tick amount : F)
      → is_locked a.acquire_ok a.release_ok (handle_withdrawal a usdt_tick amount) ≡ true
  unfolding handle_withdrawal
  handle_withdrawal-is_locked a usdt_tick amount = go a.bind_ok (not a.status_active)
    where
      cached : Program D
      cached = elim a.profile_cache [
        | cache_failed ↦ respond given_error
        | nil_cache ↦ respond (error "WITHDRAW_UNAVAILABLE_CACHE_NOT_EXIST")
        | cache balance ↦ withdraw a usdt_tick amount balance
      ]

      body : Program D
      body = request check_withdraw_allowed (
          if not a.withdraw_allowed
          then respond (error "WITHDRAW_UNAVAILABLE_PENDING_EXIST")
          else request invalidate_cache cached)

      inside : IsInside body
      inside = (
        refl,
        if-IsInside (not a.withdraw_allowed) (respond (error "WITHDRAW_UNAVAILABLE_PENDING_EXIST"))
            (request invalidate_cache cached) tt
            (
              refl,
              cache-IsInside a.profile_cache (respond given_error)
                  (respond (error "WITHDRAW_UNAVAILABLE_CACHE_NOT_EXIST"))
                  (withdraw a usdt_tick amount) tt tt (withdraw-IsInside a usdt_tick amount),
            ),
      )

      go :
          (b s : Bool)
          → is_locked a.acquire_ok a.release_ok (
              if not b
              then respond given_error
              else if s
              then respond (error "PROFILE_NOT_ACTIVE")
              else with_lock a.acquire_ok a.release_ok "WITHDRAW_UNAVAILABLE_LOCK_ACQUIRE_ERROR"
                  body)
            ≡ true
      go false s = refl
      go true true = refl
      go true false =
          with_lock-is_locked a.acquire_ok a.release_ok "WITHDRAW_UNAVAILABLE_LOCK_ACQUIRE_ERROR"
            body inside

  handle_stake_from_balance-is_locked :
      (a : Answers D) (amount : F)
      → is_locked a.acquire_ok a.release_ok (handle_stake_from_balance a amount) ≡ true
  unfolding handle_stake_from_balance
  handle_stake_from_balance-is_locked a amount =
      bound-is_locked a.bind_ok a.acquire_ok a.release_ok "STAKE_UNAVAILABLE_LOCK_ACQUIRE_ERROR"
        (request invalidate_cache (elim a.profile_cache [
          | cache_failed ↦ respond given_error
          | nil_cache ↦ respond panic
          | cache balance ↦ staked balance
        ]))
        (
          refl,
          cache-IsInside a.profile_cache (respond given_error) (respond panic) staked tt tt
              (λ balance.
                if-IsInside (lt_dec balance (of_float amount))
                  (respond_on (error "NOT_ENOUGH_FUNDS") (find_vault a (of_float amount)))
                  (find_vault a (of_float amount)) (find_vault-IsInside a (of_float amount))
                  (find_vault-IsInside a (of_float amount))),
        )
    where
      staked : D → Program D
      staked balance =
          if lt_dec balance (of_float amount)
          then respond_on (error "NOT_ENOUGH_FUNDS") (find_vault a (of_float amount))
          else find_vault a (of_float amount)

  -- Whatever Tarantool answers, to the release of the lock too, the handlers of withdrawals, of their
  -- cancellation and claim, of the cancellation of unstakes and of stakes from the balance ask for
  -- nothing else without the lock, acquire it at most once, and when they have acquired it ask for
  -- its release last, at every way out. If that release fails, this is logged and nothing more is
  -- asked for, so that the lock stays held.
  pub handlers-is_locked :
      (a : Answers D) (usdt_tick amount : F) (id : ℕ)
      → (is_locked a.acquire_ok a.release_ok (handle_withdrawal a usdt_tick amount) ≡ true)
        × (is_locked a.acquire_ok a.release_ok (handle_stake_from_balance a amount) ≡ true)
        × (is_locked a.acquire_ok a.release_ok (cancel_withdrawal_of a id) ≡ true)
        × (is_locked a.acquire_ok a.release_ok (claim_withdrawal a id) ≡ true)
        × (is_locked a.acquire_ok a.release_ok (cancel_unstake_of a id) ≡ true)
  handlers-is_locked a usdt_tick amount id = (
    handle_withdrawal-is_locked a usdt_tick amount,
    handle_stake_from_balance-is_locked a amount,
    cancel_withdrawal_of-is_locked a id,
    claim_withdrawal-is_locked a id,
    cancel_unstake_of-is_locked a id,
  )
