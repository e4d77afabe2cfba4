-- ===== src/Api/Stakes.antt =====
-- The funds behind the stakes of Balance.
use rabbit_dex_backend.Common.{
  ◌≡◌, refl, ap, inl, Bool, true, false, not, [], ◌∷◌, ◌++◌, if◌then◌else◌, In,
}
use rabbit_dex_backend.Float64.{Float64, Convert}
use rabbit_dex_backend.Decimal.{Decimal, lt_dec}
use rabbit_dex_backend.Api.Balance.{
  acquire_withdraw_lock, release_withdraw_lock, invalidate_cache, error, Program, cache, Answers,
  respond_on, with_lock, stake_in, find_vault, notify, handle_stake_from_balance,
}

module _ {D : Type 0} where
  -- The answers, with this withdrawable balance of the staker.
  abbrev pub with_balance : Answers D → D → Answers D
  with_balance a balance = record a { profile_cache = cache balance }

  -- The test of the balance does not end the handler.
  staked-calls :
      (b c : Bool) (found : Program D)
      → (if b then respond_on (error "NOT_ENOUGH_FUNDS") found else found).calls
        ≡ (if c then respond_on (error "NOT_ENOUGH_FUNDS") found else found).calls
  staked-calls true true found = refl
  staked-calls true false found = refl
  staked-calls false true found = refl
  staked-calls false false found = refl

  staked-responses :
      (b : Bool) (found : Program D)
      → b ≡ true
      → In
          (error "NOT_ENOUGH_FUNDS")
          (if b then respond_on (error "NOT_ENOUGH_FUNDS") found else found).responses
  staked-responses true found e = inl refl
  staked-responses false found e = absurd (let x = e in cc)

module _ {D F : Type 0} ⦃dec : Decimal D⦄ ⦃fl : Float64 F⦄ ⦃cv : Convert D F⦄ where
  open dec use {le_dec}
  open cv use {of_float}

  -- For a request that is read and with the lock, a stake of more than the withdrawable balance is
  -- answered with NOT_ENOUGH_FUNDS, but `HandleStakeFromBalance` asks Tarantool for the same, in the
  -- same order, as with any other balance, one that covers the stake too, whatever else Tarantool
  -- answers.
  pub handle_stake_from_balance-overdrawn :
      (a : Answers D) (amount : F) (balance other : D)
      → a.bind_ok ≡ true
      → a.acquire_ok ≡ true
      → le_dec (of_float amount) balance ≡ false
      → In
          (error "NOT_ENOUGH_FUNDS")
          (handle_stake_from_balance (with_balance a balance) amount).responses
        × ((handle_stake_from_balance (with_balance a balance) amount).calls
            ≡ (handle_stake_from_balance (with_balance a other) amount).calls)
  unfolding handle_stake_from_balance with_lock find_vault stake_in notify
  handle_stake_from_balance-overdrawn a amount balance other bound acquired over = rw bound (
      rw acquired (
        staked-responses (lt_dec balance (of_float amount)) found (ap not over),
        ap
            (λ calls.
              acquire_withdraw_lock ∷ invalidate_cache ∷ calls ++ (release_withdraw_lock ∷ []))
            (staked-calls (lt_dec balance (of_float amount)) (lt_dec other (of_float amount))
              found),
      ))
    where
      found : Program D
      found = find_vault a (of_float amount)
