-- ===== src/Api/Funds.antt =====
-- The funds behind the withdrawals of Balance.
use Prim.Native.String.{String}
use rabbit_dex_backend.Common.{
  ◌≡◌, refl, ◌⊎◌, inl, inr, Bool, true, false, not, Option, none, some, [], ◌∷◌, if◌then◌else◌,
  arith, Bool-cases, All, All-append,
}
use rabbit_dex_backend.Float64.{Float64, Convert, Le, Lt, le_f→Le, not_le→Lt}
use rabbit_dex_backend.Decimal.{Decimal, lt_dec}
use rabbit_dex_backend.Api.Balance.{
  Call, acquire_withdraw_lock, release_withdraw_lock, check_withdraw_allowed, invalidate_cache,
  invalidate_cache_and_notify, cached_is_inv3_valid, get_profile_by_wallet, create_withdrawal,
  cancel_withdrawal, cancel_unstake, get_claim_withdrawal_response, process_stake, error,
  given_error, success, Program, Cache, cache_failed, nil_cache, cache, Answers, respond, request,
  with_lock, notify, check_inv3, create, withdraw, handle_withdrawal, round_down_to_tick, min_float,
}

module _ {D : Type 0} where
  -- A predicate on the amount of a withdrawal; it holds of every other request.
  abbrev pub OfWithdrawal : (D → Type 0) → Call D → Type 0
  OfWithdrawal P acquire_withdraw_lock = Unit
  OfWithdrawal P release_withdraw_lock = Unit
  OfWithdrawal P check_withdraw_allowed = Unit
  OfWithdrawal P invalidate_cache = Unit
  OfWithdrawal P invalidate_cache_and_notify = Unit
  OfWithdrawal P cached_is_inv3_valid = Unit
  OfWithdrawal P get_profile_by_wallet = Unit
  OfWithdrawal P (create_withdrawal amount) = P amount
  OfWithdrawal P (cancel_withdrawal _) = Unit
  OfWithdrawal P (cancel_unstake _) = Unit
  OfWithdrawal P (get_claim_withdrawal_response _) = Unit
  OfWithdrawal P (process_stake _ _ _) = Unit

  abbrev Made : (D → Type 0) → Program D → Type 0
  Made P p = All (OfWithdrawal P) p.calls

  if-Made :
      (P : D → Type 0) (b : Bool) (p q : Program D)
      → (b ≡ true → Made P p)
      → (b ≡ false → Made P q)
      → Made P (if b then p else q)
  if-Made P true p q h k = h refl
  if-Made P false p q h k = k refl

  with_lock-Made :
      (P : D → Type 0) (acquired released : Bool) (locked : String) (body : Program D)
      → Made P body
      → Made P (with_lock acquired released locked body)
  unfolding with_lock
  with_lock-Made P true released locked body h =
      (tt, All-append (OfWithdrawal P) body.calls (release_withdraw_lock ∷ []) h (tt, tt))
  with_lock-Made P false released locked body h = (tt, tt)

  notify-Made : (P : D → Type 0) (a : Answers D) (failed : String) → Made P (notify a failed)
  unfolding notify
  notify-Made P a failed =
      (tt, if-Made P a.notify_ok (respond success) (respond (error failed)) (λ e. tt) (λ e. tt))

  check_inv3-Made :
      (P : D → Type 0) (a : Answers D) (body : Program D)
      → (a.inv3_valid ≡ some true → Made P body)
      → Made P (check_inv3 a body)
  unfolding check_inv3
  check_inv3-Made P a body h = (tt, go a.inv3_valid h)
    where
      go :
          (o : Option Bool)
          → (o ≡ some true → Made P body)
          → Made P (elim o as (λ x. Program D) [
            | none ↦ respond given_error
            | some valid ↦ if valid then body else respond (error "INV3_BROKEN")
          ])
      go none k = tt
      go (some true) k = k refl
      go (some false) k = tt

not-true : (b : Bool) → not b ≡ true → b ≡ false
not-true true e = let x = e in cc
not-true false e = refl

not-false : (b : Bool) → not b ≡ false → b ≡ true
not-false true e = refl
not-false false e = let x = e in cc

module _ {F : Type 0} ⦃fl : Float64 F⦄ where
  open fl use {lit, le_f, mul, div, thousands}

  -- A size rounded down to a whole number of ticks, or kept where there is no tick. The code counts
  -- thousandths of a tick and cuts them off.
  abbrev in_ticks : F → F → F
  in_ticks tick size =
      if le_f tick (lit 0)
      then size
      else mul (thousands (div (mul size (lit 10_000_000)) tick)) tick

  -- The lesser of the balance and of the request.
  abbrev IsLesser : F → F → F → Type 0
  IsLesser x y z = ((z ≡ x) ⊎ (z ≡ y)) × Le z x × Le z y

  min_float-IsLesser : (x y : F) → IsLesser x y (min_float x y)
  min_float-IsLesser x y = elim (Bool-cases (le_f y x)) [
    | inl e ↦ rw e (inr refl, le_f→Le y x e, omega arith)
    | inr e ↦ rw e (inl refl, omega arith, let l = not_le→Lt y x e in omega arith)
  ]

module _ {D F : Type 0} ⦃dec : Decimal D⦄ ⦃fl : Float64 F⦄ ⦃cv : Convert D F⦄ where
  open dec use {nil, le_dec}
  open fl use {lit, le_f}
  open cv use {to_float, of_float}

  -- A withdrawal of `x` is covered: the profile is active and has no pending one, the request is for
  -- a positive amount, the profile's cache has a positive withdrawable balance of at least `x`, and
  -- the exchange's third invariant holds; `x` is the lesser of the two amounts, in whole ticks.
  abbrev pub IsCovered : Answers D → F → F → D → Type 0
  IsCovered a usdt_tick amount x =
      (balance : D) × (a.profile_cache ≡ cache balance)
      × (le_dec x balance ≡ true)
      × (le_dec balance nil ≡ false)
      × (a.status_active ≡ true)
      × (a.withdraw_allowed ≡ true)
      × (a.inv3_valid ≡ some true)
      × Lt (lit 0) amount
      × ((lesser : F) × IsLesser (to_float balance) amount lesser
          × (x ≡ of_float (in_ticks usdt_tick lesser)))

  create-Made :
      (P : D → Type 0) (a : Answers D) (balance : D) (available : F)
      → (le_dec (of_float available) balance ≡ true → P (of_float available))
      → Made P (create a balance available)
  unfolding create
  create-Made P a balance available h =
      if-Made P (lt_dec balance (of_float available)) (respond (error "NOT_ENOUGH_FUNDS"))
        (request (create_withdrawal (of_float available)) rest) (λ e. tt)
        (λ e. (
          h (not-false _ e),
          if-Made P a.request_ok (notify a "WITHDRAW_CACHE_ERROR") (respond given_error)
              (λ e'. notify-Made P a "WITHDRAW_CACHE_ERROR") (λ e'. tt),
        ))
    where
      rest : Program D
      rest = if a.request_ok then notify a "WITHDRAW_CACHE_ERROR" else respond given_error

  withdraw-Made :
      (a : Answers D) (usdt_tick amount : F) (balance : D)
      → a.profile_cache ≡ cache balance
      → a.status_active ≡ true
      → a.withdraw_allowed ≡ true
      → Made (IsCovered a usdt_tick amount) (withdraw a usdt_tick amount balance)
  unfolding withdraw round_down_to_tick
  withdraw-Made a usdt_tick amount balance e active allowed =
      check_inv3-Made P a (if le_f amount (lit 0) then respond (error "WRONG_AMOUNT") else rest)
        (λ valid.
          if-Made P (le_f amount (lit 0)) (respond (error "WRONG_AMOUNT")) rest (λ k. tt)
            (λ positive.
              if-Made P (le_dec balance nil) (respond (error "NOT_ENOUGH_FUNDS")) made (λ k. tt)
                (λ funded. create-Made P a balance available (λ le. (
                  balance,
                  e,
                  le,
                  funded,
                  active,
                  allowed,
                  valid,
                  not_le→Lt amount (lit 0) positive,
                  (
                    min_float (to_float balance) amount,
                    min_float-IsLesser (to_float balance) amount,
                    refl,
                  ),
                )))))
    where
      P : D → Type 0
      P = IsCovered a usdt_tick amount

      available : F
      available = round_down_to_tick (min_float (to_float balance) amount) usdt_tick

      made : Program D
      made = create a balance available

      rest : Program D
      rest = if le_dec balance nil then respond (error "NOT_ENOUGH_FUNDS") else made

  -- Whatever Tarantool answers and however the float64 rounds, `HandleWithdrawal` requests a
  -- withdrawal only for a request with a positive amount and only if it is covered: the profile is
  -- active and has no pending withdrawal, its withdrawable balance is positive and not below the
  -- amount asked for from Tarantool, and the third invariant holds. That amount is the lesser of the
  -- balance and of the request's, rounded down to the tick; so it may be zero.
  pub handle_withdrawal-IsCovered :
      (a : Answers D) (usdt_tick amount : F)
      → All
          (OfWithdrawal (IsCovered a usdt_tick amount))
          (handle_withdrawal a usdt_tick amount).calls
  unfolding handle_withdrawal
  handle_withdrawal-IsCovered a usdt_tick amount =
      if-Made P (not a.bind_ok) (respond given_error) behind_bind (λ e. tt)
        (λ e.
          if-Made P (not a.status_active) (respond (error "PROFILE_NOT_ACTIVE")) locked (λ k. tt)
            (λ active.
              with_lock-Made P a.acquire_ok a.release_ok "WITHDRAW_UNAVAILABLE_LOCK_ACQUIRE_ERROR"
                body
                (
                  tt,
                  if-Made P (not a.withdraw_allowed)
                      (respond (error "WITHDRAW_UNAVAILABLE_PENDING_EXIST"))
                      (request invalidate_cache (cached a.profile_cache)) (λ k. tt)
                      (λ allowed.
                        (tt, go a.profile_cache refl (not-false _ active) (not-false _ allowed))),
                )))
    where
      P : D → Type 0
      P = IsCovered a usdt_tick amount

      cached : Cache D → Program D
      cached o = elim o [
        | cache_failed ↦ respond given_error
        | nil_cache ↦ respond (error "WITHDRAW_UNAVAILABLE_CACHE_NOT_EXIST")
        | cache balance ↦ withdraw a usdt_tick amount balance
      ]

      body : Program D
      body = request check_withdraw_allowed (
          if not a.withdraw_allowed
          then respond (error "WITHDRAW_UNAVAILABLE_PENDING_EXIST")
          else request invalidate_cache (cached a.profile_cache))

      locked : Program D
      locked = with_lock a.acquire_ok a.release_ok "WITHDRAW_UNAVAILABLE_LOCK_ACQUIRE_ERROR" body

      behind_bind : Program D
      behind_bind = if not a.status_active then respond (error "PROFILE_NOT_ACTIVE") else locked

      go :
          (o : Cache D)
          → a.profile_cache ≡ o
          → a.status_active ≡ true
          → a.withdraw_allowed ≡ true
          → Made P (cached o)
      go cache_failed e active allowed = tt
      go nil_cache e active allowed = tt
      go (cache balance) e active allowed =
          withdraw-Made a usdt_tick amount balance e active allowed
