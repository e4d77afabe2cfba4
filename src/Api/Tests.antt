-- ===== src/Api/Tests.antt =====
-- Small requests, and the theorems at them. A decimal and a float64 are counted in the same unit.
use rabbit_dex_backend.Common.{◌≡◌, refl, inl, inr, true, false, some, All, In}
use rabbit_dex_backend.Decimal.Hundredths.{ℤ, pos, hundredths}
use rabbit_dex_backend.Float64.Tenthousandths.{tenthousandths, convert}
use rabbit_dex_backend.Api.Balance.{
  cache, profile, Answers, error, create_withdrawal, with_lock, notify, check_inv3, create,
  withdraw, round_down_to_tick, handle_withdrawal, handle_stake_from_balance, cancel_withdrawal_of,
  claim_withdrawal, cancel_unstake_of,
}
use rabbit_dex_backend.Api.Locks.{is_locked}
use rabbit_dex_backend.Api.Handlers.{handlers-is_locked}
use rabbit_dex_backend.Api.Funds.{OfWithdrawal, IsCovered, handle_withdrawal-IsCovered}
use rabbit_dex_backend.Api.Stakes.{with_balance, handle_stake_from_balance-overdrawn}

-- A profile with 7.00 and no pending withdrawal.
abbrev answers : Answers ℤ
answers = record {
  bind_ok = true;
  status_active = true;
  acquire_ok = true;
  release_ok = false;
  withdraw_allowed = true;
  profile_cache = cache (pos 700);
  vault_profile = profile 9 "vault";
  vault_cache = cache (pos 500);
  inv3_valid = some true;
  request_ok = true;
  notify_ok = true;
}

handlers-is_locked_example :
    (is_locked true false (handle_withdrawal answers (pos 1) (pos 500)) ≡ true)
    × (is_locked true false (handle_stake_from_balance answers (pos 500)) ≡ true)
    × (is_locked true false (cancel_withdrawal_of answers 3) ≡ true)
    × (is_locked true false (claim_withdrawal answers 3) ≡ true)
    × (is_locked true false (cancel_unstake_of answers 3) ≡ true)
handlers-is_locked_example = handlers-is_locked answers (pos 1) (pos 500) 3

handle_withdrawal-IsCovered_example :
    All
      (OfWithdrawal (IsCovered answers (pos 1) (pos 500)))
      (handle_withdrawal answers (pos 1) (pos 500)).calls
handle_withdrawal-IsCovered_example = handle_withdrawal-IsCovered answers (pos 1) (pos 500)

-- With a tick of 0.01, a request of 0.0050 makes Tarantool create a withdrawal of nothing.
dust : In (create_withdrawal (pos 0)) (handle_withdrawal answers (pos 100) (pos 50)).calls
unfolding handle_withdrawal withdraw create with_lock check_inv3 round_down_to_tick notify
dust = inr (inr (inr (inr (inl refl))))

handle_stake_from_balance-overdrawn_example :
    In
      (error "NOT_ENOUGH_FUNDS")
      (handle_stake_from_balance (with_balance answers (pos 700)) (pos 900)).responses
    × ((handle_stake_from_balance (with_balance answers (pos 700)) (pos 900)).calls
        ≡ (handle_stake_from_balance (with_balance answers (pos 1000)) (pos 900)).calls)
handle_stake_from_balance-overdrawn_example =
    handle_stake_from_balance-overdrawn answers (pos 900) (pos 700) (pos 1000) refl refl refl
