-- ===== src/Api/PayoutTests.antt =====
-- A payout of a small vault, and the theorem at it.
use rabbit_dex_backend.Common.{true, some, [], ◌∷◌, All}
use rabbit_dex_backend.Decimal.Hundredths.{ℤ, pos, hundredths}
use rabbit_dex_backend.Api.Balance.{profile}
use rabbit_dex_backend.Api.Unstakes.{info, Answers, process_unstakes_of}
use rabbit_dex_backend.Api.Payouts.{OfPayout, IsDue, process_unstakes_of-IsDue}

-- A fee of 20%, and two profiles that unstake.
abbrev answers : Answers ℤ
answers = record {
  bind_ok = true;
  profile_id = 9;
  vault_profile = profile 9 "vault";
  acquire_ok = true;
  vault_info = info (record { status_active = true; performance_fee = pos 20 });
  vault_cache = some (pos 1_000, pos 700);
  unstakers = some (5 ∷ 6 ∷ []);
}

process_unstakes_of-IsDue_example :
    All (OfPayout (IsDue answers)) (process_unstakes_of answers).calls
process_unstakes_of-IsDue_example = process_unstakes_of-IsDue answers
