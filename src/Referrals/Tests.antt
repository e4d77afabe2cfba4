-- ===== src/Referrals/Tests.antt =====
-- The referral model on concrete amounts, and the theorems at inputs that meet their hypotheses.
use rabbit_dex_backend.Common.{◌≡◌, refl, ap, none, some, [], ◌∷◌, arith, fold_left}
use rabbit_dex_backend.Decimal.{Le}
use rabbit_dex_backend.Decimal.Hundredths.{ℤ, pos, negsuc, hundredths}
use rabbit_dex_backend.Referrals.Levels.{get_level, upper_levels, needed, scan, status}
use rabbit_dex_backend.Referrals.Bonus.{
  calculate_bonus, passed_levels, pay, bonus_loop, advance, jumped,
}
use rabbit_dex_backend.Referrals.BonusProof.{calculate_bonus-passed_levels}
use rabbit_dex_backend.Referrals.Fees.{
  FillRow, ok, calculate_fees, pay_trades, pay_trade, pay_both, add_to_fees, pay_referrer,
  commission_percent, billed, net_fee_of, credit,
}
use rabbit_dex_backend.Referrals.Payouts.{calculate_fees-Le, AreTrades, total, collected}

program : Unit {0}
unfolding get_level scan status upper_levels needed calculate_bonus bonus_loop advance jumped
    passed_levels calculate_fees pay_trades pay_trade pay_both add_to_fees pay_referrer
    commission_percent billed net_fee_of credit total collected
program = tt

-- 450,000 dollars of volume is level 3.
level_of_volume : (get_level {D = ℤ} (pos 45_000_000)).current.level ≡ 3
unfolding program
level_of_volume = refl

-- From 0 to 1,200,000 dollars the levels 2, 3 and 4 are passed: 5 + 10 + 30 dollars.
bonus_of_volumes :
    calculate_bonus {D = ℤ} (pos 0) (pos 120_000_000)
    ≡ some (pos 4_500, passed_levels (pos 0) (pos 120_000_000))
unfolding program
bonus_of_volumes = refl

abbrev taker : FillRow ℤ
taker = record {
  referrer_id = some 1;
  trade_id = "t1";
  fee = negsuc 1199;
  model = some "percentage";
  model_fee_percent = none;
  profile_volume = pos 0;
}

abbrev maker : FillRow ℤ
maker = record taker { referrer_id = some 2; fee = pos 1_000 }

-- The taker paid 12, the maker was credited 10: 20% of the net fee of 2 go to the taker's referrer.
fees_of_trade : calculate_fees [] (taker ∷ maker ∷ []) ≡ (ok tt, (1, pos 40) ∷ [])
unfolding program
fees_of_trade = refl

calculate_bonus-passed_levels_example :
    calculate_bonus {D = ℤ} (pos 10_000) (pos 120_000_000)
    ≡ some (
      fold_left pay (pos 0) (passed_levels (pos 10_000) (pos 120_000_000)),
      passed_levels (pos 10_000) (pos 120_000_000),
    )
calculate_bonus-passed_levels_example =
    calculate_bonus-passed_levels (pos 10_000) (pos 120_000_000) (omega arith)

calculate_fees-Le_example :
    AreTrades (taker ∷ maker ∷ [])
    × Le
        (total (calculate_fees [] (taker ∷ maker ∷ [])).1)
        (hundredths.add (total []) (collected (taker ∷ maker ∷ [])))
calculate_fees-Le_example = calculate_fees-Le [] (taker ∷ maker ∷ []) (ap (λ r. r.0) fees_of_trade)
