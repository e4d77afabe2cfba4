-- ===== src/Liqengine/Tests.antt =====
-- The liquidation engine on concrete accounts, and the theorems at concrete inputs.
use Prim.Native.String.{String}
use rabbit_dex_backend.Common.{
  Option, zero, suc, ◌≡◌, refl, ℕ, Bool, true, false, none, some, List, [], ◌∷◌, All,
}
use rabbit_dex_backend.Decimal.Hundredths.{ℤ, pos}
use rabbit_dex_backend.Float64.Tenthousandths.{tenthousandths, convert}
use rabbit_dex_backend.Liqengine.Account.{
  Action, ins_takeover, place_sell_orders, ProfileCache, PositionData, MarketData, Market,
  AccountData, market_of,
}
use rabbit_dex_backend.Liqengine.Engine.{
  required_actions, waterfall1, waterfall3, takeovers, liquidated_vault, read_market,
  generate_sell_orders, sell_positions, sell_position, slices, slice, prices, risk_limit_price,
  calc_zp, quotes, order_size, base_size, calc_sell_order_slices, round_down_to_tick,
  round_to_nearest_tick, is_liquidation_ending, should_liquidation_have_more_time,
  below_liquidation_margin, is_interval_passed,
}
use rabbit_dex_backend.Liqengine.Required.{IsRequired, required_actions-IsRequired}
use rabbit_dex_backend.Liqengine.Service.{
  get_next_liq_batch, wait_for_cancel_all, completed_liquidation, queue, liquidated_vaults,
  update_last_checked, World, handle_profile, liquidate, is_margin_error, read_profile,
  process_batch, process_batches, process_liquidations,
}
use rabbit_dex_backend.Liqengine.Handle.{IsJustified}
use rabbit_dex_backend.Liqengine.Justified.{listed_in, process_liquidations-IsJustified}
use rabbit_dex_backend.Liqengine.Assistant.{
  wait_for_cancel_all_accepted, poll, market_data, get_account_data, get_markets,
}
use rabbit_dex_backend.Liqengine.Filled.{get_account_data-required_actions}
use rabbit_dex_backend.Liqengine.Polling.{IsPolled, wait_for_cancel_all_accepted-IsPolled}

program : Unit {0}
unfolding market_of required_actions waterfall1 waterfall3 takeovers liquidated_vault read_market
    read_profile generate_sell_orders sell_positions sell_position slices slice prices
    risk_limit_price calc_zp quotes order_size base_size calc_sell_order_slices round_down_to_tick
    round_to_nearest_tick is_liquidation_ending should_liquidation_have_more_time
    below_liquidation_margin is_interval_passed handle_profile liquidate is_margin_error
    process_batch process_batches process_liquidations
program = tt

-- Amounts are in ten-thousandths: a price of 100, ticks of 0.01, orders of 0.1.
abbrev market : MarketData ℤ
market = record {
  min_tick = some (pos 100);
  min_order = some (pos 1_000);
  best_bid = some (pos 1_000_000);
  best_ask = some (pos 1_000_100);
  fair_price = some (pos 1_000_000);
  average_daily_volume_q = some (pos 1_000_000_000);
}

abbrev position : PositionData ℤ
position = record {
  market_id = "BTC-USD";
  profile_id = 7;
  size = pos 50_000;
  side = "long";
  entry_price = pos 900_000;
  fair_price = some (pos 1_000_000);
}

abbrev profile_at : ℕ → String → ℤ → ProfileCache ℤ
profile_at id status margin = record {
  profile_id = id;
  profile_type = some "vault";
  status = some status;
  account_margin = some margin;
  account_equity = some margin;
  total_notional = some margin;
  last_liq_check = some 0;
}

abbrev account_at : ℤ → AccountData ℤ
account_at margin = record {
  cache = profile_at 7 "active" margin;
  positions = position ∷ [];
  markets = ("BTC-USD", market) ∷ [];
}

abbrev takeover_of_seven : List (Action ℤ) × List ℕ
takeover_of_seven = (
  record {
    kind = ins_takeover;
    trader_id = 7;
    market_id = "BTC-USD";
    size = pos 50_000;
    price = pos 990_000;
  }
      ∷ [],
  7 ∷ [],
)

-- At 0.01 the insurance takes the position over at 99, and the vault is liquidated.
taken_over : required_actions ℤ (account_at (pos 100)) ≡ some takeover_of_seven
unfolding program
taken_over = refl

abbrev sell : ℕ → ℕ → Action ℤ
sell size price = record {
  kind = place_sell_orders;
  trader_id = 7;
  market_id = "BTC-USD";
  size = pos size;
  price = pos price;
}

-- At 0.025 there are four slices of 5 in all, above the risk limit of 99.
sold :
    required_actions ℤ (account_at (pos 250))
    ≡ some (
      sell 10_000 1_000_200
          ∷ sell 10_000 1_000_100
          ∷ sell 10_000 1_000_100
          ∷ sell 20_000 1_000_000
          ∷ [],
      [],
    )
unfolding program
sold = refl

required_actions-IsRequired_example : IsRequired ℤ (account_at (pos 100)) takeover_of_seven
required_actions-IsRequired_example =
    required_actions-IsRequired ℤ (account_at (pos 100)) takeover_of_seven taken_over

-- Every cancellation is accepted, and every account is that of profile 7 at 0.01.
abbrev world : World ℤ
world = record {
  now = 10_000_000;
  cancel_accepted = λ p. true;
  account_data = λ p. some (account_at (pos 100));
  is_done = λ n. false;
}

-- One profile to be liquidated, one whose liquidation is over.
abbrev answers : List (Option (List (ProfileCache ℤ)))
answers =
    some (profile_at 7 "active" (pos 100) ∷ profile_at 8 "liquidating" (pos 400) ∷ [])
    ∷ some []
    ∷ []

process_liquidations-IsJustified_example :
    All (IsJustified ℤ world (listed_in answers)) (process_liquidations ℤ world answers).1
process_liquidations-IsJustified_example = process_liquidations-IsJustified ℤ world answers

-- Two rounds: the calls of one liquidation and of one completion.
log_of_batches :
    (process_liquidations ℤ world answers).1
    ≡ get_next_liq_batch none
      ∷ wait_for_cancel_all 7
      ∷ queue takeover_of_seven.0
      ∷ liquidated_vaults (7 ∷ [])
      ∷ update_last_checked 7
      ∷ wait_for_cancel_all 8
      ∷ completed_liquidation 8
      ∷ get_next_liq_batch (some 8)
      ∷ []
unfolding program
log_of_batches = refl

-- The third request is answered by an acceptance, the second by an error.
abbrev accepted_third : ℕ → Option Bool
accepted_third zero = some false
accepted_third (suc zero) = none
accepted_third (suc (suc n)) = some true

three_requests : wait_for_cancel_all_accepted true accepted_third ≡ some (true, 3)
unfolding wait_for_cancel_all_accepted poll
three_requests = refl

wait_for_cancel_all_accepted-IsPolled_example :
    (r : Bool × ℕ) × (wait_for_cancel_all_accepted true accepted_third ≡ some r)
    × IsPolled 0 accepted_third r
wait_for_cancel_all_accepted-IsPolled_example = wait_for_cancel_all_accepted-IsPolled accepted_third

account_of_seven :
    get_account_data
      (some (position ∷ []))
      (λ id. market_data market)
      (profile_at 7 "active" (pos 100))
    ≡ some (account_at (pos 100))
unfolding get_account_data get_markets
account_of_seven = refl

-- The pointers of the market's data are filled.
abbrev market_values : Market ℤ
market_values = record {
  min_tick = pos 100;
  min_order = pos 1_000;
  best_bid = pos 1_000_000;
  best_ask = pos 1_000_100;
  fair_price = pos 1_000_000;
  average_daily_volume_q = pos 1_000_000_000;
}

get_account_data-required_actions_example :
    (account : AccountData ℤ) × (get_account_data
        (some (position ∷ []))
        (λ id. market_data market)
        (profile_at 7 "active" (pos 250))
      ≡ some account)
    × (account.cache ≡ profile_at 7 "active" (pos 250))
    × (account.positions ≡ position ∷ [])
    × ((required : List (Action ℤ) × List ℕ) × (required_actions ℤ account ≡ some required))
get_account_data-required_actions_example =
    get_account_data-required_actions ℤ (λ id. market_data market) (position ∷ [])
      (profile_at 7 "active" (pos 250)) (pos 250) "vault" refl refl
      (
        (
          (pos 1_000_000, refl),
          (market, refl, market_values, (refl, refl, refl, refl, refl, refl)),
        ),
        tt,
      )
