-- ===== src/Liqengine/Engine.antt =====
-- `LiquidationEngine` of liqengine/liquidation_engine.go: the margins that it watches and the
-- actions that it asks for. `none` is a nil pointer, where Go panics. The clock of
-- `IsIntervalPassedForMicroseconds` (time_ops.go) is the argument `now`, in microseconds.
use Prim.Native.String.{String}
use text.Mathlib.Text.{◌==◌ as str_eq}
use rabbit_dex_backend.Common.{
  ℕ, ◌+◌, Bool, not, ◌&&◌, Option, none, some, List, [], ◌∷◌, ◌++◌, leb, if◌then◌else◌,
}
use rabbit_dex_backend.Float64.{Float64, Convert, lt_f, at_least, at_most}
use rabbit_dex_backend.Liqengine.Account.{
  Action, place_sell_orders, ins_takeover, ProfileCache, PositionData, MarketData, Profile, Market,
  Reading, nil_pointer, skipped, reading, deref, AccountData, market_of, long, short,
}

-- `INSURANCE_WATERFALL_INTERVAL` and `WATERFALL1_INTERVAL`: six seconds, in microseconds.
abbrev pub waterfall_interval : ℕ
waterfall_interval = 6_000_000

-- `IsIntervalPassedForMicroseconds`: `now - last_check >= interval`.
unfoldable pub is_interval_passed : ℕ → ℕ → Bool
is_interval_passed now last_check = leb (last_check + waterfall_interval) now

module _ {F : Type 0} ⦃fl : Float64 F⦄ where
  open fl use {lit, add, sub, mul, div, round, thousands, has_rest, le_f}

  abbrev pub liquidation_margin : F
  liquidation_margin = lit 300

  abbrev pub takeover_margin : F
  takeover_margin = lit 200

  -- `INSURANCE_MAX_ADV_FRAC` and `TRADER_MAX_ADV_FRAC`
  abbrev pub max_adv_frac : F
  max_adv_frac = lit 10

  unfoldable pub below_liquidation_margin : F → Bool
  below_liquidation_margin margin = lt_f margin liquidation_margin

  -- `calcUnrealizedPnl`
  unfoldable pub calc_unrealized_pnl : F → F → F → String → F
  calc_unrealized_pnl size entry exit side =
      if str_eq side long then mul size (sub exit entry) else mul size (sub entry exit)

  unfoldable pub round_down_to_tick : F → F → F
  round_down_to_tick size tick =
      if le_f tick (lit 0)
      then size
      else mul (thousands (div (mul size (lit 10_000_000)) tick)) tick

  unfoldable pub round_up_to_tick : F → F → F
  round_up_to_tick size tick =
      let milli = div (mul size (lit 10_000_000)) tick in
      if le_f tick (lit 0)
      then size
      else mul (if has_rest milli then add (thousands milli) (lit 10_000) else thousands milli) tick

  unfoldable pub round_to_nearest_tick : F → F → F
  round_to_nearest_tick size tick =
      if le_f tick (lit 0) then size else mul (round (div size tick)) tick

  -- The four sizes of `calcSellOrderSlices`: the first three are equal.
  unfoldable pub calc_sell_order_slices : F → F → F × F
  calc_sell_order_slices order_sz tick =
      let fifth = round_down_to_tick (mul order_sz (lit 2_000)) tick in
      let deficit = round_down_to_tick (sub order_sz (mul fifth (lit 50_000))) tick in
      (fifth, add (mul fifth (lit 20_000)) deficit)

  -- A missing quote is replaced by the other one: best ask, best bid.
  unfoldable pub quotes : F → F → F × F
  quotes ask bid =
      if le_f ask (lit 0) && lt_f (lit 0) bid
      then (bid, bid)
      else if le_f bid (lit 0) && lt_f (lit 0) ask
      then (ask, ask)
      else (ask, bid)

  -- The size by the position's, before the limits by volume and minimal order.
  unfoldable pub base_size : F → F → F
  base_size pos_size one_k =
      if le_f pos_size one_k
      then pos_size
      else if le_f pos_size (mul (lit 100_000) one_k)
      then one_k
      else mul pos_size (lit 1_000)

  unfoldable pub order_size : F → F → F → F → F
  order_size pos_size one_k max_liq_sz min_order =
      at_least (mul min_order (lit 50_001)) (at_most max_liq_sz (base_size pos_size one_k))

-- The prices of the four slices.
pub record Prices (F : Type 0) : Type 0 where
  pub price1 : F
  pub price2 : F
  pub price3 : F
  pub price4 : F

module _ {D : Type 0} (F : Type 0) ⦃fl : Float64 F⦄ ⦃conv : Convert D F⦄ where
  open fl use {lit, le_f}
  open conv use {to_float}

  -- The first part of the loop of `generateSellOrders`, with the pointers that it and the rest of the
  -- loop read, in their order.
  unfoldable pub read_market : PositionData D → MarketData D → Reading (Market D)
  read_market pos pos_market = deref pos_market.best_ask (λ best_ask.
      deref pos_market.best_bid (λ best_bid.
        if le_f (quotes (to_float best_ask) (to_float best_bid)).1 (lit 0)
        then skipped
        else deref pos_market.fair_price (λ fair_price.
          if le_f (to_float pos.size) (lit 0)
          then skipped
          else deref pos_market.average_daily_volume_q (λ volume.
            deref pos_market.min_order (λ min_order. deref pos_market.min_tick (λ min_tick.
              reading (record {
                min_tick = min_tick;
                min_order = min_order;
                best_bid = best_bid;
                best_ask = best_ask;
                fair_price = fair_price;
                average_daily_volume_q = volume;
              })))))))

module _ {D F : Type 0} ⦃fl : Float64 F⦄ ⦃conv : Convert D F⦄ where
  open fl use {lit, add, sub, mul, div, le_f}
  open conv use {to_float, of_float}

  -- `calcZp`, with the fair price of the position.
  unfoldable pub calc_zp : PositionData D → D → F → F
  calc_zp pos fair_price margin =
      if str_eq pos.side long
      then mul (to_float fair_price) (sub (lit 10_000) margin)
      else mul (to_float fair_price) (add (lit 10_000) margin)

  -- The risk limit of the prices: below it nothing is sold, above it nothing is bought.
  unfoldable pub risk_limit_price : String → Market D → F
  risk_limit_price side market =
      let tick = to_float market.min_tick in
      let fair = to_float market.fair_price in
      if str_eq side short
      then round_to_nearest_tick (mul (lit 10_100) fair) tick
      else round_to_nearest_tick (mul (lit 9_900) fair) tick

  unfoldable pub prices : String → Market D → F → F → Prices F
  prices side market ask bid =
      let tick = to_float market.min_tick in
      let limit = risk_limit_price side market in
      if str_eq side short
      then record {
        price1 = at_most limit (sub bid tick);
        price2 = at_most limit bid;
        price3 = at_most limit (sub ask tick);
        price4 = at_most limit ask;
      }
      else record {
        price1 = at_least limit (add ask tick);
        price2 = at_least limit ask;
        price3 = at_least limit (add bid tick);
        price4 = at_least limit bid;
      }

  abbrev pub place : ℕ → PositionData D → D → F → Action D
  place trader pos size price = record {
    kind = place_sell_orders;
    trader_id = trader;
    market_id = pos.market_id;
    size = size;
    price = of_float price;
  }

  -- One slice, unless it is empty.
  unfoldable pub slice : ℕ → PositionData D → F → F → List (Action D)
  slice trader pos size price =
      if lt_f (lit 0) size then place trader pos (of_float size) price ∷ [] else []

  unfoldable pub slices : ℕ → PositionData D → F × F → Prices F → List (Action D)
  slices trader pos (fifth, rest) p =
      slice trader pos fifth p.price1
      ++ slice trader pos fifth p.price2
      ++ slice trader pos fifth p.price3
      ++ slice trader pos rest p.price4

  -- The rest of the loop.
  unfoldable pub sell_position : ℕ → F → PositionData D → Market D → List (Action D)
  sell_position trader max_frac pos market =
      let (ask, bid) = quotes (to_float market.best_ask) (to_float market.best_bid) in
      let one_k = div (lit 10_000_000) (to_float market.fair_price) in
      let pos_size = to_float pos.size in
      let min_order = to_float market.min_order in
      let max_liq_sz = mul (to_float market.average_daily_volume_q) max_frac in
      let order_sz = order_size pos_size one_k max_liq_sz min_order in
      let p = prices pos.side market ask bid in
      if le_f order_sz pos_size
      then slices trader pos (calc_sell_order_slices order_sz min_order) p
      else if le_f min_order pos_size
      then place trader pos pos.size p.price4 ∷ []
      else []

  -- The loop of `generateSellOrders`.
  unfoldable pub sell_positions :
      ℕ → F → List (String × MarketData D) → List (PositionData D) → Option (List (Action D))
  sell_positions trader max_frac markets [] = some []
  sell_positions trader max_frac markets (pos ∷ positions) =
      let rest = sell_positions trader max_frac markets positions in
      elim (market_of pos.market_id markets) [
        | none ↦ none
        | some pos_market ↦ elim (read_market F pos pos_market) [
          | nil_pointer ↦ none
          | skipped ↦ rest
          | reading market ↦ elim rest [
            | none ↦ none
            | some orders ↦ some (sell_position trader max_frac pos market ++ orders)
          ]
        ]
      ]

  unfoldable pub generate_sell_orders : AccountData D → F → Option (List (Action D))
  generate_sell_orders account max_frac =
      sell_positions account.cache.profile_id max_frac account.markets account.positions

  abbrev pub takeover : ℕ → F → PositionData D → D → Action D
  takeover trader margin pos fair_price = record {
    kind = ins_takeover;
    trader_id = trader;
    market_id = pos.market_id;
    size = of_float (to_float pos.size);
    price = of_float (calc_zp pos fair_price margin);
  }

  -- The loop of `waterfall3`.
  unfoldable pub takeovers : ℕ → F → List (PositionData D) → Option (List (Action D))
  takeovers trader margin [] = some []
  takeovers trader margin (pos ∷ positions) =
      let rest = takeovers trader margin positions in
      elim pos.fair_price [
        | none ↦ none
        | some fair_price ↦ elim rest [
          | none ↦ none
          | some actions ↦ some (takeover trader margin pos fair_price ∷ actions)
        ]
      ]

module _ {D : Type 0} where
  -- The vault that is liquidated behind `waterfall3`, if the profile is one.
  unfoldable pub liquidated_vault :
      ProfileCache D → List (Action D) → Option (List (Action D) × List ℕ)
  liquidated_vault cache actions = elim cache.profile_type [
    | none ↦ none
    | some type ↦ some (actions, if str_eq type "vault" then cache.profile_id ∷ [] else [])
  ]

-- The rest reads only decimals: the type of the floats is written at each use.
module _ {D : Type 0} (F : Type 0) ⦃fl : Float64 F⦄ ⦃conv : Convert D F⦄ where
  open fl use {lit, le_f}
  open conv use {to_float}

  unfoldable pub is_liquidation_ending : Profile D → Bool
  is_liquidation_ending profile =
      str_eq profile.status "liquidating"
      && le_f (liquidation_margin {F = F}) (to_float profile.account_margin)

  unfoldable pub should_liquidation_have_more_time : ℕ → Profile D → Bool
  should_liquidation_have_more_time now profile =
      str_eq profile.status "liquidating"
      && lt_f (to_float profile.account_margin) liquidation_margin
      && le_f takeover_margin (to_float profile.account_margin)
      && not (is_interval_passed now profile.last_liq_check)

  -- `waterfall1` and `insuranceSelloffActions`, whose fractions are equal.
  unfoldable pub waterfall1 : AccountData D → Option (List (Action D))
  waterfall1 account = generate_sell_orders account (max_adv_frac {F = F})

  unfoldable pub waterfall3 : AccountData D → D → Option (List (Action D))
  waterfall3 account margin = takeovers account.cache.profile_id (to_float margin) account.positions

  -- `requiredActions`: the actions, and the vaults that are liquidated.
  unfoldable pub required_actions : AccountData D → Option (List (Action D) × List ℕ)
  required_actions account = elim account.cache.account_margin [
    | none ↦ none
    | some margin ↦
        if lt_f (to_float margin) liquidation_margin
        then if le_f takeover_margin (to_float margin)
          then elim (waterfall1 account) [ none ↦ none | some actions ↦ some (actions, []) ]
          else elim (waterfall3 account margin) [
            | none ↦ none
            | some actions ↦ liquidated_vault account.cache actions
          ]
        else some ([], [])
  ]
