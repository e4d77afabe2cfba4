-- ===== src/Liqengine/Assistant.antt =====
-- `TntAssistant` of liqengine/tnt_assistant.go: the polling for cancelled orders, and the data of an
-- account. The answers of Tarantool are arguments; `none` is an error.
use Prim.Native.String.{String}
use rabbit_dex_backend.Common.{
  ℕ, zero, suc, Bool, true, false, Option, none, some, List, [], ◌∷◌, ltb, ◌==◌, if◌then◌else◌,
  Dict, insert,
}
use rabbit_dex_backend.Float64.{Float64, Convert}
use rabbit_dex_backend.Liqengine.Account.{ProfileCache, PositionData, MarketData, AccountData}
use rabbit_dex_backend.Liqengine.Engine.{calc_unrealized_pnl}

-- The loop of `WaitForCancellAllAccepted` on fuel, from a number of attempts: whether it returns
-- without an error, and the number of its requests. `accepted n` is the answer to the n-th request.
unfoldable pub poll : ℕ → (ℕ → Option Bool) → ℕ → Option (Bool × ℕ)
poll zero accepted attempts = none
poll (suc fuel) accepted attempts =
    let rest = poll fuel accepted (suc attempts) in
    let again = if ltb 20 (suc attempts) then some (false, suc attempts) else rest in
    elim (accepted attempts) [
      | none ↦ again
      | some is_accepted ↦ if is_accepted then some (true, suc attempts) else again
    ]

-- `WaitForCancellAllAccepted`: `cancelled` is whether `HighPriorityCancelAll` succeeds.
unfoldable pub wait_for_cancel_all_accepted : Bool → (ℕ → Option Bool) → Option (Bool × ℕ)
wait_for_cancel_all_accepted cancelled accepted =
    if cancelled then poll 21 accepted 0 else some (false, 0)

-- The answer of `GetMarketData`: an error, nil without an error, or a market.
pub data MarketAnswer (D : Type 0) : Type 0 where
  market_failed nil_market : MarketAnswer D
  market_data : MarketData D → MarketAnswer D

module _ {D : Type 0} where
  -- The loop of `GetAccountData` over the positions; Tarantool answers with an error, nil or a
  -- market. The newest entry of the map stands first. A nil entry is left out: `market_of` reads a
  -- missing entry as nil, as Go's map does, and every position of a market has the same answer.
  unfoldable pub get_markets :
      (String → MarketAnswer D)
      → List (PositionData D)
      → List (String × MarketData D)
      → Option (List (String × MarketData D))
  get_markets api [] markets = some markets
  get_markets api (pos ∷ positions) markets = elim (api pos.market_id) [
    | market_failed ↦ none
    | nil_market ↦ get_markets api positions markets
    | market_data market ↦ get_markets api positions ((pos.market_id, market) ∷ markets)
  ]

  -- `GetAccountData`; where it returns an error beside data, its callers use the error only.
  unfoldable pub get_account_data :
      Option (List (PositionData D))
      → (String → MarketAnswer D)
      → ProfileCache D
      → Option (AccountData D)
  get_account_data open_positions api profile = elim open_positions [
    | none ↦ none
    | some positions ↦ elim (get_markets api positions []) [
      | none ↦ none
      | some markets ↦ some (record { cache = profile; positions = positions; markets = markets })
    ]
  ]

module _ {D F : Type 0} ⦃fl : Float64 F⦄ ⦃conv : Convert D F⦄ where
  open fl use {lit, le_f}
  open conv use {to_float}

  abbrev pub pnl_at : F → PositionData D → F
  pnl_at at_price pos =
      calc_unrealized_pnl (to_float pos.size) (to_float pos.entry_price) at_price pos.side

  -- The loop of `GetWinningTraderPostns`: the positions that win at the price, by trader.
  unfoldable pub add_winning :
      F → ℕ → List (PositionData D) → Dict (PositionData D) → Dict (PositionData D)
  add_winning at_price insurance_id [] winning = winning
  add_winning at_price insurance_id (pos ∷ positions) winning =
      add_winning at_price insurance_id positions (
        if pos.profile_id == insurance_id
        then winning
        else if le_f (pnl_at at_price pos) (lit 0)
        then winning
        else insert pos.profile_id pos winning)

  -- `GetWinningTraderPostns`
  unfoldable pub get_winning_trader_postns :
      F → ℕ → Option (List (PositionData D)) → Option (Dict (PositionData D))
  get_winning_trader_postns at_price insurance_id positions = elim positions [
    | none ↦ none
    | some win_positions ↦ some (add_winning at_price insurance_id win_positions [])
  ]
