-- ===== src/Liqengine/Filled.antt =====
-- The account data of Assistant in Engine, where Tarantool fills the pointers.
use Prim.Native.String.{String}
use text.Mathlib.Text.{◌==◌ as str_eq}
use text.Mathlib.TextPositions.{eq_refl}
use rabbit_dex_backend.Common.{
  ℕ, ◌≡◌, refl, ap, ◌∙◌, ◌⊎◌, inl, inr, Option, none, some, List, [], ◌∷◌, ◌++◌, Bool-cases, All,
}
use rabbit_dex_backend.Float64.{Float64, Convert}
use rabbit_dex_backend.Liqengine.Account.{
  Action, ProfileCache, PositionData, MarketData, Market, Reading, nil_pointer, skipped, reading,
  AccountData, market_of,
}
use rabbit_dex_backend.Liqengine.Engine.{
  read_market, quotes, sell_position, sell_positions, generate_sell_orders, takeovers, takeover,
  waterfall1, waterfall3, liquidated_vault, required_actions, max_adv_frac, liquidation_margin,
  takeover_margin,
}
use rabbit_dex_backend.Liqengine.Orders.{IsMarketOf}
use rabbit_dex_backend.Liqengine.Assistant.{
  MarketAnswer, market_failed, nil_market, market_data, get_markets, get_account_data,
}

module _ {D : Type 0} where
  -- The market of a name is in the map, with every pointer that the engine reads.
  abbrev IsKnown : List (String × MarketData D) → String → Type 0
  IsKnown markets id =
      (pos_market : MarketData D) × (market_of id markets ≡ some pos_market)
      × (market : Market D) × IsMarketOf pos_market market

  -- Tarantool answers for a market with its data, and fills every pointer that the engine reads.
  abbrev pub IsAnswered : (String → MarketAnswer D) → String → Type 0
  IsAnswered api id =
      (pos_market : MarketData D) × (api id ≡ market_data pos_market)
      × (market : Market D) × IsMarketOf pos_market market

  -- The pointer of a position is filled, and so are those of its market.
  abbrev pub IsFilled : (String → MarketAnswer D) → PositionData D → Type 0
  IsFilled api pos =
      ((fair_price : D) × (pos.fair_price ≡ some fair_price)) × IsAnswered api pos.market_id

  IsKnown-cons :
      (name id : String) (pos_market : MarketData D) (market : Market D)
      (markets : List (String × MarketData D))
      → IsMarketOf pos_market market
      → IsKnown markets id
      → IsKnown ((name, pos_market) ∷ markets) id
  unfolding market_of
  IsKnown-cons name id pos_market market markets is_market known =
      elim (Bool-cases (str_eq name id)) [
        | inl e ↦ (pos_market, rw e refl, market, is_market)
        | inr e ↦ (known.0, rw e known.1, known.2, known.3)
      ]

  IsKnown-new :
      (id : String) (pos_market : MarketData D) (market : Market D)
      (markets : List (String × MarketData D))
      → IsMarketOf pos_market market
      → IsKnown ((id, pos_market) ∷ markets) id
  unfolding market_of
  IsKnown-new id pos_market market markets is_market =
      (pos_market, rw (eq_refl id) refl, market, is_market)

  -- The map that `GetAccountData` makes has the markets of the positions.
  get_markets-IsKnown :
      (api : String → MarketAnswer D) (positions : List (PositionData D))
      (before : List (String × MarketData D))
      → All (IsFilled api) positions
      → (after : List (String × MarketData D)) × (get_markets api positions before ≡ some after)
        × ((id : String) → IsKnown before id → IsKnown after id)
        × All (λ pos. IsKnown after pos.market_id) positions
  unfolding get_markets
  get_markets-IsKnown api [] before h = (before, refl, λ id known. known, tt)
  get_markets-IsKnown api (pos ∷ positions) before h =
      let answer = h.0.1 in
      let now : List (String × MarketData D) = (pos.market_id, answer.0) ∷ before in
      let rest = get_markets-IsKnown api positions now h.1 in
      (
        rest.0,
        ap
              (λ (a : MarketAnswer D). elim a as (λ x. Option (List (String × MarketData D))) [
                | market_failed ↦ none
                | nil_market ↦ get_markets api positions before
                | market_data pos_market ↦
                    get_markets api positions ((pos.market_id, pos_market) ∷ before)
              ])
              answer.1
            ∙ rest.1,
        λ id known.
            rest.2 id (IsKnown-cons pos.market_id id answer.0 answer.2 before answer.3 known),
        (
          rest.2 pos.market_id (IsKnown-new pos.market_id answer.0 answer.2 before answer.3),
          rest.3,
        ),
      )

module _ {D : Type 0} (F : Type 0) ⦃fl : Float64 F⦄ ⦃conv : Convert D F⦄ where
  open fl use {lit, le_f}
  open conv use {to_float}

  read_market-reads :
      (pos : PositionData D) (pos_market : MarketData D) (market : Market D)
      → IsMarketOf pos_market market
      → (read_market F pos pos_market ≡ skipped) ⊎ (read_market F pos pos_market ≡ reading market)
  unfolding read_market
  read_market-reads pos pos_market market (tick, order, bid, ask, fair, volume) = rw ask (
      rw bid
        (elim (Bool-cases
          (le_f (quotes (to_float market.best_ask) (to_float market.best_bid)).1 (lit 0))) [
            | inl e ↦ rw e (inl refl)
            | inr e ↦ rw e (
                rw fair (elim (Bool-cases (le_f (to_float pos.size) (lit 0))) [
                  | inl e' ↦ rw e' (inl refl)
                  | inr e' ↦ rw e' (rw volume (rw order (rw tick (inr refl))))
                ]))
          ]))

  sell_positions-some :
      (trader : ℕ) (max_frac : F) (markets : List (String × MarketData D))
      (positions : List (PositionData D))
      → All (λ pos. IsKnown markets pos.market_id) positions
      → (actions : List (Action D)) × (sell_positions trader max_frac markets positions
          ≡ some actions)
  unfolding sell_positions
  sell_positions-some trader max_frac markets [] known = ([], refl)
  sell_positions-some trader max_frac markets (pos ∷ positions) known =
      let rest = sell_positions-some trader max_frac markets positions known.1 in
      let (actions, e) =
        joined (read_market F pos known.0.0) known.0.2
          (read_market-reads pos known.0.0 known.0.2 known.0.3)
          (sell_positions trader max_frac markets positions) rest in
      (
        actions,
        ap
              (λ (o : Option (MarketData D)). elim o as (λ x. Option (List (Action D))) [
                | none ↦ none
                | some pos_market ↦
                    joined_orders (read_market F pos pos_market)
                      (sell_positions trader max_frac markets positions)
              ])
              known.0.1
            ∙ e,
      )
    where
      joined_orders : Reading (Market D) → Option (List (Action D)) → Option (List (Action D))
      joined_orders r rest = elim r as (λ x. Option (List (Action D))) [
        | nil_pointer ↦ none
        | skipped ↦ rest
        | reading market ↦ elim rest as (λ x. Option (List (Action D))) [
          | none ↦ none
          | some orders ↦ some (sell_position trader max_frac pos market ++ orders)
        ]
      ]

      joined :
          (r : Reading (Market D)) (market : Market D)
          → (r ≡ skipped) ⊎ (r ≡ reading market)
          → (rest : Option (List (Action D)))
          → ((actions : List (Action D)) × (rest ≡ some actions))
          → (actions : List (Action D)) × (joined_orders r rest ≡ some actions)
      joined r market (inl e) rest (actions, h) = (actions, ap (λ x. joined_orders x rest) e ∙ h)
      joined r market (inr e) rest (actions, h) = (
        sell_position trader max_frac pos market ++ actions,
        ap (λ x. joined_orders x rest) e ∙ ap (joined_orders (reading market)) h,
      )

  takeovers-some :
      (api : String → MarketAnswer D) (trader : ℕ) (margin : F) (positions : List (PositionData D))
      → All (IsFilled api) positions
      → (actions : List (Action D)) × (takeovers trader margin positions ≡ some actions)
  unfolding takeovers
  takeovers-some api trader margin [] h = ([], refl)
  takeovers-some api trader margin (pos ∷ positions) h =
      let rest = takeovers-some api trader margin positions h.1 in
      (
        takeover trader margin pos h.0.0.0 ∷ rest.0,
        ap (λ o. taken o (takeovers trader margin positions)) h.0.0.1
            ∙ ap (taken (some h.0.0.0)) rest.1,
      )
    where
      taken : Option D → Option (List (Action D)) → Option (List (Action D))
      taken o rest = elim o as (λ x. Option (List (Action D))) [
        | none ↦ none
        | some fair_price ↦ elim rest as (λ x. Option (List (Action D))) [
          | none ↦ none
          | some actions ↦ some (takeover trader margin pos fair_price ∷ actions)
        ]
      ]

  -- If Tarantool gives an account's margin and type, its open positions with their fair prices and
  -- the data of their markets, in which it fills each price, size and volume that the engine reads,
  -- then `GetAccountData` succeeds and `requiredActions` answers on its data, without a panic and at
  -- any margin.
  pub get_account_data-required_actions :
      (api : String → MarketAnswer D) (positions : List (PositionData D)) (profile : ProfileCache D)
      (margin : D) (type : String)
      → profile.account_margin ≡ some margin
      → profile.profile_type ≡ some type
      → All (IsFilled api) positions
      → (account : AccountData D) × (get_account_data (some positions) api profile ≡ some account)
        × (account.cache ≡ profile)
        × (account.positions ≡ positions)
        × ((required : List (Action D) × List ℕ) × (required_actions F account ≡ some required))
  unfolding get_account_data required_actions waterfall1 waterfall3 generate_sell_orders
      liquidated_vault
  get_account_data-required_actions api positions profile margin type m t filled =
      let made = get_markets-IsKnown api positions [] filled in
      let sold =
        sell_positions-some profile.profile_id (max_adv_frac {F = F}) made.0 positions made.3 in
      let taken = takeovers-some api profile.profile_id (to_float margin) positions filled in
      (
        record { cache = profile; positions = positions; markets = made.0 },
        ap
            (λ (o : Option (List (String × MarketData D))).
              elim o as (λ x. Option (AccountData D)) [
                | none ↦ none
                | some markets ↦
                    some (record { cache = profile; positions = positions; markets = markets })
              ])
            made.1,
        refl,
        refl,
        rw m (elim (Bool-cases (le_f (liquidation_margin {F = F}) (to_float margin))) [
          | inl e ↦ rw e (([], []), refl)
          | inr e ↦ elim (Bool-cases (le_f (takeover_margin {F = F}) (to_float margin))) [
            | inl e' ↦ rw e (rw e' (rw sold.1 ((sold.0, []), refl)))
            | inr e' ↦ rw e (rw e' (rw taken.1 (rw t (_, refl))))
          ]
        ]),
      )
