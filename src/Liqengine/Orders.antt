-- ===== src/Liqengine/Orders.antt =====
-- The orders that Engine places for a position, and the actions for an account.
use Prim.Native.String.{String}
use text.Mathlib.Text.{◌==◌ as str_eq}
use rabbit_dex_backend.Common.{
  ℕ, ◌≡◌, refl, ap, subst, ◌⊎◌, inl, inr, Bool, true, false, Option, none, some, List, [], ◌∷◌,
  ◌++◌, if◌then◌else◌, Bool-cases, All, In, All-append, All-weaken,
}
use rabbit_dex_backend.Float64.{Float64, Convert, Le, Lt, not_le→Lt, at_least-Le, at_most-Le}
use rabbit_dex_backend.Liqengine.Account.{
  Action, place_sell_orders, PositionData, MarketData, Market, Reading, nil_pointer, skipped,
  reading, deref-reading, if-reading, reading-injective, market_of, short,
}
use rabbit_dex_backend.Liqengine.Engine.{
  Prices, read_market, prices, risk_limit_price, place, slice, slices, sell_position,
  sell_positions, quotes, order_size, calc_sell_order_slices,
}

-- The two branches of `sell_position`.
fits-All {ℓ κ} :
    {A : Type ℓ} (P : A → Type κ) (fits large : Bool) (xs ys : List A)
    → All P xs
    → All P ys
    → All P (if fits then xs else if large then ys else [])
fits-All P true large xs ys hx hy = hx
fits-All P false true xs ys hx hy = hy
fits-All P false false xs ys hx hy = tt

pub some-injective {ℓ} : {A : Type ℓ} {x y : A} → some x ≡ some y → x ≡ y
some-injective {x} h = ap (λ o. elim o [ none ↦ x | some z ↦ z ]) h

module _ {F : Type 0} ⦃fl : Float64 F⦄ where
  -- A price on the safe side of the limit: for a buyer (of a short position) not above it, for a
  -- seller not below it.
  abbrev pub IsGuarded : Bool → F → F → Type 0
  IsGuarded true limit price = Le price limit
  IsGuarded false limit price = Le limit price

module _ {D : Type 0} where
  -- The values behind the pointers of a market's data.
  abbrev pub IsMarketOf : MarketData D → Market D → Type 0
  IsMarketOf pos_market market =
      (pos_market.min_tick ≡ some market.min_tick)
      × (pos_market.min_order ≡ some market.min_order)
      × (pos_market.best_bid ≡ some market.best_bid)
      × (pos_market.best_ask ≡ some market.best_ask)
      × (pos_market.fair_price ≡ some market.fair_price)
      × (pos_market.average_daily_volume_q ≡ some market.average_daily_volume_q)

module _ {D : Type 0} (F : Type 0) ⦃fl : Float64 F⦄ ⦃conv : Convert D F⦄ where
  open fl use {lit}
  open conv use {to_float, of_float}

  -- A reducing order for the position, within the risk limit, and of a positive size.
  abbrev pub IsReducing : ℕ → PositionData D → Market D → Action D → Type 0
  IsReducing trader pos market a =
      (a.kind ≡ place_sell_orders)
      × (a.trader_id ≡ trader)
      × (a.market_id ≡ pos.market_id)
      × ((price : F) × (a.price ≡ of_float price)
          × IsGuarded (str_eq pos.side short) (risk_limit_price pos.side market) price)
      × (((a.size ≡ pos.size) × Lt (lit 0) (to_float pos.size))
          ⊎ ((size : F) × (a.size ≡ of_float size) × Lt (lit 0) size))

  -- Each action is an order for a position of the list, in a market of the account.
  abbrev pub IsOrderFor :
      ℕ → List (String × MarketData D) → List (PositionData D) → Action D → Type 0
  IsOrderFor trader markets positions a =
      (pos : PositionData D) × In pos positions
      × (pos_market : MarketData D) × (market_of pos.market_id markets ≡ some pos_market)
      × (market : Market D) × IsMarketOf pos_market market
      × IsReducing trader pos market a

module _ {D : Type 0} (F : Type 0) ⦃fl : Float64 F⦄ ⦃conv : Convert D F⦄ where
  open fl use {lit, le_f}
  open conv use {to_float}

  -- A market that is read is that of its data, and the position has a size.
  read_market-IsMarketOf :
      (pos : PositionData D) (pos_market : MarketData D) (market : Market D)
      → read_market F pos pos_market ≡ reading market
      → (le_f (to_float pos.size) (lit 0) ≡ false) × IsMarketOf pos_market market
  unfolding read_market
  read_market-IsMarketOf pos pos_market market h =
      let ask = deref-reading pos_market.best_ask _ market h in
      let bid = deref-reading pos_market.best_bid _ market ask.2 in
      let quoted = if-reading _ _ market bid.2 in
      let fair = deref-reading pos_market.fair_price _ market quoted.1 in
      let sized = if-reading _ _ market fair.2 in
      let volume = deref-reading pos_market.average_daily_volume_q _ market sized.1 in
      let order = deref-reading pos_market.min_order _ market volume.2 in
      let tick = deref-reading pos_market.min_tick _ market order.2 in
      let e = reading-injective tick.2 in
      (sized.0, subst (IsMarketOf pos_market) e (tick.1, order.1, bid.1, ask.1, fair.1, volume.1))

module _ {D F : Type 0} ⦃fl : Float64 F⦄ ⦃conv : Convert D F⦄ where
  open fl use {lit, le_f}
  open conv use {to_float, of_float}

  abbrev AreGuarded : String → Market D → Prices F → Type 0
  AreGuarded side market p =
      IsGuarded (str_eq side short) (risk_limit_price side market) p.price1
      × IsGuarded (str_eq side short) (risk_limit_price side market) p.price2
      × IsGuarded (str_eq side short) (risk_limit_price side market) p.price3
      × IsGuarded (str_eq side short) (risk_limit_price side market) p.price4

  prices-AreGuarded :
      (side : String) (market : Market D) (ask bid : F)
      → AreGuarded side market (prices side market ask bid)
  unfolding prices
  prices-AreGuarded side market ask bid = elim (Bool-cases (str_eq side short)) [
    | inl e ↦
        let limit : F = risk_limit_price side market in
        rw e (at_most-Le limit _, at_most-Le limit _, at_most-Le limit _, at_most-Le limit _)
    | inr e ↦
        let limit : F = risk_limit_price side market in
        rw e (at_least-Le limit _, at_least-Le limit _, at_least-Le limit _, at_least-Le limit _)
  ]

  slice-All :
      (trader : ℕ) (pos : PositionData D) (market : Market D) (size price : F)
      → IsGuarded (str_eq pos.side short) (risk_limit_price pos.side market) price
      → All (IsReducing F trader pos market) (slice trader pos size price)
  unfolding slice
  slice-All trader pos market size price h = elim (Bool-cases (le_f size (lit 0))) [
    | inl e ↦ rw e tt
    | inr e ↦
        rw e ((refl, refl, refl, (price, refl, h), inr (size, refl, not_le→Lt size (lit 0) e)), tt)
  ]

  slices-All :
      (trader : ℕ) (pos : PositionData D) (market : Market D) (sizes : F × F) (p : Prices F)
      → AreGuarded pos.side market p
      → All (IsReducing F trader pos market) (slices trader pos sizes p)
  unfolding slices
  slices-All trader pos market (fifth, rest) p (h1, h2, h3, h4) =
      let P = IsReducing F trader pos market in
      All-append P _ _
        (All-append P _ _
          (All-append P _ _ (slice-All trader pos market fifth p.price1 h1)
            (slice-All trader pos market fifth p.price2 h2))
          (slice-All trader pos market fifth p.price3 h3))
        (slice-All trader pos market rest p.price4 h4)

  sell_position-All :
      (trader : ℕ) (max_frac : F) (pos : PositionData D) (market : Market D)
      → le_f (to_float pos.size) (lit 0) ≡ false
      → All (IsReducing F trader pos market) (sell_position trader max_frac pos market)
  unfolding sell_position
  sell_position-All trader max_frac pos market e =
      let (ask, bid) = quotes (to_float market.best_ask) (to_float market.best_bid) in
      let guarded = prices-AreGuarded pos.side market ask bid in
      let min_order : F = to_float market.min_order in
      let order_sz : F =
        order_size (to_float pos.size) (fl.div (lit 10_000_000) (to_float market.fair_price))
          (fl.mul (to_float market.average_daily_volume_q) max_frac) min_order in
      let sizes : F × F = calc_sell_order_slices order_sz min_order in
      fits-All (IsReducing F trader pos market) (le_f order_sz (to_float pos.size))
        (le_f min_order (to_float pos.size))
        (slices trader pos sizes (prices pos.side market ask bid))
        (place trader pos pos.size (prices pos.side market ask bid).price4 ∷ [])
        (slices-All trader pos market sizes (prices pos.side market ask bid) guarded)
        (
          (
            refl,
            refl,
            refl,
            (_, refl, guarded.3),
            inl (refl, not_le→Lt (to_float pos.size) (lit 0) e),
          ),
          tt,
        )

  pub sell_positions-All :
      (trader : ℕ) (max_frac : F) (markets : List (String × MarketData D))
      (positions : List (PositionData D)) (actions : List (Action D))
      → sell_positions trader max_frac markets positions ≡ some actions
      → All (IsOrderFor F trader markets positions) actions
  unfolding sell_positions
  sell_positions-All trader max_frac markets [] actions h =
      subst (All (IsOrderFor F trader markets [])) (some-injective h) tt
  sell_positions-All trader max_frac markets (pos ∷ positions) actions h =
      go (market_of pos.market_id markets) refl h
        (sell_positions-All trader max_frac markets positions)
    where
      rest : Option (List (Action D))
      rest = sell_positions trader max_frac markets positions

      IsNext : List (Action D) → Type 0
      IsNext orders = All (IsOrderFor F trader markets (pos ∷ positions)) orders

      later :
          (orders : List (Action D))
          → All (IsOrderFor F trader markets positions) orders
          → IsNext orders
      later orders =
          All-weaken (IsOrderFor F trader markets positions) _
            (λ a o. (o.0, inr o.1, o.2, o.3, o.4, o.5, o.6)) orders

      sold :
          (market : Market D)
          → All
              (IsOrderFor F trader markets (pos ∷ positions))
              (sell_position trader max_frac pos market)
          → (r : Option (List (Action D))) → rest ≡ r
          → elim r as (λ x. Option (List (Action D))) [
            | none ↦ none
            | some orders ↦ some (sell_position trader max_frac pos market ++ orders)
          ]
            ≡ some actions
          → ((orders : List (Action D))
              → rest ≡ some orders
              → All (IsOrderFor F trader markets positions) orders)
          → IsNext actions
      sold market first none e' h' ih = cc
      sold market first (some orders) e' h' ih = subst IsNext (some-injective h') (
          All-append (IsOrderFor F trader markets (pos ∷ positions)) _ _ first
            (later orders (ih orders e')))

      read :
          (pos_market : MarketData D)
          → market_of pos.market_id markets ≡ some pos_market
          → (m : Reading (Market D)) → read_market F pos pos_market ≡ m
          → elim m as (λ x. Option (List (Action D))) [
            | nil_pointer ↦ none
            | skipped ↦ rest
            | reading market ↦ elim rest as (λ x. Option (List (Action D))) [
              | none ↦ none
              | some orders ↦ some (sell_position trader max_frac pos market ++ orders)
            ]
          ]
            ≡ some actions
          → ((orders : List (Action D))
              → rest ≡ some orders
              → All (IsOrderFor F trader markets positions) orders)
          → IsNext actions
      read pos_market e nil_pointer r h' ih = cc
      read pos_market e skipped r h' ih = later actions (ih actions h')
      read pos_market e (reading market) r h' ih =
          let is_read = read_market-IsMarketOf F pos pos_market market r in
          sold market
            (All-weaken (IsReducing F trader pos market) _
              (λ a o. (pos, inl refl, pos_market, e, market, is_read.1, o)) _
              (sell_position-All trader max_frac pos market is_read.0))
            rest refl h' ih

      go :
          (o : Option (MarketData D))
          → market_of pos.market_id markets ≡ o
          → elim o as (λ x. Option (List (Action D))) [
            | none ↦ none
            | some pos_market ↦
                elim (read_market F pos pos_market) as (λ x. Option (List (Action D))) [
                  | nil_pointer ↦ none
                  | skipped ↦ rest
                  | reading market ↦ elim rest as (λ x. Option (List (Action D))) [
                    | none ↦ none
                    | some orders ↦ some (sell_position trader max_frac pos market ++ orders)
                  ]
                ]
          ]
            ≡ some actions
          → ((orders : List (Action D))
              → rest ≡ some orders
              → All (IsOrderFor F trader markets positions) orders)
          → IsNext actions
      go none e h' ih = cc
      go (some pos_market) e h' ih = read pos_market e (read_market F pos pos_market) refl h' ih
