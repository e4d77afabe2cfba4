-- ===== src/Liqengine/Required.antt =====
-- What `requiredActions` of Engine asks for, by the account's margin.
use Prim.Native.String.{String}
use text.Mathlib.Text.{◌==◌ as str_eq}
use rabbit_dex_backend.Common.{
  ℕ, ◌≡◌, refl, subst, ◌⊎◌, inl, inr, Bool, true, false, not, Option, none, some, List, [], ◌∷◌,
  if◌then◌else◌, Bool-cases, All,
}
use rabbit_dex_backend.Float64.{Float64, Convert, Le, Lt, lt_f, le_f→Le, not_le→Lt}
use rabbit_dex_backend.Liqengine.Account.{Action, ins_takeover, PositionData, AccountData}
use rabbit_dex_backend.Liqengine.Engine.{
  waterfall1, waterfall3, takeover, takeovers, liquidated_vault, required_actions,
  generate_sell_orders, liquidation_margin, takeover_margin, calc_zp, max_adv_frac,
}
use rabbit_dex_backend.Liqengine.Orders.{IsOrderFor, sell_positions-All, some-injective}

module _ {D F : Type 0} ⦃fl : Float64 F⦄ ⦃conv : Convert D F⦄ where
  open fl use {lit, add, sub, mul}
  open conv use {to_float, of_float}

  -- The price of a takeover: the fair price less the margin's share of it for a long position, and
  -- with it added for another.
  abbrev IsTakeoverPrice : F → PositionData D → D → D → Type 0
  IsTakeoverPrice margin pos fair_price price =
      ((str_eq pos.side "long" ≡ true)
        × (price ≡ of_float (mul (to_float fair_price) (sub (lit 10_000) margin))))
      ⊎ ((str_eq pos.side "long" ≡ false)
          × (price ≡ of_float (mul (to_float fair_price) (add (lit 10_000) margin))))

  calc_zp-IsTakeoverPrice :
      (margin : F) (pos : PositionData D) (fair_price : D)
      → IsTakeoverPrice margin pos fair_price (of_float (calc_zp pos fair_price margin))
  unfolding calc_zp
  calc_zp-IsTakeoverPrice margin pos fair_price = elim (Bool-cases (str_eq pos.side "long")) [
    | inl e ↦ inl (e, rw e refl)
    | inr e ↦ inr (e, rw e refl)
  ]

  -- A takeover by the insurance, of the position's size as it comes back from a float64.
  abbrev pub IsTakeoverOf : ℕ → F → PositionData D → Action D → Type 0
  IsTakeoverOf trader margin pos a =
      (a.kind ≡ ins_takeover)
      × (a.trader_id ≡ trader)
      × (a.market_id ≡ pos.market_id)
      × (a.size ≡ of_float (to_float pos.size))
      × ((fair_price : D) × (pos.fair_price ≡ some fair_price)
          × IsTakeoverPrice margin pos fair_price a.price)

  -- One takeover for each position, in their order.
  abbrev pub AreTakeoversOf : ℕ → F → List (PositionData D) → List (Action D) → Type 0
  AreTakeoversOf trader margin [] [] = Unit
  AreTakeoversOf trader margin [] (a ∷ actions) = ⊥
  AreTakeoversOf trader margin (pos ∷ positions) [] = ⊥
  AreTakeoversOf trader margin (pos ∷ positions) (a ∷ actions) =
      IsTakeoverOf trader margin pos a × AreTakeoversOf trader margin positions actions

  takeovers-AreTakeoversOf :
      (trader : ℕ) (margin : F) (positions : List (PositionData D)) (actions : List (Action D))
      → takeovers trader margin positions ≡ some actions
      → AreTakeoversOf trader margin positions actions
  unfolding takeovers
  takeovers-AreTakeoversOf trader margin [] actions h =
      subst (AreTakeoversOf trader margin []) (some-injective h) tt
  takeovers-AreTakeoversOf trader margin (pos ∷ positions) actions h =
      go pos.fair_price refl (takeovers trader margin positions) h
        (takeovers-AreTakeoversOf trader margin positions)
    where
      go :
          (o : Option D)
          → pos.fair_price ≡ o
          → (r : Option (List (Action D)))
          → elim o as (λ x. Option (List (Action D))) [
            | none ↦ none
            | some fair_price ↦ elim r as (λ x. Option (List (Action D))) [
              | none ↦ none
              | some rest ↦ some (takeover trader margin pos fair_price ∷ rest)
            ]
          ]
            ≡ some actions
          → ((rest : List (Action D)) → r ≡ some rest → AreTakeoversOf trader margin positions rest)
          → AreTakeoversOf trader margin (pos ∷ positions) actions
      go none e r h' ih = cc
      go (some fair_price) e none h' ih = cc
      go (some fair_price) e (some rest) h' ih =
          subst (AreTakeoversOf trader margin (pos ∷ positions)) (some-injective h') (
            (
              refl,
              refl,
              refl,
              refl,
              (fair_price, e, calc_zp-IsTakeoverPrice margin pos fair_price),
            ),
            ih rest refl,
          )

module _ {D : Type 0} (F : Type 0) ⦃fl : Float64 F⦄ ⦃conv : Convert D F⦄ where
  open fl use {le_f}
  open conv use {to_float}

  -- The actions and the liquidated vaults that an account of this margin should get.
  abbrev IsRequiredAt : AccountData D → F → List (Action D) × List ℕ → Type 0
  IsRequiredAt account margin (actions, vaults) =
      (Le liquidation_margin margin × (actions ≡ []) × (vaults ≡ []))
      ⊎ (Le takeover_margin margin
          × Lt margin liquidation_margin
          × All (IsOrderFor F account.cache.profile_id account.markets account.positions) actions
          × (vaults ≡ []))
      ⊎ (Lt margin takeover_margin
          × AreTakeoversOf account.cache.profile_id margin account.positions actions
          × ((type : String) × (account.cache.profile_type ≡ some type)
              × (vaults ≡ (if str_eq type "vault" then account.cache.profile_id ∷ [] else []))))

  -- Those that an account should get.
  abbrev pub IsRequired : AccountData D → List (Action D) × List ℕ → Type 0
  IsRequired account required =
      (margin : D) × (account.cache.account_margin ≡ some margin)
      × IsRequiredAt account (to_float margin) required

  waterfall1-All :
      (account : AccountData D) (actions : List (Action D))
      → waterfall1 F account ≡ some actions
      → All (IsOrderFor F account.cache.profile_id account.markets account.positions) actions
  unfolding waterfall1 generate_sell_orders
  waterfall1-All account actions h =
      sell_positions-All account.cache.profile_id (max_adv_frac {F = F}) account.markets
        account.positions actions h

  -- If `requiredActions` answers and does not panic: at a margin of at least 0.03 there is nothing to do; from 0.02 on
  -- there are only reducing orders for the account's own positions, each of a positive size and at
  -- a price within the risk limit of its market; below 0.02 the insurance takes over every position,
  -- with its size converted to float64 and back, at the fair price times one less the margin (plus
  -- the margin where it is not long), and the profile's vault is liquidated if it is one.
  pub required_actions-IsRequired :
      (account : AccountData D) (required : List (Action D) × List ℕ)
      → required_actions F account ≡ some required
      → IsRequired account required
  unfolding required_actions waterfall3 liquidated_vault
  required_actions-IsRequired account required h = go account.cache.account_margin refl h
    where
      vault :
          (margin : F) (actions : List (Action D))
          → Lt margin takeover_margin
          → AreTakeoversOf account.cache.profile_id margin account.positions actions
          → (t : Option String) → account.cache.profile_type ≡ t
          → elim t as (λ x. Option (List (Action D) × List ℕ)) [
            | none ↦ none
            | some type ↦
                some (actions, if str_eq type "vault" then account.cache.profile_id ∷ [] else [])
          ]
            ≡ some required
          → IsRequiredAt account margin required
      vault margin actions low taken none e h' = cc
      vault margin actions low taken (some type) e h' =
          subst (IsRequiredAt account margin) (some-injective h')
            (inr (inr (low, taken, (type, e, refl))))

      decide :
          (margin : D) (above : Bool)
          → le_f liquidation_margin (to_float margin) ≡ above
          → (reached : Bool) → le_f takeover_margin (to_float margin) ≡ reached
          → (orders : Option (List (Action D))) → waterfall1 F account ≡ orders
          → (taken : Option (List (Action D))) → waterfall3 F account margin ≡ taken
          → (if not above
              then (if reached
                  then elim orders as (λ x. Option (List (Action D) × List ℕ)) [
                    | none ↦ none
                    | some actions ↦ some (actions, [])
                  ]
                  else elim taken as (λ x. Option (List (Action D) × List ℕ)) [
                    | none ↦ none
                    | some actions ↦ liquidated_vault account.cache actions
                  ])
              else some ([], []))
            ≡ some required
          → IsRequiredAt account (to_float margin) required
      decide margin true above reached e orders w taken t h' =
          subst (IsRequiredAt account (to_float margin)) (some-injective h')
            (inl (le_f→Le (liquidation_margin {F = F}) (to_float margin) above, refl, refl))
      decide margin false below true reached none w taken t h' = cc
      decide margin false below true reached (some actions) w taken t h' =
          subst (IsRequiredAt account (to_float margin)) (some-injective h') (
            inr (
              inl (
                le_f→Le (takeover_margin {F = F}) (to_float margin) reached,
                not_le→Lt (liquidation_margin {F = F}) (to_float margin) below,
                waterfall1-All account actions w,
                refl,
              )))
      decide margin false below false low orders w none t h' = cc
      decide margin false below false low orders w (some actions) t h' =
          vault (to_float margin) actions
            (not_le→Lt (takeover_margin {F = F}) (to_float margin) low)
            (takeovers-AreTakeoversOf account.cache.profile_id (to_float margin) account.positions
              actions t)
            account.cache.profile_type refl h'

      go :
          (o : Option D)
          → account.cache.account_margin ≡ o
          → elim o as (λ x. Option (List (Action D) × List ℕ)) [
            | none ↦ none
            | some margin ↦
                if lt_f (to_float margin) liquidation_margin
                then if le_f takeover_margin (to_float margin)
                  then elim (waterfall1 F account) as (λ x. Option (List (Action D) × List ℕ)) [
                    | none ↦ none
                    | some actions ↦ some (actions, [])
                  ]
                  else elim (waterfall3 F account margin)
                      as (λ x. Option (List (Action D) × List ℕ)) [
                        | none ↦ none
                        | some actions ↦ liquidated_vault account.cache actions
                      ]
                else some ([], [])
          ]
            ≡ some required
          → IsRequired account required
      go none e h' = cc
      go (some margin) e h' = (
        margin,
        e,
        decide margin _ refl _ refl (waterfall1 F account) refl (waterfall3 F account margin) refl
            h',
      )
