-- ===== src/Funding/Complete.antt =====
-- When `ProcessFunding` pays every market that is due.
use rabbit_dex_backend.Common.{
  ℕ, ◌<◌, ◌≡◌, refl, sym, ap, subst, ◌∙◌, ◌⊎◌, inl, inr, Bool, true, false, ◌||◌, Option, none,
  some, List, [], ◌∷◌, ◌++◌, map, leb, arith, if◌then◌else◌, In,
}
use rabbit_dex_backend.Float64.{Float64, Convert, is_zero}
use rabbit_dex_backend.Funding.{
  Market, Position, FundingPayment, PayFunding, Answers, Totals, Step, continue, return,
  add_positions, no_totals, is_skipped, pay_totals, process_market, process_funding,
}
use rabbit_dex_backend.Funding.Payments.{
  calls_of, add_positions-lem, payments_of, received, long_sum, short_sum,
}

not-leb : (a b : ℕ) → a < b → leb b a ≡ false
not-leb a b h = ground arith

module _ (D F : Type 0) ⦃fl : Float64 F⦄ ⦃cv : Convert D F⦄ where
  open fl use {lit}
  open cv use {to_float}

  -- The request for the positions of a market and the payment succeed, so that the loop goes on.
  abbrev pub IsAnswered : Answers D → ℕ → Type 0
  IsAnswered w id =
      (positions : List (Position D)) × (w.get_all_active_positions id ≡ some positions)
      × (w.pay_funding_ok id ≡ true)

  abbrev pub market_ids : List (PayFunding D F) → List ℕ
  market_ids calls = map (λ call. call.market_id) calls

  market_ids-left :
      (id : ℕ) (calls more : List (PayFunding D F))
      → In id (market_ids calls)
      → In id (market_ids (calls ++ more))
  market_ids-left id [] more h = absurd h
  market_ids-left id (c ∷ calls) more (inl e) = inl e
  market_ids-left id (c ∷ calls) more (inr h) = inr (market_ids-left id calls more h)

  market_ids-right :
      (id : ℕ) (calls more : List (PayFunding D F))
      → In id (market_ids more)
      → In id (market_ids (calls ++ more))
  market_ids-right id [] more h = h
  market_ids-right id (c ∷ calls) more h = inr (market_ids-right id calls more h)

  abbrev GoesOn : Step D F → Type 0
  GoesOn s = (calls : List (PayFunding D F)) × (s ≡ continue calls)

  pay_totals-GoesOn :
      (id : ℕ) (m : Market D) (ok : Bool) (t : Totals D F)
      → ok ≡ true
      → GoesOn (pay_totals id m ok t)
  unfolding pay_totals
  pay_totals-GoesOn id m false t e = absurd (let e' = e in cc)
  pay_totals-GoesOn id m true t e = go t.payments
    where
      call : PayFunding D F
      call = record {
        market_id = id;
        payments = t.payments;
        last_update = m.last_funding_update_time;
        total_long = t.total_long;
        total_short = t.total_short;
      }

      go :
          (ps : List (FundingPayment D))
          → GoesOn (elim ps as (λ x. Step D F) [
            | [] ↦ continue []
            | p ∷ payments ↦ continue (call ∷ [])
          ])
      go [] = ([], refl)
      go (p ∷ ps) = (call ∷ [], refl)

  process_market-GoesOn :
      (w : Answers D) (id : ℕ) (o : Option (Market D)) (u : Option ℕ)
      → IsAnswered w id
      → GoesOn (process_market w id o u)
  unfolding process_market
  process_market-GoesOn w id none u h = ([], refl)
  process_market-GoesOn w id (some m) none h = ([], refl)
  process_market-GoesOn w id (some m) (some last) (positions, e, ok) =
      go (is_skipped m (to_float m.last_funding_rate) last)
    where
      after : Option (List (Position D)) → Step D F
      after o = elim o [
        | none ↦ return []
        | some ps ↦ pay_totals id m (w.pay_funding_ok id) (add_positions m ps no_totals)
      ]

      go : (b : Bool) → GoesOn (if b then continue [] else after (w.get_all_active_positions id))
      go true = ([], refl)
      go false =
          subst (λ o. GoesOn (after o)) (sym e)
            (pay_totals-GoesOn id m (w.pay_funding_ok id) (add_positions m positions no_totals) ok)

  -- A market that has a newer funding rate, not zero, than its last payment, and a position.
  abbrev pub IsOwed : Answers D → ℕ → Type 0
  IsOwed w id =
      (m : Market D) × (last_update : ℕ) × (p : Position D) × (positions : List (Position D))
      × (w.get_market_data id ≡ some m)
      × (w.get_funding_meta id ≡ some last_update)
      × (w.get_all_active_positions id ≡ some (p ∷ positions))
      × (last_update < m.last_funding_update_time)
      × (is_zero (to_float m.last_funding_rate) ≡ false)

  process_market-IsOwed :
      (w : Answers D) (id : ℕ)
      → IsOwed w id
      → In id (
          market_ids
            (calls_of (process_market w id (w.get_market_data id) (w.get_funding_meta id))))
  unfolding process_market pay_totals
  process_market-IsOwed w id (m, last, p, positions, e, e', e'', newer, rate) =
      subst (λ o. In id (market_ids (calls_of (process_market w id o (w.get_funding_meta id)))))
        (sym e)
        (subst (λ u. In id (market_ids (calls_of (process_market w id (some m) u)))) (sym e')
          (go _ skip))
    where
      skip : is_skipped m (to_float m.last_funding_rate) last ≡ false
      skip = ap (λ b. b || is_zero (to_float m.last_funding_rate)) (not-leb _ _ newer) ∙ rate

      after : Option (List (Position D)) → Step D F
      after o = elim o [
        | none ↦ return []
        | some ps ↦ pay_totals id m (w.pay_funding_ok id) (add_positions m ps no_totals)
      ]

      share : Position D → F
      share = received m

      ended :
          (ok : Bool)
          → In id (
              market_ids
                (calls_of (pay_totals id m ok (add_positions m (p ∷ positions) no_totals))))
      ended ok =
          subst (λ t. In id (market_ids (calls_of (pay_totals id m ok t))))
            (sym (add_positions-lem m (p ∷ positions) [] (lit 0) (lit 0))) (paid ok)
        where
          paid :
              (b : Bool)
              → In id (
                  market_ids (
                    calls_of (
                      pay_totals id m b (record {
                        payments = payments_of share (p ∷ positions);
                        total_long = long_sum m (p ∷ positions) (lit 0);
                        total_short = short_sum m (p ∷ positions) (lit 0);
                      }))))
          paid true = inl refl
          paid false = inl refl

      go :
          (b : Bool)
          → b ≡ false
          → In id (
              market_ids
                (calls_of (if b then continue [] else after (w.get_all_active_positions id))))
      go true f = absurd (let f' = f in cc)
      go false f =
          subst (λ o. In id (market_ids (calls_of (after o)))) (sym e'')
            (ended (w.pay_funding_ok id))

  -- When Tarantool gives the positions of every market and takes every payment, `ProcessFunding`
  -- requests the payments of each market of the configuration that is owed one: whatever happens
  -- at the others, also where their data cannot be read.
  pub process_funding-IsOwed :
      (w : Answers D) (markets : List ℕ) (id : ℕ)
      → ((j : ℕ) → IsAnswered w j)
      → In id markets
      → IsOwed w id
      → In id (market_ids (process_funding {F = F} w markets))
  unfolding process_funding
  process_funding-IsOwed w [] id answered h owed = absurd h
  process_funding-IsOwed w (j ∷ markets) id answered h owed =
      go (process_market w j (w.get_market_data j) (w.get_funding_meta j)) refl
        (process_market-GoesOn w j (w.get_market_data j) (w.get_funding_meta j) (answered j)) h
        (λ k. process_funding-IsOwed w markets id answered k owed)
    where
      go :
          (s : Step D F)
          → process_market w j (w.get_market_data j) (w.get_funding_meta j) ≡ s
          → GoesOn s
          → (id ≡ j) ⊎ In id markets
          → (In id markets → In id (market_ids (process_funding {F = F} w markets)))
          → In id (
              market_ids (elim s as (λ x. List (PayFunding D F)) [
                | continue calls ↦ calls ++ process_funding w markets
                | return calls ↦ calls
              ]))
      go (return calls) e (more, r) k ih = absurd (let r' = r in cc)
      go (continue calls) e g (inr k) ih = market_ids-right id calls _ (ih k)
      go (continue calls) e g (inl same) ih = market_ids-left id calls _ (
          subst (λ s. In id (market_ids (calls_of s)))
            (ap (λ x. process_market w x (w.get_market_data x) (w.get_funding_meta x)) same ∙ e)
            (process_market-IsOwed w id owed))
