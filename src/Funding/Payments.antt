-- ===== src/Funding/Payments.antt =====
-- Which markets `ProcessFunding` pays, whom, and how much.
use rabbit_dex_backend.Common.{
  ℕ, ◌<◌, ◌≡◌, refl, sym, ap, ◌∙◌, inl, inr, Bool, true, false, ◌||◌, Option, none, some, List, [],
  ◌∷◌, ◌++◌, map, arith, leb, Bool-cases, if◌then◌else◌, All, In, All-append, All-weaken,
}
use mathlib.Core.List.{append-nil, append_assoc}
use rabbit_dex_backend.Float64.{Float64, Convert, is_zero}
use rabbit_dex_backend.Funding.{
  Side, long, short, Market, Position, FundingPayment, PayFunding, Answers, Totals, Step, continue,
  return, funding_update, add_update, add_positions, no_totals, limit, is_skipped, pay_totals,
  process_market, process_funding,
}

module _ {F : Type 0} ⦃fl : Float64 F⦄ where
  open fl use {lit, neg, add, le_f}

  -- What a position receives: a short one its update, a long one the negative of it.
  abbrev of_side : F → Side → F
  of_side x long = neg x
  of_side x short = x

  -- The sums of what the long and of what the short positions receive.
  abbrev add_long : F → F → Side → F
  add_long sum x long = add sum (neg x)
  add_long sum x short = sum

  abbrev add_short : F → F → Side → F
  add_short sum x long = sum
  add_short sum x short = add sum x

  -- A rate held between -0.01 and 0.01.
  abbrev clamped : F → F
  clamped rate =
      if le_f (neg (lit 100)) rate
      then if le_f rate (lit 100) then rate else lit 100
      else neg (lit 100)

  limit-clamped : (rate : F) → limit rate ≡ clamped rate
  unfolding limit
  limit-clamped rate = elim (Bool-cases (le_f (neg (lit 100)) rate)) [
    | inl e ↦ elim (Bool-cases (le_f rate (lit 100))) [
      | inl e' ↦ rw e (rw e' refl)
      | inr e' ↦ rw e (rw e' refl)
    ]
    | inr e ↦ rw e refl
  ]

leb-false : (a b : ℕ) → leb a b ≡ false → b < a
leb-false a b e = ground arith

or-false : (a b : Bool) → (a || b) ≡ false → (a ≡ false) × (b ≡ false)
or-false false false e = (refl, refl)
or-false false true e = absurd (let e' = e in cc)
or-false true b e = absurd (let e' = e in cc)

module _ {D F : Type 0} ⦃fl : Float64 F⦄ ⦃cv : Convert D F⦄ where
  open fl use {lit, neg, add, mul}
  open cv use {to_float, of_float}

  -- What a short position receives: its size times the fair price times the rate, which is limited.
  abbrev update_of : Market D → Position D → F
  update_of m p =
      mul (mul (to_float p.size) (to_float m.fair_price)) (clamped (to_float m.last_funding_rate))

  funding_update-update_of : (m : Market D) (p : Position D) → funding_update m p ≡ update_of m p
  unfolding funding_update
  funding_update-update_of m p =
      ap (λ rate. mul (mul (to_float p.size) (to_float m.fair_price)) rate)
        (limit-clamped (to_float m.last_funding_rate))

  abbrev pub received : Market D → Position D → F
  received m p = of_side (update_of m p) p.side

  abbrev pub payment : F → Position D → FundingPayment D
  payment x p = record {
    market_id = p.market_id;
    profile_id = p.profile_id;
    funding_amount = of_float x;
  }

  abbrev pub payments_of : (Position D → F) → List (Position D) → List (FundingPayment D)
  payments_of share positions = map (λ p. payment (share p) p) positions

  abbrev pub long_sum : Market D → List (Position D) → F → F
  long_sum m [] sum = sum
  long_sum m (p ∷ positions) sum = long_sum m positions (add_long sum (update_of m p) p.side)

  abbrev pub short_sum : Market D → List (Position D) → F → F
  short_sum m [] sum = sum
  short_sum m (p ∷ positions) sum = short_sum m positions (add_short sum (update_of m p) p.side)

  add_update-lem :
      (p : Position D) (x : F) (side : Side) (t : Totals D F)
      → add_update p x side t ≡ record {
        payments = t.payments ++ (payment (of_side x side) p ∷ []);
        total_long = add_long t.total_long x side;
        total_short = add_short t.total_short x side;
      }
  unfolding add_update
  add_update-lem p x long t = refl
  add_update-lem p x short t = refl

  pub add_positions-lem :
      (m : Market D) (positions : List (Position D)) (front : List (FundingPayment D)) (l s : F)
      → add_positions m positions (record { payments = front; total_long = l; total_short = s })
        ≡ record {
          payments = front ++ payments_of (received m) positions;
          total_long = long_sum m positions l;
          total_short = short_sum m positions s;
        }
  unfolding add_positions
  add_positions-lem m [] front l s =
      ap (λ f. record { payments = f; total_long = l; total_short = s }) (sym (append-nil front))
  add_positions-lem m (p ∷ positions) front l s =
      ap
        (λ x.
          add_positions m positions
            (add_update p x p.side (record { payments = front; total_long = l; total_short = s })))
        (funding_update-update_of m p)
      ∙ ap (add_positions m positions) (add_update-lem p (update_of m p) p.side _)
      ∙ add_positions-lem m positions _ _ _
      ∙ ap
          (λ f. record {
            payments = f;
            total_long = long_sum m positions (add_long l (update_of m p) p.side);
            total_short = short_sum m positions (add_short s (update_of m p) p.side);
          })
          (append_assoc front _ _)

  -- The request for a market and its positions.
  abbrev pub request : ℕ → Market D → List (Position D) → PayFunding D F
  request id m positions = record {
    market_id = id;
    payments = payments_of (received m) positions;
    last_update = m.last_funding_update_time;
    total_long = long_sum m positions (lit 0);
    total_short = short_sum m positions (lit 0);
  }

  -- A request that Tarantool's answers call for: the market has a newer funding rate, which is not
  -- zero, than its last payment.
  abbrev pub IsDue : Answers D → PayFunding D F → Type 0
  IsDue w call =
      (m : Market D) × (last_update : ℕ) × (positions : List (Position D)) × (w.get_market_data
          call.market_id
        ≡ some m)
      × (w.get_funding_meta call.market_id ≡ some last_update)
      × (w.get_all_active_positions call.market_id ≡ some positions)
      × (last_update < m.last_funding_update_time)
      × (is_zero (to_float m.last_funding_rate) ≡ false)
      × (call ≡ request call.market_id m positions)

  abbrev pub calls_of : Step D F → List (PayFunding D F)
  calls_of (continue calls) = calls
  calls_of (return calls) = calls

  pay_totals-All :
      (P : PayFunding D F → Type 0) (id : ℕ) (m : Market D) (ok : Bool) (t : Totals D F)
      → P (record {
        market_id = id;
        payments = t.payments;
        last_update = m.last_funding_update_time;
        total_long = t.total_long;
        total_short = t.total_short;
      })
      → All P (calls_of (pay_totals id m ok t))
  unfolding pay_totals
  pay_totals-All P id m ok t h = go t.payments ok
    where
      call : PayFunding D F
      call = record {
        market_id = id;
        payments = t.payments;
        last_update = m.last_funding_update_time;
        total_long = t.total_long;
        total_short = t.total_short;
      }

      go :
          (ps : List (FundingPayment D)) (b : Bool)
          → All P (
              calls_of (elim ps as (λ x. Step D F) [
                | [] ↦ continue []
                | p ∷ payments ↦ if b then continue (call ∷ []) else return (call ∷ [])
              ]))
      go [] b = tt
      go (p ∷ ps) true = (h, tt)
      go (p ∷ ps) false = (h, tt)

module _ (D F : Type 0) ⦃fl : Float64 F⦄ ⦃cv : Convert D F⦄ where
  open fl use {lit}
  open cv use {to_float}

  -- A request that is due, for a market that is `id`.
  abbrev IsDueOf : Answers D → ℕ → PayFunding D F → Type 0
  IsDueOf w id call = IsDue w call × (call.market_id ≡ id)

  process_market-IsDue :
      (w : Answers D) (id : ℕ) (o : Option (Market D)) (u : Option ℕ)
      → w.get_market_data id ≡ o
      → w.get_funding_meta id ≡ u
      → All (IsDueOf w id) (calls_of (process_market w id o u))
  unfolding process_market
  process_market-IsDue w id none u e e' = tt
  process_market-IsDue w id (some m) none e e' = tt
  process_market-IsDue w id (some m) (some last) e e' = skipped _ refl
    where
      rate : F
      rate = to_float m.last_funding_rate

      due :
          (o : Option (List (Position D)))
          → w.get_all_active_positions id ≡ o
          → last < m.last_funding_update_time
          → is_zero (to_float m.last_funding_rate) ≡ false
          → All (IsDueOf w id) (
              calls_of (elim o as (λ x. Step D F) [
                | none ↦ return []
                | some positions ↦
                    pay_totals id m (w.pay_funding_ok id) (add_positions m positions no_totals)
              ]))
      due none e'' newer zero = tt
      due (some positions) e'' newer zero =
          pay_totals-All (IsDueOf w id) id m (w.pay_funding_ok id) _ (
            (
              m,
              last,
              positions,
              e,
              e',
              e'',
              newer,
              zero,
              ap
                  (λ t. record {
                    market_id = id;
                    payments = t.payments;
                    last_update = m.last_funding_update_time;
                    total_long = t.total_long;
                    total_short = t.total_short;
                  })
                  (add_positions-lem m positions [] (lit 0) (lit 0)),
            ),
            refl,
          )

      skipped :
          (b : Bool)
          → is_skipped m (to_float m.last_funding_rate) last ≡ b
          → All (IsDueOf w id) (
              calls_of (
                if b then continue [] else elim (w.get_all_active_positions id) as (λ x. Step D F) [
                  | none ↦ return []
                  | some positions ↦
                      pay_totals id m (w.pay_funding_ok id) (add_positions m positions no_totals)
                ]))
      skipped true s = tt
      skipped false s =
          let parts = or-false (leb m.last_funding_update_time last) (is_zero rate) s in
          due _ refl (leb-false _ _ parts.0) parts.1

  -- Every request of `ProcessFunding` is for a market of the configuration with a newer funding
  -- rate, not zero, than its last payment. It has one payment for each active position, in their
  -- order: a short position's is its size times the fair price times the limited rate, a long
  -- one's the negative of that; the two totals are the sums of each side.
  pub process_funding-IsDue :
      (w : Answers D) (markets : List ℕ)
      → All (λ call. IsDue w call × In call.market_id markets) (process_funding {F = F} w markets)
  unfolding process_funding
  process_funding-IsDue w [] = tt
  process_funding-IsDue w (id ∷ markets) =
      step (process_market w id (w.get_market_data id) (w.get_funding_meta id))
        (process_market-IsDue w id (w.get_market_data id) (w.get_funding_meta id) refl refl)
        (process_funding-IsDue w markets)
    where
      IsPaid : PayFunding D F → Type 0
      IsPaid call = IsDue w call × In call.market_id (id ∷ markets)

      here : (calls : List (PayFunding D F)) → All (IsDueOf w id) calls → All IsPaid calls
      here calls = All-weaken (IsDueOf w id) IsPaid (λ c h. (h.0, inl h.1)) calls

      step :
          (s : Step D F)
          → All (IsDueOf w id) (calls_of s)
          → All
              (λ call. IsDue w call × In call.market_id markets)
              (process_funding {F = F} w markets)
          → All IsPaid (elim s as (λ x. List (PayFunding D F)) [
            | continue calls ↦ calls ++ process_funding w markets
            | return calls ↦ calls
          ])
      step (continue calls) h rest = All-append IsPaid calls _ (here calls h) (
          All-weaken (λ call. IsDue w call × In call.market_id markets) IsPaid
            (λ c k. (k.0, inr k.1)) _ rest)
      step (return calls) h rest = here calls h
