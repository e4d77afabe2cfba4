-- ===== src/Funding.antt =====
-- funding/funding_service.go: `ProcessFunding`, the funding payments of the positions of each market
-- of the configuration. The answers of Tarantool are arguments, and the calls of `PayFunding` come
-- back as a log. A float64 is a value of the interface of Float64, and a decimal is converted by
-- `Convert`.
pub mod Limit
pub mod Payments
pub mod Complete
pub mod Tests
use rabbit_dex_backend.Common.{
  ℕ, ◌+◌, ◌≤◌, ◌≡◌, refl, Bool, true, false, not, ◌&&◌, ◌||◌, Option, none, some, List, [], ◌∷◌,
  ◌++◌, leb, arith, if◌then◌else◌,
}
use rabbit_dex_backend.Float64.{Float64, Convert, lt_f, is_zero}

pub data Side : Type 0 where
  long short : Side

pub record Market (D : Type 0) : Type 0 where
  pub last_funding_update_time : ℕ
  pub last_funding_rate : D
  pub fair_price : D

pub record Position (D : Type 0) : Type 0 where
  pub market_id : ℕ
  pub profile_id : ℕ
  pub size : D
  pub side : Side

pub record FundingPayment (D : Type 0) : Type 0 where
  pub market_id : ℕ
  pub profile_id : ℕ
  pub funding_amount : D

pub record PayFunding (D F : Type 0) : Type 0 where
  pub market_id : ℕ
  pub payments : List (FundingPayment D)
  pub last_update : ℕ
  pub total_long : F
  pub total_short : F

-- `fundingPayments`, `totalLong` and `totalShort`
pub record Totals (D F : Type 0) : Type 0 where
  pub payments : List (FundingPayment D)
  pub total_long : F
  pub total_short : F

-- What Tarantool answers for a market: its data, the last update of its funding meta, its active
-- positions, and whether `PayFunding` succeeds.
pub record Answers (D : Type 0) : Type 0 where
  pub get_market_data : ℕ → Option (Market D)
  pub get_funding_meta : ℕ → Option ℕ
  pub get_all_active_positions : ℕ → Option (List (Position D))
  pub pay_funding_ok : ℕ → Bool

module _ {F : Type 0} ⦃fl : Float64 F⦄ where
  open fl use {lit, neg, le_f}

  abbrev pub max_rate : F
  max_rate = lit 100

  unfoldable pub limit : F → F
  limit rate =
      if lt_f rate (neg max_rate)
      then neg max_rate
      else if lt_f max_rate rate
      then max_rate
      else rate

module _ {D F : Type 0} ⦃fl : Float64 F⦄ ⦃cv : Convert D F⦄ where
  open fl use {lit, neg, add, mul}
  open cv use {to_float, of_float}

  unfoldable pub funding_update : Market D → Position D → F
  funding_update m p =
      mul (mul (to_float p.size) (to_float m.fair_price)) (limit (to_float m.last_funding_rate))

  unfoldable pub add_update : Position D → F → Side → Totals D F → Totals D F
  add_update p x long t = record {
    payments =
        t.payments
        ++ (record {
          market_id = p.market_id;
          profile_id = p.profile_id;
          funding_amount = of_float (neg x);
        }
            ∷ []);
    total_long = add t.total_long (neg x);
    total_short = t.total_short;
  }
  add_update p x short t = record {
    payments =
        t.payments
        ++ (record {
          market_id = p.market_id;
          profile_id = p.profile_id;
          funding_amount = of_float x;
        }
            ∷ []);
    total_long = t.total_long;
    total_short = add t.total_short x;
  }

  unfoldable pub add_positions : Market D → List (Position D) → Totals D F → Totals D F
  add_positions m [] t = t
  add_positions m (p ∷ positions) t =
      add_positions m positions (add_update p (funding_update m p) p.side t)

  abbrev pub no_totals : Totals D F
  no_totals = record { payments = []; total_long = lit 0; total_short = lit 0 }

  abbrev pub is_skipped : Market D → F → ℕ → Bool
  is_skipped m rate last_update = leb m.last_funding_update_time last_update || is_zero rate

-- How the work on a market ends: with the next market, or with the end of `ProcessFunding`, and
-- with the payments that were requested.
pub data Step (D F : Type 0) : Type 0 where
  continue : List (PayFunding D F) → Step D F
  return : List (PayFunding D F) → Step D F

module _ {D F : Type 0} ⦃fl : Float64 F⦄ ⦃cv : Convert D F⦄ where
  open cv use {to_float}

  unfoldable pub pay_totals : ℕ → Market D → Bool → Totals D F → Step D F
  pay_totals id m ok t = elim t.payments [
    | [] ↦ continue []
    | p ∷ payments ↦
        let calls =
          record {
            market_id = id;
            payments = t.payments;
            last_update = m.last_funding_update_time;
            total_long = t.total_long;
            total_short = t.total_short;
          }
          ∷ [] in
        if ok then continue calls else return calls
  ]

  unfoldable pub process_market : Answers D → ℕ → Option (Market D) → Option ℕ → Step D F
  process_market w id none meta = continue []
  process_market w id (some m) none = continue []
  process_market w id (some m) (some last_update) =
      if is_skipped m (to_float m.last_funding_rate) last_update
      then continue []
      else elim (w.get_all_active_positions id) [
        | none ↦ return []
        | some positions ↦
            pay_totals id m (w.pay_funding_ok id) (add_positions m positions no_totals)
      ]

  -- `ProcessFunding`, over the markets of the configuration: the requests, in order.
  unfoldable pub process_funding : Answers D → List ℕ → List (PayFunding D F)
  process_funding w [] = []
  process_funding w (id ∷ markets) =
      let rest = process_funding w markets in
      elim (process_market w id (w.get_market_data id) (w.get_funding_meta id)) [
        | continue calls ↦ calls ++ rest
        | return calls ↦ calls
      ]
