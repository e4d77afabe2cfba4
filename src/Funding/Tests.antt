-- ===== src/Funding/Tests.antt =====
-- A small round of the funding, and the theorems at it. A number is in ten-thousandths.
use rabbit_dex_backend.Common.{
  ℕ, ◌≡◌, refl, inl, inr, true, none, some, List, [], ◌∷◌, arith, ◌==◌, if◌then◌else◌, All, In,
}
use rabbit_dex_backend.Decimal.Hundredths.{ℤ, pos, negsuc}
use rabbit_dex_backend.Float64.{Le}
use rabbit_dex_backend.Float64.Tenthousandths.{tenthousandths, convert}
use rabbit_dex_backend.Funding.{long, short, Market, Position, Answers, limit, process_funding}
use rabbit_dex_backend.Funding.Limit.{limit-bounds}
use rabbit_dex_backend.Funding.Payments.{IsDue, process_funding-IsDue}
use rabbit_dex_backend.Funding.Complete.{market_ids, process_funding-IsOwed}

-- A rate of 2%, which is limited, at a price of 10.
abbrev market : Market ℤ
market = record {
  last_funding_update_time = 20;
  last_funding_rate = pos 200;
  fair_price = pos 100_000;
}

abbrev long_position : Position ℤ
long_position = record { market_id = 1; profile_id = 7; size = pos 30_000; side = long }

abbrev short_position : Position ℤ
short_position = record { market_id = 1; profile_id = 8; size = pos 20_000; side = short }

-- Market 1 has two positions; market 2 has been paid, and of market 3 the data cannot be read.
abbrev world : Answers ℤ
world = record {
  get_market_data = λ id. if id == 3 then none else some market;
  get_funding_meta = λ id. some (if id == 1 then 10 else 20);
  get_all_active_positions = λ id. some (long_position ∷ short_position ∷ []);
  pay_funding_ok = λ id. true;
}

abbrev markets : List ℕ
markets = 3 ∷ 2 ∷ 1 ∷ []

process_funding-IsDue_example :
    All
      (λ call. IsDue world call × In call.market_id markets)
      (process_funding {F = ℤ} world markets)
process_funding-IsDue_example = process_funding-IsDue ℤ ℤ world markets

process_funding-IsOwed_example : In 1 (market_ids ℤ ℤ (process_funding {F = ℤ} world markets))
process_funding-IsOwed_example =
    process_funding-IsOwed ℤ ℤ world markets 1
      (λ j. (long_position ∷ short_position ∷ [], refl, refl)) (inr (inr (inl refl)))
      (market, 10, long_position, short_position ∷ [], refl, refl, refl, omega arith, refl)

limit-bounds_example :
    Le (negsuc 99) (limit (negsuc 249))
    × Le (limit (negsuc 249)) (pos 100)
    × (limit (limit (negsuc 249)) ≡ limit (negsuc 249))
limit-bounds_example = limit-bounds (negsuc 249)
