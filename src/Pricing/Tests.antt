-- ===== src/Pricing/Tests.antt =====
-- Small updates of the index price, and the theorems at them. A number is in ten-thousandths.
use rabbit_dex_backend.Common.{◌≤◌, ◌≡◌, ◌≢◌, refl, List, [], ◌∷◌, arith}
use rabbit_dex_backend.Decimal.Hundredths.{ℤ, pos}
use rabbit_dex_backend.Float64.Tenthousandths.{tenthousandths}
use rabbit_dex_backend.Pricing.{
  State, ok, close_enough, median, sort_floats, insert_float, is_consistent, has_two_close,
  first_median, useable_data, combine, get_combined_price, process_inputs, price_updater,
}
use rabbit_dex_backend.Pricing.Combined.{IsCombined, get_combined_price-IsCombined}
use rabbit_dex_backend.Pricing.Rejections.{process_inputs-run, price_updater-sends}

-- Three sources at 10.0, 10.1 and 20.0, and no price yet.
abbrev inputs : List ℤ
inputs = pos 100_000 ∷ pos 101_000 ∷ pos 200_000 ∷ []

combined : get_combined_price (pos 0) inputs ≡ ok (pos 100_500, 2)
unfolding get_combined_price first_median is_consistent has_two_close close_enough median
    sort_floats insert_float useable_data combine
combined = refl

get_combined_price-IsCombined_example : IsCombined (pos 0) inputs (pos 100_500, 2)
get_combined_price-IsCombined_example =
    get_combined_price-IsCombined (pos 0) inputs (pos 100_500, 2) combined

-- A service whose last price is 20.0, with 9 rejections.
abbrev service : State ℤ
service = record { most_recent_price = pos 200_000; rejected_run_length = 9 }

abbrev low : List ℤ
low = pos 100_000 ∷ pos 101_000 ∷ []

combined_low : get_combined_price (pos 200_000) low ≡ ok (pos 100_500, 2)
unfolding get_combined_price first_median is_consistent has_two_close close_enough median
    sort_floats insert_float useable_data combine
combined_low = refl

process_inputs-run_example : (process_inputs service low).0.rejected_run_length ≤ 11
process_inputs-run_example = process_inputs-run service low (omega arith)

price_updater-sends_example : price_updater service (low ∷ low ∷ low ∷ []) ≢ []
price_updater-sends_example =
    price_updater-sends service (low ∷ low ∷ low ∷ []) (omega arith)
      (
        ((pos 100_500, 2), combined_low),
        (((pos 100_500, 2), combined_low), (((pos 100_500, 2), combined_low), tt)),
      )
      (omega arith)
