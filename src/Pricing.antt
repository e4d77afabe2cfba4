-- ===== src/Pricing.antt =====
-- pricing/market_price_service.go: the index price of a market, from the prices of its sources. The
-- inputs of an update have at most as many prices as the service has sources, so its buffers
-- suffice. `sort.Float64s` is an insertion sort.
pub mod Medians
pub mod Combined
pub mod Rejections
pub mod Tests
use rabbit_dex_backend.Common.{
  ℕ, zero, suc, ◌+◌, ◌-◌, ◌/◌, ◌%◌, Bool, true, false, not, ◌&&◌, ◌||◌, Option, none, some, List,
  [], ◌∷◌, ◌==◌, leb, ltb, if◌then◌else◌, length, get_or, filter_by,
}
use rabbit_dex_backend.Float64.{Float64, lt_f, is_zero}

abbrev pub max_rejected_run_length : ℕ
max_rejected_run_length = 10

-- `MarketPriceService`
pub record State (F : Type 0) : Type 0 where
  pub most_recent_price : F
  pub rejected_run_length : ℕ

-- The two errors of `getCombinedPrice`, and the one of a jump.
pub data Error : Type 0 where
  inconsistent no_useable_data price_jump : Error

pub data Result (A : Type 0) : Type 0 where
  ok : A → Result A
  err : Error → Result A

module _ {F : Type 0} ⦃fl : Float64 F⦄ where
  open fl use {lit, neg, add, sub, div, le_f}

  abbrev pub five_percent : F
  five_percent = lit 500

  abbrev pub ten_percent : F
  ten_percent = lit 1_000

  unfoldable pub close_enough : F → F → F → Bool
  close_enough value target tolerance =
      let diff = div (sub value target) target in
      if is_zero target
      then is_zero value
      else le_f (if lt_f diff (lit 0) then neg diff else diff) tolerance

  unfoldable pub insert_float : F → List F → List F
  insert_float x [] = x ∷ []
  insert_float x (y ∷ ys) =
      let rest = insert_float x ys in if le_f x y then x ∷ y ∷ ys else y ∷ rest

  unfoldable pub sort_floats : List F → List F
  sort_floats [] = []
  sort_floats (x ∷ xs) = insert_float x (sort_floats xs)

  unfoldable pub median : List F → F
  median values =
      let scratch = sort_floats values in
      let l = length values in
      if l == 0
      then lit 0
      else if l % 2 == 0
      then div (add (get_or scratch (l / 2 - 1) (lit 0)) (get_or scratch (l / 2) (lit 0)))
          (lit 20_000)
      else get_or scratch (l / 2) (lit 0)

  -- The loop of `checkDataConsistency`, with its count.
  unfoldable pub has_two_close : F → List F → ℕ → Bool
  has_two_close median1 [] count = false
  has_two_close median1 (value ∷ values) count =
      let with_it = has_two_close median1 values (suc count) in
      let without = has_two_close median1 values count in
      if close_enough value median1 five_percent
      then (if leb 2 (suc count) then true else with_it)
      else without

  unfoldable pub is_consistent : List F → Bool
  is_consistent values =
      if ltb (length values) 2 then true else has_two_close (median values) values 0

  -- `median1` of `getCombinedPrice`; `none` where the data are inconsistent.
  unfoldable pub first_median : F → List F → Option F
  first_median recent input_prices =
      if not (ltb 1 (length input_prices))
      then some (lit 0)
      else if is_zero recent
      then (if is_consistent input_prices then some (median input_prices) else none)
      else if is_consistent (recent ∷ input_prices)
      then some (median (recent ∷ input_prices))
      else if is_consistent input_prices
      then some (median input_prices)
      else none

  unfoldable pub useable_data : F → List F → List F
  useable_data median1 input_prices =
      filter_by (λ price. length input_prices == 1 || close_enough price median1 five_percent)
        input_prices

  unfoldable pub combine : List F → Result (F × ℕ)
  combine [] = err no_useable_data
  combine (x ∷ xs) = ok (median (x ∷ xs), length (x ∷ xs))

  -- `getCombinedPrice`
  unfoldable pub get_combined_price : F → List F → Result (F × ℕ)
  get_combined_price recent input_prices = elim (first_median recent input_prices) [
    | none ↦ err inconsistent
    | some median1 ↦ combine (useable_data median1 input_prices)
  ]

  unfoldable pub accepts : State F → F → Bool
  accepts s latest =
      is_zero s.most_recent_price
      || ltb max_rejected_run_length s.rejected_run_length
      || close_enough latest s.most_recent_price ten_percent

  -- `processInputs`: the service, and the price with the number of its sources.
  unfoldable pub process_inputs : State F → List F → State F × Result (F × ℕ)
  process_inputs s input_prices = elim (get_combined_price s.most_recent_price input_prices) [
    | err e ↦ (s, err e)
    | ok latest ↦
        if accepts s latest.0
        then (record { most_recent_price = latest.0; rejected_run_length = 0 }, ok latest)
        else (record s { rejected_run_length = suc s.rejected_run_length }, err price_jump)
  ]

  -- `updateModelPrice`: the price that it sends, if any.
  abbrev pub sent : Result (F × ℕ) → Option F
  sent (ok latest) = some latest.0
  sent (err e) = none

  unfoldable pub update_model_price : State F → List F → State F × Option F
  update_model_price s input_prices = let r = process_inputs s input_prices in (r.0, sent r.1)

  -- `priceUpdater`, for the inputs that come on its channel: the prices that it sends.
  unfoldable pub price_updater : State F → List (List F) → List F
  price_updater s [] = []
  price_updater s (input_prices ∷ inputs) =
      let r = update_model_price s input_prices in
      let rest = price_updater r.0 inputs in elim r.1 [ none ↦ rest | some price ↦ price ∷ rest ]
