-- ===== src/Pricing/Rejections.antt =====
-- How long the index price can stand still: the run of rejected prices.
use rabbit_dex_backend.Common.{
  ℕ, suc, ◌+◌, ◌≤◌, ◌≡◌, ◌≢◌, refl, sym, ap, ◌∙◌, Bool, true, false, ◌||◌, none, some, List, [],
  ◌∷◌, arith, ltb, if◌then◌else◌, length, All,
}
use rabbit_dex_backend.Float64.{Float64, is_zero}
use rabbit_dex_backend.Pricing.{
  State, price_jump, Result, ok, err, ten_percent, close_enough, max_rejected_run_length,
  get_combined_price, accepts, process_inputs, sent, update_model_price, price_updater,
}

rejected-run :
    (a c : Bool) (run : ℕ) → (a || ltb max_rejected_run_length run || c) ≡ false → run ≤ 10
rejected-run true c run e = absurd (let x = e in cc)
rejected-run false c run e = ground arith

module _ {F : Type 0} ⦃fl : Float64 F⦄ where
  open fl use {lit}

  accepts-false : (s : State F) (latest : F) → accepts s latest ≡ false → s.rejected_run_length ≤ 10
  unfolding accepts
  accepts-false s latest e =
      rejected-run (is_zero s.most_recent_price)
        (close_enough latest s.most_recent_price ten_percent) s.rejected_run_length e

  -- The run of rejected prices stays at 11 or below: no update makes it longer.
  pub process_inputs-run :
      (s : State F) (input_prices : List F)
      → s.rejected_run_length ≤ 11
      → (process_inputs s input_prices).0.rejected_run_length ≤ 11
  unfolding process_inputs
  process_inputs-run s input_prices h = go (get_combined_price s.most_recent_price input_prices)
    where
      run_of : State F × Result (F × ℕ) → ℕ
      run_of r = r.0.rejected_run_length

      accepted :
          (latest : F × ℕ) (b : Bool)
          → accepts s latest.0 ≡ b
          → run_of (
              if b
              then (record { most_recent_price = latest.0; rejected_run_length = 0 }, ok latest)
              else (record s { rejected_run_length = suc s.rejected_run_length }, err price_jump))
            ≤ 11
      accepted latest true e = omega arith
      accepted latest false e = let l = accepts-false s latest.0 e in omega arith

      go :
          (x : Result (F × ℕ))
          → run_of (elim x as (λ y. State F × Result (F × ℕ)) [
            | err e ↦ (s, err e)
            | ok latest ↦
                if accepts s latest.0
                then (record { most_recent_price = latest.0; rejected_run_length = 0 }, ok latest)
                else (record s { rejected_run_length = suc s.rejected_run_length }, err price_jump)
          ])
            ≤ 11
      go (err e) = h
      go (ok latest) = accepted latest (accepts s latest.0) refl

  -- The inputs give a price beside the most recent one.
  abbrev pub IsPriced : F → List F → Type 0
  IsPriced recent input_prices =
      (latest : F × ℕ) × (get_combined_price recent input_prices ≡ ok latest)

  -- With the run of rejected prices not above 11, the updates that come on the channel send a price
  -- before the run and their number reach 12, if each of them gives one beside the most recent.
  pub price_updater-sends :
      (s : State F) (inputs : List (List F))
      → s.rejected_run_length ≤ 11
      → All (IsPriced s.most_recent_price) inputs
      → 12 ≤ s.rejected_run_length + length inputs
      → price_updater s inputs ≢ []
  unfolding price_updater update_model_price process_inputs
  price_updater-sends s [] low priced enough e = absurd (omega arith)
  price_updater-sends s (input_prices ∷ inputs) low ((latest, p), priced) enough e =
      go (accepts s latest.0) refl (λ l.
        price_updater-sends (record s { rejected_run_length = suc s.rejected_run_length }) inputs l
          priced (omega arith))
    where
      after : Bool → State F × Result (F × ℕ)
      after b =
          if b
          then (record { most_recent_price = latest.0; rejected_run_length = 0 }, ok latest)
          else (record s { rejected_run_length = suc s.rejected_run_length }, err price_jump)

      prices : State F × Result (F × ℕ) → List F
      prices r = elim (sent r.1) as (λ x. List F) [
        | none ↦ price_updater r.0 inputs
        | some price ↦ price ∷ price_updater r.0 inputs
      ]

      from : Result (F × ℕ) → State F × Result (F × ℕ)
      from x = elim x [
        | err e ↦ (s, err e)
        | ok l ↦
            if accepts s l.0
            then (record { most_recent_price = l.0; rejected_run_length = 0 }, ok l)
            else (record s { rejected_run_length = suc s.rejected_run_length }, err price_jump)
      ]

      whole : prices (after (accepts s latest.0)) ≡ []
      whole = ap (λ x. prices (from x)) (sym p) ∙ e

      go :
          (b : Bool)
          → accepts s latest.0 ≡ b
          → (suc s.rejected_run_length ≤ 11
              → price_updater (record s { rejected_run_length = suc s.rejected_run_length }) inputs
                ≢ [])
          → ⊥
      go true a ih = absurd (let w = ap (λ b. prices (after b)) (sym a) ∙ whole in cc)
      go false a ih =
          let l = accepts-false s latest.0 a in
          ih (omega arith) (ap (λ b. prices (after b)) (sym a) ∙ whole)
