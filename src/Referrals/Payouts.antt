-- ===== src/Referrals/Payouts.antt =====
-- What `calculateFees` pays out in all, against what the exchange took in (Fees).
use text.Mathlib.TextEquality.{eq_iff}
use rabbit_dex_backend.Common.{
  ℕ, ◌%◌, ◌≡◌, ◌≢◌, refl, Option, none, some, List, [], ◌∷◌, arith, ◌==◌, length, Bool-cases, inl,
  inr,
}
use rabbit_dex_backend.Decimal.{Decimal, Le, Same, min_dec, not-lt_dec→Le}
use rabbit_dex_backend.Referrals.Fees.{
  FillRow, Result, ok, err, FeeError, pair, Fees, credit, commission_percent, billed, pay_both,
  pay_referrer, add_to_fees, net_fee_of, pay_trade, pay_trades, calculate_fees,
}

not_err : (e : FeeError) → ¬ (◌≡◌ {A = Result (Unit {0})} (err e) (ok tt))
not_err e h = cc

module _ {D : Type 0} ⦃dec : Decimal D⦄ where
  open dec use {nil, add, mul, minus_one, nil_parts}

  -- The sum of the map's values.
  unfoldable pub total : Fees D → D
  total [] = nil
  total ((id, y) ∷ fees) = add y (total fees)

  -- The net fees of the trades, added up.
  unfoldable pub collected : List (FillRow D) → D
  collected [] = nil
  collected (a ∷ []) = nil
  collected (a ∷ b ∷ fills) = add (net_fee_of a b) (collected fills)

  total-credit :
      (id : ℕ) (x : D) (fees : Fees D) → Same (total (credit id x fees)) (add (total fees) x)
  unfolding total credit
  total-credit id x [] = grind arith
  total-credit id x ((j, y) ∷ fees) = elim (Bool-cases (j == id)) [
    | inl e ↦ rw e (grind arith)
    | inr e ↦ rw e (grind (arith, total-credit id x fees))
  ]

  min_dec-Le : (a b : D) → Le (min_dec a b) b
  min_dec-Le a b = grind arith

  pay_referrer-Le :
      (fees : Fees D) (id : ℕ) (side : FillRow D) (fee : D)
      → Le nil fee
      → Le (total (pay_referrer fees id side fee).1) (add (total fees) fee)
  unfolding pay_referrer
  pay_referrer-Le fees id side fee h = go (commission_percent side)
    where
      go :
          (r : Result D)
          → Le
              (total (
                let out : Result (Unit {0}) × Fees D = elim r [
                  | err e ↦ (err e, fees)
                  | ok percent ↦ (ok tt, credit id (min_dec (mul fee percent) fee) fees)
                ] in
                out.1))
              (add (total fees) fee)
      go (err e) = grind arith
      go (ok percent) =
          let paid = min_dec (mul fee percent) fee in
          let capped = min_dec-Le (mul fee percent) fee in
          let sum = total-credit id paid fees in
          omega
            (arith, capped, sum, dec.add_parts (total fees) paid, dec.add_parts (total fees) fee)

  -- A referrer never gets more than the fee that the commission is taken from.
  add_to_fees-Le :
      (fees : Fees D) (side : FillRow D) (net : Option D)
      → Le nil (billed side net)
      → Le (total (add_to_fees fees side net).1) (add (total fees) (billed side net))
  unfolding add_to_fees
  add_to_fees-Le fees side net h = grind (arith, pay_referrer-Le)

  -- The fees of a side are its part of what both sides paid.
  net_fee-Same : (a b : FillRow D) → Same (net_fee_of a b) (add (billed a none) (billed b none))
  unfolding net_fee_of billed
  net_fee-Same a b = grind arith

  billed_nonneg : (side : FillRow D) → Le side.fee nil → Le nil (billed side none)
  unfolding billed
  billed_nonneg side h = grind arith

  pay_both-Le :
      (fees : Fees D) (a b : FillRow D)
      → Le a.fee nil
      → Le b.fee nil
      → Le (total (pay_both fees a b).1) (add (total fees) (net_fee_of a b))
  unfolding pay_both
  pay_both-Le fees a b ha hb = go (add_to_fees fees a none) paid_a
    where
      net : Same (net_fee_of a b) (add (billed a none) (billed b none))
      net = net_fee-Same a b

      paid_a : Le (total (add_to_fees fees a none).1) (add (total fees) (billed a none))
      paid_a = add_to_fees-Le fees a none (billed_nonneg a ha)

      go :
          (first : Result (Unit {0}) × Fees D)
          → Le (total first.1) (add (total fees) (billed a none))
          → Le
              (total (
                let out : Result (Unit {0}) × Fees D = elim first.0 [
                  | err e ↦ (err e, first.1)
                  | ok _ ↦ add_to_fees first.1 b none
                ] in
                out.1))
              (add (total fees) (net_fee_of a b))
      go (err e, fees') h = omega (
        arith,
        h,
        net,
        billed_nonneg b hb,
        nil_parts,
        dec.add_parts (total fees) (billed a none),
        dec.add_parts (total fees) (net_fee_of a b),
        dec.add_parts (billed a none) (billed b none),
      )
      go (ok _, fees') h = omega (
        arith,
        h,
        net,
        add_to_fees-Le fees' b none (billed_nonneg b hb),
        dec.add_parts (total fees') (billed b none),
        dec.add_parts (total fees) (billed a none),
        dec.add_parts (total fees) (net_fee_of a b),
        dec.add_parts (billed a none) (billed b none),
      )

  pay_trade-Le :
      (fees : Fees D) (a b : FillRow D)
      → Le nil (net_fee_of a b)
      → Le (total (pay_trade fees a b).1) (add (total fees) (net_fee_of a b))
  unfolding pay_trade billed
  pay_trade-Le fees a b h = ground (
    arith,
    pay_both-Le fees a b,
    add_to_fees-Le fees a (some (net_fee_of a b)),
    add_to_fees-Le fees b (some (net_fee_of a b)),
    nil_parts,
    dec.le_dec_parts (net_fee_of a b) nil,
    dec.le_dec_parts nil a.fee,
    dec.le_dec_parts nil b.fee,
    dec.add_parts (total fees) (net_fee_of a b),
  )

  pay_trades-Le :
      (fees : Fees D) (fills : List (FillRow D))
      → (pay_trades fees fills).0 ≡ ok tt
      → Le (total (pay_trades fees fills).1) (add (total fees) (collected fills))
  unfolding pay_trades collected
  pay_trades-Le fees [] h = grind arith
  pay_trades-Le fees (a ∷ []) h = grind arith
  pay_trades-Le fees (a ∷ b ∷ fills) h =
      let net = net_fee_of a b in
      let fees' = (pay_trade fees a b).1 in
      ground (
        arith,
        not-lt_dec→Le net nil,
        pay_trade-Le fees a b,
        pay_trades-Le fees' fills,
        dec.add_parts (total fees) net,
        dec.add_parts net (collected fills),
        dec.add_parts (total fees) (add net (collected fills)),
        dec.add_parts (total fees') (collected fills),
      )

  -- Every trade of a list that `pay_trades` accepts is a pair of fills of one trade, on which both
  -- sides together paid a fee or nothing.
  abbrev pub AreTrades : List (FillRow D) → Type 0
  AreTrades [] = Unit
  AreTrades (a ∷ []) = ⊥
  AreTrades (a ∷ b ∷ fills) = (a.trade_id ≡ b.trade_id) × Le nil (net_fee_of a b) × AreTrades fills

  trades_of_ok :
      (fees : Fees D) (fills : List (FillRow D))
      → length fills % 2 ≢ 1
      → (pay_trades fees fills).0 ≡ ok tt
      → AreTrades fills
  unfolding pay_trades
  trades_of_ok fees [] even h = tt
  trades_of_ok fees (a ∷ []) even h = absurd (even refl)
  trades_of_ok fees (a ∷ b ∷ fills) even h =
      let net = net_fee_of a b in
      let fees' = (pay_trade fees a b).1 in
      let even' : length fills % 2 ≢ 1 = omega arith in
      ground
        (arith, eq_iff a.trade_id b.trade_id, not-lt_dec→Le net nil, trades_of_ok fees' fills even')

  -- When `calculateFees` succeeds, the fills were pairs of one trade each, no pair had a negative
  -- net fee, and all commissions that it added to the map are together at most the net fees of all
  -- pairs: the exchange never pays out more than it took in.
  pub calculate_fees-Le :
      (fees : Fees D) (fills : List (FillRow D))
      → (calculate_fees fees fills).0 ≡ ok tt
      → AreTrades fills
        × Le (total (calculate_fees fees fills).1) (add (total fees) (collected fills))
  unfolding calculate_fees
  calculate_fees-Le fees fills h = elim (Bool-cases (length fills % 2 == 1)) [
    | inl e ↦ absurd (not_err pair (rw e at h))
    | inr e ↦
        let h' : (pay_trades fees fills).0 ≡ ok tt = rw e at h in
        let even : length fills % 2 ≢ 1 = ground arith in
        rw e (trades_of_ok fees fills even h', pay_trades-Le fees fills h')
  ]
