-- ===== src/Referrals/Fees.antt =====
-- `addToFees` and `calculateFees` of referrals/utils.go: the commissions that referrers earn on the
-- fees of matched fills. The Go map of fees is an association list; a nil pointer that the code
-- reads is the error `nil_pointer` (in Go a panic). The map is changed in place, so it comes back
-- beside an error too.
use Prim.Native.String.{String}
use text.Mathlib.Text.{◌==◌ as str_eq}
use rabbit_dex_backend.Common.{
  ℕ, ◌%◌, not, ◌&&◌, Option, none, some, List, [], ◌∷◌, ◌==◌, if◌then◌else◌, length,
}
use rabbit_dex_backend.Decimal.{Decimal, lt_dec, min_dec}
use rabbit_dex_backend.Referrals.Levels.{get_level}

pub record FillRow (D : Type 0) : Type 0 where
  pub referrer_id : Option ℕ
  pub trade_id : String
  pub fee : D
  pub model : Option String
  pub model_fee_percent : Option D
  pub profile_volume : D

pub data FeeError : Type 0 where
  net_fee pair trade_id nil_pointer : FeeError

pub data Result (A : Type 0) : Type 0 where
  ok : A → Result A
  err : FeeError → Result A

abbrev pub Fees : Type 0 → Type 0
Fees D = List (ℕ × D)

module _ {D : Type 0} ⦃dec : Decimal D⦄ where
  open dec use {nil, add, mul, minus_one}

  -- `fees[id] = fees[id].Add(x)`, from zero where the key is new.
  unfoldable pub credit : ℕ → D → Fees D → Fees D
  credit id x [] = (id, add nil x) ∷ []
  credit id x ((j, y) ∷ fees) = if j == id then (j, add y x) ∷ fees else (j, y) ∷ credit id x fees

  -- The percentage by the referrer's model.
  unfoldable pub commission_percent : FillRow D → Result D
  commission_percent side = elim side.model [
    | none ↦ err nil_pointer
    | some model ↦
        if str_eq model "percentage"
        then ok (get_level side.profile_volume).current.commission_percent
        else if str_eq model "kol"
        then elim side.model_fee_percent [ none ↦ err nil_pointer | some percent ↦ ok percent ]
        else ok nil
  ]

  -- The fee that a commission is taken from.
  unfoldable pub billed : FillRow D → Option D → D
  billed side none = mul side.fee minus_one
  billed side (some net) = net

  unfoldable pub pay_referrer : Fees D → ℕ → FillRow D → D → Result (Unit {0}) × Fees D
  pay_referrer fees id side fee = elim (commission_percent side) [
    | err e ↦ (err e, fees)
    | ok percent ↦ (ok tt, credit id (min_dec (mul fee percent) fee) fees)
  ]

  -- `addToFees`
  unfoldable pub add_to_fees : Fees D → FillRow D → Option D → Result (Unit {0}) × Fees D
  add_to_fees fees side net = elim side.referrer_id [
    | none ↦ (ok tt, fees)
    | some id ↦
        if lt_dec nil side.fee
        then (ok tt, fees)
        else if not (lt_dec nil (billed side net))
        then (ok tt, fees)
        else pay_referrer fees id side (billed side net)
  ]

  -- What both sides of a trade paid together.
  unfoldable pub net_fee_of : FillRow D → FillRow D → D
  net_fee_of a b = mul (add a.fee b.fee) minus_one

  -- Both paid a fee.
  unfoldable pub pay_both : Fees D → FillRow D → FillRow D → Result (Unit {0}) × Fees D
  pay_both fees a b =
      let (first, fees') = add_to_fees fees a none in
      elim first [ err e ↦ (err e, fees') | ok _ ↦ add_to_fees fees' b none ]

  -- One trade of the loop of `calculateFees`, its guards passed.
  unfoldable pub pay_trade : Fees D → FillRow D → FillRow D → Result (Unit {0}) × Fees D
  pay_trade fees a b =
      let net = net_fee_of a b in
      if not (lt_dec nil net)
      then (ok tt, fees)
      else if lt_dec a.fee nil && lt_dec b.fee nil
      then pay_both fees a b
      else if lt_dec a.fee nil
      then add_to_fees fees a (some net)
      else add_to_fees fees b (some net)

  -- The loop of `calculateFees` over pairs of fills.
  unfoldable pub pay_trades : Fees D → List (FillRow D) → Result (Unit {0}) × Fees D
  pay_trades fees [] = (ok tt, fees)
  pay_trades fees (a ∷ []) = (ok tt, fees)
  pay_trades fees (a ∷ b ∷ fills) =
      let (paid, fees') = pay_trade fees a b in
      let rest : Result (Unit {0}) × Fees D = elim paid [
        | err e ↦ (err e, fees')
        | ok _ ↦ pay_trades fees' fills
      ] in
      if not (str_eq a.trade_id b.trade_id)
      then (err trade_id, fees)
      else if lt_dec (net_fee_of a b) nil
      then (err net_fee, fees)
      else rest

  -- `calculateFees`
  unfoldable pub calculate_fees : Fees D → List (FillRow D) → Result (Unit {0}) × Fees D
  calculate_fees fees fills =
      if length fills % 2 == 1 then (err pair, fees) else pay_trades fees fills
