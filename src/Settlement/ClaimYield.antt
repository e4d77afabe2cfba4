-- ===== src/Settlement/ClaimYield.antt =====
-- `ClaimYield` of settlement/ethereum_handler.go: the transaction that claims the yield, with a gas
-- price that grows. Each attempt has an answer of the chain; with the answers used up the loop is
-- still running. The cancellation of the context does not end it, since it does not read it.
use native.Mathlib.Numerals.{unary_clauses}
use native.Mathlib.Nat.{mul_assoc}
use rabbit_dex_backend.Common.{
  ℕ, zero, suc, ◌*◌, ◌^◌, ◌≡◌, sym, ap, ◌∙◌, Bool, true, false, Option, none, some, List, [], ◌∷◌,
  ltb, if◌then◌else◌, arith,
}

-- The answer to an attempt: a transaction, `GAS_TOO_LOW`, or another error.
pub data Answer : Type 0 where
  transaction gas_too_low other_error : Answer

pub data Outcome : Type 0 where
  not_connected no_signer error_claiming claimed : Outcome
  -- with the gas price of the next attempt
  running : ℕ → Outcome

-- The loop behind an attempt, with its `count`.
unfoldable pub claim_loop : ℕ → ℕ → List Answer → Outcome
claim_loop count gas_price [] = running gas_price
claim_loop count gas_price (transaction ∷ answers) = claimed
claim_loop count gas_price (gas_too_low ∷ answers) =
    let again = claim_loop count (gas_price * 2) answers in
    if ltb count 5 then again else error_claiming
claim_loop count gas_price (other_error ∷ answers) = error_claiming

-- `ClaimYield`; `gas_price` is the suggested price of `getSigner`, or `none` where it fails.
unfoldable pub claim_yield : Bool → Option ℕ → List Answer → Outcome
claim_yield false gas_price answers = not_connected
claim_yield true none answers = no_signer
claim_yield true (some gas_price) answers = claim_loop 0 gas_price answers

abbrev pub refusals : ℕ → List Answer
refusals zero = []
refusals (suc n) = gas_too_low ∷ refusals n

pow_suc : (n : ℕ) → 2 ^ suc n ≡ 2 * 2 ^ n
pow_suc n = simp unary_clauses (omega arith)

double_pow : (p n : ℕ) → p * 2 * 2 ^ n ≡ p * 2 ^ suc n
double_pow p n = mul_assoc p 2 (2 ^ n) ∙ ap (λ x. p * x) (sym (pow_suc n))

claim_loop-refusals :
    (n gas_price : ℕ) → claim_loop 0 gas_price (refusals n) ≡ running (gas_price * 2 ^ n)
unfolding claim_loop
claim_loop-refusals zero gas_price = ap running (omega arith)
claim_loop-refusals (suc n) gas_price =
    claim_loop-refusals n (gas_price * 2) ∙ ap running (double_pow gas_price n)

-- `ClaimYield` does not end as long as the chain answers that the gas is too low: after any number
-- of such answers, also after more than the five of its test, it is still running, and the gas
-- price has doubled each time.
pub claim_yield-refusals :
    (n gas_price : ℕ) → claim_yield true (some gas_price) (refusals n) ≡ running (gas_price * 2 ^ n)
unfolding claim_yield
claim_yield-refusals n gas_price = claim_loop-refusals n gas_price
