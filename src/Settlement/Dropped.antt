-- ===== src/Settlement/Dropped.antt =====
-- `ProcessDroppedDepositsAndStakes` of settlement/ethereum_handler.go: the pending deposits and
-- stakes whose transaction the chain does not have. Times are in nanoseconds, the timestamp of an
-- operation in microseconds; the answers of Tarantool and of the chain are arguments.
use rabbit_dex_backend.Common.{
  ℕ, ◌+◌, ◌-◌, ◌*◌, ◌/◌, ◌^◌, ◌≡◌, ◌≢◌, refl, ap, ◌∙◌, arith, Bool, true, false, ◌&&◌, Option, none,
  some, List, [], ◌∷◌, ◌++◌, map, ltb, if◌then◌else◌, filter_by, All,
}

pub record BalanceOps : Type 0 where
  pub ops_id : ℕ
  pub timestamp : ℕ
  pub txhash : ℕ

-- The answer of `TransactionByHash`: a transaction, none and no error, a "not found", or another error.
pub data Answer : Type 0 where
  transaction nil_transaction not_found other_error : Answer

-- `isOlderThan` at the time `now`
unfoldable pub is_older_than : ℕ → ℕ → ℕ → Bool
is_older_than now timestamp duration = ltb (timestamp / 10 ^ 6 * 10 ^ 9 + duration) now

-- The loop: the operations that it cancels.
unfoldable pub cancel_dropped : ℕ → ℕ → (ℕ → Answer) → List BalanceOps → List ℕ
cancel_dropped now cancel_interval tx [] = []
cancel_dropped now cancel_interval tx (op ∷ pending_ops) =
    let rest = cancel_dropped now cancel_interval tx pending_ops in
    if is_older_than now op.timestamp cancel_interval
    then elim (tx op.txhash) [
      | transaction ↦ rest
      | nil_transaction ↦ op.ops_id ∷ rest
      | not_found ↦ op.ops_id ∷ rest
      | other_error ↦ []
    ]
    else rest

unfoldable pub process_dropped_deposits_and_stakes :
    ℕ → ℕ → (ℕ → Answer) → Option (List BalanceOps) → Option (List BalanceOps) → Bool → List ℕ
process_dropped_deposits_and_stakes now cancel_interval tx none stakes connected = []
process_dropped_deposits_and_stakes now cancel_interval tx (some ops) none connected = []
process_dropped_deposits_and_stakes now cancel_interval tx (some ops) (some stakes) connected =
    if connected then cancel_dropped now cancel_interval tx (ops ++ stakes) else []

abbrev pub is_missing : Answer → Bool
is_missing transaction = false
is_missing nil_transaction = true
is_missing not_found = true
is_missing other_error = false

-- The age of an operation: the time since the whole second in which it was made. Both are in
-- nanoseconds, and a time to come has the age 0.
abbrev age : ℕ → BalanceOps → ℕ
age now op = now - op.timestamp / 1_000_000 * 1_000_000_000

-- Older than the interval, with a transaction that the chain does not have.
abbrev pub is_dropped : ℕ → ℕ → (ℕ → Answer) → BalanceOps → Bool
is_dropped now cancel_interval tx op = ltb cancel_interval (age now op) && is_missing (tx op.txhash)

is_older_than-age :
    (now cancel_interval : ℕ) (op : BalanceOps)
    → is_older_than now op.timestamp cancel_interval ≡ ltb cancel_interval (age now op)
unfolding is_older_than
is_older_than-age now cancel_interval op = ground arith

abbrev pub ops_ids : List BalanceOps → List ℕ
ops_ids ops = map (λ op. op.ops_id) ops

-- Where a transaction can be looked up, the operations that are cancelled.
cancel_dropped-is_dropped :
    (now cancel_interval : ℕ) (tx : ℕ → Answer) (ops : List BalanceOps)
    → All (λ op. tx op.txhash ≢ other_error) ops
    → cancel_dropped now cancel_interval tx ops
      ≡ ops_ids (filter_by (is_dropped now cancel_interval tx) ops)
unfolding cancel_dropped
cancel_dropped-is_dropped now cancel_interval tx [] known = refl
cancel_dropped-is_dropped now cancel_interval tx (op ∷ ops) known =
    ap (decided (tx op.txhash)) (is_older_than-age now cancel_interval op)
    ∙ go (ltb cancel_interval (age now op)) (tx op.txhash) known.0
        (cancel_dropped-is_dropped now cancel_interval tx ops known.1)
  where
    rest : List ℕ
    rest = cancel_dropped now cancel_interval tx ops

    decided : Answer → Bool → List ℕ
    decided a b =
        if b
        then elim a [
          | transaction ↦ rest
          | nil_transaction ↦ op.ops_id ∷ rest
          | not_found ↦ op.ops_id ∷ rest
          | other_error ↦ []
        ]
        else rest

    later : List BalanceOps
    later = filter_by (is_dropped now cancel_interval tx) ops

    go :
        (b : Bool) (a : Answer)
        → a ≢ other_error
        → rest ≡ ops_ids later
        → (if b
            then elim a as (λ x. List ℕ) [
              | transaction ↦ rest
              | nil_transaction ↦ op.ops_id ∷ rest
              | not_found ↦ op.ops_id ∷ rest
              | other_error ↦ []
            ]
            else rest)
          ≡ ops_ids (if b && is_missing a then op ∷ later else later)
    go false a n ih = ih
    go true transaction n ih = ih
    go true nil_transaction n ih = ap (λ l. op.ops_id ∷ l) ih
    go true not_found n ih = ap (λ l. op.ops_id ∷ l) ih
    go true other_error n ih = absurd (n refl)

-- With a connection, where each transaction can be looked up, exactly the pending deposits and
-- stakes are cancelled that are older than the interval, by more than which the clock is past the
-- whole second of their timestamp, and whose transaction the chain does not have: the deposits
-- first, each once and in order.
pub process_dropped_deposits_and_stakes-is_dropped :
    (now cancel_interval : ℕ) (tx : ℕ → Answer) (ops stakes : List BalanceOps)
    → All (λ op. tx op.txhash ≢ other_error) (ops ++ stakes)
    → process_dropped_deposits_and_stakes now cancel_interval tx (some ops) (some stakes) true
      ≡ ops_ids (filter_by (is_dropped now cancel_interval tx) (ops ++ stakes))
unfolding process_dropped_deposits_and_stakes
process_dropped_deposits_and_stakes-is_dropped now cancel_interval tx ops stakes known =
    cancel_dropped-is_dropped now cancel_interval tx (ops ++ stakes) known
