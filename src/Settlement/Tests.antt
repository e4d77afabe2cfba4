-- ===== src/Settlement/Tests.antt =====
-- Small runs of the settlement, and the theorems at them.
use rabbit_dex_backend.Common.{
  ℕ, ◌+◌, ◌*◌, ◌^◌, ◌-◌, ◌≤◌, ◌≡◌, refl, ◌≢◌, inl, Bool, true, false, ◌==◌, if◌then◌else◌, Option,
  none, some, List, [], ◌∷◌, arith, filter_by, ◌++◌,
}
use rabbit_dex_backend.Decimal.Hundredths.{ℤ, pos}
use rabbit_dex_backend.Settlement.Blocks.{
  Handler, Round, confirmed, after_attempt, process_ranges, process_blocks, attempt_deposits,
  attempt_withdrawals, process_deposits_and_staking, complete_withdrawals_and_unstakes,
}
use rabbit_dex_backend.Settlement.Ranges.{
  IsChain, blocks_of, blocks_from, process_deposits_and_staking-IsChain,
}
use rabbit_dex_backend.Settlement.Loops.{
  HasEnded, process_deposits_and_staking-HasEnded, complete_withdrawals_and_unstakes-IsChain,
}
use rabbit_dex_backend.Settlement.Events.{
  Contracts, EventIds, Log, Contract, Api, Profile, profile, nil_profile, profile_not_found,
  lookup_failed, Call, is_deposit, unpack_log, contract_at, first_value, address_of,
  process_deposit_events, process_withdrawal_receipt_events,
}
use rabbit_dex_backend.Settlement.Accounts.{
  credited, sum_of, lost_by, claimed_by, process_deposit_events-accounted,
}
use rabbit_dex_backend.Settlement.Receipts.{
  is_receipt, receipts_of, process_withdrawal_receipt_events-receipts_of,
}
use rabbit_dex_backend.Settlement.Withdrawals.{
  idle, has_read, checked, System, Answers, Event, reads, tests, pays, completes, run,
}
use rabbit_dex_backend.Settlement.Dropped.{
  BalanceOps, Answer, transaction, not_found, other_error, process_dropped_deposits_and_stakes,
  ops_ids, is_dropped, process_dropped_deposits_and_stakes-is_dropped,
}
use rabbit_dex_backend.Settlement.ClaimYield.{running, claim_yield, refusals, claim_yield-refusals}
use rabbit_dex_backend.Settlement.Suspension.{IsHeld, updates, count, is_checked, run-IsHeld}

abbrev handler : Handler
handler = record { default_from_block = 10; block_confirmations = 5; withdrawal_block_delay = 100 }

abbrev round_at : ℕ → Round
round_at head = record {
  deposits_ok = true;
  stakes_ok = true;
  yields_ok = true;
  receipts_ok = true;
  suspended_before = false;
  suspended_after = false;
  overwritten = none;
  set_ok = true;
  get_ok = true;
  head = some head;
}

-- The chain grows by one block, beside a backlog of more than two ranges.
abbrev rounds : List Round
rounds = round_at 4_300 ∷ round_at 4_300 ∷ round_at 4_301 ∷ round_at 4_301 ∷ []

process_deposits_and_staking-IsChain_example :
    let p = process_deposits_and_staking handler rounds (some 4_300) 20 in
    IsChain handler 20 p.log p.last
    × (20 ≤ p.last)
    × (blocks_of p.log ≡ blocks_from 21 (p.last - 20))
process_deposits_and_staking-IsChain_example =
    process_deposits_and_staking-IsChain handler rounds (some 4_300) 20

reads_all : (process_deposits_and_staking handler rounds (some 4_300) 20).last ≡ 4_296
unfolding process_deposits_and_staking process_blocks process_ranges after_attempt attempt_deposits
    confirmed
reads_all = refl

-- As many rounds as blocks.
abbrev small_rounds : List Round
small_rounds =
    round_at 26
    ∷ round_at 27
    ∷ round_at 27
    ∷ round_at 28
    ∷ round_at 28
    ∷ round_at 28
    ∷ round_at 28
    ∷ round_at 28
    ∷ []

process_deposits_and_staking-HasEnded_example :
    HasEnded (process_deposits_and_staking handler small_rounds (some 26) 20).outcome
process_deposits_and_staking-HasEnded_example =
    process_deposits_and_staking-HasEnded handler small_rounds (some 26) 20 28 (omega arith)
      (
        omega arith,
        (
          omega arith,
          (
            omega arith,
            (omega arith, (omega arith, (omega arith, (omega arith, (omega arith, tt))))),
          ),
        ),
      )
      (omega arith)

complete_withdrawals_and_unstakes-IsChain_example :
    let p = complete_withdrawals_and_unstakes handler rounds (some 4_300) 20 in
    IsChain handler 20 p.log p.last
    × (20 ≤ p.last)
    × (blocks_of p.log ≡ blocks_from 21 (p.last - 20))
complete_withdrawals_and_unstakes-IsChain_example =
    complete_withdrawals_and_unstakes-IsChain handler rounds (some 4_300) 20
      (refl, (refl, (refl, (refl, tt))))

-- A deposit goroutine that has come further leaves its block in `latestBlock`: the withdrawal blocks
-- 2,021 to 4,000 are never read.
abbrev overtaken : List Round
overtaken = record (round_at 4_300) { overwritten = some 4_000 } ∷ round_at 4_300 ∷ []

skips_blocks :
    (complete_withdrawals_and_unstakes handler overtaken (some 4_300) 20).log
    ≡ record { from_block = 21; to_block = 2_020; head = 4_300 }
      ∷ record { from_block = 4_001; to_block = 4_295; head = 4_300 }
      ∷ []
unfolding complete_withdrawals_and_unstakes process_blocks process_ranges after_attempt
    attempt_withdrawals confirmed
skips_blocks = refl

abbrev contracts : Contracts
contracts = record { exchange_address = 1; deposit_address = 2; vaults = 3 ∷ [] }

abbrev event_ids : EventIds
event_ids = record {
  rabbit_deposit_id = 10;
  proxy_deposit_id = 11;
  vault_stake_id = 12;
  claimed_yield_id = 13;
  withdrawal_receipt_id = 14;
}

-- A log whose third topic is its amount.
abbrev log_of : ℕ → ℕ → ℕ → ℕ → ℕ → Log
log_of event id wallet address n = record {
  event_id = event;
  topic1 = id;
  topic2 = wallet;
  topic3 = n;
  address = address;
  block_number = 100;
  tx_hash = id + 1_000;
  index = 0;
  removed = false;
}

abbrev amount_of : Contract → Log → Option (List ℤ)
amount_of contract l = some (pos l.topic3 ∷ [])

-- Wallet 50 has a profile, wallet 40 has none, and the lookups
-- of the others fail.
abbrev profile_of : ℕ → Profile
profile_of wallet =
    if wallet == 50
    then profile 500 "trader"
    else if wallet == 40
    then profile_not_found
    else lookup_failed

abbrev api : Api
api = record { unpack = amount_of; get_profile = profile_of; invalidate_cache_ok = λ id. true }

-- A deposit of a profile, one by the pool, one without a profile, one whose lookup fails, the
-- pool's own, and a removed one.
abbrev deposits : List Log
deposits =
    log_of 10 1 50 1 100
    ∷ log_of 11 2 50 2 30
    ∷ log_of 10 3 40 1 7
    ∷ log_of 10 4 60 1 5
    ∷ log_of 10 5 2 1 37
    ∷ record (log_of 10 6 50 1 9) { removed = true }
    ∷ []

answers : (wallet : ℕ) → profile_of wallet ≢ nil_profile
answers wallet = go (wallet == 50) (wallet == 40)
  where
    go :
        (a b : Bool)
        → (if a then profile 500 "trader" else if b then profile_not_found else lookup_failed)
          ≢ nil_profile
    go true b e = let x = e in cc
    go false true e = let x = e in cc
    go false false e = let x = e in cc

process_deposit_events-accounted_example :
    (calls : List Call) × (process_deposit_events contracts event_ids api (some deposits)
      ≡ some (true, calls))
    × (credited calls
          + sum_of
              (unpack_log contracts api (is_deposit event_ids))
              (lost_by contracts api)
              deposits
        ≡ sum_of (unpack_log contracts api (is_deposit event_ids)) (claimed_by contracts) deposits)
process_deposit_events-accounted_example =
    process_deposit_events-accounted contracts event_ids api deposits answers

-- 5 of the 142 tokens.
deposits_lost :
    sum_of (unpack_log contracts api (is_deposit event_ids)) (lost_by contracts api) deposits ≡ 5
unfolding unpack_log contract_at first_value address_of
deposits_lost = refl

process_withdrawal_receipt_events-receipts_of_example :
    process_withdrawal_receipt_events contracts event_ids api
      (λ wids. true)
      (some (log_of 14 8 50 1 1 ∷ log_of 10 9 50 1 1 ∷ log_of 14 10 50 1 1 ∷ []))
    ≡ (let wids = receipts_of (
          filter_by
            (is_receipt contracts event_ids api)
            (log_of 14 8 50 1 1 ∷ log_of 10 9 50 1 1 ∷ log_of 14 10 50 1 1 ∷ [])) in
        (true, some wids))
process_withdrawal_receipt_events-receipts_of_example =
    process_withdrawal_receipt_events-receipts_of contracts event_ids api (λ wids. true)
      (log_of 14 8 50 1 1 ∷ log_of 10 9 50 1 1 ∷ log_of 14 10 50 1 1 ∷ [])

-- Three goroutines, of which one had passed its check before the suspension was stored.
abbrev system : System
system = record {
  withdrawal_suspended = true;
  db_suspended = true;
  phases = checked ∷ idle ∷ has_read ∷ [];
  crashed = false;
}

abbrev pays_well : Answers
pays_well = record {
  pending = some 3;
  rolling_24h = some (1_000 * 10 ^ 18);
  suspend_ok = true;
  connected = true;
  current_block = some 4_300;
}

abbrev events : List Event
events =
    reads 1 true
    ∷ tests 2
    ∷ tests 1
    ∷ pays 2 pays_well
    ∷ pays 0 pays_well
    ∷ pays 1 pays_well
    ∷ completes 0
    ∷ reads 0 false
    ∷ tests 0
    ∷ pays 0 pays_well
    ∷ []

run-IsHeld_example :
    IsHeld (run (λ i. handler) events system).0
    × (updates (run (λ i. handler) events system).1 ≤ count is_checked system.phases)
run-IsHeld_example = run-IsHeld (λ i. handler) events system (refl, inl refl)

-- At 100 seconds, with an interval of 10: an old deposit that is missing, a new one, and an old stake
-- that the chain has.
abbrev ops : List BalanceOps
ops =
    record { ops_id = 1; timestamp = 20 * 10 ^ 6; txhash = 7 }
    ∷ record { ops_id = 2; timestamp = 95 * 10 ^ 6; txhash = 7 }
    ∷ []

abbrev stakes : List BalanceOps
stakes = record { ops_id = 3; timestamp = 20 * 10 ^ 6; txhash = 8 } ∷ []

abbrev tx : ℕ → Answer
tx hash = if hash == 7 then not_found else transaction

known : (hash : ℕ) → tx hash ≢ other_error
known hash = go (hash == 7)
  where
    go : (b : Bool) → (if b then not_found else transaction) ≢ other_error
    go true e = let x = e in cc
    go false e = let x = e in cc

process_dropped_deposits_and_stakes-is_dropped_example :
    process_dropped_deposits_and_stakes
      (100 * 10 ^ 9)
      (10 * 10 ^ 9)
      tx
      (some ops)
      (some stakes)
      true
    ≡ ops_ids (filter_by (is_dropped (100 * 10 ^ 9) (10 * 10 ^ 9) tx) (ops ++ stakes))
process_dropped_deposits_and_stakes-is_dropped_example =
    process_dropped_deposits_and_stakes-is_dropped (100 * 10 ^ 9) (10 * 10 ^ 9) tx ops stakes
      (known 7, (known 7, (known 8, tt)))

claim_yield-refusals_example : claim_yield true (some 3) (refusals 7) ≡ running (3 * 2 ^ 7)
claim_yield-refusals_example = claim_yield-refusals 7 3
