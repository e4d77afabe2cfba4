-- ===== src/Settlement/Blocks.antt =====
-- The block numbers of settlement/ethereum_handler.go: which blocks a round reads, and the loops of
-- `processDepositsAndStaking`, `DistributeYield` and `completeWithdrawalsAndUnstakes` over them. The
-- answers of the chain and of Tarantool are arguments, one `Round` for each round of a loop;
-- `none` is an error. A block number is not negative; where the code subtracts below zero there is
-- `none` too.
use rabbit_dex_backend.Common.{
  ℕ, suc, ◌+◌, ◌-◌, Bool, not, ◌||◌, Option, none, some, List, [], ◌∷◌, ltb, leb, if◌then◌else◌,
}

-- `MAX_BLOCKS`
abbrev pub max_blocks : ℕ
max_blocks = 1_999

-- The fields of `EthereumHandler` that the loops read.
pub record Handler : Type 0 where
  pub default_from_block : ℕ
  pub block_confirmations : ℕ
  pub withdrawal_block_delay : ℕ

-- `fromBlock` and `toBlock`; a negative `toBlock` is `none`.
pub record Range : Type 0 where
  pub from_block : ℕ
  pub to_block : Option ℕ

-- The last confirmed block, at most `MAX_BLOCKS` behind the first.
unfoldable pub confirmed : ℕ → ℕ → ℕ → Option ℕ
confirmed confirmations from head =
    if ltb head confirmations
    then none
    else if ltb (from + max_blocks) (head - confirmations)
    then some (from + max_blocks)
    else some (head - confirmations)

-- The blocks behind `lastBlock`.
abbrev pub range_behind : Handler → ℕ → ℕ → Range
range_behind eh last head = record {
  from_block = suc last;
  to_block = confirmed eh.block_confirmations (suc last) head;
}

-- `getL1BlockNumbers`, from the last processed block and the current one.
unfoldable pub get_l1_block_numbers : Handler → Option ℕ → Option ℕ → Option Range
get_l1_block_numbers eh last_block none = none
get_l1_block_numbers eh none (some head) = some (record {
  from_block = eh.default_from_block;
  to_block = confirmed eh.block_confirmations eh.default_from_block head;
})
get_l1_block_numbers eh (some last) (some head) = some (range_behind eh last head)

-- `resetLastProcessedBlockNumber`: the stored block, if it could be stored.
unfoldable pub reset_last_processed_block_number : Handler → Bool → Option ℕ
reset_last_processed_block_number eh set_ok = if set_ok then some eh.default_from_block else none

-- `checkLastProcessedBlockNumbers`: the stored block afterwards, unless it fails.
unfoldable pub check_last_processed_block_numbers : Handler → Option ℕ → Option ℕ → Bool → Option ℕ
check_last_processed_block_numbers eh none last_block set_ok = none
check_last_processed_block_numbers eh (some current) none set_ok =
    reset_last_processed_block_number eh set_ok
check_last_processed_block_numbers eh (some current) (some last) set_ok =
    if ltb current last || ltb last eh.default_from_block
    then reset_last_processed_block_number eh set_ok
    else some last

-- What the world answers in one round. `overwritten` is the block that another goroutine leaves in
-- `latestBlock` between this goroutine's events and its use of the field.
pub record Round : Type 0 where
  pub deposits_ok : Bool
  pub stakes_ok : Bool
  pub yields_ok : Bool
  pub receipts_ok : Bool
  pub suspended_before : Bool
  pub suspended_after : Bool
  pub overwritten : Option ℕ
  pub set_ok : Bool
  pub get_ok : Bool
  pub head : Option ℕ

pub data Failure : Type 0 where
  deposits_failed stakes_failed yields_failed receipts_failed suspended : Failure
  set_failed get_failed head_failed : Failure

-- How a round's work on a range goes: it stops, or it stores a block.
pub data Attempt : Type 0 where
  stop : Failure → Attempt
  stored : ℕ → Attempt

unfoldable pub attempt_deposits : Round → ℕ → Attempt
attempt_deposits r to =
    if not r.deposits_ok
    then stop deposits_failed
    else if not r.stakes_ok
    then stop stakes_failed
    else if not r.set_ok
    then stop set_failed
    else stored to

unfoldable pub attempt_yields : Round → ℕ → Attempt
attempt_yields r to =
    if not r.yields_ok
    then stop yields_failed
    else if not r.set_ok
    then stop set_failed
    else stored to

-- `completeWithdrawalsAndUnstakes` stores `latestBlock`, which `processEvents` sets to `toBlock`.
unfoldable pub attempt_withdrawals : Round → ℕ → Attempt
attempt_withdrawals r to =
    if r.suspended_before
    then stop suspended
    else if not r.receipts_ok
    then stop receipts_failed
    else if r.suspended_after
    then stop suspended
    else if not r.set_ok
    then stop set_failed
    else elim r.overwritten [ none ↦ stored to | some other ↦ stored other ]

pub data Outcome : Type 0 where
  done running : Outcome
  failed : Failure → Outcome

-- A range that a round worked off, and the head of the chain that it was cut at.
pub record Handled : Type 0 where
  pub from_block : ℕ
  pub to_block : ℕ
  pub head : ℕ

-- The end of a loop: how, the stored block, and the ranges that were stored.
pub record Progress : Type 0 where
  pub outcome : Outcome
  pub last : ℕ
  pub log : List Handled

abbrev pub ended : Outcome → ℕ → Progress
ended outcome last = record { outcome = outcome; last = last; log = [] }

abbrev pub behind : Handled → Progress → Progress
behind h p = record p { log = h ∷ p.log }

-- What follows the work on a range: the stored block and the head are read again, and the loop goes
-- on from them with `rest`.
unfoldable pub after_attempt : (ℕ → ℕ → Progress) → Round → Handled → ℕ → Attempt → Progress
after_attempt rest r h last (stop f) = ended (failed f) last
after_attempt rest r h last (stored b) = behind h (elim r.head [
  | none ↦ ended (failed (if r.get_ok then head_failed else get_failed)) b
  | some head ↦ if r.get_ok then rest head b else ended (failed get_failed) b
])

-- The loops, with the work of a round as an argument, from a head and a stored block. With the
-- rounds used up a loop is still running.
unfoldable pub process_ranges : Handler → (Round → ℕ → Attempt) → List Round → ℕ → ℕ → Progress
process_ranges eh attempt [] head last = elim (range_behind eh last head).to_block [
  | none ↦ ended done last
  | some to ↦ if leb (suc last) to then ended running last else ended done last
]
process_ranges eh attempt (r ∷ rounds) head last =
    let rest = process_ranges eh attempt rounds in
    elim (range_behind eh last head).to_block [
      | none ↦ ended done last
      | some to ↦
          let h : Handled = record { from_block = suc last; to_block = to; head = head } in
          if leb (suc last) to then after_attempt rest r h last (attempt r to) else ended done last
    ]

-- A whole loop, from the current head and the stored block.
unfoldable pub process_blocks :
    Handler → (Round → ℕ → Attempt) → List Round → Option ℕ → ℕ → Progress
process_blocks eh attempt rounds head last = elim head [
  | none ↦ ended (failed head_failed) last
  | some h ↦ process_ranges eh attempt rounds h last
]

-- `processDepositsAndStaking`, `DistributeYield` and `completeWithdrawalsAndUnstakes`, behind
-- `ensureConnected` and the first reading of the stored block.
unfoldable pub process_deposits_and_staking : Handler → List Round → Option ℕ → ℕ → Progress
unfolding attempt_deposits
process_deposits_and_staking eh = process_blocks eh attempt_deposits

unfoldable pub distribute_yield : Handler → List Round → Option ℕ → ℕ → Progress
unfolding attempt_yields
distribute_yield eh = process_blocks eh attempt_yields

unfoldable pub complete_withdrawals_and_unstakes : Handler → List Round → Option ℕ → ℕ → Progress
unfolding attempt_withdrawals
complete_withdrawals_and_unstakes eh = process_blocks eh attempt_withdrawals
