-- ===== src/Settlement/Events.antt =====
-- The events of settlement/ethereum_handler.go: `processEvents` and the handlers of deposits, stakes,
-- yields and withdrawal receipts. An address, a topic and a hash are numbers, and a wallet is its
-- address; amounts are in the token's own units, as the event has them. The unpacking of an event
-- by its contract's ABI and the answers of Tarantool are arguments. The calls that change the
-- exchange's state come back as a log.
use Prim.Native.String.{String}
use text.Mathlib.Text.{◌==◌ as str_eq}
use rabbit_dex_backend.Common.{
  ℕ, Bool, true, false, not, ◌&&◌, ◌||◌, Option, none, some, List, [], ◌∷◌, ◌++◌, ◌==◌,
  if◌then◌else◌, elem, ◌%◌, ◌^◌,
}
use rabbit_dex_backend.Decimal.Hundredths.{ℤ, pos, negsuc}

-- The addresses of `EthereumHandler`.
pub record Contracts : Type 0 where
  pub exchange_address : ℕ
  pub deposit_address : ℕ
  pub vaults : List ℕ

-- `types.Log`: its topics behind the first, as numbers.
pub record Log : Type 0 where
  pub event_id : ℕ
  pub topic1 : ℕ
  pub topic2 : ℕ
  pub topic3 : ℕ
  pub address : ℕ
  pub block_number : ℕ
  pub tx_hash : ℕ
  pub index : ℕ
  pub removed : Bool

pub data Contract : Type 0 where
  exchange deposit_pool vault : Contract

-- The answer of `GetProfileByWalletForExchangeId`: a profile and its type, no profile and no error,
-- `PROFILE_NOT_FOUND`, or another error.
pub data Profile : Type 0 where
  profile : ℕ → String → Profile
  nil_profile profile_not_found lookup_failed : Profile

pub record Api : Type 0 where
  pub unpack : Contract → Log → Option (List ℤ)
  pub get_profile : ℕ → Profile
  pub invalidate_cache_ok : ℕ → Bool

pub data Call : Type 0 where
  process_deposit : ℕ → ℕ → ℕ → ℤ → ℕ → Bool → Call
  process_deposit_unknown : ℕ → ℕ → ℤ → ℕ → Call
  process_stake : ℕ → ℕ → ℕ → ℤ → ℕ → Call
  process_yield : ℕ → ℕ → ℤ → Call
  invalidate_cache : ℕ → Call
  invalidate_cache_and_notify : ℕ → Call

-- The contract at an address, tested in this order.
unfoldable pub contract_at : Contracts → ℕ → Option Contract
contract_at c address =
    if address == c.exchange_address
    then some exchange
    else if address == c.deposit_address
    then some deposit_pool
    else if elem address c.vaults
    then some vault
    else none

-- What `processEvents` unpacks of a log: its first value, or `none` where it skips the log.
unfoldable pub first_value : Option (List ℤ) → Option ℤ
first_value none = none
first_value (some []) = none
first_value (some (v ∷ values)) = some v

unfoldable pub unpack_log : Contracts → Api → (ℕ → Bool) → Log → Option ℤ
unpack_log c api event_types l =
    if not (event_types l.event_id)
    then none
    else if l.removed
    then none
    else if l.block_number == 0
    then none
    else elim (contract_at c l.address) [
      | none ↦ none
      | some contract ↦ first_value (api.unpack contract l)
    ]

abbrev pub is_positive : ℤ → Bool
is_positive (pos n) = not (n == 0)
is_positive (negsuc n) = false

-- `Uint64` and `HexToAddress` of a topic: its last 64 and 160 bits.
unfoldable pub uint64 : ℕ → ℕ
uint64 topic = topic % 2 ^ 64

unfoldable pub address_of : ℕ → ℕ
address_of topic = topic % 2 ^ 160

-- `depositHandler`: its calls; `none` is a nil pointer. It never ends the loop.
unfoldable pub deposit_handler : Contracts → Api → Log → ℤ → Option (List Call)
deposit_handler c api l amount =
    let from_pool = l.address == c.deposit_address in
    let pooled = from_pool && not (l.topic3 == 0) in
    let wallet = address_of l.topic2 in
    if wallet == c.deposit_address && not from_pool
    then some []
    else if not (is_positive amount)
    then some []
    else elim (api.get_profile wallet) [
      | profile id _ ↦ some (
          process_deposit id (uint64 l.topic1) wallet amount l.tx_hash pooled
          ∷ invalidate_cache_and_notify id
          ∷ [])
      | nil_profile ↦ none
      | profile_not_found ↦
          some (process_deposit_unknown (uint64 l.topic1) wallet amount l.tx_hash ∷ [])
      | lookup_failed ↦ some []
    ]

-- The end of `stakeHandler`, with the profiles of the vault and of the staker.
unfoldable pub stake_calls : Api → Log → ℤ → ℕ → ℕ → List Call
stake_calls api l amount vault_id staker_id =
    if api.invalidate_cache_ok vault_id
    then invalidate_cache vault_id
      ∷ process_stake staker_id (uint64 l.topic1) vault_id amount l.tx_hash
      ∷ invalidate_cache_and_notify staker_id
      ∷ invalidate_cache_and_notify vault_id
      ∷ []
    else invalidate_cache vault_id ∷ []

-- `stakeHandler`
unfoldable pub stake_handler : Api → Log → ℤ → Option (List Call)
stake_handler api l amount =
    if not (is_positive amount) then some [] else elim (api.get_profile l.address) [
      | profile vault_id type ↦
          if not (str_eq type "vault")
          then some []
          else elim (api.get_profile (address_of l.topic2)) [
            | profile staker_id _ ↦ some (stake_calls api l amount vault_id staker_id)
            | nil_profile ↦ some []
            | profile_not_found ↦ some []
            | lookup_failed ↦ some []
          ]
      | nil_profile ↦ some []
      | profile_not_found ↦ some []
      | lookup_failed ↦ some []
    ]

-- `yieldHandler`; `yield_id` is the hash that it makes of the log and the chain.
unfoldable pub yield_handler : (Log → ℕ) → Log → ℤ → Option (List Call)
yield_handler yield_id l amount =
    if is_positive amount then some (process_yield (yield_id l) l.tx_hash amount ∷ []) else some []

-- The logs of `FilterLogs`, with a second attempt behind a new connection.
unfoldable pub filter_logs : Option (List Log) → Bool → Option (List Log) → Option (List Log)
filter_logs (some logs) dial_ok second = some logs
filter_logs none false second = none
filter_logs none true second = second

-- The loop of `processEvents` for a handler that never ends it: the calls; `none` is a panic.
unfoldable pub handle_logs :
    (Log → Option ℤ) → (Log → ℤ → Option (List Call)) → List Log → Option (List Call)
handle_logs unpack handler [] = some []
handle_logs unpack handler (l ∷ logs) =
    let rest = handle_logs unpack handler logs in
    elim (unpack l) [
      | none ↦ rest
      | some v ↦ elim (handler l v) [
        | none ↦ none
        | some calls ↦ elim rest [ none ↦ none | some more ↦ some (calls ++ more) ]
      ]
    ]

-- `processEvents` without a batch handler: whether it succeeds, and the calls.
unfoldable pub process_events :
    Option (List Log)
    → (Log → Option ℤ)
    → (Log → ℤ → Option (List Call))
    → Option (Bool × List Call)
process_events none unpack handler = some (false, [])
process_events (some logs) unpack handler = elim (handle_logs unpack handler logs) [
  | none ↦ none
  | some calls ↦ some (true, calls)
]

-- The event identifiers of `EthereumHandler`.
pub record EventIds : Type 0 where
  pub rabbit_deposit_id : ℕ
  pub proxy_deposit_id : ℕ
  pub vault_stake_id : ℕ
  pub claimed_yield_id : ℕ
  pub withdrawal_receipt_id : ℕ

abbrev pub is_deposit : EventIds → ℕ → Bool
is_deposit ids id = id == ids.rabbit_deposit_id || id == ids.proxy_deposit_id

-- `processDepositEvents`, `processStakeEvents` and `ProcessYieldEvents`, on the logs that
-- `FilterLogs` gives for their addresses and topics.
unfoldable pub process_deposit_events :
    Contracts → EventIds → Api → Option (List Log) → Option (Bool × List Call)
process_deposit_events c ids api logs =
    process_events logs (unpack_log c api (is_deposit ids)) (deposit_handler c api)

unfoldable pub process_stake_events :
    Contracts → EventIds → Api → Option (List Log) → Option (Bool × List Call)
process_stake_events c ids api logs =
    process_events logs (unpack_log c api (λ id. id == ids.vault_stake_id)) (stake_handler api)

unfoldable pub process_yield_events :
    Contracts → EventIds → Api → (Log → ℕ) → Option (List Log) → Option (Bool × List Call)
process_yield_events c ids api yield_id logs =
    process_events logs (unpack_log c api (λ id. id == ids.claimed_yield_id))
      (yield_handler yield_id)

-- The loop of `processEvents` with `withdrawalReceiptHandler`: the accumulated withdrawals, each
-- with its identifier and transaction.
unfoldable pub receipts : (Log → Option ℤ) → List Log → List (ℕ × ℕ) → List (ℕ × ℕ)
receipts unpack [] wids = wids
receipts unpack (l ∷ logs) wids =
    receipts unpack logs
      (elim (unpack l) [ none ↦ wids | some v ↦ wids ++ ((uint64 l.topic1, l.tx_hash) ∷ []) ])

-- `processWithdrawalReceiptEvents` with `withdrawalBatchHandler`: whether it succeeds, and the
-- withdrawals that it completes in one request, which may be empty.
unfoldable pub process_withdrawal_receipt_events :
    Contracts
    → EventIds
    → Api
    → (List (ℕ × ℕ) → Bool)
    → Option (List Log)
    → Bool × Option (List (ℕ × ℕ))
process_withdrawal_receipt_events c ids api completed none = (false, none)
process_withdrawal_receipt_events c ids api completed (some logs) =
    let wids = receipts (unpack_log c api (λ id. id == ids.withdrawal_receipt_id)) logs [] in
    (completed wids, some wids)
