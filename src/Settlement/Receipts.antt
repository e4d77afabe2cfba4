-- ===== src/Settlement/Receipts.antt =====
-- Which withdrawals `processWithdrawalReceiptEvents` completes.
use rabbit_dex_backend.Common.{
  ℕ, ◌%◌, ◌^◌, ◌≡◌, refl, sym, ap, ◌∙◌, Bool, true, false, not, ◌&&◌, Option, none, some, List, [],
  ◌∷◌, ◌++◌, map, ◌==◌, elem, if◌then◌else◌, filter_by,
}
use mathlib.Core.List.{append-nil, append_assoc}
use rabbit_dex_backend.Decimal.Hundredths.{ℤ}
use rabbit_dex_backend.Settlement.Events.{
  Contracts, EventIds, Log, exchange, deposit_pool, vault, Api, contract_at, first_value,
  unpack_log, uint64, receipts, process_withdrawal_receipt_events,
}

-- The withdrawals of the logs that can be unpacked, in the order of the logs.
abbrev receipt_at : Log → Option ℤ → List (ℕ × ℕ) → List (ℕ × ℕ)
receipt_at l none rest = rest
receipt_at l (some v) rest = (uint64 l.topic1, l.tx_hash) ∷ rest

abbrev unpacked_of : (Log → Option ℤ) → List Log → List (ℕ × ℕ)
unpacked_of unpack [] = []
unpacked_of unpack (l ∷ logs) = receipt_at l (unpack l) (unpacked_of unpack logs)

receipts-unpacked_of :
    (unpack : Log → Option ℤ) (logs : List Log) (wids : List (ℕ × ℕ))
    → receipts unpack logs wids ≡ wids ++ unpacked_of unpack logs
unfolding receipts
receipts-unpacked_of unpack [] wids = sym (append-nil wids)
receipts-unpacked_of unpack (l ∷ logs) wids = go (unpack l) (receipts-unpacked_of unpack logs)
  where
    go :
        (o : Option ℤ)
        → ((w : List (ℕ × ℕ)) → receipts unpack logs w ≡ w ++ unpacked_of unpack logs)
        → receipts unpack logs (elim o as (λ x. List (ℕ × ℕ)) [
          | none ↦ wids
          | some v ↦ wids ++ ((uint64 l.topic1, l.tx_hash) ∷ [])
        ])
          ≡ wids ++ receipt_at l o (unpacked_of unpack logs)
    go none ih = ih wids
    go (some v) ih = ih _ ∙ append_assoc wids _ _

-- Whether the contract at a log's address, the exchange, the deposit pool or a vault, unpacks a first
-- value of it.
abbrev has_value : Option (List ℤ) → Bool
has_value none = false
has_value (some []) = false
has_value (some (v ∷ values)) = true

abbrev is_unpacked : Contracts → Api → Log → Bool
is_unpacked c api l =
    if l.address == c.exchange_address
    then has_value (api.unpack exchange l)
    else if l.address == c.deposit_address
    then has_value (api.unpack deposit_pool l)
    else if elem l.address c.vaults
    then has_value (api.unpack vault l)
    else false

-- A log of a withdrawal's receipt: it has the event's identifier and a block, no reorganisation has
-- removed it, and it can be unpacked.
abbrev pub is_receipt : Contracts → EventIds → Api → Log → Bool
is_receipt c ids api l =
    l.event_id == ids.withdrawal_receipt_id
    && not l.removed
    && not (l.block_number == 0)
    && is_unpacked c api l

-- The withdrawal of a log: the last 64 bits of its first topic, and its transaction.
abbrev pub receipts_of : List Log → List (ℕ × ℕ)
receipts_of logs = map (λ l. (l.topic1 % 2 ^ 64, l.tx_hash)) logs

unpack_log-is_receipt :
    (c : Contracts) (ids : EventIds) (api : Api) (l : Log) (rest : List (ℕ × ℕ))
    → receipt_at l (unpack_log c api (λ id. id == ids.withdrawal_receipt_id) l) rest
      ≡ (if is_receipt c ids api l then (uint64 l.topic1, l.tx_hash) ∷ rest else rest)
unfolding unpack_log contract_at first_value
unpack_log-is_receipt c ids api l rest =
    go (l.event_id == ids.withdrawal_receipt_id) l.removed (l.block_number == 0)
      (l.address == c.exchange_address) (l.address == c.deposit_address) (elem l.address c.vaults)
  where
    value :
        (o : Option (List ℤ))
        → receipt_at l (first_value o) rest
          ≡ (if has_value o then (uint64 l.topic1, l.tx_hash) ∷ rest else rest)
    value none = refl
    value (some []) = refl
    value (some (v ∷ values)) = refl

    go :
        (e r z x d v : Bool)
        → receipt_at l
            (if not e
              then none
              else if r
              then none
              else if z
              then none
              else elim (if x
                    then some exchange
                    else if d
                    then some deposit_pool
                    else if v
                    then some vault
                    else none)
                  as (λ o. Option ℤ) [
                    | none ↦ none
                    | some contract ↦ first_value (api.unpack contract l)
                  ])
            rest
          ≡ (if e
                && not r
                && not z
                && (if x
                    then has_value (api.unpack exchange l)
                    else if d
                    then has_value (api.unpack deposit_pool l)
                    else if v
                    then has_value (api.unpack vault l)
                    else false)
              then (uint64 l.topic1, l.tx_hash) ∷ rest
              else rest)
    go false r z x d v = refl
    go true true z x d v = refl
    go true false true x d v = refl
    go true false false true d v = value (api.unpack exchange l)
    go true false false false true v = value (api.unpack deposit_pool l)
    go true false false false false true = value (api.unpack vault l)
    go true false false false false false = refl

unpacked_of-receipts_of :
    (c : Contracts) (ids : EventIds) (api : Api) (logs : List Log)
    → unpacked_of (unpack_log c api (λ id. id == ids.withdrawal_receipt_id)) logs
      ≡ receipts_of (filter_by (is_receipt c ids api) logs)
unfolding uint64
unpacked_of-receipts_of c ids api [] = refl
unpacked_of-receipts_of c ids api (l ∷ logs) =
    unpack_log-is_receipt c ids api l _
    ∙ ap (λ rest. if is_receipt c ids api l then (l.topic1 % 2 ^ 64, l.tx_hash) ∷ rest else rest)
        (unpacked_of-receipts_of c ids api logs)
    ∙ chosen (is_receipt c ids api l)
  where
    chosen :
        (b : Bool)
        → (if b
            then (l.topic1 % 2 ^ 64, l.tx_hash)
              ∷ receipts_of (filter_by (is_receipt c ids api) logs)
            else receipts_of (filter_by (is_receipt c ids api) logs))
          ≡ receipts_of (
              if b
              then l ∷ filter_by (is_receipt c ids api) logs
              else filter_by (is_receipt c ids api) logs)
    chosen true = refl
    chosen false = refl

-- In one request `processWithdrawalReceiptEvents` completes exactly the withdrawals of the logs of
-- its event, in the order of the logs, and it succeeds as the request does. Such a log has the
-- event's identifier and a block, is not removed, and the contract at its address unpacks it.
pub process_withdrawal_receipt_events-receipts_of :
    (c : Contracts) (ids : EventIds) (api : Api) (completed : List (ℕ × ℕ) → Bool) (logs : List Log)
    → process_withdrawal_receipt_events c ids api completed (some logs) ≡ (
        let wids = receipts_of (filter_by (is_receipt c ids api) logs) in
        (completed wids, some wids))
unfolding process_withdrawal_receipt_events
process_withdrawal_receipt_events-receipts_of c ids api completed logs =
    ap (λ w. (completed w, some w))
      (receipts-unpacked_of (unpack_log c api (λ id. id == ids.withdrawal_receipt_id)) logs []
        ∙ unpacked_of-receipts_of c ids api logs)
