-- ===== src/Settlement/Withdrawals.antt =====
-- The withdrawals of settlement/settlement_service.go: `ProcessWithdrawal` of one goroutine for each
-- handler (the number of the goroutine is the handler's), over the field `withdrawalSuspended` that they share and the flag that Tarantool keeps.
-- A goroutine goes through it in four events, between which the others may run, and whose answers
-- from Tarantool and the chain are arguments. The amounts are in 18 decimals.
use rabbit_dex_backend.Common.{
  ℕ, ◌+◌, ◌*◌, ◌^◌, Bool, true, not, Option, none, some, List, [], ◌∷◌, ◌++◌, ltb, if◌then◌else◌,
  get_elem?, set,
}
use rabbit_dex_backend.Settlement.Blocks.{Handler}

-- `MAX_WITHDRAWAL_18`
abbrev pub max_withdrawal_18 : ℕ
max_withdrawal_18 = 4_000_000 * 10 ^ 18

-- Where a goroutine stands in `ProcessWithdrawal`.
pub data Phase : Type 0 where
  idle has_read checked completing : Phase

-- `crashed`: a nil pointer has ended the process.
pub record System : Type 0 where
  pub withdrawal_suspended : Bool
  pub db_suspended : Bool
  pub phases : List Phase
  pub crashed : Bool

pub data Call : Type 0 where
  suspend_withdrawals : Call
  update_pending_withdrawals : ℕ → ℕ → Call
  complete_withdrawals : ℕ → Call

-- What a run meets: the number of pending withdrawals, the sum of `Rolling24hWds` (`none` with its
-- error, which the code drops), whether `SuspendWithdrawals` and `ensureConnected` succeed, and the
-- current block.
pub record Answers : Type 0 where
  pub pending : Option ℕ
  pub rolling_24h : Option ℕ
  pub suspend_ok : Bool
  pub connected : Bool
  pub current_block : Option ℕ

pub data Event : Type 0 where
  reads : ℕ → Bool → Event
  tests : ℕ → Event
  pays : ℕ → Answers → Event
  completes : ℕ → Event

-- `updatePendingWithdrawals`
unfoldable pub update_pending_withdrawals_of : Handler → Answers → List Call
update_pending_withdrawals_of eh a = if not a.connected then [] else elim a.current_block [
  | none ↦ []
  | some current ↦ update_pending_withdrawals current (eh.withdrawal_block_delay + current) ∷ []
]

-- `SuspendWithdrawals`
unfoldable pub suspend : Bool → System → System
suspend suspend_ok s = record s {
  withdrawal_suspended = true;
  db_suspended = if suspend_ok then true else s.db_suspended;
}

-- `checkWithdrawalSuspendedOnDB`
unfoldable pub check_withdrawal_suspended_on_db : Bool → System → System
check_withdrawal_suspended_on_db read_ok s = record s {
  withdrawal_suspended = if read_ok then s.db_suspended else true;
}

-- `processPendingWithdrawals`
unfoldable pub pay_up_to_max : Handler → Answers → System → Option ℕ → System × List Call
pay_up_to_max eh a s none = (record s { crashed = true }, [])
pay_up_to_max eh a s (some total_pending) =
    if ltb max_withdrawal_18 total_pending
    then (suspend a.suspend_ok s, suspend_withdrawals ∷ [])
    else (s, update_pending_withdrawals_of eh a)

unfoldable pub process_pending_withdrawals : Handler → Answers → System → System × List Call
process_pending_withdrawals eh a s = elim a.pending [
  | none ↦ (s, [])
  | some n ↦ if ltb 0 n then pay_up_to_max eh a s a.rolling_24h else (s, [])
]

abbrev pub at_phase : ℕ → Phase → System → System
at_phase i p s = record s { phases = set s.phases i p }

-- An event of the goroutine `i` that stands in the given phase. In another phase the event does not
-- happen.
unfoldable pub step_in : (ℕ → Handler) → Event → System → Phase → System × List Call
step_in eh (reads i read_ok) s idle =
    (at_phase i has_read (check_withdrawal_suspended_on_db read_ok s), [])
step_in eh (reads i read_ok) s has_read = (s, [])
step_in eh (reads i read_ok) s checked = (s, [])
step_in eh (reads i read_ok) s completing = (s, [])
step_in eh (tests i) s idle = (s, [])
step_in eh (tests i) s has_read =
    (at_phase i (if s.withdrawal_suspended then idle else checked) s, [])
step_in eh (tests i) s checked = (s, [])
step_in eh (tests i) s completing = (s, [])
step_in eh (pays i a) s idle = (s, [])
step_in eh (pays i a) s has_read = (s, [])
step_in eh (pays i a) s checked = process_pending_withdrawals (eh i) a (at_phase i completing s)
step_in eh (pays i a) s completing = (s, [])
step_in eh (completes i) s idle = (s, [])
step_in eh (completes i) s has_read = (s, [])
step_in eh (completes i) s checked = (s, [])
step_in eh (completes i) s completing =
    (at_phase i idle s, if s.withdrawal_suspended then [] else complete_withdrawals i ∷ [])

abbrev pub goroutine : Event → ℕ
goroutine (reads i _) = i
goroutine (tests i) = i
goroutine (pays i _) = i
goroutine (completes i) = i

unfoldable pub step_at : (ℕ → Handler) → Event → System → Option Phase → System × List Call
step_at eh e s none = (s, [])
step_at eh e s (some p) = step_in eh e s p

unfoldable pub step : (ℕ → Handler) → Event → System → System × List Call
step eh e s = if s.crashed then (s, []) else step_at eh e s (get_elem? s.phases (goroutine e))

-- A sequence of events: the system behind it, and the calls.
unfoldable pub run : (ℕ → Handler) → List Event → System → System × List Call
run eh [] s = (s, [])
run eh (e ∷ events) s =
    let here = step eh e s in let later = run eh events here.0 in (later.0, here.1 ++ later.1)

-- `ProcessWithdrawal` of the goroutine `i`, when no other runs.
unfoldable pub process_withdrawal : (ℕ → Handler) → ℕ → Bool → Answers → System → System × List Call
process_withdrawal eh i read_ok a = run eh (reads i read_ok ∷ tests i ∷ pays i a ∷ completes i ∷ [])
