-- ===== src/Settlement/Loops.antt =====
-- How the loops of Blocks end, and the withdrawals' loop beside another goroutine.
use rabbit_dex_backend.Common.{
  ℕ, suc, ◌+◌, ◌-◌, ◌≤◌, ◌≡◌, refl, sym, subst, inl, inr, Bool, true, false, Option, none, some,
  not, List, [], ◌∷◌, arith, leb, if◌then◌else◌, Bool-cases, All, length,
}
use rabbit_dex_backend.Settlement.Blocks.{
  Handler, range_behind, Round, Attempt, stop, stored, Outcome, done, running, failed,
  receipts_failed, suspended, set_failed, head_failed, get_failed, Handled, Progress, ended,
  after_attempt, process_ranges, process_blocks, attempt_deposits, attempt_withdrawals,
  process_deposits_and_staking, complete_withdrawals_and_unstakes,
}
use rabbit_dex_backend.Settlement.Ranges.{
  IsChain, StoresEnd, EndsChain, process_blocks-EndsChain, IsChain-blocks, blocks_of, blocks_from,
  confirmed-bounds, stored-injective, every, attempt_deposits-StoresEnd,
}

abbrev pub HasEnded : Outcome → Type 0
HasEnded running = ⊥
HasEnded done = Unit
HasEnded (failed _) = Unit

-- The chain is never seen beyond the block `top`.
abbrev pub IsBelow : ℕ → Option ℕ → Type 0
IsBelow top none = Unit
IsBelow top (some head) = head ≤ top

after_attempt-HasEnded :
    (attempt : Round → ℕ → Attempt) (rest : ℕ → ℕ → Progress) (r : Round) (h : Handled)
    (last top : ℕ)
    → ((head : ℕ) → head ≤ top → HasEnded (rest head h.to_block).outcome)
    → StoresEnd attempt r
    → IsBelow top r.head
    → (a : Attempt) → attempt r h.to_block ≡ a
    → HasEnded (after_attempt rest r h last a).outcome
unfolding after_attempt
after_attempt-HasEnded attempt rest r h last top rests stores low (stop f) e = tt
after_attempt-HasEnded attempt rest r h last top rests stores low (stored b) e =
    go r.head r.get_ok low
  where
    go :
        (o : Option ℕ) (g : Bool)
        → IsBelow top o
        → HasEnded
            (elim o as (λ x. Progress) [
              | none ↦ ended (failed (if g then head_failed else get_failed)) b
              | some head ↦ if g then rest head b else ended (failed get_failed) b
            ]).outcome
    go none g l = tt
    go (some head) true l =
        subst (λ n. HasEnded (rest head n).outcome) (sym (stores h.to_block b e)) (rests head l)
    go (some head) false l = tt

process_ranges-HasEnded :
    (eh : Handler) (attempt : Round → ℕ → Attempt) (rounds : List Round) (head last top : ℕ)
    → All (StoresEnd attempt) rounds
    → All (λ r. IsBelow top r.head) rounds
    → head ≤ top
    → top ≤ last + length rounds
    → HasEnded (process_ranges eh attempt rounds head last).outcome
unfolding process_ranges
process_ranges-HasEnded eh attempt [] head last top stores low h enough =
    go (range_behind eh last head).to_block refl
  where
    go :
        (o : Option ℕ)
        → (range_behind eh last head).to_block ≡ o
        → HasEnded
            (elim o as (λ x. Progress) [
              | none ↦ ended done last
              | some to ↦ if leb (suc last) to then ended running last else ended done last
            ]).outcome
    go none e = tt
    go (some to) e =
        let bounds = confirmed-bounds eh.block_confirmations (suc last) head to e in
        let over : leb (suc last) to ≡ false = ground (arith, bounds.1) in rw over tt
process_ranges-HasEnded eh attempt (r ∷ rounds) head last top stores low h enough =
    go (range_behind eh last head).to_block (λ hd b l ahead.
      process_ranges-HasEnded eh attempt rounds hd b top stores.1 low.1 l
        (omega (arith, ahead, enough)))
  where
    go :
        (o : Option ℕ)
        → ((hd b : ℕ)
            → hd ≤ top
            → suc last ≤ b
            → HasEnded (process_ranges eh attempt rounds hd b).outcome)
        → HasEnded
            (elim o as (λ x. Progress) [
              | none ↦ ended done last
              | some to ↦
                  if leb (suc last) to
                  then after_attempt
                      (process_ranges eh attempt rounds)
                      r
                      (record { from_block = suc last; to_block = to; head = head })
                      last
                      (attempt r to)
                  else ended done last
            ]).outcome
    go none ih = tt
    go (some to) ih = elim (Bool-cases (leb (suc last) to)) [
      | inl some_blocks ↦
          let ordered : suc last ≤ to = ground arith in
          rw some_blocks (
            after_attempt-HasEnded attempt (process_ranges eh attempt rounds) r
              (record { from_block = suc last; to_block = to; head = head }) last top
              (λ hd l. ih hd to l ordered) stores.0 low.0 (attempt r to) refl)
      | inr e ↦ rw e tt
    ]

-- If the chain is never seen beyond some block, a run over deposits and stakes ends: with an error,
-- or with no confirmed block left. It takes no more rounds than there are blocks from the stored one
-- up to that block.
pub process_deposits_and_staking-HasEnded :
    (eh : Handler) (rounds : List Round) (head : Option ℕ) (last top : ℕ)
    → IsBelow top head
    → All (λ r. IsBelow top r.head) rounds
    → top ≤ last + length rounds
    → HasEnded (process_deposits_and_staking eh rounds head last).outcome
unfolding process_deposits_and_staking process_blocks
process_deposits_and_staking-HasEnded eh rounds none last top h low enough = tt
process_deposits_and_staking-HasEnded eh rounds (some hd) last top h low enough =
    process_ranges-HasEnded eh attempt_deposits rounds hd last top
      (every attempt_deposits rounds attempt_deposits-StoresEnd) low h enough

attempt_withdrawals-StoresEnd : (r : Round) → r.overwritten ≡ none → StoresEnd attempt_withdrawals r
unfolding attempt_withdrawals
attempt_withdrawals-StoresEnd r own to b e =
    go r.suspended_before r.receipts_ok r.suspended_after r.set_ok r.overwritten own e
  where
    go :
        (s o a g : Bool) (w : Option ℕ)
        → w ≡ none
        → (if s
            then stop suspended
            else if not o
            then stop receipts_failed
            else if a
            then stop suspended
            else if not g
            then stop set_failed
            else elim w as (λ x. Attempt) [ none ↦ stored to | some other ↦ stored other ])
          ≡ stored b
        → b ≡ to
    go true o a g w n e' = cc
    go false false a g w n e' = cc
    go false true true g w n e' = cc
    go false true false false w n e' = cc
    go false true false true none n e' = sym (stored-injective e')
    go false true false true (some x) n e' = cc

own_rounds :
    (rounds : List Round)
    → All (λ r. r.overwritten ≡ none) rounds
    → All (StoresEnd attempt_withdrawals) rounds
own_rounds [] a = tt
own_rounds (r ∷ rounds) a = (attempt_withdrawals-StoresEnd r a.0, own_rounds rounds a.1)

-- As long as no other goroutine writes `latestBlock` during the run, the blocks whose withdrawal
-- receipts have been completed and stored are those behind the block stored before, each once, up
-- to the block stored now.
pub complete_withdrawals_and_unstakes-IsChain :
    (eh : Handler) (rounds : List Round) (head : Option ℕ) (last : ℕ)
    → All (λ r. r.overwritten ≡ none) rounds
    → let p = complete_withdrawals_and_unstakes eh rounds head last in
      IsChain eh last p.log p.last
      × (last ≤ p.last)
      × (blocks_of p.log ≡ blocks_from (suc last) (p.last - last))
unfolding complete_withdrawals_and_unstakes
complete_withdrawals_and_unstakes-IsChain eh rounds head last own =
    let p = process_blocks eh attempt_withdrawals rounds head last in
    let chain : EndsChain eh last p =
      process_blocks-EndsChain eh attempt_withdrawals rounds head last (own_rounds rounds own) in
    let blocks = IsChain-blocks eh last p.last p.log chain in (chain, blocks.0, blocks.1)
