-- ===== src/Settlement/Ranges.antt =====
-- Which blocks the loops of Blocks work off.
use rabbit_dex_backend.Common.{
  ℕ, zero, suc, ◌+◌, ◌-◌, ◌≤◌, ◌≡◌, refl, sym, ap, subst, ◌∙◌, inl, inr, Bool, true, false, Option,
  none, some, not, List, [], ◌∷◌, ◌++◌, arith, leb, if◌then◌else◌, Bool-cases, All,
}
use rabbit_dex_backend.Settlement.Blocks.{
  Handler, confirmed, range_behind, max_blocks, Round, Attempt, stop, stored, done, running, failed,
  deposits_failed, stakes_failed, set_failed, head_failed, get_failed, Handled, Progress, ended,
  after_attempt, process_ranges, process_blocks, attempt_deposits, process_deposits_and_staking,
}

-- A range that lies right behind the block `start`, is not longer than the limit, and was confirmed
-- at its head.
abbrev pub IsNext : Handler → ℕ → Handled → Type 0
IsNext eh start h =
    (h.from_block ≡ suc start)
    × (h.from_block ≤ h.to_block)
    × (h.to_block ≤ h.from_block + max_blocks)
    × (h.to_block + eh.block_confirmations ≤ h.head)

-- Ranges that follow each other without a gap, from a stored block to another.
abbrev pub IsChain : Handler → ℕ → List Handled → ℕ → Type 0
IsChain eh start [] end = end ≡ start
IsChain eh start (h ∷ log) end = IsNext eh start h × IsChain eh h.to_block log end

-- The blocks of a range, and of a log.
abbrev pub blocks_from : ℕ → ℕ → List ℕ
blocks_from b zero = []
blocks_from b (suc n) = b ∷ blocks_from (suc b) n

abbrev pub blocks_of : List Handled → List ℕ
blocks_of [] = []
blocks_of (h ∷ log) = blocks_from h.from_block (suc h.to_block - h.from_block) ++ blocks_of log

pub confirmed-bounds :
    (c from head to : ℕ)
    → confirmed c from head ≡ some to
    → (to ≤ from + max_blocks) × (to + c ≤ head)
unfolding confirmed
confirmed-bounds c from head to h = ground arith

-- An attempt that stores the end of its range.
abbrev pub StoresEnd : (Round → ℕ → Attempt) → Round → Type 0
StoresEnd attempt r = (to b : ℕ) → attempt r to ≡ stored b → b ≡ to

abbrev pub EndsChain : Handler → ℕ → Progress → Type 0
EndsChain eh start p = IsChain eh start p.log p.last

after_attempt-EndsChain :
    (eh : Handler) (attempt : Round → ℕ → Attempt) (rest : ℕ → ℕ → Progress) (r : Round)
    (h : Handled) (last : ℕ)
    → ((head b : ℕ) → EndsChain eh b (rest head b))
    → StoresEnd attempt r
    → IsNext eh last h
    → (a : Attempt) → attempt r h.to_block ≡ a
    → EndsChain eh last (after_attempt rest r h last a)
unfolding after_attempt
after_attempt-EndsChain eh attempt rest r h last rests stores next (stop f) e = refl
after_attempt-EndsChain eh attempt rest r h last rests stores next (stored b) e =
    (next, go r.head r.get_ok)
  where
    go :
        (o : Option ℕ) (g : Bool)
        → EndsChain eh h.to_block (elim o as (λ x. Progress) [
          | none ↦ ended (failed (if g then head_failed else get_failed)) b
          | some head ↦ if g then rest head b else ended (failed get_failed) b
        ])
    go none g = stores h.to_block b e
    go (some head) true =
        subst (λ n. EndsChain eh n (rest head b)) (stores h.to_block b e) (rests head b)
    go (some head) false = stores h.to_block b e

process_ranges-EndsChain :
    (eh : Handler) (attempt : Round → ℕ → Attempt) (rounds : List Round) (head last : ℕ)
    → All (StoresEnd attempt) rounds
    → EndsChain eh last (process_ranges eh attempt rounds head last)
unfolding process_ranges
process_ranges-EndsChain eh attempt [] head last stores = go (range_behind eh last head).to_block
  where
    go :
        (o : Option ℕ)
        → EndsChain eh last (elim o as (λ x. Progress) [
          | none ↦ ended done last
          | some to ↦ if leb (suc last) to then ended running last else ended done last
        ])
    go none = refl
    go (some to) = elim (Bool-cases (leb (suc last) to)) [ inl e ↦ rw e refl | inr e ↦ rw e refl ]
process_ranges-EndsChain eh attempt (r ∷ rounds) head last stores =
    go (range_behind eh last head).to_block refl
      (λ h b. process_ranges-EndsChain eh attempt rounds h b stores.1)
  where
    go :
        (o : Option ℕ)
        → (range_behind eh last head).to_block ≡ o
        → ((h b : ℕ) → EndsChain eh b (process_ranges eh attempt rounds h b))
        → EndsChain eh last (elim o as (λ x. Progress) [
          | none ↦ ended done last
          | some to ↦
              if leb (suc last) to
              then after_attempt
                  (process_ranges eh attempt rounds)
                  r
                  (record { from_block = suc last; to_block = to; head = head })
                  last
                  (attempt r to)
              else ended done last
        ])
    go none e ih = refl
    go (some to) e ih =
        let bounds = confirmed-bounds eh.block_confirmations (suc last) head to e in
        elim (Bool-cases (leb (suc last) to)) [
          | inl some_blocks ↦
              let h : Handled = record { from_block = suc last; to_block = to; head = head } in
              let ordered : suc last ≤ to = ground arith in
              rw some_blocks (
                after_attempt-EndsChain eh attempt (process_ranges eh attempt rounds) r h last ih
                  stores.0 (refl, ordered, bounds.0, bounds.1) (attempt r to) refl)
          | inr e' ↦ rw e' refl
        ]

-- A chain's blocks, in their order, are those behind its start up to its end.
blocks_from-append :
    (b c m n k : ℕ) → b + m ≡ c → m + n ≡ k → blocks_from b m ++ blocks_from c n ≡ blocks_from b k
blocks_from-append b c zero n k e e' =
    ap (λ x. blocks_from x n) (let same : c ≡ b = omega arith in same)
    ∙ ap (blocks_from b) (let same : n ≡ k = omega arith in same)
blocks_from-append b c (suc m) n k e e' =
    ap (λ l. b ∷ l) (blocks_from-append (suc b) c m n (m + n) (omega arith) refl)
    ∙ ap (blocks_from b) (let same : suc (m + n) ≡ k = omega arith in same)

pub IsChain-blocks :
    (eh : Handler) (start end : ℕ) (log : List Handled)
    → IsChain eh start log end
    → (start ≤ end) × (blocks_of log ≡ blocks_from (suc start) (end - start))
IsChain-blocks eh start end [] c = (
  omega arith,
  ap (blocks_from (suc start)) (let none_left : 0 ≡ end - start = omega arith in none_left),
)
IsChain-blocks eh start end (h ∷ log) c =
    let (starts, ordered, _, _) = c.0 in
    let (le, rest) = IsChain-blocks eh h.to_block end log c.1 in
    (
      omega arith,
      ap (λ l. blocks_from h.from_block (suc h.to_block - h.from_block) ++ l) rest
          ∙ ap
              (λ b.
                blocks_from b (suc h.to_block - h.from_block)
                ++ blocks_from (suc h.to_block) (end - h.to_block))
              starts
          ∙ blocks_from-append (suc start) (suc h.to_block) (suc h.to_block - h.from_block)
              (end - h.to_block) (end - start) (omega arith) (omega arith),
    )

pub process_blocks-EndsChain :
    (eh : Handler) (attempt : Round → ℕ → Attempt) (rounds : List Round) (head : Option ℕ)
    (last : ℕ)
    → All (StoresEnd attempt) rounds
    → EndsChain eh last (process_blocks eh attempt rounds head last)
unfolding process_blocks
process_blocks-EndsChain eh attempt rounds none last stores = refl
process_blocks-EndsChain eh attempt rounds (some h) last stores =
    process_ranges-EndsChain eh attempt rounds h last stores

pub stored-injective : {b c : ℕ} → stored b ≡ stored c → b ≡ c
stored-injective {b} e = ap (λ a. elim a [ stored x ↦ x | stop _ ↦ b ]) e

pub attempt_deposits-StoresEnd : (r : Round) → StoresEnd attempt_deposits r
unfolding attempt_deposits
attempt_deposits-StoresEnd r to b e = go r.deposits_ok r.stakes_ok r.set_ok e
  where
    go :
        (d s g : Bool)
        → (if not d
            then stop deposits_failed
            else if not s
            then stop stakes_failed
            else if not g
            then stop set_failed
            else stored to)
          ≡ stored b
        → b ≡ to
    go false s g e' = cc
    go true false g e' = cc
    go true true false e' = cc
    go true true true e' = sym (stored-injective e')

pub every :
    (attempt : Round → ℕ → Attempt) (rounds : List Round)
    → ((r : Round) → StoresEnd attempt r)
    → All (StoresEnd attempt) rounds
every attempt [] f = tt
every attempt (r ∷ rounds) f = (f r, every attempt rounds f)

-- However a run over deposits and stakes ends, the blocks whose events it has worked off and stored
-- are those behind the block stored before, one by one and each once, up to the block stored now;
-- they lie in ranges of at most 2,000 blocks, each of them confirmed at the head at which its range
-- was read.
pub process_deposits_and_staking-IsChain :
    (eh : Handler) (rounds : List Round) (head : Option ℕ) (last : ℕ)
    → let p = process_deposits_and_staking eh rounds head last in
      IsChain eh last p.log p.last
      × (last ≤ p.last)
      × (blocks_of p.log ≡ blocks_from (suc last) (p.last - last))
unfolding process_deposits_and_staking
process_deposits_and_staking-IsChain eh rounds head last =
    let p = process_blocks eh attempt_deposits rounds head last in
    let chain : EndsChain eh last p =
      process_blocks-EndsChain eh attempt_deposits rounds head last
        (every attempt_deposits rounds attempt_deposits-StoresEnd) in
    let blocks = IsChain-blocks eh last p.last p.log chain in (chain, blocks.0, blocks.1)
