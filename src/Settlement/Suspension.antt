-- ===== src/Settlement/Suspension.antt =====
-- What a suspension in Tarantool does to the goroutines of Withdrawals.
use rabbit_dex_backend.Common.{
  ℕ, zero, suc, ◌+◌, ◌≤◌, ◌≡◌, refl, sym, ap, ◌∙◌, ◌⊎◌, inl, inr, Bool, true, false, not, Option,
  none, some, List, [], ◌∷◌, ◌++◌, arith, ltb, if◌then◌else◌, get_elem?, set,
}
use rabbit_dex_backend.Settlement.Blocks.{Handler}
use rabbit_dex_backend.Settlement.Withdrawals.{
  Phase, idle, has_read, checked, completing, System, Call, suspend_withdrawals,
  update_pending_withdrawals, complete_withdrawals, Answers, Event, reads, tests, pays, completes,
  max_withdrawal_18, update_pending_withdrawals_of, suspend, check_withdrawal_suspended_on_db,
  pay_up_to_max, process_pending_withdrawals, at_phase, step_in, goroutine, step_at, step, run,
}

-- The goroutines in a phase, and the updates among calls.
abbrev pub is_checked : Phase → ℕ
is_checked idle = 0
is_checked has_read = 0
is_checked checked = 1
is_checked completing = 0

abbrev pub is_reader : Phase → ℕ
is_reader idle = 0
is_reader has_read = 1
is_reader checked = 0
is_reader completing = 0

abbrev pub count : (Phase → ℕ) → List Phase → ℕ
count f [] = 0
count f (p ∷ phases) = f p + count f phases

abbrev pub is_update : Call → ℕ
is_update suspend_withdrawals = 0
is_update (update_pending_withdrawals _ _) = 1
is_update (complete_withdrawals _) = 0

abbrev pub updates : List Call → ℕ
updates [] = 0
updates (call ∷ calls) = is_update call + updates calls

updates-append : (calls more : List Call) → updates (calls ++ more) ≡ updates calls + updates more
updates-append [] more = omega arith
updates-append (call ∷ calls) more = omega (arith, updates-append calls more)

count-set :
    (f : Phase → ℕ) (phases : List Phase) (i : ℕ) (p q : Phase)
    → get_elem? phases i ≡ some q
    → count f (set phases i p) + f q ≡ count f phases + f p
count-set f [] i p q e = absurd (let e' = e in cc)
count-set f (x ∷ phases) zero p q e = let same : f x ≡ f q = ap f (let e' = e in cc) in omega arith
count-set f (x ∷ phases) (suc i) p q e = omega (arith, count-set f phases i p q e)

-- The suspension is stored, and no goroutine holds an answer from before it.
abbrev pub IsHeld : System → Type 0
IsHeld s =
    (s.db_suspended ≡ true) × ((s.withdrawal_suspended ≡ true) ⊎ (count is_reader s.phases ≡ 0))

-- From `s` the suspension still holds, and each update has cost a checked goroutine.
abbrev Goes : System → System × List Call → Type 0
Goes s r = IsHeld r.0 × (updates r.1 + count is_checked r.0.phases ≤ count is_checked s.phases)

stays-Goes : (s : System) → IsHeld s → Goes s (s, [])
stays-Goes s held = (held, omega arith)

updates-update_pending_withdrawals_of :
    (eh : Handler) (a : Answers) → updates (update_pending_withdrawals_of eh a) ≤ 1
unfolding update_pending_withdrawals_of
updates-update_pending_withdrawals_of eh a = go a.connected a.current_block
  where
    go :
        (c : Bool) (o : Option ℕ)
        → updates (
            if not c then [] else elim o as (λ x. List Call) [
              | none ↦ []
              | some n ↦ update_pending_withdrawals n (eh.withdrawal_block_delay + n) ∷ []
            ])
          ≤ 1
    go true none = omega arith
    go true (some n) = omega arith
    go false o = omega arith

process_pending_withdrawals-Goes :
    (eh : Handler) (a : Answers) (s t : System)
    → IsHeld t
    → count is_checked t.phases + 1 ≤ count is_checked s.phases
    → Goes s (process_pending_withdrawals eh a t)
unfolding process_pending_withdrawals pay_up_to_max suspend
process_pending_withdrawals-Goes eh a s t held less = go a.pending a.rolling_24h
  where
    stored : (b : Bool) → (if b then true else t.db_suspended) ≡ true
    stored true = refl
    stored false = held.0

    tested :
        (b : Bool)
        → Goes s (
            if b
            then (suspend a.suspend_ok t, suspend_withdrawals ∷ [])
            else (t, update_pending_withdrawals_of eh a))
    tested true = ((stored a.suspend_ok, inl refl), omega arith)
    tested false = let one = updates-update_pending_withdrawals_of eh a in (held, omega arith)

    payable : (b : Bool) (r : Option ℕ) → Goes s (if b then pay_up_to_max eh a t r else (t, []))
    payable true none = (held, omega arith)
    payable true (some n) = tested (ltb max_withdrawal_18 n)
    payable false r = (held, omega arith)

    go :
        (p r : Option ℕ)
        → Goes s (elim p as (λ x. System × List Call) [
          | none ↦ (t, [])
          | some n ↦ if ltb 0 n then pay_up_to_max eh a t r else (t, [])
        ])
    go none r = (held, omega arith)
    go (some n) r = payable (ltb 0 n) r

tests-Goes :
    (s : System) (i : ℕ) (b : Bool)
    → s.withdrawal_suspended ≡ b
    → IsHeld s
    → get_elem? s.phases i ≡ some has_read
    → Goes s (at_phase i (if b then idle else checked) s, [])
tests-Goes s i true w held here =
    let c = count-set is_checked s.phases i idle has_read here in ((held.0, inl w), omega arith)
tests-Goes s i false w (db, inl w') here = absurd (let e = sym w ∙ w' in cc)
tests-Goes s i false w (db, inr n) here =
    let c = count-set is_reader s.phases i idle has_read here in absurd (omega arith)

completes-Goes :
    (s : System) (i : ℕ) (b : Bool)
    → IsHeld s
    → get_elem? s.phases i ≡ some completing
    → Goes s (at_phase i idle s, if b then [] else complete_withdrawals i ∷ [])
completes-Goes s i b held here = (kept held, counted b)
  where
    kept : IsHeld s → IsHeld (at_phase i idle s)
    kept (db, inl w) = (db, inl w)
    kept (db, inr n) =
        let c = count-set is_reader s.phases i idle completing here in (db, inr (omega arith))

    counted :
        (x : Bool)
        → updates (if x then [] else complete_withdrawals i ∷ [])
            + count is_checked (set s.phases i idle)
          ≤ count is_checked s.phases
    counted true = let c = count-set is_checked s.phases i idle completing here in omega arith
    counted false = let c = count-set is_checked s.phases i idle completing here in omega arith

read-Goes :
    (s : System) (i : ℕ) (read_ok : Bool)
    → IsHeld s
    → get_elem? s.phases i ≡ some idle
    → Goes s (at_phase i has_read (check_withdrawal_suspended_on_db read_ok s), [])
unfolding check_withdrawal_suspended_on_db
read-Goes s i read_ok (db, w) here =
    let c = count-set is_checked s.phases i has_read idle here in
    ((db, inl (told read_ok)), omega arith)
  where
    told : (b : Bool) → (if b then s.db_suspended else true) ≡ true
    told true = db
    told false = refl

pay-Goes :
    (eh : Handler) (s : System) (i : ℕ) (a : Answers)
    → IsHeld s
    → get_elem? s.phases i ≡ some checked
    → Goes s (process_pending_withdrawals eh a (at_phase i completing s))
pay-Goes eh s i a held here =
    let c = count-set is_checked s.phases i completing checked here in
    process_pending_withdrawals-Goes eh a s (at_phase i completing s) (kept held) (omega arith)
  where
    kept : IsHeld s → IsHeld (at_phase i completing s)
    kept (db, inl w) = (db, inl w)
    kept (db, inr n) =
        let c = count-set is_reader s.phases i completing checked here in (db, inr (omega arith))

step_in-Goes :
    (eh : ℕ → Handler) (e : Event) (s : System) (p : Phase)
    → IsHeld s
    → get_elem? s.phases (goroutine e) ≡ some p
    → Goes s (step_in eh e s p)
unfolding step_in
step_in-Goes eh (reads i ok) s idle held here = read-Goes s i ok held here
step_in-Goes eh (reads i ok) s has_read held here = stays-Goes s held
step_in-Goes eh (reads i ok) s checked held here = stays-Goes s held
step_in-Goes eh (reads i ok) s completing held here = stays-Goes s held
step_in-Goes eh (tests i) s idle held here = stays-Goes s held
step_in-Goes eh (tests i) s has_read held here =
    tests-Goes s i s.withdrawal_suspended refl held here
step_in-Goes eh (tests i) s checked held here = stays-Goes s held
step_in-Goes eh (tests i) s completing held here = stays-Goes s held
step_in-Goes eh (pays i a) s idle held here = stays-Goes s held
step_in-Goes eh (pays i a) s has_read held here = stays-Goes s held
step_in-Goes eh (pays i a) s checked held here = pay-Goes (eh i) s i a held here
step_in-Goes eh (pays i a) s completing held here = stays-Goes s held
step_in-Goes eh (completes i) s idle held here = stays-Goes s held
step_in-Goes eh (completes i) s has_read held here = stays-Goes s held
step_in-Goes eh (completes i) s checked held here = stays-Goes s held
step_in-Goes eh (completes i) s completing held here =
    completes-Goes s i s.withdrawal_suspended held here

step-Goes : (eh : ℕ → Handler) (e : Event) (s : System) → IsHeld s → Goes s (step eh e s)
unfolding step step_at
step-Goes eh e s held = alive s.crashed
  where
    at : (o : Option Phase) → get_elem? s.phases (goroutine e) ≡ o → Goes s (step_at eh e s o)
    at none here = stays-Goes s held
    at (some p) here = step_in-Goes eh e s p held here

    alive :
        (b : Bool)
        → Goes s (if b then (s, []) else step_at eh e s (get_elem? s.phases (goroutine e)))
    alive true = stays-Goes s held
    alive false = at (get_elem? s.phases (goroutine e)) refl

-- While the suspension is stored in Tarantool and no goroutine holds an answer from before it,
-- whatever the goroutines of the handlers do and in whichever order, the suspension stays, and they
-- update the pending withdrawals at most once for each goroutine that had passed its check before.
pub run-IsHeld :
    (eh : ℕ → Handler) (events : List Event) (s : System)
    → IsHeld s
    → IsHeld (run eh events s).0 × (updates (run eh events s).1 ≤ count is_checked s.phases)
unfolding run
run-IsHeld eh [] s held = (held, omega arith)
run-IsHeld eh (e ∷ events) s held =
    let one = step-Goes eh e s held in
    let more = run-IsHeld eh events (step eh e s).0 one.0 in
    let app = updates-append (step eh e s).1 (run eh events (step eh e s).0).1 in
    let le = one.1 in let le' = more.1 in (more.0, omega arith)
