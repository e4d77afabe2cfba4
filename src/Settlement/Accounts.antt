-- ===== src/Settlement/Accounts.antt =====
-- What the event handlers of Events make of the logs: the deposits' accounts and the completed
-- withdrawals.
use rabbit_dex_backend.Common.{
  ℕ, ◌+◌, ◌≡◌, ◌≢◌, refl, ap, Bool, true, false, not, ◌&&◌, Option, none, some, List, [], ◌∷◌, ◌++◌,
  arith, ◌==◌, if◌then◌else◌,
}
use rabbit_dex_backend.Decimal.Hundredths.{ℤ, pos, negsuc}
use rabbit_dex_backend.Settlement.Events.{
  Contracts, EventIds, Log, Api, Profile, profile, nil_profile, profile_not_found, lookup_failed,
  Call, process_deposit, process_deposit_unknown, process_stake, process_yield, invalidate_cache,
  invalidate_cache_and_notify, unpack_log, is_positive, is_deposit, uint64, address_of,
  deposit_handler, handle_logs, process_events, process_deposit_events,
}

-- The tokens of an amount.
abbrev pub tokens : ℤ → ℕ
tokens (pos n) = n
tokens (negsuc n) = 0

-- The tokens that a call credits, to a profile or to a wallet without one.
abbrev pub credited_by : Call → ℕ
credited_by (process_deposit _ _ _ amount _ _) = tokens amount
credited_by (process_deposit_unknown _ _ amount _) = tokens amount
credited_by (process_stake _ _ _ _ _) = 0
credited_by (process_yield _ _ _) = 0
credited_by (invalidate_cache _) = 0
credited_by (invalidate_cache_and_notify _) = 0

abbrev pub credited : List Call → ℕ
credited [] = 0
credited (call ∷ calls) = credited_by call + credited calls

credited-append :
    (calls more : List Call) → credited (calls ++ more) ≡ credited calls + credited more
credited-append [] more = omega arith
credited-append (call ∷ calls) more = omega (arith, credited-append calls more)

-- The contract's own event for a deposit that came in by the deposit pool, which has one too.
abbrev pub is_forwarded : Contracts → Log → Bool
is_forwarded c l = address_of l.topic2 == c.deposit_address && not (l.address == c.deposit_address)

-- The tokens that a log deposits.
abbrev claimed_of : Bool → Bool → ℤ → ℕ
claimed_of true positive amount = 0
claimed_of false false amount = 0
claimed_of false true amount = tokens amount

abbrev pub claimed_by : Contracts → Log → ℤ → ℕ
claimed_by c l amount = claimed_of (is_forwarded c l) (is_positive amount) amount

abbrev lost_of : Profile → ℕ → ℕ
lost_of (profile _ _) n = 0
lost_of nil_profile n = 0
lost_of profile_not_found n = 0
lost_of lookup_failed n = n

-- Its tokens, when the profile of its wallet could not be looked up.
abbrev pub lost_by : Contracts → Api → Log → ℤ → ℕ
lost_by c api l amount = lost_of (api.get_profile (address_of l.topic2)) (claimed_by c l amount)

abbrev sum_at : (Log → ℤ → ℕ) → Log → Option ℤ → ℕ
sum_at f l none = 0
sum_at f l (some v) = f l v

-- The sum over the logs that can be unpacked.
abbrev pub sum_of : (Log → Option ℤ) → (Log → ℤ → ℕ) → List Log → ℕ
sum_of unpack f [] = 0
sum_of unpack f (l ∷ logs) = sum_at f l (unpack l) + sum_of unpack f logs

-- The calls `calls`, and the tokens that they and the failed lookups account for.
abbrev Accounted : Option (List Call) → ℕ → ℕ → Type 0
Accounted o lost claimed =
    (calls : List Call) × (o ≡ some calls) × (credited calls + lost ≡ claimed)

deposit_handler-Accounted :
    (c : Contracts) (api : Api) (l : Log) (v : ℤ)
    → ((wallet : ℕ) → api.get_profile wallet ≢ nil_profile)
    → Accounted (deposit_handler c api l v) (lost_by c api l v) (claimed_by c l v)
unfolding deposit_handler
deposit_handler-Accounted c api l v answers =
    go (is_forwarded c l) (is_positive v) (api.get_profile (address_of l.topic2))
      (answers (address_of l.topic2))
  where
    go :
        (f p : Bool) (a : Profile)
        → a ≢ nil_profile
        → Accounted
            (if f then some [] else if not p then some [] else elim a as (λ x. Option (List Call)) [
              | profile id _ ↦ some (
                  process_deposit id
                    (uint64 l.topic1)
                    (address_of l.topic2)
                    v
                    l.tx_hash
                    (l.address == c.deposit_address && not (l.topic3 == 0))
                  ∷ invalidate_cache_and_notify id
                  ∷ [])
              | nil_profile ↦ none
              | profile_not_found ↦
                  some (
                    process_deposit_unknown (uint64 l.topic1) (address_of l.topic2) v l.tx_hash
                    ∷ [])
              | lookup_failed ↦ some []
            ])
            (lost_of a (claimed_of f p v))
            (claimed_of f p v)
    go true p (profile id t) n = ([], refl, refl)
    go true p nil_profile n = absurd (n refl)
    go true p profile_not_found n = ([], refl, refl)
    go true p lookup_failed n = ([], refl, refl)
    go false false (profile id t) n = ([], refl, refl)
    go false false nil_profile n = absurd (n refl)
    go false false profile_not_found n = ([], refl, refl)
    go false false lookup_failed n = ([], refl, refl)
    go false true (profile id t) n = (_, refl, omega arith)
    go false true nil_profile n = absurd (n refl)
    go false true profile_not_found n = (_, refl, omega arith)
    go false true lookup_failed n = ([], refl, omega arith)

abbrev credited_or_none : Option (List Call) → ℕ
credited_or_none none = 0
credited_or_none (some calls) = credited calls

abbrev with_success : Option (List Call) → Option (Bool × List Call)
with_success none = none
with_success (some calls) = some (true, calls)

-- The loop over the logs adds up what its steps account for.
handle_logs-Accounted :
    (unpack : Log → Option ℤ) (handler : Log → ℤ → Option (List Call)) (lost claimed : Log → ℤ → ℕ)
    → ((l : Log) (v : ℤ) → Accounted (handler l v) (lost l v) (claimed l v))
    → (logs : List Log)
    → Accounted
        (handle_logs unpack handler logs)
        (sum_of unpack lost logs)
        (sum_of unpack claimed logs)
unfolding handle_logs
handle_logs-Accounted unpack handler lost claimed step [] = ([], refl, refl)
handle_logs-Accounted unpack handler lost claimed step (l ∷ logs) =
    go (unpack l) (handle_logs unpack handler logs)
      (handle_logs-Accounted unpack handler lost claimed step logs)
  where
    both :
        (o r : Option (List Call)) (a b m n : ℕ)
        → Accounted o a m
        → Accounted r b n
        → Accounted
            (elim o as (λ x. Option (List Call)) [
              | none ↦ none
              | some calls ↦ elim r as (λ x. Option (List Call)) [
                | none ↦ none
                | some more ↦ some (calls ++ more)
              ]
            ])
            (a + b)
            (m + n)
    both none r a b m n (calls, e, s) t = absurd (let e' = e in cc)
    both (some x) none a b m n h (more, e, s) = absurd (let e' = e in cc)
    both (some x) (some y) a b m n (calls, e, s) (more, e', s') = (
      x ++ y,
      refl,
      let app = credited-append x y in
          let ex : credited x ≡ credited calls = ap credited_or_none e in
          let ey : credited y ≡ credited more = ap credited_or_none e' in omega arith,
    )

    go :
        (o : Option ℤ) (r : Option (List Call))
        → Accounted r (sum_of unpack lost logs) (sum_of unpack claimed logs)
        → Accounted
            (elim o as (λ x. Option (List Call)) [
              | none ↦ r
              | some v ↦ elim (handler l v) as (λ x. Option (List Call)) [
                | none ↦ none
                | some calls ↦ elim r as (λ x. Option (List Call)) [
                  | none ↦ none
                  | some more ↦ some (calls ++ more)
                ]
              ]
            ])
            (sum_at lost l o + sum_of unpack lost logs)
            (sum_at claimed l o + sum_of unpack claimed logs)
    go none r (calls, e, s) = (calls, e, omega arith)
    go (some v) r h =
        both (handler l v) r (lost l v) (sum_of unpack lost logs) (claimed l v)
          (sum_of unpack claimed logs) (step l v) h

-- Where every lookup of a profile gives a profile or an error, `processDepositEvents` succeeds on
-- the logs that it has read, and the tokens that its calls credit are those that the logs deposit,
-- less those of the wallets whose lookup failed with another error than that there is no profile.
pub process_deposit_events-accounted :
    (c : Contracts) (ids : EventIds) (api : Api) (logs : List Log)
    → ((wallet : ℕ) → api.get_profile wallet ≢ nil_profile)
    → (calls : List Call) × (process_deposit_events c ids api (some logs) ≡ some (true, calls))
      × (credited calls + sum_of (unpack_log c api (is_deposit ids)) (lost_by c api) logs
          ≡ sum_of (unpack_log c api (is_deposit ids)) (claimed_by c) logs)
unfolding process_deposit_events process_events
process_deposit_events-accounted c ids api logs answers = go _ _ _ (
    handle_logs-Accounted (unpack_log c api (is_deposit ids)) (deposit_handler c api)
      (lost_by c api) (claimed_by c) (λ l v. deposit_handler-Accounted c api l v answers) logs)
  where
    go :
        (o : Option (List Call)) (lost claimed : ℕ)
        → Accounted o lost claimed
        → (calls : List Call) × (elim o as (λ x. Option (Bool × List Call)) [
          | none ↦ none
          | some calls ↦ some (true, calls)
        ]
            ≡ some (true, calls))
          × (credited calls + lost ≡ claimed)
    go none lost claimed (calls, e, s) = absurd (let e' = e in cc)
    go (some x) lost claimed (calls, e, s) = (calls, ap with_success e, s)
