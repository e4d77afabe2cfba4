-- ===== src/Api/Locks.antt =====
-- The withdrawal lock of the handlers of Balance.
use Prim.Native.String.{String}
use rabbit_dex_backend.Common.{
  ◌≡◌, refl, Bool, true, false, not, ◌&&◌, ◌∙◌, Option, none, some, List, [], ◌∷◌, ◌++◌,
  if◌then◌else◌, All,
}
use rabbit_dex_backend.Api.Balance.{
  Call, acquire_withdraw_lock, release_withdraw_lock, check_withdraw_allowed, invalidate_cache,
  invalidate_cache_and_notify, cached_is_inv3_valid, get_profile_by_wallet, create_withdrawal,
  cancel_withdrawal, cancel_unstake, get_claim_withdrawal_response, process_stake, error,
  given_error, success, Program, Cache, cache_failed, nil_cache, cache, Answers, respond, with_lock,
  notify, check_inv3,
}

-- The lock of the profile in a request: not asked for yet, held, over since it was refused or
-- released, or stuck: held although its release was asked for.
pub data Lock : Type 0 where
  free held over stuck : Lock

module _ {D : Type 0} where
  -- A request other than those for the lock.
  abbrev pub is_inside : Call D → Bool
  is_inside acquire_withdraw_lock = false
  is_inside release_withdraw_lock = false
  is_inside check_withdraw_allowed = true
  is_inside invalidate_cache = true
  is_inside invalidate_cache_and_notify = true
  is_inside cached_is_inv3_valid = true
  is_inside get_profile_by_wallet = true
  is_inside (create_withdrawal _) = true
  is_inside (cancel_withdrawal _) = true
  is_inside (cancel_unstake _) = true
  is_inside (get_claim_withdrawal_response _) = true
  is_inside (process_stake _ _ _) = true

  abbrev allows : Lock → Call D → Bool
  allows free acquire_withdraw_lock = true
  allows free c = false
  allows held acquire_withdraw_lock = false
  allows held c = true
  allows over c = false
  allows stuck c = false

  abbrev next_lock : Bool → Bool → Lock → Call D → Lock
  next_lock acquired released lock acquire_withdraw_lock = if acquired then held else over
  next_lock acquired released lock release_withdraw_lock = if released then over else stuck
  next_lock acquired released lock c = lock

  -- The requests follow the lock: its acquisition is asked for first and once, something else only
  -- while it is held, and once acquired its release is asked for, behind which nothing is. `logged` is
  -- whether a failed release is logged, which is so exactly when the lock stays `stuck`.
  abbrev follows : Bool → Bool → Bool → Lock → List (Call D) → Bool
  follows acquired released logged free [] = not logged
  follows acquired released logged held [] = false
  follows acquired released logged over [] = not logged
  follows acquired released logged stuck [] = logged
  follows acquired released logged lock (c ∷ calls) =
      allows lock c && follows acquired released logged (next_lock acquired released lock c) calls

  -- A program of a handler follows the lock, with the answers to its acquisition and its release.
  abbrev pub is_locked : Bool → Bool → Program D → Bool
  is_locked acquired released p = follows acquired released p.is_release_logged free p.calls

  abbrev pub IsInside : Program D → Type 0
  IsInside p = All (λ c. is_inside c ≡ true) p.calls

  inside_first :
      (c : Call D) (acquired released logged : Bool) (calls : List (Call D))
      → is_inside c ≡ true
      → follows acquired released logged held (c ∷ calls)
        ≡ follows acquired released logged held calls
  inside_first acquire_withdraw_lock acquired released logged calls e = absurd (let x = e in cc)
  inside_first release_withdraw_lock acquired released logged calls e = absurd (let x = e in cc)
  inside_first check_withdraw_allowed acquired released logged calls e = refl
  inside_first invalidate_cache acquired released logged calls e = refl
  inside_first invalidate_cache_and_notify acquired released logged calls e = refl
  inside_first cached_is_inv3_valid acquired released logged calls e = refl
  inside_first get_profile_by_wallet acquired released logged calls e = refl
  inside_first (create_withdrawal _) acquired released logged calls e = refl
  inside_first (cancel_withdrawal _) acquired released logged calls e = refl
  inside_first (cancel_unstake _) acquired released logged calls e = refl
  inside_first (get_claim_withdrawal_response _) acquired released logged calls e = refl
  inside_first (process_stake _ _ _) acquired released logged calls e = refl

  released_last :
      (acquired released : Bool) (calls : List (Call D))
      → All (λ c. is_inside c ≡ true) calls
      → follows acquired released (not released) held (calls ++ (release_withdraw_lock ∷ [])) ≡ true
  released_last acquired true [] h = refl
  released_last acquired false [] h = refl
  released_last acquired released (c ∷ calls) h =
      inside_first c acquired released (not released) (calls ++ (release_withdraw_lock ∷ [])) h.0
      ∙ released_last acquired released calls h.1

  pub with_lock-is_locked :
      (acquired released : Bool) (locked : String) (body : Program D)
      → IsInside body
      → is_locked acquired released (with_lock acquired released locked body) ≡ true
  unfolding with_lock
  with_lock-is_locked true released locked body h = released_last true released body.calls h
  with_lock-is_locked false released locked body h = refl

  -- A handler that refuses a request that it cannot read, or takes the lock.
  pub bound-is_locked :
      (b acquired released : Bool) (locked : String) (body : Program D)
      → IsInside body
      → is_locked acquired released
          (if not b then respond given_error else with_lock acquired released locked body)
        ≡ true
  bound-is_locked true acquired released locked body h =
      with_lock-is_locked acquired released locked body h
  bound-is_locked false acquired released locked body h = refl

  pub if-IsInside :
      (b : Bool) (p q : Program D) → IsInside p → IsInside q → IsInside (if b then p else q)
  if-IsInside true p q h k = h
  if-IsInside false p q h k = k

  pub cache-IsInside :
      (o : Cache D) (p q : Program D) (f : D → Program D)
      → IsInside p
      → IsInside q
      → ((balance : D) → IsInside (f balance))
      → IsInside (elim o as (λ x. Program D) [
        | cache_failed ↦ p
        | nil_cache ↦ q
        | cache balance ↦ f balance
      ])
  cache-IsInside cache_failed p q f h k l = h
  cache-IsInside nil_cache p q f h k l = k
  cache-IsInside (cache balance) p q f h k l = l balance

  pub notify-IsInside : (a : Answers D) (failed : String) → IsInside (notify a failed)
  unfolding notify
  notify-IsInside a failed =
      (refl, if-IsInside a.notify_ok (respond success) (respond (error failed)) tt tt)

  pub check_inv3-IsInside :
      (a : Answers D) (body : Program D) → IsInside body → IsInside (check_inv3 a body)
  unfolding check_inv3
  check_inv3-IsInside a body h = (refl, go a.inv3_valid)
    where
      go :
          (o : Option Bool)
          → IsInside (elim o as (λ x. Program D) [
            | none ↦ respond given_error
            | some valid ↦ if valid then body else respond (error "INV3_BROKEN")
          ])
      go none = tt
      go (some valid) = if-IsInside valid body (respond (error "INV3_BROKEN")) h tt
