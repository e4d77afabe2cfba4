-- ===== src/Api/Unstakes.antt =====
-- `ProcessUnstakes` of api/balance.go: a vault pays out its unstakes. The requests to Tarantool come
-- back as a log, its answers are arguments, and `defer` releases the lock.
use Prim.Native.String.{String}
use text.Mathlib.Text.{◌==◌ as str_eq}
use rabbit_dex_backend.Common.{
  ℕ, Bool, not, ◌||◌, Option, none, some, List, [], ◌∷◌, ◌++◌, map, ◌==◌, if◌then◌else◌,
}
use rabbit_dex_backend.Decimal.{Decimal, lt_dec}
use rabbit_dex_backend.Api.Balance.{Vault, vault_failed, nil_vault, profile}

-- A request of `process_unstakes` has the profile, its equity, its withdrawable balance, and the fee;
-- the range of ids, the treasurer and the total shares are passed on unread.
pub data Call (D : Type 0) : Type 0 where
  get_profile_by_wallet acquire_withdraw_lock release_withdraw_lock get_vault_info : Call D
  invalidate_cache : Call D
  process_unstakes : ℕ → D → D → D → Call D
  invalidate_cache_and_notify : ℕ → Call D

pub data Response : Type 0 where
  error : String → Response
  given_error success : Response

pub record VaultInfo (D : Type 0) : Type 0 where
  pub status_active : Bool
  pub performance_fee : D

-- The answer of `GetVaultInfo`: an error, nil, or the vault.
pub data Info (D : Type 0) : Type 0 where
  info_failed nil_info : Info D
  info : VaultInfo D → Info D

pub record Answers (D : Type 0) : Type 0 where
  pub bind_ok : Bool
  pub profile_id : ℕ
  pub vault_profile : Vault
  pub acquire_ok : Bool
  pub vault_info : Info D
  -- the equity and the withdrawable balance of the vault's cache
  pub vault_cache : Option (D × D)
  pub unstakers : Option (List ℕ)

pub record Program (D : Type 0) : Type 0 where
  pub calls : List (Call D)
  pub response : Response

module _ {D : Type 0} where
  abbrev pub respond : Response → Program D
  respond r = record { calls = []; response = r }

  abbrev pub request : Call D → Program D → Program D
  request c p = record p { calls = c ∷ p.calls }

  unfoldable pub notify_all : ℕ → Option (List ℕ) → Program D
  notify_all id none = respond (error "PROCESS_UNSTAKES_FAILED")
  notify_all id (some ids) = record {
    calls = invalidate_cache_and_notify id ∷ map (λ pid. invalidate_cache_and_notify pid) ids;
    response = success;
  }

module _ {D : Type 0} ⦃dec : Decimal D⦄ where
  open dec use {nil, of_cents, le_dec}

  abbrev pub is_wrong_fee : D → Bool
  is_wrong_fee fee = le_dec (of_cents 100) fee || lt_dec fee nil

  unfoldable pub pay_out : Answers D → ℕ → D → Option (D × D) → Program D
  pay_out a id fee none = respond (error "PROCESS_UNSTAKES_CACHE_ERROR")
  pay_out a id fee (some cache) =
      request (process_unstakes id cache.0 cache.1 fee) (notify_all id a.unstakers)

  unfoldable pub check_info : Answers D → ℕ → Info D → Program D
  check_info a id info_failed = respond (error "GET_VAULT_INFO_ERROR")
  check_info a id nil_info = respond (error "VAULT_PROFILE_NOT_FOUND")
  check_info a id (info v) =
      if not v.status_active
      then respond (error "VAULT_NOT_ACTIVE")
      else if is_wrong_fee v.performance_fee
      then respond (error "WRONG_PERFORMANCE_FEE")
      else request invalidate_cache (pay_out a id v.performance_fee a.vault_cache)

  -- The lock and its `defer`. That the release has failed is only logged, and left out.
  unfoldable pub with_lock : Bool → Program D → Program D
  with_lock acquire_ok body = request acquire_withdraw_lock (
      if acquire_ok
      then record body { calls = body.calls ++ (release_withdraw_lock ∷ []) }
      else respond (error "PROCESS_UNSTAKES_UNAVAILABLE_LOCK_ACQUIRE_ERROR"))

  unfoldable pub check_vault : Answers D → Vault → Program D
  check_vault a vault_failed = respond (error "GET_VAULT_PROFILE_ERROR")
  check_vault a nil_vault = respond (error "PROCESS_UNSTAKES_TARGET_IS_NOT_A_VAULT")
  check_vault a (profile id type) =
      if not (str_eq type "vault")
      then respond (error "PROCESS_UNSTAKES_TARGET_IS_NOT_A_VAULT")
      else if not (id == a.profile_id)
      then respond (error "NOT_VAULT_MANAGER")
      else with_lock a.acquire_ok (request get_vault_info (check_info a id a.vault_info))

  unfoldable pub process_unstakes_of : Answers D → Program D
  process_unstakes_of a =
      if not a.bind_ok
      then respond given_error
      else request get_profile_by_wallet (check_vault a a.vault_profile)
