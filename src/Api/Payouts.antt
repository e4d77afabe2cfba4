-- ===== src/Api/Payouts.antt =====
-- What a vault is paid out on in Unstakes.
use Prim.Native.String.{String}
use text.Mathlib.Text.{◌==◌ as str_eq}
use rabbit_dex_backend.Common.{
  ℕ, ◌≡◌, refl, Bool, true, false, not, ◌||◌, Option, none, some, List, [], ◌∷◌, map, ◌==◌,
  if◌then◌else◌, All, All-append,
}
use rabbit_dex_backend.Decimal.{Decimal}
use rabbit_dex_backend.Api.Balance.{Vault, vault_failed, nil_vault, profile}
use rabbit_dex_backend.Api.Unstakes.{
  Call, get_profile_by_wallet, acquire_withdraw_lock, release_withdraw_lock, get_vault_info,
  invalidate_cache, process_unstakes, invalidate_cache_and_notify, error, given_error, VaultInfo,
  Info, info_failed, nil_info, info, Answers, Program, respond, request, notify_all, pay_out,
  check_info, with_lock, check_vault, process_unstakes_of,
}

module _ {D : Type 0} where
  -- A predicate on a payout; it holds of every other request.
  abbrev pub OfPayout : (ℕ → D → D → D → Type 0) → Call D → Type 0
  OfPayout P get_profile_by_wallet = Unit
  OfPayout P acquire_withdraw_lock = Unit
  OfPayout P release_withdraw_lock = Unit
  OfPayout P get_vault_info = Unit
  OfPayout P invalidate_cache = Unit
  OfPayout P (process_unstakes id equity withdrawable fee) = P id equity withdrawable fee
  OfPayout P (invalidate_cache_and_notify _) = Unit

  abbrev Made : (ℕ → D → D → D → Type 0) → Program D → Type 0
  Made P p = All (OfPayout P) p.calls

  notified :
      (P : ℕ → D → D → D → Type 0) (ids : List ℕ)
      → All (OfPayout P) (map (λ pid. invalidate_cache_and_notify pid) ids)
  notified P [] = tt
  notified P (id ∷ ids) = (tt, notified P ids)

  notify_all-Made :
      (P : ℕ → D → D → D → Type 0) (id : ℕ) (o : Option (List ℕ)) → Made P (notify_all id o)
  unfolding notify_all
  notify_all-Made P id none = tt
  notify_all-Made P id (some ids) = (tt, notified P ids)

module _ {D : Type 0} ⦃dec : Decimal D⦄ where
  open dec use {nil, of_cents, le_dec}

  -- The payout is of the caller's own profile, which is an active vault's, on the equity and the
  -- withdrawable balance of its cache, with the vault's fee, which is not below 0 and below 1.
  abbrev pub IsDue : Answers D → ℕ → D → D → D → Type 0
  IsDue a id equity withdrawable fee =
      (v : VaultInfo D) × (type : String) × (a.vault_profile ≡ profile id type)
      × (str_eq type "vault" ≡ true)
      × ((id == a.profile_id) ≡ true)
      × (a.vault_info ≡ info v)
      × (v.status_active ≡ true)
      × (v.performance_fee ≡ fee)
      × (le_dec (of_cents 100) fee ≡ false)
      × (le_dec nil fee ≡ true)
      × (a.vault_cache ≡ some (equity, withdrawable))

  pay_out-Made :
      (P : ℕ → D → D → D → Type 0) (a : Answers D) (id : ℕ) (fee : D) (o : Option (D × D))
      → a.vault_cache ≡ o
      → ((equity withdrawable : D)
          → a.vault_cache ≡ some (equity, withdrawable)
          → P id equity withdrawable fee)
      → Made P (pay_out a id fee o)
  unfolding pay_out
  pay_out-Made P a id fee none e h = tt
  pay_out-Made P a id fee (some cache) e h = (h cache.0 cache.1 e, notify_all-Made P id a.unstakers)

  check_info-Made :
      (a : Answers D) (id : ℕ) (type : String)
      → a.vault_profile ≡ profile id type
      → str_eq type "vault" ≡ true
      → (id == a.profile_id) ≡ true
      → (o : Info D) → a.vault_info ≡ o
      → Made (IsDue a) (check_info a id o)
  unfolding check_info
  check_info-Made a id type p t i info_failed e = tt
  check_info-Made a id type p t i nil_info e = tt
  check_info-Made a id type p t i (info v) e =
      go v.status_active (le_dec (of_cents 100) v.performance_fee) (le_dec nil v.performance_fee)
        refl refl refl
    where
      paid : Program D
      paid = request invalidate_cache (pay_out a id v.performance_fee a.vault_cache)

      go :
          (s x y : Bool)
          → v.status_active ≡ s
          → le_dec (of_cents 100) v.performance_fee ≡ x
          → le_dec nil v.performance_fee ≡ y
          → Made (IsDue a) (
              if not s
              then respond (error "VAULT_NOT_ACTIVE")
              else if x || not y
              then respond (error "WRONG_PERFORMANCE_FEE")
              else paid)
      go false x y k l m = tt
      go true true y k l m = tt
      go true false false k l m = tt
      go true false true k l m = (
        tt,
        pay_out-Made (IsDue a) a id v.performance_fee a.vault_cache refl
            (λ equity withdrawable c. (v, type, p, t, i, e, k, refl, l, m, c)),
      )

  -- Whatever Tarantool answers, `ProcessUnstakes` asks for a payout only of the caller's own profile,
  -- which is an active vault's, on the equity and the withdrawable balance of its cache and with
  -- the vault's performance fee, which is not below 0 and below 1.
  pub process_unstakes_of-IsDue :
      (a : Answers D) → All (OfPayout (IsDue a)) (process_unstakes_of a).calls
  unfolding process_unstakes_of check_vault with_lock
  process_unstakes_of-IsDue a = bound a.bind_ok
    where
      body : ℕ → Program D
      body id = request get_vault_info (check_info a id a.vault_info)

      locked :
          (b : Bool) (id : ℕ) → Made (IsDue a) (body id) → Made (IsDue a) (with_lock b (body id))
      locked true id h = (
        tt,
        All-append (OfPayout (IsDue a)) (body id).calls (release_withdraw_lock ∷ []) h (tt, tt),
      )
      locked false id h = (tt, tt)

      own :
          (id : ℕ) (type : String) (t i : Bool)
          → a.vault_profile ≡ profile id type
          → str_eq type "vault" ≡ t
          → (id == a.profile_id) ≡ i
          → Made (IsDue a) (
              if not t
              then respond (error "PROCESS_UNSTAKES_TARGET_IS_NOT_A_VAULT")
              else if not i
              then respond (error "NOT_VAULT_MANAGER")
              else with_lock a.acquire_ok (body id))
      own id type false i e k l = tt
      own id type true false e k l = tt
      own id type true true e k l =
          locked a.acquire_ok id (tt, check_info-Made a id type e k l a.vault_info refl)

      vault : (o : Vault) → a.vault_profile ≡ o → Made (IsDue a) (check_vault a o)
      vault vault_failed e = tt
      vault nil_vault e = tt
      vault (profile id type) e = own id type (str_eq type "vault") (id == a.profile_id) e refl refl

      bound :
          (b : Bool)
          → Made (IsDue a) (
              if not b
              then respond given_error
              else request get_profile_by_wallet (check_vault a a.vault_profile))
      bound true = (tt, vault a.vault_profile refl)
      bound false = tt
