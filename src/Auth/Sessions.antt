-- ===== src/Auth/Sessions.antt =====
-- Who may sign in, and into which profile.
use rabbit_dex_backend.Common.{
  ℕ, ◌≡◌, refl, inl, Bool, true, false, ◌||◌, Option, none, some, List, [], ◌∷◌, ltb, if◌then◌else◌,
  In,
}
use rabbit_dex_backend.Auth.{MetamaskVerifyRequest, Crypto, Vaults, Error, verify_profile}
use rabbit_dex_backend.Auth.Accepted.{signs_one, is_empty, verify_profile-none}
use rabbit_dex_backend.Auth.Onboard.{
  trader_role, Lookup, found, profile_not_found, lookup_failed, create_profile, Answers,
  tarantool_failed, Session, Outcome, session, failure, Onboarded, fails, after, with_data,
  frontend_secret_of, first_secret, api_secret_of, with_profile, verified, onboard_frontend,
  onboard_market_maker,
}

-- The profile that the answers give: that of the wallet, or the new one where there is none.
abbrev pub ProfileIn : Answers → Bool → ℕ → Type 0
ProfileIn a false id = a.lookup ≡ found id
ProfileIn a true id = (a.lookup ≡ profile_not_found) × (a.created ≡ some id)

-- What holds of the session, if there is one.
abbrev pub Only : (Session → Type 0) → Outcome → Type 0
Only P (session s) = P s
Only P (failure f) = Unit

with_data-Only :
    (P : Session → Type 0) (a : Answers) (s : Session) → P s → Only P (with_data a s).outcome
unfolding with_data
with_data-Only P a s h = go a.profile_data_ok
  where
    go :
        (b : Bool)
        → Only P
            (if b
              then record { calls = []; outcome = session s }
              else fails tarantool_failed).outcome
    go true = h
    go false = tt

frontend_secret_of-Only :
    (P : Session → Type 0) (a : Answers) (id : ℕ) (b : Bool)
    → ((secret : ℕ)
        → a.frontend_secret id ≡ some secret
        → P (record { profile_id = id; secret = secret; new_profile = b }))
    → Only P (frontend_secret_of a id b).outcome
unfolding frontend_secret_of
frontend_secret_of-Only P a id b h = go (a.frontend_secret id) refl
  where
    go :
        (o : Option ℕ)
        → a.frontend_secret id ≡ o
        → Only P
            (elim o as (λ x. Onboarded) [
              | none ↦ fails tarantool_failed
              | some s ↦ with_data a (record { profile_id = id; secret = s; new_profile = b })
            ]).outcome
    go none e = tt
    go (some s) e =
        with_data-Only P a (record { profile_id = id; secret = s; new_profile = b }) (h s e)

first_secret-Only :
    (P : Session → Type 0) (a : Answers) (id : ℕ) (b : Bool) (secrets : List ℕ)
    → ((secret : ℕ)
        → In secret secrets
        → P (record { profile_id = id; secret = secret; new_profile = b }))
    → Only P (first_secret a id b secrets).outcome
unfolding first_secret
first_secret-Only P a id b [] h = tt
first_secret-Only P a id b (s ∷ secrets) h = go (a.jwt id)
  where
    go :
        (o : Option ℕ)
        → Only P
            (elim o as (λ x. Onboarded) [
              | none ↦ fails tarantool_failed
              | some _ ↦ with_data a (record { profile_id = id; secret = s; new_profile = b })
            ]).outcome
    go none = tt
    go (some t) =
        with_data-Only P a (record { profile_id = id; secret = s; new_profile = b })
          (h s (inl refl))

-- A secret that Tarantool lists for a profile.
abbrev pub IsListed : Answers → ℕ → ℕ → Type 0
IsListed a id secret = (secrets : List ℕ) × (a.secrets id ≡ some secrets) × In secret secrets

api_secret_of-Only :
    (P : Session → Type 0) (a : Answers) (id : ℕ) (b : Bool)
    → ((secret : ℕ)
        → IsListed a id secret
        → P (record { profile_id = id; secret = secret; new_profile = b }))
    → Only P (api_secret_of a id b).outcome
unfolding api_secret_of
api_secret_of-Only P a id b h = go (a.secrets id) refl
  where
    go :
        (o : Option (List ℕ))
        → a.secrets id ≡ o
        → Only P
            (elim o as (λ x. Onboarded) [
              | none ↦ fails tarantool_failed
              | some secrets ↦ first_secret a id b secrets
            ]).outcome
    go none e = tt
    go (some secrets) e = first_secret-Only P a id b secrets (λ secret i. h secret (secrets, e, i))

with_profile-Only :
    (P : Session → Type 0) (a : Answers) (rest : ℕ → Bool → Onboarded)
    → ((id : ℕ) (b : Bool) → ProfileIn a b id → Only P (rest id b).outcome)
    → Only P (with_profile a rest).outcome
unfolding with_profile
with_profile-Only P a rest h = go a.lookup refl
  where
    made :
        (o : Option ℕ)
        → a.lookup ≡ profile_not_found
        → a.created ≡ o
        → Only P
            (elim o as (λ x. Onboarded) [
              | none ↦ fails tarantool_failed
              | some id ↦ rest id true
            ]).outcome
    made none e e' = tt
    made (some id) e e' = h id true (e, e')

    go :
        (o : Lookup)
        → a.lookup ≡ o
        → Only P
            (elim o as (λ x. Onboarded) [
              | found id ↦ rest id false
              | profile_not_found ↦
                  after create_profile
                    (elim a.created [ none ↦ fails tarantool_failed | some id ↦ rest id true ])
              | lookup_failed ↦ fails tarantool_failed
            ]).outcome
    go (found id) e = h id false e
    go profile_not_found e = made a.created e refl
    go lookup_failed e = tt

-- The request has not expired, and its signature is one of the wallet's for one of the messages.
abbrev pub IsAuthentic : Crypto → Vaults → ℕ → MetamaskVerifyRequest → List (List ℕ) → Type 0
IsAuthentic c v now r messages =
    (ltb now r.timestamp ≡ true)
    × ((is_empty messages || signs_one c v r trader_role messages) ≡ true)

verified-Only :
    (P : Session → Type 0) (c : Crypto) (v : Vaults) (now : ℕ) (r : MetamaskVerifyRequest)
    (messages : List (List ℕ)) (o : Onboarded)
    → (IsAuthentic c v now r messages → Only P o.outcome)
    → Only P (verified (verify_profile c v now r trader_role messages) o).outcome
unfolding verified
verified-Only P c v now r messages o h =
    go (verify_profile c v now r trader_role messages)
      (λ e. h (verify_profile-none c v r trader_role now messages e))
  where
    go : (e : Option Error) → (e ≡ none → Only P o.outcome) → Only P (verified e o).outcome
    go none k = k refl
    go (some e) k = tt

-- Both ways to sign in give a session only if the request has not expired and its signature is one
-- of the wallet's for one of the messages (or there are none). The session is in the wallet's
-- profile, or in a new one where the wallet has none and then it says so, and its secret is one
-- that Tarantool gave for that profile.
pub onboard-IsAuthentic :
    (c : Crypto) (v : Vaults) (now : ℕ) (r : MetamaskVerifyRequest) (messages : List (List ℕ))
    (a : Answers)
    → Only
        (λ s.
          IsAuthentic c v now r messages
          × ProfileIn a s.new_profile s.profile_id
          × (a.frontend_secret s.profile_id ≡ some s.secret))
        (onboard_frontend c v now r messages a).outcome
      × Only
          (λ s.
            IsAuthentic c v now r messages
            × ProfileIn a s.new_profile s.profile_id
            × IsListed a s.profile_id s.secret)
          (onboard_market_maker c v now r messages a).outcome
unfolding onboard_frontend onboard_market_maker
onboard-IsAuthentic c v now r messages a = (
  verified-Only F c v now r messages (with_profile a (frontend_secret_of a)) (λ h.
      with_profile-Only F a (frontend_secret_of a)
        (λ id b p. frontend_secret_of-Only F a id b (λ secret e. (h, p, e)))),
  verified-Only M c v now r messages (with_profile a (api_secret_of a)) (λ h.
      with_profile-Only M a (api_secret_of a)
        (λ id b p. api_secret_of-Only M a id b (λ secret l. (h, p, l)))),
)
  where
    F : Session → Type 0
    F s =
        IsAuthentic c v now r messages
        × ProfileIn a s.new_profile s.profile_id
        × (a.frontend_secret s.profile_id ≡ some s.secret)

    M : Session → Type 0
    M s =
        IsAuthentic c v now r messages
        × ProfileIn a s.new_profile s.profile_id
        × IsListed a s.profile_id s.secret
