-- ===== src/Auth/Onboard.antt =====
-- auth/onboard_frontend.go and auth/onboard_market_maker.go: how a wallet signs in. The requests to
-- Tarantool come back as a log, and its answers are arguments; a secret and a token are numbers.
use rabbit_dex_backend.Common.{
  ℕ, Bool, true, false, Option, none, some, List, [], ◌∷◌, if◌then◌else◌,
}
use rabbit_dex_backend.Auth.{MetamaskVerifyRequest, Crypto, Vaults, Error, verify_profile}

-- `TRADER_ROLE`
abbrev pub trader_role : ℕ
trader_role = 1

-- The answer of `GetProfileByWalletForExchangeId`: a profile, `PROFILE_NOT_FOUND_ERROR`, or another
-- error.
pub data Lookup : Type 0 where
  found : ℕ → Lookup
  profile_not_found lookup_failed : Lookup

pub data Call : Type 0 where
  get_profile create_profile : Call
  create_frontend_secret get_or_refresh_secret : ℕ → Call
  generate_jwt get_profile_data : ℕ → Call

-- `none` is an error of Tarantool; `secrets` is what `GetOrRefreshSecretByProfileID` lists.
pub record Answers : Type 0 where
  pub lookup : Lookup
  pub created : Option ℕ
  pub frontend_secret : ℕ → Option ℕ
  pub secrets : ℕ → Option (List ℕ)
  pub jwt : ℕ → Option ℕ
  pub profile_data_ok : Bool

pub data Failure : Type 0 where
  not_verified : Error → Failure
  tarantool_failed secret_generate_error : Failure

pub record Session : Type 0 where
  pub profile_id : ℕ
  pub secret : ℕ
  pub new_profile : Bool

pub data Outcome : Type 0 where
  session : Session → Outcome
  failure : Failure → Outcome

pub record Onboarded : Type 0 where
  pub calls : List Call
  pub outcome : Outcome

abbrev pub fails : Failure → Onboarded
fails f = record { calls = []; outcome = failure f }

abbrev pub after : Call → Onboarded → Onboarded
after c o = record o { calls = c ∷ o.calls }

-- The end of both: the data of the profile.
unfoldable pub with_data : Answers → Session → Onboarded
with_data a s = after (get_profile_data s.profile_id) (
    if a.profile_data_ok
    then record { calls = []; outcome = session s }
    else fails tarantool_failed)

unfoldable pub frontend_secret_of : Answers → ℕ → Bool → Onboarded
frontend_secret_of a id new_profile =
    after (create_frontend_secret id) (elim (a.frontend_secret id) [
      | none ↦ fails tarantool_failed
      | some s ↦ with_data a (record { profile_id = id; secret = s; new_profile = new_profile })
    ])

unfoldable pub first_secret : Answers → ℕ → Bool → List ℕ → Onboarded
first_secret a id new_profile [] = fails secret_generate_error
first_secret a id new_profile (s ∷ secrets) = after (generate_jwt id) (elim (a.jwt id) [
  | none ↦ fails tarantool_failed
  | some _ ↦ with_data a (record { profile_id = id; secret = s; new_profile = new_profile })
])

unfoldable pub api_secret_of : Answers → ℕ → Bool → Onboarded
api_secret_of a id new_profile = after (get_or_refresh_secret id) (elim (a.secrets id) [
  | none ↦ fails tarantool_failed
  | some secrets ↦ first_secret a id new_profile secrets
])

-- The profile of the wallet, or a new one, and what follows.
unfoldable pub with_profile : Answers → (ℕ → Bool → Onboarded) → Onboarded
with_profile a rest = after get_profile (elim a.lookup [
  | found id ↦ rest id false
  | profile_not_found ↦
      after create_profile
        (elim a.created [ none ↦ fails tarantool_failed | some id ↦ rest id true ])
  | lookup_failed ↦ fails tarantool_failed
])

unfoldable pub verified : Option Error → Onboarded → Onboarded
verified none o = o
verified (some e) o = fails (not_verified e)

unfoldable pub onboard_frontend :
    Crypto → Vaults → ℕ → MetamaskVerifyRequest → List (List ℕ) → Answers → Onboarded
onboard_frontend c v now r messages a =
    verified (verify_profile c v now r trader_role messages) (with_profile a (frontend_secret_of a))

unfoldable pub onboard_market_maker :
    Crypto → Vaults → ℕ → MetamaskVerifyRequest → List (List ℕ) → Answers → Onboarded
onboard_market_maker c v now r messages a =
    verified (verify_profile c v now r trader_role messages) (with_profile a (api_secret_of a))
