-- ===== src/Auth/Accepted.antt =====
-- When `VerifyProfile` accepts a signature, and with which error it refuses one.
use text.Mathlib.Text.{◌==◌ as str_eq}
use rabbit_dex_backend.Common.{
  ℕ, ◌≡◌, refl, sym, ap, ◌∙◌, ◌⊎◌, inl, inr, Bool, true, false, not, ◌&&◌, ◌||◌, Option, none, some,
  List, [], ◌∷◌, leb, ltb, ◌==◌, arith, if◌then◌else◌, Bool-cases,
}
use rabbit_dex_backend.Auth.{
  SignatureType, eip_712, eip_191, MetamaskVerifyRequest, Crypto, Vaults, Error, expired_signature,
  no_broker, not_valid_signer, invalid_metamask_signature, Recovered, recovered, failed,
  recover_signer, check_wallet, check_signer, Tried, succeeded, tried, first, try_types,
  try_messages, verify_profile,
}

-- The two attempts at a message.
abbrev attempt : Option Error → Option Error → Option Error → Tried
attempt none b first_err = succeeded
attempt (some e) none first_err = succeeded
attempt (some e) (some f) first_err = tried (first (first first_err e) f)

try_types-attempt :
    (check : List ℕ → SignatureType → Option Error) (message : List ℕ) (first_err : Option Error)
    → try_types check message (eip_712 ∷ eip_191 ∷ []) first_err
      ≡ attempt (check message eip_712) (check message eip_191) first_err
unfolding try_types
try_types-attempt check message first_err = go (check message eip_712) (check message eip_191)
  where
    go :
        (a b : Option Error)
        → (elim a as (λ x. Tried) [
          | none ↦ succeeded
          | some e ↦ elim b as (λ x. Tried) [
            | none ↦ succeeded
            | some f ↦ tried (first (first first_err e) f)
          ]
        ])
          ≡ attempt a b first_err
    go none b = refl
    go (some e) none = refl
    go (some e) (some f) = refl

go_on : (List (List ℕ)) → (List ℕ → SignatureType → Option Error) → Tried → Option Error
unfolding try_messages
go_on messages check succeeded = none
go_on messages check (tried e) = try_messages check messages e

try_messages-cons :
    (check : List ℕ → SignatureType → Option Error) (message : List ℕ) (messages : List (List ℕ))
    (first_err : Option Error)
    → try_messages check (message ∷ messages) first_err
      ≡ go_on messages check (attempt (check message eip_712) (check message eip_191) first_err)
unfolding try_messages go_on
try_messages-cons check message messages first_err =
    same (try_types check message (eip_712 ∷ eip_191 ∷ []) first_err)
    ∙ ap (go_on messages check) (try_types-attempt check message first_err)
  where
    same :
        (t : Tried)
        → (elim t as (λ x. Option Error) [
          | succeeded ↦ none
          | tried e ↦ try_messages check messages e
        ])
          ≡ go_on messages check t
    same succeeded = refl
    same (tried e) = refl

abbrev pub is_none : Option Error → Bool
is_none none = true
is_none (some e) = false

-- The wallet recovered from a signature may sign: for a vault as one of its signers, else as itself.
abbrev pub may_sign : Vaults → MetamaskVerifyRequest → ℕ → ℕ → Bool
may_sign v r role wallet =
    str_eq r.profile_type "vault" && v.broker_ok && v.is_valid_signer r.wallet wallet role
    || not (str_eq r.profile_type "vault") && r.wallet == wallet

abbrev may_sign_as : Vaults → MetamaskVerifyRequest → ℕ → Recovered → Bool
may_sign_as v r role (recovered wallet) = may_sign v r role wallet
may_sign_as v r role (failed e) = false

-- The signature is one of the message, of that type.
abbrev pub signs : Crypto → Vaults → MetamaskVerifyRequest → ℕ → List ℕ → SignatureType → Bool
signs c v r role message type =
    may_sign_as v r role (recover_signer c r.signature message r.timestamp type)

abbrev pub signs_one : Crypto → Vaults → MetamaskVerifyRequest → ℕ → List (List ℕ) → Bool
signs_one c v r role [] = false
signs_one c v r role (message ∷ messages) =
    signs c v r role message eip_712
    || signs c v r role message eip_191
    || signs_one c v r role messages

abbrev pub is_empty : List (List ℕ) → Bool
is_empty [] = true
is_empty (message ∷ messages) = false

check_wallet-may_sign :
    (v : Vaults) (r : MetamaskVerifyRequest) (role wallet : ℕ)
    → is_none (check_wallet v r role wallet) ≡ may_sign v r role wallet
unfolding check_wallet
check_wallet-may_sign v r role wallet =
    go (str_eq r.profile_type "vault") v.broker_ok (v.is_valid_signer r.wallet wallet role)
      (r.wallet == wallet)
  where
    go :
        (a b c d : Bool)
        → is_none (
            if a
            then (if not b
                then some no_broker
                else if c
                then none
                else some (not_valid_signer wallet r.wallet role))
            else if d
            then none
            else some (invalid_metamask_signature r.wallet wallet))
          ≡ (a && b && c || not a && d)
    go true true true d = refl
    go true true false d = refl
    go true false c d = refl
    go false b c true = refl
    go false b c false = refl

check_signer-signs :
    (c : Crypto) (v : Vaults) (r : MetamaskVerifyRequest) (role : ℕ) (message : List ℕ)
    (type : SignatureType)
    → is_none (check_signer c v r role message type) ≡ signs c v r role message type
unfolding check_signer
check_signer-signs c v r role message type =
    go (recover_signer c r.signature message r.timestamp type)
  where
    go :
        (x : Recovered)
        → is_none (elim x as (λ y. Option Error) [
          | recovered w ↦ check_wallet v r role w
          | failed e ↦ some e
        ])
          ≡ may_sign_as v r role x
    go (recovered w) = check_wallet-may_sign v r role w
    go (failed e) = refl

or_true : (b : Bool) → (b || true) ≡ true
or_true true = refl
or_true false = refl

module _ (c : Crypto) (v : Vaults) (r : MetamaskVerifyRequest) (role : ℕ) where
  -- With an error from an earlier message, the loop ends with it unless a later one is signed.
  try_messages-some :
      (messages : List (List ℕ)) (e : Error)
      → try_messages (check_signer c v r role) messages (some e)
        ≡ (if signs_one c v r role messages then none else some e)
  unfolding try_messages go_on
  try_messages-some [] e = refl
  try_messages-some (message ∷ messages) e =
      try_messages-cons (check_signer c v r role) message messages (some e)
      ∙ go (check_signer c v r role message eip_712) (check_signer c v r role message eip_191)
          (signs c v r role message eip_712) (signs c v r role message eip_191)
          (check_signer-signs c v r role message eip_712)
          (check_signer-signs c v r role message eip_191) (try_messages-some messages e)
    where
      go :
          (a b : Option Error) (s t : Bool)
          → is_none a ≡ s
          → is_none b ≡ t
          → try_messages (check_signer c v r role) messages (some e)
            ≡ (if signs_one c v r role messages then none else some e)
          → go_on messages (check_signer c v r role) (attempt a b (some e))
            ≡ (if s || t || signs_one c v r role messages then none else some e)
      go none b true t h h' ih = refl
      go none b false t h h' ih = absurd (let x = h in cc)
      go (some f) b true t h h' ih = absurd (let x = h in cc)
      go (some f) none false true h h' ih = refl
      go (some f) none false false h h' ih = absurd (let x = h' in cc)
      go (some f) (some g) false true h h' ih = absurd (let x = h' in cc)
      go (some f) (some g) false false h h' ih = ih

  -- The error for messages none of which is signed: that of the first as EIP-712.
  unfoldable pub refusal : List (List ℕ) → Option Error
  refusal [] = none
  refusal (message ∷ messages) = check_signer c v r role message eip_712

  try_messages-none :
      (messages : List (List ℕ))
      → try_messages (check_signer c v r role) messages none
        ≡ (if signs_one c v r role messages then none else refusal messages)
  unfolding try_messages refusal go_on
  try_messages-none [] = refl
  try_messages-none (message ∷ messages) =
      try_messages-cons (check_signer c v r role) message messages none
      ∙ go (check_signer c v r role message eip_712) (check_signer c v r role message eip_191)
          (signs c v r role message eip_712) (signs c v r role message eip_191)
          (check_signer-signs c v r role message eip_712)
          (check_signer-signs c v r role message eip_191) (try_messages-some messages)
    where
      go :
          (a b : Option Error) (s t : Bool)
          → is_none a ≡ s
          → is_none b ≡ t
          → ((e : Error)
              → try_messages (check_signer c v r role) messages (some e)
                ≡ (if signs_one c v r role messages then none else some e))
          → go_on messages (check_signer c v r role) (attempt a b none)
            ≡ (if s || t || signs_one c v r role messages then none else a)
      go none b true t h h' ih = refl
      go none b false t h h' ih = absurd (let x = h in cc)
      go (some f) b true t h h' ih = absurd (let x = h in cc)
      go (some f) none false true h h' ih = refl
      go (some f) none false false h h' ih = absurd (let x = h' in cc)
      go (some f) (some g) false true h h' ih = absurd (let x = h' in cc)
      go (some f) (some g) false false h h' ih = ih f

  -- An expired request is refused as such. Another one is accepted if its signature is, as EIP-712
  -- or as EIP-191, one of the wallet's (of a vault: of one of its signers with the role) for one of
  -- the messages, or if there are no messages; else the error is that of the first message as
  -- EIP-712.
  pub verify_profile-signs_one :
      (now : ℕ) (messages : List (List ℕ))
      → verify_profile c v now r role messages ≡ (
          if ltb now r.timestamp
          then (if signs_one c v r role messages then none else refusal messages)
          else some (expired_signature r.timestamp now))
  unfolding verify_profile
  verify_profile-signs_one now messages = go (Bool-cases (leb r.timestamp now))
    where
      T : Option Error
      T = some (expired_signature r.timestamp now)

      go :
          (leb r.timestamp now ≡ true) ⊎ (leb r.timestamp now ≡ false)
          → (if leb r.timestamp now
              then T
              else try_messages (check_signer c v r role) messages none)
            ≡ (if ltb now r.timestamp
                then (if signs_one c v r role messages then none else refusal messages)
                else T)
      go (inl e) = let late : ltb now r.timestamp ≡ false = ground arith in rw e (rw late refl)
      go (inr e) =
          let early : ltb now r.timestamp ≡ true = ground arith in
          rw e (rw early (try_messages-none messages))

  refusal-is_empty :
      (messages : List (List ℕ))
      → signs_one c v r role messages ≡ false
      → refusal messages ≡ none
      → is_empty messages ≡ true
  unfolding refusal
  refusal-is_empty [] e e' = refl
  refusal-is_empty (message ∷ messages) e e' = absurd (
      go (signs c v r role message eip_712)
        (sym (check_signer-signs c v r role message eip_712) ∙ ap is_none e') e)
    where
      go :
          (b : Bool)
          → b ≡ true
          → (b || signs c v r role message eip_191 || signs_one c v r role messages) ≡ false
          → ⊥
      go true k l = absurd (let x = l in cc)
      go false k l = absurd (let x = k in cc)

  pub verify_profile-none :
      (now : ℕ) (messages : List (List ℕ))
      → verify_profile c v now r role messages ≡ none
      → (ltb now r.timestamp ≡ true) × ((is_empty messages || signs_one c v r role messages) ≡ true)
  verify_profile-none now messages e =
      go (ltb now r.timestamp) (signs_one c v r role messages) refl
        (sym (verify_profile-signs_one now messages) ∙ e)
    where
      go :
          (t b : Bool)
          → signs_one c v r role messages ≡ b
          → (if t
              then (if b then none else refusal messages)
              else some (expired_signature r.timestamp now))
            ≡ none
          → (t ≡ true) × ((is_empty messages || b) ≡ true)
      go false b k l = absurd (let x = l in cc)
      go true true k l = (refl, or_true (is_empty messages))
      go true false k l = (refl, ap (λ x. x || false) (refusal-is_empty messages k l))
