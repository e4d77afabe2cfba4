-- ===== src/Auth.antt =====
-- The authentication (auth/): here auth/verify.go, whether a signature is one of a wallet's. The
-- cryptography of go-ethereum and the requests to Tarantool are arguments; addresses, hashes and
-- public keys are numbers, and messages, signatures and encodings lists of bytes.
pub mod Accepted
pub mod Payload
pub mod Signed
pub mod Onboard
pub mod Sessions
pub mod Tests
use Prim.Native.String.{String}
use text.Mathlib.Text.{◌==◌ as str_eq}
use rabbit_dex_backend.Common.{
  ℕ, Bool, true, false, not, Option, none, some, List, [], ◌∷◌, ◌++◌, ◌==◌, leb, if◌then◌else◌,
  length,
}
use rabbit_dex_backend.Decimal.Hundredths.{ℤ}

pub data SignatureType : Type 0 where
  eip_712 eip_191 : SignatureType

-- `MetamaskVerifyRequest`; its wallet as the address that `HexToAddress` makes of it.
pub record MetamaskVerifyRequest : Type 0 where
  pub wallet : ℕ
  pub timestamp : ℕ
  pub signature : List ℕ
  pub profile_type : String

-- What go-ethereum computes: `Keccak256Hash`, the encoder of EIP-712 for the message and the
-- timestamp, `hexutil.Decode`, `SigToPub` of a hash (`none` for a nil one), `PubkeyToAddress`; and
-- the decimal digits of a number.
pub record Crypto : Type 0 where
  pub keccak256_hash : List ℕ → ℕ
  pub encode_data : List ℕ → ℕ → Option ℕ
  pub hex_decode : List ℕ → Option (List ℕ)
  pub sig_to_pub : Option ℕ → List ℕ → Option ℕ
  pub pubkey_to_address : ℕ → ℕ
  pub format_int : ℕ → List ℕ

-- Whether there is a broker, and `IsValidSigner` of a vault, a wallet and a role.
pub record Vaults : Type 0 where
  pub broker_ok : Bool
  pub is_valid_signer : ℕ → ℕ → ℕ → Bool

pub data Error : Type 0 where
  expired_signature : ℕ → ℕ → Error
  decode_failed recover_failed no_broker : Error
  not_valid_signer : ℕ → ℕ → ℕ → Error
  invalid_metamask_signature : ℕ → ℕ → Error

-- "\x19Ethereum Signed Message:\n"
abbrev pub eip191_prefix : List ℕ
eip191_prefix =
    25 ∷ 69 ∷ 116 ∷ 104 ∷ 101 ∷ 114 ∷ 101 ∷ 117 ∷ 109 ∷ 32 ∷ 83 ∷ 105 ∷ 103 ∷ 110 ∷ 101 ∷ 100 ∷ 32
    ∷ 77 ∷ 101 ∷ 115 ∷ 115 ∷ 97 ∷ 103 ∷ 101 ∷ 58 ∷ 10 ∷ []

unfoldable pub eip191_input : Crypto → List ℕ → ℕ → List ℕ
eip191_input c message timestamp =
    let metamask_message = message ++ 10 ∷ c.format_int timestamp in
    eip191_prefix ++ c.format_int (length metamask_message) ++ metamask_message

unfoldable pub eip191_message : Crypto → List ℕ → ℕ → ℕ
eip191_message c message timestamp = c.keccak256_hash (eip191_input c message timestamp)

unfoldable pub message_hash : Crypto → SignatureType → List ℕ → ℕ → Option ℕ
message_hash c eip_712 message timestamp = c.encode_data message timestamp
message_hash c eip_191 message timestamp = some (eip191_message c message timestamp)

-- Go's pair of a result and an error.
pub data Recovered : Type 0 where
  recovered : ℕ → Recovered
  failed : Error → Recovered

unfoldable pub recover_signer : Crypto → List ℕ → List ℕ → ℕ → SignatureType → Recovered
recover_signer c signature message timestamp type = elim (c.hex_decode signature) [
  | none ↦ failed decode_failed
  | some bytes ↦ elim (c.sig_to_pub (message_hash c type message timestamp) bytes) [
    | none ↦ failed recover_failed
    | some key ↦ recovered (c.pubkey_to_address key)
  ]
]

-- The end of `checkSigner`, for the recovered wallet: the error, if any.
unfoldable pub check_wallet : Vaults → MetamaskVerifyRequest → ℕ → ℕ → Option Error
check_wallet v r role recovered_wallet =
    if str_eq r.profile_type "vault"
    then (if not v.broker_ok
        then some no_broker
        else if v.is_valid_signer r.wallet recovered_wallet role
        then none
        else some (not_valid_signer recovered_wallet r.wallet role))
    else if r.wallet == recovered_wallet
    then none
    else some (invalid_metamask_signature r.wallet recovered_wallet)

unfoldable pub check_signer :
    Crypto → Vaults → MetamaskVerifyRequest → ℕ → List ℕ → SignatureType → Option Error
check_signer c v r role message type =
    elim (recover_signer c r.signature message r.timestamp type) [
      | recovered wallet ↦ check_wallet v r role wallet
      | failed e ↦ some e
    ]

-- The inner loop of `VerifyProfile` returns nil, or goes on with `firstErr`.
pub data Tried : Type 0 where
  succeeded : Tried
  tried : Option Error → Tried

abbrev pub first : Option Error → Error → Option Error
first none e = some e
first (some f) e = some f

unfoldable pub try_types :
    (List ℕ → SignatureType → Option Error) → List ℕ → List SignatureType → Option Error → Tried
try_types check message [] first_err = tried first_err
try_types check message (type ∷ types) first_err = elim (check message type) [
  | none ↦ succeeded
  | some e ↦ try_types check message types (first first_err e)
]

unfoldable pub try_messages :
    (List ℕ → SignatureType → Option Error) → List (List ℕ) → Option Error → Option Error
try_messages check [] first_err = first_err
try_messages check (message ∷ messages) first_err =
    elim (try_types check message (eip_712 ∷ eip_191 ∷ []) first_err) [
      | succeeded ↦ none
      | tried e ↦ try_messages check messages e
    ]

-- `VerifyProfile` at the time `now`: the error, if any. The code does not read its signature type.
unfoldable pub verify_profile :
    Crypto → Vaults → ℕ → MetamaskVerifyRequest → ℕ → List (List ℕ) → Option Error
verify_profile c v now r role messages =
    if leb r.timestamp now
    then some (expired_signature r.timestamp now)
    else try_messages (check_signer c v r role) messages none
