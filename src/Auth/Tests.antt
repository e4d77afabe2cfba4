-- ===== src/Auth/Tests.antt =====
-- Small requests, and the theorems at them. The cryptography here only copies its input.
use rabbit_dex_backend.Common.{
  ℕ, ◌+◌, ◌≡◌, refl, true, false, none, some, List, [], ◌∷◌, ◌++◌, ◌==◌, ltb, if◌then◌else◌, length,
}
use rabbit_dex_backend.Auth.{
  MetamaskVerifyRequest, Crypto, Vaults, expired_signature, verify_profile,
}
use rabbit_dex_backend.Auth.Accepted.{signs_one, refusal, verify_profile-signs_one}
use rabbit_dex_backend.Auth.Onboard.{
  profile_not_found, Answers, onboard_frontend, onboard_market_maker,
}
use rabbit_dex_backend.Auth.Sessions.{Only, IsAuthentic, ProfileIn, IsListed, onboard-IsAuthentic}
use rabbit_dex_backend.Auth.Payload.{
  Bytes, Codec, le_bytes, eq_bytes, sign, verify, payload_key_method, payload_key_path,
}
use rabbit_dex_backend.Auth.Signed.{swap, verify-IsReordered, sign-path}

-- A signature is the key and the message.
abbrev crypto : Crypto
crypto = record {
  keccak256_hash = length;
  encode_data = λ message timestamp. some (length message);
  hex_decode = λ bytes. some bytes;
  sig_to_pub = λ hash bytes. elim bytes [ [] ↦ none | b ∷ rest ↦ some b ];
  pubkey_to_address = λ key. key + 1_000;
  format_int = λ n. n ∷ [];
}

abbrev vaults : Vaults
vaults = record { broker_ok = true; is_valid_signer = λ vault wallet role. wallet == 1_007 }

abbrev request : MetamaskVerifyRequest
request = record { wallet = 1_005; timestamp = 60; signature = 5 ∷ []; profile_type = "trader" }

abbrev messages : List (List ℕ)
messages = (72 ∷ []) ∷ (73 ∷ []) ∷ []

verify_profile-signs_one_example : verify_profile crypto vaults 50 request 1 messages ≡ (
    if ltb 50 60
    then (if signs_one crypto vaults request 1 messages
        then none
        else refusal crypto vaults request 1 messages)
    else some (expired_signature 60 50))
verify_profile-signs_one_example = verify_profile-signs_one crypto vaults request 1 50 messages

abbrev codec : Codec
codec = record {
  sha256 = λ bytes. bytes;
  hmac_sha256 = λ secret bytes. secret ++ bytes;
  hex_decode = λ bytes. some bytes;
  hex_encode = λ bytes. bytes;
  format_int = λ n. n ∷ [];
}

abbrev of_method : Bytes × Bytes
of_method = (payload_key_method, 71 ∷ [])

abbrev of_path : Bytes × Bytes
of_path = (payload_key_path, 47 ∷ [])

differ : eq_bytes payload_key_method payload_key_path ≡ false
unfolding eq_bytes
differ = refl

verify-IsReordered_example :
    verify codec
      (record { timestamp = 60; entries = of_method ∷ of_path ∷ [] })
      (1 ∷ [])
      (2 ∷ [])
      false
      50
    ≡ verify codec
        (record { timestamp = 60; entries = of_path ∷ of_method ∷ [] })
        (1 ∷ [])
        (2 ∷ [])
        false
        50
verify-IsReordered_example =
    verify-IsReordered codec 60 (of_method ∷ of_path ∷ []) (of_path ∷ of_method ∷ []) (1 ∷ [])
      (2 ∷ []) false 50 (swap of_method of_path [] differ)

-- The key "z" comes behind "path".
behind : le_bytes payload_key_path (122 ∷ []) ≡ true
unfolding le_bytes
behind = refl

sign-path_example :
    sign codec
      (record {
        timestamp = 60;
        entries = of_method ∷ (payload_key_path, (47 ∷ []) ++ (122 ∷ []) ++ 61 ∷ 49 ∷ []) ∷ [];
      })
      (2 ∷ [])
    ≡ sign codec
        (record { timestamp = 60; entries = of_method ∷ of_path ∷ (122 ∷ [], 49 ∷ []) ∷ [] })
        (2 ∷ [])
sign-path_example = sign-path codec 60 (71 ∷ []) (47 ∷ []) (122 ∷ []) (49 ∷ []) (2 ∷ []) behind

-- A wallet without a profile.
abbrev tarantool : Answers
tarantool = record {
  lookup = profile_not_found;
  created = some 7;
  frontend_secret = λ id. some (id + 100);
  secrets = λ id. some ((id + 200) ∷ []);
  jwt = λ id. some 1;
  profile_data_ok = true;
}

onboard-IsAuthentic_example :
    Only
      (λ s.
        IsAuthentic crypto vaults 50 request messages
        × ProfileIn tarantool s.new_profile s.profile_id
        × (tarantool.frontend_secret s.profile_id ≡ some s.secret))
      (onboard_frontend crypto vaults 50 request messages tarantool).outcome
    × Only
        (λ s.
          IsAuthentic crypto vaults 50 request messages
          × ProfileIn tarantool s.new_profile s.profile_id
          × IsListed tarantool s.profile_id s.secret)
        (onboard_market_maker crypto vaults 50 request messages tarantool).outcome
onboard-IsAuthentic_example = onboard-IsAuthentic crypto vaults 50 request messages tarantool
