-- ===== src/Auth/Payload.antt =====
-- auth/payload.go: the signatures of the requests. The data of a payload is an association list,
-- as Go's `range` gives the map; strings are lists of bytes. SHA-256, HMAC, the hexadecimal
-- encoding and `FormatInt` are arguments.
use rabbit_dex_backend.Common.{
  ℕ, Bool, true, false, not, ◌&&◌, ◌||◌, Option, none, some, List, [], ◌∷◌, ◌++◌, ◌==◌, leb, ltb,
  if◌then◌else◌, ◌⊎◌, inl, inr,
}

abbrev pub Bytes : Type 0
Bytes = List ℕ

-- What the Go libraries compute; `hex_decode` is `none` for an error.
pub record Codec : Type 0 where
  pub sha256 : Bytes → Bytes
  pub hmac_sha256 : Bytes → Bytes → Bytes
  pub hex_decode : Bytes → Option Bytes
  pub hex_encode : Bytes → Bytes
  pub format_int : ℕ → Bytes

pub record Payload : Type 0 where
  pub timestamp : ℕ
  pub entries : List (Bytes × Bytes)

-- The comparison of strings, and the order of `sort.Strings`.
unfoldable pub eq_bytes : Bytes → Bytes → Bool
eq_bytes [] [] = true
eq_bytes [] (y ∷ ys) = false
eq_bytes (x ∷ xs) [] = false
eq_bytes (x ∷ xs) (y ∷ ys) = x == y && eq_bytes xs ys

unfoldable pub le_bytes : Bytes → Bytes → Bool
le_bytes [] ys = true
le_bytes (x ∷ xs) [] = false
le_bytes (x ∷ xs) (y ∷ ys) = ltb x y || x == y && le_bytes xs ys

unfoldable pub has_key : Bytes → List (Bytes × Bytes) → Bool
has_key k [] = false
has_key k (entry ∷ entries) = eq_bytes k entry.0 || has_key k entries

-- "method" and "path"
abbrev pub payload_key_method : Bytes
payload_key_method = 109 ∷ 101 ∷ 116 ∷ 104 ∷ 111 ∷ 100 ∷ []

abbrev pub payload_key_path : Bytes
payload_key_path = 112 ∷ 97 ∷ 116 ∷ 104 ∷ []

abbrev pub required_keys : List Bytes
required_keys = payload_key_method ∷ payload_key_path ∷ []

pub data Error : Type 0 where
  missing_payload_key : Bytes → Error
  decode_failed : Error
  invalid_payload_signature : Bytes → Bytes → Error
  expired_signature : ℕ → ℕ → Error

-- `NewPayload`: the first required key that is missing, if any.
unfoldable pub missing_key : List (Bytes × Bytes) → List Bytes → Option Bytes
missing_key entries [] = none
missing_key entries (k ∷ keys) =
    let rest = missing_key entries keys in if has_key k entries then rest else some k

unfoldable pub new_payload : ℕ → List (Bytes × Bytes) → Payload ⊎ Error
new_payload timestamp entries = elim (missing_key entries required_keys) [
  | none ↦ inl (record { timestamp = timestamp; entries = entries })
  | some k ↦ inr (missing_payload_key k)
]

-- The data with its keys in the order of `sort.Strings`.
unfoldable pub insert_entry : Bytes × Bytes → List (Bytes × Bytes) → List (Bytes × Bytes)
insert_entry e [] = e ∷ []
insert_entry e (f ∷ entries) =
    let rest = insert_entry e entries in if le_bytes e.0 f.0 then e ∷ f ∷ entries else f ∷ rest

unfoldable pub sort_keys : List (Bytes × Bytes) → List (Bytes × Bytes)
sort_keys [] = []
sort_keys (e ∷ entries) = insert_entry e (sort_keys entries)

-- "%s=%s" of each entry, without anything between the entries.
unfoldable pub message_of : List (Bytes × Bytes) → Bytes
message_of [] = []
message_of (e ∷ entries) = e.0 ++ 61 ∷ e.1 ++ message_of entries

-- The input of the hash, and `Hash`.
unfoldable pub hash_input : Codec → Payload → Bytes
hash_input c s = message_of (sort_keys s.entries) ++ c.format_int s.timestamp

unfoldable pub hash : Codec → Payload → Bytes
hash c s = c.sha256 (hash_input c s)

unfoldable pub sign : Codec → Payload → Bytes → Option Bytes
sign c s secret = elim (c.hex_decode secret) [
  | none ↦ none
  | some secret_bytes ↦ some (c.hex_encode (c.hmac_sha256 secret_bytes (hash c s)))
]

-- "protected"
abbrev pub protected : Bytes
protected = 112 ∷ 114 ∷ 111 ∷ 116 ∷ 101 ∷ 99 ∷ 116 ∷ 101 ∷ 100 ∷ []

-- `Verify` at the time `now`: the error, if any; `prod` is that `envmode` is "prod" in some case.
unfoldable pub verify_signed : Payload → Bytes → Bool → ℕ → Bytes → Option Error
verify_signed s signature prod now expected =
    if not (eq_bytes expected signature)
    then (if prod
        then some (invalid_payload_signature protected protected)
        else some (invalid_payload_signature expected signature))
    else if leb s.timestamp now
    then some (expired_signature s.timestamp now)
    else none

unfoldable pub verify : Codec → Payload → Bytes → Bytes → Bool → ℕ → Option Error
verify c s signature secret prod now = elim (sign c s secret) [
  | none ↦ some decode_failed
  | some expected ↦ verify_signed s signature prod now expected
]
