-- ===== src/TDecimal/Bcd.antt =====
-- `getNumberLength`, `encodeStringToBCD` and `decodeStringFromBCD` of tdecimal/bcd.go. A string is
-- the list of its bytes. A nibble is read by division: `b >> 4` is `b / 16`, `b & 0x0f` is
-- `b % 16`, and `b & 0xf0 == 0` is `b / 16 == 0`.
use Prim.Native.Nat.{bit_or}
use rabbit_dex_backend.Common.{
  ℕ, ◌+◌, ◌-◌, ◌*◌, ◌/◌, ◌%◌, Bool, true, false, not, ◌&&◌, ◌||◌, Option, none, some, List, [], ◌∷◌,
  ◌++◌, ltb, leb, ◌==◌, if◌then◌else◌, length, replicate,
}

pub data EncodeError : Type 0 where
  empty_number many_points : EncodeError
  bad_symbol : ℕ → EncodeError

pub data Result (A : Type 0) : Type 0 where
  ok : A → Result A
  err : EncodeError → Result A

abbrev pub byte_plus : ℕ
byte_plus = 0x0c

abbrev pub byte_minus : ℕ
byte_minus = 0x0d

-- The table `isNegative`, whose other entries are false.
abbrev pub is_negative : ℕ → Bool
is_negative sign = sign == 0x0b || sign == 0x0d

-- The loop of `getNumberLength`, and one round of it.
unfoldable pub count_digit : ℕ → ℕ → ℕ
count_digit n ch =
    if leb b'1' ch && leb ch b'9' then n + 1 else if ch == b'0' && ltb 0 n then n + 1 else n

unfoldable pub count_digits : ℕ → List ℕ → ℕ
count_digits n [] = n
count_digits n (ch ∷ buf) = count_digits (count_digit n ch) buf

-- `getNumberLength`
unfoldable pub get_number_length : List ℕ → ℕ
get_number_length [] = 0
get_number_length (ch ∷ buf) = let n = count_digits 0 (ch ∷ buf) in if n == 0 then 1 else n

-- `byteBuf[len(byteBuf)-1] |= x`. The code calls it with a byte in the buffer.
unfoldable pub or_last : List ℕ → ℕ → List ℕ
or_last [] x = []
or_last (b ∷ []) x = bit_or b x ∷ []
or_last (b ∷ b' ∷ buf) x = b ∷ or_last (b' ∷ buf) x

-- The variables of the loop of `encodeStringToBCD`.
pub record Encoder : Type 0 where
  pub byte_buf : List ℕ
  pub high_nibble : Bool
  pub scale : ℕ

abbrev pub is_empty : List ℕ → Bool
is_empty [] = true
is_empty (b ∷ buf) = false

-- A digit goes to the high nibble of a new byte, or to the low nibble of the last one.
unfoldable pub put_nibble : Bool → List ℕ → ℕ → List ℕ
put_nibble high buf digit =
    if high
    then buf ++ (digit * 16 % 256 ∷ [])
    else or_last (if is_empty buf then 0 ∷ [] else buf) digit

unfoldable pub put_digit : Encoder → ℕ → Encoder
put_digit e digit = record e {
  byte_buf = put_nibble e.high_nibble e.byte_buf digit;
  high_nibble = not e.high_nibble;
}

-- One round of the loop. `i` is the index of `ch`, and `rest` what follows it, so that
-- `len(buf) - i - 1` is the length of `rest`.
unfoldable pub encode_byte : ℕ → Encoder → ℕ → List ℕ → Result Encoder
encode_byte i e ch rest =
    if is_empty e.byte_buf && ch == b'0'
    then ok e
    else if i == 0 && (ch == b'-' || ch == b'+')
    then ok e
    else if ch == b'.'
    then (if e.scale == 0 then ok (record e { scale = length rest }) else err many_points)
    else if ltb ch b'0' || ltb b'9' ch
    then err (bad_symbol ch)
    else ok (put_digit e (ch - b'0'))

unfoldable pub encode_loop : ℕ → Encoder → List ℕ → Result Encoder
encode_loop i e [] = ok e
encode_loop i e (ch ∷ rest) = elim (encode_byte i e ch rest) [
  | ok e' ↦ encode_loop (i + 1) e' rest
  | err x ↦ err x
]

-- The sign, in a byte of its own where the next nibble would be a high one. A number with no
-- significant digit has a plus.
unfoldable pub put_sign : Bool → List ℕ → ℕ → List ℕ
put_sign high buf sign =
    let sign' = if is_empty buf then byte_plus else sign in
    if high then buf ++ (sign' ∷ []) else or_last buf sign'

unfoldable pub sign_of : List ℕ → ℕ
sign_of [] = byte_plus
sign_of (ch ∷ buf) = if ch == b'-' then byte_minus else byte_plus

unfoldable pub finish : ℕ → Encoder → List ℕ
finish sign e = (e.scale % 256) ∷ put_sign e.high_nibble e.byte_buf sign

-- The loop and what follows it, from the first value of `highNibble`.
unfoldable pub encode_from : Bool → List ℕ → Result (List ℕ)
encode_from high buf =
    elim (encode_loop 0 (record { byte_buf = []; high_nibble = high; scale = 0 }) buf) [
      | ok e ↦ ok (finish (sign_of buf) e)
      | err x ↦ err x
    ]

-- `encodeStringToBCD`
unfoldable pub encode_string_to_bcd : List ℕ → Result (List ℕ)
encode_string_to_bcd [] = err empty_number
encode_string_to_bcd (ch ∷ rest) = encode_from (get_number_length (ch ∷ rest) % 2 == 1) (ch ∷ rest)

-- The variables of the loop of `decodeStringFromBCD`: the digits to come, and the text so far.
-- `ndigits` is at most one below the number of nibbles still to read, so the subtraction stops
-- at 0 only after the last one.
pub record Decoder : Type 0 where
  pub ndigits : ℕ
  pub out : List ℕ

-- `processNibble`
unfoldable pub process_nibble : ℕ → Decoder → ℕ → Decoder
process_nibble scale d nibble =
    if leb nibble 9
    then record {
      ndigits = d.ndigits - 1;
      out = (if d.ndigits == scale then d.out ++ (b'.' ∷ []) else d.out) ++ ((nibble + b'0') ∷ []);
    }
    else d

-- The rounds behind the first byte.
unfoldable pub decode_bytes : ℕ → Decoder → List ℕ → Decoder
decode_bytes scale d [] = d
decode_bytes scale d (b ∷ bcd) =
    decode_bytes scale (process_nibble scale (process_nibble scale d (b / 16)) (b % 16)) bcd

unfoldable pub decode_first : ℕ → Decoder → ℕ → Decoder
decode_first scale d b =
    process_nibble scale (if b / 16 == 0 then d else process_nibble scale d (b / 16)) (b % 16)

unfoldable pub last : ℕ → List ℕ → ℕ
last b [] = b
last b (b' ∷ bcd) = last b' bcd

-- The zeroes that stand before the digits.
unfoldable pub padding : ℕ → ℕ → List ℕ
padding scale ndigits =
    if ltb ndigits scale
    then b'0' ∷ b'.' ∷ replicate (scale - ndigits) b'0'
    else if scale == ndigits
    then b'0' ∷ []
    else []

unfoldable pub digits_in : ℕ → List ℕ → ℕ
digits_in b bcd =
    let ndigits = length (b ∷ bcd) * 2 - 1 in if b / 16 == 0 then ndigits - 1 else ndigits

-- `decodeStringFromBCD`; `none` where Go panics, at an index out of range.
unfoldable pub decode_string_from_bcd : List ℕ → Option (List ℕ)
decode_string_from_bcd [] = none
decode_string_from_bcd (scale ∷ []) = none
decode_string_from_bcd (scale ∷ b ∷ bcd) =
    let ndigits = digits_in b bcd in
    let sign = if is_negative (last b bcd % 16) then b'-' ∷ [] else [] in
    let start : Decoder = record { ndigits = ndigits; out = sign ++ padding scale ndigits } in
    some (decode_bytes scale (decode_first scale start b) bcd).out
