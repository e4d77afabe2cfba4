-- ===== src/TDecimal/Tests.antt =====
-- The codec on the examples of tdecimal/bcd.go, and the round trip at one number.
use rabbit_dex_backend.Common.{◌≡◌, refl, ℕ, true, some, List, [], ◌∷◌, arith}
use rabbit_dex_backend.TDecimal.Bcd.{
  ok, err, many_points, encode_string_to_bcd, decode_string_from_bcd, encode_from, encode_loop,
  encode_byte, put_digit, put_nibble, or_last, put_sign, finish, sign_of, get_number_length,
  count_digits, count_digit, process_nibble, decode_bytes, decode_first, last, padding, digits_in,
}
use rabbit_dex_backend.TDecimal.Text.{text}
use rabbit_dex_backend.TDecimal.RoundTrip.{decode-encode}

program : Unit {0}
unfolding encode_string_to_bcd decode_string_from_bcd encode_from encode_loop encode_byte put_digit
    put_nibble or_last put_sign finish sign_of get_number_length count_digits count_digit
    process_nibble decode_bytes decode_first last padding digits_in
program = tt

-- -12.34 is 0x02, 0x01, 0x23, 0x4d.
encode_example :
    encode_string_to_bcd (text true (1 ∷ 2 ∷ []) (3 ∷ 4 ∷ [])) ≡ ok (0x02 ∷ 0x01 ∷ 0x23 ∷ 0x4d ∷ [])
unfolding program
encode_example = refl

decode_example :
    decode_string_from_bcd (0x02 ∷ 0x01 ∷ 0x23 ∷ 0x4d ∷ [])
    ≡ some (text true (1 ∷ 2 ∷ []) (3 ∷ 4 ∷ []))
unfolding program
decode_example = refl

-- "-0" loses its sign.
encode_minus_zero : encode_string_to_bcd (b'-' ∷ b'0' ∷ []) ≡ ok (0x00 ∷ 0x0c ∷ [])
unfolding program
encode_minus_zero = refl

encode_two_points : encode_string_to_bcd (b'1' ∷ b'.' ∷ b'2' ∷ b'.' ∷ b'3' ∷ []) ≡ err many_points
unfolding program
encode_two_points = refl

decode-encode_example :
    (bytes : List ℕ) × (encode_string_to_bcd (text true (0 ∷ []) (0 ∷ 0 ∷ 5 ∷ 0 ∷ [])) ≡ ok bytes)
    × (decode_string_from_bcd bytes ≡ some (text true (0 ∷ []) (0 ∷ 0 ∷ 5 ∷ 0 ∷ [])))
decode-encode_example = decode-encode true (0 ∷ []) (0 ∷ 0 ∷ 5 ∷ 0 ∷ []) (record {
  whole_digits = omega arith;
  frac_digits = omega arith;
  whole_form = tt;
  frac_short = omega arith;
  signed = λ h. refl;
})
