-- ===== src/TDecimal/Text.antt =====
-- The text of a number, and the bytes that `encodeStringToBCD` makes of it (Bcd, Encode).
use mathlib.Core.List.{append_assoc, append-nil}
use rabbit_dex_backend.Common.{
  ℕ, suc, ◌+◌, ◌%◌, ◌<◌, ◌≡◌, refl, ap, sym, subst, ◌∙◌, inl, inr, Bool, true, false, not, List, [],
  ◌∷◌, ◌++◌, arith, ◌==◌, if◌then◌else◌, length, All, Bool-cases, length-append, length-map,
}
use rabbit_dex_backend.TDecimal.Bcd.{
  Result, ok, err, Encoder, byte_plus, byte_minus, or_last, is_empty, put_sign, encode_byte,
  encode_loop, count_digit, count_digits, get_number_length, sign_of, finish, encode_from,
  encode_string_to_bcd,
}
use rabbit_dex_backend.TDecimal.Nibbles.{
  IsNibble, pack, is_even, is_even-cons, or_last-pack, significant, collect, feed, Holds, pad_of,
  IsDigit,
}
use rabbit_dex_backend.TDecimal.Encode.{
  chars, feed-Holds, feed-scale, encode_loop-ok, encode_loop-chars, encode_byte-point, pad_full,
}

abbrev pub fraction : List ℕ → List ℕ
fraction [] = []
fraction (d ∷ ds) = b'.' ∷ chars (d ∷ ds)

abbrev pub sign_text : Bool → List ℕ
sign_text neg = if neg then b'-' ∷ [] else []

-- The text of a decimal: a minus or nothing, the digits of the whole part, and if there are digits
-- behind the point, the point and those.
abbrev pub text : Bool → List ℕ → List ℕ → List ℕ
text neg whole frac = sign_text neg ++ (chars whole ++ fraction frac)

-- Its significant digits.
abbrev pub digits_of : List ℕ → List ℕ → List ℕ
digits_of whole frac = collect (collect [] whole) frac

abbrev pub sign_nibble : Bool → List ℕ → ℕ
sign_nibble neg sig = if is_empty sig then byte_plus else if neg then byte_minus else byte_plus

-- The packed decimal: a zero nibble if the number of digits is even, the digits, the sign.
abbrev pub nibbles_of : Bool → List ℕ → List ℕ
nibbles_of neg sig = pad_of (not (is_even sig)) ++ (sig ++ sign_nibble neg sig ∷ [])

start_at : Bool → Encoder
start_at b = record { byte_buf = []; high_nibble = b; scale = 0 }

start-Holds : (b : Bool) → Holds (pad_of b) (start_at b) []
unfolding start_at
start-Holds true = record { parity = refl; packed = refl; nibbles = tt }
start-Holds false = record { parity = refl; packed = refl; nibbles = (omega arith, tt) }

-- The digits behind the point, if there are any.
encode_loop-fraction :
    (b : Bool) (i : ℕ) (e : Encoder) (sig frac : List ℕ)
    → Holds (pad_of b) e sig
    → e.scale ≡ 0
    → All IsDigit frac
    → (e' : Encoder) × (encode_loop i e (fraction frac) ≡ ok e')
      × Holds (pad_of b) e' (collect sig frac)
      × (e'.scale ≡ length frac)
unfolding encode_loop
encode_loop-fraction b i e sig [] h s a = (e, refl, h, s)
encode_loop-fraction b i e sig (d ∷ ds) h s a =
    let ep : Encoder = record e { scale = length (chars (d ∷ ds)) } in
    let hp : Holds (pad_of b) ep sig = record {
      parity = h.parity;
      packed = h.packed;
      nibbles = h.nibbles;
    } in
    let (j, _, run) = encode_loop-chars (i + 1) ep (d ∷ ds) [] a in
    (
      feed ep (d ∷ ds),
      encode_loop-ok i e b'.' (chars (d ∷ ds)) (encode_byte-point i e (chars (d ∷ ds)) s)
          ∙ ap (encode_loop (i + 1) ep) (sym (append-nil (chars (d ∷ ds))))
          ∙ run,
      feed-Holds b ep sig (d ∷ ds) hp a,
      feed-scale ep (d ∷ ds) ∙ length-map (d ∷ ds) _,
    )

encode_loop-digits :
    (b : Bool) (i : ℕ) (whole frac : List ℕ)
    → All IsDigit whole
    → All IsDigit frac
    → (e : Encoder) × (encode_loop i (start_at b) (chars whole ++ fraction frac) ≡ ok e)
      × Holds (pad_of b) e (digits_of whole frac)
      × (e.scale ≡ length frac)
unfolding start_at
encode_loop-digits b i whole frac aw af =
    let (j, _, run) = encode_loop-chars i (start_at b) whole (fraction frac) aw in
    let (e, run', h, s) =
      encode_loop-fraction b j (feed (start_at b) whole) (collect [] whole) frac
        (feed-Holds b (start_at b) [] whole (start-Holds b) aw) (feed-scale (start_at b) whole)
        af in
    (e, run ∙ run', h, s)

encode_loop-text :
    (b neg : Bool) (whole frac : List ℕ)
    → All IsDigit whole
    → All IsDigit frac
    → (e : Encoder) × (encode_loop 0 (start_at b) (text neg whole frac) ≡ ok e)
      × Holds (pad_of b) e (digits_of whole frac)
      × (e.scale ≡ length frac)
unfolding start_at
encode_loop-text b false whole frac aw af = encode_loop-digits b 0 whole frac aw af
encode_loop-text b true whole frac aw af =
    let (e, run, h, s) = encode_loop-digits b 1 whole frac aw af in
    let skip : encode_byte 0 (start_at b) b'-' (chars whole ++ fraction frac) ≡ ok (start_at b) =
      unfold encode_byte in refl in
    (e, encode_loop-ok 0 (start_at b) b'-' (chars whole ++ fraction frac) skip ∙ run, h, s)

-- `getNumberLength` counts the significant digits.
count_digit-significant :
    (sig : List ℕ) (d : ℕ)
    → d < 10
    → count_digit (length sig) (d + b'0') ≡ length (significant sig d)
unfolding count_digit
count_digit-significant [] d lt = ground arith
count_digit-significant (s ∷ sig) d lt = ground (arith, length-append {0} sig (d ∷ []))

count_digits-chars :
    (sig ds rest : List ℕ)
    → All IsDigit ds
    → count_digits (length sig) (chars ds ++ rest) ≡ count_digits (length (collect sig ds)) rest
unfolding count_digits
count_digits-chars sig [] rest a = refl
count_digits-chars sig (d ∷ ds) rest a =
    ap (λ n. count_digits n (chars ds ++ rest)) (count_digit-significant sig d a.0)
    ∙ count_digits-chars (significant sig d) ds rest a.1

count_digits-fraction :
    (sig frac : List ℕ)
    → All IsDigit frac
    → count_digits (length sig) (fraction frac) ≡ length (collect sig frac)
unfolding count_digits count_digit
count_digits-fraction sig [] a = refl
count_digits-fraction sig (d ∷ ds) a =
    let digits = chars (d ∷ ds) in
    ap (count_digits (length sig)) (sym (append-nil digits)) ∙ count_digits-chars sig (d ∷ ds) [] a

count_digits-digits :
    (whole frac : List ℕ)
    → All IsDigit whole
    → All IsDigit frac
    → count_digits 0 (chars whole ++ fraction frac) ≡ length (digits_of whole frac)
count_digits-digits whole frac aw af =
    count_digits-chars [] whole (fraction frac) aw
    ∙ count_digits-fraction (collect [] whole) frac af

abbrev length_or_one : List ℕ → ℕ
length_or_one sig = if length sig == 0 then 1 else length sig

get_number_length-text :
    (neg : Bool) (d : ℕ) (whole frac : List ℕ)
    → All IsDigit (d ∷ whole)
    → All IsDigit frac
    → get_number_length (text neg (d ∷ whole) frac) ≡ length_or_one (digits_of (d ∷ whole) frac)
unfolding get_number_length
get_number_length-text false d whole frac aw af =
    ap (λ n. if n == 0 then 1 else n) (count_digits-digits (d ∷ whole) frac aw af)
get_number_length-text true d whole frac aw af =
    let skip : count_digits 0 (text true (d ∷ whole) frac)
        ≡ count_digits 0 (chars (d ∷ whole) ++ fraction frac) =
      unfold count_digits count_digit in refl in
    ap (λ n. if n == 0 then 1 else n) (skip ∙ count_digits-digits (d ∷ whole) frac aw af)

is_even-length : (ns : List ℕ) → (length ns % 2 == 1) ≡ not (is_even ns)
is_even-length [] = refl
is_even-length (n ∷ []) = refl
is_even-length (n ∷ m ∷ ns) =
    let same : suc (suc (length ns)) % 2 ≡ length ns % 2 = omega arith in
    rw same (is_even-length ns)

-- The buffer starts at a high nibble exactly if no zero nibble is needed, or for zero.
high_at_start :
    (sig : List ℕ)
    → (length_or_one sig % 2 == 1) ≡ (if is_empty sig then true else not (is_even sig))
high_at_start [] = refl
high_at_start (s ∷ sig) =
    let some_digit : (suc (length sig) == 0) ≡ false = ground arith in
    rw some_digit (is_even-length (s ∷ sig))

is_even-pad : (sig : List ℕ) → is_even (pad_of (not (is_even sig)) ++ sig) ≡ false
is_even-pad sig = elim (Bool-cases (is_even sig)) [
  | inl e ↦ rw e (is_even-cons 0 sig ∙ ap not e)
  | inr e ↦ rw e e
]

sign-IsNibble : (neg : Bool) → IsNibble (if neg then byte_minus else byte_plus)
sign-IsNibble true = omega arith
sign-IsNibble false = omega arith

-- Zero is a plus sign in a byte of its own; other numbers end in a full byte.
finish-nibbles :
    (neg : Bool) (e : Encoder) (sig : List ℕ)
    → Holds (pad_of (if is_empty sig then true else not (is_even sig))) e sig
    → finish (if neg then byte_minus else byte_plus) e ≡ (e.scale % 256) ∷ pack (nibbles_of neg sig)
unfolding finish put_sign
finish-nibbles neg e [] h =
    let sign : ℕ = if neg then byte_minus else byte_plus in
    ap (λ buf. (e.scale % 256) ∷ put_sign e.high_nibble buf sign) h.packed
    ∙ ap (λ high. (e.scale % 256) ∷ put_sign high [] sign) h.parity
finish-nibbles neg e (s ∷ sig) h =
    let sign : ℕ = if neg then byte_minus else byte_plus in
    let pad = pad_of (not (is_even (s ∷ sig))) in
    let ns = pad ++ s ∷ sig in
    let full : is_empty (pack ns) ≡ false = pad_full (not (is_even (s ∷ sig))) s sig in
    ap (◌∷◌ (e.scale % 256)) (
      ap (λ buf. put_sign e.high_nibble buf sign) h.packed
      ∙ ap (λ high. put_sign high (pack ns) sign) (h.parity ∙ is_even-pad (s ∷ sig))
      ∙ ap (λ t. or_last (pack ns) (if t then byte_plus else sign)) full
      ∙ or_last-pack ns sign (is_even-pad (s ∷ sig)) h.nibbles (sign-IsNibble neg)
      ∙ ap pack (append_assoc pad (s ∷ sig) (sign ∷ [])))

sign_of-text :
    (neg : Bool) (d : ℕ) (whole frac : List ℕ)
    → d < 10
    → sign_of (text neg (d ∷ whole) frac) ≡ (if neg then byte_minus else byte_plus)
unfolding sign_of
sign_of-text true d whole frac lt = refl
sign_of-text false d whole frac lt = ground arith

encode_from-text :
    (neg : Bool) (d : ℕ) (whole frac : List ℕ) (b : Bool)
    → All IsDigit (d ∷ whole)
    → All IsDigit frac
    → b ≡ (
        if is_empty (digits_of (d ∷ whole) frac)
        then true
        else not (is_even (digits_of (d ∷ whole) frac)))
    → encode_from b (text neg (d ∷ whole) frac)
      ≡ ok ((length frac % 256) ∷ pack (nibbles_of neg (digits_of (d ∷ whole) frac)))
unfolding encode_from start_at
encode_from-text neg d whole frac b aw af eb =
    let sig = digits_of (d ∷ whole) frac in
    let buf = text neg (d ∷ whole) frac in
    let (e, run, h, s) = encode_loop-text b neg (d ∷ whole) frac aw af in
    let h' = subst (λ x. Holds (pad_of x) e sig) eb h in
    ap
      (λ (r : Result Encoder). elim r as (λ x. Result (List ℕ)) [
        | ok e ↦ ok (finish (sign_of buf) e)
        | err x ↦ err x
      ])
      run
    ∙ ap (λ sign. ok (finish sign e)) (sign_of-text neg d whole frac aw.0)
    ∙ ap ok (finish-nibbles neg e sig h')
    ∙ ap (λ n. ok ((n % 256) ∷ pack (nibbles_of neg sig))) s

-- The bytes that encode a number: its scale, and its digits and sign packed.
pub encode-text :
    (neg : Bool) (d : ℕ) (whole frac : List ℕ)
    → All IsDigit (d ∷ whole)
    → All IsDigit frac
    → encode_string_to_bcd (text neg (d ∷ whole) frac)
      ≡ ok ((length frac % 256) ∷ pack (nibbles_of neg (digits_of (d ∷ whole) frac)))
encode-text neg d whole frac aw af =
    encode_lem neg d whole frac
    ∙ encode_from-text neg d whole frac _ aw af (
        ap (λ n. n % 2 == 1) (get_number_length-text neg d whole frac aw af)
        ∙ high_at_start (digits_of (d ∷ whole) frac))
  where
    encode_lem :
        (neg : Bool) (d : ℕ) (whole frac : List ℕ)
        → encode_string_to_bcd (text neg (d ∷ whole) frac)
          ≡ encode_from
              (get_number_length (text neg (d ∷ whole) frac) % 2 == 1)
              (text neg (d ∷ whole) frac)
    encode_lem true d whole frac = unfold encode_string_to_bcd in refl
    encode_lem false d whole frac = unfold encode_string_to_bcd in refl
