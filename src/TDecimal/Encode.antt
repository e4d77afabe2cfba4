-- ===== src/TDecimal/Encode.antt =====
-- What `encodeStringToBCD` computes on the text of a number (Bcd): the significant digits, packed.
use mathlib.Core.List.{append_assoc}
use rabbit_dex_backend.Common.{
  ℕ, ◌+◌, ◌-◌, ◌≤◌, ◌<◌, ◌≡◌, refl, ap, sym, ◌∙◌, inl, inr, Bool, true, false, not, ◌&&◌, List, [],
  ◌∷◌, ◌++◌, map, arith, ◌==◌, if◌then◌else◌, length, All, Bool-cases,
}
use rabbit_dex_backend.TDecimal.Bcd.{
  ok, Encoder, or_last, is_empty, put_nibble, put_digit, encode_byte, encode_loop,
}
use rabbit_dex_backend.TDecimal.Nibbles.{
  IsNibble, pack, is_even, or_nibbles, or_last-pack, append-pack, is_even-snoc, All-snoc,
  significant, collect, feed_digit, feed, Holds, pad_of, IsDigit, pack_nonempty,
}

put_nibble-pack :
    (ns : List ℕ) (d : ℕ)
    → is_empty (pack ns) ≡ false
    → All IsNibble ns
    → d < 16
    → put_nibble (is_even ns) (pack ns) d ≡ pack (ns ++ d ∷ [])
unfolding put_nibble
put_nibble-pack ns d nonempty a h = elim (Bool-cases (is_even ns)) [
  | inl e ↦ rw e (append-pack ns d e h)
  | inr e ↦ rw (e, nonempty) (or_last-pack ns d e a h)
]

-- A nibble goes behind those that the buffer holds.
put_digit-Holds :
    (e : Encoder) (pad sig : List ℕ) (d : ℕ)
    → Holds pad e sig
    → is_empty sig ≡ false
    → is_empty (pack (pad ++ sig)) ≡ false
    → is_empty (sig ++ d ∷ []) ≡ false
    → d < 10
    → Holds pad (put_digit e d) (sig ++ d ∷ [])
unfolding put_digit
put_digit-Holds e pad sig d h some_digit nonempty more lt =
    let ns = pad ++ sig in
    let packed : e.byte_buf ≡ pack ns = rw some_digit at (h.packed) in
    let assoc : (pad ++ sig) ++ d ∷ [] ≡ pad ++ (sig ++ d ∷ []) = append_assoc pad sig (d ∷ []) in
    record {
      parity = ap not h.parity ∙ sym (is_even-snoc ns d) ∙ ap is_even assoc;
      packed = rw more (
          ap (λ x. put_nibble x e.byte_buf d) h.parity
          ∙ ap (λ x. put_nibble (is_even ns) x d) packed
          ∙ put_nibble-pack ns d nonempty h.nibbles (omega arith)
          ∙ ap pack assoc);
      nibbles = rw assoc at (All-snoc ns d h.nibbles (omega arith));
    }

Holds-first :
    (b : Bool) (e : Encoder) (d : ℕ)
    → Holds (pad_of b) e []
    → d < 10
    → Holds (pad_of b) (put_digit e d) (d ∷ [])
unfolding put_digit put_nibble or_last
Holds-first true e d h lt = record {
  parity = ap not h.parity;
  packed =
      ap (λ x. put_nibble x e.byte_buf d) h.parity
      ∙ ap (λ x. put_nibble true x d) h.packed
      ∙ ap (λ x. x ∷ []) (omega arith);
  nibbles = (omega arith, tt);
}
Holds-first false e d h lt = record {
  parity = ap not h.parity;
  packed =
      ap (λ x. put_nibble x e.byte_buf d) h.parity
      ∙ ap (λ x. put_nibble false x d) h.packed
      ∙ ap (λ x. x ∷ []) (or_nibbles 0 d (omega arith) (omega arith));
  nibbles = (omega arith, (omega arith, tt));
}

pub pad_full : (b : Bool) (s : ℕ) (sig : List ℕ) → is_empty (pack (pad_of b ++ s ∷ sig)) ≡ false
pad_full true s sig = pack_nonempty s sig
pad_full false s sig = refl

-- A digit is skipped exactly if it is a zero before the first digit.
feed_digit_lem :
    (e : Encoder) (d : ℕ) (skip : Bool)
    → (is_empty e.byte_buf && d == 0) ≡ skip
    → feed_digit e d ≡ (if skip then e else put_digit e d)
unfolding feed_digit
feed_digit_lem e d skip h = ap (λ t. if t then e else put_digit e d) h

feed_digit-Holds :
    (b : Bool) (e : Encoder) (sig : List ℕ) (d : ℕ)
    → Holds (pad_of b) e sig
    → d < 10
    → Holds (pad_of b) (feed_digit e d) (significant sig d)
feed_digit-Holds b e [] d h lt =
    let at_start : (is_empty e.byte_buf && d == 0) ≡ (d == 0) =
      ap (λ x. is_empty x && d == 0) h.packed in
    elim (Bool-cases (d == 0)) [
      | inl z ↦ rw (z, feed_digit_lem e d true (at_start ∙ z)) h
      | inr nz ↦ rw (nz, feed_digit_lem e d false (at_start ∙ nz)) (Holds-first b e d h lt)
    ]
feed_digit-Holds b e (s ∷ sig) d h lt =
    let full : is_empty e.byte_buf ≡ false = ap is_empty h.packed ∙ pad_full b s sig in
    rw (feed_digit_lem e d false (ap (λ x. x && d == 0) full))
      (put_digit-Holds e (pad_of b) (s ∷ sig) d h refl (pad_full b s sig) refl lt)

pub feed-Holds :
    (b : Bool) (e : Encoder) (sig ds : List ℕ)
    → Holds (pad_of b) e sig
    → All IsDigit ds
    → Holds (pad_of b) (feed e ds) (collect sig ds)
unfolding feed
feed-Holds b e sig [] h a = h
feed-Holds b e sig (d ∷ ds) h a =
    feed-Holds b (feed_digit e d) (significant sig d) ds (feed_digit-Holds b e sig d h a.0) a.1

-- The text of a list of digits.
abbrev pub chars : List ℕ → List ℕ
chars = map (λ d. d + b'0')

put_digit-scale : (e : Encoder) (d : ℕ) → (put_digit e d).scale ≡ e.scale
unfolding put_digit
put_digit-scale e d = refl

pub feed-scale : (e : Encoder) (ds : List ℕ) → (feed e ds).scale ≡ e.scale
unfolding feed feed_digit
feed-scale e [] = refl
feed-scale e (d ∷ ds) = feed-scale (feed_digit e d) ds ∙ one (is_empty e.byte_buf && d == 0)
  where
    one : (t : Bool) → (if t then e else put_digit e d).scale ≡ e.scale
    one true = refl
    one false = put_digit-scale e d

zero_char : (d : ℕ) → (d + b'0' == b'0') ≡ (d == 0)
zero_char d = ground arith

encode_byte-digit :
    (i : ℕ) (e : Encoder) (d : ℕ) (rest : List ℕ)
    → d < 10
    → encode_byte i e (d + b'0') rest ≡ ok (feed_digit e d)
unfolding encode_byte feed_digit
encode_byte-digit i e d rest lt =
    let same : d + b'0' - b'0' ≡ d = omega arith in
    elim (Bool-cases (is_empty e.byte_buf && d == 0)) [
      | inl z ↦ rw (zero_char d, z)
      | inr nz ↦ rw (zero_char d, nz, same) (ground arith)
    ]

-- The loop feeds the digits of the text one by one.
pub encode_loop-ok :
    (i : ℕ) (e : Encoder) (ch : ℕ) (rest : List ℕ) {e' : Encoder}
    → encode_byte i e ch rest ≡ ok e'
    → encode_loop i e (ch ∷ rest) ≡ encode_loop (i + 1) e' rest
unfolding encode_loop
encode_loop-ok i e ch rest h = rw (h, encode_loop)

pub encode_loop-chars :
    (i : ℕ) (e : Encoder) (ds rest : List ℕ)
    → All IsDigit ds
    → (j : ℕ) × (i ≤ j) × (encode_loop i e (chars ds ++ rest) ≡ encode_loop j (feed e ds) rest)
unfolding feed
encode_loop-chars i e [] rest a = (i, omega arith, refl)
encode_loop-chars i e (d ∷ ds) rest a =
    let (j, le, ih) = encode_loop-chars (i + 1) (feed_digit e d) ds rest a.1 in
    (
      j,
      omega arith,
      encode_loop-ok i e (d + b'0') (chars ds ++ rest)
            (encode_byte-digit i e d (chars ds ++ rest) a.0)
          ∙ ih,
    )

pub encode_byte-point :
    (i : ℕ) (e : Encoder) (rest : List ℕ)
    → e.scale ≡ 0
    → encode_byte i e b'.' rest ≡ ok (record e { scale = length rest })
unfolding encode_byte
encode_byte-point i e rest h = ground arith
