-- ===== src/TDecimal/Decode.antt =====
-- What `decodeStringFromBCD` computes on packed digits and a sign (Bcd).
use mathlib.Core.List.{append_assoc, append-nil}
use rabbit_dex_backend.Common.{
  ℕ, suc, ◌+◌, ◌-◌, ◌*◌, ◌/◌, ◌%◌, ◌<◌, ◌≡◌, refl, ap, sym, ◌∙◌, ◌≢◌, inl, inr, Bool, true, false,
  not, some, List, [], ◌∷◌, ◌++◌, arith, leb, ◌==◌, if◌then◌else◌, length, All, Bool-cases,
  length-append,
}
use rabbit_dex_backend.TDecimal.Bcd.{
  Decoder, is_negative, process_nibble, decode_bytes, decode_first, last, padding, digits_in,
  decode_string_from_bcd,
}
use rabbit_dex_backend.TDecimal.Nibbles.{
  IsNibble, pack, is_even, is_even-cons, is_even-snoc, pad_of, IsDigit,
}

run : ℕ → Decoder → List ℕ → Decoder
run scale d [] = d
run scale d (n ∷ ns) = run scale (process_nibble scale d n) ns

nibbles_of_byte : (h l : ℕ) → l < 16 → ((h * 16 + l) / 16 ≡ h) × ((h * 16 + l) % 16 ≡ l)
nibbles_of_byte h l lt = (omega arith, omega arith)

decode_bytes-pack :
    (scale : ℕ) (d : Decoder) (ns : List ℕ)
    → is_even ns ≡ true
    → All IsNibble ns
    → decode_bytes scale d (pack ns) ≡ run scale d ns
unfolding decode_bytes run
decode_bytes-pack scale d [] e a = refl
decode_bytes-pack scale d (h ∷ []) e a = cc
decode_bytes-pack scale d (h ∷ l ∷ ns) e a =
    let (high, low) = nibbles_of_byte h l a.1.0 in
    rw (high, low)
      (decode_bytes-pack scale (process_nibble scale (process_nibble scale d h) l) ns e a.1.1)

-- The text of the digits, with the point before the last `scale` of them.
abbrev pub emit : ℕ → List ℕ → List ℕ
emit scale [] = []
emit scale (x ∷ xs) =
    (if length (x ∷ xs) == scale then b'.' ∷ [] else []) ++ ((x + b'0') ∷ emit scale xs)

process_nibble-digit :
    (scale n : ℕ) (out : List ℕ) (x : ℕ)
    → x < 10
    → process_nibble scale (record { ndigits = suc n; out = out }) x ≡ record {
      ndigits = n;
      out = out ++ ((if suc n == scale then b'.' ∷ [] else []) ++ (x + b'0') ∷ []);
    }
unfolding process_nibble
process_nibble-digit scale n out x lt =
    let digit : leb x 9 ≡ true = ground arith in
    let down : suc n - 1 ≡ n = omega arith in
    elim (Bool-cases (suc n == scale)) [
      | inl e ↦ rw (digit, down, e, append_assoc)
      | inr e ↦ rw (digit, down, e)
    ]

process_nibble-sign : (scale : ℕ) (d : Decoder) (s : ℕ) → 9 < s → process_nibble scale d s ≡ d
unfolding process_nibble
process_nibble-sign scale d s lt = let sign : leb s 9 ≡ false = ground arith in rw sign

run-digits :
    (scale : ℕ) (out sig : List ℕ) (s : ℕ)
    → All IsDigit sig
    → 9 < s
    → (run scale (record { ndigits = length sig; out = out }) (sig ++ s ∷ [])).out
      ≡ out ++ emit scale sig
unfolding run
run-digits scale out [] s a lt =
    ap (λ d. d.out) (process_nibble-sign scale (record { ndigits = 0; out = out }) s lt)
    ∙ sym (append-nil out)
run-digits scale out (x ∷ xs) s a lt =
    let point : List ℕ = if suc (length xs) == scale then b'.' ∷ [] else [] in
    ap (λ d. (run scale d (xs ++ s ∷ [])).out) (process_nibble-digit scale (length xs) out x a.0)
    ∙ run-digits scale (out ++ (point ++ (x + b'0') ∷ [])) xs s a.1 lt
    ∙ append_assoc out (point ++ (x + b'0') ∷ []) (emit scale xs)
    ∙ ap (◌++◌ out) (append_assoc point ((x + b'0') ∷ []) (emit scale xs))

-- The last nibble of an even number of them is the low nibble of the last byte.
last-pack :
    (h l : ℕ) (ns : List ℕ) (s : ℕ)
    → is_even (h ∷ l ∷ ns) ≡ false
    → s < 16
    → last (h * 16 + l) (pack (ns ++ s ∷ [])) % 16 ≡ s
unfolding last
last-pack h l [] s e lt = cc
last-pack h l (n ∷ []) s e lt = omega arith
last-pack h l (n ∷ m ∷ ns) s e lt = last-pack n m ns s e lt

length-pack : (ns : List ℕ) → is_even ns ≡ true → length (pack ns) * 2 ≡ length ns
length-pack [] e = omega arith
length-pack (n ∷ []) e = cc
length-pack (n ∷ m ∷ ns) e = omega (arith, length-pack ns e)

abbrev minus_text : ℕ → List ℕ
minus_text s = if is_negative s then b'-' ∷ [] else []

abbrev significant_nibbles : ℕ → ℕ → List ℕ → List ℕ
significant_nibbles h l ns = if h == 0 then l ∷ ns else h ∷ l ∷ ns

abbrev number_of : ℕ → List ℕ → ℕ
number_of h ns = if h == 0 then length ns else suc (length ns)

decode_first-run :
    (scale : ℕ) (d : Decoder) (h l : ℕ) (ns : List ℕ)
    → All IsNibble (h ∷ l ∷ ns)
    → is_even ns ≡ true
    → decode_bytes scale (decode_first scale d (h * 16 + l)) (pack ns)
      ≡ run scale d (significant_nibbles h l ns)
unfolding decode_first run
decode_first-run scale d h l ns a e =
    let (high, low) = nibbles_of_byte h l a.1.0 in
    rw (high, low)
      (elim (Bool-cases (h == 0)) [
        | inl z ↦ rw z (decode_bytes-pack scale (process_nibble scale d l) ns e a.1.1)
        | inr nz ↦
            rw nz (
              decode_bytes-pack scale (process_nibble scale (process_nibble scale d h) l) ns e
                a.1.1)
      ])

digits_in-number_of :
    (h l : ℕ) (ns : List ℕ)
    → l < 16
    → is_even ns ≡ true
    → digits_in (h * 16 + l) (pack ns) ≡ number_of h ns
unfolding digits_in
digits_in-number_of h l ns lt e =
    let (high, low) = nibbles_of_byte h l lt in
    let len = length-pack ns e in
    rw high
      (elim (Bool-cases (h == 0)) [ inl z ↦ rw z (omega arith) | inr nz ↦ rw nz (omega arith) ])

decode_pair :
    (scale h l : ℕ) (ns : List ℕ) (s : ℕ)
    → All IsNibble (h ∷ l ∷ ns)
    → is_even ns ≡ true
    → last (h * 16 + l) (pack ns) % 16 ≡ s
    → decode_string_from_bcd (scale ∷ pack (h ∷ l ∷ ns))
      ≡ some
          (run scale
            (record {
              ndigits = number_of h ns;
              out = minus_text s ++ padding scale (number_of h ns);
            })
            (significant_nibbles h l ns)).out
unfolding decode_string_from_bcd
decode_pair scale h l ns s a e es =
    rw (es, digits_in-number_of h l ns a.1.0 e)
      (ap (λ d. some d.out) (decode_first-run scale _ h l ns a e))

All-append : (xs : List ℕ) (s : ℕ) → All IsDigit xs → s < 16 → All IsNibble (xs ++ s ∷ [])
All-append [] s a lt = (lt, tt)
All-append (x ∷ xs) s a lt = (omega arith, All-append xs s a.1 lt)

abbrev pub HeadPos : List ℕ → Type 0
HeadPos [] = Unit
HeadPos (x ∷ xs) = x ≢ 0

decode-out :
    (scale : ℕ) (sig : List ℕ) (s : ℕ)
    → All IsDigit sig
    → 9 < s
    → (run scale
        (record { ndigits = length sig; out = minus_text s ++ padding scale (length sig) })
        (sig ++ s ∷ [])).out
      ≡ minus_text s ++ (padding scale (length sig) ++ emit scale sig)
decode-out scale sig s a lt =
    run-digits scale (minus_text s ++ padding scale (length sig)) sig s a lt
    ∙ append_assoc (minus_text s) (padding scale (length sig)) (emit scale sig)

decode_join :
    (scale h l : ℕ) (ns sig : List ℕ) (s : ℕ)
    → All IsNibble (h ∷ l ∷ ns)
    → is_even ns ≡ true
    → last (h * 16 + l) (pack ns) % 16 ≡ s
    → number_of h ns ≡ length sig
    → significant_nibbles h l ns ≡ sig ++ s ∷ []
    → All IsDigit sig
    → 9 < s
    → decode_string_from_bcd (scale ∷ pack (h ∷ l ∷ ns))
      ≡ some (minus_text s ++ (padding scale (length sig) ++ emit scale sig))
decode_join scale h l ns sig s nib e es number digits a lo =
    decode_pair scale h l ns s nib e es
    ∙ ap (λ n. some (out_of n (significant_nibbles h l ns))) number
    ∙ ap (λ x. some (out_of (length sig) x)) digits
    ∙ ap some (decode-out scale sig s a lo)
  where
    out_of : ℕ → List ℕ → List ℕ
    out_of n x = (run scale (record { ndigits = n; out = minus_text s ++ padding scale n }) x).out

not-true : (b : Bool) → not b ≡ true → b ≡ false
not-true true h = cc
not-true false h = refl

nonzero : (x : ℕ) → x ≢ 0 → (x == 0) ≡ false
nonzero x h = ground arith

-- The text that the packed digits and the sign decode to.
decode-sized :
    (scale : ℕ) (sig : List ℕ) (s : ℕ) (even : Bool)
    → is_even sig ≡ even
    → All IsDigit sig
    → HeadPos sig
    → 9 < s
    → s < 16
    → decode_string_from_bcd (scale ∷ pack (pad_of (not even) ++ (sig ++ s ∷ [])))
      ≡ some (minus_text s ++ (padding scale (length sig) ++ emit scale sig))
decode-sized scale [] s true e a hd lo hi =
    decode_join scale 0 s [] [] s (omega arith, (hi, tt)) refl (unfold last in omega arith) refl
      refl tt lo
decode-sized scale (x ∷ xs) s true e a hd lo hi =
    let odd : is_even xs ≡ false = not-true _ (sym (is_even-cons x xs) ∙ e) in
    decode_join scale 0 x (xs ++ s ∷ []) (x ∷ xs) s
      (omega arith, (omega arith, All-append xs s a.1 hi)) (is_even-snoc xs s ∙ ap not odd)
      (last-pack 0 x xs s odd hi) (omega (arith, length-append {0} xs (s ∷ []))) refl a lo
decode-sized scale [] s false e a hd lo hi = cc
decode-sized scale (x ∷ []) s false e a hd lo hi =
    let pos = nonzero x hd in
    decode_join scale x s [] (x ∷ []) s (omega arith, (hi, tt)) refl (unfold last in omega arith)
      (rw pos) (rw pos) a lo
decode-sized scale (x ∷ y ∷ ys) s false e a hd lo hi =
    let pos = nonzero x hd in
    let len = length-append {0} ys (s ∷ []) in
    decode_join scale x y (ys ++ s ∷ []) (x ∷ y ∷ ys) s
      (omega arith, (omega arith, All-append ys s a.1.1 hi)) (is_even-snoc ys s ∙ ap not e)
      (last-pack x y ys s e hi) (rw pos (omega (arith, len))) (rw pos) a lo

-- The text that the packed digits and the sign decode to.
pub decode-nibbles :
    (scale : ℕ) (sig : List ℕ) (s : ℕ)
    → All IsDigit sig
    → HeadPos sig
    → 9 < s
    → s < 16
    → decode_string_from_bcd (scale ∷ pack (pad_of (not (is_even sig)) ++ (sig ++ s ∷ [])))
      ≡ some (minus_text s ++ (padding scale (length sig) ++ emit scale sig))
decode-nibbles scale sig s = decode-sized scale sig s (is_even sig) refl
