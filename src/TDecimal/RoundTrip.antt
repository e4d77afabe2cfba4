-- ===== src/TDecimal/RoundTrip.antt =====
-- The codec in both directions (Bcd, Text, Decode).
use mathlib.Core.List.{append_assoc, append-nil}
use native.Mathlib.Nat.{mod-eq_of_lt}
use rabbit_dex_backend.Common.{
  ℕ, zero, suc, ◌+◌, ◌-◌, ◌%◌, ◌<◌, ◌≡◌, refl, ap, sym, ◌∙◌, ◌≢◌, inl, inr, Bool, true, false, some,
  List, [], ◌∷◌, ◌++◌, arith, ltb, ◌==◌, if◌then◌else◌, length, All, Bool-cases, length-append,
  replicate,
}
use rabbit_dex_backend.TDecimal.Bcd.{
  ok, encode_string_to_bcd, decode_string_from_bcd, padding, is_empty, is_negative,
}
use rabbit_dex_backend.TDecimal.Nibbles.{pack, collect, significant, IsDigit}
use rabbit_dex_backend.TDecimal.Encode.{chars}
use rabbit_dex_backend.TDecimal.Text.{
  text, fraction, sign_text, digits_of, sign_nibble, nibbles_of, encode-text,
}
use rabbit_dex_backend.TDecimal.Decode.{emit, HeadPos, decode-nibbles}

-- A whole part with no superfluous zero in front.
abbrev pub IsWhole : List ℕ → Type 0
IsWhole [] = ⊥
IsWhole (d ∷ []) = Unit
IsWhole (d ∷ e ∷ ds) = d ≢ 0

-- The texts of numbers in their usual form: no leading zeroes but one before a point, fewer than
-- 256 digits behind it, and no minus before a zero.
pub record IsNumeral (neg : Bool) (whole frac : List ℕ) : Type 0 where
  pub whole_digits : All IsDigit whole
  pub frac_digits : All IsDigit frac
  pub whole_form : IsWhole whole
  pub frac_short : length frac < 256
  pub signed : neg ≡ true → is_empty (digits_of whole frac) ≡ false

significant-HeadPos : (sig : List ℕ) (d : ℕ) → HeadPos sig → HeadPos (significant sig d)
significant-HeadPos [] d h = elim (Bool-cases (d == 0)) [
  | inl z ↦ rw z tt
  | inr nz ↦ rw nz (ground arith)
]
significant-HeadPos (s ∷ sig) d h = h

significant-digits :
    (sig : List ℕ) (d : ℕ) → All IsDigit sig → d < 10 → All IsDigit (significant sig d)
significant-digits [] d a lt = elim (Bool-cases (d == 0)) [
  | inl z ↦ rw z tt
  | inr nz ↦ rw nz (lt, tt)
]
significant-digits (s ∷ sig) d a lt = (a.0, snoc sig a.1)
  where
    snoc : (xs : List ℕ) → All IsDigit xs → All IsDigit (xs ++ d ∷ [])
    snoc [] b = (lt, tt)
    snoc (x ∷ xs) b = (b.0, snoc xs b.1)

collect_lem :
    (sig ds : List ℕ)
    → All IsDigit sig
    → HeadPos sig
    → All IsDigit ds
    → All IsDigit (collect sig ds) × HeadPos (collect sig ds)
collect_lem sig [] a h b = (a, h)
collect_lem sig (d ∷ ds) a h b =
    collect_lem (significant sig d) ds (significant-digits sig d a b.0)
      (significant-HeadPos sig d h) b.1

-- Behind the first digit every digit counts.
collect-append : (s : ℕ) (sig ds : List ℕ) → collect (s ∷ sig) ds ≡ s ∷ (sig ++ ds)
collect-append s sig [] = ap (◌∷◌ s) (sym (append-nil sig))
collect-append s sig (d ∷ ds) =
    collect-append s (sig ++ d ∷ []) ds ∙ ap (◌∷◌ s) (append_assoc sig (d ∷ []) ds)

-- What does not count are zeroes in front.
leading_zeroes : (ds : List ℕ) → (k : ℕ) × (ds ≡ replicate k 0 ++ collect [] ds)
leading_zeroes [] = (0, refl)
leading_zeroes (d ∷ ds) = elim (Bool-cases (d == 0)) [
  | inl z ↦
      let (k, e) = leading_zeroes ds in
      let zero_digit : d ≡ 0 = ground arith in (suc k, rw (z, zero_digit) (ap (◌∷◌ 0) e))
  | inr nz ↦ (0, rw nz (sym (collect-append d [] ds)))
]

emit-below : (scale : ℕ) (ds : List ℕ) → length ds < scale → emit scale ds ≡ chars ds
emit-below scale [] h = refl
emit-below scale (x ∷ xs) h =
    let no_point : (length (x ∷ xs) == scale) ≡ false = ground arith in
    rw no_point (ap (◌∷◌ (x + b'0')) (emit-below scale xs (omega arith)))

emit-fraction : (ds : List ℕ) → emit (length ds) ds ≡ fraction ds
emit-fraction [] = refl
emit-fraction (x ∷ xs) =
    let point : (length (x ∷ xs) == length (x ∷ xs)) ≡ true = ground arith in
    rw point (ap (λ r. b'.' ∷ (x + b'0') ∷ r) (emit-below (length (x ∷ xs)) xs (omega arith)))

emit-append :
    (whole frac : List ℕ) → emit (length frac) (whole ++ frac) ≡ chars whole ++ fraction frac
emit-append [] frac = emit-fraction frac
emit-append (x ∷ xs) frac =
    let no_point : (suc (length (xs ++ frac)) == length frac) ≡ false =
      ground (arith, length-append {0} xs frac) in
    rw no_point (ap (◌∷◌ (x + b'0')) (emit-append xs frac))

chars-zeroes : (k : ℕ) (ds : List ℕ) → chars (replicate k 0 ++ ds) ≡ replicate k b'0' ++ chars ds
chars-zeroes zero ds = refl
chars-zeroes (suc k) ds = ap (◌∷◌ b'0') (chars-zeroes k ds)

length-zeroes : (k : ℕ) (ds : List ℕ) → length (replicate {A = ℕ} k 0 ++ ds) ≡ k + length ds
length-zeroes zero ds = omega arith
length-zeroes (suc k) ds = omega (arith, length-zeroes k ds)

padding-below :
    (scale n : ℕ) → n < scale → padding scale n ≡ b'0' ∷ b'.' ∷ replicate (scale - n) b'0'
unfolding padding
padding-below scale n h = let short : ltb n scale ≡ true = ground arith in rw short

padding-at : (n : ℕ) → padding n n ≡ b'0' ∷ []
unfolding padding
padding-at n =
    let long : ltb n n ≡ false = ground arith in
    let same : (n == n) ≡ true = ground arith in rw (long, same)

padding-above : (scale n : ℕ) → scale < n → padding scale n ≡ []
unfolding padding
padding-above scale n h =
    let long : ltb n scale ≡ false = ground arith in
    let other : (scale == n) ≡ false = ground arith in rw (long, other)

-- A number below one: the missing zeroes come back.
padding-zeroes :
    (k : ℕ) (sig frac : List ℕ)
    → frac ≡ replicate k 0 ++ sig
    → padding (length frac) (length sig) ++ emit (length frac) sig ≡ b'0' ∷ fraction frac
padding-zeroes zero sig frac e = rw e (
    ap (λ x. x ++ emit (length sig) sig) (padding-at (length sig))
    ∙ ap (◌∷◌ b'0') (emit-fraction sig))
padding-zeroes (suc k) sig frac e =
    let len = length-zeroes (suc k) sig in
    let gap : length (replicate {A = ℕ} (suc k) 0 ++ sig) - length sig ≡ suc k =
      omega (arith, len) in
    rw e (
      ap (λ x. x ++ emit (length (replicate {A = ℕ} (suc k) 0 ++ sig)) sig)
        (padding-below _ (length sig) (omega (arith, len))
          ∙ ap (λ m. b'0' ∷ b'.' ∷ replicate m b'0') gap)
      ∙ ap (λ x. b'0' ∷ b'.' ∷ (replicate (suc k) b'0' ++ x))
          (emit-below _ sig (omega (arith, len)))
      ∙ ap (λ x. b'0' ∷ b'.' ∷ x) (sym (chars-zeroes (suc k) sig)))

padding-whole :
    (d : ℕ) (whole frac : List ℕ)
    → d ≢ 0
    → padding (length frac) (length (digits_of (d ∷ whole) frac))
        ++ emit (length frac) (digits_of (d ∷ whole) frac)
      ≡ chars (d ∷ whole) ++ fraction frac
padding-whole d whole frac ne =
    let first : (d == 0) ≡ false = ground arith in
    let digits : digits_of (d ∷ whole) frac ≡ (d ∷ whole) ++ frac =
      rw (first, collect-append d [] whole) (collect-append d whole frac) in
    let longer : length frac < length ((d ∷ whole) ++ frac) =
      omega (arith, length-append {0} whole frac) in
    rw digits (
      ap (λ x. x ++ emit (length frac) ((d ∷ whole) ++ frac)) (padding-above (length frac) _ longer)
      ∙ emit-append (d ∷ whole) frac)

padding-digits :
    (d : ℕ) (whole frac : List ℕ)
    → IsWhole (d ∷ whole)
    → padding (length frac) (length (digits_of (d ∷ whole) frac))
        ++ emit (length frac) (digits_of (d ∷ whole) frac)
      ≡ chars (d ∷ whole) ++ fraction frac
padding-digits d (e ∷ whole) frac h = padding-whole d (e ∷ whole) frac h
padding-digits d [] frac h = elim (Bool-cases (d == 0)) [
  | inl z ↦
      let zero_digit : d ≡ 0 = ground arith in
      let (k, e) = leading_zeroes frac in
      rw (zero_digit) (padding-zeroes k (collect [] frac) frac e)
  | inr nz ↦ padding-whole d [] frac (ground arith)
]

-- The sign nibble stands for the sign.
sign_nibble-text :
    (neg : Bool) (sig : List ℕ)
    → (neg ≡ true → is_empty sig ≡ false)
    → (if is_negative (sign_nibble neg sig) then b'-' ∷ [] else []) ≡ sign_text neg
sign_nibble-text true [] h = cc (h refl)
sign_nibble-text true (s ∷ sig) h = refl
sign_nibble-text false [] h = refl
sign_nibble-text false (s ∷ sig) h = refl

sign_nibble_bounds :
    (neg : Bool) (sig : List ℕ) → (9 < sign_nibble neg sig) × (sign_nibble neg sig < 16)
sign_nibble_bounds neg [] = (omega arith, omega arith)
sign_nibble_bounds true (s ∷ sig) = (omega arith, omega arith)
sign_nibble_bounds false (s ∷ sig) = (omega arith, omega arith)

-- Encoding succeeds on the text of every number in its usual form, and decoding the bytes gives
-- back that text: no digit, no zero behind the point, no sign is lost.
pub decode-encode :
    (neg : Bool) (whole frac : List ℕ)
    → IsNumeral neg whole frac
    → (bytes : List ℕ) × (encode_string_to_bcd (text neg whole frac) ≡ ok bytes)
      × (decode_string_from_bcd bytes ≡ some (text neg whole frac))
decode-encode neg [] frac n = absurd n.whole_form
decode-encode neg (d ∷ whole) frac n =
    let sig = digits_of (d ∷ whole) frac in
    let first = collect_lem [] (d ∷ whole) tt tt n.whole_digits in
    let all = collect_lem (collect [] (d ∷ whole)) frac first.0 first.1 n.frac_digits in
    let s = sign_nibble neg sig in
    let bounds = sign_nibble_bounds neg sig in
    let scale : length frac % 256 ≡ length frac = mod-eq_of_lt n.frac_short in
    (
      (length frac % 256) ∷ pack (nibbles_of neg sig),
      encode-text neg d whole frac n.whole_digits n.frac_digits,
      ap (λ m. decode_string_from_bcd (m ∷ pack (nibbles_of neg sig))) scale
          ∙ decode-nibbles (length frac) sig s all.0 all.1 bounds.0 bounds.1
          ∙ ap some (
              ap (λ x. x ++ (padding (length frac) (length sig) ++ emit (length frac) sig))
                (sign_nibble-text neg sig n.signed)
              ∙ ap (◌++◌ (sign_text neg)) (padding-digits d whole frac n.whole_form)),
    )
