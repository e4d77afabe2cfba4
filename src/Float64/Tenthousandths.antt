-- ===== src/Float64/Tenthousandths.antt =====
-- An instance of the floats for concrete runs: integers that count ten-thousandths.
use rabbit_dex_backend.Common.{
  ℕ, ◌+◌, ◌*◌, ◌/◌, ◌%◌, ◌<◌, ◌≡◌, refl, Bool, arith, leb, ltb, if◌then◌else◌,
}
use rabbit_dex_backend.Decimal.Hundredths.{ℤ, pos, pos_part, neg_part, sub_ℕ, ◌+ℤ◌, ◌-ℤ◌}
use rabbit_dex_backend.Float64.{Float64, Convert}

abbrev leb_ℤ : ℤ → ℤ → Bool
leb_ℤ a b = leb (pos_part a + neg_part b) (pos_part b + neg_part a)

abbrev neg_ℤ : ℤ → ℤ
neg_ℤ a = sub_ℕ (neg_part a) (pos_part a)

abbrev mul_ℤ : ℤ → ℤ → ℤ
mul_ℤ a b =
    sub_ℕ ((pos_part a * pos_part b + neg_part a * neg_part b) / 10_000)
      ((pos_part a * neg_part b + neg_part a * pos_part b) / 10_000)

-- Towards zero; by zero it gives zero here.
abbrev div_ℤ : ℤ → ℤ → ℤ
div_ℤ a b =
    let size = pos_part b + neg_part b in
    sub_ℕ ((if leb_ℤ (pos 0) b then pos_part a else neg_part a) * 10_000 / size)
      ((if leb_ℤ (pos 0) b then neg_part a else pos_part a) * 10_000 / size)

abbrev whole : ℕ → ℕ
whole n = (n + 5_000) / 10_000

abbrev round_ℤ : ℤ → ℤ
round_ℤ a = sub_ℕ (whole (pos_part a) * 10_000) (whole (neg_part a) * 10_000)

abbrev thousands_ℤ : ℤ → ℤ
thousands_ℤ a = sub_ℕ (whole (pos_part a) / 1_000 * 10_000) (whole (neg_part a) / 1_000 * 10_000)

pub neg_parts_ℤ : (a : ℤ) → pos_part (neg_ℤ a) + pos_part a ≡ neg_part (neg_ℤ a) + neg_part a
neg_parts_ℤ a = ground arith

pub lit_parts_ℤ : (m n : ℕ) → m < n → n < 65_536 → m + 0 < n + 0
lit_parts_ℤ m n h small = omega arith

instance abbrev pub tenthousandths : Float64 ℤ
tenthousandths = record {
  plus = pos_part;
  minus = neg_part;
  lit = pos;
  neg = neg_ℤ;
  add = ◌+ℤ◌;
  sub = ◌-ℤ◌;
  mul = mul_ℤ;
  div = div_ℤ;
  round = round_ℤ;
  thousands = thousands_ℤ;
  has_rest = λ a. ltb 0 (whole (pos_part a) % 1_000);
  le_f = leb_ℤ;
  le_f_parts = λ a b. refl;
  lit_parts = lit_parts_ℤ;
  lit_zero = refl;
  neg_parts = neg_parts_ℤ;
}

instance abbrev pub convert : Convert ℤ ℤ
convert = record { to_float = λ a. a; of_float = λ a. a }
