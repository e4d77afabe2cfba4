-- ===== src/Decimal/Hundredths.antt =====
-- An instance of the decimals: integers that count hundredths, with products rounded towards zero.
-- It shows that the laws can hold, and runs the model in tests.
use rabbit_dex_backend.Common.{
  ℕ, suc, ◌+◌, ◌-◌, ◌*◌, ◌/◌, ◌≤◌, ◌≡◌, refl, Bool, arith, leb, if◌then◌else◌,
}
use native.Mathlib.Nat.{le_refl}
use rabbit_dex_backend.Decimal.{Decimal}

-- `negsuc n` is -(n + 1).
pub data ℤ : Type 0 where
  pos : ℕ → ℤ
  negsuc : ℕ → ℤ

abbrev pub pos_part : ℤ → ℕ
pos_part (pos n) = n
pos_part (negsuc n) = 0

abbrev pub neg_part : ℤ → ℕ
neg_part (pos n) = 0
neg_part (negsuc n) = suc n

abbrev pub sub_ℕ : ℕ → ℕ → ℤ
sub_ℕ a b = if leb b a then pos (a - b) else negsuc (b - a - 1)

infixl 65 ◌+ℤ◌ ◌-ℤ◌
infixl 70 ◌*ℤ◌
abbrev pub ◌+ℤ◌ : ℤ → ℤ → ℤ
a +ℤ b = sub_ℕ (pos_part a + pos_part b) (neg_part a + neg_part b)

abbrev pub ◌-ℤ◌ : ℤ → ℤ → ℤ
a -ℤ b = sub_ℕ (pos_part a + neg_part b) (neg_part a + pos_part b)

-- The product of two numbers of hundredths, in hundredths.
abbrev pub ◌*ℤ◌ : ℤ → ℤ → ℤ
a *ℤ b =
    sub_ℕ ((pos_part a * pos_part b + neg_part a * neg_part b) / 100)
      ((pos_part a * neg_part b + neg_part a * pos_part b) / 100)

abbrev leb_ℤ : ℤ → ℤ → Bool
leb_ℤ a b = leb (pos_part a + neg_part b) (pos_part b + neg_part a)

pub of_cents_parts_ℤ : (n : ℕ) → n ≡ n * 1 + 0
of_cents_parts_ℤ n = omega arith

pub add_parts_ℤ :
    (a b : ℤ)
    → pos_part (a +ℤ b) + neg_part a + neg_part b ≡ neg_part (a +ℤ b) + pos_part a + pos_part b
add_parts_ℤ a b = ground arith

pub sub_parts_ℤ :
    (a b : ℤ)
    → pos_part (a -ℤ b) + neg_part a + pos_part b ≡ neg_part (a -ℤ b) + pos_part a + neg_part b
sub_parts_ℤ a b = ground arith

share-le : (a p : ℕ) → p ≤ 100 → a * p / 100 ≤ a
share-le a p h = let bound : a * p ≤ a * 100 = grind arith in omega arith

pub mul_fraction_ℤ :
    (a p : ℤ)
    → neg_part a ≤ pos_part a
    → neg_part p ≤ pos_part p
    → pos_part p ≤ 100 * 1 + neg_part p
    → (neg_part (a *ℤ p) ≤ pos_part (a *ℤ p))
      × (pos_part (a *ℤ p) + neg_part a ≤ pos_part a + neg_part (a *ℤ p))
mul_fraction_ℤ (pos a) (pos p) ha hp h = ground (arith, share-le a p)
mul_fraction_ℤ (pos a) (negsuc p) ha hp h = absurd (omega arith)
mul_fraction_ℤ (negsuc a) p ha hp h = absurd (omega arith)

pub mul_minus_one_ℤ :
    (a : ℤ) → pos_part (a *ℤ negsuc 99) + pos_part a ≡ neg_part (a *ℤ negsuc 99) + neg_part a
mul_minus_one_ℤ (pos a) = let whole : a * 100 / 100 ≡ a = omega arith in ground (arith, whole)
mul_minus_one_ℤ (negsuc a) =
    let whole : suc a * 100 / 100 ≡ suc a = omega arith in ground (arith, whole)

instance abbrev pub hundredths : Decimal ℤ
hundredths = record {
  plus = pos_part;
  minus = neg_part;
  cent = 1;
  nil = pos 0;
  of_cents = pos;
  add = ◌+ℤ◌;
  sub = ◌-ℤ◌;
  mul = ◌*ℤ◌;
  le_dec = leb_ℤ;
  cent_pos = le_refl 1;
  nil_parts = refl;
  of_cents_parts = of_cents_parts_ℤ;
  add_parts = add_parts_ℤ;
  sub_parts = sub_parts_ℤ;
  le_dec_parts = λ a b. refl;
  minus_one = negsuc 99;
  mul_minus_one = mul_minus_one_ℤ;
  mul_fraction = mul_fraction_ℤ;
}
