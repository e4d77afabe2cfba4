-- ===== src/Float64.antt =====
-- What the services use of Go's float64, and of the conversions of shopspring decimals to and from
-- it. Every finite float64 is a whole multiple of 2^-1074, so its value is `plus x - minus x` in
-- that unit, and an infinity is a value beyond all of these: comparisons are exact. NaN is left
-- out: no decimal converts to it. Sums, products and quotients round, and have no laws here.
pub mod Tenthousandths
use rabbit_dex_backend.Common.{
  ℕ, ◌+◌, ◌≤◌, ◌<◌, ◌≡◌, Bool, true, false, not, ◌&&◌, arith, leb, if◌then◌else◌,
}

pub record Float64 (F : Type 0) : Type 0 where
  pub plus : F → ℕ
  pub minus : F → ℕ
  -- the literal n / 10,000
  pub lit : ℕ → F
  pub neg : F → F
  pub add : F → F → F
  pub sub : F → F → F
  pub mul : F → F → F
  pub div : F → F → F
  -- `math.Round`
  pub round : F → F
  -- `float64(int(math.Round(x)) / 1000)`, and whether the remainder of that division is positive
  pub thousands : F → F
  pub has_rest : F → Bool
  -- `x <= y`
  pub le_f : F → F → Bool
  pub le_f_parts : (a b : F) → le_f a b ≡ leb (plus a + minus b) (plus b + minus a)
  -- Rounding keeps the order of the literals below 6.5536.
  pub lit_parts :
      (m n : ℕ) → m < n → n < 65_536 → plus (lit m) + minus (lit n) < plus (lit n) + minus (lit m)
  pub lit_zero : plus (lit 0) ≡ minus (lit 0)
  pub neg_parts : (a : F) → plus (neg a) + plus a ≡ minus (neg a) + minus a

-- `InexactFloat64` and `NewFromFloat`.
pub record Convert (D F : Type 0) : Type 0 where
  pub to_float : D → F
  pub of_float : F → D

module _ {F : Type 0} ⦃fl : Float64 F⦄ where
  open fl use {plus, minus, le_f, lit}

  abbrev pub Le : F → F → Type 0
  Le a b = plus a + minus b ≤ plus b + minus a

  abbrev pub Lt : F → F → Type 0
  Lt a b = plus a + minus b < plus b + minus a

  -- `a < b`, and `b > a`
  abbrev pub lt_f : F → F → Bool
  lt_f a b = not (le_f b a)

  -- `x == 0.0`
  abbrev pub is_zero : F → Bool
  is_zero x = le_f x (lit 0) && le_f (lit 0) x

  pub le_f→Le : (a b : F) → le_f a b ≡ true → Le a b
  le_f→Le a b h = grind arith

  pub not_le→Lt : (a b : F) → le_f a b ≡ false → Lt b a
  not_le→Lt a b h = grind arith

  -- `if x < limit { x = limit }` and `if x > limit { x = limit }`
  abbrev pub at_least : F → F → F
  at_least limit x = if lt_f x limit then limit else x

  abbrev pub at_most : F → F → F
  at_most limit x = if lt_f limit x then limit else x

  pub at_least-Le : (limit x : F) → Le limit (at_least limit x)
  at_least-Le limit x = grind arith

  pub at_most-Le : (limit x : F) → Le (at_most limit x) limit
  at_most-Le limit x = grind arith
