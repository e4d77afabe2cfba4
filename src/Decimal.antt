-- ===== src/Decimal.antt =====
-- What the services use of `github.com/shopspring/decimal`, which is not part of this repository:
-- an exact, unbounded decimal type. It is an interface: a type `D` with the operations that the
-- code calls, and the laws that its documentation states. The value of a decimal `d` is
-- `plus d - minus d`, counted in a unit fine enough for every amount of the run, so `omega`
-- reads sums and comparisons. Two decimals of one value need not be equal (1.0 and 1.00).
pub mod Hundredths
use rabbit_dex_backend.Common.{
  ℕ, ◌+◌, ◌*◌, ◌≤◌, ◌<◌, ◌≡◌, Bool, true, false, arith, not, leb, if◌then◌else◌,
}

pub record Decimal (D : Type 0) : Type 0 where
  pub plus : D → ℕ
  pub minus : D → ℕ
  -- how many units make 0.01
  pub cent : ℕ
  -- `decimal.Zero`
  pub nil : D
  -- `NewFromFloat`, `NewFromInt` of n / 100
  pub of_cents : ℕ → D
  pub add : D → D → D
  pub sub : D → D → D
  pub mul : D → D → D
  -- `NewFromFloat(-1)`
  pub minus_one : D
  -- `LessThanOrEqual`
  pub le_dec : D → D → Bool
  pub cent_pos : 0 < cent
  pub nil_parts : plus nil ≡ minus nil
  pub of_cents_parts : (n : ℕ) → plus (of_cents n) ≡ n * cent + minus (of_cents n)
  pub add_parts : (a b : D) → plus (add a b) + minus a + minus b ≡ minus (add a b) + plus a + plus b
  pub sub_parts : (a b : D) → plus (sub a b) + minus a + plus b ≡ minus (sub a b) + plus a + minus b
  pub le_dec_parts : (a b : D) → le_dec a b ≡ leb (plus a + minus b) (plus b + minus a)
  pub mul_minus_one : (a : D) → plus (mul a minus_one) + plus a ≡ minus (mul a minus_one) + minus a
  -- A fraction between 0 and 1 of an amount that is not negative.
  pub mul_fraction :
      (a p : D)
      → minus a ≤ plus a
      → minus p ≤ plus p
      → plus p ≤ 100 * cent + minus p
      → (minus (mul a p) ≤ plus (mul a p)) × (plus (mul a p) + minus a ≤ plus a + minus (mul a p))

module _ {D : Type 0} ⦃dec : Decimal D⦄ where
  open dec use {plus, minus, le_dec}

  abbrev pub Le : D → D → Type 0
  Le a b = plus a + minus b ≤ plus b + minus a

  abbrev pub Lt : D → D → Type 0
  Lt a b = plus a + minus b < plus b + minus a

  -- One value, whatever the representation.
  abbrev pub Same : D → D → Type 0
  Same a b = plus a + minus b ≡ plus b + minus a

  -- `a.LessThan(b)`, and `b.GreaterThan(a)`
  abbrev pub lt_dec : D → D → Bool
  lt_dec a b = not (le_dec b a)

  -- `decimal.Min(a, b)` returns its first argument unless a later one is smaller.
  abbrev pub min_dec : D → D → D
  min_dec a b = if lt_dec b a then b else a

  pub le_true : (a b : D) → Le a b → le_dec a b ≡ true
  le_true a b h = grind arith

  pub le_dec→Le : (a b : D) → le_dec a b ≡ true → Le a b
  le_dec→Le a b h = grind arith

  pub Lt→lt_dec : (a b : D) → Lt a b → lt_dec a b ≡ true
  Lt→lt_dec a b h = grind arith

  pub lt_dec→Lt : (a b : D) → lt_dec a b ≡ true → Lt a b
  lt_dec→Lt a b h = grind arith

  pub Le→not-lt_dec : (a b : D) → Le b a → lt_dec a b ≡ false
  Le→not-lt_dec a b h = grind arith

  pub not_le→Lt : (a b : D) → le_dec a b ≡ false → Lt b a
  not_le→Lt a b h = grind arith

  pub not-lt_dec→Le : (a b : D) → lt_dec a b ≡ false → Le b a
  not-lt_dec→Le a b h = grind arith

module _ (D : Type 0) ⦃dec : Decimal D⦄ where
  pub of_cents-Lt : (m n : ℕ) → m < n → Lt (dec.of_cents m) (dec.of_cents n)
  of_cents-Lt m n h = grind (arith, dec.of_cents_parts, dec.cent_pos)
