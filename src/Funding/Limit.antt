-- ===== src/Funding/Limit.antt =====
-- The bounds of the funding rate.
use rabbit_dex_backend.Common.{◌≡◌, refl, sym, subst, Bool, true, false, not, arith, if◌then◌else◌}
use rabbit_dex_backend.Float64.{Float64, Le, le_f→Le}
use rabbit_dex_backend.Funding.{limit, max_rate}

module _ {F : Type 0} ⦃fl : Float64 F⦄ where
  open fl use {lit, neg, le_f, lit_parts, lit_zero, neg_parts}

  neg_max_rate-Le : (top : F) → top ≡ lit 100 → Le (neg top) top
  neg_max_rate-Le top e =
      let order = lit_parts 0 100 (omega arith) (omega arith) in
      let zeros = lit_zero in
      let opposite = neg_parts top in
      subst (λ t. Le (neg t) t) (sym e) (let o = neg_parts (lit 100) in omega arith)

  Le→le_f : (a b : F) → Le a b → le_f a b ≡ true
  Le→le_f a b h = grind arith

  limit-within :
      (rate : F) → le_f (neg max_rate) rate ≡ true → le_f rate max_rate ≡ true → limit rate ≡ rate
  unfolding limit
  limit-within rate e e' = let h = e in let h' = e' in rw e (rw e' refl)

  limit-Le : (rate : F) → Le (neg (lit 100)) (limit rate) × Le (limit rate) (lit 100)
  unfolding limit
  limit-Le rate = go _ _ refl refl
    where
      go :
          (b c : Bool)
          → le_f (neg max_rate) rate ≡ b
          → le_f rate max_rate ≡ c
          → (let x = if not b then neg max_rate else if not c then max_rate else rate in
              Le (neg max_rate) x × Le x max_rate)
      go false c e e' = (omega arith, neg_max_rate-Le max_rate refl)
      go true false e e' = (neg_max_rate-Le max_rate refl, omega arith)
      go true true e e' = (le_f→Le (neg max_rate) rate e, le_f→Le rate max_rate e')

  -- The rate that `limit` gives is between -0.01 and 0.01, and to limit it once more gives it again.
  pub limit-bounds :
      (rate : F)
      → Le (neg (lit 100)) (limit rate)
        × Le (limit rate) (lit 100)
        × (limit (limit rate) ≡ limit rate)
  limit-bounds rate =
      let b = limit-Le rate in
      (
        b.0,
        b.1,
        limit-within (limit rate) (Le→le_f (neg max_rate) (limit rate) b.0)
            (Le→le_f (limit rate) max_rate b.1),
      )
