-- ===== src/Pricing/Medians.antt =====
-- What `median`, `closeEnough` and `checkDataConsistency` of pricing/market_price_service.go give.
use rabbit_dex_backend.Common.{
  ℕ, zero, suc, ◌+◌, ◌-◌, ◌*◌, ◌/◌, ◌%◌, ◌≤◌, ◌≡◌, refl, ap, ◌∙◌, ◌⊎◌, inl, inr, Bool, true, false,
  List, [], ◌∷◌, arith, ltb, ◌==◌, if◌then◌else◌, length, get_or, Bool-cases, All, All-weaken,
}
use rabbit_dex_backend.Float64.{Float64, Le, lt_f, is_zero, le_f→Le, not_le→Lt}
use rabbit_dex_backend.Pricing.{
  close_enough, five_percent, insert_float, sort_floats, median, has_two_close, is_consistent,
}

-- How many elements of a list pass a test.
abbrev count_by : {A : Type 0} → (A → Bool) → List A → ℕ
count_by test [] = 0
count_by test (x ∷ xs) = (if test x then 1 else 0) + count_by test xs

-- The same elements, each as often.
abbrev IsReordered : {A : Type 0} → List A → List A → Type 0
IsReordered {A} xs ys =
    (length xs ≡ length ys) × ((test : A → Bool) → count_by test xs ≡ count_by test ys)

-- At least `n` of a list's elements, at different positions, have a property.
abbrev pub HasAtLeast : {A : Type 0} → ℕ → (A → Type 0) → List A → Type 0
HasAtLeast zero P xs = Unit
HasAtLeast (suc n) P [] = ⊥
HasAtLeast (suc n) P (x ∷ xs) = (P x × HasAtLeast n P xs) ⊎ HasAtLeast (suc n) P xs

module _ {F : Type 0} ⦃fl : Float64 F⦄ where
  open fl use {lit, neg, add, sub, div, le_f, lit_parts, lit_zero, neg_parts}

  -- In ascending order.
  abbrev AreOrdered : List F → Type 0
  AreOrdered [] = Unit
  AreOrdered (x ∷ xs) = All (Le x) xs × AreOrdered xs

  -- The middle of `n` numbers: zero of none, the one in the middle, or half the sum of the two.
  abbrev IsMiddle : ℕ → List F → F → Type 0
  IsMiddle n sorted x =
      ((n ≡ 0) × (x ≡ lit 0))
      ⊎ ((k : ℕ) × (n ≡ 2 * k + 1) × (x ≡ get_or sorted k (lit 0)))
      ⊎ ((k : ℕ) × (n ≡ 2 * k + 2)
          × (x ≡ div (add (get_or sorted k (lit 0)) (get_or sorted (k + 1) (lit 0))) (lit 20_000)))

  -- The median of some numbers: the middle of them in ascending order.
  abbrev pub IsMedian : List F → F → Type 0
  IsMedian values x =
      (sorted : List F) × AreOrdered sorted
      × IsReordered sorted values
      × IsMiddle (length values) sorted x

  -- Within 5% of a number other than zero, on either side, or zero as well.
  abbrev pub IsClose : F → F → Type 0
  IsClose value target =
      ((is_zero target ≡ true) × (is_zero value ≡ true))
      ⊎ ((is_zero target ≡ false)
          × Le (div (sub value target) target) (lit 500)
          × Le (neg (lit 500)) (div (sub value target) target))

  insert_float-All :
      (P : F → Type 0) (x : F) (ys : List F) → P x → All P ys → All P (insert_float x ys)
  unfolding insert_float
  insert_float-All P x [] h hs = (h, tt)
  insert_float-All P x (y ∷ ys) h hs = elim (Bool-cases (le_f x y)) [
    | inl e ↦ rw e (h, hs)
    | inr e ↦ rw e (hs.0, insert_float-All P x ys h hs.1)
  ]

  insert_float-AreOrdered : (x : F) (ys : List F) → AreOrdered ys → AreOrdered (insert_float x ys)
  unfolding insert_float
  insert_float-AreOrdered x [] h = (tt, tt)
  insert_float-AreOrdered x (y ∷ ys) h = elim (Bool-cases (le_f x y)) [
    | inl e ↦
        let below = le_f→Le x y e in
        rw e ((below, All-weaken (Le y) (Le x) (λ z k. omega arith) ys h.0), h)
    | inr e ↦
        let above = not_le→Lt x y e in
        rw e (insert_float-All (Le y) x ys (omega arith) h.0, insert_float-AreOrdered x ys h.1)
  ]

  insert_float-IsReordered : (x : F) (ys : List F) → IsReordered (insert_float x ys) (x ∷ ys)
  unfolding insert_float
  insert_float-IsReordered x [] = (refl, λ test. refl)
  insert_float-IsReordered x (y ∷ ys) = elim (Bool-cases (le_f x y)) [
    | inl e ↦ rw e (refl, λ test. refl)
    | inr e ↦
        let ih = insert_float-IsReordered x ys in
        rw e (ap suc ih.0, λ test. let s = ih.1 test in omega arith)
  ]

  sort_floats-lem : (xs : List F) → AreOrdered (sort_floats xs) × IsReordered (sort_floats xs) xs
  unfolding sort_floats
  sort_floats-lem [] = (tt, (refl, λ test. refl))
  sort_floats-lem (x ∷ xs) =
      let ih = sort_floats-lem xs in
      let new = insert_float-IsReordered x (sort_floats xs) in
      (
        insert_float-AreOrdered x (sort_floats xs) ih.0,
        (new.0 ∙ ap suc ih.1.0, λ test. let s = new.1 test in let t = ih.1.1 test in omega arith),
      )

  pub median-IsMedian : (values : List F) → IsMedian values (median values)
  unfolding median
  median-IsMedian values =
      let s = sort_floats-lem values in
      (sort_floats values, s.0, s.1, middle (length values) (sort_floats values))
    where
      middle :
          (l : ℕ) (sorted : List F)
          → IsMiddle l sorted (
              if l == 0
              then lit 0
              else if l % 2 == 0
              then div
                  (add (get_or sorted (l / 2 - 1) (lit 0)) (get_or sorted (l / 2) (lit 0)))
                  (lit 20_000)
              else get_or sorted (l / 2) (lit 0))
      middle l sorted = elim (Bool-cases (l == 0)) [
        | inl e ↦ rw e (inl (ground arith, refl))
        | inr e ↦ elim (Bool-cases (l % 2 == 0)) [
          | inl e' ↦ rw e (
              rw e' (
                inr (
                  inr (
                    l / 2 - 1,
                    ground arith,
                    ap
                        (λ k.
                          div (add (get_or sorted (l / 2 - 1) (lit 0)) (get_or sorted k (lit 0)))
                            (lit 20_000))
                        (ground arith),
                  ))))
          | inr e' ↦ rw e (rw e' (inr (inl (l / 2, ground arith, refl))))
        ]
      ]

  pub close_enough-IsClose :
      (value target : F) → close_enough value target five_percent ≡ true → IsClose value target
  unfolding close_enough
  close_enough-IsClose value target h = elim (Bool-cases (is_zero target)) [
    | inl e ↦ let h' = rw e at h in inl (e, h')
    | inr e ↦
        let h' = rw e at h in let w = within (div (sub value target) target) h' in inr (e, w.0, w.1)
  ]
    where
      within :
          (diff : F)
          → le_f (if lt_f diff (lit 0) then neg diff else diff) (lit 500) ≡ true
          → Le diff (lit 500) × Le (neg (lit 500)) diff
      within diff h' =
          let order = lit_parts 0 500 (omega arith) (omega arith) in
          let zeros = lit_zero in
          let opposite = neg_parts diff in
          let bound = neg_parts (lit 500) in
          elim (Bool-cases (le_f (lit 0) diff)) [
            | inl e ↦
                let k = rw e at h' in
                let a = le_f→Le (lit 0) diff e in
                let b = le_f→Le diff (lit 500) k in (omega arith, omega arith)
            | inr e ↦
                let k = rw e at h' in
                let a = not_le→Lt (lit 0) diff e in
                let b = le_f→Le (neg diff) (lit 500) k in (omega arith, omega arith)
          ]

  -- Behind a first close value, `has_two_close` looks for one more.
  one_value :
      (median1 : F) (values : List F)
      → has_two_close median1 values 1 ≡ true
      → HasAtLeast 1 (λ value. IsClose value median1) values
  unfolding has_two_close
  one_value median1 [] h = absurd (let x = h in cc)
  one_value median1 (value ∷ values) h =
      elim (Bool-cases (close_enough value median1 five_percent)) [
        | inl e ↦ inl (close_enough-IsClose value median1 e, tt)
        | inr e ↦ let h' = rw e at h in inr (one_value median1 values h')
      ]

  two_values :
      (median1 : F) (values : List F)
      → has_two_close median1 values 0 ≡ true
      → HasAtLeast 2 (λ value. IsClose value median1) values
  unfolding has_two_close
  two_values median1 [] h = absurd (let x = h in cc)
  two_values median1 (value ∷ values) h =
      elim (Bool-cases (close_enough value median1 five_percent)) [
        | inl e ↦
            let h' = rw e at h in
            inl (close_enough-IsClose value median1 e, one_value median1 values h')
        | inr e ↦ let h' = rw e at h in inr (two_values median1 values h')
      ]

  pub is_consistent-HasAtLeast :
      (values : List F)
      → 2 ≤ length values
      → is_consistent values ≡ true
      → HasAtLeast 2 (λ value. IsClose value (median values)) values
  unfolding is_consistent
  is_consistent-HasAtLeast values many h = elim (Bool-cases (ltb (length values) 2)) [
    | inl e ↦ absurd (ground arith)
    | inr e ↦ let h' = rw e at h in two_values (median values) values h'
  ]
