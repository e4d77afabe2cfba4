-- ===== src/Pricing/Combined.antt =====
-- What `getCombinedPrice` makes of the prices of the sources.
use rabbit_dex_backend.Common.{
  ℕ, suc, ◌≤◌, ◌<◌, ◌≡◌, refl, sym, ap, subst, ◌⊎◌, inl, inr, Bool, true, false, not, ◌||◌, Option,
  none, some, List, [], ◌∷◌, arith, ◌==◌, ltb, if◌then◌else◌, length, All, In, All-weaken,
  filter_by,
}
use rabbit_dex_backend.Float64.{Float64, is_zero}
use rabbit_dex_backend.Pricing.Medians.{
  HasAtLeast, IsMedian, IsClose, median-IsMedian, close_enough-IsClose, is_consistent-HasAtLeast,
}
use rabbit_dex_backend.Pricing.{
  inconsistent, Result, ok, err, five_percent, close_enough, median, is_consistent, first_median,
  useable_data, combine, get_combined_price,
}

filter_by-All :
    {A : Type 0} (p : A → Bool) (xs : List A) → All (λ x. In x xs × (p x ≡ true)) (filter_by p xs)
filter_by-All p [] = tt
filter_by-All {A} p (x ∷ xs) = go (p x) refl (filter_by-All p xs)
  where
    IsKept : A → Type 0
    IsKept y = In y (x ∷ xs) × (p y ≡ true)

    later : All (λ y. In y xs × (p y ≡ true)) (filter_by p xs) → All IsKept (filter_by p xs)
    later = All-weaken (λ y. In y xs × (p y ≡ true)) IsKept (λ y h. (inr h.0, h.1)) (filter_by p xs)

    go :
        (b : Bool)
        → p x ≡ b
        → All (λ y. In y xs × (p y ≡ true)) (filter_by p xs)
        → All IsKept (if b then x ∷ filter_by p xs else filter_by p xs)
    go true e h = ((inl refl, e), later h)
    go false e h = later h

filter_by-length : {A : Type 0} (p : A → Bool) (xs : List A) → length (filter_by p xs) ≤ length xs
filter_by-length p [] = omega arith
filter_by-length p (x ∷ xs) = go (p x) (filter_by-length p xs)
  where
    go :
        (b : Bool)
        → length (filter_by p xs) ≤ length xs
        → length (if b then x ∷ filter_by p xs else filter_by p xs) ≤ suc (length xs)
    go true h = omega arith
    go false h = omega arith

module _ {F : Type 0} ⦃fl : Float64 F⦄ where
  open fl use {lit}

  -- The median of some prices, of which at least two are close to it.
  abbrev IsAgreed : List F → F → Type 0
  IsAgreed prices median1 =
      IsMedian prices median1 × HasAtLeast 2 (λ price. IsClose price median1) prices

  -- The median that the prices are held against: that of the sources with the most recent price, if
  -- there is one, or of the sources alone.
  abbrev pub IsReference : F → List F → F → Type 0
  IsReference recent input_prices median1 =
      ((is_zero recent ≡ false) × IsAgreed (recent ∷ input_prices) median1)
      ⊎ IsAgreed input_prices median1

  -- The price comes from a single source, or is close to a median.
  abbrev pub IsUseable : F → List F → F → F → Type 0
  IsUseable recent input_prices median1 price =
      In price input_prices
      × ((length input_prices ≡ 1)
          ⊎ (IsReference recent input_prices median1 × IsClose price median1))

  abbrev pub IsCombined : F → List F → F × ℕ → Type 0
  IsCombined recent input_prices result =
      (median1 : F) × (useable : List F) × All (IsUseable recent input_prices median1) useable
      × IsMedian useable result.0
      × (result.1 ≡ length useable)
      × (1 ≤ result.1)
      × (result.1 ≤ length input_prices)

  is_consistent-IsAgreed :
      (prices : List F)
      → 2 ≤ length prices
      → is_consistent prices ≡ true
      → IsAgreed prices (median prices)
  is_consistent-IsAgreed prices many h =
      (median-IsMedian prices, is_consistent-HasAtLeast prices many h)

  first_median-IsReference :
      (recent : F) (input_prices : List F) (median1 : F)
      → 1 < length input_prices
      → first_median recent input_prices ≡ some median1
      → IsReference recent input_prices median1
  unfolding first_median
  first_median-IsReference recent input_prices median1 many =
      go (ltb 1 (length input_prices)) (is_zero recent) refl (is_consistent input_prices) refl
        (is_consistent (recent ∷ input_prices)) refl (ground arith)
    where
      alone :
          is_consistent input_prices ≡ true
          → some (median input_prices) ≡ some median1
          → IsReference recent input_prices median1
      alone c e =
          subst (IsReference recent input_prices) (let x = e in cc)
            (inr (is_consistent-IsAgreed input_prices (omega arith) c))

      go :
          (a b : Bool)
          → is_zero recent ≡ b
          → (c : Bool) → is_consistent input_prices ≡ c
          → (d : Bool) → is_consistent (recent ∷ input_prices) ≡ d
          → a ≡ true
          → (if not a
              then some (lit 0)
              else if b
              then (if c then some (median input_prices) else none)
              else if d
              then some (median (recent ∷ input_prices))
              else if c
              then some (median input_prices)
              else none)
            ≡ some median1
          → IsReference recent input_prices median1
      go false b z c p d q h e = absurd (let x = h in cc)
      go true true z true p d q h e = alone p e
      go true true z false p d q h e = absurd (let x = e in cc)
      go true false z c p true q h e =
          subst (IsReference recent input_prices) (let x = e in cc)
            (inl (z, is_consistent-IsAgreed (recent ∷ input_prices) (omega arith) q))
      go true false z true p false q h e = alone p e
      go true false z false p false q h e = absurd (let x = e in cc)

  useable_data-All :
      (recent : F) (input_prices : List F) (median1 : F)
      → first_median recent input_prices ≡ some median1
      → All (IsUseable recent input_prices median1) (useable_data median1 input_prices)
  unfolding useable_data
  useable_data-All recent input_prices median1 e =
      All-weaken _ (IsUseable recent input_prices median1)
        (λ price h. (
          h.0,
          reason price (length input_prices == 1) (close_enough price median1 five_percent) refl
              refl h.0 h.1,
        ))
        (useable_data median1 input_prices)
        (filter_by-All
          (λ price. length input_prices == 1 || close_enough price median1 five_percent)
          input_prices)
    where
      several : (price : F) (xs : List F) → In price xs → (length xs == 1) ≡ false → 1 < length xs
      several price [] h e' = absurd h
      several price (x ∷ xs) h e' = ground arith

      reason :
          (price : F) (a b : Bool)
          → (length input_prices == 1) ≡ a
          → close_enough price median1 five_percent ≡ b
          → In price input_prices
          → (a || b) ≡ true
          → (length input_prices ≡ 1)
            ⊎ (IsReference recent input_prices median1 × IsClose price median1)
      reason price true b p q i h = inl (ground arith)
      reason price false true p q i h = inr (
        first_median-IsReference recent input_prices median1 (several price input_prices i p) e,
        close_enough-IsClose price median1 q,
      )
      reason price false false p q i h = absurd (let x = h in cc)

  useable_data-length :
      (median1 : F) (input_prices : List F)
      → length (useable_data median1 input_prices) ≤ length input_prices
  unfolding useable_data
  useable_data-length median1 input_prices =
      filter_by-length
        (λ price. length input_prices == 1 || close_enough price median1 five_percent) input_prices

  combine-ok :
      (useable : List F) (result : F × ℕ)
      → combine useable ≡ ok result
      → IsMedian useable result.0 × (result.1 ≡ length useable) × (1 ≤ length useable)
  unfolding combine
  combine-ok [] result e = absurd (let x = e in cc)
  combine-ok (x ∷ xs) result e =
      let r : (median (x ∷ xs), suc (length xs)) ≡ result =
        ap (λ y. elim y as (λ z. F × ℕ) [ ok v ↦ v | err _ ↦ result ]) e in
      (
        subst (λ p. IsMedian (x ∷ xs) p.0) r (median-IsMedian (x ∷ xs)),
        sym (ap (λ p. p.1) r),
        omega arith,
      )

  -- A combined price is the median of at least one price and at most all of the sources', and comes
  -- with their number. Each of them is the only source's, or is within 5%, on either side, of the
  -- median of the sources' prices, with the most recent price (where this is not zero) or without
  -- it, to which at least two of these prices are that close. A median is the middle of the numbers
  -- in ascending order, or half the sum of the two there.
  pub get_combined_price-IsCombined :
      (recent : F) (input_prices : List F) (result : F × ℕ)
      → get_combined_price recent input_prices ≡ ok result
      → IsCombined recent input_prices result
  unfolding get_combined_price
  get_combined_price-IsCombined recent input_prices result =
      go (first_median recent input_prices) refl
    where
      made :
          (median1 : F) (useable : List F)
          → All (IsUseable recent input_prices median1) useable
          → length useable ≤ length input_prices
          → combine useable ≡ ok result
          → IsCombined recent input_prices result
      made median1 useable all le e =
          let c = combine-ok useable result e in
          let size = c.1 in
          let some_of = c.2 in (median1, useable, all, c.0, c.1, omega arith, omega arith)

      go :
          (o : Option F)
          → first_median recent input_prices ≡ o
          → (elim o as (λ x. Result (F × ℕ)) [
            | none ↦ err inconsistent
            | some median1 ↦ combine (useable_data median1 input_prices)
          ])
            ≡ ok result
          → IsCombined recent input_prices result
      go none f e = absurd (let x = e in cc)
      go (some median1) f e =
          made median1 (useable_data median1 input_prices)
            (useable_data-All recent input_prices median1 f)
            (useable_data-length median1 input_prices) e
