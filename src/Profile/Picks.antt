-- ===== src/Profile/Picks.antt =====
-- Which tier the loops of TierCalc pick.
use rabbit_dex_backend.Common.{
  ◌≡◌, refl, sym, subst, ◌⊎◌, inl, inr, Bool, true, false, Option, none, some, List, [], ◌∷◌, arith,
  if◌then◌else◌, Bool-cases, In,
}
use rabbit_dex_backend.Decimal.{
  Decimal, Le, Lt, lt_dec, le_dec→Le, not_le→Lt, lt_dec→Lt, not-lt_dec→Le,
}
use rabbit_dex_backend.Profile.TierCalc.{Tier, Pick, insert_tier, sort_tiers, no_tier, pick_tier}

module _ {D : Type 0} ⦃dec : Decimal D⦄ where
  open dec use {le_dec}

  -- No tier of the list needs more volume than `t`.
  abbrev AtMost : Tier D → List (Tier D) → Type 0
  AtMost t tiers = (u : Tier D) → In u tiers → Le u.min_volume t.min_volume

  abbrev IsDescending : List (Tier D) → Type 0
  IsDescending [] = Unit
  IsDescending (t ∷ tiers) = AtMost t tiers × IsDescending tiers

  -- Sorting keeps the tiers, and puts them in descending order.
  insert_tier-step :
      (t v : Tier D) (tiers : List (Tier D))
      → (insert_tier t (v ∷ tiers)
          ≡ (if lt_dec t.min_volume v.min_volume then v ∷ insert_tier t tiers else t ∷ v ∷ tiers))
  unfolding insert_tier
  insert_tier-step t v tiers = refl

  In-insert_tier :
      (t u : Tier D) (tiers : List (Tier D)) → In u (insert_tier t tiers) → (u ≡ t) ⊎ In u tiers
  unfolding insert_tier
  In-insert_tier t u [] h = h
  In-insert_tier t u (v ∷ tiers) h =
      go (lt_dec t.min_volume v.min_volume) h (In-insert_tier t u tiers)
    where
      go :
          (b : Bool)
          → In u (if b then v ∷ insert_tier t tiers else t ∷ v ∷ tiers)
          → (In u (insert_tier t tiers) → (u ≡ t) ⊎ In u tiers)
          → (u ≡ t) ⊎ In u (v ∷ tiers)
      go true (inl e) ih = inr (inl e)
      go true (inr m) ih = elim (ih m) [ inl e ↦ inl e | inr m' ↦ inr (inr m') ]
      go false h' ih = h'

  insert_tier-In :
      (t u : Tier D) (tiers : List (Tier D)) → (u ≡ t) ⊎ In u tiers → In u (insert_tier t tiers)
  unfolding insert_tier
  insert_tier-In t u [] h = h
  insert_tier-In t u (v ∷ tiers) h =
      go (lt_dec t.min_volume v.min_volume) h (insert_tier-In t u tiers)
    where
      go :
          (b : Bool)
          → (u ≡ t) ⊎ In u (v ∷ tiers)
          → ((u ≡ t) ⊎ In u tiers → In u (insert_tier t tiers))
          → In u (if b then v ∷ insert_tier t tiers else t ∷ v ∷ tiers)
      go true (inl e) ih = inr (ih (inl e))
      go true (inr (inl e)) ih = inl e
      go true (inr (inr m)) ih = inr (ih (inr m))
      go false h' ih = h'

  pub In-sort_tiers : (u : Tier D) (tiers : List (Tier D)) → In u (sort_tiers tiers) → In u tiers
  unfolding sort_tiers
  In-sort_tiers u [] h = h
  In-sort_tiers u (t ∷ tiers) h = elim (In-insert_tier t u (sort_tiers tiers) h) [
    | inl e ↦ inl e
    | inr m ↦ inr (In-sort_tiers u tiers m)
  ]

  pub sort_tiers-In : (u : Tier D) (tiers : List (Tier D)) → In u tiers → In u (sort_tiers tiers)
  unfolding sort_tiers
  sort_tiers-In u [] h = h
  sort_tiers-In u (t ∷ tiers) (inl e) = insert_tier-In t u (sort_tiers tiers) (inl e)
  sort_tiers-In u (t ∷ tiers) (inr m) =
      insert_tier-In t u (sort_tiers tiers) (inr (sort_tiers-In u tiers m))

  insert_tier-IsDescending :
      (t : Tier D) (tiers : List (Tier D)) → IsDescending tiers → IsDescending (insert_tier t tiers)
  unfolding insert_tier
  insert_tier-IsDescending t [] d = (λ u h. absurd h, tt)
  insert_tier-IsDescending t (v ∷ tiers) d = elim (Bool-cases (lt_dec t.min_volume v.min_volume)) [
    | inl e ↦ rw e (
      λ u h. elim (In-insert_tier t u tiers h) [
        | inl same ↦ rw same (let lt = lt_dec→Lt t.min_volume v.min_volume e in omega arith)
        | inr m ↦ d.0 u m
      ],
      insert_tier-IsDescending t tiers d.1,
    )
    | inr e ↦
        let le = not-lt_dec→Le t.min_volume v.min_volume e in
        rw e
          (λ u h. elim h [ inl same ↦ rw same le | inr m ↦ let below = d.0 u m in omega arith ], d)
  ]

  pub sort_tiers-IsDescending : (tiers : List (Tier D)) → IsDescending (sort_tiers tiers)
  unfolding sort_tiers
  sort_tiers-IsDescending [] = tt
  sort_tiers-IsDescending (t ∷ tiers) =
      insert_tier-IsDescending t (sort_tiers tiers) (sort_tiers-IsDescending tiers)

  -- The next tier to reach: of those above the volume the one that needs the least.
  abbrev pub IsNextTier : D → List (Tier D) → Option (Tier D) → Type 0
  IsNextTier vol tiers none = (t : Tier D) → In t tiers → Le t.min_volume vol
  IsNextTier vol tiers (some n) =
      In n tiers
      × Lt vol n.min_volume
      × ((t : Tier D) → In t tiers → Lt vol t.min_volume → Le n.min_volume t.min_volume)

  above_not : (vol : D) (u t : Tier D) → t ≡ u → Lt vol u.min_volume → Le t.min_volume vol → ⊥
  above_not vol u t same h le = let le' = rw same at le in omega arith

  not_above :
      (vol : D) (t x : Tier D) (tiers : List (Tier D))
      → IsDescending (t ∷ tiers)
      → Le t.min_volume vol
      → In x (t ∷ tiers)
      → Lt vol x.min_volume
      → ⊥
  not_above vol t x tiers d low (inl same) gt = above_not vol t t refl (rw same at gt) low
  not_above vol t x tiers d low (inr m) gt = let below = d.0 x m in omega arith

  IsNextTier-cons :
      (vol : D) (u t : Tier D) (tiers : List (Tier D)) (o : Option (Tier D))
      → IsDescending (u ∷ t ∷ tiers)
      → Lt vol t.min_volume
      → IsNextTier vol (t ∷ tiers) o
      → IsNextTier vol (u ∷ t ∷ tiers) o
  IsNextTier-cons vol u t tiers none d h n = let le = n t (inl refl) in absurd (omega arith)
  IsNextTier-cons vol u t tiers (some o) d h (m, above, least) = (
    inr m,
    above,
    λ x member gt. elim member [
      | inl same ↦
          let first = least t (inl refl) h in let second = d.0 t (inl refl) in rw same (omega arith)
      | inr m' ↦ least x m' gt
    ],
  )

  pick_next :
      (vol : D) (u : Tier D) (tiers : List (Tier D))
      → IsDescending (u ∷ tiers)
      → Lt vol u.min_volume
      → IsNextTier vol (u ∷ tiers) (pick_tier vol (some u) tiers).next
  unfolding pick_tier
  pick_next vol u [] d h =
      (inl refl, h, λ t m gt. elim m [ inl same ↦ rw same (omega arith) | inr b ↦ absurd b ])
  pick_next vol u (t ∷ tiers) d h = elim (Bool-cases (le_dec t.min_volume vol)) [
    | inl e ↦ rw e (
      inl refl,
      h,
      λ x m gt. elim m [
        | inl same ↦ rw same (omega arith)
        | inr m' ↦
            let low = le_dec→Le t.min_volume vol e in absurd (not_above vol t x tiers d.1 low m' gt)
      ],
    )
    | inr e ↦
        let gt = not_le→Lt t.min_volume vol e in
        rw e (
          IsNextTier-cons vol u t tiers (pick_tier vol (some t) tiers).next d gt
            (pick_next vol t tiers d.1 gt))
  ]

  -- The tier of a volume: of those that it reaches the one that needs the most, or none.
  abbrev pub IsTierOf : D → List (Tier D) → Pick D → Type 0
  IsTierOf vol tiers p =
      (In p.current tiers
        × Le p.current.min_volume vol
        × ((t : Tier D) → In t tiers → Le t.min_volume vol → Le t.min_volume p.current.min_volume)
        × (p.tier_id ≡ p.current.tier))
      ⊎ ((p.current ≡ no_tier)
          × ((t : Tier D) → In t tiers → Lt vol t.min_volume)
          × (p.tier_id ≡ 0))

  IsTierOf-cons :
      (vol : D) (u : Tier D) (tiers : List (Tier D)) (p : Pick D)
      → Lt vol u.min_volume
      → IsTierOf vol tiers p
      → IsTierOf vol (u ∷ tiers) p
  IsTierOf-cons vol u tiers p h (inl (m, reached, most, id)) = inl (
    inr m,
    reached,
    λ t member le. elim member [
      | inl same ↦ absurd (above_not vol u t same h le)
      | inr m' ↦ most t m' le
    ],
    id,
  )
  IsTierOf-cons vol u tiers p h (inr (empty, above, id)) =
      inr (empty, λ t member. elim member [ inl same ↦ rw same h | inr m' ↦ above t m' ], id)

  pick_tier_reached :
      (vol : D) (next : Option (Tier D)) (t : Tier D) (tiers : List (Tier D))
      → le_dec t.min_volume vol ≡ true
      → pick_tier vol next (t ∷ tiers)
        ≡ record { current = t; next = next; special_tier_id = 0; tier_id = t.tier }
  unfolding pick_tier
  pick_tier_reached vol next t tiers e = rw e

  pick_tier_above :
      (vol : D) (next : Option (Tier D)) (t : Tier D) (tiers : List (Tier D))
      → le_dec t.min_volume vol ≡ false
      → pick_tier vol next (t ∷ tiers) ≡ pick_tier vol (some t) tiers
  unfolding pick_tier
  pick_tier_above vol next t tiers e = rw e

  pick_tier-IsTierOf :
      (vol : D) (next : Option (Tier D)) (tiers : List (Tier D))
      → IsDescending tiers
      → IsTierOf vol tiers (pick_tier vol next tiers)
  pick_tier-IsTierOf vol next [] d = unfold pick_tier in inr (refl, λ t b. absurd b, refl)
  pick_tier-IsTierOf vol next (t ∷ tiers) d = elim (Bool-cases (le_dec t.min_volume vol)) [
    | inl e ↦ subst (IsTierOf vol (t ∷ tiers)) (sym (pick_tier_reached vol next t tiers e)) (
        inl (
          inl refl,
          le_dec→Le t.min_volume vol e,
          λ u m le. elim m [ inl same ↦ rw same (omega arith) | inr m' ↦ d.0 u m' ],
          refl,
        ))
    | inr e ↦ subst (IsTierOf vol (t ∷ tiers)) (sym (pick_tier_above vol next t tiers e)) (
        IsTierOf-cons vol t tiers (pick_tier vol (some t) tiers) (not_le→Lt t.min_volume vol e)
          (pick_tier-IsTierOf vol (some t) tiers d.1))
  ]

  pick_tier-IsNextTier :
      (vol : D) (tiers : List (Tier D))
      → IsDescending tiers
      → IsNextTier vol tiers (pick_tier vol none tiers).next
  unfolding pick_tier
  pick_tier-IsNextTier vol [] d = λ t b. absurd b
  pick_tier-IsNextTier vol (t ∷ tiers) d = elim (Bool-cases (le_dec t.min_volume vol)) [
    | inl e ↦
        let low = le_dec→Le t.min_volume vol e in
        rw e
          (λ u m. elim m [ inl same ↦ rw same low | inr m' ↦ let below = d.0 u m' in omega arith ])
    | inr e ↦ rw e (pick_next vol t tiers d (not_le→Lt t.min_volume vol e))
  ]

  IsTierOf-sort :
      (vol : D) (tiers : List (Tier D)) (p : Pick D)
      → IsTierOf vol (sort_tiers tiers) p
      → IsTierOf vol tiers p
  IsTierOf-sort vol tiers p (inl (m, reached, most, id)) =
      inl (In-sort_tiers p.current tiers m, reached, λ t m'. most t (sort_tiers-In t tiers m'), id)
  IsTierOf-sort vol tiers p (inr (empty, above, id)) =
      inr (empty, λ t m'. above t (sort_tiers-In t tiers m'), id)

  IsNextTier-sort :
      (vol : D) (tiers : List (Tier D)) (o : Option (Tier D))
      → IsNextTier vol (sort_tiers tiers) o
      → IsNextTier vol tiers o
  IsNextTier-sort vol tiers none h = λ t m. h t (sort_tiers-In t tiers m)
  IsNextTier-sort vol tiers (some n) (m, above, least) =
      (In-sort_tiers n tiers m, above, λ t m'. least t (sort_tiers-In t tiers m'))

  -- In the default case the loop picks, whatever the order in which the service lists the tiers, of
  -- the tiers that the volume reaches the one that needs the most volume (or Go's zero tier, if it
  -- reaches none), and as the next tier the one that needs the least of those above the volume.
  pub pick_tier-sort_tiers :
      (vol : D) (tiers : List (Tier D))
      → IsTierOf vol tiers (pick_tier vol none (sort_tiers tiers))
        × IsNextTier vol tiers (pick_tier vol none (sort_tiers tiers)).next
  pick_tier-sort_tiers vol tiers =
      let p = pick_tier vol none (sort_tiers tiers) in
      let d = sort_tiers-IsDescending tiers in
      (
        IsTierOf-sort vol tiers p (pick_tier-IsTierOf vol none (sort_tiers tiers) d),
        IsNextTier-sort vol tiers p.next (pick_tier-IsNextTier vol (sort_tiers tiers) d),
      )
