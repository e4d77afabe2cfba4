-- ===== src/Referrals/BonusProof.antt =====
-- The bonus loop of Bonus, and the levels that a rise in volume passes.
use rabbit_dex_backend.Common.{
  ℕ, zero, suc, ◌+◌, ◌≤◌, ◌<◌, ◌≡◌, refl, inl, inr, ◌∙◌, Option, none, some, List, [], ◌∷◌, ◌++◌,
  arith, if◌then◌else◌, Bool-cases, length, filter_by, fold_left, true, lt→ltb,
}
use mathlib.Core.List.{append-nil, append_assoc}
use rabbit_dex_backend.Decimal.{
  Decimal, Le, Lt, Same, lt_dec, Lt→lt_dec, Le→not-lt_dec, lt_dec→Lt, le_dec→Le, not_le→Lt,
}
use rabbit_dex_backend.Referrals.Levels.{
  ReferralLevel, get_level, status, first_level, upper_levels, IsAscending, Beyond, head, Reaches,
  here, after, scan-IsLevelOf, Reaches-IsAscending, scan-Reaches, upper_levels-IsAscending,
  length-upper_levels,
}
use rabbit_dex_backend.Referrals.Bonus.{
  threshold_of, advance, jumped, pay, bonus_loop, rounds, calculate_bonus, is_passed, passed_levels,
}

module _ {D : Type 0} ⦃dec : Decimal D⦄ where
  open dec use {nil, add, sub, le_dec}

  -- The levels at the front of `back` that `v` reaches.
  abbrev gained : D → List (ReferralLevel D) → List (ReferralLevel D)
  gained v [] = []
  gained v (n ∷ back) = if le_dec n.volume v then n ∷ gained v back else []

  -- Nothing behind a level that is not reached is reached.
  none_passed :
      (u v : D) (n : ReferralLevel D) (back : List (ReferralLevel D))
      → IsAscending n back
      → Lt v n.volume
      → filter_by (is_passed u v) (n ∷ back) ≡ []
  none_passed u v n [] a h = grind arith
  none_passed u v n (m ∷ back) a h = grind (arith, none_passed u v m back a.2)

  Beyond-tail :
      (v : D) (n : ReferralLevel D) (back : List (ReferralLevel D))
      → IsAscending n back
      → Le v n.volume
      → Beyond v back
  Beyond-tail v n [] a h = tt
  Beyond-tail v n (m ∷ back) a h = omega arith

  passed-gained :
      (u v : D) (c : ReferralLevel D) (back : List (ReferralLevel D))
      → IsAscending c back
      → Beyond u back
      → filter_by (is_passed u v) back ≡ gained v back
  passed-gained u v c [] a b = refl
  passed-gained u v c (n ∷ back) a b = elim (Bool-cases (le_dec n.volume v)) [
    | inl e ↦
        let ih = passed-gained u v n back a.2 (Beyond-tail u n back a.2 (omega arith)) in
        rw (Lt→lt_dec u n.volume b, e, ih)
    | inr e ↦ none_passed u v n back a.2 (not_le→Lt n.volume v e) ∙ rw e
  ]

  passed-Reaches :
      (u v : D) {c : ReferralLevel D} {back : List (ReferralLevel D)} {c0 : ReferralLevel D}
      {levels : List (ReferralLevel D)}
      → Reaches c back c0 levels
      → IsAscending c0 levels
      → Le c.volume u
      → filter_by (is_passed u v) levels ≡ filter_by (is_passed u v) back
  passed-Reaches u v here a h = refl
  passed-Reaches u v (after {n = n} r) a h =
      let (le, _) = Reaches-IsAscending r a.2 in
      rw (Le→not-lt_dec u n.volume (omega arith)) (passed-Reaches u v r a.2 h)

  -- What the end of a round means, next to a level and past the last one.
  threshold-next :
      (v : D) (n : ReferralLevel D) (end : D)
      → le_dec n.volume v ≡ true
      → Same end (threshold_of (some n) v)
      → Same end n.volume
  unfolding threshold_of
  threshold-next v n end e h = rw (Le→not-lt_dec v n.volume (le_dec→Le n.volume v e)) at h

  threshold-last :
      (v : D) (back : List (ReferralLevel D)) (end : D)
      → Beyond v back
      → Same end (threshold_of (head back) v)
      → Same end v
  unfolding threshold_of
  threshold-last v [] end b h = h
  threshold-last v (n ∷ back) end b h = rw (Lt→lt_dec v n.volume b) at h

  lt_then_Same : (a b c : D) → lt_dec a b ≡ true → Same c b → Le a c
  lt_then_Same a b c h e = let lt = lt_dec→Lt a b h in omega arith

  lt_then_le : (a b c : D) → Lt a b → le_dec b c ≡ true → Lt a c
  lt_then_le a b c h e = let le = le_dec→Le b c e in omega arith

  Beyond-Same : (u v : D) (back : List (ReferralLevel D)) → Beyond v back → Same u v → Beyond u back
  Beyond-Same u v [] b e = tt
  Beyond-Same u v (n ∷ back) b e = omega arith

  module _ (asc : IsAscending {D = D} first_level upper_levels) where
    get_level-Reaches :
        (v : D) {c : ReferralLevel D} {back : List (ReferralLevel D)}
        → Reaches c back first_level upper_levels
        → Le c.volume v
        → Beyond v back
        → ((get_level v).current ≡ c) × ((get_level v).next ≡ head back)
    unfolding get_level status
    get_level-Reaches v r h b = scan-Reaches v none r asc h b

    -- A round ends at the volume that it aims for.
    advance-Same :
        (start v : D) (next : Option (ReferralLevel D))
        → (get_level start).next ≡ next
        → Same (advance start v) (threshold_of next v)
    unfolding advance
    advance-Same start v next e = rw (e, advance) (grind arith)

    Reaches-after :
        {n : ReferralLevel D} {back : List (ReferralLevel D)} {c c0 : ReferralLevel D}
        {levels : List (ReferralLevel D)}
        → Reaches c (n ∷ back) c0 levels
        → Reaches n back c0 levels
    Reaches-after here = after here
    Reaches-after (after r) = after (Reaches-after r)

    -- A round that the next level stops pays for that level.
    jumped-next :
        (start start' : D) {c n : ReferralLevel D} {back : List (ReferralLevel D)}
        → Reaches c (n ∷ back) first_level upper_levels
        → Le c.volume start
        → Lt start n.volume
        → Same start' n.volume
        → jumped start start' ≡ n ∷ []
    unfolding jumped
    jumped-next start start' {n} {back} r h b e =
        let (_, up) = Reaches-IsAscending r asc in
        let old = get_level-Reaches start r h b in
        let new =
          get_level-Reaches start' (Reaches-after r) (omega arith)
            (Beyond-tail start' n back up.2 (omega arith)) in
        rw (old.0, new.0, lt→ltb _ _ up.1)

    -- A round that stops before the next level pays nothing.
    jumped-same :
        (start start' : D) {c : ReferralLevel D} {back : List (ReferralLevel D)}
        → Reaches c back first_level upper_levels
        → Le c.volume start
        → Le start start'
        → Beyond start' back
        → Beyond start back
        → jumped start start' ≡ []
    unfolding jumped
    jumped-same start start' r h le b' b =
        rw ((get_level-Reaches start r h b).0, (get_level-Reaches start' r (omega arith) b').0)
          (ground arith)

    -- Once the volume is reached the loop returns what it has.
    loop-done :
        (fuel : ℕ) (start v bonus : D) (levels : List (ReferralLevel D))
        → 0 < fuel
        → Le v start
        → bonus_loop fuel start v bonus levels ≡ some (bonus, levels)
    unfolding bonus_loop
    loop-done zero start v bonus levels h le = absurd (omega arith)
    loop-done (suc fuel) start v bonus levels h le = rw (Le→not-lt_dec start v le)

    -- The last round, which no further level stops.
    loop-last :
        (fuel : ℕ) (start v bonus : D) (levels : List (ReferralLevel D)) {c : ReferralLevel D}
        {back : List (ReferralLevel D)}
        → Reaches c back first_level upper_levels
        → Le c.volume start
        → Beyond start back
        → Beyond v back
        → 1 < fuel
        → bonus_loop fuel start v bonus levels ≡ some (bonus, levels)
    unfolding bonus_loop
    loop-last zero start v bonus levels r h b bv enough = absurd (omega arith)
    loop-last (suc fuel) start v bonus levels {back} r h b bv enough =
        elim (Bool-cases (lt_dec start v)) [
          | inl e ↦
              let at = advance-Same start v (head back) (get_level-Reaches start r h b).1 in
              let same : Same (advance start v) v = threshold-last v back (advance start v) bv at in
              let none_new : jumped start (advance start v) ≡ [] =
                jumped-same start (advance start v) r h
                  (lt_then_Same start v (advance start v) e same)
                  (Beyond-Same (advance start v) v back bv same) b in
              rw (e, none_new, append-nil)
                (loop-done fuel (advance start v) v bonus levels (omega arith) (omega arith))
          | inr e ↦ rw e
        ]

    loop-gained :
        (fuel : ℕ) (start v bonus : D) (levels : List (ReferralLevel D)) {c : ReferralLevel D}
        (back : List (ReferralLevel D))
        → Reaches c back first_level upper_levels
        → Le c.volume start
        → Beyond start back
        → length back + 1 < fuel
        → bonus_loop fuel start v bonus levels
          ≡ some (fold_left pay bonus (gained v back), levels ++ gained v back)
    unfolding bonus_loop advance jumped
    loop-gained zero start v bonus levels back r h b enough = absurd (omega arith)
    loop-gained (suc fuel) start v bonus levels [] r h b enough =
        rw append-nil (loop-last (suc fuel) start v bonus levels r h b tt (omega arith))
    loop-gained (suc fuel) start v bonus levels (n ∷ back) r h b enough =
        elim (Bool-cases (le_dec n.volume v)) [
          | inl e ↦
              let at = advance-Same start v (some n) (get_level-Reaches start r h b).1 in
              let same : Same (advance start v) n.volume =
                threshold-next v n (advance start v) e at in
              let up = (Reaches-IsAscending r asc).1 in
              rw
                (
                  e,
                  jumped-next start (advance start v) r h b same,
                  Lt→lt_dec start v (lt_then_le start n.volume v b e),
                )
                (loop-gained fuel (advance start v) v (pay bonus n) (levels ++ n ∷ []) back
                    (Reaches-after r) (omega arith)
                    (Beyond-tail (advance start v) n back up.2 (omega arith)) (omega arith)
                  ∙ rw append_assoc)
          | inr e ↦
              rw (e, append-nil)
                (loop-last (suc fuel) start v bonus levels r h b (not_le→Lt n.volume v e)
                  (omega arith))
        ]

  Reaches-length :
      {c : ReferralLevel D} {back : List (ReferralLevel D)} {c0 : ReferralLevel D}
      {levels : List (ReferralLevel D)}
      → Reaches c back c0 levels
      → length back ≤ length levels
  Reaches-length here = omega arith
  Reaches-length (after r) = omega (arith, Reaches-length r)

module _ {D : Type 0} ⦃dec : Decimal D⦄ where
  open dec use {nil, sub, of_cents, of_cents_parts, nil_parts}

  start : (v : D) → Le nil v → Le (first_level {D = D}).volume v
  start v h = grind (arith, nil_parts, of_cents_parts 0)

  -- From a volume that is not negative to any other, the bonus loop ends within its rounds. It
  -- returns exactly the levels whose volume lies above the old volume and not above the new one, in
  -- order, and their milestone bonuses added up in that order.
  pub calculate_bonus-passed_levels :
      (u v : D)
      → Le nil u
      → calculate_bonus u v ≡ some (fold_left pay nil (passed_levels u v), passed_levels u v)
  unfolding calculate_bonus passed_levels
  calculate_bonus-passed_levels u v h =
      let asc = upper_levels-IsAscending D in
      let at = scan-IsLevelOf u none first_level upper_levels (start u h) in
      let up = Reaches-IsAscending at.reaches asc in
      rw (passed-Reaches u v at.reaches asc at.reached, passed-gained u v _ at.back up.1 at.beyond)
        (loop-gained asc rounds u v nil [] at.back at.reaches at.reached at.beyond
          (omega (arith, Reaches-length at.reaches, length-upper_levels D)))
