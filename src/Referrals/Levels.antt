-- ===== src/Referrals/Levels.antt =====
-- `REFERRAL_LEVELS` and `GetLevel` of referrals/levels.go and referrals/utils.go.
use rabbit_dex_backend.Common.{
  ℕ, ◌<◌, ◌≡◌, refl, inl, inr, ◌&&◌, false, Option, none, some, List, [], ◌∷◌, arith, if◌then◌else◌,
  Bool-cases, length,
}
use rabbit_dex_backend.Decimal.{
  Decimal, Le, Lt, lt_dec, le_true, of_cents-Lt, Lt→lt_dec, Le→not-lt_dec, lt_dec→Lt, not-lt_dec→Le,
}

pub record ReferralLevel (D : Type 0) : Type 0 where
  pub level : ℕ
  pub volume : D
  pub commission_percent : D
  pub milestone_bonus : D

pub record ReferralLevelStatus (D : Type 0) : Type 0 where
  pub volume : D
  pub current : ReferralLevel D
  pub next : Option (ReferralLevel D)
  pub prev : Option (ReferralLevel D)
  pub needed_volume : Option D

-- The variables that the loop of `GetLevel` leaves behind.
pub record Scan (D : Type 0) : Type 0 where
  pub current : ReferralLevel D
  pub next : Option (ReferralLevel D)
  pub prev : Option (ReferralLevel D)

module _ {D : Type 0} ⦃dec : Decimal D⦄ where
  open dec use {of_cents, sub, le_dec}

  -- A row of the table: the volume and the bonus in whole dollars, the commission in percent.
  abbrev pub row : ℕ → ℕ → ℕ → ℕ → ReferralLevel D
  row n dollars percent bonus = record {
    level = n;
    volume = of_cents dollars;
    commission_percent = of_cents percent;
    milestone_bonus = of_cents bonus;
  }

  -- Whole numbers are written in cents here.
  unfoldable pub upper_levels : List (ReferralLevel D)
  upper_levels =
      row 2 20_000_000 20 500
      ∷ row 3 40_000_000 22 1_000
      ∷ row 4 100_000_000 24 3_000
      ∷ row 5 350_000_000 26 10_000
      ∷ row 6 875_000_000 28 25_000
      ∷ row 7 2_300_000_000 30 70_000
      ∷ row 8 6_500_000_000 32 100_000
      ∷ row 9 20_000_000_000 34 500_000
      ∷ row 10 50_000_000_000 36 1_000_000
      ∷ row 11 100_000_000_000 38 2_500_000
      ∷ row 12 1_000_000_000_000 40 10_000_000
      ∷ []

  abbrev pub first_level : ReferralLevel D
  first_level = row 1 0 20 0

  -- The loop of `GetLevel`, from the level `current` on: it stops at the last level, and where the
  -- volume lies between `current` and the next one.
  unfoldable pub scan :
      D → Option (ReferralLevel D) → ReferralLevel D → List (ReferralLevel D) → Scan D
  scan v prev current [] = record { current = current; next = none; prev = prev }
  scan v prev current (next ∷ rest) =
      if le_dec current.volume v && lt_dec v next.volume
      then record { current = current; next = some next; prev = prev }
      else scan v (some current) next rest

  unfoldable pub needed : D → Option (ReferralLevel D) → Option D
  needed v none = none
  needed v (some next) = some (sub next.volume v)

  unfoldable pub status : D → Scan D → ReferralLevelStatus D
  status v s = record {
    volume = v;
    current = s.current;
    next = s.next;
    prev = s.prev;
    needed_volume = needed v s.next;
  }

  -- `GetLevel`
  unfoldable pub get_level : D → ReferralLevelStatus D
  get_level v = status v (scan v none first_level upper_levels)

  -- Each level needs more volume than the one before it, and has a higher number.
  abbrev pub IsAscending : ReferralLevel D → List (ReferralLevel D) → Type 0
  IsAscending c [] = Unit
  IsAscending c (n ∷ rest) = Lt c.volume n.volume × (c.level < n.level) × IsAscending n rest

  -- The levels after the volume's own are not reached yet.
  abbrev pub Beyond : D → List (ReferralLevel D) → Type 0
  Beyond v [] = Unit
  Beyond v (n ∷ rest) = Lt v n.volume

  abbrev pub head : List (ReferralLevel D) → Option (ReferralLevel D)
  head [] = none
  head (n ∷ rest) = some n

  -- A level of the table `c0 ∷ levels`, and the levels behind it.
  pub data Reaches (c : ReferralLevel D) (back : List (ReferralLevel D))
      : ReferralLevel D → List (ReferralLevel D) → Type 0 where
    here : Reaches c back c back
    after :
        {c0 n : ReferralLevel D} {levels : List (ReferralLevel D)}
        → Reaches c back n levels
        → Reaches c back c0 (n ∷ levels)

  -- What a scan at the volume `v` should find: a level that `v` reaches, with the one behind it,
  -- which `v` does not reach.
  pub record IsLevelOf (v : D) (c0 : ReferralLevel D) (levels : List (ReferralLevel D)) (s : Scan D)
      : Type 0 where
    pub back : List (ReferralLevel D)
    pub reaches : Reaches s.current back c0 levels
    pub reached : Le s.current.volume v
    pub beyond : Beyond v back
    pub next_head : s.next ≡ head back

  pub scan-IsLevelOf :
      (v : D) (prev : Option (ReferralLevel D)) (c : ReferralLevel D)
      (levels : List (ReferralLevel D))
      → Le c.volume v
      → IsLevelOf v c levels (scan v prev c levels)
  unfolding scan
  scan-IsLevelOf v prev c [] h = record {
    back = [];
    reaches = here;
    reached = h;
    beyond = tt;
    next_head = refl;
  }
  scan-IsLevelOf v prev c (n ∷ levels) h = elim (Bool-cases (lt_dec v n.volume)) [
    | inl e ↦
        rw (le_true c.volume v h, e)
          (record {
            back = n ∷ levels;
            reaches = here;
            reached = h;
            beyond = lt_dec→Lt v n.volume e;
            next_head = refl;
          })
    | inr e ↦
        let ih = scan-IsLevelOf v (some c) n levels (not-lt_dec→Le v n.volume e) in
        rw (le_true c.volume v h, e)
          (record {
            back = ih.back;
            reaches = after ih.reaches;
            reached = ih.reached;
            beyond = ih.beyond;
            next_head = ih.next_head;
          })
  ]

  -- Along the table the volumes and the numbers rise.
  pub Reaches-IsAscending :
      {c : ReferralLevel D} {back : List (ReferralLevel D)} {c0 : ReferralLevel D}
      {levels : List (ReferralLevel D)}
      → Reaches c back c0 levels
      → IsAscending c0 levels
      → Le c0.volume c.volume × IsAscending c back
  Reaches-IsAscending here a = (omega arith, a)
  Reaches-IsAscending (after r) a = let (le, asc) = Reaches-IsAscending r a.2 in (omega arith, asc)

  -- A scan finds the level that the volume reaches, wherever it stands.
  pub scan-Reaches :
      (v : D) {c : ReferralLevel D} {back : List (ReferralLevel D)} {c0 : ReferralLevel D}
      {levels : List (ReferralLevel D)} (prev : Option (ReferralLevel D))
      → Reaches c back c0 levels
      → IsAscending c0 levels
      → Le c.volume v
      → Beyond v back
      → ((scan v prev c0 levels).current ≡ c) × ((scan v prev c0 levels).next ≡ head back)
  unfolding scan
  scan-Reaches v {back = []} prev here a le b = (refl, refl)
  scan-Reaches v {c} {back = n ∷ rest} prev here a le b =
      rw (le_true c.volume v le, Lt→lt_dec v n.volume b) (refl, refl)
  scan-Reaches v {c0} prev (after {n = n} r) a le b =
      let (below, asc) = Reaches-IsAscending r a.2 in
      let no_stop : lt_dec v n.volume ≡ false = Le→not-lt_dec v n.volume (omega arith) in
      rw (le_true c0.volume v (omega arith), no_stop) (scan-Reaches v (some c0) r a.2 le b)

module _ (D : Type 0) ⦃dec : Decimal D⦄ where
  -- the table is in order
  pub upper_levels-IsAscending : IsAscending {D = D} first_level upper_levels
  unfolding upper_levels
  upper_levels-IsAscending =
      let lt = of_cents-Lt D in
      (
        lt 0 20_000_000 (omega arith),
        omega arith,
        (
          lt 20_000_000 40_000_000 (omega arith),
          omega arith,
          (
            lt 40_000_000 100_000_000 (omega arith),
            omega arith,
            (
              lt 100_000_000 350_000_000 (omega arith),
              omega arith,
              (
                lt 350_000_000 875_000_000 (omega arith),
                omega arith,
                (
                  lt 875_000_000 2_300_000_000 (omega arith),
                  omega arith,
                  (
                    lt 2_300_000_000 6_500_000_000 (omega arith),
                    omega arith,
                    (
                      lt 6_500_000_000 20_000_000_000 (omega arith),
                      omega arith,
                      (
                        lt 20_000_000_000 50_000_000_000 (omega arith),
                        omega arith,
                        (
                          lt 50_000_000_000 100_000_000_000 (omega arith),
                          omega arith,
                          (lt 100_000_000_000 1_000_000_000_000 (omega arith), omega arith, tt),
                        ),
                      ),
                    ),
                  ),
                ),
              ),
            ),
          ),
        ),
      )

  pub length-upper_levels : length (upper_levels {D = D}) ≡ 11
  unfolding upper_levels
  length-upper_levels = refl
