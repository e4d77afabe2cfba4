-- ===== src/Referrals/Bonus.antt =====
-- `calculateBonus` of referrals/utils.go: the loop that walks from one volume to another, level by
-- level, and pays the milestone of each level that is reached on the way.
use rabbit_dex_backend.Common.{
  ℕ, zero, suc, Bool, ◌&&◌, Option, none, some, List, [], ◌∷◌, ◌++◌, ltb, if◌then◌else◌, filter_by,
  fold_left,
}
use rabbit_dex_backend.Decimal.{Decimal, lt_dec}
use rabbit_dex_backend.Referrals.Levels.{ReferralLevel, get_level, upper_levels}

-- There are twelve levels: at most eleven rounds end at a level, one at `current_volume`, and the
-- last test ends the loop.
abbrev pub rounds : ℕ
rounds = 13

module _ {D : Type 0} ⦃dec : Decimal D⦄ where
  open dec use {nil, add, sub, le_dec}

  -- Where this round of the loop ends: at the next level's volume, or at `current_volume`.
  unfoldable pub threshold_of : Option (ReferralLevel D) → D → D
  threshold_of none current_volume = current_volume
  threshold_of (some next) current_volume =
      if lt_dec current_volume next.volume then current_volume else next.volume

  -- `startVolume` after the round.
  unfoldable pub advance : D → D → D
  unfolding threshold_of
  advance start current_volume =
      add start (sub (threshold_of (get_level start).next current_volume) start)

  -- The level that the round pays for, if it reaches one.
  unfoldable pub jumped : D → D → List (ReferralLevel D)
  jumped from to =
      let level = (get_level to).current in
      if ltb (get_level from).current.level level.level then level ∷ [] else []

  abbrev pub pay : D → ReferralLevel D → D
  pay bonus level = add bonus level.milestone_bonus

  -- The loop on fuel, one for each round; `none` means that the fuel ran out.
  unfoldable pub bonus_loop :
      ℕ → D → D → D → List (ReferralLevel D) → Option (D × List (ReferralLevel D))
  bonus_loop zero start current_volume bonus levels = none
  bonus_loop (suc fuel) start current_volume bonus levels =
      let start' = advance start current_volume in
      let new = jumped start start' in
      let rest = bonus_loop fuel start' current_volume (fold_left pay bonus new) (levels ++ new) in
      if lt_dec start current_volume then rest else some (bonus, levels)

  -- `calculateBonus`
  unfoldable pub calculate_bonus : D → D → Option (D × List (ReferralLevel D))
  calculate_bonus previous_volume current_volume =
      bonus_loop rounds previous_volume current_volume nil []

  -- The description: the levels whose volume lies above the old volume and not above the new one.
  abbrev pub is_passed : D → D → ReferralLevel D → Bool
  is_passed previous_volume current_volume l =
      lt_dec previous_volume l.volume && le_dec l.volume current_volume

  unfoldable pub passed_levels : D → D → List (ReferralLevel D)
  passed_levels previous_volume current_volume =
      filter_by (is_passed previous_volume current_volume) upper_levels
