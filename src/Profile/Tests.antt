-- ===== src/Profile/Tests.antt =====
-- The tiers on concrete volumes, and the theorems at concrete inputs.
use rabbit_dex_backend.Common.{
  ℕ, Option, List, true, false, concat, batches, lookup, insert, fill, ◌≡◌, refl, none, some, [],
  ◌∷◌,
}
use rabbit_dex_backend.Decimal.Hundredths.{ℤ, pos, hundredths}
use rabbit_dex_backend.Profile.TierCalc.{
  ok, add_entries, add_batches, entry_from, tier_entry, pick_affiliate, affiliate_of, entry_of,
  special_entry, needed_volume, Tier, Answers, recalculate, pick_tier, sort_tiers, insert_tier,
}
use rabbit_dex_backend.Profile.Picks.{IsTierOf, IsNextTier, pick_tier-sort_tiers}
use rabbit_dex_backend.Profile.Recalculate.{Recalculated, recalculate-Recalculated}
use rabbit_dex_backend.Profile.Periodics.{
  Recalculate, onboard_run_once, update_tiers, update_batches, profiles_tiers, get_profile_tier,
  next_ts,
}
use rabbit_dex_backend.Profile.Updates.{AreTiersOf, onboard_run_once-AreTiersOf}

program : Unit {0}
unfolding recalculate add_entries add_batches batches entry_from tier_entry sort_tiers insert_tier
    pick_tier pick_affiliate affiliate_of entry_of special_entry needed_volume lookup insert fill
    onboard_run_once update_tiers update_batches profiles_tiers get_profile_tier next_ts
program = tt

abbrev basic : Tier ℤ
basic = record { tier = 1; title = "Basic"; min_volume = pos 0 }

abbrev silver : Tier ℤ
silver = record { tier = 2; title = "Silver"; min_volume = pos 100 }

abbrev gold : Tier ℤ
gold = record { tier = 3; title = "Gold"; min_volume = pos 500 }

silver_of_volume :
    (pick_tier (pos 250) none (sort_tiers (basic ∷ gold ∷ silver ∷ []))).current ≡ silver
unfolding pick_tier sort_tiers insert_tier
silver_of_volume = refl

gold_after : (pick_tier (pos 250) none (sort_tiers (basic ∷ gold ∷ silver ∷ []))).next ≡ some gold
unfolding pick_tier sort_tiers insert_tier
gold_after = refl

pick_tier-sort_tiers_example :
    IsTierOf
      (pos 250)
      (basic ∷ gold ∷ silver ∷ [])
      (pick_tier (pos 250) none (sort_tiers (basic ∷ gold ∷ silver ∷ [])))
    × IsNextTier
        (pos 250)
        (basic ∷ gold ∷ silver ∷ [])
        (pick_tier (pos 250) none (sort_tiers (basic ∷ gold ∷ silver ∷ []))).next
pick_tier-sort_tiers_example = pick_tier-sort_tiers (pos 250) (basic ∷ gold ∷ silver ∷ [])

-- Profile 7 has a special tier, profile 8 was invited by the affiliate 9.
abbrev answers : Answers ℤ
answers = record {
  trading_tiers = some (basic ∷ gold ∷ silver ∷ []);
  referrals = some (record { invited_id = 8; profile_id = 9 } ∷ []);
  special_tiers = some (record { profile_id = 7; special_tier_id = 20 } ∷ []);
  affiliate_tiers =
      some (record { profile_id = 9; special_tier_id = 30; replace_tier_id = 2 } ∷ []);
}

recalculate-Recalculated_example :
    Recalculated answers
      ((6, pos 250) ∷ [])
      (6 ∷ 7 ∷ 8 ∷ [])
      []
      (recalculate 2 answers ((6, pos 250) ∷ []) (6 ∷ 7 ∷ 8 ∷ []) [])
recalculate-Recalculated_example =
    recalculate-Recalculated 2 answers ((6, pos 250) ∷ []) (6 ∷ 7 ∷ 8 ∷ []) []

-- The run of the onboarding service over the profiles 6, 7 and 8, in batches of two.
abbrev recalculate_all : Recalculate ℤ
recalculate_all ids = recalculate 2 answers ((6, pos 250) ∷ []) ids []

abbrev new_profiles : ℕ → Option (List ℕ)
new_profiles ts = some (6 ∷ 7 ∷ 8 ∷ [])

onboarded :
    (onboard_run_once false 2 1_000 new_profiles recalculate_all (λ t. true) (some 500)).0 ≡ ok tt
unfolding program
onboarded = refl

onboard_run_once-AreTiersOf_example :
    AreTiersOf (recalculate_all (6 ∷ 7 ∷ 8 ∷ [])).1 (6 ∷ 7 ∷ 8 ∷ []) (
      concat (onboard_run_once false 2 1_000 new_profiles recalculate_all (λ t. true) (some 500)).1)
    × ((onboard_run_once false 2 1_000 new_profiles recalculate_all (λ t. true) (some 500)).2
        ≡ some 1_000)
onboard_run_once-AreTiersOf_example =
    onboard_run_once-AreTiersOf 2 1_000 500 6 (7 ∷ 8 ∷ []) new_profiles recalculate_all (λ t. true)
      refl onboarded
