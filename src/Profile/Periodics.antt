-- ===== src/Profile/Periodics.antt =====
-- `RunOnce` of profile/periodics/tier/tier.go and profile/periodics/onboard_tier/onboard_tier.go,
-- and the volumes of profile/volume_cache.go. The answers of the store and of the market services
-- are arguments; the updates that were sent come back as a log.
use rabbit_dex_backend.Common.{
  ℕ, suc, Bool, Option, none, some, List, [], ◌∷◌, if◌then◌else◌, length, Dict, lookup, fill,
  batches,
}
use rabbit_dex_backend.Profile.TierCalc.{
  ProfileTier, TiersData, Result, ok, err, context_done, get_profiles, update_profiles,
  argument_required, tier_not_found,
}

-- `VolumeStoreCache.Refresh`: the new volumes, or the error, which leaves the old ones.
unfoldable pub refresh : {D : Type 0} → Option (List (ℕ × D)) → Dict D → Result (Unit {0}) × Dict D
refresh none volumes = (err get_profiles, volumes)
refresh (some vols) volumes = (ok tt, fill (λ v. v.0) (λ v. v.1) vols [])

-- `VolumeStoreCache.GetVolume`
unfoldable pub get_volume : {D : Type 0} → Dict D → ℕ → Option D
get_volume volumes id = lookup id volumes

abbrev pub Log : Type 0
Log = List (List ProfileTier)

-- `TierCalc.Recalculate` on the table of the time.
abbrev pub Recalculate : Type 0 → Type 0
Recalculate D = List ℕ → Result (Unit {0}) × TiersData D

-- `lastTs` after the run: the time of its start, if it succeeds with some profiles.
unfoldable pub next_ts : Result (Unit {0}) → Option (List ℕ) → ℕ → ℕ → ℕ
next_ts (ok _) (some (id ∷ ids)) now last_ts = now
next_ts (ok _) (some []) now last_ts = last_ts
next_ts (ok _) none now last_ts = last_ts
next_ts (err e) profiles_ids now last_ts = last_ts

module _ {D : Type 0} where
  -- `TierCalc.GetProfileTier` and `TierCalc.GetProfileTierStatus`
  unfoldable pub get_profile_tier : TiersData D → ℕ → Option ProfileTier
  get_profile_tier tiers_data id = elim (lookup id tiers_data) [
    | none ↦ none
    | some entry ↦ some entry.profile_tier
  ]

  -- The loop over a batch: its tiers, or the error of the first profile that has none.
  unfoldable pub profiles_tiers : TiersData D → List ℕ → Result (List ProfileTier)
  profiles_tiers tiers_data [] = ok []
  profiles_tiers tiers_data (id ∷ ids) = elim (get_profile_tier tiers_data id) [
    | none ↦ err (tier_not_found id)
    | some tier ↦ elim (profiles_tiers tiers_data ids) [
      | err e ↦ err e
      | ok rest ↦ ok (tier ∷ rest)
    ]
  ]

  -- The loop over the batches. `accepts` is the answer of `UpdateProfilesToTiers`; the log has the
  -- requests, the refused one too.
  unfoldable pub update_batches :
      TiersData D → (List ProfileTier → Bool) → List (List ℕ) → Result (Unit {0}) × Log
  update_batches tiers_data accepts [] = (ok tt, [])
  update_batches tiers_data accepts (ids ∷ rest) = elim (profiles_tiers tiers_data ids) [
    | err e ↦ (err e, [])
    | ok tiers ↦
        let more = update_batches tiers_data accepts rest in
        if accepts tiers then (more.0, tiers ∷ more.1) else (err update_profiles, tiers ∷ [])
  ]

  -- Both services, from the answer of `GetProfilesIdsAfterCreatedAt` on.
  unfoldable pub update_tiers :
      ℕ → Option (List ℕ) → Recalculate D → (List ProfileTier → Bool) → Result (Unit {0}) × Log
  update_tiers batch_size none recalculate accepts = (err get_profiles, [])
  update_tiers batch_size (some []) recalculate accepts = (ok tt, [])
  update_tiers batch_size (some (id ∷ ids)) recalculate accepts =
      let (recalculated, tiers_data) = recalculate (id ∷ ids) in
      elim recalculated [
        | err e ↦ (err e, [])
        | ok _ ↦
            update_batches tiers_data accepts
              (batches (suc (length (id ∷ ids))) batch_size (id ∷ ids))
      ]

  -- `Periodics.RunOnce` of the tier service: all profiles.
  unfoldable pub run_once :
      Bool
      → ℕ
      → Option (List ℕ)
      → Recalculate D
      → (List ProfileTier → Bool)
      → Result (Unit {0}) × Log
  run_once is_done batch_size profiles_ids recalculate accepts =
      if is_done
      then (err context_done, [])
      else update_tiers batch_size profiles_ids recalculate accepts

  -- `Periodics.RunOnce` of the onboarding service: the profiles created after `lastTs`, which is a
  -- pointer; `ids_after` is the answer of the store.
  unfoldable pub onboard_run_once :
      Bool
      → ℕ
      → ℕ
      → (ℕ → Option (List ℕ))
      → Recalculate D
      → (List ProfileTier → Bool)
      → Option ℕ
      → Result (Unit {0}) × Log × Option ℕ
  onboard_run_once is_done batch_size now ids_after recalculate accepts none =
      (if is_done then err context_done else err argument_required, [], none)
  onboard_run_once is_done batch_size now ids_after recalculate accepts (some last_ts) =
      let (result, log) = update_tiers batch_size (ids_after last_ts) recalculate accepts in
      if is_done
      then (err context_done, [], some last_ts)
      else (result, log, some (next_ts result (ids_after last_ts) now last_ts))
