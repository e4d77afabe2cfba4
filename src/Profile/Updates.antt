-- ===== src/Profile/Updates.antt =====
-- The updates that Periodics sends.
use rabbit_dex_backend.Common.{
  ℕ, suc, ◌≡◌, refl, sym, ap, subst, Bool, true, false, Option, none, some, List, [], ◌∷◌, ◌++◌,
  arith, if◌then◌else◌, length, batches, concat, concat-batches,
}
use rabbit_dex_backend.Profile.TierCalc.{
  ProfileTier, TiersData, Result, ok, err, update_profiles, tier_not_found,
}
use rabbit_dex_backend.Profile.Periodics.{
  Log, get_profile_tier, profiles_tiers, update_batches, update_tiers, Recalculate, next_ts,
  onboard_run_once,
}

abbrev reply : Bool → List ProfileTier → Result (Unit {0}) × Log → Result (Unit {0}) × Log
reply b tiers more = if b then (more.0, tiers ∷ more.1) else (err update_profiles, tiers ∷ [])

module _ {D : Type 0} where
  -- Every profile of the first list has the tier at its place in the second.
  abbrev pub AreTiersOf : TiersData D → List ℕ → List ProfileTier → Type 0
  AreTiersOf tiers_data [] tiers = tiers ≡ []
  AreTiersOf tiers_data (id ∷ ids) [] = ⊥
  AreTiersOf tiers_data (id ∷ ids) (t ∷ tiers) =
      (get_profile_tier tiers_data id ≡ some t) × AreTiersOf tiers_data ids tiers

  AreTiersOf-append :
      (tiers_data : TiersData D) (ids more : List ℕ) (tiers others : List ProfileTier)
      → AreTiersOf tiers_data ids tiers
      → AreTiersOf tiers_data more others
      → AreTiersOf tiers_data (ids ++ more) (tiers ++ others)
  AreTiersOf-append tiers_data [] more tiers others a b = rw a b
  AreTiersOf-append tiers_data (id ∷ ids) more [] others a b = absurd a
  AreTiersOf-append tiers_data (id ∷ ids) more (t ∷ tiers) others a b =
      (a.0, AreTiersOf-append tiers_data ids more tiers others a.1 b)

  profiles_tiers-AreTiersOf :
      (tiers_data : TiersData D) (ids : List ℕ) (tiers : List ProfileTier)
      → profiles_tiers tiers_data ids ≡ ok tiers
      → AreTiersOf tiers_data ids tiers
  unfolding profiles_tiers
  profiles_tiers-AreTiersOf tiers_data [] tiers h = cc
  profiles_tiers-AreTiersOf tiers_data (id ∷ ids) tiers h =
      go (get_profile_tier tiers_data id) refl (profiles_tiers tiers_data ids)
        (λ rest e. profiles_tiers-AreTiersOf tiers_data ids rest e) h
    where
      ok-injective : {x y : List ProfileTier} → ok x ≡ ok y → x ≡ y
      ok-injective {x} e = ap (λ r. elim r as (λ z. List ProfileTier) [ ok a ↦ a | err _ ↦ x ]) e

      go :
          (o : Option ProfileTier)
          → get_profile_tier tiers_data id ≡ o
          → (r : Result (List ProfileTier))
          → ((rest : List ProfileTier) → r ≡ ok rest → AreTiersOf tiers_data ids rest)
          → elim o as (λ x. Result (List ProfileTier)) [
            | none ↦ err (tier_not_found id)
            | some tier ↦ elim r as (λ x. Result (List ProfileTier)) [
              | err e ↦ err e
              | ok rest ↦ ok (tier ∷ rest)
            ]
          ]
            ≡ ok tiers
          → AreTiersOf tiers_data (id ∷ ids) tiers
      go none e r ih h' = cc
      go (some tier) e (err x) ih h' = cc
      go (some tier) e (ok rest) ih h' =
          subst (AreTiersOf tiers_data (id ∷ ids)) (ok-injective h') (e, ih rest refl)

  update_batches-AreTiersOf :
      (tiers_data : TiersData D) (accepts : List ProfileTier → Bool) (bs : List (List ℕ))
      → (update_batches tiers_data accepts bs).0 ≡ ok tt
      → AreTiersOf tiers_data (concat bs) (concat (update_batches tiers_data accepts bs).1)
  unfolding update_batches
  update_batches-AreTiersOf tiers_data accepts [] h = refl
  update_batches-AreTiersOf tiers_data accepts (ids ∷ rest) h =
      go (profiles_tiers tiers_data ids) refl accepts (update_batches tiers_data accepts rest)
        (update_batches-AreTiersOf tiers_data accepts rest) h
    where
      sent :
          Result (List ProfileTier)
          → (List ProfileTier → Bool)
          → Result (Unit {0}) × Log
          → Result (Unit {0}) × Log
      sent r accepts more = elim r as (λ x. Result (Unit {0}) × Log) [
        | err e ↦ (err e, [])
        | ok tiers ↦ reply (accepts tiers) tiers more
      ]

      go :
          (r : Result (List ProfileTier))
          → profiles_tiers tiers_data ids ≡ r
          → (accepts : List ProfileTier → Bool) (more : Result (Unit {0}) × Log)
          → (more.0 ≡ ok tt → AreTiersOf tiers_data (concat rest) (concat more.1))
          → (sent r accepts more).0 ≡ ok tt
          → AreTiersOf tiers_data (ids ++ concat rest) (concat (sent r accepts more).1)
      go (err e) eq accepts more ih h' = cc
      go (ok tiers) eq accepts more ih h' = yes (accepts tiers) h'
        where
          yes :
              (b : Bool)
              → (reply b tiers more).0 ≡ ok tt
              → AreTiersOf tiers_data (ids ++ concat rest) (concat (reply b tiers more).1)
          yes true h'' =
              AreTiersOf-append tiers_data ids (concat rest) tiers (concat more.1)
                (profiles_tiers-AreTiersOf tiers_data ids tiers eq) (ih h'')
          yes false h'' = absurd (let e = h'' in cc)

  update_tiers-AreTiersOf :
      (batch_size id : ℕ) (ids : List ℕ) (recalculate : Recalculate D)
      (accepts : List ProfileTier → Bool)
      → (update_tiers batch_size (some (id ∷ ids)) recalculate accepts).0 ≡ ok tt
      → AreTiersOf
          (recalculate (id ∷ ids)).1
          (id ∷ ids)
          (concat (update_tiers batch_size (some (id ∷ ids)) recalculate accepts).1)
  unfolding update_tiers
  update_tiers-AreTiersOf batch_size id ids recalculate accepts h = go (recalculate (id ∷ ids)).0 h
    where
      table : TiersData D
      table = (recalculate (id ∷ ids)).1

      all : List (List ℕ)
      all = batches (suc (length (id ∷ ids))) batch_size (id ∷ ids)

      go :
          (r : Result (Unit {0}))
          → (elim r as (λ x. Result (Unit {0}) × Log) [
            | err e ↦ (err e, [])
            | ok _ ↦ update_batches table accepts all
          ]).0
            ≡ ok tt
          → AreTiersOf table (id ∷ ids) (
              concat
                (elim r as (λ x. Result (Unit {0}) × Log) [
                  | err e ↦ (err e, [])
                  | ok _ ↦ update_batches table accepts all
                ]).1)
      go (err e) h' = absurd (let e' = h' in cc)
      go (ok _) h' =
          subst (λ l. AreTiersOf table l (concat (update_batches table accepts all).1))
            (concat-batches (suc (length (id ∷ ids))) batch_size (id ∷ ids) (omega arith))
            (update_batches-AreTiersOf table accepts all h')

  -- The onboarding run that succeeds has sent the tier of every profile created after `lastTs`, in
  -- the order of the store and whatever the size of the batches; and it has moved `lastTs` to the
  -- time of its start. Its context is not done, and there is such a profile.
  pub onboard_run_once-AreTiersOf :
      (batch_size now last_ts id : ℕ) (ids : List ℕ) (ids_after : ℕ → Option (List ℕ))
      (recalculate : Recalculate D) (accepts : List ProfileTier → Bool)
      → ids_after last_ts ≡ some (id ∷ ids)
      → (onboard_run_once false batch_size now ids_after recalculate accepts (some last_ts)).0
        ≡ ok tt
      → AreTiersOf (recalculate (id ∷ ids)).1 (id ∷ ids) (
          concat
            (onboard_run_once false batch_size now ids_after recalculate accepts (some last_ts)).1)
        × ((onboard_run_once false batch_size now ids_after recalculate accepts (some last_ts)).2
            ≡ some now)
  unfolding onboard_run_once next_ts
  onboard_run_once-AreTiersOf batch_size now last_ts id ids ids_after recalculate accepts some_ids
        h =
      subst
        (λ (o : Option (List ℕ)).
          (update_tiers batch_size o recalculate accepts).0 ≡ ok tt
          → AreTiersOf (recalculate (id ∷ ids)).1 (id ∷ ids)
              (concat (update_tiers batch_size o recalculate accepts).1)
            × (some (next_ts (update_tiers batch_size o recalculate accepts).0 o now last_ts)
                ≡ some now))
        (sym some_ids)
        (λ done. (
          update_tiers-AreTiersOf batch_size id ids recalculate accepts done,
          ap (λ r. some (next_ts r (some (id ∷ ids)) now last_ts)) done,
        ))
        h
