-- ===== src/Liqengine/Handle.antt =====
-- Why Service makes each of its calls.
use Prim.Native.String.{String}
use text.Mathlib.Text.{◌==◌ as str_eq}
use rabbit_dex_backend.Common.{
  ℕ, ◌+◌, ◌≤◌, ◌≡◌, refl, subst, ◌⊎◌, inl, inr, Bool, true, false, not, ◌&&◌, Option, none, some,
  List, [], ◌∷◌, ◌++◌, leb, leb→le, Bool-cases, if◌then◌else◌, All, In,
}
use rabbit_dex_backend.Float64.{Float64, Convert, Le, Lt, lt_f, le_f→Le, not_le→Lt}
use rabbit_dex_backend.Liqengine.Account.{
  Action, ProfileCache, Profile, Reading, nil_pointer, skipped, reading, deref, deref-reading,
  reading-injective, AccountData,
}
use rabbit_dex_backend.Liqengine.Engine.{
  liquidation_margin, takeover_margin, below_liquidation_margin, is_liquidation_ending,
  should_liquidation_have_more_time, is_interval_passed, required_actions, waterfall_interval,
}
use rabbit_dex_backend.Liqengine.Orders.{some-injective}
use rabbit_dex_backend.Liqengine.Required.{IsRequired, required_actions-IsRequired}
use rabbit_dex_backend.Liqengine.Service.{
  Call, get_next_liq_batch, wait_for_cancel_all, completed_liquidation, queue, liquidated_vaults,
  update_last_checked, World, queue_if_any, vaults_if_any, liquidate, is_margin_error, read_profile,
}

module _ {D : Type 0} (F : Type 0) ⦃fl : Float64 F⦄ ⦃conv : Convert D F⦄ where
  open fl use {lit, neg, le_f}
  open conv use {to_float}

  abbrev pub margin : Profile D → F
  margin p = to_float p.account_margin

  -- The values behind the pointers of a profile.
  abbrev IsRead : Profile D → Type 0
  IsRead p =
      (p.cache.profile_id ≡ p.profile_id)
      × (p.cache.profile_type ≡ some p.profile_type)
      × (p.cache.status ≡ some p.status)
      × (p.cache.account_margin ≡ some p.account_margin)
      × (p.cache.last_liq_check ≡ some p.last_liq_check)

  -- One of the profiles, not the insurance, at a margin of at least -0.1.
  abbrev pub IsListed : List (ProfileCache D) → Profile D → Type 0
  IsListed profiles p =
      In p.cache profiles
      × IsRead p
      × (str_eq p.profile_type "insurance" ≡ false)
      × Le (neg (lit 1_000)) (margin p)

  -- A profile whose liquidation is due: its orders are cancelled, its margin is below 0.03, and it
  -- is not in the interval in which an account above 0.02 has time to recover. With its account and
  -- the actions that are required.
  abbrev pub IsDue : World D → List (ProfileCache D) → Profile D → List (Action D) → List ℕ → Type 0
  IsDue world profiles p actions vaults =
      IsListed profiles p
      × (world.cancel_accepted p ≡ true)
      × Lt (margin p) liquidation_margin
      × ((str_eq p.status "liquidating" ≡ false)
          ⊎ Lt (margin p) takeover_margin
          ⊎ (p.last_liq_check + waterfall_interval ≤ world.now))
      × ((account : AccountData D) × (world.account_data p ≡ some account)
          × IsRequired F account (actions, vaults))

  -- What each call should rest on.
  abbrev pub IsJustified : World D → List (ProfileCache D) → Call D → Type 0
  IsJustified world profiles (get_next_liq_batch _) = Unit
  IsJustified world profiles (wait_for_cancel_all id) =
      (p : Profile D) × (id ≡ p.profile_id) × IsListed profiles p
  IsJustified world profiles (completed_liquidation id) =
      (p : Profile D) × (id ≡ p.profile_id)
      × IsListed profiles p
      × (world.cancel_accepted p ≡ true)
      × (str_eq p.status "liquidating" ≡ true)
      × Le liquidation_margin (margin p)
  IsJustified world profiles (queue actions) =
      (p : Profile D) × (vaults : List ℕ) × IsDue world profiles p actions vaults
  IsJustified world profiles (liquidated_vaults vaults) =
      (p : Profile D) × (actions : List (Action D)) × IsDue world profiles p actions vaults
  IsJustified world profiles (update_last_checked id) =
      (p : Profile D) × (actions : List (Action D)) × (vaults : List ℕ) × (id ≡ p.profile_id)
      × IsDue world profiles p actions vaults

  no_margin_error :
      (profile : ProfileCache D) (account_margin : D)
      → is_margin_error F profile account_margin ≡ reading false
      → Le (neg (lit 1_000)) (to_float account_margin)
  unfolding is_margin_error
  no_margin_error profile account_margin h =
      elim (Bool-cases (le_f (neg (lit 1_000)) (to_float account_margin))) [
        | inl e ↦ le_f→Le (neg (lit 1_000)) (to_float account_margin) e
        | inr e ↦ absurd (let h' = reading-injective (rw e at h) in let x = h' in cc)
      ]

  -- A profile that is read has its values, and its margin is no error.
  pub read_profile-IsListed :
      (profiles : List (ProfileCache D)) (type : String) (profile : ProfileCache D) (p : Profile D)
      → In profile profiles
      → profile.profile_type ≡ some type
      → str_eq type "insurance" ≡ false
      → read_profile F type profile ≡ reading p
      → IsListed profiles p
  unfolding read_profile
  read_profile-IsListed profiles type profile p member typed own h =
      let margin_of = deref-reading profile.account_margin _ p h in
      go margin_of.0 margin_of.1 (is_margin_error F profile margin_of.0) refl margin_of.2
    where
      made :
          (m : D) (last : ℕ) (status : String)
          → profile.account_margin ≡ some m
          → profile.last_liq_check ≡ some last
          → profile.status ≡ some status
          → Le (neg (lit 1_000)) (to_float m)
          → IsListed profiles (record {
            cache = profile;
            profile_id = profile.profile_id;
            profile_type = type;
            status = status;
            account_margin = m;
            last_liq_check = last;
          })
      made m last status e1 e2 e3 le = (member, (refl, typed, e3, e1, e2), own, le)

      go :
          (m : D)
          → profile.account_margin ≡ some m
          → (r : Reading Bool) → is_margin_error F profile m ≡ r
          → elim r as (λ x. Reading (Profile D)) [
            | nil_pointer ↦ nil_pointer
            | skipped ↦ skipped
            | reading is_error ↦
                if is_error
                then skipped
                else deref profile.account_equity (λ _. deref profile.total_notional (λ _.
                  deref profile.last_liq_check (λ last_liq_check. deref profile.status (λ status.
                    reading (record {
                      cache = profile;
                      profile_id = profile.profile_id;
                      profile_type = type;
                      status = status;
                      account_margin = m;
                      last_liq_check = last_liq_check;
                    })))))
          ]
            ≡ reading p
          → IsListed profiles p
      go m e nil_pointer r h' = cc
      go m e skipped r h' = cc
      go m e (reading true) r h' = cc
      go m e (reading false) r h' =
          let equity = deref-reading profile.account_equity _ p h' in
          let notional = deref-reading profile.total_notional _ p equity.2 in
          let last = deref-reading profile.last_liq_check _ p notional.2 in
          let status = deref-reading profile.status _ p last.2 in
          subst (IsListed profiles) (reading-injective status.2)
            (made m last.0 status.0 e last.1 status.1 (no_margin_error profile m r))

  pub ending :
      (p : Profile D)
      → is_liquidation_ending F p ≡ true
      → (str_eq p.status "liquidating" ≡ true) × Le liquidation_margin (margin p)
  unfolding is_liquidation_ending
  ending p h =
      go (str_eq p.status "liquidating") (le_f liquidation_margin (margin p)) h
        (le_f→Le liquidation_margin (margin p))
    where
      go :
          (s l : Bool)
          → s && l ≡ true
          → (l ≡ true → Le liquidation_margin (margin p))
          → (s ≡ true) × Le liquidation_margin (margin p)
      go true true h f = (refl, f refl)
      go true false h f = cc
      go false l h f = cc

  pub below :
      (p : Profile D)
      → below_liquidation_margin (margin p) ≡ true
      → Lt (margin p) liquidation_margin
  unfolding below_liquidation_margin
  below p h = elim (Bool-cases (le_f liquidation_margin (margin p))) [
    | inl e ↦ absurd (let h' = rw e at h in cc)
    | inr e ↦ not_le→Lt liquidation_margin (margin p) e
  ]

  pub no_more_time :
      (now : ℕ) (p : Profile D)
      → should_liquidation_have_more_time F now p ≡ false
      → below_liquidation_margin (margin p) ≡ true
      → (str_eq p.status "liquidating" ≡ false)
        ⊎ Lt (margin p) takeover_margin
        ⊎ (p.last_liq_check + waterfall_interval ≤ now)
  unfolding should_liquidation_have_more_time below_liquidation_margin is_interval_passed
  no_more_time now p h b =
      go (str_eq p.status "liquidating") (lt_f (margin p) liquidation_margin)
        (le_f takeover_margin (margin p)) (leb (p.last_liq_check + waterfall_interval) now) h b
        (not_le→Lt takeover_margin (margin p)) (leb→le (p.last_liq_check + waterfall_interval) now)
    where
      go :
          (s l t i : Bool)
          → s && l && t && not i ≡ false
          → l ≡ true
          → (t ≡ false → Lt (margin p) takeover_margin)
          → (i ≡ true → p.last_liq_check + waterfall_interval ≤ now)
          → (s ≡ false)
            ⊎ Lt (margin p) takeover_margin
            ⊎ (p.last_liq_check + waterfall_interval ≤ now)
      go false l t i h b f g = inl refl
      go true l false i h b f g = inr (inl (f refl))
      go true l t true h b f g = inr (inr (g refl))
      go true true true false h b f g = cc
      go true false true false h b f g = cc

  pub liquidate-All :
      (world : World D) (profiles : List (ProfileCache D)) (p : Profile D)
      (done : List (Call D) × List (Action D))
      → liquidate F world p ≡ some done
      → ((actions : List (Action D)) (vaults : List ℕ)
          → ((account : AccountData D) × (world.account_data p ≡ some account)
              × IsRequired F account (actions, vaults))
          → IsDue world profiles p actions vaults)
      → All (IsJustified world profiles) done.0
  unfolding liquidate
  liquidate-All world profiles p done h due = go (world.account_data p) refl h
    where
      calls-All :
          (actions : List (Action D)) (vaults : List ℕ)
          → IsDue world profiles p actions vaults
          → All (IsJustified world profiles) (
              queue_if_any actions
              ++ (vaults_if_any vaults ++ (update_last_checked p.profile_id ∷ [])))
      calls-All [] [] d = ((p, [], [], refl, d), tt)
      calls-All [] (v ∷ vs) d = ((p, [], d), ((p, [], v ∷ vs, refl, d), tt))
      calls-All (a ∷ more) [] d = ((p, [], d), ((p, a ∷ more, [], refl, d), tt))
      calls-All (a ∷ more) (v ∷ vs) d =
          ((p, v ∷ vs, d), ((p, a ∷ more, d), ((p, a ∷ more, v ∷ vs, refl, d), tt)))

      with_account :
          (account : AccountData D)
          → world.account_data p ≡ some account
          → (r : Option (List (Action D) × List ℕ)) → required_actions F account ≡ r
          → elim r as (λ x. Option (List (Call D) × List (Action D))) [
            | none ↦ none
            | some required ↦ some (
              queue_if_any required.0
                  ++ (vaults_if_any required.1 ++ (update_last_checked p.profile_id ∷ [])),
              required.0,
            )
          ]
            ≡ some done
          → All (IsJustified world profiles) done.0
      with_account account a none r h' = cc
      with_account account a (some (actions, vaults)) r h' =
          subst (λ x. All (IsJustified world profiles) x.0) (some-injective h')
            (calls-All actions vaults (
              due actions vaults
                (account, a, required_actions-IsRequired F account (actions, vaults) r)))

      go :
          (o : Option (AccountData D))
          → world.account_data p ≡ o
          → elim o as (λ x. Option (List (Call D) × List (Action D))) [
            | none ↦ some ([], [])
            | some account ↦
                elim (required_actions F account)
                  as (λ x. Option (List (Call D) × List (Action D))) [
                    | none ↦ none
                    | some required ↦ some (
                      queue_if_any required.0
                          ++ (vaults_if_any required.1 ++ (update_last_checked p.profile_id ∷ [])),
                      required.0,
                    )
                  ]
          ]
            ≡ some done
          → All (IsJustified world profiles) done.0
      go none e h' = subst (λ x. All (IsJustified world profiles) x.0) (some-injective h') tt
      go (some account) e h' = with_account account e (required_actions F account) refl h'
