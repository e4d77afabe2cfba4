-- ===== src/Profile/TierCalc.antt =====
-- `TierCalc` of profile/tier_calc.go: which tier a profile trades at. The answers of the services
-- that it asks are arguments; `none` stands for their errors.
use Prim.Native.String.{String}
use rabbit_dex_backend.Common.{
  ℕ, suc, Option, none, some, List, [], ◌∷◌, ◌==◌, if◌then◌else◌, length, Dict, lookup, insert,
  fill, batches,
}
use rabbit_dex_backend.Decimal.{Decimal, lt_dec}

pub record Tier (D : Type 0) : Type 0 where
  pub tier : ℕ
  pub title : String
  pub min_volume : D

pub record SpecialTier : Type 0 where
  pub profile_id : ℕ
  pub special_tier_id : ℕ

pub record AffiliateTier : Type 0 where
  pub profile_id : ℕ
  pub special_tier_id : ℕ
  pub replace_tier_id : ℕ

pub record ReferralLink : Type 0 where
  pub invited_id : ℕ
  pub profile_id : ℕ

pub record ProfileTier : Type 0 where
  pub profile_id : ℕ
  pub special_tier_id : ℕ
  pub tier_id : ℕ

-- `model.DummyTier` has the fields of `Tier`.
pub record TierStatus (D : Type 0) : Type 0 where
  pub current : Tier D
  pub next : Option (Tier D)
  pub needed_volume : Option D

pub record TierEntry (D : Type 0) : Type 0 where
  pub status : TierStatus D
  pub profile_tier : ProfileTier

-- The variables of the loop over the tiers.
pub record Pick (D : Type 0) : Type 0 where
  pub current : Tier D
  pub next : Option (Tier D)
  pub special_tier_id : ℕ
  pub tier_id : ℕ

-- What the services answer to one `Recalculate`.
pub record Answers (D : Type 0) : Type 0 where
  pub trading_tiers : Option (List (Tier D))
  pub referrals : Option (List ReferralLink)
  pub special_tiers : Option (List SpecialTier)
  pub affiliate_tiers : Option (List AffiliateTier)

pub data TierError : Type 0 where
  get_trading_tiers get_referrals get_special_tiers get_affiliate_tiers : TierError
  tier_not_found : ℕ → TierError
  context_done get_profiles update_profiles argument_required : TierError

pub data Result (A : Type 0) : Type 0 where
  ok : A → Result A
  err : TierError → Result A

infixl 5 ◌>>=◌
abbrev pub ◌>>=◌ : {A B : Type 0} → Result A → (A → Result B) → Result B
ok a >>= f = f a
err e >>= f = err e

abbrev pub or_fail : {A : Type 0} → Option A → TierError → Result A
or_fail none e = err e
or_fail (some a) e = ok a

-- The affiliate's tier of the profile's referrer, if it has both.
unfoldable pub affiliate_of : Dict ℕ → Dict AffiliateTier → ℕ → Option AffiliateTier
affiliate_of referrals affiliates id = elim (lookup id referrals) [
  | none ↦ none
  | some referrer ↦ lookup referrer affiliates
]

-- The map `tiersData`.
abbrev pub TiersData : Type 0 → Type 0
TiersData D = Dict (TierEntry D)

module _ {D : Type 0} ⦃dec : Decimal D⦄ where
  open dec use {nil, sub, le_dec}

  -- `slices.SortFunc` by descending minimal volume.
  unfoldable pub insert_tier : Tier D → List (Tier D) → List (Tier D)
  insert_tier t [] = t ∷ []
  insert_tier t (u ∷ tiers) =
      if lt_dec t.min_volume u.min_volume then u ∷ insert_tier t tiers else t ∷ u ∷ tiers

  unfoldable pub sort_tiers : List (Tier D) → List (Tier D)
  sort_tiers [] = []
  sort_tiers (t ∷ tiers) = insert_tier t (sort_tiers tiers)

  -- Go's zero value of a tier.
  abbrev pub no_tier : Tier D
  no_tier = record { tier = 0; title = ""; min_volume = nil }

  abbrev pub special : ℕ → Tier D
  special id = record { tier = id; title = "Special tier"; min_volume = nil }

  -- The loop of the default case: the first tier that the volume reaches, and the one before it.
  unfoldable pub pick_tier : D → Option (Tier D) → List (Tier D) → Pick D
  pick_tier vol next [] = record {
    current = no_tier;
    next = next;
    special_tier_id = 0;
    tier_id = 0;
  }
  pick_tier vol next (t ∷ tiers) =
      if le_dec t.min_volume vol
      then record { current = t; next = next; special_tier_id = 0; tier_id = t.tier }
      else pick_tier vol (some t) tiers

  -- The loop of the affiliate case, which stops at the tier to replace too.
  unfoldable pub pick_affiliate : D → AffiliateTier → Option (Tier D) → List (Tier D) → Pick D
  pick_affiliate vol aff next [] = record {
    current = no_tier;
    next = next;
    special_tier_id = 0;
    tier_id = 0;
  }
  pick_affiliate vol aff next (t ∷ tiers) =
      if t.tier == aff.replace_tier_id
      then record {
        current = special aff.special_tier_id;
        next = next;
        special_tier_id = aff.special_tier_id;
        tier_id = 0;
      }
      else if le_dec t.min_volume vol
      then record { current = t; next = next; special_tier_id = 0; tier_id = t.tier }
      else pick_affiliate vol aff (some t) tiers

  unfoldable pub needed_volume : D → Option (Tier D) → Option D
  needed_volume vol none = none
  needed_volume vol (some next) = some (sub next.min_volume vol)

  unfoldable pub entry_of : ℕ → D → Pick D → TierEntry D
  entry_of id vol p = record {
    status = record {
      current = p.current;
      next = p.next;
      needed_volume = needed_volume vol p.next;
    };
    profile_tier = record {
      profile_id = id;
      special_tier_id = p.special_tier_id;
      tier_id = p.tier_id;
    };
  }

  -- A profile with a special tier of its own.
  unfoldable pub special_entry : ℕ → SpecialTier → TierEntry D
  special_entry id tier = record {
    status = record { current = special tier.special_tier_id; next = none; needed_volume = none };
    profile_tier = record { profile_id = id; special_tier_id = tier.special_tier_id; tier_id = 0 };
  }

  -- The three cases of the loop body, in their order.
  unfoldable pub tier_entry :
      List (Tier D) → Dict SpecialTier → Dict ℕ → Dict AffiliateTier → ℕ → D → TierEntry D
  tier_entry tiers specials referrals affiliates id vol = elim (lookup id specials) [
    | some tier ↦ special_entry id tier
    | none ↦ elim (affiliate_of referrals affiliates id) [
      | some aff ↦ entry_of id vol (pick_affiliate vol aff none tiers)
      | none ↦ entry_of id vol (pick_tier vol none tiers)
    ]
  ]

  -- The volume of a profile that the cache does not know is zero.
  abbrev pub volume_of : Dict D → ℕ → D
  volume_of volumes id = elim (lookup id volumes) [ none ↦ nil | some vol ↦ vol ]

  unfoldable pub add_entries : (ℕ → TierEntry D) → List ℕ → TiersData D → TiersData D
  add_entries entry [] tiers_data = tiers_data
  add_entries entry (id ∷ ids) tiers_data = add_entries entry ids (insert id (entry id) tiers_data)

  unfoldable pub add_batches : (ℕ → TierEntry D) → List (List ℕ) → TiersData D → TiersData D
  add_batches entry [] tiers_data = tiers_data
  add_batches entry (batch ∷ rest) tiers_data =
      add_batches entry rest (add_entries entry batch tiers_data)

  -- The entry that `Recalculate` computes for a profile from the services' answers.
  unfoldable pub entry_from :
      List (Tier D)
      → List ReferralLink
      → List SpecialTier
      → List AffiliateTier
      → Dict D
      → ℕ
      → TierEntry D
  entry_from tiers links specials affiliates volumes id =
      tier_entry (sort_tiers tiers) (fill (λ s. s.profile_id) (λ s. s) specials [])
        (fill (λ l. l.invited_id) (λ l. l.profile_id) links [])
        (fill (λ a. a.profile_id) (λ a. a) affiliates []) id (volume_of volumes id)

  -- `Recalculate`: the new table, or the first error, which leaves the table as it was.
  unfoldable pub recalculate :
      ℕ → Answers D → Dict D → List ℕ → TiersData D → Result (Unit {0}) × TiersData D
  recalculate batch_size answers volumes ids tiers_data =
      let loaded : Result (ℕ → TierEntry D) = (do
        tiers ← or_fail answers.trading_tiers get_trading_tiers
        links ← or_fail answers.referrals get_referrals
        specials ← or_fail answers.special_tiers get_special_tiers
        affiliates ← or_fail answers.affiliate_tiers get_affiliate_tiers
        ok (entry_from tiers links specials affiliates volumes)) in
      elim loaded [
        | ok entry ↦
            (ok tt, add_batches entry (batches (suc (length ids)) batch_size ids) tiers_data)
        | err e ↦ (err e, tiers_data)
      ]
