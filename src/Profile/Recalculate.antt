-- ===== src/Profile/Recalculate.antt =====
-- What `Recalculate` of TierCalc leaves in the table.
use rabbit_dex_backend.Common.{
  ℕ, suc, ◌≡◌, refl, ap, sym, ◌∙◌, ◌⊎◌, inl, inr, Option, none, some, List, [], ◌∷◌, ◌++◌, arith,
  if◌then◌else◌, length, lookup, lookup-insert, insert, Dict, batches, concat, concat-batches, elem,
}
use rabbit_dex_backend.Decimal.{Decimal}
use rabbit_dex_backend.Profile.TierCalc.{
  TierEntry, TiersData, Answers, Result, ok, err, Tier, ReferralLink, SpecialTier, AffiliateTier,
  get_trading_tiers, get_referrals, get_special_tiers, get_affiliate_tiers, add_entries,
  add_batches, entry_from, recalculate,
}

module _ {D : Type 0} ⦃dec : Decimal D⦄ where
  lookup-add_entries :
      (entry : ℕ → TierEntry D) (j : ℕ) (ids : List ℕ) (table : TiersData D)
      → lookup j (add_entries entry ids table)
        ≡ (if elem j ids then some (entry j) else lookup j table)
  unfolding add_entries
  lookup-add_entries entry j [] table = refl
  lookup-add_entries entry j (id ∷ ids) table = ground (
    arith,
    lookup-add_entries entry j ids (insert id (entry id) table),
    lookup-insert id j (entry id) table,
  )

  add_entries-append :
      (entry : ℕ → TierEntry D) (ids more : List ℕ) (table : TiersData D)
      → add_entries entry (ids ++ more) table ≡ add_entries entry more (add_entries entry ids table)
  unfolding add_entries
  add_entries-append entry [] more table = refl
  add_entries-append entry (id ∷ ids) more table =
      add_entries-append entry ids more (insert id (entry id) table)

  -- Batches are only a way to cut the list.
  add_batches-concat :
      (entry : ℕ → TierEntry D) (bs : List (List ℕ)) (table : TiersData D)
      → add_batches entry bs table ≡ add_entries entry (concat bs) table
  unfolding add_batches
  add_batches-concat entry [] table = unfold add_entries in refl
  add_batches-concat entry (b ∷ bs) table =
      add_batches-concat entry bs (add_entries entry b table)
      ∙ sym (add_entries-append entry b (concat bs) table)

module _ {D : Type 0} ⦃dec : Decimal D⦄ where
  -- What `Recalculate` should do: fail with the error of the first service that has none to give,
  -- and change nothing; or give every profile asked for the entry computed from the answers.
  abbrev pub Recalculated :
      Answers D → Dict D → List ℕ → TiersData D → Result (Unit {0}) × TiersData D → Type 0
  Recalculated answers volumes ids before (err e, after) =
      (after ≡ before)
      × (((answers.trading_tiers ≡ none) × (e ≡ get_trading_tiers))
          ⊎ ((answers.referrals ≡ none) × (e ≡ get_referrals))
          ⊎ ((answers.special_tiers ≡ none) × (e ≡ get_special_tiers))
          ⊎ ((answers.affiliate_tiers ≡ none) × (e ≡ get_affiliate_tiers)))
  Recalculated answers volumes ids before (ok _, after) =
      (tiers : _) × (links : _) × (specials : _) × (affiliates : _) × (answers.trading_tiers
        ≡ some tiers)
      × (answers.referrals ≡ some links)
      × (answers.special_tiers ≡ some specials)
      × (answers.affiliate_tiers ≡ some affiliates)
      × ((j : ℕ)
          → lookup j after ≡ (
              if elem j ids
              then some (entry_from tiers links specials affiliates volumes j)
              else lookup j before))

  answered :
      (batch_size : ℕ) (volumes : Dict D) (ids : List ℕ) (before : TiersData D)
      (ts : Option (List (Tier D))) (rs : Option (List ReferralLink))
      (ss : Option (List SpecialTier)) (fs : Option (List AffiliateTier))
      → Recalculated
          (record { trading_tiers = ts; referrals = rs; special_tiers = ss; affiliate_tiers = fs })
          volumes
          ids
          before
          (recalculate batch_size
            (record {
              trading_tiers = ts;
              referrals = rs;
              special_tiers = ss;
              affiliate_tiers = fs;
            })
            volumes
            ids
            before)
  unfolding recalculate
  answered batch_size volumes ids before none rs ss fs = (refl, inl (refl, refl))
  answered batch_size volumes ids before (some _) none ss fs = (refl, inr (inl (refl, refl)))
  answered batch_size volumes ids before (some _) (some _) none fs =
      (refl, inr (inr (inl (refl, refl))))
  answered batch_size volumes ids before (some _) (some _) (some _) none =
      (refl, inr (inr (inr (refl, refl))))
  answered batch_size volumes ids before (some tiers) (some links) (some specials)
        (some affiliates) =
      let entry = entry_from tiers links specials affiliates volumes in
      (
        tiers,
        links,
        specials,
        affiliates,
        refl,
        refl,
        refl,
        refl,
        λ j.
            ap (lookup j) (
              add_batches-concat entry (batches (suc (length ids)) batch_size ids) before
              ∙ ap (λ all. add_entries entry all before)
                  (concat-batches (suc (length ids)) batch_size ids (omega arith)))
            ∙ lookup-add_entries entry j ids before,
      )

  -- For every batch size, zero included, `Recalculate` fails exactly with the error of a service
  -- and leaves the table as it was, or each profile asked for gets the entry computed from the
  -- answers and every other profile keeps its own.
  pub recalculate-Recalculated :
      (batch_size : ℕ) (answers : Answers D) (volumes : Dict D) (ids : List ℕ)
      (before : TiersData D)
      → Recalculated answers volumes ids before (recalculate batch_size answers volumes ids before)
  recalculate-Recalculated batch_size answers volumes ids before =
      answered batch_size volumes ids before answers.trading_tiers answers.referrals
        answers.special_tiers answers.affiliate_tiers
