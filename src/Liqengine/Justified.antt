-- ===== src/Liqengine/Justified.antt =====
-- The log of a whole run of Service.
use Prim.Native.String.{String}
use text.Mathlib.Text.{◌==◌ as str_eq}
use rabbit_dex_backend.Common.{
  suc, ◌≡◌, refl, subst, inl, inr, Bool, true, false, Option, none, some, List, [], ◌∷◌, ◌++◌,
  if◌then◌else◌, All, In, All-append,
}
use rabbit_dex_backend.Float64.{Float64, Convert}
use rabbit_dex_backend.Liqengine.Account.{
  Action, ProfileCache, Profile, Reading, nil_pointer, skipped, reading,
}
use rabbit_dex_backend.Liqengine.Engine.{
  below_liquidation_margin, is_liquidation_ending, should_liquidation_have_more_time,
}
use rabbit_dex_backend.Liqengine.Orders.{some-injective}
use rabbit_dex_backend.Liqengine.Service.{
  Call, get_next_liq_batch, wait_for_cancel_all, completed_liquidation, World, Outcome, panicked,
  Run, with_id, liquidate, read_profile, handle_profile, process_batch, process_batches,
  process_liquidations,
}
use rabbit_dex_backend.Liqengine.Handle.{
  margin, IsListed, IsJustified, read_profile-IsListed, ending, below, no_more_time, liquidate-All,
}

-- All profiles of the answers.
abbrev pub listed_in : {D : Type 0} → List (Option (List (ProfileCache D))) → List (ProfileCache D)
listed_in [] = []
listed_in (none ∷ answers) = listed_in answers
listed_in (some batch ∷ answers) = batch ++ listed_in answers

module _ {D : Type 0} (F : Type 0) ⦃fl : Float64 F⦄ ⦃conv : Convert D F⦄ where
  -- The calls that `handle_profile` makes where it ends a liquidation, or goes on with it.
  ended :
      (world : World D) (profiles : List (ProfileCache D)) (p : Profile D)
      → IsListed F profiles p
      → is_liquidation_ending F p ≡ true
      → (accepted : Bool) → world.cancel_accepted p ≡ accepted
      → All (IsJustified F world profiles) (
          if accepted
          then wait_for_cancel_all p.profile_id ∷ completed_liquidation p.profile_id ∷ []
          else wait_for_cancel_all p.profile_id ∷ [])
  ended world profiles p listed e true a =
      let (status, high) = ending F p e in
      ((p, refl, listed), ((p, refl, listed, a, status, high), tt))
  ended world profiles p listed e false a = ((p, refl, listed), tt)

  went_on :
      (world : World D) (profiles : List (ProfileCache D)) (p : Profile D)
      (done : List (Call D) × List (Action D))
      → IsListed F profiles p
      → should_liquidation_have_more_time F world.now p ≡ false
      → below_liquidation_margin (margin F p) ≡ true
      → (accepted : Bool) → world.cancel_accepted p ≡ accepted
      → (l : Option (List (Call D) × List (Action D))) → liquidate F world p ≡ l
      → (if accepted
          then elim l as (λ x. Option (List (Call D) × List (Action D))) [
            | none ↦ none
            | some d ↦ some (wait_for_cancel_all p.profile_id ∷ d.0, d.1)
          ]
          else some (wait_for_cancel_all p.profile_id ∷ [], []))
        ≡ some done
      → All (IsJustified F world profiles) done.0
  went_on world profiles p done listed t b false a l e h =
      subst (λ x. All (IsJustified F world profiles) x.0) (some-injective h) ((p, refl, listed), tt)
  went_on world profiles p done listed t b true a none e h = cc
  went_on world profiles p done listed t b true a (some d) e h =
      subst (λ x. All (IsJustified F world profiles) x.0) (some-injective h)
        (
          (p, refl, listed),
          liquidate-All F world profiles p d e (λ actions vaults account.
              (listed, a, below F p b, no_more_time F world.now p t b, account)),
        )

  handle_profile-All :
      (world : World D) (profiles : List (ProfileCache D)) (p : Profile D)
      (done : List (Call D) × List (Action D))
      → IsListed F profiles p
      → handle_profile F world p ≡ some done
      → All (IsJustified F world profiles) done.0
  unfolding handle_profile
  handle_profile-All world profiles p done listed h =
      go (should_liquidation_have_more_time F world.now p) refl (is_liquidation_ending F p) refl
        (below_liquidation_margin (margin F p)) refl h
    where
      go :
          (t : Bool)
          → should_liquidation_have_more_time F world.now p ≡ t
          → (e : Bool) → is_liquidation_ending F p ≡ e
          → (b : Bool) → below_liquidation_margin (margin F p) ≡ b
          → (if t
              then some ([], [])
              else if e
              then some (
                (if world.cancel_accepted p
                    then wait_for_cancel_all p.profile_id ∷ completed_liquidation p.profile_id ∷ []
                    else wait_for_cancel_all p.profile_id ∷ []),
                [],
              )
              else if b
              then (if world.cancel_accepted p
                  then elim (liquidate F world p)
                      as (λ x. Option (List (Call D) × List (Action D))) [
                        | none ↦ none
                        | some d ↦ some (wait_for_cancel_all p.profile_id ∷ d.0, d.1)
                      ]
                  else some (wait_for_cancel_all p.profile_id ∷ [], []))
              else some ([], []))
            ≡ some done
          → All (IsJustified F world profiles) done.0
      go true ht e he b hb h' =
          subst (λ x. All (IsJustified F world profiles) x.0) (some-injective h') tt
      go false ht true he b hb h' =
          subst (λ x. All (IsJustified F world profiles) x.0) (some-injective h')
            (ended world profiles p listed he (world.cancel_accepted p) refl)
      go false ht false he true hb h' =
          went_on world profiles p done listed ht hb (world.cancel_accepted p) refl
            (liquidate F world p) refl h'
      go false ht false he false hb h' =
          subst (λ x. All (IsJustified F world profiles) x.0) (some-injective h') tt

  -- A batch adds justified calls only.
  process_batch-All :
      (world : World D) (profiles batch : List (ProfileCache D)) (run : Run D)
      → ((p : ProfileCache D) → In p batch → In p profiles)
      → All (IsJustified F world profiles) run.calls
      → All (IsJustified F world profiles) (process_batch F world batch run).1.calls
  unfolding process_batch
  process_batch-All world profiles [] run sub a = a
  process_batch-All world profiles (profile ∷ batch) run sub a =
      let ih : (next : Run D)
          → All (IsJustified F world profiles) next.calls
          → All (IsJustified F world profiles) (process_batch F world batch next).1.calls =
        λ next. process_batch-All world profiles batch next (λ q m. sub q (inr m)) in
      typed profile.profile_type refl ih
    where
      IsFine : Option (Outcome D) × Run D → Type 0
      IsFine step = All (IsJustified F world profiles) step.1.calls

      counted : Run D
      counted = record (with_id run profile.profile_id) { total = suc run.total }

      if-IsFine :
          (i d : Bool) (ignored stop rest : Option (Outcome D) × Run D)
          → IsFine ignored
          → IsFine stop
          → (i ≡ false → IsFine rest)
          → IsFine (if i then ignored else if d then stop else rest)
      if-IsFine true d ignored stop rest a1 a2 a3 = a1
      if-IsFine false true ignored stop rest a1 a2 a3 = a2
      if-IsFine false false ignored stop rest a1 a2 a3 = a3 refl

      handled :
          (p : Profile D)
          → IsListed F profiles p
          → (h : Option (List (Call D) × List (Action D))) → handle_profile F world p ≡ h
          → ((next : Run D)
              → All (IsJustified F world profiles) next.calls
              → IsFine (process_batch F world batch next))
          → IsFine (elim h as (λ x. Option (Outcome D) × Run D) [
            | none ↦ (some panicked, counted)
            | some done ↦ process_batch F world batch (record counted {
              all_actions = run.all_actions ++ done.1;
              calls = run.calls ++ done.0;
            })
          ])
      handled p listed none e ih = a
      handled p listed (some done) e ih = ih _ (
          All-append (IsJustified F world profiles) run.calls done.0 a
            (handle_profile-All world profiles p done listed e))

      read :
          (type : String)
          → profile.profile_type ≡ some type
          → str_eq type "insurance" ≡ false
          → (r : Reading (Profile D)) → read_profile F type profile ≡ r
          → ((next : Run D)
              → All (IsJustified F world profiles) next.calls
              → IsFine (process_batch F world batch next))
          → IsFine (elim r as (λ x. Option (Outcome D) × Run D) [
            | nil_pointer ↦ (some panicked, counted)
            | skipped ↦ process_batch F world batch counted
            | reading p ↦ elim (handle_profile F world p) as (λ x. Option (Outcome D) × Run D) [
              | none ↦ (some panicked, counted)
              | some done ↦ process_batch F world batch (record counted {
                all_actions = run.all_actions ++ done.1;
                calls = run.calls ++ done.0;
              })
            ]
          ])
      read type t own nil_pointer e ih = a
      read type t own skipped e ih = ih counted a
      read type t own (reading p) e ih =
          handled p
            (read_profile-IsListed F profiles type profile p (sub profile (inl refl)) t own e)
            (handle_profile F world p) refl ih

      typed :
          (o : Option String)
          → profile.profile_type ≡ o
          → ((next : Run D)
              → All (IsJustified F world profiles) next.calls
              → IsFine (process_batch F world batch next))
          → IsFine (elim o as (λ x. Option (Outcome D) × Run D) [
            | none ↦ (some panicked, with_id run profile.profile_id)
            | some type ↦
                if str_eq type "insurance"
                then process_batch F world batch (with_id run profile.profile_id)
                else if world.is_done run.total
                then (some Outcome.cancelled, counted)
                else elim (read_profile F type profile) as (λ x. Option (Outcome D) × Run D) [
                  | nil_pointer ↦ (some panicked, counted)
                  | skipped ↦ process_batch F world batch counted
                  | reading p ↦
                      elim (handle_profile F world p) as (λ x. Option (Outcome D) × Run D) [
                        | none ↦ (some panicked, counted)
                        | some done ↦ process_batch F world batch (record counted {
                          all_actions = run.all_actions ++ done.1;
                          calls = run.calls ++ done.0;
                        })
                      ]
                ]
          ])
      typed none t ih = a
      typed (some type) t ih =
          if-IsFine (str_eq type "insurance") (world.is_done run.total) _ _ _
            (ih (with_id run profile.profile_id) a) a
            (λ own. read type t own (read_profile F type profile) refl ih)

  In-append-left : (p : ProfileCache D) (xs ys : List (ProfileCache D)) → In p xs → In p (xs ++ ys)
  In-append-left p [] ys m = absurd m
  In-append-left p (x ∷ xs) ys (inl e) = inl e
  In-append-left p (x ∷ xs) ys (inr m) = inr (In-append-left p xs ys m)

  In-append-right : (p : ProfileCache D) (xs ys : List (ProfileCache D)) → In p ys → In p (xs ++ ys)
  In-append-right p [] ys m = m
  In-append-right p (x ∷ xs) ys m = inr (In-append-right p xs ys m)

  process_batches-All :
      (world : World D) (profiles : List (ProfileCache D))
      (answers : List (Option (List (ProfileCache D)))) (run : Run D)
      → ((p : ProfileCache D) → In p (listed_in answers) → In p profiles)
      → All (IsJustified F world profiles) run.calls
      → All (IsJustified F world profiles) (process_batches F world answers run).1.calls
  unfolding process_batches
  process_batches-All world profiles [] run sub a = a
  process_batches-All world profiles (none ∷ answers) run sub a =
      All-append (IsJustified F world profiles) run.calls _ a (tt, tt)
  process_batches-All world profiles (some [] ∷ answers) run sub a =
      All-append (IsJustified F world profiles) run.calls _ a (tt, tt)
  process_batches-All world profiles (some (p ∷ batch) ∷ answers) run sub a =
      let asked : Run D = record run {
        calls = run.calls ++ (get_next_liq_batch run.last_id ∷ []);
      } in
      let step = process_batch F world (p ∷ batch) asked in
      let justified : All (IsJustified F world profiles) step.1.calls =
        process_batch-All world profiles (p ∷ batch) asked
          (λ q m. sub q (In-append-left q (p ∷ batch) (listed_in answers) m))
          (All-append (IsJustified F world profiles) run.calls _ a (tt, tt)) in
      next step.0 step.1 justified (
        process_batches-All world profiles answers step.1
          (λ q m. sub q (In-append-right q (p ∷ batch) (listed_in answers) m)) justified)
    where
      next :
          (o : Option (Outcome D)) (run' : Run D)
          → All (IsJustified F world profiles) run'.calls
          → All (IsJustified F world profiles) (process_batches F world answers run').1.calls
          → All
              (IsJustified F world profiles)
              (elim o as (λ x. Option (Outcome D) × Run D) [
                | some outcome ↦ (some outcome, run')
                | none ↦ process_batches F world answers run'
              ]).1.calls
      next none run' a1 a2 = a2
      next (some outcome) run' a1 a2 = a1

  -- However the run goes and whatever the exchange answers, every call of the log has its reason:
  -- only listed profiles with a margin of at least -0.1 are touched, and never the insurance; a
  -- liquidation is completed only for a profile under liquidation whose margin is at least 0.03;
  -- actions are queued, vaults liquidated and the time of the check stored only for a profile
  -- below 0.03 that is not in its time to recover, whose cancellation was accepted; and what is
  -- queued is what its account requires.
  pub process_liquidations-IsJustified :
      (world : World D) (answers : List (Option (List (ProfileCache D))))
      → All (IsJustified F world (listed_in answers)) (process_liquidations F world answers).1
  unfolding process_liquidations
  process_liquidations-IsJustified world answers =
      process_batches-All world (listed_in answers) answers
        (record { last_id = none; total = 0; all_actions = []; calls = [] }) (λ p m. m) tt
