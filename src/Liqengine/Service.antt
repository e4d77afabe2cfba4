-- ===== src/Liqengine/Service.antt =====
-- `ProcessLiquidations` of liqengine/liquidation_service.go. What the assistant
-- (liqengine/Assistant.go) answers is an argument, and the calls that change the exchange's state
-- come back as a log, in their order.
use Prim.Native.String.{String}
use text.Mathlib.Text.{◌==◌ as str_eq}
use rabbit_dex_backend.Common.{
  ℕ, suc, Bool, true, false, not, ◌&&◌, Option, none, some, List, [], ◌∷◌, ◌++◌, if◌then◌else◌,
}
use rabbit_dex_backend.Float64.{Float64, Convert, lt_f}
use rabbit_dex_backend.Liqengine.Account.{
  Action, ProfileCache, Profile, Reading, nil_pointer, skipped, reading, deref, AccountData,
}
use rabbit_dex_backend.Liqengine.Engine.{
  liquidation_margin, below_liquidation_margin, is_liquidation_ending,
  should_liquidation_have_more_time, required_actions,
}

-- The calls of the assistant, but for `GetAccountData`, which only reads.
pub data Call (D : Type 0) : Type 0 where
  get_next_liq_batch : Option ℕ → Call D
  wait_for_cancel_all : ℕ → Call D
  completed_liquidation : ℕ → Call D
  queue : List (Action D) → Call D
  liquidated_vaults : List ℕ → Call D
  update_last_checked : ℕ → Call D

-- The answers: whether the cancellation of a profile's orders was accepted, its account's data, and
-- whether the context was done when the n-th profile was reached. `now` is the clock, in
-- microseconds.
pub record World (D : Type 0) : Type 0 where
  pub now : ℕ
  pub cancel_accepted : Profile D → Bool
  pub account_data : Profile D → Option (AccountData D)
  pub is_done : ℕ → Bool

pub data Outcome (D : Type 0) : Type 0 where
  finished : ℕ → List (Action D) → Outcome D
  failed cancelled panicked : Outcome D

-- The variables of `ProcessLiquidations`, and the log.
pub record Run (D : Type 0) : Type 0 where
  pub last_id : Option ℕ
  pub total : ℕ
  pub all_actions : List (Action D)
  pub calls : List (Call D)

abbrev pub with_id : {D : Type 0} → Run D → ℕ → Run D
with_id run id = record run { last_id = some id }

abbrev pub queue_if_any : {D : Type 0} → List (Action D) → List (Call D)
queue_if_any [] = []
queue_if_any (a ∷ actions) = queue (a ∷ actions) ∷ []

abbrev pub vaults_if_any : {D : Type 0} → List ℕ → List (Call D)
vaults_if_any [] = []
vaults_if_any (id ∷ vaults) = liquidated_vaults (id ∷ vaults) ∷ []

module _ {D : Type 0} (F : Type 0) ⦃fl : Float64 F⦄ ⦃conv : Convert D F⦄ where
  open fl use {lit, neg, le_f}
  open conv use {to_float}

  -- What follows a liquidation's cancelled orders: the calls and the actions of the account.
  unfoldable pub liquidate : World D → Profile D → Option (List (Call D) × List (Action D))
  liquidate world profile = elim (world.account_data profile) [
    | none ↦ some ([], [])
    | some account ↦ elim (required_actions F account) [
      | none ↦ none
      | some required ↦ some (
        queue_if_any required.0
            ++ (vaults_if_any required.1 ++ (update_last_checked profile.profile_id ∷ [])),
        required.0,
      )
    ]
  ]

  -- Whether the loop reports a margin error and goes on; `none` is a nil pointer.
  unfoldable pub is_margin_error : ProfileCache D → D → Reading Bool
  is_margin_error profile margin =
      if lt_f (to_float margin) (neg (lit 1_000))
      then reading true
      else if lt_f (lit 300) (to_float margin)
      then deref profile.status (λ status.
        reading (not (str_eq status "liquidating" && le_f liquidation_margin (to_float margin))))
      else reading false

  -- The first part of the loop body, behind the tests for the insurance and for the context, with
  -- the pointers that it, the line that it logs and the rest of the loop read, in their order.
  unfoldable pub read_profile : String → ProfileCache D → Reading (Profile D)
  read_profile profile_type profile = deref profile.account_margin (λ account_margin.
      elim (is_margin_error profile account_margin) [
        | nil_pointer ↦ nil_pointer
        | skipped ↦ skipped
        | reading is_error ↦
            if is_error
            then skipped
            else deref profile.account_equity (λ _. deref profile.total_notional (λ _.
              deref profile.last_liq_check (λ last_liq_check. deref profile.status (λ status.
                reading (record {
                  cache = profile;
                  profile_id = profile.profile_id;
                  profile_type = profile_type;
                  status = status;
                  account_margin = account_margin;
                  last_liq_check = last_liq_check;
                })))))
      ])

  -- The rest of the loop body: the calls and the actions; `none` is a panic.
  unfoldable pub handle_profile : World D → Profile D → Option (List (Call D) × List (Action D))
  handle_profile world profile =
      let cancel : Call D = wait_for_cancel_all profile.profile_id in
      if should_liquidation_have_more_time F world.now profile
      then some ([], [])
      else if is_liquidation_ending F profile
      then some (
        (if world.cancel_accepted profile
            then cancel ∷ completed_liquidation profile.profile_id ∷ []
            else cancel ∷ []),
        [],
      )
      else if below_liquidation_margin (to_float profile.account_margin)
      then (if world.cancel_accepted profile
          then elim (liquidate world profile) [
            | none ↦ none
            | some done ↦ some (cancel ∷ done.0, done.1)
          ]
          else some (cancel ∷ [], []))
      else some ([], [])

  -- The loop over a batch: the run so far, and how it ended if it did.
  unfoldable pub process_batch :
      World D → List (ProfileCache D) → Run D → Option (Outcome D) × Run D
  process_batch world [] run = (none, run)
  process_batch world (profile ∷ batch) run =
      let run' = with_id run profile.profile_id in
      let counted = record run' { total = suc run.total } in
      let ignored = process_batch world batch run' in
      let next = process_batch world batch counted in
      let handled : Profile D → Option (Outcome D) × Run D = λ p. elim (handle_profile world p) [
        | none ↦ (some panicked, counted)
        | some done ↦ process_batch world batch (record counted {
          all_actions = run.all_actions ++ done.1;
          calls = run.calls ++ done.0;
        })
      ] in
      elim profile.profile_type [
        | none ↦ (some panicked, run')
        | some type ↦
            if str_eq type "insurance"
            then ignored
            else if world.is_done run.total
            then (some cancelled, counted)
            else elim (read_profile type profile) [
              | nil_pointer ↦ (some panicked, counted)
              | skipped ↦ next
              | reading p ↦ handled p
            ]
      ]

  -- The outer loop, on the answers of `GetNextLiqBatch`: `none` is an error. With the answers used
  -- up the loop is still running.
  unfoldable pub process_batches :
      World D → List (Option (List (ProfileCache D))) → Run D → Option (Outcome D) × Run D
  process_batches world [] run = (none, run)
  process_batches world (answer ∷ answers) run =
      let asked = record run { calls = run.calls ++ (get_next_liq_batch run.last_id ∷ []) } in
      elim answer [
        | none ↦ (some failed, asked)
        | some [] ↦ (some (finished run.total run.all_actions), asked)
        | some (profile ∷ batch) ↦
            let step = process_batch world (profile ∷ batch) asked in
            elim step.0 [
              | some outcome ↦ (some outcome, step.1)
              | none ↦ process_batches world answers step.1
            ]
      ]

  -- `ProcessLiquidations`
  unfoldable pub process_liquidations :
      World D → List (Option (List (ProfileCache D))) → Option (Outcome D) × List (Call D)
  process_liquidations world answers =
      let run =
        process_batches world answers
          (record { last_id = none; total = 0; all_actions = []; calls = [] }) in
      (run.0, run.1.calls)
