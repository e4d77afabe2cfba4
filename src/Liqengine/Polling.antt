-- ===== src/Liqengine/Polling.antt =====
-- The polling of Assistant.
use rabbit_dex_backend.Common.{
  ℕ, zero, suc, ◌+◌, ◌<◌, ◌≤◌, ◌≡◌, refl, sym, subst, ◌∙◌, inl, inr, Bool, true, false, Option,
  none, some, arith, ltb, if◌then◌else◌, Bool-cases,
}
use rabbit_dex_backend.Liqengine.Assistant.{poll, wait_for_cancel_all_accepted}

-- The result of polling from a number of attempts: at most 21 requests, and a success exactly if
-- one of the answers from that number on is an acceptance.
pub record IsPolled (attempts : ℕ) (accepted : ℕ → Option Bool) (r : Bool × ℕ) : Type 0 where
  pub bounded : r.1 ≤ 21
  pub sound : r.0 ≡ true → (k : ℕ) × (attempts ≤ k) × (k < 21) × (accepted k ≡ some true)
  pub complete : (k : ℕ) → attempts ≤ k → k < 21 → accepted k ≡ some true → r.0 ≡ true

abbrev Polled : ℕ → (ℕ → Option Bool) → Option (Bool × ℕ) → Type 0
Polled attempts accepted o = (r : Bool × ℕ) × (o ≡ some r) × IsPolled attempts accepted r

poll_again :
    (accepted : ℕ → Option Bool) (attempts : ℕ) (rest : Option (Bool × ℕ))
    → attempts < 21
    → (accepted attempts ≡ some true → ⊥)
    → (suc attempts < 21 → Polled (suc attempts) accepted rest)
    → Polled attempts accepted (if ltb 20 (suc attempts) then some (false, suc attempts) else rest)
poll_again accepted attempts rest small refused later = elim (Bool-cases (ltb 20 (suc attempts))) [
  | inl over ↦
      let last : 20 ≤ attempts = ground arith in
      rw over (
        (false, suc attempts),
        refl,
        record {
          bounded = small;
          sound = λ h. cc;
          complete = λ k from below yes. absurd (
              refused (
                subst (λ n. accepted n ≡ some true) (let e : k ≡ attempts = omega arith in e) yes));
        },
      )
  | inr under ↦
      let next = later (ground arith) in
      rw under (
        next.0,
        next.1,
        record {
          bounded = next.2.bounded;
          sound = λ h.
              let found = next.2.sound h in (found.0, omega (arith, found.1), found.2, found.3);
          complete = λ k from below yes. elim (Bool-cases (ltb attempts k)) [
            | inl after ↦ next.2.complete k (ground arith) below yes
            | inr same ↦ absurd (
                refused (
                  subst (λ n. accepted n ≡ some true) (let e : k ≡ attempts = ground arith in e)
                    yes))
          ];
        },
      )
]

poll-Polled :
    (fuel : ℕ) (accepted : ℕ → Option Bool) (attempts : ℕ)
    → attempts < 21
    → fuel + attempts ≡ 21
    → Polled attempts accepted (poll fuel accepted attempts)
unfolding poll
poll-Polled zero accepted attempts small whole = absurd (omega arith)
poll-Polled (suc fuel) accepted attempts small whole =
    go (accepted attempts) refl (λ h. poll-Polled fuel accepted (suc attempts) h (omega arith))
  where
    go :
        (o : Option Bool)
        → accepted attempts ≡ o
        → (suc attempts < 21 → Polled (suc attempts) accepted (poll fuel accepted (suc attempts)))
        → Polled attempts accepted (elim o as (λ x. Option (Bool × ℕ)) [
          | none ↦
              if ltb 20 (suc attempts)
              then some (false, suc attempts)
              else poll fuel accepted (suc attempts)
          | some is_accepted ↦
              if is_accepted
              then some (true, suc attempts)
              else if ltb 20 (suc attempts)
              then some (false, suc attempts)
              else poll fuel accepted (suc attempts)
        ])
    go none e ih = poll_again accepted attempts _ small (λ h. absurd (let e' = sym e ∙ h in cc)) ih
    go (some false) e ih =
        poll_again accepted attempts _ small (λ h. absurd (let e' = sym e ∙ h in cc)) ih
    go (some true) e ih = (
      (true, suc attempts),
      refl,
      record {
        bounded = small;
        sound = λ h. (attempts, omega arith, small, e);
        complete = λ k from below yes. refl;
      },
    )

-- Once the cancellation is requested, the wait ends after at most 21 requests, whatever they
-- answer; it ends without an error exactly if one of the first 21 answers is an acceptance.
pub wait_for_cancel_all_accepted-IsPolled :
    (accepted : ℕ → Option Bool)
    → (r : Bool × ℕ) × (wait_for_cancel_all_accepted true accepted ≡ some r) × IsPolled 0 accepted r
unfolding wait_for_cancel_all_accepted
wait_for_cancel_all_accepted-IsPolled accepted =
    poll-Polled 21 accepted 0 (omega arith) (omega arith)
