-- ===== src/Common/Batches.antt =====
-- The loop `for i, n, size := 0, batchSize, len(xs); i < size; i += n` that cuts a slice into
-- batches, with `if i+n > size || n == 0 { n = size - i }` at its start. The tier services share it.
use rabbit_dex_backend.Common.Tests.{ltb, ◌==◌, if◌then◌else◌}
use rabbit_dex_backend.Common.Lists.{
  length, take, drop, take-append-drop, length-drop, length-take, All,
}
use Prim.Native.Nat.{ℕ, zero, suc, ◌≤◌, ◌<◌}
use mathlib.Core.Path.{◌≡◌, refl, ap, ◌∙◌}
use mathlib.Core.Bool.{◌||◌}
use mathlib.Core.List.{List, [], ◌∷◌, ◌++◌}
use native.Mathlib.Omega.{arith}

module _ {ℓ} {A : Type ℓ} where
  -- The size of the next batch, with `xs` still to do.
  abbrev pub batch_size : ℕ → List A → ℕ
  batch_size n xs = if ltb (length xs) n || n == 0 then length xs else n

  -- The batches, on fuel: one unit for each batch, and one for the last test of the loop.
  unfoldable pub batches : ℕ → ℕ → List A → List (List A)
  batches zero n xs = []
  batches (suc fuel) n [] = []
  batches (suc fuel) n (x ∷ xs) =
      let m = batch_size n (x ∷ xs) in take m (x ∷ xs) ∷ batches fuel m (drop m (x ∷ xs))

  abbrev pub concat : List (List A) → List A
  concat [] = []
  concat (b ∷ bs) = b ++ concat bs

  batch_size_bounds :
      (n : ℕ) (x : A) (xs : List A)
      → (0 < batch_size n (x ∷ xs)) × (batch_size n (x ∷ xs) ≤ length (x ∷ xs))
  batch_size_bounds n x xs = ground arith

  -- With fuel for every element the batches are the whole slice, in order.
  pub concat-batches :
      (fuel n : ℕ) (xs : List A) → length xs < fuel → concat (batches fuel n xs) ≡ xs
  unfolding batches
  concat-batches zero n xs h = absurd (omega arith)
  concat-batches (suc fuel) n [] h = refl
  concat-batches (suc fuel) n (x ∷ xs) h =
      let m = batch_size n (x ∷ xs) in
      let bounds = batch_size_bounds n x xs in
      ap (◌++◌ (take m (x ∷ xs)))
        (concat-batches fuel m (drop m (x ∷ xs)) (omega (arith, length-drop m (x ∷ xs), bounds)))
      ∙ take-append-drop m (x ∷ xs)

  -- A batch is never longer than the size asked for, unless that is zero.
  pub batches-le : (fuel n : ℕ) (xs : List A) → 0 < n → All (λ b. length b ≤ n) (batches fuel n xs)
  unfolding batches
  batches-le zero n xs h = tt
  batches-le (suc fuel) n [] h = tt
  batches-le (suc fuel) n (x ∷ xs) h =
      let m = batch_size n (x ∷ xs) in
      let small : m ≤ n = ground arith in
      (
        omega (arith, length-take m (x ∷ xs), small),
        weaken m n small (batches fuel m (drop m (x ∷ xs)))
            (batches-le fuel m (drop m (x ∷ xs)) (batch_size_bounds n x xs).0),
      )
    where
      weaken :
          (m n : ℕ)
          → m ≤ n
          → (bs : List (List A)) → All (λ b. length b ≤ m) bs
          → All (λ b. length b ≤ n) bs
      weaken m n le [] a = tt
      weaken m n le (b ∷ bs) a = (omega (arith, a.0, le), weaken m n le bs a.1)
