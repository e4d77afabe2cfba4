-- ===== src/Common/Maps.antt =====
-- A Go map with unsigned keys, as an association list.
use Prim.Native.Nat.{ℕ}
use mathlib.Core.Path.{◌≡◌, refl}
use mathlib.Core.List.{List, [], ◌∷◌}
use mathlib.Core.Option.{Option, none, some}
use native.Mathlib.Omega.{arith}
use rabbit_dex_backend.Common.Tests.{◌==◌, if◌then◌else◌}

abbrev pub Dict {ℓ} : Type ℓ → Type ℓ
Dict V = List (ℕ × V)

module _ {ℓ} {V : Type ℓ} where
  -- `m[k]` with its `ok`
  unfoldable pub lookup : ℕ → Dict V → Option V
  lookup k [] = none
  lookup k ((j, v) ∷ m) = if j == k then some v else lookup k m

  -- `m[k] = v`
  unfoldable pub insert : ℕ → V → Dict V → Dict V
  insert key new [] = (key, new) ∷ []
  insert key new ((other, old) ∷ rest) =
      let tail = insert key new rest in
      if other == key then (other, new) ∷ rest else (other, old) ∷ tail

  pub lookup-insert :
      (k j : ℕ) (v : V) (m : Dict V)
      → lookup j (insert k v m) ≡ (if k == j then some v else lookup j m)
  unfolding lookup insert
  lookup-insert key asked new [] = refl
  lookup-insert key asked new (first ∷ rest) = ground (arith, lookup-insert key asked new rest)

-- A map filled in a loop: a later value for the same key replaces the earlier one.
unfoldable pub fill {ℓ κ} : {A : Type ℓ} {V : Type κ} → (A → ℕ) → (A → V) → List A → Dict V → Dict V
fill key val [] m = m
fill key val (x ∷ xs) m = fill key val xs (insert (key x) (val x) m)
