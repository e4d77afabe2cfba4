-- ===== src/Archiver/Tests.antt =====
-- The snapshot of a small space, and the theorem at it.
use rabbit_dex_backend.Common.{
  ℕ, ◌<◌, ◌≡◌, refl, ap, subst, ◌∙◌, true, false, none, some, List, [], ◌∷◌, ◌++◌, arith, ltb, take,
  filter_by,
}
use rabbit_dex_backend.Archiver.Batcher.{batch, Select, last_row, get_next_batch, select_rest}
use rabbit_dex_backend.Archiver.Snapshot.{IsSpace, IsSnapshot, get_next_batch-IsSnapshot}
use rabbit_dex_backend.Liqengine.Orders.{some-injective}

-- A space whose rows are their keys: it selects the keys behind one.
select_keys : List ℕ → Select ℕ
select_keys rows none limit = some (take limit rows)
select_keys rows (some k) limit = some (take limit (filter_by (ltb k) rows))

abbrev IsAbove : ℕ → List ℕ → Type 0
IsAbove k [] = Unit
IsAbove k (x ∷ xs) = (k < x) × IsAbove k xs

abbrev IsAscending : List ℕ → Type 0
IsAscending [] = Unit
IsAscending (x ∷ xs) = IsAbove x xs × IsAscending xs

filter_by-IsAbove : (k : ℕ) (xs : List ℕ) → IsAbove k xs → filter_by (ltb k) xs ≡ xs
filter_by-IsAbove k [] a = refl
filter_by-IsAbove k (x ∷ xs) a =
    let e : ltb k x ≡ true = ground (arith, a.0) in rw (e, filter_by-IsAbove k xs a.1)

last-above :
    (k row : ℕ) (front back : List ℕ)
    → IsAbove k (front ++ back)
    → last_row front ≡ some row
    → k < row
unfolding last_row
last-above k row [] back a h = cc
last-above k row (x ∷ []) back a h = let same = some-injective h in omega (arith, a.0, same)
last-above k row (x ∷ y ∷ front) back a h = last-above k row (y ∷ front) back a.1 h

filter_by-behind :
    (front back : List ℕ) (row : ℕ)
    → IsAscending (front ++ back)
    → last_row front ≡ some row
    → filter_by (ltb row) (front ++ back) ≡ back
unfolding last_row
filter_by-behind [] back row a h = cc
filter_by-behind (x ∷ []) back row a h =
    let same = some-injective h in
    let e : ltb row x ≡ false = ground (arith, same) in
    rw e (filter_by-IsAbove row back (subst (λ k. IsAbove k back) same a.0))
filter_by-behind (x ∷ y ∷ front) back row a h =
    let lower = last-above x row (y ∷ front) back a.0 h in
    let e : ltb row x ≡ false = ground (arith, lower) in
    rw e (filter_by-behind (y ∷ front) back row a.1 h)

abbrev keys : List ℕ
keys = 3 ∷ 5 ∷ 8 ∷ 13 ∷ 21 ∷ []

keys-IsSpace : IsSpace (λ k. k) (select_keys keys) keys
unfolding select_keys
keys-IsSpace = record {
  first_rows = λ limit. refl;
  rows_behind = λ front back row limit split last.
      ap (λ rows. some (take limit rows))
        (ap (filter_by (ltb row)) split
          ∙ filter_by-behind front back row (subst IsAscending split ascending) last);
}
  where
    ascending : IsAscending keys
    ascending = ground arith

-- In batches of two there are three selects.
snapshot_of_keys : get_next_batch (λ k. k) (select_keys keys) 6 2 ≡ some (batch keys)
unfolding get_next_batch select_rest select_keys last_row
snapshot_of_keys = refl

get_next_batch-IsSnapshot_example :
    (answer : List ℕ) × (get_next_batch (λ k. k) (select_keys keys) 6 2 ≡ some (batch answer))
    × IsSnapshot keys answer
get_next_batch-IsSnapshot_example =
    get_next_batch-IsSnapshot (λ k. k) (select_keys keys) keys keys-IsSpace 2 (omega arith) 6
      (omega arith)
