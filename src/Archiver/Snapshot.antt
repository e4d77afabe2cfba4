-- ===== src/Archiver/Snapshot.antt =====
-- What the snapshot loop of Batcher reads, given what Tarantool documents of a select by key.
use rabbit_dex_backend.Common.{
  ℕ, zero, suc, ◌<◌, ◌≤◌, ◌≡◌, refl, sym, ap, ◌∙◌, ◌⊎◌, inl, inr, Option, none, some, List, [], ◌∷◌,
  ◌++◌, arith, ltb, ltb→lt, if◌then◌else◌, Bool-cases, length, take, drop, length-take, length-drop,
  take-append-drop,
}
use mathlib.Core.List.{append_assoc}
use rabbit_dex_backend.Archiver.Batcher.{
  Answer, batch, select_failed, index_out_of_range, Select, last_row, select_rest, get_next_batch,
  max_batcher_limit, new_batch_size,
}

-- The rows of a space in the order of its primary index: a select gives the first rows, or those
-- behind the key of a row, up to the limit, and does not fail.
pub record IsSpace {R : Type 0} (key : R → ℕ) (select : Select R) (rows : List R) : Type 0 where
  pub first_rows : (limit : ℕ) → select none limit ≡ some (take limit rows)
  pub rows_behind :
      (front back : List R) (row : R) (limit : ℕ)
      → rows ≡ front ++ back
      → last_row front ≡ some row
      → select (some (key row)) limit ≡ some (take limit back)

-- The rows of a snapshot: all, or more than a million from the front.
pub record IsSnapshot {R : Type 0} (rows answer : List R) : Type 0 where
  pub left_out : List R
  pub is_front : rows ≡ answer ++ left_out
  pub is_long : (left_out ≡ []) ⊎ (max_batcher_limit < length answer)

pub new_batch_size-bounds : (size : ℕ) → (0 < new_batch_size size) × (new_batch_size size ≤ 1_000)
unfolding new_batch_size
new_batch_size-bounds size = ground arith

module _ {R : Type 0} where
  short-drop : (n : ℕ) (xs : List R) → length (take n xs) < n → drop n xs ≡ []
  short-drop zero xs h = absurd (omega arith)
  short-drop (suc n) [] h = refl
  short-drop (suc n) (x ∷ xs) h = short-drop n xs (omega (arith, h))

  last_row-cons : (x : R) (xs : List R) → (row : R) × (last_row (x ∷ xs) ≡ some row)
  unfolding last_row
  last_row-cons x [] = (x, refl)
  last_row-cons x (y ∷ xs) = last_row-cons y xs

  last_row-append :
      (xs ys : List R) (row : R)
      → last_row xs ≡ some row
      → (row' : R) × (last_row (xs ++ ys) ≡ some row')
  unfolding last_row
  last_row-append [] ys row h = cc
  last_row-append (x ∷ xs) ys row h = last_row-cons x (xs ++ ys)

  last_row-some : (xs : List R) → 0 < length xs → (row : R) × (last_row xs ≡ some row)
  last_row-some [] h = absurd (omega (arith, h))
  last_row-some (x ∷ xs) h = last_row-cons x xs

module _ {R : Type 0} (key : R → ℕ) (select : Select R) where
  -- One round of the loop.
  select_rest_step :
      (fuel size : ℕ) (front res : List R) (row : R)
      → last_row front ≡ some row
      → select (some (key row)) size ≡ some res
      → select_rest key select (suc fuel) size front ≡ (
          if ltb (length res) size
          then some (batch (front ++ res))
          else if ltb max_batcher_limit (length (front ++ res))
          then some (batch (front ++ res))
          else select_rest key select fuel size (front ++ res))
  unfolding select_rest
  select_rest_step fuel size front res row last selected =
      ap
        (λ (o : Option R). elim o as (λ x. Option (Answer R)) [
          | none ↦ some index_out_of_range
          | some row' ↦ after (select (some (key row')) size)
        ])
        last
      ∙ ap after selected
    where
      after : Option (List R) → Option (Answer R)
      after none = some select_failed
      after (some new) =
          let rest = select_rest key select fuel size (front ++ new) in
          if ltb (length new) size
          then some (batch (front ++ new))
          else if ltb max_batcher_limit (length (front ++ new))
          then some (batch (front ++ new))
          else rest

  select_rest-IsSnapshot :
      (rows : List R)
      → IsSpace key select rows
      → (size : ℕ) → 0 < size
      → (fuel : ℕ) (front back : List R) (row : R) → rows ≡ front ++ back
      → last_row front ≡ some row
      → length back < fuel
      → (answer : List R) × (select_rest key select fuel size front ≡ some (batch answer))
        × IsSnapshot rows answer
  select_rest-IsSnapshot rows space size some_size zero front back row split last enough =
      absurd (omega arith)
  select_rest-IsSnapshot rows space size some_size (suc fuel) front back row split last enough =
      let res = take size back in
      let front' = front ++ res in
      let step =
        select_rest_step fuel size front res row last
          (space.rows_behind front back row size split last) in
      let split' : rows ≡ front' ++ drop size back =
        split
        ∙ ap (λ b. front ++ b) (sym (take-append-drop size back))
        ∙ sym (append_assoc front res (drop size back)) in
      elim (Bool-cases (ltb (length res) size)) [
        | inl short ↦ (
          front',
          step ∙ rw short,
          record {
            left_out = drop size back;
            is_front = split';
            is_long = inl (short-drop size back (ltb→lt (length res) size short));
          },
        )
        | inr full ↦ elim (Bool-cases (ltb max_batcher_limit (length front'))) [
          | inl long ↦ (
            front',
            step ∙ rw (full, long),
            record {
              left_out = drop size back;
              is_front = split';
              is_long = inr (ltb→lt max_batcher_limit (length front') long);
            },
          )
          | inr more ↦
              let next = last_row-append front res row last in
              let shorter : length (drop size back) < fuel =
                (let enough_rows : size ≤ length res = ground arith in
                  omega (arith, length-take size back, length-drop size back, enough_rows)) in
              let rest =
                select_rest-IsSnapshot rows space size some_size fuel front' (drop size back) next.0
                  split' next.1 shorter in
              (rest.0, step ∙ rw (full, more) rest.1, rest.2)
        ]
      ]

  get_next_batch_step :
      (fuel size : ℕ) (first : List R)
      → select none size ≡ some first
      → get_next_batch key select fuel size ≡ (
          if ltb (length first) size
          then some (batch first)
          else select_rest key select fuel size first)
  unfolding get_next_batch
  get_next_batch_step fuel size first selected = ap start selected
    where
      start : Option (List R) → Option (Answer R)
      start none = some select_failed
      start (some new) =
          let rest = select_rest key select fuel size new in
          if ltb (length new) size then some (batch new) else rest

  -- For a space that answers each select, and a batch size of at least one (new_batch_size gives
  -- such a size), as many rounds as the space has rows, and one more, are enough: the answer is the
  -- whole space in its order, or, if it is cut short, more than a million of its first rows.
  pub get_next_batch-IsSnapshot :
      (rows : List R)
      → IsSpace key select rows
      → (size : ℕ) → 0 < size
      → (fuel : ℕ) → length rows < fuel
      → (answer : List R) × (get_next_batch key select fuel size ≡ some (batch answer))
        × IsSnapshot rows answer
  get_next_batch-IsSnapshot rows space size some_size fuel enough =
      let first = take size rows in
      let step = get_next_batch_step fuel size first (space.first_rows size) in
      let split : rows ≡ first ++ drop size rows = sym (take-append-drop size rows) in
      elim (Bool-cases (ltb (length first) size)) [
        | inl short ↦ (
          first,
          step ∙ rw short,
          record {
            left_out = drop size rows;
            is_front = split;
            is_long = inl (short-drop size rows (ltb→lt (length first) size short));
          },
        )
        | inr full ↦
            let enough_rows : size ≤ length first = ground arith in
            let last = last_row-some first (omega (arith, enough_rows)) in
            let rest =
              select_rest-IsSnapshot rows space size some_size fuel first (drop size rows) last.0
                split last.1 (omega (arith, length-drop size rows)) in
            (rest.0, step ∙ rw full rest.1, rest.2)
      ]
