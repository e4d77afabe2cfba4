-- ===== src/Archiver/Batcher.antt =====
-- The snapshot batcher of archiver/batcher.go. `SelectUntyped` of the broker is the argument
-- `select`: the rows behind a key (from the start, for `none`) up to a limit, or `none` for an
-- error. The columns and the time stamp pass through unread.
use rabbit_dex_backend.Common.{
  ℕ, zero, suc, ◌||◌, Option, none, some, List, [], ◌∷◌, ◌++◌, ltb, ◌==◌, if◌then◌else◌, length,
  take, drop, ◌-◌,
}

-- `maxBatcherLimit` and `batchLimit`
abbrev pub max_batcher_limit : ℕ
max_batcher_limit = 1_000_000

abbrev pub batch_limit : ℕ
batch_limit = 1_000

-- The batch size of `newSnapshotBatcher` and `newIncrementalBatcher`.
unfoldable pub new_batch_size : ℕ → ℕ
new_batch_size size = if size == 0 || ltb batch_limit size then batch_limit else size

pub data Answer (R : Type 0) : Type 0 where
  batch : List R → Answer R
  select_failed index_out_of_range : Answer R

abbrev pub Select : Type 0 → Type 0
Select R = Option ℕ → ℕ → Option (List R)

-- `data[size-1]`
unfoldable pub last_row : {R : Type 0} → List R → Option R
last_row [] = none
last_row (x ∷ []) = some x
last_row (x ∷ y ∷ data_rows) = last_row (y ∷ data_rows)

module _ {R : Type 0} (key : R → ℕ) (select : Select R) where
  -- The loop of `snapshotBatcher.getNextBatch` on fuel; `none` means that it ran out.
  unfoldable pub select_rest : ℕ → ℕ → List R → Option (Answer R)
  select_rest zero size data_rows = none
  select_rest (suc fuel) size data_rows = elim (last_row data_rows) [
    | none ↦ some index_out_of_range
    | some row ↦ elim (select (some (key row)) size) [
      | none ↦ some select_failed
      | some res ↦
          let rest = select_rest fuel size (data_rows ++ res) in
          if ltb (length res) size
          then some (batch (data_rows ++ res))
          else if ltb max_batcher_limit (length (data_rows ++ res))
          then some (batch (data_rows ++ res))
          else rest
    ]
  ]

  -- `snapshotBatcher.getNextBatch`
  unfoldable pub get_next_batch : ℕ → ℕ → Option (Answer R)
  get_next_batch fuel size = elim (select none size) [
    | none ↦ some select_failed
    | some first ↦
        let rest = select_rest fuel size first in
        if ltb (length first) size then some (batch first) else rest
  ]

-- `newIncrementalBatcher` limits the size in the same way.
unfoldable pub new_incremental_size : ℕ → ℕ
unfolding new_batch_size
new_incremental_size size = new_batch_size size

-- `incrementalBatcher.getNextBatch`: one select behind the last archived id.
unfoldable pub get_next_incremental_batch : {R : Type 0} → Select R → ℕ → ℕ → Answer R
get_next_incremental_batch select size last_archive_id = elim (select (some last_archive_id) size) [
  | none ↦ select_failed
  | some rows ↦ batch rows
]

-- `getPart`
unfoldable pub get_part : {R : Type 0} → ℕ → ℕ → List R → List R
get_part left right rows =
    let right' = if ltb (length rows) right then length rows else right in
    let left' = if ltb right' left then right' else left in take (right' - left') (drop left' rows)
