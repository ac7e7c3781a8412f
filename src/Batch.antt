-- ===== src/Batch.antt =====
-- `BatchedDataDict` (nemo_rl/distributed/batched_data_dict.py). A tensor is the list of its rows,
-- and so is a packed tensor, which the methods read item by item; a key is a number. `A` has the
-- rows of all columns.
pub mod Columns
pub mod Reorder
pub mod Chunk
pub mod Shard
pub mod Dynamic
pub mod Packed
pub mod Iterate
pub mod Slices
pub mod Tests
use ne_mo_rl.Common.{
  ℕ, zero, suc, ◌+◌, ◌-◌, ◌*◌, ◌/◌, ◌%◌, ◌≡◌, Bool, true, false, ◌&&◌, not, Option, none, some,
  List, [], ◌∷◌, ◌++◌, map, ltb, leb, ◌==◌, if◌then◌else◌, Outcome, ok, raise, ◌>>=◌, ◌>>◌, length,
  get_elem?, take, drop, replicate, range_from, sort_by,
}
use ne_mo_rl.Packing.Packer.{PackingError}

pub data BatchError : Type 0 where
  sizes_differ not_a_multiple not_enough_splits index_error zero_division : BatchError
  batch_size_given not_a_multiple_of_shards sequence_too_long : BatchError
  not_implemented key_error past_the_end type_error stop_iteration no_micro_batches : BatchError
  packing_error : PackingError → BatchError

pub data ColumnKind : Type 0 where
  tensor packed_tensor list : ColumnKind

pub record Column (A : Type 0) : Type 0 where
  pub kind : ColumnKind
  pub rows : List A

-- `self.data`, in the order of its keys
abbrev pub Columns : Type 0 → Type 0
Columns A = List (ℕ × Column A)

-- `assert test`
abbrev pub require : Bool → BatchError → Outcome BatchError (Unit {0})
require true e = ok tt
require false e = raise e

-- `a % n` and `a // n` raise for n = 0
abbrev pub nonzero : ℕ → Outcome BatchError (Unit {0})
nonzero n = require (ltb 0 n) zero_division

unfoldable pub all_below : ℕ → List ℕ → Bool
all_below n [] = true
all_below n (i ∷ indices) = ltb i n && all_below n indices

module _ {A : Type 0} where
  abbrev pub with_rows : Column A → List A → Column A
  with_rows c rows = record { kind = c.kind; rows = rows }

  -- `{k: f(v) for k, v in self.data.items()}`
  unfoldable pub over_columns : (List A → List A) → Columns A → Columns A
  over_columns f [] = []
  over_columns f ((k, c) ∷ columns) = (k, with_rows c (f c.rows)) ∷ over_columns f columns

  -- The same, where a column may raise.
  unfoldable pub each_column :
      (Column A → Outcome BatchError (List A)) → Columns A → Outcome BatchError (Columns A)
  each_column f [] = ok []
  each_column f ((k, c) ∷ columns) = do
    rows ← f c
    rest ← each_column f columns
    ok ((k, with_rows c rows) ∷ rest)

  -- `rows[start:end]`
  abbrev pub slice_list : ℕ → ℕ → List A → List A
  slice_list start end xs = take (end - start) (drop start xs)

  abbrev pub keep_row : Option A → List A → List A
  keep_row none rows = rows
  keep_row (some x) rows = x ∷ rows

  -- `[rows[i] for i in indices]`, for indices that are in range
  unfoldable pub select : List ℕ → List A → List A
  select [] v = []
  select (i ∷ indices) v = keep_row (get_elem? v i) (select indices v)

  -- The test that every column has `n` rows.
  unfoldable pub all_of_size : ℕ → Columns A → Bool
  all_of_size n [] = true
  all_of_size n ((k, c) ∷ columns) = length c.rows == n && all_of_size n columns

  -- The set of the sizes has one member, which is taken out of it.
  unfoldable pub common_size : Columns A → Outcome BatchError ℕ
  unfolding all_of_size
  common_size [] = raise sizes_differ
  common_size ((k, c) ∷ columns) =
      if all_of_size (length c.rows) columns then ok (length c.rows) else raise sizes_differ

  -- `[v[i] for i in indices]`, which raises for an index out of range
  unfoldable pub checked_select : List ℕ → Column A → Outcome BatchError (List A)
  unfolding select all_below
  checked_select indices c =
      if all_below (length c.rows) indices then ok (select indices c.rows) else raise index_error

  unfoldable pub select_indices : List ℕ → Columns A → Outcome BatchError (Columns A)
  unfolding each_column checked_select
  select_indices indices d = each_column (checked_select indices) d

  -- A packed tensor is indexed, a tensor is asked for its size, and a list is cut at its end.
  unfoldable pub slice_kind : ColumnKind → ℕ → ℕ → Column A → Outcome BatchError (List A)
  unfolding checked_select
  slice_kind packed_tensor start end c = checked_select (range_from start (end - start)) c
  slice_kind tensor start end c =
      if leb end (length c.rows) then ok (slice_list start end c.rows) else raise past_the_end
  slice_kind list start end c = ok (slice_list start end c.rows)

  unfoldable pub slice : ℕ → ℕ → Columns A → Outcome BatchError (Columns A)
  unfolding each_column slice_kind
  slice start end d = each_column (λ c. slice_kind c.kind start end c) d

  unfoldable pub zip : {B : Type 0} → List A → List B → List (A × B)
  zip [] ys = []
  zip (x ∷ xs) [] = []
  zip (x ∷ xs) (y ∷ ys) = (x, y) ∷ zip xs ys

-- `self.data[key]`
unfoldable pub lookup : {A : Type 0} → ℕ → Columns A → Outcome BatchError (Column A)
lookup key [] = raise key_error
lookup key ((k, c) ∷ d) = let rest = lookup key d in if k == key then ok c else rest

abbrev pub first_le : {B : Type 0} → ℕ × B → ℕ × B → Bool
first_le p q = leb p.0 q.0

-- The rows' places in the order that `reorder_data` makes.
unfoldable pub reordered_indices : List ℕ → ℕ → List ℕ
unfolding zip sort_by
reordered_indices indices total =
    map (λ p. p.1) (sort_by first_le (zip indices (range_from 0 total)))

-- `torch.arange(B).tensor_split(chunks)[rank]`, where `chunks` divides `B`
unfoldable pub tensor_split : ℕ → ℕ → ℕ → Outcome BatchError (List ℕ)
tensor_split total chunks rank =
    if ltb rank chunks
    then ok (range_from (rank * (total / chunks)) (total / chunks))
    else raise index_error

module _ {A : Type 0} where
  unfoldable pub reorder_data : List ℕ → Columns A → Outcome BatchError (Columns A)
  unfolding common_size over_columns select reordered_indices
  reorder_data indices d = do
    total ← common_size d
    ok (over_columns (select (reordered_indices indices total)) d)

  unfoldable pub chunk : ℕ → ℕ → Columns A → Outcome BatchError (Columns A)
  unfolding common_size over_columns select tensor_split
  chunk rank chunks d = do
    total ← common_size d
    nonzero chunks
    require (total % chunks == 0) not_a_multiple
    require (ltb rank (total / chunks)) not_enough_splits
    indices ← tensor_split total chunks rank
    ok (over_columns (select indices) d)

  unfoldable pub repeat_each : ℕ → List A → List A
  repeat_each n [] = []
  repeat_each n (x ∷ xs) = replicate n x ++ repeat_each n xs

  unfoldable pub repeat_kind : ColumnKind → ℕ → List A → Outcome BatchError (List A)
  unfolding repeat_each
  repeat_kind tensor n rows = ok (repeat_each n rows)
  repeat_kind packed_tensor n rows = raise not_implemented
  repeat_kind list n rows = ok (repeat_each n rows)

  unfoldable pub repeat_interleave : ℕ → Columns A → Outcome BatchError (Columns A)
  unfolding each_column repeat_kind
  repeat_interleave n d = each_column (λ c. repeat_kind c.kind n c.rows) d
