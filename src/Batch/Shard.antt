-- ===== src/Batch/Shard.antt =====
-- `shard_by_batch_size` of `BatchedDataDict` (nemo_rl/distributed/batched_data_dict.py): its checks
-- and the part that cuts the columns into shards.
pub mod Bounds
pub mod Rows
use ne_mo_rl.Common.{
  ℕ, zero, suc, ◌+◌, ◌-◌, ◌*◌, ◌/◌, ◌%◌, Bool, true, false, ◌==◌, Option, none, some, List, [], ◌∷◌,
  ◌++◌, map, flatten, ltb, if◌then◌else◌, Outcome, ok, raise, ◌>>=◌, ◌>>◌, length, replicate,
  range_from, min,
}
use ne_mo_rl.Batch.{
  BatchError, not_a_multiple, not_a_multiple_of_shards, batch_size_given, require, nonzero,
  ColumnKind, tensor, packed_tensor, list, Column, Columns, with_rows, slice_list, common_size,
}

-- The lengths that a call computes before it cuts.
pub record ShardSizes : Type 0 where
  pub total_batch_size : ℕ
  pub batch_size : ℕ
  pub num_chunks : ℕ
  pub shard_size : ℕ

abbrev pub given_or : Option ℕ → ℕ → ℕ
given_or none total = total
given_or (some n) total = n

-- `assert batch_size is None` under `allow_uneven_shards`
abbrev pub check_uneven : Bool → Option ℕ → Outcome BatchError (Unit {0})
check_uneven false batch_size = ok tt
check_uneven true none = ok tt
check_uneven true (some n) = raise batch_size_given

-- `batch_size % shards == 0`, which is not asked of uneven shards
abbrev pub check_even : Bool → ℕ → ℕ → Outcome BatchError (Unit {0})
check_even true shards batch_size = ok tt
check_even false shards batch_size =
    nonzero shards >> require (batch_size % shards == 0) not_a_multiple_of_shards

abbrev pub shard_size_of : Bool → ℕ → ℕ → ℕ
shard_size_of true shards batch_size = (batch_size + shards - 1) / shards
shard_size_of false shards batch_size = batch_size / shards

unfoldable pub shard_sizes : ℕ → Bool → ℕ → ℕ → Outcome BatchError ShardSizes
shard_sizes shards uneven total batch_size = do
  nonzero batch_size
  require (total % batch_size == 0) not_a_multiple
  check_even uneven shards batch_size
  nonzero shards
  ok (record {
    total_batch_size = total;
    batch_size = batch_size;
    num_chunks = total / batch_size;
    shard_size = shard_size_of uneven shards batch_size;
  })

-- Where shard `shard_idx` of a chunk starts, which is where the shard before it ends.
unfoldable pub shard_start : Bool → ShardSizes → ℕ → ℕ → ℕ
shard_start uneven z chunk_idx shard_idx =
    let start = chunk_idx * z.batch_size + shard_idx * z.shard_size in
    if uneven then min start z.total_batch_size else start

abbrev pub keep_range : ℕ → ℕ → List (ℕ × ℕ) → List (ℕ × ℕ)
keep_range start end ranges = if ltb start end then (start, end) ∷ ranges else ranges

unfoldable pub shard_ranges : Bool → ShardSizes → ℕ → List ℕ → List (ℕ × ℕ)
unfolding shard_start
shard_ranges uneven z shard_idx [] = []
shard_ranges uneven z shard_idx (chunk_idx ∷ chunks) =
    let rest = shard_ranges uneven z shard_idx chunks in
    keep_range (shard_start uneven z chunk_idx shard_idx)
      (shard_start uneven z chunk_idx (suc shard_idx)) rest

abbrev pub cut_rows : {A : Type 0} → List (ℕ × ℕ) → List A → List A
cut_rows ranges rows = flatten (map (λ r. slice_list r.0 r.1 rows) ranges)

-- `missing` is the entry `None` of a packed tensor.
module _ {A : Type 0} (missing : A) where
  -- For no ranges a packed tensor becomes `PackedTensor.empty_like`, which keeps its length.
  unfoldable pub cut_kind : ColumnKind → List (ℕ × ℕ) → List A → List A
  cut_kind tensor ranges rows = cut_rows ranges rows
  cut_kind list ranges rows = cut_rows ranges rows
  cut_kind packed_tensor [] rows = replicate (length rows) missing
  cut_kind packed_tensor (r ∷ ranges) rows = cut_rows (r ∷ ranges) rows

  unfoldable pub cut_columns : List (ℕ × ℕ) → Columns A → Columns A
  unfolding cut_kind
  cut_columns ranges [] = []
  cut_columns ranges ((k, c) ∷ d) =
      (k, with_rows c (cut_kind c.kind ranges c.rows)) ∷ cut_columns ranges d

  -- The data of all shards, cut from `data`
  unfoldable pub aggregated_shards : ℕ → Bool → ShardSizes → Columns A → List (Columns A)
  unfolding cut_columns shard_ranges
  aggregated_shards shards uneven z d =
      map (λ s. cut_columns (shard_ranges uneven z s (range_from 0 z.num_chunks)) d)
        (range_from 0 shards)

  -- The call without dynamic batching and without sequence packing
  unfoldable pub shard_by_batch_size :
      ℕ → Option ℕ → Bool → Columns A → Outcome BatchError (List (Columns A))
  unfolding common_size shard_sizes aggregated_shards
  shard_by_batch_size shards batch_size uneven d = do
    check_uneven uneven batch_size
    total ← common_size d
    z ← shard_sizes shards uneven total (given_or batch_size total)
    ok (aggregated_shards shards uneven z d)
