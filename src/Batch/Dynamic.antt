-- ===== src/Batch/Dynamic.antt =====
-- `shard_by_batch_size` of `BatchedDataDict` with dynamic batching: the rows of every chunk are
-- sorted by their length and dealt to the shards, and microbatches are found that fit all shards.
pub mod Order
pub mod Microbatch
pub mod Micro
use ne_mo_rl.Common.{
  ℕ, zero, suc, ◌+◌, ◌-◌, ◌*◌, ◌/◌, ◌%◌, Bool, true, false, ◌==◌, Option, none, some, List, [], ◌∷◌,
  ◌++◌, map, flatten, ltb, leb, if◌then◌else◌, Outcome, ok, raise, ◌>>=◌, ◌>>◌, length, get_or,
  get_elem?, range_from, min, max, sort_by,
}
use ne_mo_rl.Batch.{
  BatchError, index_error, sequence_too_long, require, nonzero, Column, Columns, slice_list, select,
  lookup, over_columns, common_size,
}
use ne_mo_rl.Batch.Shard.{ShardSizes, check_uneven, given_or, shard_sizes, aggregated_shards}

pub record DynamicBatchingArgs : Type 0 where
  pub max_tokens_per_microbatch : ℕ
  pub sequence_length_round : ℕ
  pub input_key : ℕ
  pub input_lengths_key : ℕ

-- `indices[skip::k]`, where `k` is not 0
unfoldable pub every_kth : ℕ → ℕ → List ℕ → List ℕ
every_kth k skip [] = []
every_kth k zero (x ∷ xs) = x ∷ every_kth k (k - 1) xs
every_kth k (suc skip) (x ∷ xs) = every_kth k skip xs

-- The indices of one chunk: sorted by length, and then the shards' strides one after the other.
unfoldable pub chunk_order : ℕ → ShardSizes → List ℕ → ℕ → List ℕ
unfolding every_kth sort_by flatten
chunk_order shards z lengths chunk_idx =
    let chunk_start = chunk_idx * z.batch_size in
    let seqlens = slice_list chunk_start (suc chunk_idx * z.batch_size) lengths in
    let sorted =
      sort_by (λ i j. leb (get_or seqlens i 0) (get_or seqlens j 0)) (range_from 0 z.batch_size) in
    let shifted = map (λ i. i + chunk_start) sorted in
    flatten (map (λ i. every_kth shards i shifted) (range_from 0 shards))

unfoldable pub batch_sorted_indices : ℕ → ShardSizes → List ℕ → List ℕ
unfolding chunk_order flatten
batch_sorted_indices shards z lengths =
    flatten (map (chunk_order shards z lengths) (range_from 0 z.num_chunks))

-- The microbatches of a chunk: those before the last, and the last.
pub record MicroBatches : Type 0 where
  pub closed : List (ℕ × ℕ)
  pub closed_lengths : List ℕ
  pub start : ℕ
  pub stop : ℕ
  pub last_length : ℕ
  pub max_seqlen : ℕ

abbrev pub empty_micro_batches : MicroBatches
empty_micro_batches = record {
  closed = [];
  closed_lengths = [];
  start = 0;
  stop = 0;
  last_length = 0;
  max_seqlen = 0;
}

abbrev pub chunk_micro_batch_indices : MicroBatches → List (ℕ × ℕ)
chunk_micro_batch_indices m = m.closed ++ (m.start, m.stop) ∷ []

abbrev pub chunk_micro_batch_lengths : MicroBatches → List ℕ
chunk_micro_batch_lengths m = m.closed_lengths ++ m.last_length ∷ []

-- The index joins the last microbatch, or a new one is started with it.
unfoldable pub add_indice : ℕ → ℕ → ℕ → MicroBatches → MicroBatches
add_indice max_tokens indice seqlen m =
    let longest = max m.max_seqlen seqlen in
    if leb ((m.stop - m.start + 1) * longest) max_tokens
    then record m { stop = m.stop + 1; last_length = longest; max_seqlen = longest }
    else record {
      closed = chunk_micro_batch_indices m;
      closed_lengths = chunk_micro_batch_lengths m;
      start = indice;
      stop = indice + 1;
      last_length = seqlen;
      max_seqlen = seqlen;
    }

unfoldable pub add_indices :
    ℕ → (ℕ → Outcome BatchError ℕ) → List ℕ → MicroBatches → Outcome BatchError MicroBatches
unfolding add_indice
add_indices max_tokens needed [] m = ok m
add_indices max_tokens needed (i ∷ indices) m = do
  seqlen ← needed i
  add_indices max_tokens needed indices (add_indice max_tokens i seqlen m)

-- A length rounded up to a multiple, and not above the width of the input
abbrev pub padded_seqlen : ℕ → ℕ → ℕ → ℕ
padded_seqlen round width n = min ((n + round - 1) / round * round) width

abbrev pub at_index : {A : Type 0} → Option A → Outcome BatchError A
at_index none = raise index_error
at_index (some a) = ok a

pub record ShardedDict (A : Type 0) : Type 0 where
  pub entries : Columns A
  pub micro_batch_indices : List (List (ℕ × ℕ))
  pub micro_batch_lengths : List (List ℕ)

-- `item` is the `item` of a row of lengths, `width` is `shape[1]` of a column.
module _ {A : Type 0} (item : A → ℕ) (width : Column A → ℕ) (args : DynamicBatchingArgs) where
  -- The longest sequence that the shards have at one place of a chunk.
  unfoldable pub longest_of : ℕ → ℕ → ℕ → ℕ → List (Columns A) → Outcome BatchError ℕ
  unfolding lookup
  longest_of shard_size chunk_idx indice longest [] = ok longest
  longest_of shard_size chunk_idx indice longest (p ∷ parts) = do
    c ← lookup args.input_lengths_key p
    row ←
        at_index (
          get_elem? (slice_list (chunk_idx * shard_size) (suc chunk_idx * shard_size) c.rows)
            indice)
    longest_of shard_size chunk_idx indice (max longest (item row)) parts

  unfoldable pub needed_seqlen : Columns A → List (Columns A) → ℕ → ℕ → ℕ → Outcome BatchError ℕ
  unfolding longest_of
  needed_seqlen d parts shard_size chunk_idx indice = do
    longest ← longest_of shard_size chunk_idx indice 0 parts
    input ← lookup args.input_key d
    nonzero args.sequence_length_round
    require
        (leb (padded_seqlen args.sequence_length_round (width input) longest)
          args.max_tokens_per_microbatch)
        sequence_too_long
    ok (padded_seqlen args.sequence_length_round (width input) longest)

  unfoldable pub micro_batches :
      Columns A → List (Columns A) → ℕ → List ℕ → Outcome BatchError (List MicroBatches)
  unfolding add_indices needed_seqlen
  micro_batches d parts shard_size [] = ok []
  micro_batches d parts shard_size (chunk_idx ∷ chunks) = do
    m ←
        add_indices args.max_tokens_per_microbatch (needed_seqlen d parts shard_size chunk_idx)
          (range_from 0 shard_size) empty_micro_batches
    rest ← micro_batches d parts shard_size chunks
    ok (m ∷ rest)

  unfoldable pub with_micro_batches : List MicroBatches → Columns A → ShardedDict A
  with_micro_batches ms d = record {
    entries = d;
    micro_batch_indices = map chunk_micro_batch_indices ms;
    micro_batch_lengths = map chunk_micro_batch_lengths ms;
  }

  -- The shards of the sorted data, and the order it is sorted in.
  unfoldable pub sorted_shards :
      A → ℕ → Bool → ShardSizes → Columns A → Outcome BatchError (List (Columns A) × List ℕ)
  unfolding lookup batch_sorted_indices over_columns select aggregated_shards
  sorted_shards missing shards uneven z d = do
    lengths ← lookup args.input_lengths_key d
    let order = batch_sorted_indices shards z (map item lengths.rows)
    ok (aggregated_shards missing shards uneven z (over_columns (select order) d), order)

  unfoldable pub shard_dynamic :
      A → ℕ → Option ℕ → Bool → Columns A → Outcome BatchError (List (ShardedDict A) × List ℕ)
  unfolding common_size shard_sizes over_columns select sorted_shards micro_batches
      with_micro_batches
  shard_dynamic missing shards batch_size uneven d = do
    check_uneven uneven batch_size
    total ← common_size d
    z ← shard_sizes shards uneven total (given_or batch_size total)
    sorted ← sorted_shards missing shards uneven z d
    ms ←
        micro_batches (over_columns (select sorted.1) d) sorted.0 z.shard_size
          (range_from 0 z.num_chunks)
    ok (map (with_micro_batches ms) sorted.0, sorted.1)
