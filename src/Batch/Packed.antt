-- ===== src/Batch/Packed.antt =====
-- `shard_by_batch_size` of `BatchedDataDict` with sequence packing: the sequences of every chunk
-- are packed into bins, which are dealt to the shards as their microbatches. `shuffles` has the
-- `random.shuffle` of every chunk.
pub mod Deal
pub mod Balance
pub mod Chunks
pub mod Whole
use ne_mo_rl.Common.{
  ℕ, zero, suc, ◌+◌, ◌-◌, ◌*◌, ◌/◌, ◌%◌, Bool, Option, none, some, List, [], ◌∷◌, ◌++◌, map,
  flatten, ltb, leb, if◌then◌else◌, Outcome, ok, raise, ◌>>=◌, ◌>>◌, length, get_or, set, replicate,
  range_from, sort_by, sum_by, pos,
}
use ne_mo_rl.Batch.{
  BatchError, index_error, packing_error, nonzero, Column, Columns, with_rows, slice_list, lookup,
  select_indices, common_size,
}
use ne_mo_rl.Batch.Shard.{ShardSizes, check_uneven, given_or, shard_sizes}
use ne_mo_rl.Packing.Packer.{Bin, Bins, SequencePacker, PackingError}
use ne_mo_rl.Packing.Factory.{PackingAlgorithm, AlgorithmArgument, Shuffle, pack, get_packer}

pub record SequencePackingArgs : Type 0 where
  pub algorithm : AlgorithmArgument
  pub max_tokens_per_microbatch : ℕ
  pub input_lengths_key : ℕ
  pub sequence_length_pad_multiple : ℕ

abbrev pub lift_packing {ℓ} : {B : Type ℓ} → Outcome PackingError B → Outcome BatchError B
lift_packing (ok b) = ok b
lift_packing (raise e) = raise (packing_error e)

-- `_get_padded_seqlen`
abbrev pub padded_to : ℕ → ℕ → ℕ
padded_to multiple seqlen = (seqlen + multiple - 1) / multiple * multiple

-- The padded lengths of a chunk.
abbrev pub chunk_padded_seqlens : ℕ → ℕ → List ℕ → ℕ → List ℕ
chunk_padded_seqlens multiple batch_size lengths chunk_idx =
    map (padded_to multiple)
      (slice_list (chunk_idx * batch_size) (suc chunk_idx * batch_size) lengths)

-- `sharded[i].append(b)`
abbrev pub append_at : List Bins → ℕ → Bin → List Bins
append_at sharded i b = set sharded i (get_or sharded i [] ++ b ∷ [])

-- Bin number `bin_idx` goes to shard `bin_idx % shards`.
unfoldable pub deal : ℕ → ℕ → Bins → List Bins → List Bins
deal shards bin_idx [] sharded = sharded
deal shards bin_idx (b ∷ bins) sharded =
    deal shards (suc bin_idx) bins (append_at sharded (bin_idx % shards) b)

-- The bins of every shard, with the indices of the whole batch.
abbrev pub chunk_shards : ℕ → ℕ → ℕ → Bins → List Bins
chunk_shards shards batch_size chunk_idx bins =
    deal shards 0 (map (map (λ i. i + chunk_idx * batch_size)) bins) (replicate shards [])

-- The bins of all chunks, for all shards
unfoldable pub packed_bins :
    (ℕ → Shuffle)
    → PackingAlgorithm
    → SequencePacker
    → ℕ
    → ℕ
    → ℕ
    → List ℕ
    → List ℕ
    → Outcome BatchError (List (List Bins))
unfolding pack deal
packed_bins shuffles algorithm packer multiple shards batch_size lengths [] = ok []
packed_bins shuffles algorithm packer multiple shards batch_size lengths (chunk_idx ∷ chunks) = do
  bins ← lift_packing (
      pack (shuffles chunk_idx) algorithm packer
        (chunk_padded_seqlens multiple batch_size lengths chunk_idx))
  rest ← packed_bins shuffles algorithm packer multiple shards batch_size lengths chunks
  ok (chunk_shards shards batch_size chunk_idx bins ∷ rest)

-- The ranges of a shard's microbatches in a chunk, each from where the one before ends.
unfoldable pub bin_ranges : ℕ → Bins → List (ℕ × ℕ)
bin_ranges start [] = []
bin_ranges start (b ∷ bins) = (start, start + length b) ∷ bin_ranges (start + length b) bins

-- `ranges[-1][1]`
unfoldable pub last_end : List (ℕ × ℕ) → Outcome BatchError ℕ
last_end [] = raise index_error
last_end (r ∷ []) = ok r.1
last_end (r ∷ q ∷ ranges) = last_end (q ∷ ranges)

-- `f` on every item, until one raises.
unfoldable pub each :
    {A B : Type 0} → (A → Outcome BatchError B) → List A → Outcome BatchError (List B)
each f [] = ok []
each f (x ∷ xs) = do y ← f x; rest ← each f xs; ok (y ∷ rest)

-- The bins of one shard, chunk by chunk
abbrev pub bins_of_shard : List (List Bins) → ℕ → List Bins
bins_of_shard chunks s = map (λ sharded. get_or sharded s []) chunks

-- The indices of all shards, one after the other
unfoldable pub packed_order : ℕ → List (List Bins) → List ℕ
unfolding flatten
packed_order shards chunks =
    flatten (map (λ s. flatten (map flatten (bins_of_shard chunks s))) (range_from 0 shards))

pub record PackedDict (A : Type 0) : Type 0 where
  pub entries : Columns A
  pub micro_batch_indices : List (List (ℕ × ℕ))
  pub micro_batch_lengths : List (List ℕ)
  pub elem_counts_per_gb : List ℕ

module _ {A : Type 0} where
  -- The rows that all batches have under a key.
  unfoldable pub gather : ℕ → List (Columns A) → Outcome BatchError (List A)
  unfolding lookup
  gather key [] = ok []
  gather key (p ∷ parts) = do c ← lookup key p; rest ← gather key parts; ok (c.rows ++ rest)

  unfoldable pub gather_columns : List (Columns A) → Columns A → Outcome BatchError (Columns A)
  unfolding gather
  gather_columns parts [] = ok []
  gather_columns parts ((k, c) ∷ d) = do
    rows ← gather k parts
    rest ← gather_columns parts d
    ok ((k, with_rows c rows) ∷ rest)

  -- `from_batches`, for rows of one width, which it leaves unpadded
  unfoldable pub from_batches : List (Columns A) → Outcome BatchError (Columns A)
  unfolding gather_columns sort_by
  from_batches [] = raise index_error
  from_batches (b ∷ parts) = gather_columns (b ∷ parts) (sort_by (λ p q. leb p.0 q.0) b)

  -- One shard of the batch `d`, from its bins.
  unfoldable pub packed_shard :
      ℕ → List ℕ → Columns A → List Bins → Outcome BatchError (PackedDict A)
  unfolding bin_ranges last_end each select_indices from_batches flatten
  packed_shard multiple lengths d chunks = do
    counts ← each last_end (map (bin_ranges 0) chunks)
    parts ← each (λ b. select_indices b d) (flatten chunks)
    entries ← from_batches parts
    ok (record {
      entries = entries;
      micro_batch_indices = map (bin_ranges 0) chunks;
      micro_batch_lengths =
          map (map (sum_by (λ i. padded_to multiple (get_or lengths i 0)))) chunks;
      elem_counts_per_gb = counts;
    })

  unfoldable pub shard_packed :
      (ℕ → Shuffle)
      → (A → ℕ)
      → SequencePackingArgs
      → ℕ
      → Option ℕ
      → Bool
      → Columns A
      → Outcome BatchError (List (PackedDict A) × List ℕ)
  unfolding common_size shard_sizes get_packer lookup packed_bins packed_shard packed_order each
  shard_packed shuffles item args shards batch_size uneven d = do
    check_uneven uneven batch_size
    total ← common_size d
    z ← shard_sizes shards uneven total (given_or batch_size total)
    packer ← lift_packing (
        get_packer args.algorithm args.max_tokens_per_microbatch (some (pos shards))
          (some (pos shards)))
    column ← lookup args.input_lengths_key d
    nonzero args.sequence_length_pad_multiple
    let lengths = map item column.rows
    chunks ←
        packed_bins shuffles packer.0 packer.1 args.sequence_length_pad_multiple shards z.batch_size
          lengths (range_from 0 z.num_chunks)
    parts ←
        each (packed_shard args.sequence_length_pad_multiple lengths d)
          (map (bins_of_shard chunks) (range_from 0 shards))
    ok (parts, packed_order shards chunks)
