-- ===== src/Batch/Tests.antt =====
-- Runs of `BatchedDataDict` (nemo_rl/distributed/batched_data_dict.py), and the theorems at
-- concrete inputs.
use ne_mo_rl.Common.{
  ℕ, zero, suc, ◌*◌, ◌<◌, ◌≡◌, refl, true, false, none, some, List, [], ◌∷◌, length, All, arith, ok,
  raise, ◌>>=◌, perm_of_SameItems, flatten, map, range_from, SameItems,
}
use mathlib.Core.List.{Perm}
use ne_mo_rl.Batch.{
  Columns, Column, tensor, packed_tensor, list, not_enough_splits, not_implemented, past_the_end,
  index_error, common_size, select_indices, reorder_data, chunk, slice, repeat_interleave, select,
  reordered_indices, lookup,
}
use ne_mo_rl.Batch.Columns.{rows_at}
use ne_mo_rl.Batch.Reorder.{reorder_data-select_indices}
use ne_mo_rl.Batch.Chunk.{IsChunk, chunk_rows, IsChunk-flatten}
use ne_mo_rl.Batch.Shard.{shard_by_batch_size}
use ne_mo_rl.Batch.Shard.Bounds.{even_sizes}
use ne_mo_rl.Batch.Shard.Rows.{shard_by_batch_size-SameItems}
use ne_mo_rl.Batch.Dynamic.{
  DynamicBatchingArgs, sorted_shards, shard_dynamic, needed_seqlen, add_indices,
  empty_micro_batches, chunk_micro_batch_indices, chunk_micro_batch_lengths, MicroBatches,
}
use ne_mo_rl.Batch.Dynamic.Order.{sorted_shards-reordered_indices}
use ne_mo_rl.Batch.Dynamic.Microbatch.{IsMicroBatching}
use ne_mo_rl.Batch.Dynamic.Micro.{HoldsAt, micro_batches-IsMicroBatching}
use ne_mo_rl.Batch.Packed.{
  chunk_padded_seqlens, packed_bins, packed_order, shard_packed, SequencePackingArgs,
}
use ne_mo_rl.Batch.Packed.Whole.{AllBalanced, packed_bins-IsBalanced}
use ne_mo_rl.Batch.Packed.Balance.{shard_packer}
use ne_mo_rl.Packing.Packer.{Bins}
use ne_mo_rl.Packing.Factory.{Shuffle, member, first_fit_decreasing}
use ne_mo_rl.Packing.Factory.Laws.{IsPackable}

-- Key 0 has lengths, key 1 has inputs.
abbrev lengths_six : Column ℕ
lengths_six = record { kind = tensor; rows = 7 ∷ 3 ∷ 5 ∷ 2 ∷ 6 ∷ 4 ∷ [] }

abbrev inputs_six : Column ℕ
inputs_six = record { kind = list; rows = 70 ∷ 30 ∷ 50 ∷ 20 ∷ 60 ∷ 40 ∷ [] }

abbrev six : Columns ℕ
six = (0, lengths_six) ∷ (1, inputs_six) ∷ []

abbrev order_six : List ℕ
order_six = 3 ∷ 0 ∷ 5 ∷ 1 ∷ 2 ∷ 4 ∷ []

six_sized : common_size six ≡ ok 6
unfolding common_size
six_sized = refl

reorder_data-select_indices_example :
    (select_indices order_six six >>= reorder_data order_six) ≡ ok six
reorder_data-select_indices_example =
    reorder_data-select_indices order_six 6 six six_sized
      (perm_of_SameItems order_six (range_from 0 6) (λ w. omega arith))

IsChunk-flatten_example :
    All (IsChunk 2 six 3) (range_from 0 2)
    × (flatten (map (chunk_rows 2 six 1) (range_from 0 2)) ≡ rows_at 1 six)
IsChunk-flatten_example =
    IsChunk-flatten 2 six 3 six_sized (omega arith) (omega arith) 1 (omega arith)

-- Rank 2 of 3 chunks of 2 rows exists, and is refused.
chunk_refused : chunk 2 3 six ≡ raise not_enough_splits
unfolding chunk
chunk_refused = refl

slice_kinds :
    (slice {A = ℕ} 4 8 ((1, inputs_six) ∷ [])
      ≡ ok ((1, record { kind = list; rows = 60 ∷ 40 ∷ [] }) ∷ []))
    × (slice {A = ℕ} 4 8 ((0, lengths_six) ∷ []) ≡ raise past_the_end)
    × (slice {A = ℕ} 4 8 ((0, record { kind = packed_tensor; rows = 1 ∷ [] }) ∷ [])
        ≡ raise index_error)
unfolding slice
slice_kinds = (refl, refl, refl)

repeat_kinds :
    (repeat_interleave {A = ℕ} 2 ((0, record { kind = tensor; rows = 1 ∷ 2 ∷ [] }) ∷ [])
      ≡ ok ((0, record { kind = tensor; rows = 1 ∷ 1 ∷ 2 ∷ 2 ∷ [] }) ∷ []))
    × (repeat_interleave {A = ℕ} 2 ((0, record { kind = packed_tensor; rows = [] }) ∷ [])
        ≡ raise not_implemented)
unfolding repeat_interleave
repeat_kinds = (refl, refl)

shard_by_batch_size-SameItems_example :
    (parts : List (Columns ℕ)) × (shard_by_batch_size 0 2 (some (2 * 1)) false six ≡ ok parts)
    × (length parts ≡ 2)
    × All (λ p. length (rows_at 1 p) ≡ 3 * 1) parts
    × SameItems (flatten (map (rows_at 1) parts)) (rows_at 1 six)
shard_by_batch_size-SameItems_example =
    shard_by_batch_size-SameItems 0 3 2 1 (omega arith) (omega arith) (omega arith) six 1 six_sized
      (omega arith)

abbrev five : List ℕ
five = 10 ∷ 11 ∷ 12 ∷ 13 ∷ 14 ∷ []

-- The docstring's example of uneven shards.
uneven_five :
    shard_by_batch_size 0 2 none true ((0, record { kind = list; rows = five }) ∷ [])
    ≡ ok (
        ((0, record { kind = list; rows = 10 ∷ 11 ∷ 12 ∷ [] }) ∷ [])
        ∷ ((0, record { kind = list; rows = 13 ∷ 14 ∷ [] }) ∷ [])
        ∷ [])
unfolding shard_by_batch_size flatten
uneven_five = refl

-- One row on two shards: the second shard's packed tensor has an entry, its list has none.
uneven_packed_tensor :
    shard_by_batch_size {A = ℕ} 0 2 none true (
      (0, record { kind = list; rows = 5 ∷ [] })
      ∷ (1, record { kind = packed_tensor; rows = 9 ∷ [] })
      ∷ [])
    ≡ ok (
        ((0, record { kind = list; rows = 5 ∷ [] })
          ∷ (1, record { kind = packed_tensor; rows = 9 ∷ [] })
          ∷ [])
        ∷ ((0, record { kind = list; rows = [] })
            ∷ (1, record { kind = packed_tensor; rows = 0 ∷ [] })
            ∷ [])
        ∷ [])
unfolding shard_by_batch_size flatten
uneven_packed_tensor = refl

abbrev dynamic_args : DynamicBatchingArgs
dynamic_args = record {
  max_tokens_per_microbatch = 12;
  sequence_length_round = 2;
  input_key = 1;
  input_lengths_key = 0;
}

abbrev item : ℕ → ℕ
item n = n

abbrev width : Column ℕ → ℕ
width c = 8

six_lengths : lookup 0 six ≡ ok lengths_six
unfolding lookup
six_lengths = refl

six_inputs : lookup 1 six ≡ ok inputs_six
unfolding lookup
six_inputs = refl

sorted_shards-reordered_indices_example :
    (parts : List (Columns ℕ)) × (order : List ℕ) × (sorted_shards item width dynamic_args 0 2 false
        (even_sizes 1 2 3)
        six
      ≡ ok (parts, order))
    × Perm order (range_from 0 (2 * 3))
    × (select (reordered_indices order (2 * 3)) (flatten (map (rows_at 1) parts)) ≡ rows_at 1 six)
sorted_shards-reordered_indices_example =
    sorted_shards-reordered_indices item width dynamic_args 0 2 3 1 six lengths_six (omega arith)
      (omega arith) six_sized six_lengths (omega arith)

-- Two shards of three rows, the longest last: two microbatches for both.
dynamic_six :
    shard_dynamic item width dynamic_args 0 2 none false six
    ≡ ok (
      record {
        entries =
            (0, record { kind = tensor; rows = 2 ∷ 4 ∷ 6 ∷ [] })
            ∷ (1, record { kind = list; rows = 20 ∷ 40 ∷ 60 ∷ [] })
            ∷ [];
        micro_batch_indices = ((0, 2) ∷ (2, 3) ∷ []) ∷ [];
        micro_batch_lengths = (6 ∷ 8 ∷ []) ∷ [];
      }
          ∷ record {
            entries =
                (0, record { kind = tensor; rows = 3 ∷ 5 ∷ 7 ∷ [] })
                ∷ (1, record { kind = list; rows = 30 ∷ 50 ∷ 70 ∷ [] })
                ∷ [];
            micro_batch_indices = ((0, 2) ∷ (2, 3) ∷ []) ∷ [];
            micro_batch_lengths = (6 ∷ 8 ∷ []) ∷ [];
          }
          ∷ [],
      3 ∷ 5 ∷ 4 ∷ 1 ∷ 2 ∷ 0 ∷ [],
    )
unfolding shard_dynamic
dynamic_six = refl

micro_batches-IsMicroBatching_example :
    (m : MicroBatches) × (add_indices 12
        (needed_seqlen item width dynamic_args six (six ∷ []) 6 0)
        (range_from 0 6)
        empty_micro_batches
      ≡ ok m)
    × IsMicroBatching 12
        (λ i l. All (HoldsAt item 0 6 0 8 i l) (six ∷ []))
        0
        (chunk_micro_batch_indices m)
        (chunk_micro_batch_lengths m)
        6
micro_batches-IsMicroBatching_example =
    micro_batches-IsMicroBatching item width dynamic_args 6 0 six (six ∷ []) inputs_six
      (omega arith) (omega arith) six_inputs (omega arith)
      ((lengths_six, six_lengths, omega arith), tt)

abbrev unshuffled : ℕ → Shuffle
unshuffled c items = items

six_packable : (c : ℕ) → c < 1 → IsPackable 8 (chunk_padded_seqlens 2 (2 * 3) lengths_six.rows c)
six_packable zero h = record {
  room = omega arith;
  positive =
      (omega arith, (omega arith, (omega arith, (omega arith, (omega arith, (omega arith, tt))))));
  short =
      (omega arith, (omega arith, (omega arith, (omega arith, (omega arith, (omega arith, tt))))));
}
six_packable (suc c) h = absurd (omega arith)

packed_bins-IsBalanced_example :
    (chunks : List (List Bins)) × (packed_bins unshuffled first_fit_decreasing
        (shard_packer 8 2)
        2
        2
        (2 * 3)
        lengths_six.rows
        (range_from 0 1)
      ≡ ok chunks)
    × (length chunks ≡ 1)
    × AllBalanced 8 2 2 3 lengths_six.rows 0 chunks
    × Perm (packed_order 2 chunks) (range_from 0 (1 * (2 * 3)))
packed_bins-IsBalanced_example =
    packed_bins-IsBalanced unshuffled (λ c items w. refl) first_fit_decreasing 8 2 2 3
      lengths_six.rows (omega arith) (omega arith) 1 refl six_packable

abbrev packing_args : SequencePackingArgs
packing_args = record {
  algorithm = member first_fit_decreasing;
  max_tokens_per_microbatch = 8;
  input_lengths_key = 0;
  sequence_length_pad_multiple = 2;
}

packed_six :
    shard_packed unshuffled item packing_args 2 none false six
    ≡ ok (
      record {
        entries =
            (0, record { kind = tensor; rows = 7 ∷ 5 ∷ [] })
            ∷ (1, record { kind = list; rows = 70 ∷ 50 ∷ [] })
            ∷ [];
        micro_batch_indices = ((0, 1) ∷ (1, 2) ∷ []) ∷ [];
        micro_batch_lengths = (8 ∷ 6 ∷ []) ∷ [];
        elem_counts_per_gb = 2 ∷ [];
      }
          ∷ record {
            entries =
                (0, record { kind = tensor; rows = 6 ∷ 2 ∷ 4 ∷ 3 ∷ [] })
                ∷ (1, record { kind = list; rows = 60 ∷ 20 ∷ 40 ∷ 30 ∷ [] })
                ∷ [];
            micro_batch_indices = ((0, 2) ∷ (2, 4) ∷ []) ∷ [];
            micro_batch_lengths = (8 ∷ 8 ∷ []) ∷ [];
            elem_counts_per_gb = 4 ∷ [];
          }
          ∷ [],
      0 ∷ 2 ∷ 4 ∷ 3 ∷ 5 ∷ 1 ∷ [],
    )
unfolding shard_packed
packed_six = refl
