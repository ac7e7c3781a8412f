-- ===== src/Batch/Iterate/Tests.antt =====
-- Runs of `get_batch` and of the microbatch iterators of `BatchedDataDict`
-- (nemo_rl/distributed/batched_data_dict.py), and the theorems at concrete inputs.
use ne_mo_rl.Common.{
  ℕ, ◌≡◌, refl, none, some, List, [], ◌∷◌, map, flatten, ok, raise, length, get_elem?, range_from,
  arith, suc,
}
use ne_mo_rl.Batch.{
  Columns, tensor, packed_tensor, stop_iteration, not_a_multiple, common_size, over_columns,
  slice_list,
}
use ne_mo_rl.Batch.Columns.{rows_at}
use ne_mo_rl.Batch.Iterate.{
  BatchedDataDict, size, get_batch, cum_elem_count, make_microbatch_iterator,
  make_microbatch_iterator_for_packable_sequences,
}
use ne_mo_rl.Batch.Iterate.Ranges.{
  make_microbatch_iterator_for_packable_sequences-flatten, get_batch-IsPart,
}

abbrev four : Columns ℕ
four =
    (0, record { kind = tensor; rows = 7 ∷ 5 ∷ 6 ∷ 2 ∷ [] })
    ∷ (1, record { kind = packed_tensor; rows = 70 ∷ 50 ∷ 60 ∷ 20 ∷ [] })
    ∷ []

four_sized : common_size four ≡ ok 4
unfolding common_size
four_sized = refl

abbrev ranges : List (ℕ × ℕ)
ranges = (0, 1) ∷ (1, 4) ∷ []

make_microbatch_iterator_for_packable_sequences-flatten_example :
    (parts : List (Columns ℕ)) × (make_microbatch_iterator_for_packable_sequences (record {
      entries = four;
      micro_batch_indices = some (ranges ∷ []);
      micro_batch_lengths = some ((8 ∷ 14 ∷ []) ∷ []);
      elem_counts_per_gb = none;
    })
      ≡ ok parts)
    × (length parts ≡ 2)
    × (flatten (map (rows_at 1) parts) ≡ rows_at 1 four)
make_microbatch_iterator_for_packable_sequences-flatten_example =
    make_microbatch_iterator_for_packable_sequences-flatten 4 1 four ranges (8 ∷ 14 ∷ []) none
      four_sized (omega arith) (refl, omega arith, (refl, omega arith, refl)) refl

abbrev part_indices : List (List (ℕ × ℕ))
part_indices = ((0, 1) ∷ []) ∷ ((0, 2) ∷ (2, 3) ∷ []) ∷ []

abbrev part_lengths : List (List ℕ)
part_lengths = (8 ∷ []) ∷ (12 ∷ 2 ∷ []) ∷ []

abbrev counts : List ℕ
counts = 1 ∷ 3 ∷ []

abbrev noted_four : BatchedDataDict ℕ
noted_four = record {
  entries = four;
  micro_batch_indices = some part_indices;
  micro_batch_lengths = some part_lengths;
  elem_counts_per_gb = some counts;
}

get_batch-IsPart_example :
    (count : ℕ) × (i : List (ℕ × ℕ)) × (l : List ℕ) × (get_elem? counts 1 ≡ some count)
    × (get_elem? part_indices 1 ≡ some i)
    × (get_elem? part_lengths 1 ≡ some l)
    × (get_batch 1 none noted_four
        ≡ ok (record {
          entries =
              over_columns (slice_list (cum_elem_count counts 1) (cum_elem_count counts 2)) four;
          micro_batch_indices = some (i ∷ []);
          micro_batch_lengths = some (l ∷ []);
          elem_counts_per_gb = some (count ∷ []);
        }))
    × (flatten (
          map
            (λ k.
              slice_list (cum_elem_count counts k) (cum_elem_count counts (suc k)) (rows_at 1 four))
            (range_from 0 2))
        ≡ rows_at 1 four)
get_batch-IsPart_example =
    get_batch-IsPart 1 1 four part_indices part_lengths counts four_sized (omega arith)
      (omega arith) refl refl

second_part :
    get_batch 1 none noted_four
    ≡ ok (record {
      entries =
          (0, record { kind = tensor; rows = 5 ∷ 6 ∷ 2 ∷ [] })
          ∷ (1, record { kind = packed_tensor; rows = 50 ∷ 60 ∷ 20 ∷ [] })
          ∷ [];
      micro_batch_indices = some (((0, 2) ∷ (2, 3) ∷ []) ∷ []);
      micro_batch_lengths = some ((12 ∷ 2 ∷ []) ∷ []);
      elem_counts_per_gb = some (3 ∷ []);
    })
unfolding get_batch
second_part = refl

halves :
    make_microbatch_iterator {A = ℕ} 2
      ((0, record { kind = tensor; rows = 7 ∷ 5 ∷ 6 ∷ 2 ∷ [] }) ∷ [])
    ≡ ok (
        ((0, record { kind = tensor; rows = 7 ∷ 5 ∷ [] }) ∷ [])
        ∷ ((0, record { kind = tensor; rows = 6 ∷ 2 ∷ [] }) ∷ [])
        ∷ [])
unfolding make_microbatch_iterator
halves = refl

thirds : make_microbatch_iterator 3 four ≡ raise not_a_multiple
unfolding make_microbatch_iterator
thirds = refl

-- A dictionary without keys has no size.
no_keys : size {A = ℕ} [] ≡ raise stop_iteration
unfolding size
no_keys = refl
