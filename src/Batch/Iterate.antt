-- ===== src/Batch/Iterate.antt =====
-- The parts of a `BatchedDataDict` (nemo_rl/distributed/batched_data_dict.py) that training reads
-- one after the other: `get_batch` and the microbatch iterators, an iterator being the list of what
-- it yields.
pub mod Ranges
pub mod Tests
use ne_mo_rl.Common.{
  ℕ, zero, suc, ◌+◌, ◌*◌, ◌/◌, ◌%◌, Bool, true, false, ◌&&◌, ◌==◌, Option, none, some, List, [],
  ◌∷◌, map, ltb, leb, if◌then◌else◌, Outcome, ok, raise, ◌>>=◌, ◌>>◌, length, get_elem?, range_from,
  take, sum_by,
}
use ne_mo_rl.Batch.{
  BatchError, no_micro_batches, index_error, not_a_multiple, stop_iteration, type_error, require,
  nonzero, Columns, Column, slice, zip,
}

-- `self.data`, and what the sharding has noted beside it.
pub record BatchedDataDict (A : Type 0) : Type 0 where
  pub entries : Columns A
  pub micro_batch_indices : Option (List (List (ℕ × ℕ)))
  pub micro_batch_lengths : Option (List (List ℕ))
  pub elem_counts_per_gb : Option (List ℕ)

-- A part that may be missing, and the item at an index.
abbrev pub given {ℓ} : {B : Type ℓ} → Option B → BatchError → Outcome BatchError B
given none e = raise e
given (some b) e = ok b

abbrev pub item_at {ℓ} : {B : Type ℓ} → List B → ℕ → Outcome BatchError B
item_at xs i = given (get_elem? xs i) index_error

abbrev pub has_one_chunk :
    Option (List (List (ℕ × ℕ)))
    → Option (List (List ℕ))
    → Outcome BatchError (List ℕ × List (ℕ × ℕ))
has_one_chunk (some (ranges ∷ [])) (some lengths) = item_at lengths 0 >>= λ l. ok (l, ranges)
has_one_chunk _ _ = raise no_micro_batches

-- The start of a part, `cum_elem_count[batch_idx]`
abbrev pub cum_elem_count : List ℕ → ℕ → ℕ
cum_elem_count counts batch_idx = sum_by (λ n. n) (take batch_idx counts)

module _ {A : Type 0} where
  -- The first key's size; there is no first key in an empty dictionary.
  unfoldable pub size : Columns A → Outcome BatchError ℕ
  size [] = raise stop_iteration
  size ((k, c) ∷ d) = ok (length c.rows)

  -- `batch` with the notes of one part of the whole
  abbrev pub noted :
      List (List (ℕ × ℕ))
      → Option (List (List ℕ))
      → ℕ
      → Option (List ℕ)
      → Columns A
      → Outcome BatchError (BatchedDataDict A)
  noted indices lengths batch_idx counts batch = do
    i ← item_at indices batch_idx
    all_lengths ← given lengths type_error
    l ← item_at all_lengths batch_idx
    ok (record {
      entries = batch;
      micro_batch_indices = some (i ∷ []);
      micro_batch_lengths = some (l ∷ []);
      elem_counts_per_gb = counts;
    })

  abbrev pub noted_if :
      Option (List (List (ℕ × ℕ)))
      → Option (List (List ℕ))
      → ℕ
      → Columns A
      → Outcome BatchError (BatchedDataDict A)
  noted_if none lengths batch_idx batch = ok (record {
    entries = batch;
    micro_batch_indices = none;
    micro_batch_lengths = none;
    elem_counts_per_gb = none;
  })
  noted_if (some indices) lengths batch_idx batch = noted indices lengths batch_idx none batch

  unfoldable pub batch_of :
      Option (List ℕ) → ℕ → Option ℕ → BatchedDataDict A → Outcome BatchError (BatchedDataDict A)
  unfolding slice
  batch_of (some counts) batch_idx batch_size b = do
    indices ← given b.micro_batch_indices no_micro_batches
    elem_count ← item_at counts batch_idx
    batch ←
        slice (cum_elem_count counts batch_idx) (cum_elem_count counts (suc batch_idx)) b.entries
    noted indices b.micro_batch_lengths batch_idx (some (elem_count ∷ [])) batch
  batch_of none batch_idx batch_size b = do
    n ← given batch_size type_error
    batch ← slice (n * batch_idx) (n * suc batch_idx) b.entries
    noted_if b.micro_batch_indices b.micro_batch_lengths batch_idx batch

  unfoldable pub get_batch :
      ℕ → Option ℕ → BatchedDataDict A → Outcome BatchError (BatchedDataDict A)
  unfolding batch_of
  get_batch batch_idx batch_size b = batch_of b.elem_counts_per_gb batch_idx batch_size b

  -- The slices that an iterator yields for its ranges.
  unfoldable pub slices : List (ℕ × ℕ) → Columns A → Outcome BatchError (List (Columns A))
  unfolding slice
  slices [] d = ok []
  slices (r ∷ ranges) d = do mb ← slice r.0 r.1 d; rest ← slices ranges d; ok (mb ∷ rest)

  unfoldable pub make_microbatch_iterator_for_packable_sequences :
      BatchedDataDict A → Outcome BatchError (List (Columns A))
  unfolding slices zip
  make_microbatch_iterator_for_packable_sequences b = do
    notes ← has_one_chunk b.micro_batch_indices b.micro_batch_lengths
    slices (map (λ p. p.1) (zip notes.0 notes.1)) b.entries

  unfoldable pub make_microbatch_iterator : ℕ → Columns A → Outcome BatchError (List (Columns A))
  unfolding size slices
  make_microbatch_iterator microbatch_size d = do
    bsize ← size d
    nonzero microbatch_size
    require (bsize % microbatch_size == 0) not_a_multiple
    slices
        (map (λ i. (i * microbatch_size, suc i * microbatch_size))
          (range_from 0 (bsize / microbatch_size)))
        d
