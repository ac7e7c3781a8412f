-- ===== src/ContextParallel.antt =====
-- The cut of a sequence over context parallel ranks, and the gather that undoes it
-- (nemo_rl/distributed/model_utils.py). A tensor is the list of its slices along `seq_dim`. The
-- collectives are arguments: the forward pass takes what `all_gather` fills, the chunks of the
-- ranks in order, and the backward pass the gradient that `all_reduce` leaves.
pub mod Chunks
pub mod Gather
pub mod Backward
mod Tests
use ne_mo_rl.Common.{
  ℕ, suc, ◌+◌, ◌-◌, ◌*◌, ◌/◌, Bool, List, [], ◌∷◌, ◌++◌, map, flatten, leb, ◌==◌, if◌then◌else◌,
  length, take, drop, range_from, sort_by, Outcome, ok, raise,
}
use ne_mo_rl.Batch.{slice_list, zip}

pub data ShapeError : Type 0 where
  invalid_view zero_division : ShapeError

abbrev pub chunk_indices : ℕ → List ℕ
chunk_indices cp_size =
    flatten (map (λ cp_rank. cp_rank ∷ (2 * cp_size - cp_rank - 1) ∷ []) (range_from 0 cp_size))

abbrev pub second_le : {B : Type 0} → B × ℕ → B × ℕ → Bool
second_le p q = leb p.1 q.1

module _ {A : Type 0} where
  -- The `i`-th of the chunks of a size
  abbrev pub shard_at : ℕ → List A → ℕ → List A
  shard_at shard_size input_ids i = slice_list (i * shard_size) (suc i * shard_size) input_ids

  -- A rank has an early chunk and a late one, as attention is causal; the padding before makes the
  -- chunks even.
  unfoldable pub get_tokens_on_this_cp_rank : ℕ → ℕ → List A → List A
  get_tokens_on_this_cp_rank cp_rank cp_size input_ids =
      let shard_size = length input_ids / (cp_size * 2) in
      if cp_size == 1
      then input_ids
      else shard_at shard_size input_ids cp_rank
        ++ shard_at shard_size input_ids (cp_size * 2 - cp_rank - 1)

  -- `torch.chunk(t, chunks=2)`, which gives one chunk if there is but one slice
  unfoldable pub torch_chunk_two : List A → List (List A)
  torch_chunk_two xs =
      let size = (length xs + 1) / 2 in
      if length xs == 1 then xs ∷ [] else take size xs ∷ drop size xs ∷ []

  -- `AllGatherCPTensor.forward` with the chunks gathered
  unfoldable pub forward : List (List A) → List A
  unfolding torch_chunk_two zip sort_by flatten
  forward cp_rank_chunks =
      let tensor_chunks = flatten (map torch_chunk_two cp_rank_chunks) in
      let chunks_and_indices = zip tensor_chunks (chunk_indices (length cp_rank_chunks)) in
      flatten (map (λ p. p.0) (sort_by second_le chunks_and_indices))

  -- `AllGatherCPTensor.backward`: the view raises unless the chunks are even
  unfoldable pub backward : ℕ → ℕ → List A → Outcome ShapeError (List A)
  backward cp_rank cp_size grad_output =
      let size = length grad_output / (2 * cp_size) in
      if cp_size == 0
      then raise zero_division
      else if 2 * cp_size * size == length grad_output
      then ok (
          shard_at size grad_output cp_rank
          ++ shard_at size grad_output (2 * cp_size - cp_rank - 1))
      else raise invalid_view
