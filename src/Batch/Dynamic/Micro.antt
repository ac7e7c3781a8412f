-- ===== src/Batch/Dynamic/Micro.antt =====
-- The microbatches of dynamic batching (`shard_by_batch_size` of `BatchedDataDict`).
use ne_mo_rl.Common.{
  ℕ, suc, ◌+◌, ◌-◌, ◌*◌, ◌≤◌, ◌<◌, ◌≡◌, refl, ap, subst, List, [], ◌∷◌, some, ok, length, get_elem?,
  range_from, arith, All, All_mono, max, min, lt→ltb, le→leb,
}
use ne_mo_rl.Batch.{lookup, Column, Columns, slice_list}
use ne_mo_rl.Batch.Columns.{get_elem?_in_range}
use ne_mo_rl.Batch.Slices.{length-slice_list}
use ne_mo_rl.Batch.Dynamic.{
  DynamicBatchingArgs, MicroBatches, empty_micro_batches, chunk_micro_batch_indices,
  chunk_micro_batch_lengths, padded_seqlen, longest_of, needed_seqlen, add_indices,
}
use native.Mathlib.Nat.{lt-div-mul-add, suc-mul}
use ne_mo_rl.Batch.Dynamic.Microbatch.{IsMicroBatching, add_indices-IsMicroBatching}

-- The lengths column of a shard has the rows of a chunk.
abbrev pub HasChunk : {A : Type 0} → ℕ → ℕ → ℕ → Columns A → Type 0
HasChunk {A = A} key shard_size chunk_idx p =
    (c : Column A) × (lookup key p ≡ ok c) × (suc chunk_idx * shard_size ≤ length c.rows)

-- No shard's sequence at place `i` of the chunk is longer than `l`, up to `width`.
abbrev pub HoldsAt : {A : Type 0} → (A → ℕ) → ℕ → ℕ → ℕ → ℕ → ℕ → ℕ → Columns A → Type 0
HoldsAt {A = A} item key shard_size chunk_idx width i l p =
    (c : Column A) (row : A)
    → lookup key p ≡ ok c
    → get_elem? (slice_list (chunk_idx * shard_size) (suc chunk_idx * shard_size) c.rows) i
      ≡ some row
    → min (item row) width ≤ l

module _ {A : Type 0} (item : A → ℕ) (width : Column A → ℕ) (args : DynamicBatchingArgs)
    (shard_size chunk_idx : ℕ) where
  longest_of-HoldsAt :
      (i acc w : ℕ) (parts : List (Columns A))
      → i < shard_size
      → All (HasChunk args.input_lengths_key shard_size chunk_idx) parts
      → (n : ℕ) × (longest_of item width args shard_size chunk_idx i acc parts ≡ ok n)
        × (acc ≤ n)
        × All (HoldsAt item args.input_lengths_key shard_size chunk_idx w i n) parts
  unfolding longest_of
  longest_of-HoldsAt i acc w [] lt h = (acc, refl, omega arith, tt)
  longest_of-HoldsAt i acc w (p ∷ parts) lt h =
      let (c, found, rows) = h.0 in
      let len =
        length-slice_list (chunk_idx * shard_size) (suc chunk_idx * shard_size) c.rows rows in
      let (row, at) =
        get_elem?_in_range (slice_list (chunk_idx * shard_size) (suc chunk_idx * shard_size) c.rows)
          i (omega (arith, len, suc-mul chunk_idx shard_size)) in
      let (n, e, le, rest) = longest_of-HoldsAt i (max acc (item row)) w parts lt h.1 in
      (
        n,
        rw (found, at) e,
        omega arith,
        (
          λ c' row' found' at'.
              let same : c ≡ c' = cc in
              let at_c' =
                subst
                  (λ b.
                    get_elem?
                      (slice_list (chunk_idx * shard_size) (suc chunk_idx * shard_size) b.rows) i
                    ≡ some row)
                  same at in
              let same_row : row ≡ row' = cc in omega (arith, le, ap item same_row),
          rest,
        ),
      )

  padded_seqlen-le : (n round w : ℕ) → 0 < round → min n w ≤ padded_seqlen round w n
  padded_seqlen-le n round w h = omega (arith, lt-div-mul-add {a = n + round - 1} h)

  -- The shards' lengths column has a chunk of rows, `shard_size` is positive, the multiple that
  -- lengths are rounded up to is positive, and the input is no wider than a microbatch may hold
  -- tokens: then the loop over the chunk's indices raises nothing, and its microbatches are
  -- nonempty ranges that follow each other from 0 to `shard_size`, each of whose number of rows
  -- times its length is at most the tokens allowed, and whose length is at least that of every
  -- sequence of every shard in the range (or the width of the input, if that is less).
  pub micro_batches-IsMicroBatching :
      (d : Columns A) (parts : List (Columns A)) (input : Column A)
      → 0 < shard_size
      → 0 < args.sequence_length_round
      → lookup args.input_key d ≡ ok input
      → width input ≤ args.max_tokens_per_microbatch
      → All (HasChunk args.input_lengths_key shard_size chunk_idx) parts
      → (m : MicroBatches) × (add_indices args.max_tokens_per_microbatch
            (needed_seqlen item width args d parts shard_size chunk_idx)
            (range_from 0 shard_size)
            empty_micro_batches
          ≡ ok m)
        × IsMicroBatching args.max_tokens_per_microbatch
            (λ i l.
              All
                (HoldsAt item args.input_lengths_key shard_size chunk_idx (width input) i l)
                parts)
            0
            (chunk_micro_batch_indices m)
            (chunk_micro_batch_lengths m)
            shard_size
  unfolding needed_seqlen
  micro_batches-IsMicroBatching d parts input pos round found wide has =
      add_indices-IsMicroBatching args.max_tokens_per_microbatch _
        (λ i k l le. All_mono (λ p h c row f at. omega (arith, h c row f at, le)) parts)
        (needed_seqlen item width args d parts shard_size chunk_idx) shard_size
        (λ i lt.
          let (n, e, _, holds) = longest_of-HoldsAt i 0 (width input) parts lt has in
          let pad : ℕ = padded_seqlen args.sequence_length_round (width input) n in
          let small : pad ≤ args.max_tokens_per_microbatch = omega (arith, wide) in
          (
            pad,
            rw e (
                rw found (
                  rw (lt→ltb 0 args.sequence_length_round round)
                    (rw (le→leb pad args.max_tokens_per_microbatch small) refl))),
            small,
            All_mono
                (λ p h c row f at. omega (
                  arith,
                  h c row f at,
                  padded_seqlen-le n args.sequence_length_round (width input) round,
                ))
                parts holds,
          ))
        pos
