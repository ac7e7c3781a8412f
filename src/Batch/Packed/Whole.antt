-- ===== src/Batch/Packed/Whole.antt =====
-- All chunks of a batch under sequence packing (`shard_by_batch_size` of `BatchedDataDict`,
-- nemo_rl/distributed/batched_data_dict.py).
use ne_mo_rl.Common.{
  ℕ, zero, suc, ◌+◌, ◌*◌, ◌≤◌, ◌<◌, ◌≡◌, refl, sym, ap, ◌∙◌, List, [], ◌∷◌, flatten, length, get_or,
  range_from, arith, sum_by, SameItems, sum_by-map, sum_by-flatten, perm_of_SameItems, ok,
}
use mathlib.Core.List.{Perm}
use ne_mo_rl.Packing.Packer.{Bins}
use ne_mo_rl.Packing.Factory.{PackingAlgorithm, Shuffle}
use ne_mo_rl.Packing.Factory.Laws.{IsPackable, Shuffles}
use ne_mo_rl.Batch.Shard.Bounds.{sum_by_swap, sum_by_ext, sum_by-flatten-map}
use ne_mo_rl.Batch.Dynamic.Order.{sum_by-range_suc, sum_by-chunks}
use ne_mo_rl.Batch.Packed.{
  chunk_shards, chunk_padded_seqlens, packed_bins, bins_of_shard, packed_order,
}
use ne_mo_rl.Batch.Packed.Balance.{shard_packer, pack_chunk}
use ne_mo_rl.Batch.Packed.Chunks.{IsBalanced, length-padded, chunk_shards-IsBalanced}
use native.Mathlib.Nat.{mul-le-mul_right}

-- The weight of all shards of one chunk
sum_by-get_or :
    (g : Bins → ℕ) (parts : List Bins) (n : ℕ)
    → length parts ≡ n
    → sum_by (λ s. g (get_or parts s [])) (range_from 0 n) ≡ sum_by g parts
sum_by-get_or g [] n e = ap (λ m. sum_by (λ s. g []) (range_from 0 m)) (sym e)
sum_by-get_or g (p ∷ parts) zero e = absurd (omega (arith, e))
sum_by-get_or g (p ∷ parts) (suc n) e =
    ap (λ m. g p + m)
      (sum_by-range_suc (λ s. g (get_or (p ∷ parts) s [])) 0 n
        ∙ sum_by-get_or g parts n (omega (arith, e)))

weight-flatten :
    (w : ℕ → ℕ) (parts : List Bins)
    → sum_by (λ b. sum_by w (flatten b)) parts ≡ sum_by w (flatten (flatten parts))
weight-flatten w parts =
    sum_by_ext _ _ parts (λ b. sum_by-flatten w b)
    ∙ sym (sum_by-flatten (sum_by w) parts)
    ∙ sym (sum_by-flatten w (flatten parts))

-- Chunk `i` of the batch and those after it are balanced.
abbrev pub AllBalanced : ℕ → ℕ → ℕ → ℕ → List ℕ → ℕ → List (List Bins) → Type 0
AllBalanced capacity multiple shards size lengths i [] = Unit
AllBalanced capacity multiple shards size lengths i (parts ∷ chunks) =
    IsBalanced capacity multiple shards (shards * size) lengths i parts
    × AllBalanced capacity multiple shards size lengths (suc i) chunks

module _ (shuffles : ℕ → Shuffle) (rearranges : (c : ℕ) → Shuffles (shuffles c))
    (algorithm : PackingAlgorithm) (capacity multiple shards size : ℕ) (lengths : List ℕ)
    (hs : 0 < shards) (hz : 0 < size) where
  packed_bins-AllBalanced :
      (total i n : ℕ)
      → i + n ≤ total
      → length lengths ≡ total * (shards * size)
      → ((c : ℕ)
          → c < total
          → IsPackable capacity (chunk_padded_seqlens multiple (shards * size) lengths c))
      → (chunks : List (List Bins)) × (packed_bins shuffles algorithm
            (shard_packer capacity shards)
            multiple
            shards
            (shards * size)
            lengths
            (range_from i n)
          ≡ ok chunks)
        × (length chunks ≡ n)
        × AllBalanced capacity multiple shards size lengths i chunks
  unfolding packed_bins
  packed_bins-AllBalanced total i zero h len packable = ([], refl, refl, tt)
  packed_bins-AllBalanced total i (suc n) h len packable =
      let inside : suc i * (shards * size) ≤ length lengths =
        omega
          (arith, len, mul-le-mul_right {m = suc i} {n = total} (shards * size) (omega arith)) in
      let (bins, e, v, least, multiple_of) =
        pack_chunk (shuffles i) algorithm capacity shards size
          (chunk_padded_seqlens multiple (shards * size) lengths i) (rearranges i)
          (packable i (omega arith)) hs hz
          (length-padded capacity multiple shards (shards * size) lengths i inside) in
      let (chunks, e', count, rest) =
        packed_bins-AllBalanced total (suc i) n (omega arith) len packable in
      (
        chunk_shards shards (shards * size) i bins ∷ chunks,
        rw e (rw e' refl),
        ap suc count,
        (
          chunk_shards-IsBalanced capacity multiple shards (shards * size) lengths i inside bins v
              hs least multiple_of,
          rest,
        ),
      )

  chunk_weight :
      (w : ℕ → ℕ) (i : ℕ) (chunks : List (List Bins))
      → AllBalanced capacity multiple shards size lengths i chunks
      → sum_by
          (λ parts. sum_by (λ s. sum_by w (flatten (get_or parts s []))) (range_from 0 shards))
          chunks
        ≡ sum_by
            (λ c. sum_by w (range_from (c * (shards * size)) (shards * size)))
            (range_from i (length chunks))
  chunk_weight w i [] h = refl
  chunk_weight w i (parts ∷ chunks) h =
      let first : sum_by (λ s. sum_by w (flatten (get_or parts s []))) (range_from 0 shards)
          ≡ sum_by w (range_from (i * (shards * size)) (shards * size)) =
        sum_by-get_or (λ b. sum_by w (flatten b)) parts shards h.0.shard_count
        ∙ weight-flatten w parts
        ∙ h.0.items w in
      omega (arith, first, chunk_weight w (suc i) chunks h.1)

  packed_order-SameItems :
      (n : ℕ) (chunks : List (List Bins))
      → length chunks ≡ n
      → AllBalanced capacity multiple shards size lengths 0 chunks
      → SameItems (packed_order shards chunks) (range_from 0 (n * (shards * size)))
  unfolding packed_order
  packed_order-SameItems n chunks count h w =
      sum_by-flatten-map w _ (range_from 0 shards)
      ∙ sum_by_ext _ _ (range_from 0 shards) (λ s.
        sum_by-flatten-map w flatten (bins_of_shard chunks s)
        ∙ sum_by-map (λ b. sum_by w (flatten b)) (λ parts. get_or parts s []) chunks)
      ∙ sum_by_swap (λ s parts. sum_by w (flatten (get_or parts s []))) (range_from 0 shards) chunks
      ∙ chunk_weight w 0 chunks h
      ∙ ap
          (λ m.
            sum_by (λ c. sum_by w (range_from (c * (shards * size)) (shards * size)))
              (range_from 0 m))
          count
      ∙ sum_by-chunks w (shards * size) 0 n
      ∙ (let e : 0 * (shards * size) ≡ 0 = omega arith in
          ap (λ a. sum_by w (range_from a (n * (shards * size)))) e)

  -- Lengths of `n` chunks of `shards * size` sequences, `shards` and `size` positive, every padded
  -- length positive and at most the (positive) capacity, and shuffles that rearrange: packing all
  -- chunks with the packer that `shard_by_batch_size` makes raises nothing, for every algorithm.
  -- In every chunk each of the `shards` shards has the same positive number of bins, no bin is
  -- empty or has more padded tokens than the capacity, and the bins hold every index of the chunk
  -- once. The order of the indices that is returned is a permutation of all indices.
  pub packed_bins-IsBalanced :
      (n : ℕ)
      → length lengths ≡ n * (shards * size)
      → ((c : ℕ)
          → c < n
          → IsPackable capacity (chunk_padded_seqlens multiple (shards * size) lengths c))
      → (chunks : List (List Bins)) × (packed_bins shuffles algorithm
            (shard_packer capacity shards)
            multiple
            shards
            (shards * size)
            lengths
            (range_from 0 n)
          ≡ ok chunks)
        × (length chunks ≡ n)
        × AllBalanced capacity multiple shards size lengths 0 chunks
        × Perm (packed_order shards chunks) (range_from 0 (n * (shards * size)))
  packed_bins-IsBalanced n len packable =
      let (chunks, e, count, all) = packed_bins-AllBalanced n 0 n (omega arith) len packable in
      (chunks, e, count, all, perm_of_SameItems _ _ (packed_order-SameItems n chunks count all))
