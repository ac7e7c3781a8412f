-- ===== src/Batch/Packed/Balance.antt =====
-- The bins that the shards have after sequence packing (`shard_by_batch_size` of
-- `BatchedDataDict`, nemo_rl/distributed/batched_data_dict.py).
use ne_mo_rl.Common.{
  pos, ltb-false, ℕ, ◌*◌, ◌%◌, ◌≤◌, ◌<◌, ◌≡◌, refl, ap, ◌∙◌, subst, some, List, [], ◌∷◌, flatten,
  length, length-append, range_from, length-range_from, arith, All, ok, inl, inr,
}
use ne_mo_rl.Packing.Packer.{Bins, SequencePacker}
use ne_mo_rl.Packing.Spec.{IsPacking}
use ne_mo_rl.Packing.Adjust.Rounding.{target_bin_count_least}
use ne_mo_rl.Packing.Factory.{get_packer, member, PackingAlgorithm, Shuffle, pack}
use ne_mo_rl.Packing.Factory.Laws.{
  IsPackable, Shuffles, pack-PackResult, pack_implementation-IsPacking,
}
use ne_mo_rl.Packing.FirstFit.Optimality.{sum_by-perm}
use ne_mo_rl.Batch.Reorder.{sum_by-length}
use native.Mathlib.Nat.{le-mul_of_pos_right, mul-mod_right}

-- The packer that `shard_by_batch_size` makes.
abbrev pub shard_packer : ℕ → ℕ → SequencePacker
shard_packer capacity shards = record {
  bin_capacity = capacity;
  min_bin_count = some shards;
  bin_count_multiple = some shards;
}

-- It is what `get_packer` returns for the settings that `shard_by_batch_size` passes.
get_packer-shard_packer :
    (algorithm : PackingAlgorithm) (capacity shards : ℕ)
    → 0 < shards
    → get_packer (member algorithm) capacity (some (pos shards)) (some (pos shards))
      ≡ ok (algorithm, shard_packer capacity shards)
unfolding get_packer
get_packer-shard_packer algorithm capacity shards h = rw (ltb-false shards 1 h) refl

length-flatten : (bins : Bins) → All (λ b. 0 < length b) bins → length bins ≤ length (flatten bins)
unfolding flatten
length-flatten [] h = omega arith
length-flatten (b ∷ bins) h =
    omega (arith, h.0, length-append b (flatten bins), length-flatten bins h.1)

module _ (capacity : ℕ) (lengths : List ℕ) where
  bins-le : (bins : Bins) → IsPacking capacity lengths bins → length bins ≤ length lengths
  bins-le bins v = omega (
    arith,
    length-flatten bins v.nonempty,
    sum_by-length (flatten bins),
    sum_by-perm (λ i. 1) v.items,
    sum_by-length (range_from 0 (length lengths)),
    length-range_from 0 (length lengths),
  )

-- A chunk whose size is a multiple of the shards always has enough sequences.
pub pack_chunk :
    (shuffle : Shuffle) (algorithm : PackingAlgorithm) (capacity shards size : ℕ) (lengths : List ℕ)
    → Shuffles shuffle
    → IsPackable capacity lengths
    → 0 < shards
    → 0 < size
    → length lengths ≡ shards * size
    → (bins : Bins) × (pack shuffle algorithm (shard_packer capacity shards) lengths ≡ ok bins)
      × IsPacking capacity lengths bins
      × (shards ≤ length bins)
      × (length bins % shards ≡ 0)
pack_chunk shuffle algorithm capacity shards size lengths shuffles packable hs hz len =
    let p : SequencePacker = shard_packer capacity shards in
    elim (pack-PackResult shuffle shuffles p lengths packable algorithm shards refl hs) [
      | inl (bins, e, v, least, multiple) ↦ (bins, e, v, omega (arith, least), multiple)
      | inr (_, few) ↦
          let (bins, e, less) = few in
          let (bins', e', v) =
            pack_implementation-IsPacking shuffle shuffles p lengths packable algorithm in
          let same : bins' ≡ bins = cc in
          let room : length bins ≤ length lengths =
            bins-le capacity lengths bins (subst (IsPacking capacity lengths) same v) in
          let shards_fit : shards ≤ shards * size = le-mul_of_pos_right shards hz in
          absurd (
            omega (
              arith,
              less,
              target_bin_count_least p shards (length bins) (length lengths) refl
                  (omega (arith, room, shards_fit, len))
                  (ap (λ n. n % shards) len ∙ mul-mod_right shards size),
            ))
    ]
