-- ===== src/Batch/Packed/Chunks.antt =====
-- The bins of one chunk that the shards have after sequence packing (`shard_by_batch_size` of
-- `BatchedDataDict`, nemo_rl/distributed/batched_data_dict.py).
use ne_mo_rl.Common.{
  ℕ, zero, suc, ◌+◌, ◌*◌, ◌/◌, ◌%◌, ◌≤◌, ◌<◌, ◌≡◌, refl, sym, ap, ◌∙◌, subst, List, [], ◌∷◌, map,
  flatten, length, length-map, length-replicate, get_or, replicate, range_from, take, drop, arith,
  All, All_left, All_right, sum_by, SameItems, sum_by-map, sum_by-flatten, inl, inr,
}
use mathlib.Core.List.{Perm}
use ne_mo_rl.Packing.Packer.{Bin, Bins, load}
use ne_mo_rl.Packing.Spec.{IsPacking}
use ne_mo_rl.Packing.FirstFit.Optimality.{sum_by-perm}
use ne_mo_rl.Batch.{slice_list}
use ne_mo_rl.Batch.Slices.{length-slice_list}
use ne_mo_rl.Batch.Reorder.{perm-below}
use ne_mo_rl.Batch.Shard.Bounds.{sum_by_ext}
use ne_mo_rl.Batch.Packed.{padded_to, chunk_padded_seqlens, chunk_shards}
use ne_mo_rl.Batch.Dynamic.Order.{sum_by-range_shift}
use ne_mo_rl.Batch.Packed.Deal.{
  length-deal, All-deal, All-replicate, sum_by-deal, sum_by-replicate, deal-even,
}
use native.Mathlib.Nat.{eq-zero-or-pos, div-add-mod', suc-mul}

get_or-take : (n : ℕ) (xs : List ℕ) (i : ℕ) → i < n → get_or (take n xs) i 0 ≡ get_or xs i 0
get_or-take zero xs i h = absurd (omega arith)
get_or-take (suc n) [] i h = refl
get_or-take (suc n) (x ∷ xs) zero h = refl
get_or-take (suc n) (x ∷ xs) (suc i) h = get_or-take n xs i (omega arith)

get_or-drop : (n : ℕ) (xs : List ℕ) (i : ℕ) → get_or (drop n xs) i 0 ≡ get_or xs (i + n) 0
get_or-drop zero xs i = ap (λ k. get_or xs k 0) (omega arith)
get_or-drop (suc n) [] i = refl
get_or-drop (suc n) (x ∷ xs) i =
    let e : suc (i + n) ≡ i + suc n = omega arith in
    get_or-drop n xs i ∙ ap (λ k. get_or (x ∷ xs) k 0) e

get_or-map :
    (f : ℕ → ℕ) (xs : List ℕ) (i : ℕ) → i < length xs → get_or (map f xs) i 0 ≡ f (get_or xs i 0)
get_or-map f [] i h = absurd (omega arith)
get_or-map f (x ∷ xs) zero h = refl
get_or-map f (x ∷ xs) (suc i) h = get_or-map f xs i (omega arith)

All-flatten : (P : ℕ → Type 0) (bins : Bins) → All P (flatten bins) → All (All P) bins
unfolding flatten
All-flatten P [] h = tt
All-flatten P (b ∷ bins) h =
    (All_left P b (flatten bins) h, All-flatten P bins (All_right P b (flatten bins) h))

-- A chunk, dealt: as many bins for every shard, at least one; every bin has a sequence and no
-- more tokens, padded, than the capacity; and every index of the chunk is in one bin.
pub record IsBalanced (capacity multiple shards batch_size : ℕ) (lengths : List ℕ) (chunk_idx : ℕ)
    (parts : List Bins) : Type 0 where
  pub shard_count : length parts ≡ shards
  pub even : (k : ℕ) × (0 < k) × ((i : ℕ) → i < shards → length (get_or parts i []) ≡ k)
  pub fits :
      All
        (All (λ b.
          (0 < length b) × (sum_by (λ i. padded_to multiple (get_or lengths i 0)) b ≤ capacity)))
        parts
  pub items : SameItems (flatten (flatten parts)) (range_from (chunk_idx * batch_size) batch_size)

module _ (capacity multiple shards batch_size : ℕ) (lengths : List ℕ) (chunk_idx : ℕ) where
  abbrev padded : List ℕ
  padded = chunk_padded_seqlens multiple batch_size lengths chunk_idx

  abbrev shift : ℕ → ℕ
  shift i = i + chunk_idx * batch_size

  abbrev Fits : Bin → Type 0
  Fits b = (0 < length b) × (sum_by (λ i. padded_to multiple (get_or lengths i 0)) b ≤ capacity)

  module _ (inside : suc chunk_idx * batch_size ≤ length lengths) where
    pub length-padded : length padded ≡ batch_size
    length-padded =
        length-map (padded_to multiple) _
        ∙ length-slice_list (chunk_idx * batch_size) (suc chunk_idx * batch_size) lengths inside
        ∙ omega (arith, suc-mul chunk_idx batch_size)

    get_or-padded :
        (i : ℕ)
        → i < batch_size
        → get_or padded i 0 ≡ padded_to multiple (get_or lengths (shift i) 0)
    get_or-padded i h =
        let len =
          length-slice_list (chunk_idx * batch_size) (suc chunk_idx * batch_size) lengths inside in
        get_or-map (padded_to multiple)
          (slice_list (chunk_idx * batch_size) (suc chunk_idx * batch_size) lengths) i
          (omega (arith, len, h, suc-mul chunk_idx batch_size))
        ∙ ap (padded_to multiple) (
            get_or-take _ (drop (chunk_idx * batch_size) lengths) i
              (omega (arith, h, suc-mul chunk_idx batch_size))
            ∙ get_or-drop (chunk_idx * batch_size) lengths i)

    load-padded :
        (b : Bin)
        → All (λ i. i < batch_size) b
        → sum_by (λ i. padded_to multiple (get_or lengths i 0)) (map shift b) ≡ load padded b
    load-padded [] h = refl
    load-padded (i ∷ b) h = omega (arith, get_or-padded i h.0, load-padded b h.1)

    shifted-Fits :
        (bins : Bins)
        → All (All (λ i. i < batch_size)) bins
        → All (λ b. load padded b ≤ capacity) bins
        → All (λ b. 0 < length b) bins
        → All Fits (map (map shift) bins)
    shifted-Fits [] below fits full = tt
    shifted-Fits (b ∷ bins) below fits full = (
      (omega (arith, length-map shift b, full.0), omega (arith, load-padded b below.0, fits.0)),
      shifted-Fits bins below.1 fits.1 full.1,
    )

    pub chunk_shards-IsBalanced :
        (bins : Bins)
        → IsPacking capacity padded bins
        → 0 < shards
        → shards ≤ length bins
        → length bins % shards ≡ 0
        → IsBalanced capacity multiple shards batch_size lengths chunk_idx
            (chunk_shards shards batch_size chunk_idx bins)
    chunk_shards-IsBalanced bins v hs least multiple_of =
        let k : ℕ = length bins / shards in
        let whole : length bins ≡ k * shards =
          omega (arith, div-add-mod' (length bins) shards, multiple_of) in
        let below : All (All (λ i. i < batch_size)) bins = All-flatten _ bins (
          (perm-below (flatten bins) batch_size
            (subst (λ n. Perm (flatten bins) (range_from 0 n)) length-padded v.items)).0) in
        record {
          shard_count = length-deal shards 0 _ (replicate shards []) ∙ length-replicate shards [];
          even = (
            k,
            elim (eq-zero-or-pos k) [
              | inl z ↦ absurd (omega (arith, whole, ap (λ j. j * shards) z, least, hs))
              | inr some_bins ↦ some_bins
            ],
            deal-even shards k (map (map shift) bins) hs (length-map (map shift) bins ∙ whole),
          );
          fits =
              All-deal Fits shards 0 (map (map shift) bins) (replicate shards [])
                (shifted-Fits bins below v.fits v.nonempty) (All-replicate Fits shards);
          items = λ w.
              sum_by-flatten w (flatten (chunk_shards shards batch_size chunk_idx bins))
              ∙ sum_by-flatten (sum_by w) (chunk_shards shards batch_size chunk_idx bins)
              ∙ sum_by-deal (sum_by w) shards 0 (map (map shift) bins) (replicate shards []) hs
                  (length-replicate shards [])
              ∙ ap (λ n. n + sum_by (sum_by w) (map (map shift) bins))
                  (sum_by-replicate (sum_by w) shards)
              ∙ ap (λ n. 0 + n)
                  (sum_by-map (sum_by w) (map shift) bins
                    ∙ sum_by_ext _ _ bins (λ b. sum_by-map w shift b)
                    ∙ sym (sum_by-flatten (λ i. w (shift i)) bins)
                    ∙ sum_by-perm (λ i. w (shift i)) v.items
                    ∙ ap (λ n. sum_by (λ i. w (shift i)) (range_from 0 n)) length-padded
                    ∙ sum_by-range_shift w (chunk_idx * batch_size) 0 batch_size)
              ∙ (let e : 0 + chunk_idx * batch_size ≡ chunk_idx * batch_size = omega arith in
                  omega (arith, ap (λ a. sum_by w (range_from a batch_size)) e));
        }
