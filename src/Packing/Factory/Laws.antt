-- ===== src/Packing/Factory/Laws.antt =====
-- `pack` as its callers see it, whichever algorithm was chosen.
use mathlib.Core.List.Perm
use ne_mo_rl.Common.{
  ℕ, ◌*◌, ◌%◌, ◌≤◌, ◌<◌, ◌≡◌, ap, ◌∙◌, Option, none, some, List, length, All, arith, Outcome, ok,
  raise, SameItems, ◌⊎◌, inl, inr, range_from,
}
use native.Mathlib.Decide.{dec_le}
use ne_mo_rl.Packing.Packer.{
  Bins, SequencePacker, PackingError, not_enough_sequences, enumerate_from,
}
use ne_mo_rl.Packing.Spec.{IsPacking}
use ne_mo_rl.Packing.Adjust.{target_bin_count, at_least}
use ne_mo_rl.Packing.Adjust.Target.{adjust_bin_count-IsPacking, adjust_bin_count-raises}
use ne_mo_rl.Packing.Adjust.Rounding.{target_bin_count-multiple}
use ne_mo_rl.Packing.Concatenative.Laws.{IsConcatenation, pack_concatenative-IsConcatenation}
use ne_mo_rl.Packing.FirstFit.{prepare_decreasing, prepare_shuffled}
use ne_mo_rl.Packing.FirstFit.Laws.{pack_first_fit-IsPacking, prepare_decreasing-SameItems}
use ne_mo_rl.Packing.FirstFit.Optimality.{at_most_twice}
use ne_mo_rl.Packing.Modified.{pack_modified}
use ne_mo_rl.Packing.Modified.Laws.{pack_modified-IsPacking}
use ne_mo_rl.Packing.Factory.{
  PackingAlgorithm, concatenative, first_fit_decreasing, first_fit_shuffle,
  modified_first_fit_decreasing, Shuffle, pack_implementation, pack,
}

-- The lengths that every algorithm accepts.
pub record IsPackable (capacity : ℕ) (lengths : List ℕ) : Type 0 where
  pub room : 0 < capacity
  pub positive : All (λ n. 0 < n) lengths
  pub short : All (λ n. n ≤ capacity) lengths

-- What `random.shuffle` does: it rearranges the list.
abbrev pub Shuffles : Shuffle → Type 0
Shuffles shuffle = (items : List (ℕ × ℕ)) → SameItems (shuffle items) items

concatenation-IsPacking :
    (capacity : ℕ) (limit : Option ℕ) (lengths : List ℕ) (bins : Bins)
    → IsConcatenation capacity limit lengths bins
    → IsPacking capacity lengths bins
concatenation-IsPacking capacity limit lengths bins c = record {
  items = rw c.order (Perm.refl (range_from 0 (length lengths)));
  fits = c.fits;
  nonempty = c.nonempty;
}

shuffled-SameItems :
    (shuffle : Shuffle) (shuffles : Shuffles shuffle) (lengths : List ℕ)
    → SameItems (prepare_shuffled shuffle lengths) (enumerate_from 0 lengths)
unfolding prepare_shuffled
shuffled-SameItems shuffle shuffles lengths = shuffles (enumerate_from 0 lengths)

at_least_mono : (m : Option ℕ) (n : ℕ) → at_least m 0 ≤ at_least m n
at_least_mono none n = omega arith
at_least_mono (some m) n = omega arith

module _ (shuffle : Shuffle) (shuffles : Shuffles shuffle) (p : SequencePacker) (lengths : List ℕ)
    (packable : IsPackable p.bin_capacity lengths) where
  pub pack_implementation-IsPacking :
      (algorithm : PackingAlgorithm)
      → (bins : Bins) × (pack_implementation shuffle algorithm p lengths ≡ ok bins)
        × IsPacking p.bin_capacity lengths bins
  unfolding pack_implementation
  pack_implementation-IsPacking concatenative =
      let (bins, e, c) =
        pack_concatenative-IsConcatenation p.bin_capacity none lengths packable.short in
      (bins, e, concatenation-IsPacking p.bin_capacity none lengths bins c)
  pack_implementation-IsPacking first_fit_decreasing =
      let (bins, e, v, _) =
        pack_first_fit-IsPacking p.bin_capacity lengths prepare_decreasing
          (prepare_decreasing-SameItems lengths) packable.short in
      (bins, e, v)
  pack_implementation-IsPacking first_fit_shuffle =
      let (bins, e, v, _) =
        pack_first_fit-IsPacking p.bin_capacity lengths (prepare_shuffled shuffle)
          (shuffled-SameItems shuffle shuffles lengths) packable.short in
      (bins, e, v)
  pack_implementation-IsPacking modified_first_fit_decreasing =
      let (bins, e, v, _) =
        pack_modified-IsPacking p.bin_capacity lengths packable.room packable.positive
          packable.short in
      (bins, e, v)

  -- What `pack` returns or raises.
  abbrev pub PackResult : PackingAlgorithm → ℕ → Outcome PackingError Bins → Type 0
  PackResult algorithm k result =
      ((bins : Bins) × (result ≡ ok bins)
        × IsPacking p.bin_capacity lengths bins
        × (at_least p.min_bin_count 0 ≤ length bins)
        × (length bins % k ≡ 0))
      ⊎ ((result ≡ raise not_enough_sequences)
          × ((bins : Bins) × (pack_implementation shuffle algorithm p lengths ≡ ok bins)
              × (length lengths < target_bin_count p (length bins))))

  -- For lengths of 1 up to the (positive) capacity, whichever the algorithm: `pack` returns bins
  -- that hold every index exactly once, none over the capacity and none empty, whose number is
  -- not below the minimum and is a multiple of the setting `k`; or it raises the error that there
  -- are not enough sequences, and then there are fewer sequences than the bins that the settings
  -- ask for when the algorithm has packed them.
  pub pack-PackResult :
      (algorithm : PackingAlgorithm) (k : ℕ)
      → p.bin_count_multiple ≡ some k
      → 1 ≤ k
      → PackResult algorithm k (pack shuffle algorithm p lengths)
  unfolding pack
  pack-PackResult algorithm k multiple one =
      let (bins, e, v) = pack_implementation-IsPacking algorithm in
      let least = target_bin_count-multiple p k (length bins) multiple one in
      elim (dec_le (target_bin_count p (length bins)) (length lengths)) [
        | yes enough ↦
            let (bins', e', len, v') =
              adjust_bin_count-IsPacking p p.bin_capacity lengths bins v enough in
            inl (
              bins',
              rw e e',
              v',
              omega (arith, len, least.0, at_least_mono p.min_bin_count (length bins)),
              ap (λ n. n % k) len ∙ least.1,
            )
        | no few ↦ inr (
          rw e (adjust_bin_count-raises p p.bin_capacity lengths bins v (omega arith)),
          (bins, e, omega arith),
        )
      ]

-- For lengths of 1 up to the (positive) capacity the modified first-fit-decreasing packer returns
-- at most twice as many bins as any packing of the same sequences into bins of the same capacity
-- has.
pub pack_modified-le-twice :
    (capacity : ℕ) (lengths : List ℕ)
    → IsPackable capacity lengths
    → (other : Bins) → IsPacking capacity lengths other
    → (bins : Bins) × (pack_modified capacity lengths ≡ ok bins) × (length bins ≤ 2 * length other)
pack_modified-le-twice capacity lengths packable other q =
    let (bins, e, v, t) =
      pack_modified-IsPacking capacity lengths packable.room packable.positive packable.short in
    (bins, e, at_most_twice capacity lengths bins other v t q)
