-- ===== src/Packing/Tests.antt =====
-- Runs of the packers (nemo_rl/data/packing/algorithms.py), and the theorems at concrete inputs.
use ne_mo_rl.Common.{
  ℕ, ◌*◌, ◌≤◌, ◌≡◌, refl, true, none, some, List, [], ◌∷◌, length, leb, arith, ok, raise, sort_by,
  sum_by-sort_by, perm_of_SameItems, pos, negsuc, flatten,
}
use ne_mo_rl.Packing.Packer.{
  Bins, SequencePacker, unknown_algorithm, min_bin_count_negative, bin_count_multiple_not_positive,
  exceeds_capacity, init, estimate_bins_needed, create_indexed_lengths,
}
use ne_mo_rl.Packing.Spec.{IsPacking, AnyTwoExceed}
use ne_mo_rl.Packing.Adjust.{adjust_bin_count, target_bin_count}
use ne_mo_rl.Packing.Adjust.Target.{adjust_bin_count-IsPacking}
use ne_mo_rl.Packing.Concatenative.{pack_concatenative}
use ne_mo_rl.Packing.Concatenative.Laws.{IsConcatenation, pack_concatenative-IsConcatenation}
use ne_mo_rl.Packing.FirstFit.{pack_first_fit, prepare_decreasing}
use ne_mo_rl.Packing.FirstFit.Laws.{pack_first_fit-IsPacking, prepare_decreasing-SameItems}
use ne_mo_rl.Packing.FirstFit.Optimality.{pack_first_fit-le-twice}
use ne_mo_rl.Packing.Modified.{pack_modified}
use ne_mo_rl.Packing.Modified.Laws.{pack_modified-IsPacking}
use ne_mo_rl.Packing.Factory.{Shuffle, first_fit_shuffle, pack, get_packer, named, codes}
use ne_mo_rl.Packing.Factory.Laws.{
  IsPackable, Shuffles, PackResult, pack-PackResult, pack_modified-le-twice,
}

-- The docstring's example of the concatenative packer.
concatenative_five :
    pack_concatenative 5 none (4 ∷ 1 ∷ 3 ∷ 2 ∷ 1 ∷ 3 ∷ 4 ∷ 5 ∷ [])
    ≡ ok ((0 ∷ 1 ∷ []) ∷ (2 ∷ 3 ∷ []) ∷ (4 ∷ 5 ∷ []) ∷ (6 ∷ []) ∷ (7 ∷ []) ∷ [])
unfolding pack_concatenative
concatenative_five = refl

abbrev sample : List ℕ
sample = 6 ∷ 4 ∷ 3 ∷ 2 ∷ 2 ∷ 1 ∷ 5 ∷ []

abbrev sample_bins : Bins
sample_bins = (0 ∷ 1 ∷ []) ∷ (4 ∷ 5 ∷ []) ∷ (6 ∷ 2 ∷ 3 ∷ []) ∷ []

modified_sample : pack_modified 10 sample ≡ ok sample_bins
unfolding pack_modified
modified_sample = refl

decreasing_sample :
    pack_first_fit prepare_decreasing 10 sample
    ≡ ok ((0 ∷ 1 ∷ []) ∷ (6 ∷ 2 ∷ 4 ∷ []) ∷ (3 ∷ 5 ∷ []) ∷ [])
unfolding pack_first_fit prepare_decreasing
decreasing_sample = refl

too_long : pack_first_fit prepare_decreasing 5 sample ≡ raise (exceeds_capacity 6)
unfolding pack_first_fit prepare_decreasing
too_long = refl

-- Three bins made four, for a multiple of 4: the largest bin gives its last sequence.
abbrev four_bins : SequencePacker
four_bins = record { bin_capacity = 10; min_bin_count = some 2; bin_count_multiple = some 4 }

adjusted_sample :
    adjust_bin_count four_bins sample_bins
    ≡ ok ((0 ∷ 1 ∷ []) ∷ (4 ∷ 5 ∷ []) ∷ (6 ∷ 2 ∷ []) ∷ (3 ∷ []) ∷ [])
unfolding adjust_bin_count
adjusted_sample = refl

packer_by_name :
    get_packer (named (codes "first_fit_Shuffle")) 10 (some (pos 2)) (some (pos 4))
    ≡ ok (first_fit_shuffle, four_bins)
unfolding get_packer
packer_by_name = refl

packer_errors :
    (get_packer (named (codes "best_fit")) 10 none none ≡ raise unknown_algorithm)
    × (init 10 (some (negsuc 0)) none ≡ raise min_bin_count_negative)
    × (init 10 none (some (pos 0)) ≡ raise bin_count_multiple_not_positive)
unfolding get_packer
packer_errors = (refl, refl, refl)

estimate : estimate_bins_needed 10 sample ≡ 3
unfolding estimate_bins_needed
estimate = refl

indexed : create_indexed_lengths (2 ∷ 5 ∷ 2 ∷ []) true ≡ (5, 1) ∷ (2, 2) ∷ (2, 0) ∷ []
unfolding create_indexed_lengths
indexed = refl

sample-IsPackable : IsPackable 10 sample
sample-IsPackable = record { room = omega arith; positive = omega arith; short = omega arith }

sample_bins-IsPacking : IsPacking 10 sample sample_bins
unfolding flatten
sample_bins-IsPacking = record {
  items = perm_of_SameItems _ _ (λ w. omega arith);
  fits = omega arith;
  nonempty = omega arith;
}

-- A shuffle: by length, shortest first.
abbrev shuffle : Shuffle
shuffle = sort_by (λ p q. leb p.0 q.0)

shuffle-Shuffles : Shuffles shuffle
shuffle-Shuffles items w = sum_by-sort_by (λ p q. leb p.0 q.0) w items

pack-PackResult_example :
    PackResult shuffle shuffle-Shuffles four_bins sample sample-IsPackable first_fit_shuffle 4
      (pack shuffle first_fit_shuffle four_bins sample)
pack-PackResult_example =
    pack-PackResult shuffle shuffle-Shuffles four_bins sample sample-IsPackable first_fit_shuffle 4
      refl (omega arith)

pack_modified-IsPacking_example :
    (bins : Bins) × (pack_modified 10 sample ≡ ok bins)
    × IsPacking 10 sample bins
    × AnyTwoExceed 10 sample bins
pack_modified-IsPacking_example =
    pack_modified-IsPacking 10 sample (omega arith) (omega arith) (omega arith)

pack_modified-le-twice_example :
    (bins : Bins) × (pack_modified 10 sample ≡ ok bins) × (length bins ≤ 2 * 3)
pack_modified-le-twice_example =
    pack_modified-le-twice 10 sample sample-IsPackable sample_bins sample_bins-IsPacking

pack_first_fit-IsPacking_example :
    (bins : Bins) × (pack_first_fit prepare_decreasing 10 sample ≡ ok bins)
    × IsPacking 10 sample bins
    × AnyTwoExceed 10 sample bins
pack_first_fit-IsPacking_example =
    pack_first_fit-IsPacking 10 sample prepare_decreasing (prepare_decreasing-SameItems sample)
      (omega arith)

pack_first_fit-le-twice_example :
    (bins : Bins) × (pack_first_fit prepare_decreasing 10 sample ≡ ok bins) × (length bins ≤ 2 * 3)
pack_first_fit-le-twice_example =
    pack_first_fit-le-twice 10 sample prepare_decreasing (prepare_decreasing-SameItems sample)
      (omega arith) sample_bins sample_bins-IsPacking

pack_concatenative-IsConcatenation_example :
    (bins : Bins) × (pack_concatenative 10 (some 2) sample ≡ ok bins)
    × IsConcatenation 10 (some 2) sample bins
pack_concatenative-IsConcatenation_example =
    pack_concatenative-IsConcatenation 10 (some 2) sample (omega arith)

target_four : target_bin_count four_bins 3 ≡ 4
unfolding target_bin_count
target_four = refl

adjust_bin_count-IsPacking_example :
    (bins : Bins) × (adjust_bin_count four_bins sample_bins ≡ ok bins)
    × (length bins ≡ target_bin_count four_bins 3)
    × IsPacking 10 sample bins
adjust_bin_count-IsPacking_example =
    adjust_bin_count-IsPacking four_bins 10 sample sample_bins sample_bins-IsPacking
      (rw target_four (omega arith))

-- Eight bins of seven sequences.
abbrev eight_bins : SequencePacker
eight_bins = record { bin_capacity = 10; min_bin_count = some 5; bin_count_multiple = some 8 }

target_eight : target_bin_count eight_bins 3 ≡ 8
unfolding target_bin_count
target_eight = refl
