-- ===== src/Packing/Packer.antt =====
-- The base class `SequencePacker`: its configuration, its errors and the helpers of its
-- subclasses (nemo_rl/data/packing/algorithms.py). A sequence length and the capacity are
-- numbers from 0 on; the two bin-count settings are integers until the constructor has
-- refused the negative ones.
use ne_mo_rl.Common.{
  ℕ, suc, ◌+◌, ◌-◌, ◌/◌, Bool, ◌||◌, ◌&&◌, Option, none, some, List, [], ◌∷◌, ltb, leb, ◌==◌,
  if◌then◌else◌, max, Outcome, ok, raise, ◌>>=◌, sum_by, sort_by, get_or, ℤ, pos, negsuc,
}

pub data PackingError : Type 0 where
  min_bin_count_negative bin_count_multiple_not_positive : PackingError
  not_enough_sequences insufficient_to_redistribute : PackingError
  exceeds_capacity : ℕ → PackingError
  capacity_not_positive lengths_not_positive unknown_algorithm index_error : PackingError

abbrev pub Bin : Type 0
Bin = List ℕ

abbrev pub Bins : Type 0
Bins = List Bin

pub record SequencePacker : Type 0 where
  pub bin_capacity : ℕ
  pub min_bin_count : Option ℕ
  pub bin_count_multiple : Option ℕ

-- `if min_bin_count is not None and min_bin_count < 0: raise`
check_min : Option ℤ → Outcome PackingError (Option ℕ)
check_min none = ok none
check_min (some (pos n)) = ok (some n)
check_min (some (negsuc n)) = raise min_bin_count_negative

-- `if bin_count_multiple is not None and bin_count_multiple < 1: raise`
check_multiple : Option ℤ → Outcome PackingError (Option ℕ)
check_multiple none = ok none
check_multiple (some (pos n)) =
    if ltb n 1 then raise bin_count_multiple_not_positive else ok (some n)
check_multiple (some (negsuc n)) = raise bin_count_multiple_not_positive

unfoldable pub init : ℕ → Option ℤ → Option ℤ → Outcome PackingError SequencePacker
unfolding check_min check_multiple
init capacity min_count multiple = do
  m ← check_min min_count
  k ← check_multiple multiple
  ok (record { bin_capacity = capacity; min_bin_count = m; bin_count_multiple = k })

-- The sequences of a bin, weighed by the lengths that their indices stand for.
abbrev pub load : List ℕ → Bin → ℕ
load lengths = sum_by (λ i. get_or lengths i 0)

-- `_validate_sequence_lengths`
unfoldable pub validate_sequence_lengths : ℕ → List ℕ → Outcome PackingError (Unit {0})
validate_sequence_lengths capacity [] = ok tt
validate_sequence_lengths capacity (n ∷ rest) =
    if ltb capacity n then raise (exceeds_capacity n) else validate_sequence_lengths capacity rest

-- `[(length, i) for i, length in enumerate(sequence_lengths)]`
unfoldable pub enumerate_from : ℕ → List ℕ → List (ℕ × ℕ)
enumerate_from i [] = []
enumerate_from i (n ∷ rest) = (n, i) ∷ enumerate_from (suc i) rest

-- The order of tuples, largest first: by length, then by index.
abbrev pub descending : ℕ × ℕ → ℕ × ℕ → Bool
descending (a, i) (b, j) = ltb b a || (a == b && leb j i)

-- `_create_indexed_lengths`
unfoldable pub create_indexed_lengths : List ℕ → Bool → List (ℕ × ℕ)
unfolding enumerate_from sort_by
create_indexed_lengths lengths reverse =
    let indexed = enumerate_from 0 lengths in
    if reverse then sort_by descending indexed else indexed

-- `_estimate_bins_needed`: `max(1, ceil(total / capacity))`
unfoldable pub estimate_bins_needed : ℕ → List ℕ → ℕ
estimate_bins_needed capacity lengths = max 1 ((sum_by (λ n. n) lengths + capacity - 1) / capacity)
