-- ===== src/Packing/FirstFit.antt =====
-- `FirstFitPacker` and its two subclasses (nemo_rl/data/packing/algorithms.py).
pub mod Placement
pub mod Laws
pub mod Optimality
use ne_mo_rl.Common.{
  ℕ, zero, suc, ◌+◌, ◌-◌, ◌≡◌, Bool, true, false, Option, none, some, List, [], ◌∷◌, ◌++◌, ltb, leb,
  if◌then◌else◌, Outcome, ok, raise, length, sort_by,
}
use ne_mo_rl.Packing.Packer.{Bin, Bins, PackingError, exceeds_capacity, enumerate_from, descending}

-- The two lists that the loop keeps: the bins and the room that is left in each.
pub record FitState : Type 0 where
  pub bins : Bins
  pub bin_remaining : List ℕ

abbrev keep_first : Bin → ℕ → Option FitState → Option FitState
keep_first b r none = none
keep_first b r (some s) = some (record { bins = b ∷ s.bins; bin_remaining = r ∷ s.bin_remaining })

-- The inner `for`: the first bin with room for the sequence takes it.
unfoldable pub place : ℕ → ℕ → Bins → List ℕ → Option FitState
place n idx (b ∷ bins) (r ∷ remaining) =
    if leb n r
    then some (record { bins = (b ++ idx ∷ []) ∷ bins; bin_remaining = (r - n) ∷ remaining })
    else keep_first b r (place n idx bins remaining)
place n idx _ _ = none

-- One round of the outer `for`, for a sequence that is not longer than a bin.
unfoldable pub add_sequence : ℕ → ℕ → ℕ → FitState → FitState
unfolding place
add_sequence capacity n idx s = elim (place n idx s.bins s.bin_remaining) [
  | some s' ↦ s'
  | none ↦ record {
    bins = s.bins ++ (idx ∷ []) ∷ [];
    bin_remaining = s.bin_remaining ++ (capacity - n) ∷ [];
  }
]

unfoldable pub first_fit : ℕ → List (ℕ × ℕ) → FitState → Outcome PackingError Bins
unfolding add_sequence
first_fit capacity [] s = ok s.bins
first_fit capacity ((n, idx) ∷ rest) s =
    let placed = first_fit capacity rest (add_sequence capacity n idx s) in
    if ltb capacity n then raise (exceeds_capacity n) else placed

abbrev pub no_bins : FitState
no_bins = record { bins = []; bin_remaining = [] }

-- `FirstFitDecreasingPacker._prepare_sequences`
unfoldable pub prepare_decreasing : List ℕ → List (ℕ × ℕ)
unfolding enumerate_from sort_by
prepare_decreasing lengths = sort_by descending (enumerate_from 0 lengths)

-- `FirstFitShufflePacker._prepare_sequences`: `shuffle` stands for `random.shuffle`.
unfoldable pub prepare_shuffled : (List (ℕ × ℕ) → List (ℕ × ℕ)) → List ℕ → List (ℕ × ℕ)
unfolding enumerate_from
prepare_shuffled shuffle lengths = shuffle (enumerate_from 0 lengths)

-- `FirstFitPacker._pack_implementation` with the subclass's `_prepare_sequences`.
unfoldable pub pack_first_fit : (List ℕ → List (ℕ × ℕ)) → ℕ → List ℕ → Outcome PackingError Bins
unfolding first_fit
pack_first_fit prepare capacity lengths = first_fit capacity (prepare lengths) no_bins
