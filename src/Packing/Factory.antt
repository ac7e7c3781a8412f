-- ===== src/Packing/Factory.antt =====
-- `SequencePacker.pack` and `get_packer` (nemo_rl/data/packing/algorithms.py), for a packer that
-- collects no metrics. `shuffle` stands for `random.shuffle`.
pub mod Laws
use Prim.Native.String.{String, len}
use Prim.Native.Char.{code}
use Prim.Native.String
use text.Mathlib.Text.{◌==◌ as str_eq}
use ne_mo_rl.Common.{
  ℕ, ◌+◌, ◌-◌, Bool, ◌&&◌, Option, none, some, List, [], ◌∷◌, map, leb, if◌then◌else◌, Outcome, ok,
  raise, ◌>>=◌, ◌==◌, true, false, ℤ,
}
use ne_mo_rl.Packing.Packer.{Bins, SequencePacker, PackingError, unknown_algorithm, init}
use ne_mo_rl.Packing.Adjust.{adjust_bin_count}
use ne_mo_rl.Packing.Concatenative.{pack_concatenative}
use ne_mo_rl.Packing.FirstFit.{pack_first_fit, prepare_decreasing, prepare_shuffled}
use ne_mo_rl.Packing.Modified.{pack_modified}

-- `PackingAlgorithm`; each has one class of packers.
pub data PackingAlgorithm : Type 0 where
  concatenative first_fit_decreasing first_fit_shuffle : PackingAlgorithm
  modified_first_fit_decreasing : PackingAlgorithm

abbrev pub Shuffle : Type 0
Shuffle = List (ℕ × ℕ) → List (ℕ × ℕ)

-- `_pack_implementation` of the algorithm's class; `max_sequences_per_bin` is -1 there.
unfoldable pub pack_implementation :
    Shuffle → PackingAlgorithm → SequencePacker → List ℕ → Outcome PackingError Bins
unfolding pack_concatenative pack_first_fit prepare_decreasing prepare_shuffled pack_modified
pack_implementation shuffle concatenative p lengths = pack_concatenative p.bin_capacity none lengths
pack_implementation shuffle first_fit_decreasing p lengths =
    pack_first_fit prepare_decreasing p.bin_capacity lengths
pack_implementation shuffle first_fit_shuffle p lengths =
    pack_first_fit (prepare_shuffled shuffle) p.bin_capacity lengths
pack_implementation shuffle modified_first_fit_decreasing p lengths =
    pack_modified p.bin_capacity lengths

unfoldable pub pack :
    Shuffle → PackingAlgorithm → SequencePacker → List ℕ → Outcome PackingError Bins
unfolding pack_implementation adjust_bin_count
pack shuffle algorithm p lengths = do
  bins ← pack_implementation shuffle algorithm p lengths
  adjust_bin_count p bins

-- A text as its code points, and `upper()` of a text in ASCII.
abbrev pub codes : String → List ℕ
codes String.[] = []
codes (String.◌∷◌ c s) = code c ∷ codes s

unfoldable pub upper : List ℕ → List ℕ
upper [] = []
upper (c ∷ rest) = (if leb b'a' c && leb c b'z' then c - 32 else c) ∷ upper rest

unfoldable pub same_codes : List ℕ → List ℕ → Bool
same_codes [] [] = true
same_codes (c ∷ s) (d ∷ t) = c == d && same_codes s t
same_codes _ _ = false

-- `PackingAlgorithm[name]`
unfoldable pub algorithm_named : List ℕ → Option PackingAlgorithm
unfolding same_codes
algorithm_named name =
    if same_codes name (codes "CONCATENATIVE")
    then some concatenative
    else if same_codes name (codes "FIRST_FIT_DECREASING")
    then some first_fit_decreasing
    else if same_codes name (codes "FIRST_FIT_SHUFFLE")
    then some first_fit_shuffle
    else if same_codes name (codes "MODIFIED_FIRST_FIT_DECREASING")
    then some modified_first_fit_decreasing
    else none

pub data AlgorithmArgument : Type 0 where
  member : PackingAlgorithm → AlgorithmArgument
  named : List ℕ → AlgorithmArgument

unfoldable pub get_packer :
    AlgorithmArgument
    → ℕ
    → Option ℤ
    → Option ℤ
    → Outcome PackingError (PackingAlgorithm × SequencePacker)
unfolding algorithm_named upper init
get_packer (member a) capacity min_count multiple = do
  p ← init capacity min_count multiple
  ok (a, p)
get_packer (named name) capacity min_count multiple = elim (algorithm_named (upper name)) [
  | none ↦ raise unknown_algorithm
  | some a ↦ (do p ← init capacity min_count multiple; ok (a, p))
]
