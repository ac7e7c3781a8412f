-- ===== src/Packing/Adjust.antt =====
-- `SequencePacker._adjust_bin_count` (nemo_rl/data/packing/algorithms.py): splits bins until
-- their number meets the minimum and the multiple.
pub mod Moves
pub mod Rounding
pub mod Target
pub mod Sources
pub mod Laws
use ne_mo_rl.Common.{
  ℕ, zero, suc, ◌+◌, ◌-◌, ◌%◌, ◌≡◌, Bool, true, false, Option, none, some, List, [], ◌∷◌, ◌++◌, ltb,
  ◌==◌, ◌||◌, ◌&&◌, leb, if◌then◌else◌, max, Outcome, ok, raise, length, get_or, set, replicate,
  sum_by, sort_by, map,
}
use ne_mo_rl.Packing.Packer.{
  Bin, Bins, SequencePacker, PackingError, not_enough_sequences, insufficient_to_redistribute,
  descending,
}

-- the last item that `pop()` takes, and what it leaves
unfoldable pub last_or : ℕ → List ℕ → ℕ
last_or d [] = d
last_or d (x ∷ xs) = last_or x xs

unfoldable pub drop_last : List ℕ → List ℕ
drop_last [] = []
drop_last (x ∷ []) = []
drop_last (x ∷ y ∷ xs) = x ∷ drop_last (y ∷ xs)

abbrev pub at_least : Option ℕ → ℕ → ℕ
at_least none n = n
at_least (some m) n = max n m

abbrev pub round_up : Option ℕ → ℕ → ℕ
round_up none n = n
round_up (some k) n = if n % k == 0 then n else n + (k - n % k)

-- The number of bins that is asked for.
unfoldable pub target_bin_count : SequencePacker → ℕ → ℕ
target_bin_count p current = round_up p.bin_count_multiple (at_least p.min_bin_count current)

-- `[(len(b), i) for i, b in enumerate(bins)]`
unfoldable pub bin_sizes_from : ℕ → Bins → List (ℕ × ℕ)
bin_sizes_from i [] = []
bin_sizes_from i (b ∷ rest) = (length b, i) ∷ bin_sizes_from (suc i) rest

-- The `while` over `bin_sizes[source_bin_idx:]`: what is left of it from the first bin that
-- has two sequences at least.
unfoldable pub find_source : Bins → List (ℕ × ℕ) → List (ℕ × ℕ)
find_source bins [] = []
find_source bins ((size, i) ∷ rest) =
    if ltb 1 (length (get_or bins i [])) then (size, i) ∷ rest else find_source bins rest

-- Moves the last sequence of bin `i` to bin `new`.
unfoldable pub move_one : Bins → ℕ → ℕ → Bins
unfolding last_or drop_last
move_one bins i new =
    let source = get_or bins i [] in
    let popped = set bins i (drop_last source) in
    set popped new (get_or popped new [] ++ last_or 0 source ∷ [])

-- The `for` over the `k` new bins from `new` on.
unfoldable pub redistribute : ℕ → ℕ → List (ℕ × ℕ) → Bins → Outcome PackingError Bins
unfolding find_source move_one
redistribute zero new sources bins = ok bins
redistribute (suc k) new sources bins = elim (find_source bins sources) [
  | [] ↦ raise insufficient_to_redistribute
  | (size, i) ∷ rest ↦ redistribute k (suc new) ((size, i) ∷ rest) (move_one bins i new)
]

unfoldable pub adjust_bin_count : SequencePacker → Bins → Outcome PackingError Bins
unfolding target_bin_count bin_sizes_from redistribute sort_by
adjust_bin_count p bins =
    let current = length bins in
    let target = target_bin_count p current in
    let total = sum_by length bins in
    let sources = sort_by descending (bin_sizes_from 0 bins) in
    if target == current
    then ok bins
    else if ltb total target
    then raise not_enough_sequences
    else redistribute (target - current) current sources (bins ++ replicate (target - current) [])
