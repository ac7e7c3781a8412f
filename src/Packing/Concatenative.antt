-- ===== src/Packing/Concatenative.antt =====
-- `ConcatenativePacker` (nemo_rl/data/packing/algorithms.py).
pub mod Greedy
pub mod Laws
use ne_mo_rl.Common.{
  ℕ, zero, suc, ◌+◌, ◌≡◌, Bool, true, false, ◌||◌, Option, none, some, List, [], ◌∷◌, ◌++◌, ltb,
  leb, if◌then◌else◌, Outcome, ok, raise, ◌>>=◌, ◌>>◌, length,
}
use ne_mo_rl.Packing.Packer.{Bin, Bins, PackingError, validate_sequence_lengths}

-- `max_sequences_per_bin` is `none` where the class has -1.
abbrev pub limit_reached : Option ℕ → Bin → Bool
limit_reached none bin = false
limit_reached (some m) bin = leb m (length bin)

-- `if current_bin: bins.append(current_bin)`
abbrev pub append_nonempty : Bins → Bin → Bins
append_nonempty bins [] = bins
append_nonempty bins (i ∷ bin) = bins ++ (i ∷ bin) ∷ []

-- The `for` over the lengths from index `i` on.
unfoldable pub fill : ℕ → Option ℕ → ℕ → List ℕ → Bins → Bin → ℕ → Bins
fill capacity limit i [] bins bin filled = append_nonempty bins bin
fill capacity limit i (n ∷ rest) bins bin filled =
    let opened = fill capacity limit (suc i) rest (append_nonempty bins bin) (i ∷ []) n in
    let extended = fill capacity limit (suc i) rest bins (bin ++ i ∷ []) (filled + n) in
    if ltb capacity (filled + n) || limit_reached limit bin then opened else extended

unfoldable pub pack_concatenative : ℕ → Option ℕ → List ℕ → Outcome PackingError Bins
unfolding validate_sequence_lengths fill
pack_concatenative capacity limit lengths = do
  validate_sequence_lengths capacity lengths
  ok (fill capacity limit 0 lengths [] [] 0)
