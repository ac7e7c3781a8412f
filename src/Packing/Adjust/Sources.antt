-- ===== src/Packing/Adjust/Sources.antt =====
-- Where `_adjust_bin_count` takes sequences from (nemo_rl/data/packing/algorithms.py).
use ne_mo_rl.Common.{
  ℕ, zero, suc, ◌≤◌, ◌<◌, ◌≡◌, refl, ap, inl, inr, List, [], ◌∷◌, map, length, get_or, sum_by, Has,
  arith, Bool-cases, ltb,
}
use ne_mo_rl.Packing.Packer.{Bin, Bins}
use ne_mo_rl.Packing.Adjust.{find_source}

abbrev pub indices : List (ℕ × ℕ) → List ℕ
indices = map (λ p. p.1)

-- What the `while` finds: a bin with two sequences, no such bin before it.
abbrev pub Found : Bins → List (ℕ × ℕ) → List (ℕ × ℕ) → Type 0
Found bins sources [] = (j : ℕ) → Has j (indices sources) → length (get_or bins j []) ≤ 1
Found bins sources ((size, i) ∷ rest) =
    (1 < length (get_or bins i []))
    × ((j : ℕ)
        → Has j (indices sources)
        → 1 < length (get_or bins j [])
        → Has j (indices ((size, i) ∷ rest)))

module _ (bins : Bins) (size i : ℕ) (rest : List (ℕ × ℕ)) (h : length (get_or bins i []) ≤ 1) where
  none_later :
      Found bins rest []
      → (j : ℕ) → Has j (indices ((size, i) ∷ rest))
      → length (get_or bins j []) ≤ 1
  none_later f j (inl e) = rw e h
  none_later f j (inr m) = f j m

  some_later :
      (s k : ℕ) (found : List (ℕ × ℕ))
      → Found bins rest ((s, k) ∷ found)
      → (j : ℕ) → Has j (indices ((size, i) ∷ rest))
      → 1 < length (get_or bins j [])
      → Has j (indices ((s, k) ∷ found))
  some_later s k found f j (inl e) lt =
      absurd (omega (arith, lt, h, ap (λ n. length (get_or bins n [])) e))
  some_later s k found f j (inr m) lt = f.1 j m lt

  skip_source : (found : List (ℕ × ℕ)) → Found bins rest found → Found bins ((size, i) ∷ rest) found
  skip_source [] f = none_later f
  skip_source ((s, k) ∷ found) f = (f.0, some_later s k found f)

pub find_source_lem :
    (bins : Bins) (sources : List (ℕ × ℕ)) → Found bins sources (find_source bins sources)
unfolding find_source
find_source_lem bins [] = λ j m. absurd m
find_source_lem bins ((size, i) ∷ rest) = elim (Bool-cases (ltb 1 (length (get_or bins i [])))) [
  | inl e ↦ rw e (ground arith, λ j m lt. m)
  | inr e ↦ rw e (
      skip_source bins size i rest (ground arith) (find_source bins rest)
        (find_source_lem bins rest))
]

small-total :
    (bins : Bins) → ((i : ℕ) → length (get_or bins i []) ≤ 1) → sum_by length bins ≤ length bins
small-total [] h = omega arith
small-total (b ∷ bins) h = omega (arith, h 0, small-total bins (λ i. h (suc i)))

pub smaller-total :
    (bins : Bins) (new : ℕ)
    → ((i : ℕ) → length (get_or bins i []) ≤ 1)
    → new < length bins
    → get_or bins new [] ≡ []
    → sum_by length bins < length bins
smaller-total [] new h lt e = elim lt [ ]
smaller-total (b ∷ bins) zero h lt e = omega (arith, ap length e, small-total bins (λ i. h (suc i)))
smaller-total (b ∷ bins) (suc new) h lt e =
    omega (arith, h 0, smaller-total bins new (λ i. h (suc i)) (omega arith) e)

-- The invariant of the loop: a bin with two sequences is still to come among the sources, and
-- the bins from `new` on are empty.
pub record IsSpread (new : ℕ) (sources : List (ℕ × ℕ)) (bins : Bins) : Type 0 where
  pub reach : (j : ℕ) → 1 < length (get_or bins j []) → Has j (indices sources)
  pub fresh : (j : ℕ) → new ≤ j → get_or bins j [] ≡ []

sum_by-ones : (b : Bin) → sum_by (λ i. 1) b ≡ length b
sum_by-ones [] = refl
sum_by-ones (x ∷ b) = omega (arith, sum_by-ones b)

pub total_length : (bins : Bins) → sum_by (sum_by (λ i. 1)) bins ≡ sum_by length bins
total_length [] = refl
total_length (b ∷ bins) = omega (arith, sum_by-ones b, total_length bins)

-- `Strict` is what the facts on single bins rest on: that no bin was empty or over the capacity.
