-- ===== src/Packing/Spec.antt =====
-- What a packing is, whichever algorithm has found it, and facts about the indexed lengths
-- from which the algorithms start (nemo_rl/data/packing/algorithms.py).
use ne_mo_rl.Common.{
  ℕ, suc, ◌+◌, ◌≤◌, ◌<◌, ◌≡◌, refl, Bool, true, List, [], ◌∷◌, ==_iff, if◌then◌else◌, length,
  get_or, sum_by, SameItems, All, All_mono, flatten, range_from, perm_of_SameItems, sum_by-flatten,
  arith, ◌==◌, leb, leb→le, le→leb, ap, ◌∙◌,
}
use mathlib.Core.List.{Perm}
use ne_mo_rl.Packing.Packer.{Bin, Bins, load, enumerate_from}

abbrev pub NonEmpty : Bin → Type 0
NonEmpty b = 0 < length b

-- Every sequence in exactly one bin, no bin over the capacity, no bin empty.
pub record IsPacking (capacity : ℕ) (lengths : List ℕ) (bins : Bins) : Type 0 where
  pub items : Perm (flatten bins) (range_from 0 (length lengths))
  pub fits : All (λ b. load lengths b ≤ capacity) bins
  pub nonempty : All NonEmpty bins

-- Any two bins hold more than one capacity together.
abbrev pub AnyTwoExceed : ℕ → List ℕ → Bins → Type 0
AnyTwoExceed capacity lengths [] = Unit
AnyTwoExceed capacity lengths (b ∷ bs) =
    All (λ c. capacity < load lengths b + load lengths c) bs × AnyTwoExceed capacity lengths bs

module _ {ℓ} {A : Type ℓ} (p : A → Bool) where
  abbrev pub failures : List A → ℕ
  failures = sum_by (λ x. if p x then 0 else 1)

  pub failures_of_All : (xs : List A) → All (λ x. p x ≡ true) xs → failures xs ≡ 0
  failures_of_All [] h = refl
  failures_of_All (x ∷ xs) h = ground (arith, failures_of_All xs h.1)

  pub All_of_failures : (xs : List A) → failures xs ≡ 0 → All (λ x. p x ≡ true) xs
  All_of_failures [] h = tt
  All_of_failures (x ∷ xs) h = (ground arith, All_of_failures xs (ground arith))

  -- a test that all items of one list pass is passed by all items of a rearrangement
  pub All-SameItems :
      (xs ys : List A) → SameItems xs ys → All (λ x. p x ≡ true) ys → All (λ x. p x ≡ true) xs
  All-SameItems xs ys same h = All_of_failures xs (same _ ∙ failures_of_All ys h)

-- Every pair of `enumerate` holds the length that stands at its index.
enumerate-sized :
    (size : ℕ → ℕ) (i : ℕ) (lengths : List ℕ)
    → ((k : ℕ) → k < length lengths → size (i + k) ≡ get_or lengths k 0)
    → All (λ p. size p.1 ≡ p.0) (enumerate_from i lengths)
unfolding enumerate_from
enumerate-sized size i [] h = tt
enumerate-sized size i (n ∷ rest) h = (
  ap size (omega arith) ∙ h 0 (omega arith),
  enumerate-sized size (suc i) rest (λ k lt. ap size (omega arith) ∙ h (suc k) (omega arith)),
)

pub enumerate_from-sized :
    (lengths : List ℕ) → All (λ p. get_or lengths p.1 0 ≡ p.0) (enumerate_from 0 lengths)
enumerate_from-sized lengths =
    enumerate-sized (λ i. get_or lengths i 0) 0 lengths
      (λ k lt. ap (λ j. get_or lengths j 0) (omega arith))

pub sum_by-enumerate_from :
    (w : ℕ → ℕ) (i : ℕ) (lengths : List ℕ)
    → sum_by (λ p. w p.1) (enumerate_from i lengths) ≡ sum_by w (range_from i (length lengths))
unfolding enumerate_from
sum_by-enumerate_from w i [] = refl
sum_by-enumerate_from w i (n ∷ rest) = omega (arith, sum_by-enumerate_from w (suc i) rest)

pub enumerate_from-All {ℓ} :
    (P : ℕ → Type ℓ) (i : ℕ) (lengths : List ℕ)
    → All P lengths
    → All (λ p. P p.0) (enumerate_from i lengths)
unfolding enumerate_from
enumerate_from-All P i [] h = tt
enumerate_from-All P i (n ∷ rest) h = (h.0, enumerate_from-All P (suc i) rest h.1)

pub All-enumerate_from {ℓ} :
    (P : ℕ → Type ℓ) (i : ℕ) (lengths : List ℕ)
    → All (λ p. P p.0) (enumerate_from i lengths)
    → All P lengths
unfolding enumerate_from
All-enumerate_from P i [] h = tt
All-enumerate_from P i (n ∷ rest) h = (h.0, All-enumerate_from P (suc i) rest h.1)

module _ (lengths : List ℕ) (items : List (ℕ × ℕ))
    (same : SameItems items (enumerate_from 0 lengths)) where
  -- so does every pair of a rearrangement,
  pub rearranged-sized : All (λ p. get_or lengths p.1 0 ≡ p.0) items
  rearranged-sized =
      All_mono (λ p. (==_iff (get_or lengths p.1 0) p.0).0) items
        (All-SameItems (λ p. get_or lengths p.1 0 == p.0) items (enumerate_from 0 lengths) same
          (All_mono (λ p. (==_iff (get_or lengths p.1 0) p.0).1) (enumerate_from 0 lengths)
            (enumerate_from-sized lengths)))

  -- and its lengths are no longer than the longest.
  pub rearranged-bounded :
      (capacity : ℕ) → All (λ n. n ≤ capacity) lengths → All (λ p. p.0 ≤ capacity) items
  rearranged-bounded capacity h =
      All_mono (λ p. leb→le p.0 capacity) items
        (All-SameItems (λ p. leb p.0 capacity) items (enumerate_from 0 lengths) same
          (All_mono (λ p. le→leb p.0 capacity) (enumerate_from 0 lengths)
            (enumerate_from-All (λ n. n ≤ capacity) 0 lengths h)))

-- Bins that hold the pairs' indices are a rearrangement of all indices.
pub perm_of_items :
    (lengths : List ℕ) (bins : Bins)
    → ((w : ℕ → ℕ) → sum_by (sum_by w) bins ≡ sum_by (λ p. w p.1) (enumerate_from 0 lengths))
    → Perm (flatten bins) (range_from 0 (length lengths))
perm_of_items lengths bins h =
    perm_of_SameItems (flatten bins) (range_from 0 (length lengths))
      (λ w. sum_by-flatten w bins ∙ h w ∙ sum_by-enumerate_from w 0 lengths)
