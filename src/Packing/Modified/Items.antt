-- ===== src/Packing/Modified/Items.antt =====
-- The items of the modified packer and their sums (nemo_rl/data/packing/algorithms.py).
use ne_mo_rl.Common.{
  ℕ, suc, ◌+◌, ◌≤◌, ◌<◌, ◌≡◌, refl, ap, ◌∙◌, Bool, true, List, [], ◌∷◌, ==_iff, ◌==◌, length,
  get_or, sum_by, sum_by-map, All, arith, range_from,
}
use ne_mo_rl.Packing.Spec.{NonEmpty, failures, All_of_failures}
use ne_mo_rl.Packing.Modified.{Item, index, size_of, items_from, to_indices}
use ne_mo_rl.Packing.Modified.Moved.{total}

pub All_of_total :
    (t : Item → Bool) (bins : List (List Item))
    → sum_by (failures t) bins ≡ 0
    → All (All (λ p. t p ≡ true)) bins
All_of_total t [] h = tt
All_of_total t (b ∷ bins) h =
    (All_of_failures t b (omega (arith, h)), All_of_total t bins (omega (arith, h)))

pub sum_by-items_from :
    (w : ℕ → ℕ) (i : ℕ) (lengths : List ℕ)
    → sum_by (λ p. w (index p)) (items_from i lengths) ≡ sum_by w (range_from i (length lengths))
unfolding items_from
sum_by-items_from w i [] = refl
sum_by-items_from w i (n ∷ rest) = omega (arith, sum_by-items_from w (suc i) rest)

pub items_from-sized :
    (size : ℕ → ℕ) (i : ℕ) (lengths : List ℕ)
    → ((k : ℕ) → k < length lengths → size (i + k) ≡ get_or lengths k 0)
    → All (λ p. (size (index p) == size_of p) ≡ true) (items_from i lengths)
unfolding items_from
items_from-sized size i [] h = tt
items_from-sized size i (n ∷ rest) h = (
  (==_iff (size i) n).1 (ap size (omega arith) ∙ h 0 (omega arith)),
  items_from-sized size (suc i) rest (λ k lt. ap size (omega arith) ∙ h (suc k) (omega arith)),
)

pub items_from-short :
    (capacity i : ℕ) (lengths : List ℕ)
    → All (λ n. n ≤ capacity) lengths
    → All (λ p. size_of p ≤ capacity) (items_from i lengths)
unfolding items_from
items_from-short capacity i [] h = tt
items_from-short capacity i (n ∷ rest) h = (h.0, items_from-short capacity (suc i) rest h.1)

pub total-to_indices :
    (w : ℕ → ℕ) (bins : List (List Item))
    → sum_by (sum_by w) (to_indices bins) ≡ total (λ p. w (index p)) bins
unfolding to_indices
total-to_indices w [] = refl
total-to_indices w ([] ∷ bins) = omega (arith, total-to_indices w bins)
total-to_indices w ((p ∷ b) ∷ bins) = omega (arith, total-to_indices w bins, sum_by-map w index b)

pub to_indices-NonEmpty : (bins : List (List Item)) → All NonEmpty (to_indices bins)
unfolding to_indices
to_indices-NonEmpty [] = tt
to_indices-NonEmpty ([] ∷ bins) = to_indices-NonEmpty bins
to_indices-NonEmpty ((p ∷ b) ∷ bins) = (omega arith, to_indices-NonEmpty bins)
