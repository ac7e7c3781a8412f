-- ===== src/Packing/FirstFit/Optimality.antt =====
-- How far first fit is from the best packing (nemo_rl/data/packing/algorithms.py).
use mathlib.Core.List.{Perm, Permᴰ}
use mathlib.Core.Logic.{∥∥₁_elim}
use native.Mathlib.Nat.{ℕ_set, mul-le-mul_right}
use native.Mathlib.Decide.{dec_le}
use ne_mo_rl.Common.{
  ℕ, ◌+◌, ◌*◌, ◌≤◌, ◌<◌, ◌≡◌, refl, sym, ap, ◌∙◌, List, [], ◌∷◌, length, sum_by, All,
  sum_by-flatten, arith, get_or, SameItems, ok,
}
use ne_mo_rl.Packing.Packer.{Bin, Bins, load, enumerate_from}
use ne_mo_rl.Packing.Spec.{IsPacking, AnyTwoExceed}
use ne_mo_rl.Packing.FirstFit.{pack_first_fit}
use ne_mo_rl.Packing.FirstFit.Laws.{pack_first_fit-IsPacking}

sum_by-Permᴰ : (w : ℕ → ℕ) {xs ys : List ℕ} → Permᴰ xs ys → sum_by w xs ≡ sum_by w ys
sum_by-Permᴰ w Permᴰ.nil = refl
sum_by-Permᴰ w (Permᴰ.cons e p) = omega (arith, ap w e, sum_by-Permᴰ w p)
sum_by-Permᴰ w (Permᴰ.swap e f) = omega (arith, ap w e, ap w f)
sum_by-Permᴰ w (Permᴰ.trans p q) = sum_by-Permᴰ w p ∙ sum_by-Permᴰ w q

pub sum_by-perm : (w : ℕ → ℕ) {xs ys : List ℕ} → Perm xs ys → sum_by w xs ≡ sum_by w ys
sum_by-perm w p = ∥∥₁_elim p (ℕ_set _ _) (sum_by-Permᴰ w)

module _ (capacity : ℕ) (lengths : List ℕ) where
  -- Of two packings of the same sequences each weighs as much as the other.
  same_weight :
      (w : ℕ → ℕ) (bins other : Bins)
      → IsPacking capacity lengths bins
      → IsPacking capacity lengths other
      → sum_by (sum_by w) bins ≡ sum_by (sum_by w) other
  same_weight w bins other p q =
      sym (sum_by-flatten w bins)
      ∙ sum_by-perm w p.items
      ∙ sym (sum_by-perm w q.items)
      ∙ sum_by-flatten w other

  load-le :
      (bins : Bins)
      → All (λ b. load lengths b ≤ capacity) bins
      → sum_by (load lengths) bins ≤ length bins * capacity
  load-le [] h = omega arith
  load-le (b ∷ bins) h = omega (arith, h.0, load-le bins h.1)

  exceed_total :
      (bins : Bins)
      → AnyTwoExceed capacity lengths bins
      → 2 ≤ length bins
      → length bins * capacity < 2 * sum_by (load lengths) bins
  exceed_total [] h two = absurd (omega arith)
  exceed_total (b ∷ []) h two = absurd (omega arith)
  exceed_total (b ∷ c ∷ []) h two = omega (arith, h.0.0)
  exceed_total (b ∷ c ∷ d ∷ []) h two = omega (arith, h.0.0, h.0.1.0, h.1.0.0)
  exceed_total (b ∷ c ∷ d ∷ e ∷ bins) h two =
      omega (arith, h.0.0, exceed_total (d ∷ e ∷ bins) h.1.1 (omega arith))

  some_bin :
      (bins other : Bins)
      → IsPacking capacity lengths bins
      → IsPacking capacity lengths other
      → 1 ≤ length bins
      → 1 ≤ length other
  some_bin [] other p q h = absurd (omega arith)
  some_bin (b ∷ bins) [] p q h =
      absurd (omega (arith, sized b, p.nonempty.0, same_weight (λ i. 1) (b ∷ bins) [] p q))
    where
      sized : (c : Bin) → sum_by (λ i. 1) c ≡ length c
      sized [] = refl
      sized (i ∷ c) = omega (arith, sized c)
  some_bin (b ∷ bins) (c ∷ other) p q h = omega arith

  half_of : (k m total : ℕ) → k * capacity < 2 * total → total ≤ m * capacity → k ≤ 2 * m
  half_of k m total h g = elim (dec_le k (2 * m)) [
    | yes p ↦ p
    | no p ↦ absurd (omega (arith, mul-le-mul_right capacity (more p)))
  ]
    where
      more : ¬ (k ≤ 2 * m) → 2 * m + 1 ≤ k
      more p = omega arith

  pub at_most_twice :
      (bins other : Bins)
      → IsPacking capacity lengths bins
      → AnyTwoExceed capacity lengths bins
      → IsPacking capacity lengths other
      → length bins ≤ 2 * length other
  at_most_twice [] other p t q = omega arith
  at_most_twice (b ∷ []) other p t q = omega (arith, some_bin (b ∷ []) other p q (omega arith))
  at_most_twice (b ∷ c ∷ bins) other p t q =
      half_of (length (b ∷ c ∷ bins)) (length other) (sum_by (load lengths) (b ∷ c ∷ bins))
        (exceed_total (b ∷ c ∷ bins) t (omega arith))
        (omega (
          arith,
          load-le other q.fits,
          same_weight (λ i. get_or lengths i 0) (b ∷ c ∷ bins) other p q,
        ))

  -- If no sequence is longer than a bin, first fit, in whatever order it takes the sequences,
  -- returns at most twice as many bins as any packing of the same sequences into bins of the
  -- same capacity has.
  pub pack_first_fit-le-twice :
      (prepare : List ℕ → List (ℕ × ℕ))
      → SameItems (prepare lengths) (enumerate_from 0 lengths)
      → All (λ n. n ≤ capacity) lengths
      → (other : Bins) → IsPacking capacity lengths other
      → (bins : Bins) × (pack_first_fit prepare capacity lengths ≡ ok bins)
        × (length bins ≤ 2 * length other)
  pack_first_fit-le-twice prepare same short other q =
      let (bins, e, p, t) = pack_first_fit-IsPacking capacity lengths prepare same short in
      (bins, e, at_most_twice bins other p t q)
