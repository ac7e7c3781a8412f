-- ===== src/Packing/Concatenative/Laws.antt =====
-- The bins of the concatenative packer (nemo_rl/data/packing/algorithms.py).
use ne_mo_rl.Common.{
  ℕ, suc, ◌≤◌, ◌≡◌, refl, subst, zero, Option, none, some, List, [], ◌∷◌, ok, length, get_or, All,
  flatten, range_from, arith, ltb-false,
}
use ne_mo_rl.Packing.Packer.{Bins, load, enumerate_from, validate_sequence_lengths}
use ne_mo_rl.Packing.Spec.{NonEmpty, enumerate_from-sized}
use ne_mo_rl.Packing.Concatenative.{fill, pack_concatenative}
use ne_mo_rl.Packing.Concatenative.Greedy.{Greedy, Filled, fill-Filled, fill_first}

-- The first sequence of the first bin.
pub validate_ok :
    (capacity : ℕ) (lengths : List ℕ)
    → All (λ n. n ≤ capacity) lengths
    → validate_sequence_lengths capacity lengths ≡ ok tt
unfolding validate_sequence_lengths
validate_ok capacity [] h = refl
validate_ok capacity (n ∷ rest) h = rw (ltb-false capacity n h.0) (validate_ok capacity rest h.1)

-- No bin holds more sequences than a limit of one or more.
abbrev pub Limited : Option ℕ → Bins → Type 0
Limited none bins = Unit
Limited (some zero) bins = Unit
Limited (some (suc m)) bins = All (λ b. length b ≤ suc m) bins

Limited-below :
    (limit : Option ℕ) (bins : Bins)
    → ((m : ℕ) → limit ≡ some m → 1 ≤ m → All (λ b. length b ≤ m) bins)
    → Limited limit bins
Limited-below none bins h = tt
Limited-below (some zero) bins h = tt
Limited-below (some (suc m)) bins h = h (suc m) refl (omega arith)

module _ (capacity : ℕ) (limit : Option ℕ) (lengths : List ℕ) where
  -- The bins, one after the other, are the indices in their order; no bin is over the capacity or
  -- empty; a bin ends only where the next sequence would pass the capacity or the limit is
  -- reached; and with a limit of one or more no bin holds more sequences than that.
  pub record IsConcatenation (bins : Bins) : Type 0 where
    pub order : flatten bins ≡ range_from 0 (length lengths)
    pub fits : All (λ b. load lengths b ≤ capacity) bins
    pub nonempty : All NonEmpty bins
    pub greedy : Greedy capacity limit (λ i. get_or lengths i 0) bins
    pub limited : Limited limit bins

module _ (capacity : ℕ) (limit : Option ℕ) where
  fill-IsConcatenation :
      (lengths : List ℕ)
      → All (λ n. n ≤ capacity) lengths
      → IsConcatenation capacity limit lengths (fill capacity limit 0 lengths [] [] 0)
  unfolding fill flatten enumerate_from
  fill-IsConcatenation [] short = record {
    order = refl;
    fits = tt;
    nonempty = tt;
    greedy = tt;
    limited = Limited-below limit [] (λ m e one. tt);
  }
  fill-IsConcatenation (n ∷ rest) short =
      let sized = enumerate_from-sized (n ∷ rest) in
      let f =
        fill-Filled capacity limit (λ i. get_or (n ∷ rest) i 0) 1 0 rest [] sized.1 short.1
          (omega (arith, short.0)) in
      let g =
        subst
          (λ k.
            Filled capacity limit (λ i. get_or (n ∷ rest) i 0) 1 0 rest []
              (fill capacity limit 1 rest [] (0 ∷ []) k))
          (omega arith) f in
      rw (fill_first capacity limit n rest 0) (record {
        order = g.order;
        fits = g.fits;
        nonempty = g.nonempty;
        greedy = g.greedy;
        limited = Limited-below limit _ (λ m e one. g.limited m e one one);
      })

  -- If no sequence is longer than a bin, the concatenative packer returns bins that are, one after
  -- the other, the indices in their order; no bin is over the capacity or empty; a bin ends only
  -- where the next sequence would pass the capacity or the limit on the number of sequences is
  -- reached; and no bin holds more sequences than a limit of one or more.
  pub pack_concatenative-IsConcatenation :
      (lengths : List ℕ)
      → All (λ n. n ≤ capacity) lengths
      → (bins : Bins) × (pack_concatenative capacity limit lengths ≡ ok bins)
        × IsConcatenation capacity limit lengths bins
  unfolding pack_concatenative
  pack_concatenative-IsConcatenation lengths short = (
    fill capacity limit 0 lengths [] [] 0,
    rw (validate_ok capacity lengths short),
    fill-IsConcatenation lengths short,
  )
