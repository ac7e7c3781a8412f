-- ===== src/Packing/Concatenative/Greedy.antt =====
-- The loop of the concatenative packer (nemo_rl/data/packing/algorithms.py).
use ne_mo_rl.Common.{
  ℕ, suc, ◌+◌, ◌≤◌, ◌<◌, ◌≡◌, refl, sym, ap, subst, ◌∙◌, Bool, true, false, ◌||◌, Option, none,
  some, List, [], ◌∷◌, ◌++◌, append-nil, append_assoc, ltb, length, length-append, sum_by,
  sum_by-append, All, flatten, range_from, arith, Bool-cases, inl, inr, ◌⊎◌,
}
use ne_mo_rl.Packing.Packer.{Bin, Bins, enumerate_from}
use ne_mo_rl.Packing.Spec.{NonEmpty}
use ne_mo_rl.Packing.Concatenative.{limit_reached, fill}

abbrev first_of : Bins → Option ℕ
first_of [] = none
first_of ([] ∷ bins) = none
first_of ((i ∷ b) ∷ bins) = some i

module _ (capacity : ℕ) (limit : Option ℕ) where
  abbrev full : Bin → ℕ → ℕ → Bool
  full bin filled n = ltb capacity (filled + n) || limit_reached limit bin

  -- the bins that are closed stay in front
  fill-append :
      (i : ℕ) (lengths : List ℕ) (bins : Bins) (bin : Bin) (filled : ℕ)
      → fill capacity limit i lengths bins bin filled
        ≡ bins ++ fill capacity limit i lengths [] bin filled
  unfolding fill
  fill-append i [] bins [] filled = sym (append-nil bins)
  fill-append i [] bins (j ∷ bin) filled = refl
  fill-append i (n ∷ rest) bins [] filled = elim (Bool-cases (full [] filled n)) [
    | inl e ↦ rw e (fill-append (suc i) rest bins (i ∷ []) n)
    | inr e ↦ rw e (fill-append (suc i) rest bins (i ∷ []) (filled + n))
  ]
  fill-append i (n ∷ rest) bins (j ∷ bin) filled =
      let b = j ∷ bin in
      elim (Bool-cases (full (j ∷ bin) filled n)) [
        | inl e ↦ rw e (
            fill-append (suc i) rest (bins ++ (j ∷ bin) ∷ []) (i ∷ []) n
            ∙ append_assoc bins ((j ∷ bin) ∷ []) (fill capacity limit (suc i) rest [] (i ∷ []) n)
            ∙ ap (λ t. bins ++ t) (sym (fill-append (suc i) rest ((j ∷ bin) ∷ []) (i ∷ []) n)))
        | inr e ↦ rw e (fill-append (suc i) rest bins (j ∷ bin ++ i ∷ []) (filled + n))
      ]

  -- One round, for a bin that has a sequence.
  fill_close :
      (i n : ℕ) (rest : List ℕ) (j : ℕ) (bin : Bin) (filled : ℕ)
      → full (j ∷ bin) filled n ≡ true
      → fill capacity limit i (n ∷ rest) [] (j ∷ bin) filled
        ≡ (j ∷ bin) ∷ fill capacity limit (suc i) rest [] (i ∷ []) n
  unfolding fill
  fill_close i n rest j bin filled e = rw e (fill-append (suc i) rest ((j ∷ bin) ∷ []) (i ∷ []) n)

  fill_extend :
      (i n : ℕ) (rest : List ℕ) (bin : Bin) (filled : ℕ)
      → full bin filled n ≡ false
      → fill capacity limit i (n ∷ rest) [] bin filled
        ≡ fill capacity limit (suc i) rest [] (bin ++ i ∷ []) (filled + n)
  unfolding fill
  fill_extend i n rest bin filled e = rw e

  -- A round from an empty bin puts the sequence into it, on either branch.
  pub fill_first :
      (n : ℕ) (rest : List ℕ) (i : ℕ)
      → fill capacity limit i (n ∷ rest) [] [] 0 ≡ fill capacity limit (suc i) rest [] (i ∷ []) n
  unfolding fill
  fill_first n rest i = elim (Bool-cases (full [] 0 n)) [
    | inl e ↦ rw e
    | inr e ↦ rw e (ap (fill capacity limit (suc i) rest [] (i ∷ [])) (omega arith))
  ]

  module _ (size : ℕ → ℕ) where
    -- A bin is closed only when the next sequence does not go into it.
    abbrev pub Greedy : Bins → Type 0
    Greedy [] = Unit
    Greedy (b ∷ []) = Unit
    Greedy (b ∷ [] ∷ bins) = ⊥
    Greedy (b ∷ (i ∷ c) ∷ bins) =
        ((capacity < sum_by size b + size i) ⊎ (limit_reached limit b ≡ true))
        × Greedy ((i ∷ c) ∷ bins)

    Greedy-cons :
        (b : Bin) (i : ℕ) (bins : Bins)
        → first_of bins ≡ some i
        → full b (sum_by size b) (size i) ≡ true
        → Greedy bins
        → Greedy (b ∷ bins)
    Greedy-cons b i [] e f g = cc
    Greedy-cons b i ([] ∷ bins) e f g = cc
    Greedy-cons b i ((k ∷ c) ∷ bins) e f g = (ground (arith, e, f), g)

    -- What the loop promises of the bins that it returns from the bin `j ∷ bin` on.
    pub record Filled (i j : ℕ) (lengths : List ℕ) (bin : Bin) (bins : Bins) : Type 0 where
      pub order : flatten bins ≡ (j ∷ bin) ++ range_from i (length lengths)
      pub fits : All (λ b. sum_by size b ≤ capacity) bins
      pub nonempty : All NonEmpty bins
      pub head : first_of bins ≡ some j
      pub greedy : Greedy bins
      pub limited :
          (m : ℕ) → limit ≡ some m → 1 ≤ m → length (j ∷ bin) ≤ m → All (λ b. length b ≤ m) bins

    close_bin :
        (i n j : ℕ) (rest : List ℕ) (bin : Bin) (bins : Bins)
        → full (j ∷ bin) (sum_by size (j ∷ bin)) n ≡ true
        → size i ≡ n
        → sum_by size (j ∷ bin) ≤ capacity
        → Filled (suc i) i rest [] bins
        → Filled i j (n ∷ rest) bin ((j ∷ bin) ∷ bins)
    unfolding flatten
    close_bin i n j rest bin bins f sized short later = record {
      order = ap (λ t. (j ∷ bin) ++ t) later.order;
      fits = (short, later.fits);
      nonempty = (omega arith, later.nonempty);
      head = refl;
      greedy = Greedy-cons (j ∷ bin) i bins later.head (rw sized f) later.greedy;
      limited = λ m e one le. (le, later.limited m e one one);
    }

    below_limit :
        (b : Bin) (filled n m : ℕ) → full b filled n ≡ false → limit ≡ some m → length b < m
    below_limit b filled n m f e = ground arith

    extend_bin :
        (i n j : ℕ) (rest : List ℕ) (bin : Bin) (bins : Bins)
        → full (j ∷ bin) (sum_by size (j ∷ bin)) n ≡ false
        → Filled (suc i) j rest (bin ++ i ∷ []) bins
        → Filled i j (n ∷ rest) bin bins
    extend_bin i n j rest bin bins f later = record {
      order = later.order ∙ append_assoc (j ∷ bin) (i ∷ []) (range_from (suc i) (length rest));
      fits = later.fits;
      nonempty = later.nonempty;
      head = later.head;
      greedy = later.greedy;
      limited = λ m e one le. later.limited m e one (
          omega (
            arith,
            length-append bin (i ∷ []),
            below_limit (j ∷ bin) (sum_by size (j ∷ bin)) n m f e,
          ));
    }

    pub fill-Filled :
        (i j : ℕ) (lengths : List ℕ) (bin : Bin)
        → All (λ p. size p.1 ≡ p.0) (enumerate_from i lengths)
        → All (λ n. n ≤ capacity) lengths
        → sum_by size (j ∷ bin) ≤ capacity
        → Filled i j lengths bin
            (fill capacity limit i lengths [] (j ∷ bin) (sum_by size (j ∷ bin)))
    unfolding fill enumerate_from flatten
    fill-Filled i j [] bin sized short fits = record {
      order = refl;
      fits = (fits, tt);
      nonempty = (omega arith, tt);
      head = refl;
      greedy = tt;
      limited = λ m e one le. (le, tt);
    }
    fill-Filled i j (n ∷ rest) bin sized short fits =
        elim (Bool-cases (full (j ∷ bin) (sum_by size (j ∷ bin)) n)) [
          | inl e ↦ rw (fill_close i n rest j bin (sum_by size (j ∷ bin)) e) (
              close_bin i n j rest bin _ e sized.0 fits (
                subst
                  (λ k. Filled (suc i) i rest [] (fill capacity limit (suc i) rest [] (i ∷ []) k))
                  (omega (arith, sized.0))
                  (fill-Filled (suc i) i rest [] sized.1 short.1
                    (omega (arith, sized.0, short.0)))))
          | inr e ↦ rw (fill_extend i n rest (j ∷ bin) (sum_by size (j ∷ bin)) e) (
              extend_bin i n j rest bin _ e (
                subst
                  (λ k.
                    Filled (suc i) j rest (bin ++ i ∷ [])
                      (fill capacity limit (suc i) rest [] (j ∷ bin ++ i ∷ []) k))
                  (omega (arith, sized.0, sum_by-append size bin (i ∷ [])))
                  (fill-Filled (suc i) j rest (bin ++ i ∷ []) sized.1 short.1
                    (ground (arith, sized.0, sum_by-append size bin (i ∷ []))))))
        ]
