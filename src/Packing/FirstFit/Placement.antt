-- ===== src/Packing/FirstFit/Placement.antt =====
-- What one round of the first-fit loop does to the bins and to the room that is left in them.
use ne_mo_rl.Common.{
  ℕ, ◌+◌, ◌-◌, ◌≤◌, ◌<◌, ◌≡◌, Option, none, some, List, [], ◌∷◌, ◌++◌, leb, sum_by, sum_by-append,
  All, All-append, All_mono, Bool-cases, inl, inr, leb→le, arith, length-append,
}
use ne_mo_rl.Packing.Packer.{Bin, Bins}
use ne_mo_rl.Packing.Spec.{NonEmpty}
use ne_mo_rl.Packing.FirstFit.{FitState, place, keep_first}

module _ (capacity : ℕ) (size : ℕ → ℕ) where
  -- Each bin and its entry in `bin_remaining` make up the capacity.
  abbrev pub Fits : Bins → List ℕ → Type 0
  Fits [] [] = Unit
  Fits [] (r ∷ rs) = ⊥
  Fits (b ∷ bs) [] = ⊥
  Fits (b ∷ bs) (r ∷ rs) = (sum_by size b + r ≡ capacity) × Fits bs rs

  -- No sequence of a later bin fits into the room that an earlier one has left.
  abbrev pub Tight : Bins → List ℕ → Type 0
  Tight [] [] = Unit
  Tight [] (r ∷ rs) = ⊥
  Tight (b ∷ bs) [] = ⊥
  Tight (b ∷ bs) (r ∷ rs) = All (All (λ i. r < size i)) bs × Tight bs rs

  -- the state that comes of the bins `bs`, with room `rs`, by putting `idx` into one of them
  pub record Placed (n idx : ℕ) (bs : Bins) (rs : List ℕ) (s : FitState) : Type 0 where
    pub fits : Fits bs rs → Fits s.bins s.bin_remaining
    pub items : (w : ℕ → ℕ) → sum_by (sum_by w) s.bins ≡ w idx + sum_by (sum_by w) bs
    pub nonempty : All NonEmpty bs → All NonEmpty s.bins
    pub above :
        (r : ℕ) → r < n → All (All (λ i. r < size i)) bs → All (All (λ i. r < size i)) s.bins
    pub tight : Tight bs rs → Tight s.bins s.bin_remaining

  abbrev pub Post : ℕ → ℕ → Bins → List ℕ → Option FitState → Type 0
  Post n idx bs rs none = Fits bs rs → All (λ r. r < n) rs
  Post n idx bs rs (some s) = Placed n idx bs rs s

  NonEmpty-snoc : (b : Bin) (idx : ℕ) → NonEmpty (b ++ idx ∷ [])
  NonEmpty-snoc b idx = omega (arith, length-append b (idx ∷ []))

  module _ (n idx : ℕ) (sized : size idx ≡ n) where
    here :
        (b : Bin) (bs : Bins) (r : ℕ) (rs : List ℕ)
        → n ≤ r
        → Placed n idx
            (b ∷ bs)
            (r ∷ rs)
            (record { bins = (b ++ idx ∷ []) ∷ bs; bin_remaining = (r - n) ∷ rs })
    here b bs r rs h = record {
      fits = λ f. (omega (arith, sum_by-append size b (idx ∷ []), sized, f.0), f.1);
      items = λ w. omega (arith, sum_by-append w b (idx ∷ []));
      nonempty = λ e. (NonEmpty-snoc b idx, e.1);
      above =
          λ q lt a. (All-append (λ i. q < size i) b (idx ∷ []) a.0 (omega (arith, sized), tt), a.1);
      tight = λ t. (All_mono (λ c. All_mono (λ i (p : r < size i). omega arith) c) bs t.0, t.1);
    }

    later :
        (b : Bin) (bs : Bins) (r : ℕ) (rs : List ℕ) (o : Option FitState)
        → r < n
        → Post n idx bs rs o
        → Post n idx (b ∷ bs) (r ∷ rs) (keep_first b r o)
    later b bs r rs none h p = λ f. (h, p f.1)
    later b bs r rs (some s) h p = record {
      fits = λ f. (f.0, p.fits f.1);
      items = λ w. omega (arith, p.items w);
      nonempty = λ e. (e.0, p.nonempty e.1);
      above = λ q lt a. (a.0, p.above q lt a.1);
      tight = λ t. (p.above r h t.0, p.tight t.1);
    }

    pub place_lem : (bs : Bins) (rs : List ℕ) → Post n idx bs rs (place n idx bs rs)
    unfolding place
    place_lem [] [] = λ f. tt
    place_lem [] (r ∷ rs) = λ f. absurd f
    place_lem (b ∷ bs) [] = λ f. absurd f
    place_lem (b ∷ bs) (r ∷ rs) = elim (Bool-cases (leb n r)) [
      | inl e ↦ rw e (here b bs r rs (leb→le n r e))
      | inr e ↦ rw e (later b bs r rs (place n idx bs rs) (ground arith) (place_lem bs rs))
    ]
