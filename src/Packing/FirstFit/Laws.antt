-- ===== src/Packing/FirstFit/Laws.antt =====
-- First fit as a whole (nemo_rl/data/packing/algorithms.py).
use ne_mo_rl.Common.{
  ℕ, ◌+◌, ◌-◌, ◌≤◌, ◌<◌, ◌≡◌, refl, Option, none, some, List, [], ◌∷◌, ◌++◌, get_or, sum_by,
  sum_by-append, All, All-append, All_mono, arith, ok, ltb-false, SameItems, sum_by-sort_by,
}
use ne_mo_rl.Packing.Packer.{Bin, Bins, load, enumerate_from, descending}
use ne_mo_rl.Packing.Spec.{
  NonEmpty, IsPacking, AnyTwoExceed, rearranged-sized, rearranged-bounded, perm_of_items,
}
use ne_mo_rl.Packing.FirstFit.{
  FitState, place, add_sequence, first_fit, no_bins, pack_first_fit, prepare_decreasing,
}
use ne_mo_rl.Packing.FirstFit.Placement.{Fits, Tight, Placed, Post, place_lem}

module _ (capacity : ℕ) (size : ℕ → ℕ) where
  pub record IsGood (s : FitState) : Type 0 where
    pub fits : Fits capacity size s.bins s.bin_remaining
    pub tight : Tight capacity size s.bins s.bin_remaining
    pub nonempty : All NonEmpty s.bins

  Fits-snoc :
      (bs : Bins) (rs : List ℕ) (b : Bin) (r : ℕ)
      → sum_by size b + r ≡ capacity
      → Fits capacity size bs rs
      → Fits capacity size (bs ++ b ∷ []) (rs ++ r ∷ [])
  Fits-snoc [] [] b r e f = (e, tt)
  Fits-snoc [] (q ∷ rs) b r e f = absurd f
  Fits-snoc (c ∷ bs) [] b r e f = absurd f
  Fits-snoc (c ∷ bs) (q ∷ rs) b r e f = (f.0, Fits-snoc bs rs b r e f.1)

  Tight-snoc :
      (bs : Bins) (rs : List ℕ) (idx r : ℕ)
      → All (λ q. q < size idx) rs
      → Tight capacity size bs rs
      → Tight capacity size (bs ++ (idx ∷ []) ∷ []) (rs ++ r ∷ [])
  Tight-snoc [] [] idx r h t = (tt, tt)
  Tight-snoc [] (q ∷ rs) idx r h t = absurd t
  Tight-snoc (c ∷ bs) [] idx r h t = absurd t
  Tight-snoc (c ∷ bs) (q ∷ rs) idx r h t = (
    All-append (All (λ i. q < size i)) bs ((idx ∷ []) ∷ []) t.0 ((h.0, tt), tt),
    Tight-snoc bs rs idx r h.1 t.1,
  )

  Added : ℕ → ℕ → FitState → FitState → Type 0
  Added n idx s s' =
      (IsGood s → IsGood s')
      × ((w : ℕ → ℕ) → sum_by (sum_by w) s'.bins ≡ w idx + sum_by (sum_by w) s.bins)

  module _ (n idx : ℕ) (sized : size idx ≡ n) (short : n ≤ capacity) (s : FitState) where
    abbrev opened : FitState
    opened = record {
      bins = s.bins ++ (idx ∷ []) ∷ [];
      bin_remaining = s.bin_remaining ++ (capacity - n) ∷ [];
    }

    open_bin :
        (Fits capacity size s.bins s.bin_remaining → All (λ r. r < n) s.bin_remaining)
        → Added n idx s opened
    unfolding Added
    open_bin full = (
      λ g. record {
        fits =
            Fits-snoc s.bins s.bin_remaining (idx ∷ []) (capacity - n) (omega (arith, sized))
              g.fits;
        tight =
            Tight-snoc s.bins s.bin_remaining idx (capacity - n)
              (All_mono (λ r (p : r < n). omega (arith, sized)) s.bin_remaining (full g.fits))
              g.tight;
        nonempty = All-append NonEmpty s.bins ((idx ∷ []) ∷ []) g.nonempty (omega arith, tt);
      },
      λ w. omega (arith, sum_by-append (sum_by w) s.bins ((idx ∷ []) ∷ [])),
    )

    take-Placed :
        (s' : FitState) → Placed capacity size n idx s.bins s.bin_remaining s' → Added n idx s s'
    unfolding Added
    take-Placed s' p = (
      λ g. record {
        fits = p.fits g.fits;
        tight = p.tight g.tight;
        nonempty = p.nonempty g.nonempty;
      },
      p.items,
    )

    split_post :
        (o : Option FitState)
        → Post capacity size n idx s.bins s.bin_remaining o
        → Added n idx s (elim o [ some s' ↦ s' | none ↦ opened ])
    split_post none p = open_bin p
    split_post (some s') p = take-Placed s' p

    add_sequence-Added : Added n idx s (add_sequence capacity n idx s)
    unfolding add_sequence
    add_sequence-Added =
        split_post (place n idx s.bins s.bin_remaining)
          (place_lem capacity size n idx sized s.bins s.bin_remaining)

  abbrev Packs : List (ℕ × ℕ) → FitState → Type 0
  Packs items s =
      (s' : FitState) × (first_fit capacity items s ≡ ok s'.bins)
      × IsGood s'
      × ((w : ℕ → ℕ)
          → sum_by (sum_by w) s'.bins ≡ sum_by (λ p. w p.1) items + sum_by (sum_by w) s.bins)

  first_fit_lem :
      (items : List (ℕ × ℕ)) (s : FitState)
      → All (λ p. size p.1 ≡ p.0) items
      → All (λ p. p.0 ≤ capacity) items
      → IsGood s
      → Packs items s
  unfolding first_fit Added
  first_fit_lem [] s sized short g = (s, refl, g, λ w. omega arith)
  first_fit_lem ((n, idx) ∷ rest) s sized short g =
      let added = add_sequence-Added n idx sized.0 short.0 s in
      let (s', e, g', items) =
        first_fit_lem rest (add_sequence capacity n idx s) sized.1 short.1 (added.0 g) in
      (s', rw (ltb-false capacity n short.0) e, g', λ w. omega (arith, items w, added.1 w))

-- The bins that the loop returns from no bins.
module _ (capacity : ℕ) (lengths : List ℕ) where
  Fits-bounded :
      (bs : Bins) (rs : List ℕ)
      → Fits capacity (λ i. get_or lengths i 0) bs rs
      → All (λ b. load lengths b ≤ capacity) bs
  Fits-bounded [] [] f = tt
  Fits-bounded [] (r ∷ rs) f = absurd f
  Fits-bounded (b ∷ bs) [] f = absurd f
  Fits-bounded (b ∷ bs) (r ∷ rs) f = (omega (arith, f.0), Fits-bounded bs rs f.1)

  exceed_later :
      (b : Bin) (r : ℕ) (bs : Bins)
      → load lengths b + r ≡ capacity
      → All (All (λ i. r < get_or lengths i 0)) bs
      → All NonEmpty bs
      → All (λ c. capacity < load lengths b + load lengths c) bs
  exceed_later b r [] e a n = tt
  exceed_later b r ([] ∷ bs) e a n = absurd (omega (arith, n.0))
  exceed_later b r ((i ∷ c) ∷ bs) e a n = (omega (arith, e, a.0.0), exceed_later b r bs e a.1 n.1)

  Tight-exceed :
      (bs : Bins) (rs : List ℕ)
      → Fits capacity (λ i. get_or lengths i 0) bs rs
      → Tight capacity (λ i. get_or lengths i 0) bs rs
      → All NonEmpty bs
      → AnyTwoExceed capacity lengths bs
  Tight-exceed [] [] f t n = tt
  Tight-exceed [] (r ∷ rs) f t n = absurd f
  Tight-exceed (b ∷ bs) [] f t n = absurd f
  Tight-exceed (b ∷ bs) (r ∷ rs) f t n =
      (exceed_later b r bs f.0 t.0 n.1, Tight-exceed bs rs f.1 t.1 n.1)

  module _ (prepare : List ℕ → List (ℕ × ℕ))
      (same : SameItems (prepare lengths) (enumerate_from 0 lengths)) where
    -- Whatever the order in which the subclass hands the sequences over: if none is longer than
    -- a bin, first fit returns bins that hold every index exactly once, none over the capacity
    -- and none empty, and any two of the bins hold more than one capacity together.
    pub pack_first_fit-IsPacking :
        All (λ n. n ≤ capacity) lengths
        → (bins : Bins) × (pack_first_fit prepare capacity lengths ≡ ok bins)
          × IsPacking capacity lengths bins
          × AnyTwoExceed capacity lengths bins
    unfolding pack_first_fit
    pack_first_fit-IsPacking short =
        let (s, e, g, items) =
          first_fit_lem capacity (λ i. get_or lengths i 0) (prepare lengths) no_bins
            (rearranged-sized lengths (prepare lengths) same)
            (rearranged-bounded lengths (prepare lengths) same capacity short)
            (record { fits = tt; tight = tt; nonempty = tt }) in
        (
          s.bins,
          e,
          record {
            items = perm_of_items lengths s.bins (λ w. omega (arith, items w, same (λ p. w p.1)));
            fits = Fits-bounded s.bins s.bin_remaining g.fits;
            nonempty = g.nonempty;
          },
          Tight-exceed s.bins s.bin_remaining g.fits g.tight g.nonempty,
        )

pub prepare_decreasing-SameItems :
    (lengths : List ℕ) → SameItems (prepare_decreasing lengths) (enumerate_from 0 lengths)
unfolding prepare_decreasing
prepare_decreasing-SameItems lengths w = sum_by-sort_by descending w (enumerate_from 0 lengths)
