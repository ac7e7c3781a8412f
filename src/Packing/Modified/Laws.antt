-- ===== src/Packing/Modified/Laws.antt =====
-- The modified first-fit-decreasing packer as a whole.
use ne_mo_rl.Common.{
  ℕ, ◌+◌, ◌≤◌, ◌<◌, ◌≡◌, refl, sym, ap, subst, ◌∙◌, Bool, true, List, [], ◌∷◌, ◌++◌, map, ltb, leb,
  ==_iff, ltb→lt, lt→ltb, leb→le, le→leb, leb-false, ◌==◌, if◌then◌else◌, length, get_or, sum_by,
  sum_by-append, All, All-append, All_mono, arith, ok, sort_by, sum_by-sort_by, All-sort_by,
  sum_by-flatten, perm_of_SameItems,
}
use ne_mo_rl.Packing.Packer.{Bins, load}
use ne_mo_rl.Packing.Spec.{IsPacking, AnyTwoExceed, All_of_failures, failures_of_All}
use ne_mo_rl.Packing.Concatenative.Laws.{validate_ok}
use ne_mo_rl.Packing.Modified.{
  Item, index, size_of, bin_size, room, items_from, classify_items, large_bins, by_size_descending,
  FfdState, to_indices, all_positive, pack_phases, pack_modified,
}
use ne_mo_rl.Packing.Modified.Large.{LargeDone, large_bins-LargeDone}
use ne_mo_rl.Packing.Modified.Moved.{total, IsOpen}
use ne_mo_rl.Packing.Modified.Ffd.{Pairs, IsFfd, ffd_lem}
use ne_mo_rl.Packing.Modified.Items.{
  All_of_total, sum_by-items_from, items_from-sized, items_from-short, total-to_indices,
  to_indices-NonEmpty,
}

module _ (capacity : ℕ) (lengths : List ℕ) where
  abbrev size_at : ℕ → ℕ
  size_at i = get_or lengths i 0

  abbrev sized : Item → Bool
  sized p = size_at (index p) == size_of p

  load-map : (b : List Item) → All (λ p. sized p ≡ true) b → load lengths (map index b) ≡ bin_size b
  load-map [] h = refl
  load-map (p ∷ b) h = omega (arith, (==_iff (size_at (index p)) (size_of p)).0 h.0, load-map b h.1)

  to_indices-fits :
      (bins : List (List Item))
      → All (All (λ p. sized p ≡ true)) bins
      → All (λ b. bin_size b ≤ capacity) bins
      → All (λ b. load lengths b ≤ capacity) (to_indices bins)
  unfolding to_indices
  to_indices-fits [] s h = tt
  to_indices-fits ([] ∷ bins) s h = to_indices-fits bins s.1 h.1
  to_indices-fits ((p ∷ b) ∷ bins) s h =
      (omega (arith, load-map (p ∷ b) s.0, h.0), to_indices-fits bins s.1 h.1)

  -- Two bins that are not empty pass the capacity together.
  abbrev Over : List Item → List Item → Type 0
  Over b c = 0 < length b → 0 < length c → capacity < bin_size b + bin_size c

  abbrev AllOver : List (List Item) → Type 0
  AllOver [] = Unit
  AllOver (b ∷ bins) = All (Over b) bins × AllOver bins

  Over-to_indices :
      (p : Item) (b : List Item) (bins : List (List Item))
      → All (λ q. sized q ≡ true) (p ∷ b)
      → All (All (λ q. sized q ≡ true)) bins
      → All (Over (p ∷ b)) bins
      → All (λ c. capacity < load lengths (map index (p ∷ b)) + load lengths c) (to_indices bins)
  unfolding to_indices
  Over-to_indices p b [] sb s h = tt
  Over-to_indices p b ([] ∷ bins) sb s h = Over-to_indices p b bins sb s.1 h.1
  Over-to_indices p b ((q ∷ c) ∷ bins) sb s h = (
    omega (arith, load-map (p ∷ b) sb, load-map (q ∷ c) s.0, h.0 (omega arith) (omega arith)),
    Over-to_indices p b bins sb s.1 h.1,
  )

  to_indices-AnyTwoExceed :
      (bins : List (List Item))
      → All (All (λ p. sized p ≡ true)) bins
      → AllOver bins
      → AnyTwoExceed capacity lengths (to_indices bins)
  unfolding to_indices
  to_indices-AnyTwoExceed [] s h = tt
  to_indices-AnyTwoExceed ([] ∷ bins) s h = to_indices-AnyTwoExceed bins s.1 h.1
  to_indices-AnyTwoExceed ((p ∷ b) ∷ bins) s h =
      (Over-to_indices p b bins s.0 s.1 h.0, to_indices-AnyTwoExceed bins s.1 h.1)

  AllOver-append :
      (bins later : List (List Item))
      → AllOver bins
      → AllOver later
      → All (λ b. All (Over b) later) bins
      → AllOver (bins ++ later)
  AllOver-append [] later h k c = k
  AllOver-append (b ∷ bins) later h k c =
      (All-append (Over b) bins later h.0 c.0, AllOver-append bins later h.1 k c.1)

  open-AllOver : (bins : List (List Item)) → All (IsOpen capacity) bins → AllOver bins
  open-AllOver [] h = tt
  open-AllOver (b ∷ bins) h = (
    All_mono {Q = Over b} (λ c (o : IsOpen capacity c) nb nc. omega (arith, o.half, h.0.half)) bins
        h.1,
    open-AllOver bins h.1,
  )

  pairs-Over :
      (b : List Item) (bins : List (List Item))
      → All (λ m. capacity < bin_size b + m) (map bin_size bins)
      → All (Over b) bins
  pairs-Over b [] h = tt
  pairs-Over b (c ∷ bins) h = (λ nb nc. h.0, pairs-Over b bins h.1)

  Pairs-AllOver : (bins : List (List Item)) → Pairs capacity (map bin_size bins) → AllOver bins
  Pairs-AllOver [] h = tt
  Pairs-AllOver (b ∷ bins) h = (pairs-Over b bins h.0, Pairs-AllOver bins h.1)

  fits-map :
      (bins : List (List Item))
      → All (λ m. m ≤ capacity) (map bin_size bins)
      → All (λ b. bin_size b ≤ capacity) bins
  fits-map [] h = tt
  fits-map (b ∷ bins) h = (h.0, fits-map bins h.1)

  full-Over :
      (b : List Item) (later : List (List Item))
      → All (All (λ p. ltb (room capacity b) (size_of p) ≡ true)) later
      → All (Over b) later
  full-Over b [] h = tt
  full-Over b ([] ∷ later) h = (λ nb nc. absurd (omega (arith, nc)), full-Over b later h.1)
  full-Over b ((p ∷ c) ∷ later) h =
      (λ nb nc. omega (arith, ltb→lt (room capacity b) (size_of p) h.0.0), full-Over b later h.1)

-- All phases, from the indexed lengths on.
module _ (capacity : ℕ) (lengths : List ℕ) (short : All (λ n. n ≤ capacity) lengths) where
  abbrev items : List Item
  items = items_from 0 lengths

  abbrev large : List (List Item)
  large = (large_bins capacity (classify_items capacity items)).0

  abbrev leftovers : List Item
  leftovers = (large_bins capacity (classify_items capacity items)).1

  abbrev sorted_leftovers : List Item
  sorted_leftovers = sort_by by_size_descending leftovers

  abbrev start : FfdState
  start = record { bins = [] ∷ []; sizes = 0 ∷ [] }

  large-done : LargeDone capacity items large leftovers
  large-done = large_bins-LargeDone capacity items (items_from-short capacity 0 lengths short)

  start-IsFfd : IsFfd capacity start.bins start.sizes
  start-IsFfd = record {
    loads = refl;
    ascends = (tt, tt);
    pairs = (tt, tt);
    fits = (omega arith, tt);
  }

  -- a test that all items pass is passed by the leftovers
  leftovers-All :
      (t : Item → Bool) → All (λ p. t p ≡ true) items → All (λ p. t p ≡ true) sorted_leftovers
  leftovers-All t h =
      All-sort_by by_size_descending (λ p. t p ≡ true) leftovers
        (All_of_failures t leftovers
          (omega (arith, failures_of_All t items h, large-done.keeps (λ p. if t p then 0 else 1))))

  leftovers-short : All (λ p. size_of p ≤ capacity) sorted_leftovers
  leftovers-short =
      All_mono (λ p. leb→le (size_of p) capacity) sorted_leftovers
        (leftovers-All (λ p. leb (size_of p) capacity)
          (All_mono (λ p. le→leb (size_of p) capacity) items
            (items_from-short capacity 0 lengths short)))

  module _ (last : List (List Item)) (sizes : List ℕ) (f : IsFfd capacity last sizes)
      (keeps : (w : Item → ℕ) → total w last ≡ sum_by w sorted_leftovers + total w start.bins) where
    abbrev all_bins : List (List Item)
    all_bins = large ++ last

    total-all_bins : (w : Item → ℕ) → total w all_bins ≡ sum_by w items
    total-all_bins w = omega (
      arith,
      sum_by-append (sum_by w) large last,
      keeps w,
      large-done.keeps w,
      sum_by-sort_by by_size_descending w leftovers,
    )

    all_bins-sized : All (All (λ p. sized capacity lengths p ≡ true)) all_bins
    all_bins-sized = All_of_total (sized capacity lengths) all_bins (
        total-all_bins (λ p. if sized capacity lengths p then 0 else 1)
        ∙ failures_of_All (sized capacity lengths) items (
            items_from-sized (λ i. get_or lengths i 0) 0 lengths
              (λ k lt. ap (λ j. get_or lengths j 0) (omega arith))))

    Over-leftovers :
        (b : List Item)
        → All (λ p. room capacity b < size_of p) leftovers
        → All (Over capacity lengths b) last
    Over-leftovers b h =
        let t : Item → Bool = λ p. ltb (room capacity b) (size_of p) in
        full-Over capacity lengths b last (
          All_of_total t last (
            omega (
              arith,
              keeps (λ p. if t p then 0 else 1),
              failures_of_All t sorted_leftovers (
                  All-sort_by by_size_descending (λ p. t p ≡ true) leftovers
                    (All_mono (λ p. lt→ltb (room capacity b) (size_of p)) leftovers h)),
            )))

    all_bins-AllOver : AllOver capacity lengths all_bins
    all_bins-AllOver =
        AllOver-append capacity lengths large last
          (open-AllOver capacity lengths large large-done.open_bins)
          (Pairs-AllOver capacity lengths last (subst (Pairs capacity) (sym f.loads) f.pairs))
          (All_mono Over-leftovers large large-done.full)

    all_bins-fits : All (λ b. bin_size b ≤ capacity) all_bins
    all_bins-fits =
        All-append (λ b. bin_size b ≤ capacity) large last
          (All_mono (λ b (o : IsOpen capacity b). o.fits) large large-done.open_bins)
          (fits-map capacity lengths last (subst (All (λ m. m ≤ capacity)) (sym f.loads) f.fits))

    to_indices-IsPacking : IsPacking capacity lengths (to_indices all_bins)
    to_indices-IsPacking = record {
      items = perm_of_SameItems _ _ (λ w.
          sum_by-flatten w (to_indices all_bins)
          ∙ total-to_indices w all_bins
          ∙ total-all_bins (λ p. w (index p))
          ∙ sum_by-items_from w 0 lengths);
      fits = to_indices-fits capacity lengths all_bins all_bins-sized all_bins-fits;
      nonempty = to_indices-NonEmpty all_bins;
    }

  pack_phases_lem :
      (bins : Bins) × (pack_phases capacity items ≡ ok bins)
      × IsPacking capacity lengths bins
      × AnyTwoExceed capacity lengths bins
  unfolding pack_phases
  pack_phases_lem =
      let (s, e, f, keeps) =
        ffd_lem capacity sorted_leftovers start leftovers-short (omega arith) start-IsFfd in
      (
        to_indices (large ++ s.bins),
        rw e,
        to_indices-IsPacking s.bins s.sizes f keeps,
        to_indices-AnyTwoExceed capacity lengths (large ++ s.bins)
            (all_bins-sized s.bins s.sizes f keeps) (all_bins-AllOver s.bins s.sizes f keeps),
      )

all_positive_ok : (lengths : List ℕ) → All (λ n. 0 < n) lengths → all_positive lengths ≡ true
unfolding all_positive
all_positive_ok [] h = refl
all_positive_ok (n ∷ rest) h = rw (lt→ltb 0 n h.0, all_positive_ok rest h.1)

-- If the capacity is positive and every sequence is at least 1 and at most the capacity long, the
-- modified first-fit-decreasing packer raises nothing (it neither loses the first item of a pair
-- nor reads from an empty list) and returns bins that hold every index exactly once, none over
-- the capacity and none empty; and any two of its bins hold more than one capacity together.
pub pack_modified-IsPacking :
    (capacity : ℕ) (lengths : List ℕ)
    → 0 < capacity
    → All (λ n. 0 < n) lengths
    → All (λ n. n ≤ capacity) lengths
    → (bins : Bins) × (pack_modified capacity lengths ≡ ok bins)
      × IsPacking capacity lengths bins
      × AnyTwoExceed capacity lengths bins
unfolding pack_modified
pack_modified-IsPacking capacity lengths room positive short =
    let (bins, e, p, t) = pack_phases_lem capacity lengths short in
    (
      bins,
      rw
          (
            leb-false capacity 0 room,
            all_positive_ok lengths positive,
            validate_ok capacity lengths short,
          )
          e,
      p,
      t,
    )
