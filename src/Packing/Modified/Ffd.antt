-- ===== src/Packing/Modified/Ffd.antt =====
-- Phase 5: the bins stand in the order of their sizes, so the first is the emptiest.
use ne_mo_rl.Common.{
  ℕ, zero, suc, ◌+◌, ◌-◌, ◌≤◌, ◌<◌, ◌≡◌, refl, ap, ◌∙◌, List, [], ◌∷◌, ◌++◌, map, ltb, leb, length,
  sum_by, sum_by-append, All, All_mono, arith, Bool-cases, inl, inr, Outcome, ok, get_or, drop,
}
use ne_mo_rl.Packing.Packer.{PackingError}
use ne_mo_rl.Packing.Modified.{
  Item, size_of, bin_size, bisect, insert_at, FfdState, put_bin, ffd_add, ffd,
}
use ne_mo_rl.Packing.Modified.Moved.{total}

abbrev Ascends : List ℕ → Type 0
Ascends [] = Unit
Ascends (n ∷ sizes) = All (λ m. n ≤ m) sizes × Ascends sizes

module _ {A : Type 0} (P : A → Type 0) where
  All-insert_at : (i : ℕ) (x : A) (xs : List A) → P x → All P xs → All P (insert_at i x xs)
  unfolding insert_at
  All-insert_at zero x xs px h = (px, h)
  All-insert_at (suc i) x [] px h = (px, tt)
  All-insert_at (suc i) x (y ∷ ys) px h = (h.0, All-insert_at i x ys px h.1)

sum_by-insert_at :
    {A : Type 0} (w : A → ℕ) (i : ℕ) (x : A) (xs : List A)
    → sum_by w (insert_at i x xs) ≡ w x + sum_by w xs
unfolding insert_at
sum_by-insert_at w zero x xs = refl
sum_by-insert_at w (suc i) x [] = refl
sum_by-insert_at w (suc i) x (y ∷ ys) = omega (arith, sum_by-insert_at w i x ys)

map-insert_at :
    (i : ℕ) (b : List Item) (bins : List (List Item))
    → map bin_size (insert_at i b bins) ≡ insert_at i (bin_size b) (map bin_size bins)
unfolding insert_at
map-insert_at zero b bins = refl
map-insert_at (suc i) b [] = refl
map-insert_at (suc i) b (c ∷ bins) = ap (λ t. bin_size c ∷ t) (map-insert_at i b bins)

Ascends-insert_at :
    (n : ℕ) (sizes : List ℕ) → Ascends sizes → Ascends (insert_at (bisect sizes n) n sizes)
unfolding insert_at bisect
Ascends-insert_at n [] h = (tt, tt)
Ascends-insert_at n (m ∷ sizes) h = elim (Bool-cases (ltb n m)) [
  | inl e ↦ rw e ((ground arith, All_mono (λ k (le : m ≤ k). ground arith) sizes h.0), h)
  | inr e ↦ rw e (
    All-insert_at (λ k. m ≤ k) (bisect sizes n) n sizes (ground arith) h.0,
    Ascends-insert_at n sizes h.1,
  )
]

module _ (capacity : ℕ) where
  -- any two of the sizes pass the capacity together
  abbrev pub Pairs : List ℕ → Type 0
  Pairs [] = Unit
  Pairs (n ∷ sizes) = All (λ m. capacity < n + m) sizes × Pairs sizes

  Pairs-insert_at :
      (i n : ℕ) (sizes : List ℕ)
      → All (λ m. capacity < n + m) sizes
      → Pairs sizes
      → Pairs (insert_at i n sizes)
  unfolding insert_at
  Pairs-insert_at zero n sizes h p = (h, p)
  Pairs-insert_at (suc i) n [] h p = (tt, tt)
  Pairs-insert_at (suc i) n (m ∷ sizes) h p = (
    All-insert_at (λ k. capacity < m + k) i n sizes (omega (arith, h.0)) p.0,
    Pairs-insert_at i n sizes h.1 p.1,
  )

  pub record IsFfd (bins : List (List Item)) (sizes : List ℕ) : Type 0 where
    pub loads : map bin_size bins ≡ sizes
    pub ascends : Ascends sizes
    pub pairs : Pairs sizes
    pub fits : All (λ n. n ≤ capacity) sizes

  put_bin-IsFfd :
      (b : List Item) (n : ℕ) (s : FfdState)
      → bin_size b ≡ n
      → n ≤ capacity
      → All (λ m. capacity < n + m) s.sizes
      → IsFfd s.bins s.sizes
      → IsFfd (put_bin b n s).bins (put_bin b n s).sizes
  unfolding put_bin
  put_bin-IsFfd b n s e le apart f = record {
    loads =
        map-insert_at (bisect s.sizes n) b s.bins
        ∙ ap (λ k. insert_at (bisect s.sizes n) k (map bin_size s.bins)) e
        ∙ ap (insert_at (bisect s.sizes n) n) f.loads;
    ascends = Ascends-insert_at n s.sizes f.ascends;
    pairs = Pairs-insert_at (bisect s.sizes n) n s.sizes apart f.pairs;
    fits = All-insert_at (λ m. m ≤ capacity) (bisect s.sizes n) n s.sizes le f.fits;
  }

  put_bin-total :
      (w : Item → ℕ) (b : List Item) (n : ℕ) (s : FfdState)
      → total w (put_bin b n s).bins ≡ sum_by w b + total w s.bins
  unfolding put_bin
  put_bin-total w b n s = sum_by-insert_at (sum_by w) (bisect s.sizes n) b s.bins

  emptiest :
      (n m : ℕ) (sizes : List ℕ)
      → capacity < n + m
      → All (λ k. m ≤ k) sizes
      → All (λ k. capacity < n + k) sizes
  emptiest n m sizes h a = All_mono (λ k (le : m ≤ k). omega (arith, h)) sizes a

  abbrev Added : Item → List (List Item) → Outcome PackingError FfdState → Type 0
  Added p bins result =
      (s : FfdState) × (result ≡ ok s)
      × IsFfd s.bins s.sizes
      × ((w : Item → ℕ) → total w s.bins ≡ w p + total w bins)
      × (0 < length s.sizes)

  length-put_bin : (b : List Item) (n : ℕ) (s : FfdState) → 0 < length (put_bin b n s).sizes
  unfolding put_bin insert_at
  length-put_bin b n s = grown (bisect s.sizes n) s.sizes
    where
      grown : (i : ℕ) (sizes : List ℕ) → 0 < length (insert_at i n sizes)
      grown zero sizes = omega arith
      grown (suc i) [] = omega arith
      grown (suc i) (m ∷ sizes) = omega arith

  ffd_add-Added :
      (p : Item) (bins : List (List Item)) (sizes : List ℕ)
      → size_of p ≤ capacity
      → 0 < length sizes
      → IsFfd bins sizes
      → Added p bins (ffd_add capacity p bins sizes)
  unfolding ffd_add
  ffd_add-Added p bins [] short ne f = absurd (omega arith)
  ffd_add-Added p [] (n ∷ sizes) short ne f = absurd (omega (arith, ap length f.loads))
  ffd_add-Added p (b ∷ bins) (n ∷ sizes) short ne f =
      let head : bin_size b ≡ n = ap (λ l. get_or l 0 0) f.loads in
      let tails : map bin_size bins ≡ sizes = ap (drop 1) f.loads in
      elim (Bool-cases (leb (size_of p) (capacity - n))) [
        | inl e ↦
            let others : FfdState = record { bins = bins; sizes = sizes } in
            (
              put_bin (b ++ p ∷ []) (n + size_of p) others,
              rw e,
              put_bin-IsFfd (b ++ p ∷ []) (n + size_of p) others
                  (omega (arith, sum_by-append size_of b (p ∷ []), head)) (ground (arith, f.fits.0))
                  (All_mono (λ m (lt : capacity < n + m). omega arith) sizes f.pairs.0)
                  (record {
                    loads = tails;
                    ascends = f.ascends.1;
                    pairs = f.pairs.1;
                    fits = f.fits.1;
                  }),
              λ w. omega (
                arith,
                put_bin-total w (b ++ p ∷ []) (n + size_of p) others,
                sum_by-append w b (p ∷ []),
              ),
              length-put_bin (b ++ p ∷ []) (n + size_of p) others,
            )
        | inr e ↦
            let all : FfdState = record { bins = b ∷ bins; sizes = n ∷ sizes } in
            let crowded : capacity < (0 + size_of p) + n = ground (arith, f.fits.0) in
            (
              put_bin (p ∷ []) (0 + size_of p) all,
              rw e,
              put_bin-IsFfd (p ∷ []) (0 + size_of p) all (omega arith) (omega arith)
                  (crowded, emptiest (0 + size_of p) n sizes crowded f.ascends.0) f,
              λ w. omega (arith, put_bin-total w (p ∷ []) (0 + size_of p) all),
              length-put_bin (p ∷ []) (0 + size_of p) all,
            )
      ]

  -- Phase 5 never reads from an empty list, and its bins are as full as any two can be asked
  -- to be.
  pub ffd_lem :
      (items : List Item) (s : FfdState)
      → All (λ p. size_of p ≤ capacity) items
      → 0 < length s.sizes
      → IsFfd s.bins s.sizes
      → (s' : FfdState) × (ffd capacity items s ≡ ok s'.bins)
        × IsFfd s'.bins s'.sizes
        × ((w : Item → ℕ) → total w s'.bins ≡ sum_by w items + total w s.bins)
  unfolding ffd
  ffd_lem [] s short ne f = (s, refl, f, λ w. omega arith)
  ffd_lem (p ∷ items) s short ne f =
      let (s1, e, f1, keeps1, ne1) = ffd_add-Added p s.bins s.sizes short.0 ne f in
      let (s2, e2, f2, keeps2) = ffd_lem items s1 short.1 ne1 f1 in
      (s2, rw e e2, f2, λ w. omega (arith, keeps1 w, keeps2 w))
