-- ===== src/Packing/Modified/Large.antt =====
-- Phases 1 to 4: the bins that hold a large item.
use ne_mo_rl.Common.{
  ℕ, zero, suc, ◌+◌, ◌-◌, ◌*◌, ◌≤◌, ◌<◌, ◌≡◌, refl, Option, none, some, List, [], ◌∷◌, ◌++◌, ltb,
  length, sum_by, sum_by-append, All, All_mono, arith, Bool-cases, inl, inr, IsAscending, sort_by,
  sum_by-sort_by, All-sort_by, sort_by-IsAscending, TotalTest,
}
use ne_mo_rl.Packing.Modified.{
  Item, size_of, room, take_first, take_last, classify_items, add_medium, add_mediums, has_medium,
  add_pair, add_pairs, last_size, fill_bin, fill_bins, singletons, large_bins, by_size_descending,
  by_size_ascending,
}
use ne_mo_rl.Packing.Modified.Pick.{
  Sub, Sub-refl, Sub-trans, Sub-All, Sub-IsAscending, Taken, TakenOrNone, take_first_lem,
  take_last_lem, last_size-le,
}
use ne_mo_rl.Packing.Modified.Moved.{
  total, IsOpen, Moved, MovedAll, Moved-none, Moved-one, Moved-trans, MovedAll-cons,
  MovedAll-cons_back, MovedAll-nil,
}

module _ (capacity : ℕ) where
  medium_taken :
      (b medium : List Item) (o : Option (Item × List Item))
      → TakenOrNone (room capacity b) medium o
      → let r : List Item × List Item = elim o [
        | none ↦ (b, medium)
        | some (p, rest) ↦ (b ++ p ∷ [], rest)
      ] in
        Moved capacity b medium r.0 r.1
  medium_taken b medium none t = Moved-none capacity b medium
  medium_taken b medium (some (p, rest)) t = Moved-one capacity b medium rest p t

  add_medium-Moved :
      (b medium : List Item)
      → Moved capacity b medium (add_medium capacity b medium).0 (add_medium capacity b medium).1
  unfolding add_medium
  add_medium-Moved b medium =
      medium_taken b medium (take_first (room capacity b) medium)
        (take_first_lem (room capacity b) medium)

  add_mediums-MovedAll :
      (bins : List (List Item)) (medium : List Item)
      → MovedAll capacity bins medium
          (add_mediums capacity bins medium).0
          (add_mediums capacity bins medium).1
  unfolding add_mediums
  add_mediums-MovedAll [] medium = MovedAll-nil capacity medium
  add_mediums-MovedAll (b ∷ bins) medium =
      MovedAll-cons capacity b _ bins _ medium _ _ (add_medium-Moved b medium)
        (add_mediums-MovedAll bins (add_medium capacity b medium).1)

  pair_taken :
      (b rest : List Item) (p q : Item) (o : Option (Item × List Item))
      → size_of p + size_of q ≤ room capacity b
      → TakenOrNone (room capacity b - size_of p) (q ∷ rest) o
      → let r : List Item × List Item = elim o [
        | none ↦ (b, q ∷ rest)
        | some (s, others) ↦ (b ++ p ∷ s ∷ [], others)
      ] in
        Moved capacity b (p ∷ q ∷ rest) r.0 r.1
  pair_taken b rest p q none h t = absurd (omega (arith, h, t.0))
  pair_taken b rest p q (some (s, others)) h t = record {
    keeps = λ w. omega (arith, sum_by-append w b (p ∷ s ∷ []), t.conserved w);
    fits = λ f. omega (arith, f, h, t.fits, sum_by-append size_of b (p ∷ s ∷ []));
    grows = omega (arith, sum_by-append size_of b (p ∷ s ∷ []));
  }

  add_pair-Moved :
      (b small : List Item)
      → Moved capacity b small (add_pair capacity b small).0 (add_pair capacity b small).1
  unfolding add_pair
  add_pair-Moved b [] = Moved-none capacity b []
  add_pair-Moved b (p ∷ []) = Moved-none capacity b (p ∷ [])
  add_pair-Moved b (p ∷ q ∷ rest) = elim (Bool-cases (has_medium capacity b)) [
    | inl e ↦ rw e (Moved-none capacity b (p ∷ q ∷ rest))
    | inr e ↦ elim (Bool-cases (ltb (room capacity b) (size_of p + size_of q))) [
      | inl f ↦ rw (e, f) (Moved-none capacity b (p ∷ q ∷ rest))
      | inr f ↦
          rw (e, f)
            (pair_taken b rest p q (take_last (room capacity b - size_of p) (q ∷ rest))
              (ground arith) (take_last_lem (room capacity b - size_of p) (q ∷ rest)))
    ]
  ]

  add_pairs-MovedAll :
      (bins : List (List Item)) (small : List Item)
      → MovedAll capacity bins small
          (add_pairs capacity bins small).0
          (add_pairs capacity bins small).1
  unfolding add_pairs
  add_pairs-MovedAll [] small = MovedAll-nil capacity small
  add_pairs-MovedAll (b ∷ bins) small =
      MovedAll-cons_back capacity b _ bins _ small _ _ (add_pairs-MovedAll bins small)
        (add_pair-Moved b (add_pairs capacity bins small).1)

  -- What the greedy loop promises of a bin: it stops only where no item that is left goes in.
  pub record Full (b items b' items' : List Item) : Type 0 where
    pub moved : Moved capacity b items b' items'
    pub left : Sub items' items
    pub full : All (λ p. room capacity b' < size_of p) items'

  Full-next :
      (b items rest b' items' : List Item) (p : Item)
      → Taken (room capacity b) items p rest
      → Full (b ++ p ∷ []) rest b' items'
      → Full b items b' items'
  Full-next b items rest b' items' p t f = record {
    moved =
        Moved-trans capacity b items (b ++ p ∷ []) rest b' items'
          (Moved-one capacity b items rest p t) f.moved;
    left = Sub-trans t.left f.left;
    full = f.full;
  }

  fill_bin-Full :
      (fuel : ℕ) (b items : List Item)
      → length items ≤ fuel
      → IsAscending by_size_descending items
      → Full b items (fill_bin fuel capacity b items).0 (fill_bin fuel capacity b items).1
  unfolding fill_bin
  fill_bin-Full zero b [] h asc = record {
    moved = Moved-none capacity b [];
    left = Sub.done;
    full = tt;
  }
  fill_bin-Full zero b (p ∷ items) h asc = absurd (omega arith)
  fill_bin-Full (suc fuel) b [] h asc = record {
    moved = Moved-none capacity b [];
    left = Sub.done;
    full = tt;
  }
  fill_bin-Full (suc fuel) b (p ∷ items) h asc =
      elim (Bool-cases (ltb (room capacity b) (last_size (p ∷ items)))) [
        | inl e ↦ rw e (record {
          moved = Moved-none capacity b (p ∷ items);
          left = Sub-refl (p ∷ items);
          full =
              All_mono (λ q (le : last_size (p ∷ items) ≤ size_of q). ground arith) (p ∷ items)
                (last_size-le (p ∷ items) asc);
        })
        | inr e ↦ rw e (
            (elim (take_first (room capacity b) (p ∷ items))
                as (λ o.
                  TakenOrNone (room capacity b) (p ∷ items) o
                  → let r : List Item × List Item = elim o [
                    | none ↦ (b, p ∷ items)
                    | some (q, rest) ↦ fill_bin fuel capacity (b ++ q ∷ []) rest
                  ] in
                    Full b (p ∷ items) r.0 r.1) [
                      | none ↦ λ t. record {
                        moved = Moved-none capacity b (p ∷ items);
                        left = Sub-refl (p ∷ items);
                        full = t;
                      }
                      | some (q, rest) ↦ λ t. Full-next b (p ∷ items) rest _ _ q t (
                          fill_bin-Full fuel (b ++ q ∷ []) rest (omega (arith, h, t.shorter))
                            (Sub-IsAscending by_size_descending t.left asc))
                    ])
              (take_first_lem (room capacity b) (p ∷ items)))
      ]

  pub record FullAll (bins : List (List Item)) (items : List Item) (bins' : List (List Item))
      (items' : List Item) : Type 0 where
    pub moved : MovedAll capacity bins items bins' items'
    pub left : Sub items' items
    pub full : All (λ b. All (λ p. room capacity b < size_of p) items') bins'

  fill_bins-FullAll :
      (bins : List (List Item)) (items : List Item)
      → IsAscending by_size_descending items
      → FullAll bins items (fill_bins capacity bins items).0 (fill_bins capacity bins items).1
  unfolding fill_bins
  fill_bins-FullAll [] items asc = record {
    moved = MovedAll-nil capacity items;
    left = Sub-refl items;
    full = tt;
  }
  fill_bins-FullAll (b ∷ bins) items asc =
      let first = fill_bin-Full (length items) b items (omega arith) asc in
      let later =
        fill_bins-FullAll bins (fill_bin (length items) capacity b items).1
          (Sub-IsAscending by_size_descending first.left asc) in
      record {
        moved = MovedAll-cons capacity b _ bins _ items _ _ first.moved later.moved;
        left = Sub-trans first.left later.left;
        full = (Sub-All _ later.left first.full, later.full);
      }

  classify_items-keeps :
      (items : List Item) (w : Item → ℕ)
      → let c = classify_items capacity items in
        sum_by w c.large + sum_by w c.medium + sum_by w c.small + sum_by w c.tiny ≡ sum_by w items
  unfolding classify_items
  classify_items-keeps [] w = refl
  classify_items-keeps (p ∷ rest) w = ground (arith, classify_items-keeps rest w)

  classify_items-large :
      (items : List Item)
      → All (λ p. size_of p ≤ capacity) items
      → All (λ p. IsOpen capacity (p ∷ [])) (classify_items capacity items).large
  unfolding classify_items
  classify_items-large [] h = tt
  classify_items-large (p ∷ rest) h = elim (Bool-cases (ltb capacity (2 * size_of p))) [
    | inl e ↦
        rw e
          (record { fits = omega (arith, h.0); half = ground arith }, classify_items-large rest h.1)
    | inr e ↦ elim (Bool-cases (ltb capacity (3 * size_of p))) [
      | inl f ↦ rw (e, f) (classify_items-large rest h.1)
      | inr f ↦ elim (Bool-cases (ltb capacity (6 * size_of p))) [
        | inl g ↦ rw (e, f, g) (classify_items-large rest h.1)
        | inr g ↦ rw (e, f, g) (classify_items-large rest h.1)
      ]
    ]
  ]

  singletons-IsOpen :
      (items : List Item)
      → All (λ p. IsOpen capacity (p ∷ [])) items
      → All (IsOpen capacity) (singletons items)
  unfolding singletons
  singletons-IsOpen [] h = tt
  singletons-IsOpen (p ∷ items) h = (h.0, singletons-IsOpen items h.1)

  total-singletons :
      (w : Item → ℕ) (items : List Item) → total w (singletons items) ≡ sum_by w items
  unfolding singletons
  total-singletons w [] = refl
  total-singletons w (p ∷ items) = omega (arith, total-singletons w items)

  by_size_descending-TotalTest : TotalTest by_size_descending
  by_size_descending-TotalTest = record {
    total = λ p q h. ground arith;
    trans = λ p q r h g. ground arith;
  }

  -- What phases 1 to 4 hand to phase 5, together with the bins of the large items.
  pub record LargeDone (items : List Item) (bins : List (List Item)) (left : List Item)
      : Type 0 where
    pub keeps : (w : Item → ℕ) → total w bins + sum_by w left ≡ sum_by w items
    pub open_bins : All (IsOpen capacity) bins
    pub full : All (λ b. All (λ p. room capacity b < size_of p) left) bins

  pub large_bins-LargeDone :
      (items : List Item)
      → All (λ p. size_of p ≤ capacity) items
      → LargeDone items
          (large_bins capacity (classify_items capacity items)).0
          (large_bins capacity (classify_items capacity items)).1
  unfolding large_bins
  large_bins-LargeDone items short =
      let c = classify_items capacity items in
      let large = sort_by by_size_descending c.large in
      let mediums = sort_by by_size_descending c.medium in
      let smalls = sort_by by_size_ascending c.small in
      let tinies = sort_by by_size_ascending c.tiny in
      let r2 = add_mediums capacity (singletons large) mediums in
      let r3 = add_pairs capacity r2.0 smalls in
      let m2 = add_mediums-MovedAll (singletons large) mediums in
      let m3 = add_pairs-MovedAll r2.0 smalls in
      let remaining = r2.1 ++ r3.1 ++ tinies in
      let m4 =
        fill_bins-FullAll r3.0 (sort_by by_size_descending remaining)
          (sort_by-IsAscending by_size_descending by_size_descending-TotalTest remaining) in
      let r4 = fill_bins capacity r3.0 (sort_by by_size_descending remaining) in
      let kept : (w : Item → ℕ) → total w r4.0 + sum_by w r4.1 ≡ sum_by w items = λ w. omega (
        arith,
        m4.moved.keeps w,
        sum_by-sort_by by_size_descending w remaining,
        sum_by-append w (r2.1 ++ r3.1) tinies,
        sum_by-append w r2.1 r3.1,
        m3.keeps w,
        m2.keeps w,
        sum_by-sort_by by_size_descending w c.medium,
        sum_by-sort_by by_size_ascending w c.small,
        sum_by-sort_by by_size_ascending w c.tiny,
        sum_by-sort_by by_size_descending w c.large,
        total-singletons w large,
        classify_items-keeps items w,
      ) in
      record {
        keeps = kept;
        open_bins = m4.moved.open_bins (
            m3.open_bins (
              m2.open_bins (
                singletons-IsOpen large (
                  All-sort_by by_size_descending (λ p. IsOpen capacity (p ∷ [])) c.large
                    (classify_items-large items short)))));
        full = m4.full;
      }
