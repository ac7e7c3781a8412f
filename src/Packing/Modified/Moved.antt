-- ===== src/Packing/Modified/Moved.antt =====
-- What a step of the modified packer does to its bins and items
-- (nemo_rl/data/packing/algorithms.py).
use ne_mo_rl.Common.{
  ℕ, ◌+◌, ◌*◌, ◌≤◌, ◌<◌, ◌≡◌, refl, ◌∙◌, List, [], ◌∷◌, ◌++◌, sum_by, sum_by-append, All, arith,
}
use ne_mo_rl.Packing.Modified.{Item, size_of, bin_size, room}
use ne_mo_rl.Packing.Modified.Pick.{Taken}

abbrev pub total : (Item → ℕ) → List (List Item) → ℕ
total w = sum_by (sum_by w)

module _ (capacity : ℕ) where
  -- a bin that holds more than half of the capacity and no more than all of it
  pub record IsOpen (b : List Item) : Type 0 where
    pub fits : bin_size b ≤ capacity
    pub half : capacity < 2 * bin_size b

  -- `b'` comes of `b` by items that leave `items'` of `items`.
  pub record Moved (b items b' items' : List Item) : Type 0 where
    pub keeps : (w : Item → ℕ) → sum_by w b' + sum_by w items' ≡ sum_by w b + sum_by w items
    pub fits : bin_size b ≤ capacity → bin_size b' ≤ capacity
    pub grows : bin_size b ≤ bin_size b'

  pub record MovedAll (bins : List (List Item)) (items : List Item) (bins' : List (List Item))
      (items' : List Item) : Type 0 where
    pub keeps : (w : Item → ℕ) → total w bins' + sum_by w items' ≡ total w bins + sum_by w items
    pub open_bins : All IsOpen bins → All IsOpen bins'

  pub Moved-IsOpen :
      (b items b' items' : List Item) → Moved b items b' items' → IsOpen b → IsOpen b'
  Moved-IsOpen b items b' items' m o = record {
    fits = m.fits o.fits;
    half = omega (arith, m.grows, o.half);
  }

  pub Moved-none : (b items : List Item) → Moved b items b items
  Moved-none b items = record { keeps = λ w. refl; fits = λ h. h; grows = omega arith }

  -- One more item that has room.
  pub Moved-one :
      (b items rest : List Item) (p : Item)
      → Taken (room capacity b) items p rest
      → Moved b items (b ++ p ∷ []) rest
  Moved-one b items rest p t = record {
    keeps = λ w. omega (arith, sum_by-append w b (p ∷ []), t.conserved w);
    fits = λ h. omega (arith, h, t.fits, sum_by-append size_of b (p ∷ []));
    grows = omega (arith, sum_by-append size_of b (p ∷ []));
  }

  pub Moved-trans :
      (b items b' items' b'' items'' : List Item)
      → Moved b items b' items'
      → Moved b' items' b'' items''
      → Moved b items b'' items''
  Moved-trans b items b' items' b'' items'' m n = record {
    keeps = λ w. n.keeps w ∙ m.keeps w;
    fits = λ h. n.fits (m.fits h);
    grows = omega (arith, m.grows, n.grows);
  }

  -- Of two bins one round each; the items that the first leaves are the second's.
  pub MovedAll-cons :
      (b b' : List Item) (bins bins' : List (List Item)) (items items' items'' : List Item)
      → Moved b items b' items'
      → MovedAll bins items' bins' items''
      → MovedAll (b ∷ bins) items (b' ∷ bins') items''
  MovedAll-cons b b' bins bins' items items' items'' m n = record {
    keeps = λ w. omega (arith, m.keeps w, n.keeps w);
    open_bins = λ o. (Moved-IsOpen b items b' items' m o.0, n.open_bins o.1);
  }

  -- The same from the back.
  pub MovedAll-cons_back :
      (b b' : List Item) (bins bins' : List (List Item)) (items items' items'' : List Item)
      → MovedAll bins items bins' items'
      → Moved b items' b' items''
      → MovedAll (b ∷ bins) items (b' ∷ bins') items''
  MovedAll-cons_back b b' bins bins' items items' items'' n m = record {
    keeps = λ w. omega (arith, m.keeps w, n.keeps w);
    open_bins = λ o. (Moved-IsOpen b items' b' items'' m o.0, n.open_bins o.1);
  }

  pub MovedAll-nil : (items : List Item) → MovedAll [] items [] items
  MovedAll-nil items = record { keeps = λ w. refl; open_bins = λ o. o }
