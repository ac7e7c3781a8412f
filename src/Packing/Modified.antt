-- ===== src/Packing/Modified.antt =====
-- `ModifiedFirstFitDecreasingPacker` (nemo_rl/data/packing/algorithms.py). The tests against
-- `bin_capacity / 2` and the like are multiplied out. The packer has checked that every size is
-- positive and at most the capacity, so the room of a bin is a number from 0 on.
pub mod Pick
pub mod Moved
pub mod Large
pub mod Ffd
pub mod Items
pub mod Laws
use ne_mo_rl.Common.{
  ℕ, zero, suc, ◌+◌, ◌-◌, ◌*◌, ◌≡◌, Bool, true, false, ◌||◌, ◌&&◌, Option, none, some, List, [],
  ◌∷◌, ◌++◌, map, ltb, leb, if◌then◌else◌, Outcome, ok, raise, ◌>>=◌, ◌>>◌, length, sum_by, sort_by,
}
use ne_mo_rl.Packing.Packer.{
  Bins, PackingError, capacity_not_positive, lengths_not_positive, index_error,
  validate_sequence_lengths,
}

-- An item is a pair of an index and a size.
abbrev pub Item : Type 0
Item = ℕ × ℕ

abbrev pub index : Item → ℕ
index p = p.0

abbrev pub size_of : Item → ℕ
size_of p = p.1

-- `sum(size for _, size in b)`
abbrev pub bin_size : List Item → ℕ
bin_size = sum_by size_of

abbrev pub room : ℕ → List Item → ℕ
room capacity b = capacity - bin_size b

abbrev pub by_size_descending : Item → Item → Bool
by_size_descending p q = leb (size_of q) (size_of p)

abbrev pub by_size_ascending : Item → Item → Bool
by_size_ascending p q = leb (size_of p) (size_of q)

-- `[(i, l) for i, l in enumerate(sequence_lengths)]`
unfoldable pub items_from : ℕ → List ℕ → List Item
items_from i [] = []
items_from i (n ∷ rest) = (i, n) ∷ items_from (suc i) rest

pub record Classes : Type 0 where
  pub large : List Item
  pub medium : List Item
  pub small : List Item
  pub tiny : List Item

-- `_classify_items`: above C/2, above C/3, above C/6, and the rest
unfoldable pub classify_items : ℕ → List Item → Classes
classify_items capacity [] = record { large = []; medium = []; small = []; tiny = [] }
classify_items capacity (p ∷ rest) =
    let c = classify_items capacity rest in
    if ltb capacity (2 * size_of p)
    then record c { large = p ∷ c.large }
    else if ltb capacity (3 * size_of p)
    then record c { medium = p ∷ c.medium }
    else if ltb capacity (6 * size_of p)
    then record c { small = p ∷ c.small }
    else record c { tiny = p ∷ c.tiny }

abbrev keep_head : Item → Option (Item × List Item) → Option (Item × List Item)
keep_head p none = none
keep_head p (some (q, rest)) = some (q, p ∷ rest)

-- The first item of a size up to `r`, and the list that `pop` of its index leaves.
unfoldable pub take_first : ℕ → List Item → Option (Item × List Item)
take_first r [] = none
take_first r (p ∷ rest) =
    if leb (size_of p) r then some (p, rest) else keep_head p (take_first r rest)

abbrev or_head : ℕ → Item → List Item → Option (Item × List Item) → Option (Item × List Item)
or_head r p rest none = if leb (size_of p) r then some (p, rest) else none
or_head r p rest (some (q, others)) = some (q, p ∷ others)

-- The last such item.
unfoldable pub take_last : ℕ → List Item → Option (Item × List Item)
take_last r [] = none
take_last r (p ∷ rest) = or_head r p rest (take_last r rest)

-- Phase 2, one round: the first medium item that goes into the bin.
unfoldable pub add_medium : ℕ → List Item → List Item → List Item × List Item
unfolding take_first
add_medium capacity b medium = elim (take_first (room capacity b) medium) [
  | none ↦ (b, medium)
  | some (p, rest) ↦ (b ++ p ∷ [], rest)
]

unfoldable pub add_mediums : ℕ → List (List Item) → List Item → List (List Item) × List Item
unfolding add_medium
add_mediums capacity [] medium = ([], medium)
add_mediums capacity (b ∷ bins) medium =
    let (b', rest) = add_medium capacity b medium in
    let (bins', left) = add_mediums capacity bins rest in (b' ∷ bins', left)

unfoldable pub has_medium : ℕ → List Item → Bool
has_medium capacity [] = false
has_medium capacity (p ∷ b) =
    (ltb capacity (3 * size_of p) && leb (2 * size_of p) capacity) || has_medium capacity b

-- Phase 3, one round: the smallest small item and the largest that still goes in beside it.
unfoldable pub add_pair : ℕ → List Item → List Item → List Item × List Item
unfolding has_medium take_last
add_pair capacity b (p ∷ q ∷ rest) =
    if has_medium capacity b
    then (b, p ∷ q ∷ rest)
    else if ltb (room capacity b) (size_of p + size_of q)
    then (b, p ∷ q ∷ rest)
    else elim (take_last (room capacity b - size_of p) (q ∷ rest)) [
      | none ↦ (b, q ∷ rest)
      | some (s, others) ↦ (b ++ p ∷ s ∷ [], others)
    ]
add_pair capacity b small = (b, small)

-- `for b in reversed(bins)`
unfoldable pub add_pairs : ℕ → List (List Item) → List Item → List (List Item) × List Item
unfolding add_pair
add_pairs capacity [] small = ([], small)
add_pairs capacity (b ∷ bins) small =
    let (bins', rest) = add_pairs capacity bins small in
    let (b', left) = add_pair capacity b rest in (b' ∷ bins', left)

-- `remaining_items[-1][1]`
unfoldable pub last_size : List Item → ℕ
last_size [] = 0
last_size (p ∷ []) = size_of p
last_size (p ∷ q ∷ rest) = last_size (q ∷ rest)

-- Phase 4, the `while` for one bin, on fuel: each round takes an item, so as many rounds as there
-- are items are enough.
unfoldable pub fill_bin : ℕ → ℕ → List Item → List Item → List Item × List Item
unfolding take_first last_size
fill_bin zero capacity b items = (b, items)
fill_bin (suc fuel) capacity b [] = (b, [])
fill_bin (suc fuel) capacity b (p ∷ items) =
    let next : List Item × List Item = elim (take_first (room capacity b) (p ∷ items)) [
      | none ↦ (b, p ∷ items)
      | some (q, rest) ↦ fill_bin fuel capacity (b ++ q ∷ []) rest
    ] in
    if ltb (room capacity b) (last_size (p ∷ items)) then (b, p ∷ items) else next

unfoldable pub fill_bins : ℕ → List (List Item) → List Item → List (List Item) × List Item
unfolding fill_bin
fill_bins capacity [] items = ([], items)
fill_bins capacity (b ∷ bins) items =
    let (b', rest) = fill_bin (length items) capacity b items in
    let (bins', left) = fill_bins capacity bins rest in (b' ∷ bins', left)

-- `bisect`, on a list in ascending order: behind the last entry that is not above `x`
unfoldable pub bisect : List ℕ → ℕ → ℕ
bisect [] x = 0
bisect (s ∷ sizes) x = let later = bisect sizes x in if ltb x s then 0 else suc later

-- `l.insert(i, x)`
unfoldable pub insert_at {ℓ} : {A : Type ℓ} → ℕ → A → List A → List A
insert_at zero x xs = x ∷ xs
insert_at (suc i) x [] = x ∷ []
insert_at (suc i) x (y ∷ ys) = y ∷ insert_at i x ys

pub record FfdState : Type 0 where
  pub bins : List (List Item)
  pub sizes : List ℕ

unfoldable pub put_bin : List Item → ℕ → FfdState → FfdState
unfolding bisect insert_at
put_bin b n s =
    let i = bisect s.sizes n in
    record { bins = insert_at i b s.bins; sizes = insert_at i n s.sizes }

-- Phase 5, one round: into the emptiest bin, or into a new one.
unfoldable pub ffd_add : ℕ → Item → List (List Item) → List ℕ → Outcome PackingError FfdState
unfolding put_bin
ffd_add capacity p (b ∷ bins) (n ∷ sizes) =
    if leb (size_of p) (capacity - n)
    then ok (put_bin (b ++ p ∷ []) (n + size_of p) (record { bins = bins; sizes = sizes }))
    else ok (put_bin (p ∷ []) (0 + size_of p) (record { bins = b ∷ bins; sizes = n ∷ sizes }))
ffd_add capacity p _ _ = raise index_error

unfoldable pub ffd : ℕ → List Item → FfdState → Outcome PackingError (List (List Item))
unfolding ffd_add
ffd capacity [] s = ok s.bins
ffd capacity (p ∷ items) s = do s' ← ffd_add capacity p s.bins s.sizes; ffd capacity items s'

-- `[[idx for idx, _ in b] for b in bins if b]`
unfoldable pub to_indices : List (List Item) → Bins
to_indices [] = []
to_indices ([] ∷ bins) = to_indices bins
to_indices ((p ∷ b) ∷ bins) = map index (p ∷ b) ∷ to_indices bins

unfoldable pub all_positive : List ℕ → Bool
all_positive [] = true
all_positive (n ∷ rest) = ltb 0 n && all_positive rest

-- `[[item] for item in large]`
unfoldable pub singletons : List Item → List (List Item)
singletons [] = []
singletons (p ∷ rest) = (p ∷ []) ∷ singletons rest

-- The bins of the large items after phases 2 to 4, and what is left for phase 5.
unfoldable pub large_bins : ℕ → Classes → List (List Item) × List Item
unfolding singletons add_mediums add_pairs fill_bins sort_by
large_bins capacity c =
    let start = singletons (sort_by by_size_descending c.large) in
    let (bins2, medium) = add_mediums capacity start (sort_by by_size_descending c.medium) in
    let (bins3, small) = add_pairs capacity bins2 (sort_by by_size_ascending c.small) in
    let tiny = sort_by by_size_ascending c.tiny in
    fill_bins capacity bins3 (sort_by by_size_descending (medium ++ small ++ tiny))

unfoldable pub pack_phases : ℕ → List Item → Outcome PackingError Bins
unfolding classify_items large_bins ffd to_indices sort_by
pack_phases capacity items = do
  let (bins, leftovers) = large_bins capacity (classify_items capacity items)
  ffd_bins ←
      ffd capacity (sort_by by_size_descending leftovers)
        (record { bins = [] ∷ []; sizes = 0 ∷ [] })
  ok (to_indices (bins ++ ffd_bins))

unfoldable pub pack_modified : ℕ → List ℕ → Outcome PackingError Bins
unfolding all_positive validate_sequence_lengths pack_phases items_from
pack_modified capacity lengths =
    if leb capacity 0
    then raise capacity_not_positive
    else if all_positive lengths
    then (do
      validate_sequence_lengths capacity lengths
      pack_phases capacity (items_from 0 lengths))
    else raise lengths_not_positive
