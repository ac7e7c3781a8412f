-- ===== src/Batch/Reorder.antt =====
-- `reorder_data` and `select_indices` of `BatchedDataDict`.
use ne_mo_rl.Common.{
  length-range_from, ℕ, zero, suc, ◌+◌, ◌≤◌, ◌<◌, ◌≡◌, refl, sym, ap, ◌∙◌, subst, true, List, [],
  ◌∷◌, map, ltb, leb, ◌==◌, if◌then◌else◌, ok, ◌>>=◌, length, get_elem?, range_from, Bool-cases,
  inl, inr, ==_iff, arith, All, sum_by, SameItems, sum_by-map, sort_by, sum_by-sort_by, All-sort_by,
  IsAscending, sort_by-IsAscending, TotalTest, leb→le, le→leb,
}
use ne_mo_rl.Batch.{
  Columns, keep_row, select, common_size, all_below, zip, first_le, reordered_indices, reorder_data,
  select_indices,
}
use ne_mo_rl.Batch.Columns.{
  get_elem?_in_range, select_all, length-select, common_size-IsSized, common_size-over_columns,
  over_columns_inverse, select_indices-over_columns,
}
use ne_mo_rl.Packing.FirstFit.Optimality.{sum_by-perm}
use mathlib.Core.List.{Perm}

-- A property of all items holds of a number that is among them.
All_at :
    (Q : ℕ → Type 0) (a : ℕ) (xs : List ℕ)
    → All Q xs
    → 0 < sum_by (λ z. if z == a then 1 else 0) xs
    → Q a
All_at Q a [] q h = absurd (omega arith)
All_at Q a (x ∷ xs) q h = elim (Bool-cases (x == a)) [
  | inl e ↦ subst Q ((==_iff x a).0 e) q.0
  | inr e ↦ All_at Q a xs q.1 (ground (arith, h, e))
]

-- Two ascending lists of the same numbers are the same list.
pub ascending_unique :
    (xs ys : List ℕ) → IsAscending leb xs → IsAscending leb ys → SameItems xs ys → xs ≡ ys
ascending_unique [] [] ax ay h = refl
ascending_unique [] (y ∷ ys) ax ay h = absurd (omega (arith, h (λ z. 1)))
ascending_unique (x ∷ xs) [] ax ay h = absurd (omega (arith, h (λ z. 1)))
ascending_unique (x ∷ xs) (y ∷ ys) ax ay h =
    let y_le_x : y ≤ x = leb→le y x (
      All_at (λ z. leb y z ≡ true) x (y ∷ ys) (le→leb y y (omega arith), ay.0)
        (ground (arith, h (λ z. if z == x then 1 else 0)))) in
    let x_le_y : x ≤ y = leb→le x y (
      All_at (λ z. leb x z ≡ true) y (x ∷ xs) (le→leb x x (omega arith), ax.0)
        (ground (arith, h (λ z. if z == y then 1 else 0)))) in
    let e : x ≡ y = omega arith in
    let tails : SameItems xs ys = λ w. omega (arith, h w, ap w e) in
    rw (e, ascending_unique xs ys ax.1 ay.1 tails) refl

pub range_from-IsAscending : (i n : ℕ) → IsAscending leb (range_from i n)
range_from-IsAscending i zero = tt
range_from-IsAscending i (suc n) =
    (above i (suc i) n (omega arith), range_from-IsAscending (suc i) n)
  where
    above : (i j n : ℕ) → i ≤ j → All (λ y. leb i y ≡ true) (range_from j n)
    above i j zero h = tt
    above i j (suc n) h = (le→leb i j h, above i (suc j) n (omega arith))

pub first_le-TotalTest : {B : Type 0} → TotalTest (first_le {B = B})
first_le-TotalTest = record { total = λ x y h. ground arith; trans = λ x y z h k. ground arith }

-- Sorting the pairs by their first parts puts the first parts in order.
pub firsts-IsAscending :
    {B : Type 0} (ps : List (ℕ × B)) → IsAscending first_le ps → IsAscending leb (map (λ p. p.0) ps)
firsts-IsAscending [] h = tt
firsts-IsAscending (p ∷ ps) h = (firsts p ps h.0, firsts-IsAscending ps h.1)
  where
    firsts :
        {B : Type 0} (p : ℕ × B) (ps : List (ℕ × B))
        → All (λ q. first_le p q ≡ true) ps
        → All (λ y. leb p.0 y ≡ true) (map (λ p. p.0) ps)
    firsts p [] h = tt
    firsts p (q ∷ ps) h = (h.0, firsts p ps h.1)

map_first-zip : (is : List ℕ) (k : ℕ) → map (λ p. p.0) (zip is (range_from k (length is))) ≡ is
unfolding zip
map_first-zip [] k = refl
map_first-zip (i ∷ is) k = ap (λ l. i ∷ l) (map_first-zip is (suc k))

-- What a permutation of `range(0, n)` gives: its length, and that all its items are below `n`.
pub sum_by-length : (xs : List ℕ) → sum_by (λ z. 1) xs ≡ length xs
sum_by-length [] = refl
sum_by-length (x ∷ xs) = omega (arith, sum_by-length xs)

pub perm-length : (is : List ℕ) (n : ℕ) → Perm is (range_from 0 n) → length is ≡ n
perm-length is n perm = omega (
  arith,
  sum_by-length is,
  sum_by-perm (λ z. 1) perm,
  sum_by-length (range_from 0 n),
  length-range_from 0 n,
)

outside : ℕ → ℕ → ℕ
outside n z = if ltb z n then 0 else 1

none_outside : (n i k : ℕ) → i + k ≤ n → sum_by (outside n) (range_from i k) ≡ 0
unfolding outside
none_outside n i zero h = refl
none_outside n i (suc k) h = ground (arith, none_outside n (suc i) k)

below_of_outside :
    (n : ℕ) (is : List ℕ)
    → sum_by (outside n) is ≡ 0
    → All (λ i. i < n) is × (all_below n is ≡ true)
unfolding outside all_below
below_of_outside n [] h = (tt, refl)
below_of_outside n (i ∷ is) h =
    let e : ltb i n ≡ true = ground arith in
    let rest : All (λ i. i < n) is × (all_below n is ≡ true) =
      below_of_outside n is (ground arith) in
    ((ground arith, rest.0), rw e rest.1)

pub perm-below :
    (is : List ℕ) (n : ℕ) → Perm is (range_from 0 n) → All (λ i. i < n) is × (all_below n is ≡ true)
perm-below is n perm =
    below_of_outside n is (sum_by-perm (outside n) perm ∙ none_outside n 0 n (omega arith))

module _ {A : Type 0} (xs ys : List A) where
  -- Row `p.1` of the picked rows is row `p.0` of the whole.
  abbrev IsPlace : ℕ × ℕ → Type 0
  IsPlace p = get_elem? ys p.1 ≡ get_elem? xs p.0

  zip-IsPlace :
      (is : List ℕ) (k : ℕ)
      → All (λ i. i < length xs) is
      → ((j : ℕ) → get_elem? ys (k + j) ≡ get_elem? (select is xs) j)
      → All IsPlace (zip is (range_from k (length is)))
  unfolding zip select
  zip-IsPlace [] k hi h = tt
  zip-IsPlace (i ∷ is) k hi h =
      let (a, e) = get_elem?_in_range xs i hi.0 in
      let later : (j : ℕ) → get_elem? ys (suc k + j) ≡ get_elem? (select is xs) j = λ j.
        ap (get_elem? ys) (omega arith)
        ∙ h (suc j)
        ∙ ap (λ o. get_elem? (keep_row o (select is xs)) (suc j)) e in
      (
        ap (get_elem? ys) (omega arith)
            ∙ h 0
            ∙ ap (λ o. get_elem? (keep_row o (select is xs)) 0) e
            ∙ sym e,
        zip-IsPlace is (suc k) hi.1 later,
      )

  select_places :
      (ps : List (ℕ × ℕ))
      → All IsPlace ps
      → select (map (λ p. p.1) ps) ys ≡ select (map (λ p. p.0) ps) xs
  unfolding select
  select_places [] h = refl
  select_places (p ∷ ps) h = rw (h.0, select_places ps h.1) refl

  -- The places that the sort finds pick the whole, row by row.
  pub reorder_rows :
      (is : List ℕ)
      → Perm is (range_from 0 (length xs))
      → select is xs ≡ ys
      → select (reordered_indices is (length xs)) ys ≡ xs
  unfolding reordered_indices
  reorder_rows is perm picked =
      let ps : List (ℕ × ℕ) = zip is (range_from 0 (length is)) in
      let same : length is ≡ length xs = perm-length is (length xs) perm in
      let start : (j : ℕ) → get_elem? ys (0 + j) ≡ get_elem? (select is xs) j = λ j.
        let e : 0 + j ≡ j = omega arith in
        ap (get_elem? ys) e ∙ ap (λ l. get_elem? l j) (sym picked) in
      let places : All IsPlace (sort_by first_le ps) =
        All-sort_by first_le IsPlace ps
          (zip-IsPlace is 0 ((perm-below is (length xs) perm).0) start) in
      let firsts : map (λ p. p.0) (sort_by first_le ps) ≡ range_from 0 (length xs) =
        ascending_unique _ _
          (firsts-IsAscending _ (sort_by-IsAscending first_le first_le-TotalTest ps))
          (range_from-IsAscending 0 (length xs))
          (λ w.
            sum_by-map w (λ p. p.0) (sort_by first_le ps)
            ∙ sum_by-sort_by first_le (λ p. w p.0) ps
            ∙ sym (sum_by-map w (λ p. p.0) ps)
            ∙ ap (sum_by w) (map_first-zip is 0)
            ∙ sum_by-perm w perm) in
      ap (λ n. select (map (λ p. p.1) (sort_by first_le (zip is (range_from 0 n)))) ys) (sym same)
      ∙ select_places (sort_by first_le ps) places
      ∙ ap (λ l. select l xs) firsts
      ∙ select_all xs

-- Rows that were picked in any order of the whole batch are back in their places after
-- `reorder_data` with the indices they were picked by: for a permutation `indices` of all the
-- indices and columns of one size, `select_indices` followed by `reorder_data` raises nothing and
-- returns the batch.
pub reorder_data-select_indices :
    {A : Type 0} (indices : List ℕ) (n : ℕ) (d : Columns A)
    → common_size d ≡ ok n
    → Perm indices (range_from 0 n)
    → (select_indices indices d >>= reorder_data indices) ≡ ok d
unfolding select_indices reorder_data
reorder_data-select_indices {A = A} indices n d sized perm =
    let (below, all) = perm-below indices n perm in
    let columns = common_size-IsSized n d sized in
    let lengths : (xs : List A) → length xs ≡ n → length (select indices xs) ≡ n = λ xs e.
      length-select indices xs (subst (λ m. All (λ i. i < m) indices) (sym e) below)
      ∙ perm-length indices n perm in
    let rows : (xs : List A)
        → length xs ≡ n
        → select (reordered_indices indices n) (select indices xs) ≡ xs =
      λ xs e.
        ap (λ m. select (reordered_indices indices m) (select indices xs)) (sym e)
        ∙ reorder_rows xs (select indices xs) indices
            (subst (λ m. Perm indices (range_from 0 m)) (sym e) perm) refl in
    rw (select_indices-over_columns n indices d all columns) (
      rw (common_size-over_columns (select indices) n n d lengths sized) (
        ap ok (
          over_columns_inverse (select indices) (select (reordered_indices indices n)) n d rows
            columns)))
