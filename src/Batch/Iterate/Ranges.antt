-- ===== src/Batch/Iterate/Ranges.antt =====
-- What the iterators and `get_batch` of `BatchedDataDict` yield, joined.
use ne_mo_rl.Common.{
  ℕ, zero, suc, ◌+◌, ◌-◌, ◌≤◌, ◌<◌, ◌≡◌, refl, sym, ap, ◌∙◌, subst, true, Option, none, some, List,
  [], ◌∷◌, ◌++◌, map, flatten, ok, length, range_from, get_elem?, arith, lt→ltb, le→leb, sum_by,
}
use ne_mo_rl.Batch.{
  Columns, Column, ColumnKind, tensor, packed_tensor, list, over_columns, slice_list, slice_kind,
  slice, all_below, checked_select, zip, common_size, each_column,
}
use ne_mo_rl.Batch.Columns.{
  IsSized, rows_at, rows_at-IsSized, rows_at-over_columns, select-range_from, common_size-IsSized,
  get_elem?_in_range,
}
use ne_mo_rl.Batch.Slices.{
  slice_list-append, slice_list_empty, slice_list_whole, flatten-slice_list,
}
use ne_mo_rl.Batch.Packed.{bin_ranges}
use ne_mo_rl.Batch.Iterate.{
  slices, make_microbatch_iterator_for_packable_sequences, get_batch, batch_of, cum_elem_count,
}

range-below : (n a k : ℕ) → a + k ≤ n → all_below n (range_from a k) ≡ true
unfolding all_below
range-below n a zero h = refl
range-below n a (suc k) h = rw (lt→ltb a n (omega arith)) (range-below n (suc a) k (omega arith))

-- A slice within the rows is the same for every kind of column.
slice_kind_within :
    {A : Type 0} (kind : ColumnKind) (a b : ℕ) (c : Column A)
    → a ≤ b
    → b ≤ length c.rows
    → slice_kind kind a b c ≡ ok (slice_list a b c.rows)
unfolding slice_kind checked_select
slice_kind_within tensor a b c h k = rw (le→leb b (length c.rows) k) refl
slice_kind_within list a b c h k = refl
slice_kind_within packed_tensor a b c h k =
    rw (range-below (length c.rows) a (b - a) (omega arith))
      (ap ok (select-range_from a (b - a) c.rows))

slice-over_columns :
    {A : Type 0} (n a b : ℕ) (d : Columns A)
    → IsSized n d
    → a ≤ b
    → b ≤ n
    → slice a b d ≡ ok (over_columns (slice_list a b) d)
unfolding slice each_column over_columns
slice-over_columns n a b [] h le inside = refl
slice-over_columns n a b ((k, c) ∷ d) h le inside =
    rw (slice_kind_within c.kind a b c le (omega (arith, h.0, inside)))
      (rw (slice-over_columns n a b d h.1 le inside) refl)

-- Ranges that follow each other from `a` to `n`.
abbrev pub IsConsecutive : ℕ → List (ℕ × ℕ) → ℕ → Type 0
IsConsecutive a [] n = a ≡ n
IsConsecutive a (r ∷ ranges) n = (r.0 ≡ a) × (r.0 ≤ r.1) × IsConsecutive r.1 ranges n

IsConsecutive-le : (a : ℕ) (ranges : List (ℕ × ℕ)) (n : ℕ) → IsConsecutive a ranges n → a ≤ n
IsConsecutive-le a [] n h = omega (arith, h)
IsConsecutive-le a (r ∷ ranges) n h = omega (arith, h.0, h.1, IsConsecutive-le r.1 ranges n h.2)

slices-flatten :
    {A : Type 0} (n j a : ℕ) (ranges : List (ℕ × ℕ)) (d : Columns A)
    → IsSized n d
    → j < length d
    → IsConsecutive a ranges n
    → (parts : List (Columns A)) × (slices ranges d ≡ ok parts)
      × (length parts ≡ length ranges)
      × (flatten (map (rows_at j) parts) ≡ slice_list a n (rows_at j d))
unfolding slices flatten
slices-flatten n j a [] d sized lt h =
    ([], refl, refl, sym (slice_list_empty a n (rows_at j d) (omega (arith, h))))
slices-flatten n j a (r ∷ ranges) d sized lt h =
    let inside : r.1 ≤ n = IsConsecutive-le r.1 ranges n h.2 in
    let (parts, e, len, joined) = slices-flatten n j r.1 ranges d sized lt h.2 in
    (
      over_columns (slice_list r.0 r.1) d ∷ parts,
      rw (slice-over_columns n r.0 r.1 d sized h.1 inside) (rw e refl),
      ap suc len,
      ap (λ l. l ++ flatten (map (rows_at j) parts))
            (rows_at-over_columns (slice_list r.0 r.1) j d lt)
          ∙ ap (λ l. slice_list r.0 r.1 (rows_at j d) ++ l) joined
          ∙ slice_list-append r.0 r.1 n (rows_at j d) h.1 inside
          ∙ ap (λ s. slice_list s n (rows_at j d)) h.0,
    )

-- The ranges of a shard's bins are consecutive.
pub bin_ranges-IsConsecutive :
    (start : ℕ) (bins : List (List ℕ))
    → IsConsecutive start (bin_ranges start bins) (start + sum_by length bins)
unfolding bin_ranges
bin_ranges-IsConsecutive start [] = omega arith
bin_ranges-IsConsecutive start (b ∷ bins) = (
  refl,
  omega arith,
  subst (IsConsecutive (start + length b) (bin_ranges (start + length b) bins)) (omega arith)
      (bin_ranges-IsConsecutive (start + length b) bins),
)

zip-seconds :
    {A B : Type 0} (xs : List A) (ys : List B)
    → length xs ≡ length ys
    → map (λ p. p.1) (zip xs ys) ≡ ys
unfolding zip
zip-seconds [] [] h = refl
zip-seconds [] (y ∷ ys) h = absurd (omega (arith, h))
zip-seconds (x ∷ xs) [] h = absurd (omega (arith, h))
zip-seconds (x ∷ xs) (y ∷ ys) h = ap (λ l. y ∷ l) (zip-seconds xs ys (omega (arith, h)))

-- A batch of `n` rows in every column, with one chunk of ranges that follow each other from 0 to
-- `n` and as many lengths: the iterator over microbatches of packed sequences raises nothing,
-- yields one microbatch for every range, and the rows that these have of a column `j` are one
-- after the other the column.
pub make_microbatch_iterator_for_packable_sequences-flatten :
    {A : Type 0} (n j : ℕ) (d : Columns A) (ranges : List (ℕ × ℕ)) (lengths : List ℕ)
    (counts : Option (List ℕ))
    → common_size d ≡ ok n
    → j < length d
    → IsConsecutive 0 ranges n
    → length lengths ≡ length ranges
    → (parts : List (Columns A)) × (make_microbatch_iterator_for_packable_sequences (record {
      entries = d;
      micro_batch_indices = some (ranges ∷ []);
      micro_batch_lengths = some (lengths ∷ []);
      elem_counts_per_gb = counts;
    })
        ≡ ok parts)
      × (length parts ≡ length ranges)
      × (flatten (map (rows_at j) parts) ≡ rows_at j d)
unfolding make_microbatch_iterator_for_packable_sequences
make_microbatch_iterator_for_packable_sequences-flatten n j d ranges lengths counts sized lt follows
      same =
    let columns : IsSized n d = common_size-IsSized n d sized in
    let (parts, e, len, joined) = slices-flatten n j 0 ranges d columns lt follows in
    (
      parts,
      ap (λ r. slices r d) (zip-seconds lengths ranges same) ∙ e,
      len,
      joined ∙ slice_list_whole n (rows_at j d) (omega (arith, rows_at-IsSized n j d columns lt)),
    )

cum_elem_count-le :
    (counts : List ℕ) (k : ℕ) → cum_elem_count counts k ≤ cum_elem_count counts (suc k)
cum_elem_count-le [] zero = omega arith
cum_elem_count-le [] (suc k) = omega arith
cum_elem_count-le (c ∷ counts) zero = omega arith
cum_elem_count-le (c ∷ counts) (suc k) = omega (arith, cum_elem_count-le counts k)

cum_elem_count-below : (counts : List ℕ) (k : ℕ) → cum_elem_count counts k ≤ sum_by (λ n. n) counts
cum_elem_count-below [] zero = omega arith
cum_elem_count-below [] (suc k) = omega arith
cum_elem_count-below (c ∷ counts) zero = omega arith
cum_elem_count-below (c ∷ counts) (suc k) = omega (arith, cum_elem_count-below counts k)

cum_elem_count_all :
    (counts : List ℕ) → cum_elem_count counts (length counts) ≡ sum_by (λ n. n) counts
cum_elem_count_all [] = refl
cum_elem_count_all (c ∷ counts) = omega (arith, cum_elem_count_all counts)

-- A batch with an element count, ranges and lengths for every part, the counts being together the
-- number of rows in every column, and `batch_idx` below the number of parts: `get_batch` raises
-- nothing; the part it returns has the rows from the sum of the counts before it to that sum and
-- its own count, and the ranges, the lengths and the count of its own part alone; and the rows that
-- all parts have of a column `j` are one after the other the column.
pub get_batch-IsPart :
    {A : Type 0} (batch_idx j : ℕ) (d : Columns A) (indices : List (List (ℕ × ℕ)))
    (lengths : List (List ℕ)) (counts : List ℕ)
    → common_size d ≡ ok (sum_by (λ n. n) counts)
    → j < length d
    → batch_idx < length counts
    → length indices ≡ length counts
    → length lengths ≡ length counts
    → (count : ℕ) × (i : List (ℕ × ℕ)) × (l : List ℕ) × (get_elem? counts batch_idx ≡ some count)
      × (get_elem? indices batch_idx ≡ some i)
      × (get_elem? lengths batch_idx ≡ some l)
      × (get_batch batch_idx none (record {
        entries = d;
        micro_batch_indices = some indices;
        micro_batch_lengths = some lengths;
        elem_counts_per_gb = some counts;
      })
          ≡ ok (record {
            entries =
                over_columns
                  (slice_list
                    (cum_elem_count counts batch_idx)
                    (cum_elem_count counts (suc batch_idx)))
                  d;
            micro_batch_indices = some (i ∷ []);
            micro_batch_lengths = some (l ∷ []);
            elem_counts_per_gb = some (count ∷ []);
          }))
      × (flatten (
            map
              (λ k.
                slice_list (cum_elem_count counts k) (cum_elem_count counts (suc k)) (rows_at j d))
              (range_from 0 (length counts)))
          ≡ rows_at j d)
unfolding get_batch batch_of
get_batch-IsPart batch_idx j d indices lengths counts sized lt inside same_indices same_lengths =
    let columns : IsSized (sum_by (λ n. n) counts) d = common_size-IsSized _ d sized in
    let (count, at_count) = get_elem?_in_range counts batch_idx inside in
    let (i, at_i) = get_elem?_in_range indices batch_idx (omega (arith, same_indices)) in
    let (l, at_l) = get_elem?_in_range lengths batch_idx (omega (arith, same_lengths)) in
    let rows : length (rows_at j d) ≡ sum_by (λ n. n) counts = rows_at-IsSized _ j d columns lt in
    let whole : cum_elem_count counts (0 + length counts) ≡ sum_by (λ n. n) counts =
      ap (cum_elem_count counts) (omega arith) ∙ cum_elem_count_all counts in
    (
      count,
      i,
      l,
      at_count,
      at_i,
      at_l,
      rw at_count (
          rw
            (slice-over_columns (sum_by (λ n. n) counts) (cum_elem_count counts batch_idx)
              (cum_elem_count counts (suc batch_idx)) d columns (cum_elem_count-le counts batch_idx)
              (cum_elem_count-below counts (suc batch_idx)))
            (rw at_i (rw at_l refl))),
      flatten-slice_list (cum_elem_count counts) 0 (length counts) (rows_at j d)
            (cum_elem_count-le counts)
          ∙ slice_list_whole _ (rows_at j d) (omega (arith, rows, whole)),
    )
