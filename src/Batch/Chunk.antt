-- ===== src/Batch/Chunk.antt =====
-- `chunk` of `BatchedDataDict`.
use ne_mo_rl.Common.{
  ℕ, suc, ◌-◌, ◌*◌, ◌≤◌, ◌<◌, ◌≡◌, refl, ap, ◌∙◌, Bool, true, false, List, [], ◌∷◌, map, flatten,
  ltb, if◌then◌else◌, Outcome, ok, raise, ◌>>=◌, ◌>>◌, length, take, drop, range_from, arith,
  lt→ltb, All, All-range_from, map_ext_range,
}
use ne_mo_rl.Batch.{
  BatchError, require, Columns, not_enough_splits, over_columns, slice_list, select, common_size,
  chunk, tensor_split,
}
use ne_mo_rl.Batch.Columns.{
  select-range_from, common_size-IsSized, common_size-over_columns, rows_at, rows_at-IsSized,
  rows_at-over_columns,
}
use ne_mo_rl.Batch.Slices.{flatten-chunks, length-slice_list}
use native.Mathlib.Nat.{suc-mul, mul-mod_right, mul-div_right, mul-le-mul_right}

over_columns_ext :
    {A : Type 0} (f g : List A → List A) (d : Columns A)
    → ((xs : List A) → f xs ≡ g xs)
    → over_columns f d ≡ over_columns g d
unfolding over_columns
over_columns_ext f g [] h = refl
over_columns_ext f g ((k, c) ∷ d) h = rw (h c.rows, over_columns_ext f g d h) refl

select-slice_list :
    {A : Type 0} (a n : ℕ) (xs : List A)
    → select (range_from (a * n) n) xs ≡ slice_list (a * n) (suc a * n) xs
select-slice_list a n xs =
    let e : n ≡ suc a * n - a * n = ground (arith, suc-mul a n) in
    select-range_from (a * n) n xs ∙ ap (λ m. take m (drop (a * n) xs)) e

sliced_if :
    {A : Type 0} (size rank : ℕ) (d : Columns A) (b : Bool)
    → (require b not_enough_splits
        >> (ok (range_from (rank * size) size) >>= λ indices. ok (over_columns (select indices) d)))
      ≡ (if b
          then ok (over_columns (slice_list (rank * size) (suc rank * size)) d)
          else raise not_enough_splits)
sliced_if size rank d true = ap ok (over_columns_ext _ _ d (λ xs. select-slice_list rank size xs))
sliced_if size rank d false = refl

module _ {A : Type 0} (chunks : ℕ) (d : Columns A) where
  -- The rows of column `j` that the ranks get, none from a rank that is refused
  abbrev rows_of : ℕ → Outcome BatchError (Columns A) → List A
  rows_of j (raise e) = []
  rows_of j (ok part) = rows_at j part

  abbrev pub chunk_rows : ℕ → ℕ → List A
  chunk_rows j rank = rows_of j (chunk rank chunks d)

  -- A rank gets a batch with `size` rows in every column.
  abbrev pub IsChunk : ℕ → ℕ → Type 0
  IsChunk size rank =
      (part : Columns A) × (chunk rank chunks d ≡ ok part) × (common_size part ≡ ok size)

  module _ (size : ℕ) (sized : common_size d ≡ ok (chunks * size)) (enough : chunks ≤ size) where
    chunk_slice :
        (rank : ℕ)
        → rank < chunks
        → chunk rank chunks d ≡ ok (over_columns (slice_list (rank * size) (suc rank * size)) d)
    unfolding chunk tensor_split
    chunk_slice rank lt =
        let pos : 0 < chunks = omega (arith, lt) in
        let short : rank < size = omega (arith, lt, enough) in
        rw sized (
          rw (lt→ltb 0 chunks pos, mul-mod_right chunks size)
            (rw (mul-div_right size pos, lt→ltb rank chunks lt)
              (sliced_if size rank d (ltb rank size) ∙ rw (lt→ltb rank size short) refl)))

    chunk_size :
        (rank : ℕ) (xs : List A)
        → rank < chunks
        → length xs ≡ chunks * size
        → length (slice_list (rank * size) (suc rank * size) xs) ≡ size
    chunk_size rank xs lt e =
        let bound : suc rank * size ≤ length xs = rw e (mul-le-mul_right size lt) in
        omega (arith, length-slice_list (rank * size) (suc rank * size) xs bound, suc-mul rank size)

    IsChunk-below : (rank : ℕ) → rank < chunks → IsChunk size rank
    IsChunk-below rank lt = (
      _,
      chunk_slice rank lt,
      common_size-over_columns _ (chunks * size) size d (λ xs. chunk_size rank xs lt) sized,
    )

    -- For a batch of `chunks * size` rows in every column, where a chunk has at least as many rows
    -- as there are chunks: `chunk` gives each rank below the number of chunks a batch with `size`
    -- rows in every column, and the rows of a column that the ranks get, in order of the ranks, are
    -- the rows of that column of the batch.
    pub IsChunk-flatten :
        0 < chunks
        → (j : ℕ) → j < length d
        → All (IsChunk size) (range_from 0 chunks)
          × (flatten (map (chunk_rows j) (range_from 0 chunks)) ≡ rows_at j d)
    IsChunk-flatten pos j has = (
      All-range_from (IsChunk size) 0 chunks (λ rank lt. IsChunk-below rank (omega (arith, lt))),
      ap flatten (
            map_ext_range (chunk_rows j) (λ r. slice_list (r * size) (suc r * size) (rows_at j d)) 0
              chunks
              (λ rank lt.
                ap (rows_of j) (chunk_slice rank (omega (arith, lt)))
                ∙ rows_at-over_columns _ j d has))
          ∙ flatten-chunks chunks size (rows_at j d)
              (rows_at-IsSized _ j d (common_size-IsSized _ d sized) has),
    )
