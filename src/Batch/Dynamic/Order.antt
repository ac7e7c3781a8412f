-- ===== src/Batch/Dynamic/Order.antt =====
-- The order that dynamic batching (`shard_by_batch_size` of `BatchedDataDict`) puts the rows in.
use ne_mo_rl.Common.{
  ℕ, zero, suc, ◌+◌, ◌-◌, ◌*◌, ◌<◌, ◌≡◌, refl, sym, ap, ◌∙◌, subst, Bool, false, List, [], ◌∷◌, map,
  flatten, ok, length, range_from, arith, sum_by, sum_by-map, sum_by-sort_by, perm_of_SameItems,
  sort_by, All,
}
use mathlib.Core.List.{Perm}
use ne_mo_rl.Batch.{lookup, Column, Columns, select, over_columns, common_size, reordered_indices}
use ne_mo_rl.Batch.Columns.{
  rows_at, rows_at-IsSized, rows_at-over_columns, length-over_columns, common_size-IsSized,
  length-select,
}
use ne_mo_rl.Batch.Reorder.{reorder_rows, perm-length, perm-below}
use ne_mo_rl.Batch.Shard.{ShardSizes, aggregated_shards, cut_rows, shard_ranges}
use ne_mo_rl.Batch.Shard.Bounds.{sum_by_ext, sum_by-flatten-map, even_sizes, even_ordered}
use ne_mo_rl.Batch.Shard.Rows.{even_rows}
use ne_mo_rl.Batch.Dynamic.{
  DynamicBatchingArgs, every_kth, chunk_order, batch_sorted_indices, sorted_shards,
}
use native.Mathlib.Nat.{suc-mul}

module _ (f : ℕ → ℕ) where
  pub sum_by-range_suc :
      (a n : ℕ) → sum_by f (range_from (suc a) n) ≡ sum_by (λ i. f (suc i)) (range_from a n)
  sum_by-range_suc a zero = refl
  sum_by-range_suc a (suc n) = ap (λ m. f (suc a) + m) (sum_by-range_suc (suc a) n)

  pub sum_by-range_last :
      (a n : ℕ) → sum_by f (range_from a (suc n)) ≡ sum_by f (range_from a n) + f (a + n)
  sum_by-range_last a zero = let e : a ≡ a + 0 = omega arith in omega (arith, ap f e)
  sum_by-range_last a (suc n) =
      let e : suc a + n ≡ a + suc n = omega arith in
      omega (arith, sum_by-range_last (suc a) n, ap f e)

  pub sum_by-range_shift :
      (k a n : ℕ) → sum_by (λ i. f (i + k)) (range_from a n) ≡ sum_by f (range_from (a + k) n)
  sum_by-range_shift k a zero = refl
  sum_by-range_shift k a (suc n) =
      let e : suc a + k ≡ suc (a + k) = omega arith in
      ap (λ m. f (a + k) + m)
        (sum_by-range_shift k (suc a) n ∙ ap (λ b. sum_by f (range_from b n)) e)

  pub sum_by-range_append :
      (a m n : ℕ)
      → sum_by f (range_from a m) + sum_by f (range_from (a + m) n)
        ≡ sum_by f (range_from a (m + n))
  sum_by-range_append a zero n =
      let e : a + 0 ≡ a = omega arith in
      let z : 0 + n ≡ n = omega arith in
      omega (arith, ap (λ b. sum_by f (range_from b n)) e, ap (λ k. sum_by f (range_from a k)) z)
  sum_by-range_append a (suc m) n =
      let e : a + suc m ≡ suc a + m = omega arith in
      let s : suc m + n ≡ suc (m + n) = omega arith in
      omega (
        arith,
        sum_by-range_append (suc a) m n,
        ap (λ b. sum_by f (range_from b n)) e,
        ap (λ k. sum_by f (range_from a k)) s,
      )

  pub sum_by-chunks :
      (b i n : ℕ)
      → sum_by (λ c. sum_by f (range_from (c * b) b)) (range_from i n)
        ≡ sum_by f (range_from (i * b) (n * b))
  sum_by-chunks b i zero =
      let e : 0 * b ≡ 0 = omega arith in ap (λ k. sum_by f (range_from (i * b) k)) (sym e)
  sum_by-chunks b i (suc n) =
      ap (λ m. sum_by f (range_from (i * b) b) + m)
        (sum_by-chunks b (suc i) n ∙ ap (λ a. sum_by f (range_from a (n * b))) (suc-mul i b))
      ∙ sum_by-range_append (i * b) b (n * b)
      ∙ ap (λ k. sum_by f (range_from (i * b) k)) (omega (arith, suc-mul n b))

-- The strides of a list have its items, each as often.
strides-SameItems :
    (w : ℕ → ℕ) (m : ℕ) (xs : List ℕ)
    → sum_by (λ i. sum_by w (every_kth (suc m) i xs)) (range_from 0 (suc m)) ≡ sum_by w xs
unfolding every_kth
strides-SameItems w m [] = zeros (range_from 0 (suc m))
  where
    zeros : (is : List ℕ) → sum_by (λ i. 0) is ≡ 0
    zeros [] = refl
    zeros (i ∷ is) = omega (arith, zeros is)
strides-SameItems w m (x ∷ xs) =
    let e : suc m - 1 ≡ 0 + m = omega arith in
    omega (
      arith,
      ap (λ k. sum_by w (every_kth (suc m) k xs)) e,
      sum_by-range_suc (λ i. sum_by w (every_kth (suc m) i (x ∷ xs))) 0 m,
      sum_by-range_last (λ i. sum_by w (every_kth (suc m) i xs)) 0 m,
      strides-SameItems w m xs,
    )

dealt-SameItems :
    (w : ℕ → ℕ) (m : ℕ) (le : ℕ → ℕ → Bool) (start n : ℕ)
    → sum_by w (
        flatten (
          map
            (λ i. every_kth (suc m) i (map (λ i. i + start) (sort_by le (range_from 0 n))))
            (range_from 0 (suc m))))
      ≡ sum_by w (range_from start n)
dealt-SameItems w m le start n =
    let xs : List ℕ = map (λ i. i + start) (sort_by le (range_from 0 n)) in
    sum_by-flatten-map w (λ i. every_kth (suc m) i xs) (range_from 0 (suc m))
    ∙ strides-SameItems w m xs
    ∙ sum_by-map w (λ i. i + start) (sort_by le (range_from 0 n))
    ∙ sum_by-sort_by le (λ i. w (i + start)) (range_from 0 n)
    ∙ sum_by-range_shift w start 0 n
    ∙ ap (λ a. sum_by w (range_from a n)) (omega arith)

chunk_order-SameItems :
    (w : ℕ → ℕ) (shards : ℕ) (z : ShardSizes) (lengths : List ℕ) (c : ℕ)
    → 0 < shards
    → sum_by w (chunk_order shards z lengths c)
      ≡ sum_by w (range_from (c * z.batch_size) z.batch_size)
unfolding chunk_order
chunk_order-SameItems w zero z lengths c h = absurd (omega arith)
chunk_order-SameItems w (suc m) z lengths c h =
    dealt-SameItems w m _ (c * z.batch_size) z.batch_size

batch_sorted_indices-Perm :
    (shards : ℕ) (z : ShardSizes) (lengths : List ℕ) (total : ℕ)
    → 0 < shards
    → z.num_chunks * z.batch_size ≡ total
    → Perm (batch_sorted_indices shards z lengths) (range_from 0 total)
unfolding batch_sorted_indices
batch_sorted_indices-Perm shards z lengths total h e = perm_of_SameItems _ _ (λ w.
    sum_by-flatten-map w (chunk_order shards z lengths) (range_from 0 z.num_chunks)
    ∙ sum_by_ext _ _ (range_from 0 z.num_chunks) (λ c. chunk_order-SameItems w shards z lengths c h)
    ∙ sum_by-chunks w z.batch_size 0 z.num_chunks
    ∙ ap (λ a. sum_by w (range_from a (z.num_chunks * z.batch_size))) (omega arith)
    ∙ ap (λ k. sum_by w (range_from 0 k)) e)

-- The global batch as one chunk, of `shards * size` rows in every column, both numbers positive,
-- with a column of lengths: the part of dynamic batching that sorts and cuts raises nothing; the
-- order it returns is a permutation of all indices; and for a column `j` of the batch, the rows of
-- the shards one after the other, put in the order that `reorder_data` makes of it, are the column.
pub sorted_shards-reordered_indices :
    {A : Type 0} (item : A → ℕ) (width : Column A → ℕ) (args : DynamicBatchingArgs) (missing : A)
    (shards size j : ℕ) (d : Columns A) (lengths : Column A)
    → 0 < shards
    → 0 < size
    → common_size d ≡ ok (shards * size)
    → lookup args.input_lengths_key d ≡ ok lengths
    → j < length d
    → (parts : List (Columns A)) × (order : List ℕ) × (sorted_shards item width args missing shards
          false
          (even_sizes 1 shards size)
          d
        ≡ ok (parts, order))
      × Perm order (range_from 0 (shards * size))
      × (select (reordered_indices order (shards * size)) (flatten (map (rows_at j) parts))
          ≡ rows_at j d)
unfolding sorted_shards
sorted_shards-reordered_indices item width args missing shards size j d lengths hs hz sized found
      lt =
    let z : ShardSizes = even_sizes 1 shards size in
    let order : List ℕ = batch_sorted_indices shards z (map item lengths.rows) in
    let perm : Perm order (range_from 0 (shards * size)) =
      batch_sorted_indices-Perm shards z (map item lengths.rows) (shards * size) hs (omega arith) in
    (
      aggregated_shards missing shards false z (over_columns (select order) d),
      order,
      rw found refl,
      perm,
      let e : length (rows_at j d) ≡ shards * size =
            rows_at-IsSized _ j d (common_size-IsSized _ d sized) lt in
          let all = (perm-below order (shards * size) perm).0 in
          let len : length (select order (rows_at j d)) ≡ shards * size =
            length-select order (rows_at j d) (subst (λ m. All (λ i. i < m) order) (sym e) all)
            ∙ perm-length order (shards * size) perm in
          let joined : flatten (
                map (rows_at j)
                  (aggregated_shards missing shards false z (over_columns (select order) d)))
              ≡ select order (rows_at j d) =
            ap flatten (
              even_rows missing 1 shards size (omega arith) hs hz j (over_columns (select order) d)
                (omega (arith, lt, length-over_columns (select order) d))
              ∙ ap
                  (λ rows.
                    map (λ s. cut_rows (shard_ranges false z s (range_from 0 1)) rows)
                      (range_from 0 shards))
                  (rows_at-over_columns (select order) j d lt))
            ∙ even_ordered shards size (select order (rows_at j d)) len in
          ap (select (reordered_indices order (shards * size))) joined
          ∙ ap (λ m. select (reordered_indices order m) (select order (rows_at j d))) (sym e)
          ∙ reorder_rows (rows_at j d) (select order (rows_at j d)) order
              (subst (λ m. Perm order (range_from 0 m)) (sym e) perm) refl,
    )
