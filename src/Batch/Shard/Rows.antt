-- ===== src/Batch/Shard/Rows.antt =====
-- The shards that `shard_by_batch_size` returns, column by column.
use ne_mo_rl.Common.{
  ℕ, zero, suc, ◌+◌, ◌*◌, ◌≤◌, ◌<◌, ◌≡◌, refl, ap, ◌∙◌, false, List, [], ◌∷◌, map, flatten, some,
  ok, length, length-map, range_from, arith, lt→ltb, sum_by, SameItems, All, length-range_from,
}
use ne_mo_rl.Batch.{Columns, common_size}
use ne_mo_rl.Batch.Columns.{rows_at, rows_at-IsSized, IsSized, common_size-IsSized}
use ne_mo_rl.Batch.Shard.{
  shard_ranges, shard_by_batch_size, cut_rows, cut_columns, aggregated_shards, shard_sizes,
}
use ne_mo_rl.Batch.Shard.Bounds.{
  cut_kind-tensor, even_sizes, even-SameItems, even_nonempty, even_length, map_ext,
}
use native.Mathlib.Nat.{mul-mod_right, mul-div_right, mul-mod_left, mul-div_left, mul-pos}

pub rows_at-cut_columns :
    {A : Type 0} (missing : A) (ranges : List (ℕ × ℕ)) (j : ℕ) (d : Columns A)
    → 0 < length ranges
    → j < length d
    → rows_at j (cut_columns missing ranges d) ≡ cut_rows ranges (rows_at j d)
unfolding cut_columns
rows_at-cut_columns missing ranges j [] h lt = absurd (omega arith)
rows_at-cut_columns missing ranges zero ((k, c) ∷ d) h lt =
    cut_kind-tensor missing c.kind ranges c.rows h
rows_at-cut_columns missing ranges (suc j) ((k, c) ∷ d) h lt =
    rows_at-cut_columns missing ranges j d h (omega arith)

pub map-map :
    {A B C : Type 0} (g : B → C) (f : A → B) (xs : List A)
    → map g (map f xs) ≡ map (λ x. g (f x)) xs
map-map g f [] = refl
map-map g f (x ∷ xs) = ap (λ l. g (f x) ∷ l) (map-map g f xs)

shard_sizes-even :
    (n shards size : ℕ)
    → 0 < n
    → 0 < shards
    → 0 < size
    → shard_sizes shards false (n * (shards * size)) (shards * size) ≡ ok (even_sizes n shards size)
unfolding shard_sizes
shard_sizes-even n shards size hn hs hz =
    let pos : 0 < shards * size = mul-pos hs hz in
    rw
      (
        lt→ltb 0 (shards * size) pos,
        mul-mod_left n (shards * size),
        lt→ltb 0 shards hs,
        mul-mod_right shards size,
      )
      (rw (mul-div_left n pos, mul-div_right size hs) refl)

module _ {A : Type 0} (missing : A) (n shards size : ℕ) (hn : 0 < n) (hs : 0 < shards)
    (hz : 0 < size) where
  -- The shards' rows of a column that is in the batch.
  pub even_rows :
      (j : ℕ) (d : Columns A)
      → j < length d
      → map (rows_at j) (aggregated_shards missing shards false (even_sizes n shards size) d)
        ≡ map
            (λ s.
              cut_rows
                (shard_ranges false (even_sizes n shards size) s (range_from 0 n))
                (rows_at j d))
            (range_from 0 shards)
  unfolding aggregated_shards
  even_rows j d lt =
      map-map (rows_at j) _ (range_from 0 shards)
      ∙ map_ext _ _ (range_from 0 shards)
          (λ s. rows_at-cut_columns missing _ j d (even_nonempty n shards size hz s 0 n hn) lt)

  even_parts :
      (j m i : ℕ) (d : Columns A)
      → j < length d
      → IsSized (n * (shards * size)) d
      → i + m ≤ shards
      → All
          (λ p. length (rows_at j p) ≡ n * size)
          (map
            (λ s.
              cut_columns missing
                (shard_ranges false (even_sizes n shards size) s (range_from 0 n))
                d)
            (range_from i m))
  even_parts j zero i d lt sized h = tt
  even_parts j (suc m) i d lt sized h = (
    ap length (rows_at-cut_columns missing _ j d (even_nonempty n shards size hz i 0 n hn) lt)
        ∙ even_length n shards size hz (rows_at j d) i (omega arith)
            (rows_at-IsSized _ j d sized lt),
    even_parts j m (suc i) d lt sized (omega arith),
  )

  -- For columns that all have `n * (shards * size)` rows, these three numbers positive, and the
  -- batch size `shards * size`: `shard_by_batch_size` without uneven shards raises nothing and
  -- returns `shards` shards; and of a column `j` of the batch each shard has `n * size` rows, and
  -- the rows that all shards have of it are the rows of the column, each as often.
  pub shard_by_batch_size-SameItems :
      (d : Columns A) (j : ℕ)
      → common_size d ≡ ok (n * (shards * size))
      → j < length d
      → (parts : List (Columns A)) × (shard_by_batch_size missing shards
            (some (shards * size))
            false
            d
          ≡ ok parts)
        × (length parts ≡ shards)
        × All (λ p. length (rows_at j p) ≡ n * size) parts
        × SameItems (flatten (map (rows_at j) parts)) (rows_at j d)
  unfolding shard_by_batch_size aggregated_shards
  shard_by_batch_size-SameItems d j sized lt = (
    aggregated_shards missing shards false (even_sizes n shards size) d,
    rw sized (rw (shard_sizes-even n shards size hn hs hz) refl),
    length-map _ (range_from 0 shards) ∙ length-range_from 0 shards,
    even_parts j shards 0 d lt (common_size-IsSized _ d sized) (omega arith),
    λ w.
        ap (λ l. sum_by w (flatten l)) (even_rows j d lt)
        ∙ even-SameItems n shards size (rows_at j d)
            (rows_at-IsSized _ j d (common_size-IsSized _ d sized) lt) w,
  )
