-- ===== src/Batch/Shard/Bounds.antt =====
-- What the ranges of a shard pick from the rows of one column.
use ne_mo_rl.Common.{
  ℕ, zero, suc, ◌+◌, ◌*◌, ◌≤◌, ◌<◌, ◌≡◌, refl, sym, ap, ◌∙◌, Bool, false, List, [], ◌∷◌, ◌++◌, map,
  flatten, ltb, length, range_from, arith, Bool-cases, inl, inr, lt→ltb, sum_by, SameItems,
  sum_by-flatten, sum_by-map, length-append, append-nil,
}
use ne_mo_rl.Batch.{slice_list, ColumnKind, tensor, packed_tensor, list}
use ne_mo_rl.Batch.Slices.{slice_list_empty, flatten-slice_list, flatten-chunks, length-slice_list}
use ne_mo_rl.Batch.Shard.{ShardSizes, shard_start, shard_ranges, keep_range, cut_rows, cut_kind}
use native.Mathlib.Nat.{suc-mul, mul-le-mul_right}

-- A range that is dropped would pick no row.
pub cut_rows-shard_ranges :
    {A : Type 0} (uneven : Bool) (z : ShardSizes) (s : ℕ) (chunks : List ℕ) (rows : List A)
    → cut_rows (shard_ranges uneven z s chunks) rows
      ≡ flatten (
          map
            (λ c. slice_list (shard_start uneven z c s) (shard_start uneven z c (suc s)) rows)
            chunks)
unfolding shard_ranges flatten
cut_rows-shard_ranges uneven z s [] rows = refl
cut_rows-shard_ranges uneven z s (c ∷ chunks) rows =
    kept (shard_start uneven z c s) (shard_start uneven z c (suc s)) _ _
      (cut_rows-shard_ranges uneven z s chunks rows)
  where
    kept :
        (a b : ℕ) (ranges : List (ℕ × ℕ)) (rest : List _)
        → cut_rows ranges rows ≡ rest
        → cut_rows (keep_range a b ranges) rows ≡ slice_list a b rows ++ rest
    kept a b ranges rest e = elim (Bool-cases (ltb a b)) [
      | inl t ↦ rw t (ap (λ l. slice_list a b rows ++ l) e)
      | inr f ↦ rw f (rw (slice_list_empty a b rows (ground (arith, f))) e)
    ]

pub cut_kind-tensor :
    {A : Type 0} (missing : A) (kind : ColumnKind) (ranges : List (ℕ × ℕ)) (rows : List A)
    → (0 < length ranges)
    → cut_kind missing kind ranges rows ≡ cut_rows ranges rows
unfolding cut_kind
cut_kind-tensor missing tensor ranges rows h = refl
cut_kind-tensor missing list ranges rows h = refl
cut_kind-tensor missing packed_tensor [] rows h = elim h [ ]
cut_kind-tensor missing packed_tensor (r ∷ ranges) rows h = refl

pub sum_by-flatten-map :
    {A B : Type 0} (w : A → ℕ) (g : B → List A) (xs : List B)
    → sum_by w (flatten (map g xs)) ≡ sum_by (λ x. sum_by w (g x)) xs
sum_by-flatten-map w g xs = sum_by-flatten w (map g xs) ∙ sum_by-map (sum_by w) g xs

pub map_ext :
    {A B : Type 0} (f g : A → B) (xs : List A) → ((x : A) → f x ≡ g x) → map f xs ≡ map g xs
map_ext f g [] h = refl
map_ext f g (x ∷ xs) h = rw (h x, map_ext f g xs h) refl

-- Of numbers in rows and columns the sum is the same either way.
pub sum_by_swap :
    {A B : Type 0} (f : A → B → ℕ) (xs : List A) (ys : List B)
    → sum_by (λ x. sum_by (f x) ys) xs ≡ sum_by (λ y. sum_by (λ x. f x y) xs) ys
sum_by_swap f [] ys = sym (zeros ys)
  where
    zeros : {B : Type 0} (ys : List B) → sum_by (λ y. 0) ys ≡ 0
    zeros [] = refl
    zeros (y ∷ ys) = omega (arith, zeros ys)
sum_by_swap f (x ∷ xs) ys =
    ap (λ n. sum_by (f x) ys + n) (sum_by_swap f xs ys) ∙ sym (added (f x) _ ys)
  where
    added :
        {B : Type 0} (g h : B → ℕ) (ys : List B)
        → sum_by (λ y. g y + h y) ys ≡ sum_by g ys + sum_by h ys
    added g h [] = omega arith
    added g h (y ∷ ys) = omega (arith, added g h ys)

pub sum_by_ext :
    {A : Type 0} (v w : A → ℕ) (xs : List A) → ((x : A) → v x ≡ w x) → sum_by v xs ≡ sum_by w xs
sum_by_ext v w [] h = refl
sum_by_ext v w (x ∷ xs) h = omega (arith, h x, sum_by_ext v w xs h)

-- Even shards: `n` chunks of `shards * size` rows.
module _ (n shards size : ℕ) where
  abbrev pub even_sizes : ShardSizes
  even_sizes = record {
    total_batch_size = n * (shards * size);
    batch_size = shards * size;
    num_chunks = n;
    shard_size = size;
  }

  -- The rows that shard `s` has from chunk `c`
  abbrev pub part : {A : Type 0} → List A → ℕ → ℕ → List A
  part rows c s =
      slice_list (c * (shards * size) + s * size) (c * (shards * size) + suc s * size) rows

  even_ranges :
      {A : Type 0} (rows : List A) (s : ℕ)
      → cut_rows (shard_ranges false even_sizes s (range_from 0 n)) rows
        ≡ flatten (map (λ c. part rows c s) (range_from 0 n))
  unfolding shard_start
  even_ranges rows s = cut_rows-shard_ranges false even_sizes s (range_from 0 n) rows

  chunk_parts :
      {A : Type 0} (rows : List A) (c : ℕ)
      → flatten (map (part rows c) (range_from 0 shards))
        ≡ slice_list (c * (shards * size)) (suc c * (shards * size)) rows
  chunk_parts rows c =
      let lo : c * (shards * size) + 0 * size ≡ c * (shards * size) = omega arith in
      let one : 0 + shards ≡ shards = omega arith in
      let hi : c * (shards * size) + (0 + shards) * size ≡ suc c * (shards * size) =
        ap (λ k. c * (shards * size) + k * size) one ∙ omega (arith, suc-mul c (shards * size)) in
      flatten-slice_list (λ s. c * (shards * size) + s * size) 0 shards rows
        (λ k. omega (arith, suc-mul k size))
      ∙ ap (λ a. slice_list a (c * (shards * size) + (0 + shards) * size) rows) lo
      ∙ ap (λ b. slice_list (c * (shards * size)) b rows) hi

  -- Every row of a column is in one of the shards.
  pub even-SameItems :
      {A : Type 0} (rows : List A)
      → length rows ≡ n * (shards * size)
      → SameItems
          (flatten (
            map
              (λ s. cut_rows (shard_ranges false even_sizes s (range_from 0 n)) rows)
              (range_from 0 shards)))
          rows
  even-SameItems rows e w =
      sum_by-flatten-map w _ (range_from 0 shards)
      ∙ sum_by_ext _ _ (range_from 0 shards) (λ s.
        ap (sum_by w) (even_ranges rows s)
        ∙ sum_by-flatten-map w (λ c. part rows c s) (range_from 0 n))
      ∙ sum_by_swap (λ s c. sum_by w (part rows c s)) (range_from 0 shards) (range_from 0 n)
      ∙ sum_by_ext _ _ (range_from 0 n) (λ c.
        sym (sum_by-flatten-map w (part rows c) (range_from 0 shards))
        ∙ ap (sum_by w) (chunk_parts rows c))
      ∙ sym (sum_by-flatten-map w _ (range_from 0 n))
      ∙ ap (sum_by w) (flatten-chunks n (shards * size) rows e)

-- With one chunk the shards are the column, cut.
pub even_ordered :
    {A : Type 0} (shards size : ℕ) (rows : List A)
    → length rows ≡ shards * size
    → flatten (
        map
          (λ s. cut_rows (shard_ranges false (even_sizes 1 shards size) s (range_from 0 1)) rows)
          (range_from 0 shards))
      ≡ rows
unfolding flatten
even_ordered shards size rows e =
    ap flatten (
      map_ext _ _ (range_from 0 shards)
        (λ s. even_ranges 1 shards size rows s ∙ append-nil (part 1 shards size rows 0 s)))
    ∙ chunk_parts 1 shards size rows 0
    ∙ sym (append-nil (slice_list (0 * (shards * size)) (1 * (shards * size)) rows))
    ∙ flatten-chunks 1 (shards * size) rows (omega (arith, e))

module _ (n shards size : ℕ) (pos : 0 < size) where
  even_starts :
      (c s : ℕ)
      → shard_start false (even_sizes n shards size) c s
        < shard_start false (even_sizes n shards size) c (suc s)
  unfolding shard_start
  even_starts c s = omega (arith, suc-mul s size)

  pub even_nonempty :
      (s i m : ℕ)
      → 0 < m
      → 0 < length (shard_ranges false (even_sizes n shards size) s (range_from i m))
  unfolding shard_ranges
  even_nonempty s i zero h = absurd (omega arith)
  even_nonempty s i (suc m) h = rw (lt→ltb _ _ (even_starts i s)) (omega arith)

  length-part :
      {A : Type 0} (rows : List A) (c s : ℕ)
      → c < n
      → s < shards
      → length rows ≡ n * (shards * size)
      → length (part n shards size rows c s) ≡ size
  length-part rows c s hc hs e =
      let whole : suc c * (shards * size) ≤ n * (shards * size) =
        mul-le-mul_right (shards * size) hc in
      let one : suc s * size ≤ shards * size = mul-le-mul_right size hs in
      let fits : c * (shards * size) + suc s * size ≤ length rows =
        omega (arith, suc-mul c (shards * size), whole, one, e) in
      length-slice_list _ _ rows fits ∙ omega (arith, suc-mul s size)

  parts_length :
      {A : Type 0} (rows : List A) (s : ℕ)
      → s < shards
      → length rows ≡ n * (shards * size)
      → (i m : ℕ) → i + m ≤ n
      → length (flatten (map (λ c. part n shards size rows c s) (range_from i m))) ≡ m * size
  unfolding flatten
  parts_length rows s hs e i zero h = omega arith
  parts_length rows s hs e i (suc m) h =
      length-append (part n shards size rows i s) _
      ∙ omega (
        arith,
        length-part rows i s (omega arith) hs e,
        parts_length rows s hs e (suc i) m (omega arith),
        suc-mul m size,
      )

  -- Every shard has as many rows as every other.
  pub even_length :
      {A : Type 0} (rows : List A) (s : ℕ)
      → s < shards
      → length rows ≡ n * (shards * size)
      → length (cut_rows (shard_ranges false (even_sizes n shards size) s (range_from 0 n)) rows)
        ≡ n * size
  even_length rows s hs e =
      ap length (even_ranges n shards size rows s) ∙ parts_length rows s hs e 0 n (omega arith)
