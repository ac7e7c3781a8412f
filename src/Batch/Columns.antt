-- ===== src/Batch/Columns.antt =====
-- Lemmas on rows picked by their index, for the methods of `BatchedDataDict`.
use ne_mo_rl.Common.{
  ℕ, zero, suc, ◌<◌, ◌≡◌, refl, sym, ap, ◌∙◌, subst, Bool, true, false, ◌&&◌, some, List, [], ◌∷◌,
  ◌==◌, if◌then◌else◌, ok, raise, length, get_elem?, take, drop, range_from, ==_iff, arith, All,
}
use ne_mo_rl.Batch.{
  BatchError, Columns, over_columns, each_column, keep_row, select, all_of_size, common_size,
  checked_select, all_below,
}

-- The row at a place, none past the end, put before the rest.
pub get_elem?_in_range :
    {A : Type 0} (xs : List A) (i : ℕ) → i < length xs → (a : A) × (get_elem? xs i ≡ some a)
get_elem?_in_range [] i h = absurd (omega arith)
get_elem?_in_range (x ∷ xs) zero h = (x, refl)
get_elem?_in_range (x ∷ xs) (suc i) h = get_elem?_in_range xs i (omega arith)

take-drop :
    {A : Type 0} (start n : ℕ) (xs : List A)
    → take (suc n) (drop start xs) ≡ keep_row (get_elem? xs start) (take n (drop (suc start) xs))
take-drop zero zero [] = refl
take-drop zero (suc n) [] = refl
take-drop zero n (x ∷ xs) = refl
take-drop (suc start) zero [] = refl
take-drop (suc start) (suc n) [] = refl
take-drop (suc start) n (x ∷ xs) = take-drop start n xs

-- A range of indices picks a slice.
pub select-range_from :
    {A : Type 0} (start n : ℕ) (xs : List A)
    → select (range_from start n) xs ≡ take n (drop start xs)
unfolding select
select-range_from start zero xs = refl
select-range_from start (suc n) xs =
    ap (keep_row (get_elem? xs start)) (select-range_from (suc start) n xs)
    ∙ sym (take-drop start n xs)

pub select_all : {A : Type 0} (xs : List A) → select (range_from 0 (length xs)) xs ≡ xs
select_all xs = select-range_from 0 (length xs) xs ∙ take_all xs
  where
    take_all : {A : Type 0} (xs : List A) → take (length xs) xs ≡ xs
    take_all [] = refl
    take_all (x ∷ xs) = ap (λ l. x ∷ l) (take_all xs)

-- A range that starts one later picks from the list without its head.
pub length-select :
    {A : Type 0} (is : List ℕ) (xs : List A)
    → All (λ i. i < length xs) is
    → length (select is xs) ≡ length is
unfolding select
length-select [] xs h = refl
length-select (i ∷ is) xs h =
    let (a, e) = get_elem?_in_range xs i h.0 in rw e (ap suc (length-select is xs h.1))

pub and_true : (a : Bool) {b : Bool} → (a && b) ≡ true → (a ≡ true) × (b ≡ true)
and_true true h = (refl, h)
and_true false h = absurd cc

-- A test that guards a call which returned
if_ok :
    {A : Type 0} (e : BatchError) {x y : A} (b : Bool)
    → (if b then ok x else raise e) ≡ ok y
    → (b ≡ true) × (x ≡ y)
if_ok e true h = (refl, cc)
if_ok e false h = absurd cc

module _ {A : Type 0} where
  -- Every column has `n` rows.
  abbrev pub IsSized : ℕ → Columns A → Type 0
  IsSized n d = All (λ p. length p.1.rows ≡ n) d

  all_of_size-IsSized : (n : ℕ) (d : Columns A) → all_of_size n d ≡ true → IsSized n d
  unfolding all_of_size
  all_of_size-IsSized n [] h = tt
  all_of_size-IsSized n ((k, c) ∷ d) h =
      let (e, rest) = and_true (length c.rows == n) h in
      ((==_iff _ n).0 e, all_of_size-IsSized n d rest)

  IsSized-all_of_size : (n : ℕ) (d : Columns A) → IsSized n d → all_of_size n d ≡ true
  unfolding all_of_size
  IsSized-all_of_size n [] h = refl
  IsSized-all_of_size n ((k, c) ∷ d) h =
      rw ((==_iff (length c.rows) n).1 h.0) (IsSized-all_of_size n d h.1)

  pub common_size-IsSized : (n : ℕ) (d : Columns A) → common_size d ≡ ok n → IsSized n d
  unfolding common_size
  common_size-IsSized n [] h = absurd cc
  common_size-IsSized n ((k, c) ∷ d) h =
      let (e, eq) = if_ok _ (all_of_size (length c.rows) d) h in
      (eq, all_of_size-IsSized n d (subst (λ m. all_of_size m d ≡ true) eq e))

  -- What every column is mapped to has a common size as well.
  pub common_size-over_columns :
      (f : List A → List A) (n m : ℕ) (d : Columns A)
      → ((xs : List A) → length xs ≡ n → length (f xs) ≡ m)
      → common_size d ≡ ok n
      → common_size (over_columns f d) ≡ ok m
  unfolding common_size over_columns
  common_size-over_columns f n m [] hf h = absurd cc
  common_size-over_columns f n m ((k, c) ∷ d) hf h =
      let sized : IsSized n ((k, c) ∷ d) = common_size-IsSized n ((k, c) ∷ d) h in
      let rest : IsSized m (over_columns f d) = IsSized-over_columns d sized.1 in
      rw (hf c.rows sized.0, IsSized-all_of_size m (over_columns f d) rest) refl
    where
      IsSized-over_columns : (d : Columns A) → IsSized n d → IsSized m (over_columns f d)
      IsSized-over_columns [] h = tt
      IsSized-over_columns ((k, c) ∷ d) h = (hf c.rows h.0, IsSized-over_columns d h.1)

  pub over_columns_inverse :
      (f g : List A → List A) (n : ℕ) (d : Columns A)
      → ((xs : List A) → length xs ≡ n → g (f xs) ≡ xs)
      → IsSized n d
      → over_columns g (over_columns f d) ≡ d
  unfolding over_columns
  over_columns_inverse f g n [] hf h = refl
  over_columns_inverse f g n ((k, c) ∷ d) hf h =
      rw (hf c.rows h.0, over_columns_inverse f g n d hf h.1) refl

  pub select_indices-over_columns :
      (n : ℕ) (is : List ℕ) (d : Columns A)
      → all_below n is ≡ true
      → IsSized n d
      → each_column (checked_select is) d ≡ ok (over_columns (select is) d)
  unfolding each_column over_columns checked_select select
  select_indices-over_columns n is [] hi h = refl
  select_indices-over_columns n is ((k, c) ∷ d) hi h =
      rw (h.0, hi, select_indices-over_columns n is d hi h.1) refl

-- The rows of column `j`
abbrev pub rows_at : {A : Type 0} → ℕ → Columns A → List A
rows_at j [] = []
rows_at zero ((k, c) ∷ d) = c.rows
rows_at (suc j) ((k, c) ∷ d) = rows_at j d

pub rows_at-IsSized :
    {A : Type 0} (n j : ℕ) (d : Columns A) → IsSized n d → j < length d → length (rows_at j d) ≡ n
rows_at-IsSized n j [] h lt = absurd (omega arith)
rows_at-IsSized n zero ((k, c) ∷ d) h lt = h.0
rows_at-IsSized n (suc j) ((k, c) ∷ d) h lt = rows_at-IsSized n j d h.1 (omega arith)

pub rows_at-over_columns :
    {A : Type 0} (f : List A → List A) (j : ℕ) (d : Columns A)
    → j < length d
    → rows_at j (over_columns f d) ≡ f (rows_at j d)
unfolding over_columns
rows_at-over_columns f j [] lt = absurd (omega arith)
rows_at-over_columns f zero ((k, c) ∷ d) lt = refl
rows_at-over_columns f (suc j) ((k, c) ∷ d) lt = rows_at-over_columns f j d (omega arith)

pub length-over_columns :
    {A : Type 0} (f : List A → List A) (d : Columns A) → length (over_columns f d) ≡ length d
unfolding over_columns
length-over_columns f [] = refl
length-over_columns f ((k, c) ∷ d) = ap suc (length-over_columns f d)
