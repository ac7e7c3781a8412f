-- ===== src/Puzzle/Grid.antt =====
-- Cells of a grid and their sums (nemo_rl/environments/games/sliding_puzzle.py).
use ne_mo_rl.Common.{
  ℕ, zero, suc, ◌+◌, ◌<◌, ◌≡◌, ◌≢◌, ap, ◌∙◌, ◌⊎◌, inl, inr, List, [], ◌∷◌, ◌==◌, length, length-set,
  get_or, get_or-set_self, get_or-set_ne, set, sum_by, All, arith, Bool-cases, subst,
}
use ne_mo_rl.Puzzle.{Grid, cell, set_cell}

sum_by-set {ℓ} :
    {A : Type ℓ} (w : A → ℕ) (xs : List A) (i : ℕ) (v d : A)
    → i < length xs
    → sum_by w (set xs i v) + w (get_or xs i d) ≡ sum_by w xs + w v
sum_by-set w [] i v d h = absurd (omega arith)
sum_by-set w (x ∷ xs) zero v d h = omega arith
sum_by-set w (x ∷ xs) (suc i) v d h = omega (arith, sum_by-set w xs i v d (omega (arith, h)))

pub All-set {ℓ} :
    {A : Type ℓ} (P : A → Type 0) (xs : List A) (i : ℕ) (v : A)
    → All P xs
    → P v
    → All P (set xs i v)
All-set P [] i v h p = tt
All-set P (x ∷ xs) zero v h p = (p, h.1)
All-set P (x ∷ xs) (suc i) v h p = (h.0, All-set P xs i v h.1 p)

pub All-get_or {ℓ} :
    {A : Type ℓ} (P : A → Type 0) (xs : List A) (i : ℕ) (d : A)
    → All P xs
    → i < length xs
    → P (get_or xs i d)
All-get_or P [] i d h lt = absurd (omega arith)
All-get_or P (x ∷ xs) zero d h lt = h.0
All-get_or P (x ∷ xs) (suc i) d h lt = All-get_or P xs i d h.1 (omega (arith, lt))

-- The grid is a square of side `n`.
pub record IsSquare (n : ℕ) (g : Grid) : Type 0 where
  pub rows : length g ≡ n
  pub columns : All (λ row. length row ≡ n) g

module _ (n : ℕ) (g : Grid) (square : IsSquare n g) (r c : ℕ) (in_row : r < n) (in_column : c < n)
    (v : ℕ) where
  abbrev row : List ℕ
  row = get_or g r []

  short_row : r < length g
  short_row = omega (arith, square.rows, in_row)

  length-row : length row ≡ n
  length-row = All-get_or (λ x. length x ≡ n) g r [] square.columns short_row

  short_column : c < length row
  short_column = omega (arith, length-row, in_column)

  pub set_cell-IsSquare : IsSquare n (set_cell g r c v)
  set_cell-IsSquare = record {
    rows = length-set g r (set row c v) ∙ square.rows;
    columns =
        All-set (λ x. length x ≡ n) g r (set row c v) square.columns
          (length-set row c v ∙ length-row);
  }

  pub cell-set_self : cell (set_cell g r c v) r c ≡ v
  cell-set_self =
      ap (λ x. get_or x c 0) (get_or-set_self g r (set row c v) [] short_row)
      ∙ get_or-set_self row c v 0 short_column

  -- Writing a cell exchanges its weight.
  pub sum_by-set_cell :
      (w : ℕ → ℕ)
      → sum_by (sum_by w) (set_cell g r c v) + w (cell g r c) ≡ sum_by (sum_by w) g + w v
  sum_by-set_cell w = omega (
    arith,
    sum_by-set (sum_by w) g r (set row c v) [] short_row,
    sum_by-set w row c v 0 short_column,
  )

  pub cell-set_other :
      (r' c' : ℕ) → (r ≢ r') ⊎ (c ≢ c') → cell (set_cell g r c v) r' c' ≡ cell g r' c'
  cell-set_other r' c' (inl h) = ap (λ x. get_or x c' 0) (get_or-set_ne g r r' (set row c v) [] h)
  cell-set_other r' c' (inr h) = elim (Bool-cases (r == r')) [
    | inl e ↦
        let same : r ≡ r' = ground (arith, e) in
        subst (λ k. cell (set_cell g r c v) k c' ≡ cell g k c') same
          (ap (λ x. get_or x c' 0) (get_or-set_self g r (set row c v) [] short_row)
            ∙ get_or-set_ne row c c' v 0 h)
    | inr e ↦
        ap (λ x. get_or x c' 0)
          (get_or-set_ne g r r' (set row c v) [] (λ same. ground (arith, e, same)))
  ]
