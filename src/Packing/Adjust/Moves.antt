-- ===== src/Packing/Adjust/Moves.antt =====
-- Facts about bins read and written by index, and what moving one sequence does to them.
use ne_mo_rl.Common.{
  ℕ, zero, suc, ◌+◌, ◌-◌, ◌<◌, ◌≡◌, ◌≢◌, sym, ap, ◌∙◌, List, [], ◌∷◌, ◌++◌, length, length-set,
  get_or, set, get_or-set_self, get_or-set_ne, sum_by, All, arith,
}
use ne_mo_rl.Packing.Packer.{Bin, Bins}
use ne_mo_rl.Packing.Adjust.{last_or, drop_last, move_one}

module _ {ℓ} {A : Type ℓ} where
  pub sum_by-set :
      (w : A → ℕ) (xs : List A) (i : ℕ) (v d : A)
      → i < length xs
      → sum_by w (set xs i v) + w (get_or xs i d) ≡ sum_by w xs + w v
  sum_by-set w [] i v d h = elim h [ ]
  sum_by-set w (x ∷ xs) zero v d h = omega arith
  sum_by-set w (x ∷ xs) (suc i) v d h = omega (arith, sum_by-set w xs i v d (omega arith))

  pub All_of_get_or {κ} :
      (P : A → Type κ) (xs : List A) (d : A)
      → ((i : ℕ) → i < length xs → P (get_or xs i d))
      → All P xs
  All_of_get_or P [] d h = tt
  All_of_get_or P (x ∷ xs) d h =
      (h 0 (omega arith), All_of_get_or P xs d (λ i lt. h (suc i) (omega arith)))

  pub get_or_of_All {κ} :
      (P : A → Type κ) (xs : List A) (d : A) (i : ℕ) → i < length xs → All P xs → P (get_or xs i d)
  get_or_of_All P [] d i lt h = elim lt [ ]
  get_or_of_All P (x ∷ xs) d zero lt h = h.0
  get_or_of_All P (x ∷ xs) d (suc i) lt h = get_or_of_All P xs d i (omega arith) h.1

pub sum_by-drop_last :
    (w : ℕ → ℕ) (b : Bin) → 0 < length b → sum_by w (drop_last b) + w (last_or 0 b) ≡ sum_by w b
unfolding drop_last last_or
sum_by-drop_last w [] h = absurd (omega arith)
sum_by-drop_last w (x ∷ []) h = omega arith
sum_by-drop_last w (x ∷ y ∷ b) h = omega (arith, sum_by-drop_last w (y ∷ b) (omega arith))

pub length-drop_last : (b : Bin) → length (drop_last b) ≡ length b - 1
unfolding drop_last
length-drop_last [] = omega arith
length-drop_last (x ∷ []) = omega arith
length-drop_last (x ∷ y ∷ b) = omega (arith, length-drop_last (y ∷ b))

pub in_range : (bins : Bins) (i : ℕ) → 0 < length (get_or bins i []) → i < length bins
in_range [] i h = absurd (omega arith)
in_range (b ∷ bins) zero h = omega arith
in_range (b ∷ bins) (suc i) h = omega (arith, in_range bins i h)

-- A move from bin `i`, which has two sequences at least, to the empty bin `new`.
module _ (bins : Bins) (i new : ℕ) (two : 1 < length (get_or bins i [])) (room : new < length bins)
    (fresh : get_or bins new [] ≡ []) where
  abbrev source : Bin
  source = get_or bins i []

  abbrev popped : Bins
  popped = set bins i (drop_last source)

  apart : i ≢ new
  apart e = absurd (omega (arith, two, ap length (ap (λ k. get_or bins k []) e ∙ fresh)))

  inside : i < length bins
  inside = in_range bins i (omega arith)

  popped-new : get_or popped new [] ≡ []
  popped-new = get_or-set_ne bins i new (drop_last source) [] apart ∙ fresh

  move_one-eq : move_one bins i new ≡ set popped new (last_or 0 source ∷ [])
  unfolding move_one
  move_one-eq = ap (λ b. set popped new (b ++ last_or 0 source ∷ [])) popped-new

  room_left : new < length popped
  room_left = omega (arith, length-set bins i (drop_last source))

  pub length-move_one : length (move_one bins i new) ≡ length bins
  length-move_one =
      rw move_one-eq
        (length-set popped new (last_or 0 source ∷ []) ∙ length-set bins i (drop_last source))

  pub move_one_new : get_or (move_one bins i new) new [] ≡ last_or 0 source ∷ []
  move_one_new = rw move_one-eq (get_or-set_self popped new (last_or 0 source ∷ []) [] room_left)

  pub move_one-source : get_or (move_one bins i new) i [] ≡ drop_last source
  move_one-source = rw move_one-eq (
      get_or-set_ne popped new i (last_or 0 source ∷ []) [] (λ e. apart (sym e))
      ∙ get_or-set_self bins i (drop_last source) [] inside)

  pub move_one_other :
      (j : ℕ) → j ≢ i → j ≢ new → get_or (move_one bins i new) j [] ≡ get_or bins j []
  move_one_other j p q = rw move_one-eq (
      get_or-set_ne popped new j (last_or 0 source ∷ []) [] (λ e. q (sym e))
      ∙ get_or-set_ne bins i j (drop_last source) [] (λ e. p (sym e)))

  pub sum_by-move_one :
      (w : ℕ → ℕ) → sum_by (sum_by w) (move_one bins i new) ≡ sum_by (sum_by w) bins
  sum_by-move_one w = rw move_one-eq (
      omega (
        arith,
        sum_by-set (sum_by w) popped new (last_or 0 source ∷ []) [] room_left,
        sum_by-set (sum_by w) bins i (drop_last source) [] inside,
        sum_by-drop_last w source (omega arith),
        ap (sum_by w) popped-new,
      ))
