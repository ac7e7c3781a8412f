-- ===== src/Common/Sorting.antt =====
-- Python's stable sort by a test `le`: equal items keep their order. With `reverse=True` the sort
-- is stable too, so it is the sort by the reversed test.
use Prim.Native.Nat.{ℕ, suc, ◌+◌}
use mathlib.Core.Path.{◌≡◌, refl}
use mathlib.Core.Bool.{Bool, true, false}
use mathlib.Core.Logic.{inl, inr}
use mathlib.Core.List.{List, [], ◌∷◌}
use native.Mathlib.Omega.{arith}
use ne_mo_rl.Common.Tests.{if◌then◌else◌, Bool-cases}
use ne_mo_rl.Common.Lists.{length}
use ne_mo_rl.Common.Predicates.{All, All_mono}
use ne_mo_rl.Common.Bag.{sum_by}

module _ {ℓ} {A : Type ℓ} (le : A → A → Bool) where
  unfoldable pub insert_by : A → List A → List A
  insert_by x [] = x ∷ []
  insert_by x (y ∷ ys) = if le x y then x ∷ y ∷ ys else y ∷ insert_by x ys

  unfoldable pub sort_by : List A → List A
  unfolding insert_by
  sort_by [] = []
  sort_by (x ∷ xs) = insert_by x (sort_by xs)

  sum_by-insert_by :
      (w : A → ℕ) (x : A) (ys : List A) → sum_by w (insert_by x ys) ≡ w x + sum_by w ys
  unfolding insert_by
  sum_by-insert_by w x [] = refl
  sum_by-insert_by w x (y ∷ ys) = ground (arith, sum_by-insert_by w x ys)

  -- sorting keeps the items
  pub sum_by-sort_by : (w : A → ℕ) (xs : List A) → sum_by w (sort_by xs) ≡ sum_by w xs
  unfolding sort_by
  sum_by-sort_by w [] = refl
  sum_by-sort_by w (x ∷ xs) = omega (arith, sum_by-insert_by w x (sort_by xs), sum_by-sort_by w xs)

  length-insert_by : (x : A) (ys : List A) → length (insert_by x ys) ≡ suc (length ys)
  unfolding insert_by
  length-insert_by x [] = refl
  length-insert_by x (y ∷ ys) = ground (arith, length-insert_by x ys)

  pub length-sort_by : (xs : List A) → length (sort_by xs) ≡ length xs
  unfolding sort_by
  length-sort_by [] = refl
  length-sort_by (x ∷ xs) = omega (arith, length-insert_by x (sort_by xs), length-sort_by xs)

  module _ {κ} (P : A → Type κ) where
    All-insert_by : (x : A) (ys : List A) → P x → All P ys → All P (insert_by x ys)
    unfolding insert_by
    All-insert_by x [] px h = (px, tt)
    All-insert_by x (y ∷ ys) px h = elim (Bool-cases (le x y)) [
      | inl e ↦ rw e (px, h)
      | inr e ↦ rw e (h.0, All-insert_by x ys px h.1)
    ]

    pub All-sort_by : (xs : List A) → All P xs → All P (sort_by xs)
    unfolding sort_by
    All-sort_by [] h = tt
    All-sort_by (x ∷ xs) h = All-insert_by x (sort_by xs) h.0 (All-sort_by xs h.1)

    All-insert_by_back : (x : A) (ys : List A) → All P (insert_by x ys) → P x × All P ys
    unfolding insert_by
    All-insert_by_back x [] h = h
    All-insert_by_back x (y ∷ ys) h = elim (Bool-cases (le x y)) [
      | inl e ↦ (rw e at h)
      | inr e ↦
          let k : P y × All P (insert_by x ys) = (rw e at h) in
          let (px, rest) = All-insert_by_back x ys k.1 in (px, (k.0, rest))
    ]

    -- What holds of the sorted items held of them before.
    pub All-sort_by_back : (xs : List A) → All P (sort_by xs) → All P xs
    unfolding sort_by
    All-sort_by_back [] h = tt
    All-sort_by_back (x ∷ xs) h =
        let (px, rest) = All-insert_by_back x (sort_by xs) h in (px, All-sort_by_back xs rest)

  -- each item is before all that follow it
  abbrev pub IsAscending : List A → Type 0
  IsAscending [] = Unit
  IsAscending (x ∷ xs) = All (λ y. le x y ≡ true) xs × IsAscending xs

  pub record TotalTest : Type ℓ where
    pub total : (x y : A) → le x y ≡ false → le y x ≡ true
    pub trans : (x y z : A) → le x y ≡ true → le y z ≡ true → le x z ≡ true

  module _ (t : TotalTest) where
    insert_by-IsAscending : (x : A) (ys : List A) → IsAscending ys → IsAscending (insert_by x ys)
    unfolding insert_by
    insert_by-IsAscending x [] h = (tt, tt)
    insert_by-IsAscending x (y ∷ ys) h = elim (Bool-cases (le x y)) [
      | inl e ↦ rw e ((e, All_mono (λ z yz. t.trans x y z e yz) ys h.0), h)
      | inr e ↦ rw e (
        All-insert_by (λ z. le y z ≡ true) x ys (t.total x y e) h.0,
        insert_by-IsAscending x ys h.1,
      )
    ]

    pub sort_by-IsAscending : (xs : List A) → IsAscending (sort_by xs)
    unfolding sort_by
    sort_by-IsAscending [] = tt
    sort_by-IsAscending (x ∷ xs) = insert_by-IsAscending x (sort_by xs) (sort_by-IsAscending xs)
