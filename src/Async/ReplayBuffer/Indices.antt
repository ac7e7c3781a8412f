-- ===== src/Async/ReplayBuffer/Indices.antt =====
-- Selecting and removing by ascending indices (nemo_rl/algorithms/async_utils.py).
use mathlib.Core.Option
use ne_mo_rl.Common.{
  ℕ, zero, suc, ◌≤◌, ◌<◌, ◌≡◌, refl, ap, ◌∙◌, Bool, ◌&&◌, Option, none, some, List, [], ◌∷◌, ◌++◌,
  map, ◌==◌, if◌then◌else◌, length, get_elem?, take, erase_idx, sort_by, insert_by, All, All_mono,
  All-sort_by, arith, Bool-cases, inl, inr, leb-false,
}
use ne_mo_rl.Async.ReplayBuffer.{
  positions_from, positions_with, select, keep_some, pop_all, largest_first,
}

-- The entries that pass, in their order.
unfoldable pub passing : {A : Type 0} → (A → Bool) → List A → List A
passing p [] = []
passing p (x ∷ xs) = let later = passing p xs in if p x then x ∷ later else later

-- The list without the first `n` entries that pass.
unfoldable pub without_first : {A : Type 0} → (A → Bool) → ℕ → List A → List A
without_first p n [] = []
without_first p zero (x ∷ xs) = x ∷ xs
without_first p (suc n) (x ∷ xs) =
    let gone = without_first p n xs in
    let kept = x ∷ without_first p (suc n) xs in if p x then gone else kept

take-map : (n : ℕ) (is : List ℕ) → take n (map suc is) ≡ map suc (take n is)
take-map zero is = refl
take-map (suc n) [] = refl
take-map (suc n) (i ∷ is) = ap (λ t. suc i ∷ t) (take-map n is)

-- Indices in ascending order, none twice.
abbrev Increasing : List ℕ → Type 0
Increasing [] = Unit
Increasing (i ∷ is) = All (λ j. i < j) is × Increasing is

All-take : (P : ℕ → Type 0) (n : ℕ) (is : List ℕ) → All P is → All P (take n is)
All-take P zero is h = tt
All-take P (suc n) [] h = tt
All-take P (suc n) (i ∷ is) h = (h.0, All-take P n is h.1)

take-Increasing : (n : ℕ) (is : List ℕ) → Increasing is → Increasing (take n is)
take-Increasing zero is h = tt
take-Increasing (suc n) [] h = tt
take-Increasing (suc n) (i ∷ is) h = (All-take (λ j. i < j) n is h.0, take-Increasing n is h.1)

insert_last : (i : ℕ) (l : List ℕ) → All (λ j. i < j) l → insert_by largest_first i l ≡ l ++ i ∷ []
unfolding insert_by
insert_last i [] h = refl
insert_last i (j ∷ l) h = rw (leb-false j i h.0) (ap (λ t. j ∷ t) (insert_last i l h.1))

module _ {A : Type 0} where
  positions-suc :
      (p : A → Bool) (i : ℕ) (xs : List A)
      → positions_from p (suc i) xs ≡ map suc (positions_from p i xs)
  unfolding positions_from
  positions-suc p i [] = refl
  positions-suc p i (x ∷ xs) = ground (arith, positions-suc p (suc i) xs)

  select-suc : (x : A) (xs : List A) (is : List ℕ) → select (x ∷ xs) (map suc is) ≡ select xs is
  unfolding select
  select-suc x xs [] = refl
  select-suc x xs (i ∷ is) = ap (keep_some (get_elem? xs i)) (select-suc x xs is)

  -- The removals, from the last index to the first.
  abbrev erase_all : List ℕ → List A → List A
  erase_all [] l = l
  erase_all (i ∷ is) l = erase_idx (erase_all is l) i

  erase_all-suc :
      (x : A) (xs : List A) (is : List ℕ) → erase_all (map suc is) (x ∷ xs) ≡ x ∷ erase_all is xs
  erase_all-suc x xs [] = refl
  erase_all-suc x xs (i ∷ is) = ap (λ l. erase_idx l (suc i)) (erase_all-suc x xs is)

  pub select-positions :
      (p : A → Bool) (n : ℕ) (xs : List A)
      → select xs (take n (positions_from p 0 xs)) ≡ take n (passing p xs)
  unfolding positions_from passing select
  select-positions p zero xs = refl
  select-positions p (suc n) [] = refl
  select-positions p (suc n) (x ∷ xs) = elim (Bool-cases (p x)) [
    | inl e ↦
        rw (e, positions-suc p 0 xs, take-map n (positions_from p 0 xs))
          (ap (λ l. x ∷ l)
            (select-suc x xs (take n (positions_from p 0 xs)) ∙ select-positions p n xs))
    | inr e ↦
        rw (e, positions-suc p 0 xs, take-map (suc n) (positions_from p 0 xs))
          (select-suc x xs (take (suc n) (positions_from p 0 xs)) ∙ select-positions p (suc n) xs)
  ]

  erase-positions :
      (p : A → Bool) (n : ℕ) (xs : List A)
      → erase_all (take n (positions_from p 0 xs)) xs ≡ without_first p n xs
  unfolding positions_from without_first
  erase-positions p zero [] = refl
  erase-positions p zero (x ∷ xs) = refl
  erase-positions p (suc n) [] = refl
  erase-positions p (suc n) (x ∷ xs) = elim (Bool-cases (p x)) [
    | inl e ↦
        rw (e, positions-suc p 0 xs, take-map n (positions_from p 0 xs))
          (ap (λ l. erase_idx l 0) (erase_all-suc x xs (take n (positions_from p 0 xs)))
            ∙ erase-positions p n xs)
    | inr e ↦
        rw (e, positions-suc p 0 xs, take-map (suc n) (positions_from p 0 xs))
          (erase_all-suc x xs (take (suc n) (positions_from p 0 xs))
            ∙ ap (λ l. x ∷ l) (erase-positions p (suc n) xs))
  ]

  pop_all-snoc :
      (l : List ℕ) (i : ℕ) (xs : List A) → pop_all (l ++ i ∷ []) xs ≡ erase_idx (pop_all l xs) i
  unfolding pop_all
  pop_all-snoc [] i xs = refl
  pop_all-snoc (j ∷ l) i xs = pop_all-snoc l i (erase_idx xs j)

  pop_all-sort_by :
      (is : List ℕ) (xs : List A)
      → Increasing is
      → pop_all (sort_by largest_first is) xs ≡ erase_all is xs
  unfolding sort_by pop_all
  pop_all-sort_by [] xs h = refl
  pop_all-sort_by (i ∷ is) xs h =
      ap (λ l. pop_all l xs)
        (insert_last i (sort_by largest_first is) (All-sort_by largest_first (λ j. i < j) is h.0))
      ∙ pop_all-snoc (sort_by largest_first is) i xs
      ∙ ap (λ l. erase_idx l i) (pop_all-sort_by is xs h.1)

  positions-All : (p : A → Bool) (i : ℕ) (xs : List A) → All (λ j. i ≤ j) (positions_from p i xs)
  unfolding positions_from
  positions-All p i [] = tt
  positions-All p i (x ∷ xs) =
      let later =
        All_mono (λ j (h : suc i ≤ j). le_of_suc i j h) (positions_from p (suc i) xs)
          (positions-All p (suc i) xs) in
      elim (Bool-cases (p x)) [ inl e ↦ rw e (omega arith, later) | inr e ↦ rw e later ]
    where
      le_of_suc : (i j : ℕ) → suc i ≤ j → i ≤ j
      le_of_suc i j h = omega arith

  positions-Increasing : (p : A → Bool) (i : ℕ) (xs : List A) → Increasing (positions_from p i xs)
  unfolding positions_from
  positions-Increasing p i [] = tt
  positions-Increasing p i (x ∷ xs) = elim (Bool-cases (p x)) [
    | inl e ↦ rw e (positions-All p (suc i) xs, positions-Increasing p (suc i) xs)
    | inr e ↦ rw e (positions-Increasing p (suc i) xs)
  ]

  -- The removal of the first `n` entries that pass, as the code makes it.
  pub pop_all-positions :
      (p : A → Bool) (n : ℕ) (xs : List A)
      → pop_all (sort_by largest_first (take n (positions_from p 0 xs))) xs ≡ without_first p n xs
  pop_all-positions p n xs =
      pop_all-sort_by (take n (positions_from p 0 xs)) xs
        (take-Increasing n (positions_from p 0 xs) (positions-Increasing p 0 xs))
      ∙ erase-positions p n xs

  pub length-positions :
      (p : A → Bool) (i : ℕ) (xs : List A) → length (positions_from p i xs) ≡ length (passing p xs)
  unfolding positions_from passing
  length-positions p i [] = refl
  length-positions p i (x ∷ xs) = ground (arith, length-positions p (suc i) xs)

positions_with-suc :
    (v y : ℕ) (l is : List ℕ)
    → positions_with v (y ∷ l) (map suc is) ≡ map suc (positions_with v l is)
unfolding positions_with
positions_with-suc v y l [] = refl
positions_with-suc v y l (i ∷ is) = ground (arith, positions_with-suc v y l is)

module _ {A B : Type 0} (f : A → B) where
  pub positions-map :
      (p : B → Bool) (i : ℕ) (xs : List A)
      → positions_from p i (map f xs) ≡ positions_from (λ x. p (f x)) i xs
  unfolding positions_from
  positions-map p i [] = refl
  positions-map p i (x ∷ xs) = ground (arith, positions-map p (suc i) xs)

  get_elem?-map : (xs : List A) (i : ℕ) → get_elem? (map f xs) i ≡ Option.map f (get_elem? xs i)
  get_elem?-map [] i = refl
  get_elem?-map (x ∷ xs) zero = refl
  get_elem?-map (x ∷ xs) (suc i) = get_elem?-map xs i

  keep_some-map :
      (o : Option A) (l : List A) → keep_some (Option.map f o) (map f l) ≡ map f (keep_some o l)
  keep_some-map none l = refl
  keep_some-map (some x) l = refl

  pub select-map : (xs : List A) (is : List ℕ) → select (map f xs) is ≡ map f (select xs is)
  unfolding select
  select-map xs [] = refl
  select-map xs (i ∷ is) =
      rw (get_elem?-map xs i, select-map xs is) (keep_some-map (get_elem? xs i) (select xs is))

  erase_idx-map : (xs : List A) (i : ℕ) → erase_idx (map f xs) i ≡ map f (erase_idx xs i)
  erase_idx-map [] i = refl
  erase_idx-map (x ∷ xs) zero = refl
  erase_idx-map (x ∷ xs) (suc i) = ap (λ t. f x ∷ t) (erase_idx-map xs i)

  pub pop_all-map : (is : List ℕ) (xs : List A) → pop_all is (map f xs) ≡ map f (pop_all is xs)
  unfolding pop_all
  pop_all-map [] xs = refl
  pop_all-map (i ∷ is) xs = ap (pop_all is) (erase_idx-map xs i) ∙ pop_all-map is (erase_idx xs i)

-- The second filter, by the target at each index that passed the first.
pub positions_with-positions :
    {A : Type 0} (p : A → Bool) (t : A → ℕ) (v : ℕ) (xs : List A)
    → positions_with v (map t xs) (positions_from p 0 xs)
      ≡ positions_from (λ x. p x && t x == v) 0 xs
unfolding positions_from positions_with
positions_with-positions p t v [] = refl
positions_with-positions p t v (x ∷ xs) =
    let shifted =
      positions_with-suc v (t x) (map t xs) (positions_from p 0 xs)
      ∙ ap (map suc) (positions_with-positions p t v xs) in
    rw (positions-suc p 0 xs, positions-suc (λ y. p y && t y == v) 0 xs)
      (elim (Bool-cases (p x)) [
        | inl e ↦ elim (Bool-cases (t x == v)) [
          | inl g ↦ rw (e, g) (ap (λ l. 0 ∷ l) shifted)
          | inr g ↦ rw (e, g) shifted
        ]
        | inr e ↦ rw e shifted
      ])
