-- ===== src/Batch/Slices.antt =====
-- Slices of a list, one after the other.
use ne_mo_rl.Common.{
  ℕ, zero, suc, ◌+◌, ◌-◌, ◌*◌, ◌≤◌, ◌≡◌, refl, sym, ap, ◌∙◌, List, [], ◌∷◌, ◌++◌, map, flatten,
  length, take, drop, range_from, arith, length-take,
}
use ne_mo_rl.Batch.{slice_list}
use native.Mathlib.Nat.{suc-mul}

abbrev empty_of : (A : Type 0) → List A
empty_of A = []

module _ {A : Type 0} where
  take_nil : (n : ℕ) → take n (empty_of A) ≡ empty_of A
  take_nil zero = refl
  take_nil (suc n) = refl

  drop_nil : (n : ℕ) → drop n (empty_of A) ≡ empty_of A
  drop_nil zero = refl
  drop_nil (suc n) = refl

  take-append : (m n : ℕ) (xs : List A) → take m xs ++ take n (drop m xs) ≡ take (m + n) xs
  take-append zero n xs = ap (λ k. take k xs) (omega arith)
  take-append (suc m) zero [] = sym (take_nil (suc m + 0))
  take-append (suc m) (suc n) [] = sym (take_nil (suc m + suc n))
  take-append (suc m) n (x ∷ xs) =
      let e : suc (m + n) ≡ suc m + n = omega arith in
      ap (λ l. x ∷ l) (take-append m n xs) ∙ ap (λ k. take k (x ∷ xs)) e

  drop-drop : (m n : ℕ) (xs : List A) → drop n (drop m xs) ≡ drop (m + n) xs
  drop-drop zero n xs = ap (λ k. drop k xs) (omega arith)
  drop-drop (suc m) zero [] = sym (drop_nil (suc m + 0))
  drop-drop (suc m) (suc n) [] = sym (drop_nil (suc m + suc n))
  drop-drop (suc m) n (x ∷ xs) =
      let e : suc (m + n) ≡ suc m + n = omega arith in
      drop-drop m n xs ∙ ap (λ k. drop k (x ∷ xs)) e

  pub take_all : (n : ℕ) (xs : List A) → length xs ≤ n → take n xs ≡ xs
  take_all zero [] h = refl
  take_all zero (x ∷ xs) h = absurd (omega arith)
  take_all (suc n) [] h = refl
  take_all (suc n) (x ∷ xs) h = ap (λ l. x ∷ l) (take_all n xs (omega arith))

  length-drop : (n : ℕ) (xs : List A) → length (drop n xs) ≡ length xs - n
  length-drop zero xs = omega arith
  length-drop (suc n) [] = omega arith
  length-drop (suc n) (x ∷ xs) = length-drop n xs ∙ omega arith

  pub length-slice_list :
      (a b : ℕ) (xs : List A) → b ≤ length xs → length (slice_list a b xs) ≡ b - a
  length-slice_list a b xs h = omega (arith, length-take (b - a) (drop a xs), length-drop a xs)

  pub slice_list_empty : (a b : ℕ) (xs : List A) → b ≤ a → slice_list a b xs ≡ []
  slice_list_empty a b xs h = let e : b - a ≡ 0 = omega arith in ap (λ n. take n (drop a xs)) e

  pub slice_list_whole : (n : ℕ) (xs : List A) → length xs ≤ n → slice_list 0 n xs ≡ xs
  slice_list_whole n xs h =
      let e : n - 0 ≡ n = omega arith in ap (λ m. take m xs) e ∙ take_all n xs h

  pub slice_list-append :
      (a b c : ℕ) (xs : List A)
      → a ≤ b
      → b ≤ c
      → slice_list a b xs ++ slice_list b c xs ≡ slice_list a c xs
  slice_list-append a b c xs h k =
      let e : b ≡ a + (b - a) = omega arith in
      let s : (b - a) + (c - b) ≡ c - a = omega arith in
      ap (λ l. take (b - a) (drop a xs) ++ take (c - b) l)
        (ap (λ m. drop m xs) e ∙ sym (drop-drop a (b - a) xs))
      ∙ take-append (b - a) (c - b) (drop a xs)
      ∙ ap (λ m. take m (drop a xs)) s

  -- Slices whose bounds go up are together one slice.
  pub flatten-slice_list :
      (f : ℕ → ℕ) (i n : ℕ) (xs : List A)
      → ((k : ℕ) → f k ≤ f (suc k))
      → flatten (map (λ k. slice_list (f k) (f (suc k)) xs) (range_from i n))
        ≡ slice_list (f i) (f (i + n)) xs
  unfolding flatten
  flatten-slice_list f i zero xs h =
      let e : i + 0 ≡ i = omega arith in
      sym (slice_list_empty (f i) (f i) xs (omega arith))
      ∙ ap (λ m. slice_list (f i) (f m) xs) (sym e)
  flatten-slice_list f i (suc n) xs h =
      let e : suc i + n ≡ i + suc n = omega arith in
      ap (λ l. slice_list (f i) (f (suc i)) xs ++ l) (flatten-slice_list f (suc i) n xs h)
      ∙ slice_list-append (f i) (f (suc i)) (f (suc i + n)) xs (h i) (rises f h (suc i) n)
      ∙ ap (λ m. slice_list (f i) (f m) xs) e
    where
      rises : (f : ℕ → ℕ) → ((k : ℕ) → f k ≤ f (suc k)) → (i n : ℕ) → f i ≤ f (i + n)
      rises f h i zero = let e : i + 0 ≡ i = omega arith in omega (arith, ap f e)
      rises f h i (suc n) =
          let e : i + suc n ≡ suc (i + n) = omega arith in
          omega (arith, rises f h i n, h (i + n), ap f e)

  -- A list is its chunks of `size` items.
  pub flatten-chunks :
      (n size : ℕ) (xs : List A)
      → length xs ≡ n * size
      → flatten (map (λ k. slice_list (k * size) (suc k * size) xs) (range_from 0 n)) ≡ xs
  flatten-chunks n size xs h =
      let lo : 0 * size ≡ 0 = omega arith in
      let hi : (0 + n) * size ≡ n * size = ap (λ m. m * size) (omega arith) in
      flatten-slice_list (λ k. k * size) 0 n xs (λ k. ground (arith, suc-mul k size))
      ∙ ap (λ m. slice_list m ((0 + n) * size) xs) lo
      ∙ slice_list_whole _ xs (omega (arith, hi, h))
