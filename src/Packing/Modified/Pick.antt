-- ===== src/Packing/Modified/Pick.antt =====
-- Taking the first or the last item that fits out of a list: what is taken, and what is left.
use ne_mo_rl.Common.{
  ℕ, suc, ◌+◌, ◌≤◌, ◌<◌, ◌≡◌, refl, Bool, true, Option, none, some, List, [], ◌∷◌, leb, leb→le,
  length, sum_by, All, arith, Bool-cases, inl, inr, IsAscending,
}
use ne_mo_rl.Packing.Modified.{
  Item, size_of, take_first, take_last, keep_head, or_head, last_size, by_size_descending,
}

-- `Sub xs ys`: the list `xs` is what is left of `ys` after some items were taken out.
pub data Sub {A : Type 0} : List A → List A → Type 0 where
  done : Sub [] []
  skip : {xs ys : List A} (y : A) → Sub xs ys → Sub xs (y ∷ ys)
  keep : {xs ys : List A} (y : A) → Sub xs ys → Sub (y ∷ xs) (y ∷ ys)

module _ {A : Type 0} where
  pub Sub-refl : (xs : List A) → Sub xs xs
  Sub-refl [] = done
  Sub-refl (x ∷ xs) = keep x (Sub-refl xs)

  pub Sub-trans : {ys zs : List A} → Sub ys zs → {xs : List A} → Sub xs ys → Sub xs zs
  Sub-trans done s = s
  Sub-trans (skip y t) s = skip y (Sub-trans t s)
  Sub-trans (keep y t) (skip _ s) = skip y (Sub-trans t s)
  Sub-trans (keep y t) (keep _ s) = keep y (Sub-trans t s)

  pub Sub-All : (P : A → Type 0) {xs ys : List A} → Sub xs ys → All P ys → All P xs
  Sub-All P done h = h
  Sub-All P (skip y s) h = Sub-All P s h.1
  Sub-All P (keep y s) h = (h.0, Sub-All P s h.1)

  pub Sub-IsAscending :
      (le : A → A → Bool) {xs ys : List A} → Sub xs ys → IsAscending le ys → IsAscending le xs
  Sub-IsAscending le done h = h
  Sub-IsAscending le (skip y s) h = Sub-IsAscending le s h.1
  Sub-IsAscending le (keep y s) h = (Sub-All (λ z. le y z ≡ true) s h.0, Sub-IsAscending le s h.1)

pub record Taken (r : ℕ) (items : List Item) (p : Item) (rest : List Item) : Type 0 where
  pub fits : size_of p ≤ r
  pub conserved : (w : Item → ℕ) → w p + sum_by w rest ≡ sum_by w items
  pub left : Sub rest items
  pub shorter : length items ≡ suc (length rest)

abbrev pub TakenOrNone : ℕ → List Item → Option (Item × List Item) → Type 0
TakenOrNone r items none = All (λ p. r < size_of p) items
TakenOrNone r items (some (p, rest)) = Taken r items p rest

take_head : (r : ℕ) (p : Item) (rest : List Item) → size_of p ≤ r → Taken r (p ∷ rest) p rest
take_head r p rest h = record {
  fits = h;
  conserved = λ w. refl;
  left = skip p (Sub-refl rest);
  shorter = refl;
}

take_later :
    (r : ℕ) (p q : Item) (rest others : List Item)
    → Taken r rest q others
    → Taken r (p ∷ rest) q (p ∷ others)
take_later r p q rest others t = record {
  fits = t.fits;
  conserved = λ w. omega (arith, t.conserved w);
  left = keep p t.left;
  shorter = omega (arith, t.shorter);
}

keep_head_lem :
    (r : ℕ) (p : Item) (rest : List Item) (o : Option (Item × List Item))
    → r < size_of p
    → TakenOrNone r rest o
    → TakenOrNone r (p ∷ rest) (keep_head p o)
keep_head_lem r p rest none h t = (h, t)
keep_head_lem r p rest (some (q, others)) h t = take_later r p q rest others t

pub take_first_lem : (r : ℕ) (items : List Item) → TakenOrNone r items (take_first r items)
unfolding take_first
take_first_lem r [] = tt
take_first_lem r (p ∷ rest) = elim (Bool-cases (leb (size_of p) r)) [
  | inl e ↦ rw e (take_head r p rest (leb→le (size_of p) r e))
  | inr e ↦ rw e (keep_head_lem r p rest (take_first r rest) (ground arith) (take_first_lem r rest))
]

or_head_lem :
    (r : ℕ) (p : Item) (rest : List Item) (o : Option (Item × List Item))
    → TakenOrNone r rest o
    → TakenOrNone r (p ∷ rest) (or_head r p rest o)
or_head_lem r p rest none t = elim (Bool-cases (leb (size_of p) r)) [
  | inl e ↦ rw e (take_head r p rest (leb→le (size_of p) r e))
  | inr e ↦ rw e (ground arith, t)
]
or_head_lem r p rest (some (q, others)) t = take_later r p q rest others t

pub take_last_lem : (r : ℕ) (items : List Item) → TakenOrNone r items (take_last r items)
unfolding take_last
take_last_lem r [] = tt
take_last_lem r (p ∷ rest) = or_head_lem r p rest (take_last r rest) (take_last_lem r rest)

-- In descending order the last item is the smallest.
pub last_size-le :
    (items : List Item)
    → IsAscending by_size_descending items
    → All (λ p. last_size items ≤ size_of p) items
unfolding last_size
last_size-le [] h = tt
last_size-le (p ∷ []) h = (omega arith, tt)
last_size-le (p ∷ q ∷ rest) h =
    let later = last_size-le (q ∷ rest) h.1 in
    (omega (arith, later.0, leb→le (size_of q) (size_of p) h.0.0), later)
