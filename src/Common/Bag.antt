-- ===== src/Common/Bag.antt =====
-- Sums over a list, and two lists with the same items: every weight gives them the same sum.
use Prim.Native.Nat.{ℕ, ◌+◌, ◌<◌}
use mathlib.Core.Path.{◌≡◌, refl, ap}
use mathlib.Core.Logic.{inl, inr}
use mathlib.Core.List.{List, [], ◌∷◌, ◌++◌, map, flatten, Perm, perm_middle}
use mathlib.Core.List.Perm
use native.Mathlib.Omega.{arith}
use ne_mo_rl.Common.Tests.{◌==◌, if◌then◌else◌, ==_iff, Bool-cases}

module _ {ℓ} {A : Type ℓ} where
  abbrev pub sum_by : (A → ℕ) → List A → ℕ
  sum_by w [] = 0
  sum_by w (x ∷ xs) = w x + sum_by w xs

  pub sum_by-append : (w : A → ℕ) (xs ys : List A) → sum_by w (xs ++ ys) ≡ sum_by w xs + sum_by w ys
  sum_by-append w [] ys = omega arith
  sum_by-append w (x ∷ xs) ys = omega (arith, sum_by-append w xs ys)

  -- The same items, each as often: no weighing tells the two lists apart.
  abbrev pub SameItems : List A → List A → Type ℓ
  SameItems xs ys = (w : A → ℕ) → sum_by w xs ≡ sum_by w ys

pub sum_by-flatten {ℓ} :
    {A : Type ℓ} (w : A → ℕ) (xss : List (List A)) → sum_by w (flatten xss) ≡ sum_by (sum_by w) xss
unfolding flatten
sum_by-flatten w [] = refl
sum_by-flatten w (xs ∷ xss) = omega (arith, sum_by-append w xs (flatten xss), sum_by-flatten w xss)

pub sum_by-map {ℓ κ} :
    {A : Type ℓ} {B : Type κ} (w : B → ℕ) (f : A → B) (xs : List A)
    → sum_by w (map f xs) ≡ sum_by (λ x. w (f x)) xs
sum_by-map w f [] = refl
sum_by-map w f (x ∷ xs) = omega (arith, sum_by-map w f xs)

-- Over numbers the weights that mark one value are enough for a permutation.
abbrev count : ℕ → List ℕ → ℕ
count a = sum_by (λ x. if x == a then 1 else 0)

split_at : (a : ℕ) (ys : List ℕ) → 0 < count a ys → (l : List ℕ) × (r : List ℕ) × (ys ≡ l ++ a ∷ r)
split_at a [] h = absurd (omega arith)
split_at a (y ∷ ys) h = elim (Bool-cases (y == a)) [
  | inl e ↦ ([], ys, ap (λ b. b ∷ ys) ((==_iff y a).0 e))
  | inr e ↦ let (l, r, eq) = split_at a ys (ground arith) in (y ∷ l, r, ap (λ t. y ∷ t) eq)
]

nil_of_count : (ys : List ℕ) → ((a : ℕ) → count a ys ≡ 0) → ys ≡ []
nil_of_count [] h = refl
nil_of_count (y ∷ ys) h = absurd (ground (arith, h y))

perm_of_count : (xs ys : List ℕ) → ((a : ℕ) → count a xs ≡ count a ys) → Perm xs ys
perm_of_count [] ys h = rw (nil_of_count ys (λ a. omega (arith, h a))) Perm.rfl
perm_of_count (x ∷ xs) ys h =
    let (l, r, eq) = split_at x ys (ground (arith, h x)) in
    let rest : (a : ℕ) → count a xs ≡ count a (l ++ r) = λ a. omega (
      arith,
      h a,
      ap (count a) eq,
      sum_by-append (λ x. if x == a then 1 else 0) l (x ∷ r),
      sum_by-append (λ x. if x == a then 1 else 0) l r,
    ) in
    rw eq (Perm.trans (Perm.cons x (perm_of_count xs (l ++ r) rest)) (Perm.symm (perm_middle l r)))

pub perm_of_SameItems : (xs ys : List ℕ) → SameItems xs ys → Perm xs ys
perm_of_SameItems xs ys h = perm_of_count xs ys (λ a. h _)
