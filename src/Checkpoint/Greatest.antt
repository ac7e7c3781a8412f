-- ===== src/Checkpoint/Greatest.antt =====
-- The greatest of a list of numbers is the last one of the sorted list.
use ne_mo_rl.Common.{
  ℕ, ◌≤◌, ◌≡◌, ◌≢◌, refl, ap, Option, none, some, List, [], ◌∷◌, leb, length, All, Has, arith,
  Bool-cases, inl, inr, ◌⊎◌, sort_by, insert_by, IsAscending, TotalTest, length-sort_by, leb→le,
}
use ne_mo_rl.Checkpoint.{last_of}

-- The greatest of the numbers, if there are any.
abbrev pub IsGreatest : List ℕ → Option ℕ → Type 0
IsGreatest l none = length l ≡ 0
IsGreatest l (some m) = Has m l × All (λ n. n ≤ m) l

Has-le : (m k : ℕ) (l : List ℕ) → Has m l → All (λ n. n ≤ k) l → m ≤ k
Has-le m k [] i h = elim i [ ]
Has-le m k (n ∷ l) (inl e) h = omega (arith, e, h.0)
Has-le m k (n ∷ l) (inr i) h = Has-le m k l i h.1

Has-some : (m : ℕ) (l : List ℕ) → Has m l → length l ≢ 0
Has-some m [] h e = elim h [ ]
Has-some m (n ∷ l) h e = absurd (omega (arith, e))

pub IsGreatest-unique : (l : List ℕ) (a b : Option ℕ) → IsGreatest l a → IsGreatest l b → a ≡ b
IsGreatest-unique l none none g h = refl
IsGreatest-unique l none (some m) g h = absurd (Has-some m l h.0 g)
IsGreatest-unique l (some m) none g h = absurd (Has-some m l g.0 h)
IsGreatest-unique l (some m) (some k) g h =
    let a = Has-le m k l g.0 h.1 in
    let b = Has-le k m l h.0 g.1 in let e : m ≡ k = omega (arith, a, b) in ap some e

pub leb-TotalTest : TotalTest leb
leb-TotalTest = record {
  total = λ x y h. ground (arith, h);
  trans = λ x y z h k. ground (arith, h, k);
}

Has-insert_by : (m n : ℕ) (l : List ℕ) → Has m (insert_by leb n l) → Has m (n ∷ l)
unfolding insert_by
Has-insert_by m n [] h = h
Has-insert_by m n (k ∷ l) h = elim (Bool-cases (leb n k)) [
  | inl e ↦ rw e at h
  | inr e ↦ moved (Has-insert_by m n l) (rw e at h)
]
  where
    swapped : Has m (n ∷ l) → Has m (n ∷ k ∷ l)
    swapped (inl f) = inl f
    swapped (inr i) = inr (inr i)

    moved :
        (Has m (insert_by leb n l) → Has m (n ∷ l))
        → (m ≡ k) ⊎ Has m (insert_by leb n l)
        → Has m (n ∷ k ∷ l)
    moved later (inl f) = inr (inl f)
    moved later (inr i) = swapped (later i)

Has-sort_by : (m : ℕ) (l : List ℕ) → Has m (sort_by leb l) → Has m l
unfolding sort_by
Has-sort_by m [] h = h
Has-sort_by m (n ∷ l) h = below_first (Has-sort_by m l) (Has-insert_by m n (sort_by leb l) h)
  where
    below_first : (Has m (sort_by leb l) → Has m l) → Has m (n ∷ sort_by leb l) → Has m (n ∷ l)
    below_first later (inl e) = inl e
    below_first later (inr i) = inr (later i)

All-of_insert_by : (P : ℕ → Type 0) (n : ℕ) (l : List ℕ) → All P (insert_by leb n l) → All P (n ∷ l)
unfolding insert_by
All-of_insert_by P n [] h = h
All-of_insert_by P n (k ∷ l) h = elim (Bool-cases (leb n k)) [
  | inl e ↦ rw e at h
  | inr e ↦
      let g : P k × All P (insert_by leb n l) = rw e at h in
      let r = All-of_insert_by P n l g.1 in (r.0, (g.0, r.1))
]

All-of_sort_by : (P : ℕ → Type 0) (l : List ℕ) → All P (sort_by leb l) → All P l
unfolding sort_by
All-of_sort_by P [] h = tt
All-of_sort_by P (n ∷ l) h =
    let r = All-of_insert_by P n (sort_by leb l) h in (r.0, All-of_sort_by P l r.1)

pub last_of-IsGreatest : (l : List ℕ) → IsAscending leb l → IsGreatest l (last_of l)
last_of-IsGreatest [] h = refl
last_of-IsGreatest (n ∷ []) h = (inl refl, (omega arith, tt))
last_of-IsGreatest (n ∷ k ∷ l) h = more (last_of (k ∷ l)) (last_of-IsGreatest (k ∷ l) h.1)
  where
    more : (o : Option ℕ) → IsGreatest (k ∷ l) o → IsGreatest (n ∷ k ∷ l) o
    more none g = absurd (omega (arith, g))
    more (some m) g =
        let first : k ≤ m = g.1.0 in
        let before : n ≤ k = leb→le n k h.0.0 in (inr g.0, (omega (arith, first, before), g.1))

pub sorted-IsGreatest : (l : List ℕ) (o : Option ℕ) → IsGreatest (sort_by leb l) o → IsGreatest l o
sorted-IsGreatest [] none g = refl
sorted-IsGreatest (n ∷ l) none g = absurd (omega (arith, g, length-sort_by leb (n ∷ l)))
sorted-IsGreatest l (some m) g = (Has-sort_by m l g.0, All-of_sort_by (λ n. n ≤ m) l g.1)
