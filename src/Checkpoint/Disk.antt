-- ===== src/Checkpoint/Disk.antt =====
-- Lookups after a renaming or a removal (nemo_rl/utils/checkpoint.py).
use ne_mo_rl.Common.{◌≡◌, refl, true, false, none, some, List, [], ◌∷◌, arith, Bool-cases, inl, inr}
use ne_mo_rl.Checkpoint.{Name, step, tmp_step, old_step, same, Checkpoint, lookup, renamed, rmtree}

pub same_refl : (a : Name) → same a a ≡ true
same_refl (step n) = ground arith
same_refl (tmp_step n) = ground arith
same_refl (old_step n) = ground arith

same_eq : (a b : Name) → same a b ≡ true → a ≡ b
same_eq (step i) (step j) h = (let e : i ≡ j = ground arith in cc)
same_eq (tmp_step i) (tmp_step j) h = (let e : i ≡ j = ground arith in cc)
same_eq (old_step i) (old_step j) h = (let e : i ≡ j = ground arith in cc)
same_eq (step i) (tmp_step j) h = cc
same_eq (step i) (old_step j) h = cc
same_eq (tmp_step i) (step j) h = cc
same_eq (tmp_step i) (old_step j) h = cc
same_eq (old_step i) (step j) h = cc
same_eq (old_step i) (tmp_step j) h = cc

module _ {M A : Type 0} where
  pub lookup-renamed_new :
      (a b : Name) (d : List (Name × Checkpoint M A))
      → lookup b d ≡ none
      → lookup b (renamed a b d) ≡ lookup a d
  unfolding lookup renamed
  lookup-renamed_new a b [] h = refl
  lookup-renamed_new a b ((x, c) ∷ d) h = elim (Bool-cases (same x b)) [
    | inl e ↦ absurd (let f : some c ≡ none = (rw e at h) in cc)
    | inr e ↦ elim (Bool-cases (same x a)) [
      | inl f ↦ rw (f, same_refl b) refl
      | inr f ↦ rw (f, e) (lookup-renamed_new a b d (rw e at h))
    ]
  ]

  pub lookup-renamed_old :
      (a b : Name) (d : List (Name × Checkpoint M A))
      → same b a ≡ false
      → lookup a (renamed a b d) ≡ none
  unfolding lookup renamed
  lookup-renamed_old a b [] h = refl
  lookup-renamed_old a b ((x, c) ∷ d) h = elim (Bool-cases (same x a)) [
    | inl f ↦ rw (f, h) (lookup-renamed_old a b d h)
    | inr f ↦ rw (f, f) (lookup-renamed_old a b d h)
  ]

  pub lookup-renamed_other :
      (a b m : Name) (d : List (Name × Checkpoint M A))
      → same b m ≡ false
      → same a m ≡ false
      → lookup m (renamed a b d) ≡ lookup m d
  unfolding lookup renamed
  lookup-renamed_other a b m [] h k = refl
  lookup-renamed_other a b m ((x, c) ∷ d) h k = elim (Bool-cases (same x a)) [
    | inl f ↦ let e : x ≡ a = same_eq x a f in rw (f, h, e, k) (lookup-renamed_other a b m d h k)
    | inr f ↦ elim (Bool-cases (same x m)) [
      | inl g ↦ rw (f, g) refl
      | inr g ↦ rw (f, g) (lookup-renamed_other a b m d h k)
    ]
  ]

  pub lookup-rmtree :
      (a m : Name) (d : List (Name × Checkpoint M A))
      → same a m ≡ false
      → lookup m (rmtree a d) ≡ lookup m d
  unfolding lookup rmtree
  lookup-rmtree a m [] h = refl
  lookup-rmtree a m ((x, c) ∷ d) h = elim (Bool-cases (same x a)) [
    | inl f ↦ let e : x ≡ a = same_eq x a f in rw (f, e, h) (lookup-rmtree a m d h)
    | inr f ↦ elim (Bool-cases (same x m)) [
      | inl g ↦ rw (f, g) refl
      | inr g ↦ rw (f, g) (lookup-rmtree a m d h)
    ]
  ]

  pub lookup-rmtree_self :
      (a : Name) (d : List (Name × Checkpoint M A)) → lookup a (rmtree a d) ≡ none
  unfolding lookup rmtree
  lookup-rmtree_self a [] = refl
  lookup-rmtree_self a ((x, c) ∷ d) = elim (Bool-cases (same x a)) [
    | inl f ↦ rw f (lookup-rmtree_self a d)
    | inr f ↦ rw (f, f) (lookup-rmtree_self a d)
  ]
