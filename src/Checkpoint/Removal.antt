-- ===== src/Checkpoint/Removal.antt =====
-- What the loop of the clean-up removes (nemo_rl/utils/checkpoint.py).
use ne_mo_rl.Common.{
  ℕ, ◌≤◌, ◌≡◌, ◌≢◌, sym, ◌∙◌, true, false, Option, some, List, [], ◌∷◌, leb, ◌==◌, All, Has, arith,
  Bool-cases, inl, inr, ◌⊎◌, sort_by, sort_by-IsAscending,
}
use ne_mo_rl.Checkpoint.{
  step, tmp_step, old_step, Disk, rmtree, step_dirs, get_latest_checkpoint_path, remove_each,
  is_latest,
}
use ne_mo_rl.Checkpoint.Greatest.{IsGreatest, leb-TotalTest, last_of-IsGreatest, sorted-IsGreatest}

abbrev pub Sparing : {M : Type 0} → Option ℕ → ℕ → ℕ × List (ℕ × M) → Type 0
Sparing latest m e = (is_latest latest e.0 ≡ true) ⊎ (m ≢ e.0)

module _ {M A : Type 0} where
  pub latest-IsGreatest : (d : Disk M A) → IsGreatest (step_dirs d) (get_latest_checkpoint_path d)
  unfolding get_latest_checkpoint_path
  latest-IsGreatest d = sorted-IsGreatest (step_dirs d) _ (
      last_of-IsGreatest (sort_by leb (step_dirs d))
        (sort_by-IsAscending leb leb-TotalTest (step_dirs d)))

  -- Removing another step keeps the greatest.
  rmtree-Has :
      (m n : ℕ) (d : Disk M A) → m ≢ n → Has m (step_dirs d) → Has m (step_dirs (rmtree (step n) d))
  unfolding rmtree step_dirs
  rmtree-Has m n [] e h = h
  rmtree-Has m n ((step k, c) ∷ d) e h = elim (Bool-cases (k == n)) [
    | inl f ↦
        rw f (elim h [ inl g ↦ absurd (e (ground (arith, f, g))) | inr i ↦ rmtree-Has m n d e i ])
    | inr f ↦ rw f (elim h [ inl g ↦ inl g | inr i ↦ inr (rmtree-Has m n d e i) ])
  ]
  rmtree-Has m n ((tmp_step k, c) ∷ d) e h = rmtree-Has m n d e h
  rmtree-Has m n ((old_step k, c) ∷ d) e h = rmtree-Has m n d e h

  pub rmtree-All :
      (P : ℕ → Type 0) (n : ℕ) (d : Disk M A)
      → All P (step_dirs d)
      → All P (step_dirs (rmtree (step n) d))
  unfolding rmtree step_dirs
  rmtree-All P n [] h = tt
  rmtree-All P n ((step k, c) ∷ d) h = elim (Bool-cases (k == n)) [
    | inl f ↦ rw f (rmtree-All P n d h.1)
    | inr f ↦ rw f (h.0, rmtree-All P n d h.1)
  ]
  rmtree-All P n ((tmp_step k, c) ∷ d) h = rmtree-All P n d h
  rmtree-All P n ((old_step k, c) ∷ d) h = rmtree-All P n d h

  pub remove_each-IsGreatest :
      (latest : Option ℕ) (m : ℕ) (rest : List (ℕ × List (ℕ × M))) (d : Disk M A)
      → All (Sparing latest m) rest
      → IsGreatest (step_dirs d) (some m)
      → IsGreatest (step_dirs (remove_each true latest rest d)) (some m)
  unfolding remove_each
  remove_each-IsGreatest latest m [] d h g = g
  remove_each-IsGreatest latest m ((n, info) ∷ rest) d h g =
      elim (Bool-cases (is_latest latest n)) [
        | inl e ↦ rw e (remove_each-IsGreatest latest m rest d h.1 g)
        | inr e ↦ rw e (elim h.0 [
          | inl f ↦ absurd (let x : true ≡ false = sym f ∙ e in cc)
          | inr f ↦
              remove_each-IsGreatest latest m rest (rmtree (step n) d) h.1
                (rmtree-Has m n d f g.0, rmtree-All (λ k. k ≤ m) n d g.1)
        ])
      ]

-- The steps of a history.
