-- ===== src/Checkpoint/Latest.antt =====
-- The clean-up of old checkpoints and the latest one (nemo_rl/utils/checkpoint.py).
use ne_mo_rl.Common.{
  ℕ, zero, suc, ◌≤◌, ◌≡◌, ◌≢◌, refl, sym, subst, Bool, true, false, Option, none, some, List, [],
  ◌∷◌, ltb, ◌==◌, if◌then◌else◌, length, All, All_mono, Has, arith, Bool-cases, inl, inr, ◌⊎◌,
  sort_by, All-sort_by, drop,
}
use ne_mo_rl.Checkpoint.{
  step, tmp_step, old_step, CheckpointManager, Disk, rmtree, step_dirs, load_checkpoint_history,
  get_latest_checkpoint_path, better, latest_step, remove_each, remove_old_checkpoints, is_latest,
  with_info,
}
use ne_mo_rl.Checkpoint.Greatest.{IsGreatest, IsGreatest-unique}
use ne_mo_rl.Checkpoint.Removal.{Sparing, latest-IsGreatest, rmtree-All, remove_each-IsGreatest}

-- Each entry of the list is spared or is not the step `m`.
abbrev pub steps_of : {M : Type 0} → List (ℕ × List (ℕ × M)) → List ℕ
steps_of [] = []
steps_of ((n, info) ∷ history) = n ∷ steps_of history

Has-All : (P : ℕ → Type 0) (m : ℕ) (l : List ℕ) → Has m l → All P l → P m
Has-All P m [] i h = elim i [ ]
Has-All P m (n ∷ l) (inl e) h = subst P (sym e) h.0
Has-All P m (n ∷ l) (inr i) h = Has-All P m l i h.1

abbrev with_first : ℕ → Option ℕ → Option ℕ
with_first n o = elim o [ none ↦ some n | some m ↦ some (if ltb n m then m else n) ]

with_first-IsGreatest :
    (n : ℕ) (l : List ℕ) (o : Option ℕ) → IsGreatest l o → IsGreatest (n ∷ l) (with_first n o)
with_first-IsGreatest n [] none g = (inl refl, (omega arith, tt))
with_first-IsGreatest n (k ∷ l) none g = absurd (omega (arith, g))
with_first-IsGreatest n l (some m) g = elim (Bool-cases (ltb n m)) [
  | inl e ↦
      let q : (if ltb n m then m else n) ≡ m = rw e refl in
      subst (λ k. IsGreatest (n ∷ l) (some k)) (sym q) (inr g.0, (ground (arith, e), g.1))
  | inr e ↦
      let q : (if ltb n m then m else n) ≡ n = rw e refl in
      subst (λ k. IsGreatest (n ∷ l) (some k)) (sym q)
        (inl refl, (omega arith, All_mono (λ k (h : k ≤ m). le_first k m n h e) l g.1))
]
  where
    le_first : (k m n : ℕ) → k ≤ m → ltb n m ≡ false → k ≤ n
    le_first k m n h e = ground (arith, h, e)

module _ {M : Type 0} where
  latest_step-IsGreatest :
      (history : List (ℕ × List (ℕ × M))) → IsGreatest (steps_of history) (latest_step history)
  unfolding latest_step
  latest_step-IsGreatest [] = refl
  latest_step-IsGreatest ((n, info) ∷ history) =
      with_first-IsGreatest n (steps_of history) (latest_step history)
        (latest_step-IsGreatest history)

  pub All-steps_of :
      (P : ℕ → Type 0) (history : List (ℕ × List (ℕ × M)))
      → All P (steps_of history)
      → All (λ e. P e.0) history
  All-steps_of P [] h = tt
  All-steps_of P ((n, info) ∷ history) h = (h.0, All-steps_of P history h.1)

  All-drop :
      (P : ℕ × List (ℕ × M) → Type 0) (k : ℕ) (l : List (ℕ × List (ℕ × M)))
      → All P l
      → All P (drop k l)
  All-drop P zero l h = h
  All-drop P (suc k) [] h = tt
  All-drop P (suc k) (e ∷ l) h = All-drop P k l h.1

  -- An entry of the history is the latest of it or is not the greatest of all steps.
  spared :
      (latest : Option ℕ) (m : ℕ) (history : List (ℕ × List (ℕ × M)))
      → IsGreatest (steps_of history) latest
      → All (λ n. n ≤ m) (steps_of history)
      → All (Sparing latest m) history
  spared none m [] g h = tt
  spared none m (e ∷ history) g h = absurd (omega (arith, g))
  spared (some k) m history g h =
      All_mono (λ e (le : e.0 ≤ k). spare e.0 le) history (All-steps_of (λ n. n ≤ k) history g.1)
    where
      spare : (n : ℕ) → n ≤ k → (is_latest (some k) n ≡ true) ⊎ (m ≢ n)
      spare n le = elim (Bool-cases (n == k)) [
        | inl e ↦ inl e
        | inr e ↦
            let top : k ≤ m = Has-All (λ j. j ≤ m) k (steps_of history) g.0 h in
            inr (λ same. ground (arith, le, e, top, same))
      ]

no_item : (l : List ℕ) → length l ≡ 0 → All (λ n. ⊥) l
no_item [] e = tt
no_item (n ∷ l) e = absurd (omega (arith, e))

no_items : (l : List ℕ) → All (λ n. ⊥) l → length l ≡ 0
no_items [] h = refl
no_items (n ∷ l) h = absurd h.0

module _ {M A : Type 0} where
  pub history-All :
      (P : ℕ → Type 0) (d : Disk M A)
      → All P (step_dirs d)
      → All P (steps_of (load_checkpoint_history d))
  unfolding step_dirs load_checkpoint_history
  history-All P [] h = tt
  history-All P ((step n, c) ∷ d) h =
      added n c.training_info (load_checkpoint_history d) h.0 (history-All P d h.1)
    where
      added :
          (n : ℕ) (o : Option (List (ℕ × M))) (history : List (ℕ × List (ℕ × M)))
          → P n
          → All P (steps_of history)
          → All P (steps_of (with_info n o history))
      added n none history p k = k
      added n (some info) history p k = (p, k)
  history-All P ((tmp_step n, c) ∷ d) h = history-All P d h
  history-All P ((old_step n, c) ∷ d) h = history-All P d h

  kept_latest :
      (below : M → M → Bool) (p : CheckpointManager) (k m : ℕ) (d : Disk M A)
      → IsGreatest (step_dirs d) (some m)
      → IsGreatest
          (step_dirs (
            remove_each true
              (latest_step (load_checkpoint_history d))
              (drop k (sort_by (better below p) (load_checkpoint_history d)))
              d))
          (some m)
  kept_latest below p k m d g =
      let history = load_checkpoint_history d in
      remove_each-IsGreatest (latest_step history) m _ d
        (All-drop _ k _ (
          All-sort_by (better below p) _ history (
            spared (latest_step history) m history (latest_step-IsGreatest history)
              (history-All (λ n. n ≤ m) d g.1))))
        g

  remove_each-All :
      (P : ℕ → Type 0) (latest : Option ℕ) (rest : List (ℕ × List (ℕ × M))) (d : Disk M A)
      → All P (step_dirs d)
      → All P (step_dirs (remove_each true latest rest d))
  unfolding remove_each
  remove_each-All P latest [] d h = h
  remove_each-All P latest ((n, info) ∷ rest) d h = elim (Bool-cases (is_latest latest n)) [
    | inl f ↦ rw f (remove_each-All P latest rest d h)
    | inr f ↦ rw f (remove_each-All P latest rest (rmtree (step n) d) (rmtree-All P n d h))
  ]

  cleaned-IsGreatest :
      (below : M → M → Bool) (p : CheckpointManager) (k : ℕ) (d : Disk M A) (o : Option ℕ)
      → IsGreatest (step_dirs d) o
      → IsGreatest
          (step_dirs (
            remove_each true
              (latest_step (load_checkpoint_history d))
              (drop k (sort_by (better below p) (load_checkpoint_history d)))
              d))
          o
  cleaned-IsGreatest below p k d none g =
      no_items _ (remove_each-All (λ n. ⊥) _ _ d (no_item (step_dirs d) g))
  cleaned-IsGreatest below p k d (some m) g = kept_latest below p k m d g

  -- Whatever the metric, its values and their order: the clean-up that `finalize_checkpoint` runs
  -- leaves the path to the latest checkpoint as it was.
  pub remove_old_checkpoints-latest :
      (below : M → M → Bool) (p : CheckpointManager) (d : Disk M A)
      → get_latest_checkpoint_path (remove_old_checkpoints below p true d)
        ≡ get_latest_checkpoint_path d
  unfolding remove_old_checkpoints
  remove_old_checkpoints-latest below p d =
      elim p.keep_top_k
        as (λ o.
          let d' : Disk M A = elim o [
            | none ↦ d
            | some k ↦
                remove_each true (latest_step (load_checkpoint_history d))
                  (drop k (sort_by (better below p) (load_checkpoint_history d))) d
          ] in
          get_latest_checkpoint_path d' ≡ get_latest_checkpoint_path d) [
            | none ↦ refl
            | some k ↦
                IsGreatest-unique _ _ _ (latest-IsGreatest _)
                  (cleaned-IsGreatest below p k d _ (latest-IsGreatest d))
          ]
