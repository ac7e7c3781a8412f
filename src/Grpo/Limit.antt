-- ===== src/Grpo/Limit.antt =====
-- How many batches dynamic sampling takes, and what it returns (nemo_rl/algorithms/grpo.py).
use ne_mo_rl.Common.{
  ℕ, suc, ◌+◌, ◌-◌, ◌≤◌, ◌<◌, ◌≡◌, refl, sym, ap, ◌∙◌, subst, ◌⊎◌, inl, inr, Bool, true, Option,
  none, List, [], ◌∷◌, ◌++◌, flatten, Outcome, ok, raise, length, take, arith, append_assoc,
  append-nil,
}
use ne_mo_rl.Grpo.{
  GrpoError, max_gen_batches_exceeded, GrpoConfig, train_prompts_size, FilteredBatch, keep_nonzero,
  StepProgress, training, generate_batches,
}
use ne_mo_rl.Grpo.Calls.{kept, keep_nonzero-append, IsCache, dynamic_sampling-CallResult}

module _ {A R : Type 0} (c : GrpoConfig) (nonzero : A → Bool) (reward : A → R)
    (dynamic : c.use_dynamic_sampling ≡ true)
    (positive : 0 < c.dynamic_sampling_max_gen_batches) where
  -- What the calls for a list of batches come to, with `collected` samples from the batches before.
  abbrev StepResult : List A → ℕ → List (List A) → Outcome GrpoError (StepProgress A R) → Type 0
  StepResult collected num batches result =
      ((k : ℕ) × (b : FilteredBatch A R) × (result ≡ ok (training b (num + k)))
        × (num + k ≤ suc c.dynamic_sampling_max_gen_batches)
        × (train_prompts_size c ≤ length (collected ++ kept nonzero (take k batches)))
        × (b.samples ≡ take (train_prompts_size c) (collected ++ kept nonzero (take k batches))))
      ⊎ ((result ≡ raise max_gen_batches_exceeded)
          × (length (
                collected
                ++ kept nonzero (take (suc c.dynamic_sampling_max_gen_batches - num) batches))
              < train_prompts_size c))

  kept-suc :
      (collected : List A) (k : ℕ) (batch : List A) (batches : List (List A))
      → (collected ++ keep_nonzero nonzero batch) ++ kept nonzero (take k batches)
        ≡ collected ++ kept nonzero (take (suc k) (batch ∷ batches))
  unfolding flatten
  kept-suc collected k batch batches =
      append_assoc collected (keep_nonzero nonzero batch) (kept nonzero (take k batches))
      ∙ ap (λ l. collected ++ l)
          (sym (keep_nonzero-append nonzero batch (flatten (take k batches))))

  kept-one :
      (collected : List A) (batch : List A) (batches : List (List A))
      → collected ++ keep_nonzero nonzero batch
        ≡ collected ++ kept nonzero (take 1 (batch ∷ batches))
  unfolding flatten keep_nonzero
  kept-one collected batch batches =
      sym (append-nil (collected ++ keep_nonzero nonzero batch))
      ∙ kept-suc collected 0 batch batches

  -- one batch more
  next_result :
      (collected : List A) (num : ℕ) (batch : List A) (batches : List (List A))
      {result : Outcome GrpoError (StepProgress A R)} (later : Outcome GrpoError (StepProgress A R))
      → num + 1 ≤ c.dynamic_sampling_max_gen_batches
      → StepResult (collected ++ keep_nonzero nonzero batch) (num + 1) batches later
      → result ≡ later
      → StepResult collected num (batch ∷ batches) result
  next_result collected num batch batches later more h eq = elim h [
    | inl (k, b, e, le, full, same) ↦
        let one_more : num + 1 + k ≡ num + suc k = omega arith in
        inl (
          suc k,
          b,
          eq ∙ e ∙ ap (λ n. ok (training b n)) one_more,
          omega (arith, le),
          subst (λ l. train_prompts_size c ≤ length l) (kept-suc collected k batch batches) full,
          same ∙ ap (take (train_prompts_size c)) (kept-suc collected k batch batches),
        )
    | inr (e, short) ↦
        let left : suc (suc c.dynamic_sampling_max_gen_batches - (num + 1))
            ≡ suc c.dynamic_sampling_max_gen_batches - num =
          omega (arith, more) in
        inr (
          eq ∙ e,
          subst (λ l. length l < train_prompts_size c)
              (kept-suc collected (suc c.dynamic_sampling_max_gen_batches - (num + 1)) batch batches
                ∙ ap (λ k. collected ++ kept nonzero (take k (batch ∷ batches))) left)
              short,
        )
  ]

  generate_batches-StepResult :
      (batches : List (List A)) (collected : List A) (num : ℕ) (cache : Option (FilteredBatch A R))
      → num ≤ c.dynamic_sampling_max_gen_batches
      → c.dynamic_sampling_max_gen_batches < num + length batches
      → IsCache c nonzero reward dynamic positive collected cache
      → StepResult collected num batches (generate_batches c nonzero reward batches num cache)
  unfolding generate_batches
  generate_batches-StepResult [] collected num cache le enough h = absurd (omega arith)
  generate_batches-StepResult (batch ∷ batches) collected num cache le enough h =
      elim (dynamic_sampling-CallResult c nonzero reward dynamic positive collected (num + 1) batch
        cache h) [
          | inl (full, r, e, complete, b) ↦ inl (
            1,
            r.batch,
            rw e (rw complete refl),
            omega (arith, le),
            subst (λ l. train_prompts_size c ≤ length l) (kept-one collected batch batches) full,
            b ∙ ap (take (train_prompts_size c)) (kept-one collected batch batches),
          )
          | inr (inl (more, r, e, incomplete, h')) ↦
              next_result collected num batch batches
                (generate_batches c nonzero reward batches (num + 1) r.batch_cache) more
                (generate_batches-StepResult batches (collected ++ keep_nonzero nonzero batch)
                  (num + 1) r.batch_cache more (omega (arith, enough)) h')
                (rw e (rw incomplete refl))
          | inr (inr (over, short, e)) ↦
              let last : suc c.dynamic_sampling_max_gen_batches - num ≡ 1 =
                omega (arith, over, le) in
              inr (
                rw e refl,
                subst (λ l. length l < train_prompts_size c)
                    (kept-one collected batch batches
                      ∙ ap (λ k. collected ++ kept nonzero (take k (batch ∷ batches))) (sym last))
                    short,
              )
        ]

  -- With `n` prompts per step times generations per prompt, `n` positive, a positive maximum `m`
  -- of batches, and more than `m` batches on offer: the calls for a training step come to an end.
  -- Either after some number `k` of batches, which is at most `m + 1`, the step trains on the first
  -- `n` of all samples of these batches that have a nonzero standard deviation, of which there are
  -- `n`; or the error that the maximum is exceeded is raised, and the first `m + 1` batches have
  -- fewer than `n` such samples.
  pub generate_batches_ends :
      (batches : List (List A))
      → 0 < train_prompts_size c
      → c.dynamic_sampling_max_gen_batches < length batches
      → ((k : ℕ) × (b : FilteredBatch A R) × (generate_batches c nonzero reward batches 0 none
            ≡ ok (training b k))
          × (k ≤ suc c.dynamic_sampling_max_gen_batches)
          × (train_prompts_size c ≤ length (kept nonzero (take k batches)))
          × (b.samples ≡ take (train_prompts_size c) (kept nonzero (take k batches))))
        ⊎ ((generate_batches c nonzero reward batches 0 none ≡ raise max_gen_batches_exceeded)
            × (length (kept nonzero (take (suc c.dynamic_sampling_max_gen_batches) batches))
                < train_prompts_size c))
  generate_batches_ends batches pos enough =
      elim (generate_batches-StepResult batches [] 0 none (omega arith) (omega (arith, enough))
        (refl, omega arith, pos)) [
          | inl (k, b, e, le, full, same) ↦
              inl
                (k, b, e ∙ ap (λ n. ok (training b n)) (omega arith), omega (arith, le), full, same)
          | inr (e, short) ↦
              let whole : suc c.dynamic_sampling_max_gen_batches - 0
                  ≡ suc c.dynamic_sampling_max_gen_batches =
                omega arith in
              inr (
                e,
                subst (λ k. length (kept nonzero (take k batches)) < train_prompts_size c) whole
                    short,
              )
        ]
