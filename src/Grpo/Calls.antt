-- ===== src/Grpo/Calls.antt =====
-- What one call of `dynamic_sampling` returns (nemo_rl/algorithms/grpo.py).
use ne_mo_rl.Common.{
  ℕ, ◌-◌, ◌≤◌, ◌<◌, ◌≡◌, refl, sym, ap, ◌∙◌, subst, ◌⊎◌, inl, inr, Bool, true, false, Option, none,
  some, List, [], ◌∷◌, ◌++◌, flatten, ltb, Outcome, ok, raise, length, length-append, length-map,
  take, arith, Bool-cases, append-nil, lt→ltb, ltb-false, le→leb, leb-false,
}
use ne_mo_rl.Grpo.{
  GrpoError, max_gen_batches_exceeded, GrpoConfig, train_prompts_size, FilteredBatch,
  SamplingResult, keep_nonzero, filtered_batch, joined, slice_batch, complete_or_continue,
  dynamic_sampling,
}
use native.Mathlib.Decide.{dec_lt, dec_le}

-- All samples of the batches that have a nonzero standard deviation
abbrev pub kept : {A : Type 0} → (A → Bool) → List (List A) → List A
kept nonzero batches = keep_nonzero nonzero (flatten batches)

module _ {A : Type 0} (nonzero : A → Bool) where
  length-keep_nonzero : (xs : List A) → length (keep_nonzero nonzero xs) ≤ length xs
  unfolding keep_nonzero
  length-keep_nonzero [] = omega arith
  length-keep_nonzero (x ∷ xs) = elim (Bool-cases (nonzero x)) [
    | inl e ↦ rw e (omega (arith, length-keep_nonzero xs))
    | inr e ↦ rw e (omega (arith, length-keep_nonzero xs))
  ]

  pub keep_nonzero-append :
      (xs ys : List A)
      → keep_nonzero nonzero (xs ++ ys) ≡ keep_nonzero nonzero xs ++ keep_nonzero nonzero ys
  unfolding keep_nonzero
  keep_nonzero-append [] ys = refl
  keep_nonzero-append (x ∷ xs) ys = elim (Bool-cases (nonzero x)) [
    | inl e ↦ rw e (ap (λ l. x ∷ l) (keep_nonzero-append xs ys))
    | inr e ↦ rw e (keep_nonzero-append xs ys)
  ]

module _ {A R : Type 0} (c : GrpoConfig) (nonzero : A → Bool) (reward : A → R)
    (dynamic : c.use_dynamic_sampling ≡ true)
    (positive : 0 < c.dynamic_sampling_max_gen_batches) where
  abbrev pub size : ℕ
  size = train_prompts_size c

  abbrev samples_of : Option (FilteredBatch A R) → List A
  samples_of none = []
  samples_of (some f) = f.samples

  abbrev rewards_of : Option (FilteredBatch A R) → List R
  rewards_of none = []
  rewards_of (some f) = f.total_reward

  -- The cache that `collected` samples, too few, have left.
  abbrev pub IsCache : List A → Option (FilteredBatch A R) → Type 0
  IsCache collected cache =
      (samples_of cache ≡ collected)
      × (length collected ≤ length (rewards_of cache))
      × (length collected < size)

  -- What one call returns for a batch: a complete batch, a larger cache, or the error.
  abbrev pub CallResult : List A → ℕ → Outcome GrpoError (SamplingResult A R) → Type 0
  CallResult all num result =
      ((size ≤ length all)
        × (r : SamplingResult A R) × (result ≡ ok r)
        × (r.is_batch_complete ≡ true)
        × (r.batch.samples ≡ take size all))
      ⊎ ((num ≤ c.dynamic_sampling_max_gen_batches)
          × (r : SamplingResult A R) × (result ≡ ok r)
          × (r.is_batch_complete ≡ false)
          × IsCache all r.batch_cache)
      ⊎ ((c.dynamic_sampling_max_gen_batches < num)
          × (length all < size)
          × (result ≡ raise max_gen_batches_exceeded))

  complete_or_continue_short :
      (num : ℕ) (all : List A) (f : FilteredBatch A R) (cache : Option (FilteredBatch A R))
      → length f.samples < size
      → IsCache all cache
      → CallResult all num (complete_or_continue c num f cache)
  unfolding complete_or_continue
  complete_or_continue_short num all f cache short cached =
      elim (dec_le num c.dynamic_sampling_max_gen_batches) [
        | yes more ↦ inr (
            inl (
              more,
              record {
                batch = f;
                is_batch_complete = false;
                batch_cache = cache;
                num_discarded_valid_samples = none;
              },
              rw
                  (
                    lt→ltb (length f.samples) size short,
                    lt→ltb 0 c.dynamic_sampling_max_gen_batches positive,
                  )
                  (rw (le→leb num c.dynamic_sampling_max_gen_batches more) refl),
              refl,
              cached,
            ))
        | no over ↦ inr (
            inr (
              omega arith,
              cached.2,
              rw
                  (
                    lt→ltb (length f.samples) size short,
                    lt→ltb 0 c.dynamic_sampling_max_gen_batches positive,
                  )
                  (rw (leb-false num c.dynamic_sampling_max_gen_batches (omega arith)) refl),
            ))
      ]

  complete_or_continue_full :
      (num : ℕ) (f : FilteredBatch A R) (cache : Option (FilteredBatch A R))
      → size ≤ length f.samples
      → length f.samples ≤ length f.total_reward
      → CallResult f.samples num (complete_or_continue c num f cache)
  unfolding complete_or_continue slice_batch
  complete_or_continue_full num f cache full rewards = inl (
    full,
    record {
      batch = record { samples = take size f.samples; total_reward = take size f.total_reward };
      is_batch_complete = true;
      batch_cache = cache;
      num_discarded_valid_samples = some (length f.samples - size);
    },
    rw (ltb-false (length f.samples) size full)
        (rw (le→leb size (length f.total_reward) (omega (arith, full, rewards))) refl),
    refl,
    refl,
  )

  complete_or_continue_joined :
      (num : ℕ) (f : FilteredBatch A R)
      → length f.samples ≤ length f.total_reward
      → CallResult f.samples num (complete_or_continue c num f (some f))
  complete_or_continue_joined num f rewards = elim (dec_lt (length f.samples) size) [
    | yes short ↦ complete_or_continue_short num f.samples f (some f) short (refl, rewards, short)
    | no full ↦ complete_or_continue_full num f (some f) (omega arith) rewards
  ]

  joined-samples :
      (collected : List A) (cache : Option (FilteredBatch A R)) (f : FilteredBatch A R)
      → IsCache collected cache
      → length f.samples ≤ length f.total_reward
      → ((joined cache f).samples ≡ collected ++ f.samples)
        × (length (joined cache f).samples ≤ length (joined cache f).total_reward)
  joined-samples collected none f h rewards = (ap (λ l. l ++ f.samples) h.0, rewards)
  joined-samples collected (some g) f h rewards = (
    ap (λ l. l ++ f.samples) h.0,
    omega (
      arith,
      length-append g.samples f.samples,
      length-append g.total_reward f.total_reward,
      h.1,
      ap length h.0,
      rewards,
    ),
  )

  pub dynamic_sampling-CallResult :
      (collected : List A) (num : ℕ) (batch : List A) (cache : Option (FilteredBatch A R))
      → IsCache collected cache
      → CallResult
          (collected ++ keep_nonzero nonzero batch)
          num
          (dynamic_sampling c nonzero reward num batch cache)
  unfolding dynamic_sampling filtered_batch
  dynamic_sampling-CallResult collected num batch cache h =
      let f : FilteredBatch A R = filtered_batch nonzero reward batch in
      let rewards : length f.samples ≤ length f.total_reward =
        omega (arith, length-keep_nonzero nonzero batch, length-map reward batch) in
      let (same, longer) = joined-samples collected cache f h rewards in
      elim (Bool-cases (ltb 0 (length (keep_nonzero nonzero batch)))) [
        | inl some_kept ↦
            rw (dynamic, some_kept)
              (subst
                (λ all.
                  CallResult all num
                    (complete_or_continue c num (joined cache f) (some (joined cache f))))
                same (complete_or_continue_joined num (joined cache f) longer))
        | inr none_kept ↦
            let empty : keep_nonzero nonzero batch ≡ [] =
              is_empty (keep_nonzero nonzero batch) none_kept in
            let all : collected ≡ collected ++ keep_nonzero nonzero batch =
              sym (append-nil collected) ∙ ap (λ l. collected ++ l) (sym empty) in
            rw (dynamic, none_kept)
              (subst (λ l. CallResult l num (complete_or_continue c num f cache)) all
                (complete_or_continue_short num collected f cache
                  (omega (arith, ap length empty, h.2)) h))
      ]
    where
      is_empty : (xs : List A) → ltb 0 (length xs) ≡ false → xs ≡ []
      is_empty [] h = refl
      is_empty (x ∷ xs) h = absurd (ground (arith, h))
