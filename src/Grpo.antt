-- ===== src/Grpo.antt =====
-- Dynamic sampling in GRPO (nemo_rl/algorithms/grpo.py): `dynamic_sampling`, which keeps the
-- samples of prompts with a nonzero standard deviation, and the part of `grpo_train` that calls it
-- on one batch after the other. A sample is its row in all columns but one: `filtered_batch` keeps
-- the total rewards of the unfiltered batch apart, as the code does.
pub mod Calls
pub mod Limit
pub mod Tests
use ne_mo_rl.Common.{
  ℕ, zero, suc, ◌+◌, ◌-◌, ◌*◌, Bool, true, false, Option, none, some, List, [], ◌∷◌, ◌++◌, map, ltb,
  leb, if◌then◌else◌, Outcome, ok, raise, ◌>>=◌, ◌>>◌, length, take,
}

pub data GrpoError : Type 0 where
  max_gen_batches_not_positive max_gen_batches_exceeded rewards_too_short : GrpoError

pub record GrpoConfig : Type 0 where
  pub num_prompts_per_step : ℕ
  pub num_generations_per_prompt : ℕ
  pub use_dynamic_sampling : Bool
  pub dynamic_sampling_max_gen_batches : ℕ

abbrev pub train_prompts_size : GrpoConfig → ℕ
train_prompts_size c = c.num_prompts_per_step * c.num_generations_per_prompt

pub record FilteredBatch (A R : Type 0) : Type 0 where
  pub samples : List A
  pub total_reward : List R

pub record SamplingResult (A R : Type 0) : Type 0 where
  pub batch : FilteredBatch A R
  pub is_batch_complete : Bool
  pub batch_cache : Option (FilteredBatch A R)
  pub num_discarded_valid_samples : Option ℕ

abbrev pub check : Bool → GrpoError → Outcome GrpoError (Unit {0})
check true e = ok tt
check false e = raise e

-- `nonzero` is the test `std != 0.0` of a sample, `reward` its total reward.
unfoldable pub keep_nonzero : {A : Type 0} → (A → Bool) → List A → List A
keep_nonzero nonzero [] = []
keep_nonzero nonzero (x ∷ xs) =
    let rest = keep_nonzero nonzero xs in if nonzero x then x ∷ rest else rest

-- A training step before its update: `grpo_train` asks for batches until one is complete.
pub data StepProgress (A R : Type 0) : Type 0 where
  training : FilteredBatch A R → ℕ → StepProgress A R
  generating : Option (FilteredBatch A R) → ℕ → StepProgress A R

module _ {A R : Type 0} where
  unfoldable pub filtered_batch : (A → Bool) → (A → R) → List A → FilteredBatch A R
  unfolding keep_nonzero
  filtered_batch nonzero reward batch = record {
    samples = keep_nonzero nonzero batch;
    total_reward = map reward batch;
  }

  -- `from_batches([batch_cache, filtered])`
  abbrev pub joined : Option (FilteredBatch A R) → FilteredBatch A R → FilteredBatch A R
  joined none f = f
  joined (some c) f = record {
    samples = c.samples ++ f.samples;
    total_reward = c.total_reward ++ f.total_reward;
  }

  -- `filtered.slice(0, size)`
  unfoldable pub slice_batch : ℕ → FilteredBatch A R → Outcome GrpoError (FilteredBatch A R)
  slice_batch size f =
      if leb size (length f.total_reward)
      then ok (record { samples = take size f.samples; total_reward = take size f.total_reward })
      else raise rewards_too_short

  -- The decision on what has been collected, with the cache that stays.
  unfoldable pub complete_or_continue :
      GrpoConfig
      → ℕ
      → FilteredBatch A R
      → Option (FilteredBatch A R)
      → Outcome GrpoError (SamplingResult A R)
  unfolding slice_batch
  complete_or_continue c num_gen_batches f cache =
      let size = train_prompts_size c in
      let continued : SamplingResult A R = record {
        batch = f;
        is_batch_complete = false;
        batch_cache = cache;
        num_discarded_valid_samples = none;
      } in
      let sliced : Outcome GrpoError (SamplingResult A R) = slice_batch size f >>= λ b. ok (record {
        batch = b;
        is_batch_complete = true;
        batch_cache = cache;
        num_discarded_valid_samples = some (length f.samples - size);
      }) in
      if ltb (length f.samples) size
      then (check (ltb 0 c.dynamic_sampling_max_gen_batches) max_gen_batches_not_positive
          >> (if leb num_gen_batches c.dynamic_sampling_max_gen_batches
              then ok continued
              else raise max_gen_batches_exceeded))
      else sliced

  unfoldable pub dynamic_sampling :
      GrpoConfig
      → (A → Bool)
      → (A → R)
      → ℕ
      → List A
      → Option (FilteredBatch A R)
      → Outcome GrpoError (SamplingResult A R)
  unfolding filtered_batch complete_or_continue
  dynamic_sampling c nonzero reward num_gen_batches batch cache =
      let f = filtered_batch nonzero reward batch in
      let all = joined cache f in
      let unfiltered : FilteredBatch A R = record {
        samples = batch;
        total_reward = map reward batch;
      } in
      if c.use_dynamic_sampling
      then (if ltb 0 (length f.samples)
          then complete_or_continue c num_gen_batches all (some all)
          else complete_or_continue c num_gen_batches f cache)
      else ok (record {
        batch = unfiltered;
        is_batch_complete = true;
        batch_cache = cache;
        num_discarded_valid_samples = none;
      })

  abbrev pub continue_step :
      (Option (FilteredBatch A R) → Outcome GrpoError (StepProgress A R))
      → ℕ
      → SamplingResult A R
      → Outcome GrpoError (StepProgress A R)
  continue_step more num_gen_batches r =
      let later = more r.batch_cache in
      if r.is_batch_complete then ok (training r.batch num_gen_batches) else later

  unfoldable pub generate_batches :
      GrpoConfig
      → (A → Bool)
      → (A → R)
      → List (List A)
      → ℕ
      → Option (FilteredBatch A R)
      → Outcome GrpoError (StepProgress A R)
  unfolding dynamic_sampling
  generate_batches c nonzero reward [] num_gen_batches cache = ok (generating cache num_gen_batches)
  generate_batches c nonzero reward (batch ∷ batches) num_gen_batches cache =
      dynamic_sampling c nonzero reward (num_gen_batches + 1) batch cache
      >>= continue_step (generate_batches c nonzero reward batches (num_gen_batches + 1))
          (num_gen_batches + 1)
