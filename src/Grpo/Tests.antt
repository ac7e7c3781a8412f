-- ===== src/Grpo/Tests.antt =====
-- Runs of dynamic sampling (nemo_rl/algorithms/grpo.py), and the theorem at a concrete input.
use ne_mo_rl.Common.{
  ℕ, ◌≤◌, ◌<◌, ◌≡◌, refl, ◌⊎◌, Bool, true, none, List, [], ◌∷◌, ltb, ok, raise, length, take, arith,
}
use ne_mo_rl.Grpo.{GrpoConfig, FilteredBatch, training, max_gen_batches_exceeded, generate_batches}
use ne_mo_rl.Grpo.Calls.{kept}
use ne_mo_rl.Grpo.Limit.{generate_batches_ends}

-- Two samples a step, from one batch at most.
abbrev config : GrpoConfig
config = record {
  num_prompts_per_step = 1;
  num_generations_per_prompt = 2;
  use_dynamic_sampling = true;
  dynamic_sampling_max_gen_batches = 1;
}

-- A sample is its standard deviation.
abbrev nonzero : ℕ → Bool
nonzero x = ltb 0 x

abbrev reward : ℕ → ℕ
reward x = x

abbrev three : List (List ℕ)
three = (0 ∷ 5 ∷ []) ∷ (6 ∷ 7 ∷ []) ∷ (8 ∷ []) ∷ []

generate_batches_ends_example :
    ((k : ℕ) × (b : FilteredBatch ℕ ℕ) × (generate_batches config nonzero reward three 0 none
        ≡ ok (training b k))
      × (k ≤ 2)
      × (2 ≤ length (kept nonzero (take k three)))
      × (b.samples ≡ take 2 (kept nonzero (take k three))))
    ⊎ ((generate_batches config nonzero reward three 0 none ≡ raise max_gen_batches_exceeded)
        × (length (kept nonzero (take 2 three)) < 2))
generate_batches_ends_example =
    generate_batches_ends config nonzero reward refl (omega arith) three (omega arith) (omega arith)

-- The maximum is one batch, and the step trains on samples of two.
one_too_many :
    generate_batches config nonzero reward three 0 none
    ≡ ok (training (record { samples = 5 ∷ 6 ∷ []; total_reward = 0 ∷ 5 ∷ [] }) 2)
unfolding generate_batches
one_too_many = refl

too_few :
    generate_batches config nonzero reward ((0 ∷ []) ∷ (4 ∷ []) ∷ (8 ∷ []) ∷ []) 0 none
    ≡ raise max_gen_batches_exceeded
unfolding generate_batches
too_few = refl
