-- ===== src/Rollouts/Tests.antt =====
-- Runs of the rollout (nemo_rl/experience/rollouts.py), and the theorems at concrete inputs.
use ne_mo_rl.Common.{
  ℕ, ◌+◌, ◌-◌, ◌≤◌, ◌≡◌, refl, Bool, true, false, ◌==◌, if◌then◌else◌, Option, none, some, List, [],
  ◌∷◌, map, Outcome, ok, raise, length, length-replicate, replicate, arith, All, min,
}
use ne_mo_rl.Rollouts.{
  RolloutError, unknown_task, Message, Sample, Response, Feedback, input_length, fresh_sample,
  calculate_rewards, run_multi_turn_rollout,
}
use ne_mo_rl.Rollouts.Rewards.{Answers, calculate_rewards-map}
use ne_mo_rl.Rollouts.Turns.{AllOver, run_multi_turn_rollout-AllOver}

-- Task 0 adds one and task 1 adds ten.
abbrev add_for : ℕ → ℕ → ℕ
add_for task m = if task == 0 then m + 1 else m + 10

abbrev step : ℕ → Option (List ℕ → List ℕ)
step task = if task == 2 then none else some (map (add_for task))

abbrev mixed : List (ℕ × ℕ)
mixed = (1, 5) ∷ (0, 6) ∷ (1, 7) ∷ (0, 8) ∷ []

mixed-Answers : All (λ x. Answers step add_for mixed x.0) mixed
mixed-Answers =
    let one : Answers step add_for mixed 1 = (map (add_for 1), refl, λ messages. refl) in
    let zero_task : Answers step add_for mixed 0 = (map (add_for 0), refl, λ messages. refl) in
    (one, (zero_task, (one, (zero_task, tt))))

calculate_rewards-map_example : calculate_rewards step mixed ≡ ok (map (λ x. add_for x.0 x.1) mixed)
calculate_rewards-map_example = calculate_rewards-map step add_for mixed mixed-Answers

rewards_mixed : calculate_rewards step mixed ≡ ok (15 ∷ 7 ∷ 17 ∷ 9 ∷ [])
unfolding calculate_rewards
rewards_mixed = refl

no_environment : calculate_rewards step ((2, 5) ∷ []) ≡ raise unknown_task
unfolding calculate_rewards
no_environment = refl

-- An engine that generates the number 9 until one token is left, at most two at a time.
abbrev respond : ℕ → ℕ → Sample ℕ ℕ ℕ → Response ℕ
respond turn i s = record {
  generated_ids = replicate (min 2 (10 - input_length s.message_log)) 9;
  response_truncated = false;
}

-- Sample 0 is done after its first turn.
abbrev feedback : ℕ → ℕ → Sample ℕ ℕ ℕ → Feedback ℕ ℕ ℕ
feedback turn i s = record {
  observation = record { role = 2; token_ids = 7 ∷ [] };
  reward = 1;
  is_terminated = i == 0;
  next_stop_strings = none;
  metadata = none;
}

respects :
    (turn i : ℕ) (s : Sample ℕ ℕ ℕ)
    → input_length s.message_log ≤ 10
    → input_length s.message_log + length (respond turn i s).generated_ids ≤ 10
respects turn i s h =
    omega (arith, length-replicate {A = ℕ} (min 2 (10 - input_length s.message_log)) 9)

abbrev inputs : List (List (Message ℕ) × ℕ × Option ℕ)
inputs =
    (record { role = 0; token_ids = 1 ∷ 2 ∷ [] } ∷ [], 0, none)
    ∷ (record { role = 0; token_ids = 3 ∷ [] } ∷ [], 0, none)
    ∷ []

run_multi_turn_rollout-AllOver_example :
    (final : List (Sample ℕ ℕ ℕ)) × (run_multi_turn_rollout
        (λ a b. a + b)
        10
        1
        respond
        feedback
        2
        (map (λ x. fresh_sample 0 x.0 x.1 x.2) inputs)
      ≡ ok final)
    × AllOver 10 2 (map (λ x. input_length x.0) inputs) final
run_multi_turn_rollout-AllOver_example =
    run_multi_turn_rollout-AllOver (λ a b. a + b) 10 1 respond feedback respects 0 2 inputs
      (omega arith, (omega arith, tt))

abbrev summary : Outcome RolloutError (List (Sample ℕ ℕ ℕ)) → List (ℕ × Bool × Bool)
summary (raise e) = []
summary (ok samples) = map (λ s. (s.turn_count, s.terminated, s.max_turns_reached)) samples

-- One sample is done after a turn, the other reaches the two turns; with nine it is cut.
rollout_two :
    (summary (
        run_multi_turn_rollout
          (λ a b. a + b)
          10
          1
          respond
          feedback
          2
          (map (λ x. fresh_sample 0 x.0 x.1 x.2) inputs))
      ≡ (1, true, false) ∷ (2, false, true) ∷ [])
    × (summary (
          run_multi_turn_rollout
            (λ a b. a + b)
            10
            1
            respond
            feedback
            9
            (map (λ x. fresh_sample 0 x.0 x.1 x.2) inputs))
        ≡ (1, true, false) ∷ (3, true, false) ∷ [])
unfolding run_multi_turn_rollout
rollout_two = (refl, refl)
