-- ===== src/Rollouts.antt =====
-- The multi-turn rollout (nemo_rl/experience/rollouts.py): `calculate_rewards`, which sends every
-- sample to the environment of its task, and the loop of `run_multi_turn_rollout`. The engine, the
-- environments and the tokenizer are parameters; a task, a role and a list of stop strings are
-- numbers.
pub mod Rewards
pub mod Turn
pub mod Turns
pub mod Tests
use ne_mo_rl.Common.{
  ℕ, zero, suc, ◌+◌, ◌-◌, Bool, true, false, ◌&&◌, ◌||◌, not, ◌==◌, Option, none, some, List, [],
  ◌∷◌, ◌++◌, map, flatten, ltb, leb, if◌then◌else◌, Outcome, ok, raise, ◌>>=◌, ◌>>◌, length, take,
  sum_by, sort_by,
}
use ne_mo_rl.Batch.{first_le, zip}

pub data RolloutError : Type 0 where
  unknown_task tokens_left_negative : RolloutError

-- A task's group: the indices of its samples and what they send, in order.
abbrev pub Groups : Type 0 → Type 0
Groups M = List (ℕ × List (ℕ × M))

module _ {M : Type 0} where
  -- `task_groups[task_name].append(...)`, with a new group at the end for a new task
  unfoldable pub add_to_group : ℕ → ℕ × M → Groups M → Groups M
  add_to_group task entry [] = (task, entry ∷ []) ∷ []
  add_to_group task entry ((t, group) ∷ groups) =
      let rest = add_to_group task entry groups in
      if t == task then (t, group ++ entry ∷ []) ∷ groups else (t, group) ∷ rest

  unfoldable pub task_groups : ℕ → List (ℕ × M) → Groups M → Groups M
  unfolding add_to_group
  task_groups i [] groups = groups
  task_groups i ((task, message) ∷ rest) groups =
      task_groups (suc i) rest (add_to_group task (i, message) groups)

-- `step` is `task_to_env[task].step`, for the tasks that have an environment.
module _ {M R : Type 0} (step : ℕ → Option (List M → List R)) where
  abbrev pub environment : Option (List M → List R) → Outcome RolloutError (List M → List R)
  environment none = raise unknown_task
  environment (some f) = ok f

  -- The replies of every group, each with the index of its sample.
  unfoldable pub group_replies : Groups M → Outcome RolloutError (List (ℕ × R))
  unfolding zip
  group_replies [] = ok []
  group_replies ((task, group) ∷ groups) = do
    env ← environment (step task)
    rest ← group_replies groups
    ok (zip (map (λ p. p.0) group) (env (map (λ p. p.1) group)) ++ rest)

  -- The replies in the order of the samples.
  unfoldable pub calculate_rewards : List (ℕ × M) → Outcome RolloutError (List R)
  unfolding task_groups group_replies sort_by
  calculate_rewards batch = do
    replies ← group_replies (task_groups 0 batch [])
    ok (map (λ p. p.1) (sort_by first_le replies))

pub record Message (T : Type 0) : Type 0 where
  pub role : ℕ
  pub token_ids : List T

-- What the loop keeps of a sample; it is active if its index is in `active_indices`.
pub record Sample (T R I : Type 0) : Type 0 where
  pub message_log : List (Message T)
  pub extra_env_info : I
  pub stop_strings : Option ℕ
  pub total_reward : R
  pub turn_count : ℕ
  pub token_count : ℕ
  pub assistant_token_count : ℕ
  pub env_token_count : ℕ
  pub active : Bool
  pub terminated : Bool
  pub truncated : Bool
  pub max_turns_reached : Bool

pub record Response (T : Type 0) : Type 0 where
  pub generated_ids : List T
  pub response_truncated : Bool

pub record Feedback (T R I : Type 0) : Type 0 where
  pub observation : Message T
  pub reward : R
  pub is_terminated : Bool
  pub next_stop_strings : Option ℕ
  pub metadata : Option I

abbrev pub input_length : {T : Type 0} → List (Message T) → ℕ
input_length log = sum_by (λ m. length m.token_ids) log

abbrev pub given_or_kept : {I : Type 0} → Option I → I → I
given_or_kept none info = info
given_or_kept (some i) info = i

-- The observation's tokens that fit behind `used` tokens, and whether they were cut.
unfoldable pub fit_observation :
    {T : Type 0} → ℕ → ℕ → List T → Outcome RolloutError (List T × Bool)
fit_observation max_seq_len used obs =
    if leb max_seq_len (length obs + used)
    then (if ltb max_seq_len used
        then raise tokens_left_negative
        else ok (take (max_seq_len - used) obs, true))
    else ok (obs, false)

module _ {T R I : Type 0} where
  -- `assistant` is the role of the engine's messages.
  unfoldable pub add_response : ℕ → Response T → Sample T R I → Sample T R I
  add_response assistant r s = record s {
    message_log = s.message_log ++ record { role = assistant; token_ids = r.generated_ids } ∷ [];
    token_count = s.token_count + length r.generated_ids;
    assistant_token_count = s.assistant_token_count + length r.generated_ids;
    truncated = s.truncated || r.response_truncated;
  }

  unfoldable pub add_feedback :
      (R → R → R) → Feedback T R I → List T × Bool → Sample T R I → Sample T R I
  add_feedback add f (obs, cut) s =
      let done = cut || f.is_terminated in
      record s {
        message_log = s.message_log ++ record { role = f.observation.role; token_ids = obs } ∷ [];
        extra_env_info =
            if done then s.extra_env_info else given_or_kept f.metadata s.extra_env_info;
        stop_strings = if done then s.stop_strings else f.next_stop_strings;
        total_reward = add s.total_reward f.reward;
        turn_count = s.turn_count + 1;
        token_count = s.token_count + length obs;
        env_token_count = s.env_token_count + length obs;
        active = not done;
        terminated = s.terminated || done;
        truncated = s.truncated || cut;
      }

  unfoldable pub any_active : List (Sample T R I) → Bool
  any_active [] = false
  any_active (s ∷ samples) = s.active || any_active samples

  unfoldable pub record_max_turns : Sample T R I → Sample T R I
  record_max_turns s = record s { max_turns_reached = s.max_turns_reached || s.active }

  -- `respond` is what the engine generates for a sample in a turn, and `feedback` what
  -- `calculate_rewards` returns for it.
  module _ (add : R → R → R) (max_seq_len assistant : ℕ)
      (respond : ℕ → ℕ → Sample T R I → Response T)
      (feedback : ℕ → ℕ → Sample T R I → Feedback T R I) where
    unfoldable pub take_turn : ℕ → ℕ → Sample T R I → Outcome RolloutError (Sample T R I)
    unfolding add_response fit_observation add_feedback
    take_turn turn i s =
        let r = respond turn i s in
        let s' = add_response assistant r s in
        let f = feedback turn i s' in
        fit_observation max_seq_len (length r.generated_ids + input_length s.message_log)
          f.observation.token_ids
        >>= λ fitted. ok (add_feedback add f fitted s')

    abbrev turn_if : Bool → ℕ → ℕ → Sample T R I → Outcome RolloutError (Sample T R I)
    turn_if true turn i s = take_turn turn i s
    turn_if false turn i s = ok s

    unfoldable pub turn_from :
        ℕ → ℕ → List (Sample T R I) → Outcome RolloutError (List (Sample T R I))
    unfolding take_turn
    turn_from turn i [] = ok []
    turn_from turn i (s ∷ samples) = do
      s' ← turn_if s.active turn i s
      rest ← turn_from turn (suc i) samples
      ok (s' ∷ rest)

    abbrev next_turn :
        Bool
        → (List (Sample T R I) → Outcome RolloutError (List (Sample T R I)))
        → ℕ
        → List (Sample T R I)
        → Outcome RolloutError (List (Sample T R I))
    next_turn true more turn samples = turn_from turn 0 samples >>= more
    next_turn false more turn samples = ok samples

    -- `turns` turns from number `turn` on
    unfoldable pub run_turns :
        ℕ → ℕ → List (Sample T R I) → Outcome RolloutError (List (Sample T R I))
    unfolding turn_from any_active
    run_turns zero turn samples = ok samples
    run_turns (suc turns) turn samples =
        next_turn (any_active samples) (run_turns turns (suc turn)) turn samples

    unfoldable pub run_multi_turn_rollout :
        ℕ → List (Sample T R I) → Outcome RolloutError (List (Sample T R I))
    unfolding run_turns record_max_turns
    run_multi_turn_rollout max_rollout_turns samples = do
      final ← run_turns max_rollout_turns 0 samples
      ok (map record_max_turns final)

-- A sample of the input batch, before the first turn.
abbrev pub fresh_sample : {T R I : Type 0} → R → List (Message T) → I → Option ℕ → Sample T R I
fresh_sample zero_reward log info stop = record {
  message_log = log;
  extra_env_info = info;
  stop_strings = stop;
  total_reward = zero_reward;
  turn_count = 0;
  token_count = 0;
  assistant_token_count = 0;
  env_token_count = 0;
  active = true;
  terminated = false;
  truncated = false;
  max_turns_reached = false;
}
