-- ===== src/Async/Collector/Tests.antt =====
-- Runs of the collector (nemo_rl/algorithms/async_utils.py), and the theorems at concrete inputs.
use ne_mo_rl.Common.{
  ℕ, ◌≡◌, refl, Bool, true, false, none, some, List, [], ◌∷◌, ◌++◌, replicate, ok, pos, negsuc, All,
  ◌↔◌,
}
use ne_mo_rl.Async.ReplayBuffer.{ReplayBuffer, init}
use ne_mo_rl.Async.ReplayBuffer.Queue.{Queue, buffer_of}
use ne_mo_rl.Async.Collector.{
  Settings, Collector, should_pause_for_generation_limits, get_next_target_for_generation,
  calculate_target_weights,
}
use ne_mo_rl.Async.Collector.Targets.{
  NextTarget, should_pause-iff-no_target, get_next_target_for_generation-NextTarget,
}
use ne_mo_rl.Async.Collector.System.{
  Task, created, rolling_out, prompt, start_thread, Worker, System, Action, start, batch, advance,
  rollout, work, new_version, wake_loop, start_refit, wait_pending, train, wait_limits,
  wait_for_pending_generations, begin,
}
use ne_mo_rl.Async.Collector.System.Steps.{act, follow, here}
use ne_mo_rl.Async.Collector.System.Window.{IsSafe}
use ne_mo_rl.Async.Collector.System.Safety.{IsUsable, Reach-IsSafe, Reach-IsUsable, follow-Reach}

-- One prompt for each step, and an age of one step at most.
abbrev one_step : Settings
one_step = record { num_prompts_per_step = 1; max_trajectory_age_steps = 1 }

abbrev empty_two : ReplayBuffer ℕ
empty_two = record {
  max_size = 2;
  trajectories = [];
  trajectory_versions = [];
  target_weight_versions = [];
  last_target_weight_already_generated = negsuc 0;
}

init_empty : init {A = ℕ} (pos 2) ≡ ok empty_two
unfolding init
init_empty = refl

abbrev group : ℕ → List (Action ℕ)
group x = batch 1 ∷ replicate 15 advance ++ rollout 0 x ∷ replicate 6 (work 0)

-- Groups for the steps 0 and 1, and a third batch up to the decision to pause.
abbrev full_window : List (Action ℕ)
full_window = (start ∷ group 7) ++ (group 8 ++ batch 1 ∷ replicate 5 advance)

-- The trainer takes the group of step 0 and moves on before the loop clears its event.
abbrev overtaken : List (Action ℕ)
overtaken = full_window ++ train 1 0 1 ∷ new_version 1 ∷ wake_loop ∷ replicate 3 advance

abbrev stuck_collector : Collector
stuck_collector = record {
  running = true;
  manual_pause_cleared = true;
  refit_pause_cleared = true;
  generation_limit_cleared = false;
  current_weight_version = 1;
  initial_weight_version = 0;
  last_limit_warning_version = some 1;
  inflight_sema = 1;
  generating_targets = [];
}

abbrev stuck : System ℕ
stuck = record {
  collector = stuck_collector;
  buffer = record {
    max_size = 2;
    trajectories = 8 ∷ [];
    trajectory_versions = 0 ∷ [];
    target_weight_versions = 1 ∷ [];
    last_target_weight_already_generated = pos 1;
  };
  phase = wait_limits 1;
  threads = [];
}

follow-overtaken : follow one_step overtaken (begin one_step 0 empty_two) ≡ some stuck
unfolding follow
follow-overtaken = refl

-- The loop waits for the limits, though a target of the new version needs generation.
stuck_waits :
    (act one_step advance stuck ≡ none)
    × (should_pause_for_generation_limits one_step (pos 1) stuck_collector ≡ false)
unfolding act should_pause_for_generation_limits
stuck_waits = (refl, refl)

-- The trainer's next version wakes the loop, but then step 2 is before all its targets.
skipped_target :
    calculate_target_weights one_step 2 (record stuck_collector { current_weight_version = 2 })
    ≡ 3 ∷ []
unfolding calculate_target_weights
skipped_target = refl

abbrev refit_collector : Collector
refit_collector = record {
  running = true;
  manual_pause_cleared = true;
  refit_pause_cleared = false;
  generation_limit_cleared = true;
  current_weight_version = 0;
  initial_weight_version = 0;
  last_limit_warning_version = none;
  inflight_sema = 0;
  generating_targets = 0 ∷ [];
}

abbrev first_worker : Bool → Task ℕ → Worker ℕ
first_worker listed k = record {
  prompt_idx = 0;
  generation_weight_version = 0;
  target_weight_version = 0;
  listed = listed;
  task = k;
}

abbrev unstarted : System ℕ
unstarted = record {
  collector = refit_collector;
  buffer = empty_two;
  phase = start_thread 0 1 0 0;
  threads = first_worker true created ∷ [];
}

-- The trainer prepares a refit when the loop has added a thread and not started it.
follow-unstarted :
    follow one_step
      (start ∷ batch 1 ∷ replicate 12 advance ++ start_refit ∷ [])
      (begin one_step 0 empty_two)
    ≡ some unstarted
unfolding follow
follow-unstarted = refl

-- The wait for pending generations ends at once, as it drops that thread from the set, and the
-- thread then starts its rollout during the refit.
starts_in_refit :
    ((wait_for_pending_generations unstarted).0 ≡ true)
    × (follow one_step (wait_pending ∷ advance ∷ []) unstarted
        ≡ some (record unstarted {
          phase = prompt 1 1 0 0;
          threads = first_worker false rolling_out ∷ [];
        }))
unfolding follow wait_for_pending_generations
starts_in_refit = (refl, refl)

Reach-IsSafe_example : IsSafe one_step stuck
Reach-IsSafe_example = Reach-IsSafe one_step 2 0 empty_two init_empty (
    follow-Reach one_step overtaken (begin one_step 0 empty_two) (begin one_step 0 empty_two) stuck
      here follow-overtaken)

Reach-IsUsable_example :
    (q : Queue ℕ) × (stuck.buffer ≡ buffer_of q) × All (IsUsable one_step 1) q.entries
Reach-IsUsable_example = Reach-IsUsable one_step 2 0 empty_two init_empty (
    follow-Reach one_step overtaken (begin one_step 0 empty_two) (begin one_step 0 empty_two) stuck
      here follow-overtaken)

get_next_target_for_generation-NextTarget_example :
    NextTarget one_step
      (pos 1)
      1
      stuck_collector
      (get_next_target_for_generation one_step (pos 1) 1 stuck_collector)
get_next_target_for_generation-NextTarget_example =
    get_next_target_for_generation-NextTarget one_step (pos 1) 1 stuck_collector

should_pause-iff-no_target_example :
    (should_pause_for_generation_limits one_step (pos 1) stuck_collector ≡ true)
    ↔ ((get_next_target_for_generation one_step (pos 1) 1 stuck_collector).0 ≡ none)
should_pause-iff-no_target_example = should_pause-iff-no_target one_step (pos 1) stuck_collector
