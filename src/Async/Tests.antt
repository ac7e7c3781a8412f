-- ===== src/Async/Tests.antt =====
-- Runs of the replay buffer (nemo_rl/algorithms/async_utils.py), and the theorems at concrete
-- inputs.
use ne_mo_rl.Common.{ℕ, ◌≡◌, refl, none, some, List, [], ◌∷◌, ok, raise, pos, negsuc}
use ne_mo_rl.Async.ReplayBuffer.{
  ReplayBuffer, init, sample, older_than_window, push_with_wait_signal,
}
use ne_mo_rl.Async.ReplayBuffer.Queue.{Entry, Queue, buffer_of, sample_queue, push_queue}
use ne_mo_rl.Async.ReplayBuffer.Refinement.{push-refines, sample-refines}
use ne_mo_rl.Async.ReplayBuffer.Sampling.{SampleResult, sample-SampleResult}
use ne_mo_rl.Async.ReplayBuffer.Invariant.{
  Call, push, take_groups, empty_buffer, run, Holds, init-run-Holds,
}

abbrev entry : ℕ → ℕ → ℕ → Entry ℕ
entry x v t = record { trajectory = x; version = v; target = t }

-- Groups for steps 4 and 5; the trainer is at step 4.
abbrev queue : Queue ℕ
queue = record {
  max_size = 6;
  entries = entry 10 3 4 ∷ entry 11 3 5 ∷ entry 12 4 4 ∷ entry 13 4 5 ∷ entry 14 2 4 ∷ [];
  last_target = pos 5;
}

sample_two : sample 2 4 2 (buffer_of queue) ≡ (
  ok (
      some (record {
        trajectories = 10 ∷ 12 ∷ [];
        avg_trajectory_age = record { numerator = 1; denominator = 2 };
      })),
  buffer_of (record queue { entries = entry 11 3 5 ∷ entry 13 4 5 ∷ entry 14 2 4 ∷ [] }),
)
unfolding sample
sample_two = refl

sample_old : sample 2 5 2 (buffer_of queue) ≡ (raise older_than_window, buffer_of queue)
unfolding sample
sample_old = refl

sample_stalls : sample 4 4 2 (buffer_of queue) ≡ (ok none, buffer_of queue)
unfolding sample
sample_stalls = refl

sample-SampleResult_example : SampleResult 2 4 2 queue (sample 2 4 2 (buffer_of queue))
sample-SampleResult_example = sample-SampleResult 2 4 2 queue

sample-refines_example :
    sample 2 4 2 (buffer_of queue)
    ≡ ((sample_queue 2 4 2 queue).0, buffer_of (sample_queue 2 4 2 queue).1)
sample-refines_example = sample-refines 2 4 2 queue

push-refines_example :
    push_with_wait_signal 15 4 6 (buffer_of queue)
    ≡ ((push_queue 15 4 6 queue).0, buffer_of (push_queue 15 4 6 queue).1)
push-refines_example = push-refines 15 4 6 queue

abbrev empty : ReplayBuffer ℕ
empty = record {
  max_size = 2;
  trajectories = [];
  trajectory_versions = [];
  target_weight_versions = [];
  last_target_weight_already_generated = negsuc 0;
}

init_two : init {A = ℕ} (pos 2) ≡ ok empty
unfolding init
init_two = refl

abbrev calls : List (Call ℕ)
calls = push 7 0 1 ∷ push 8 0 1 ∷ push 9 0 2 ∷ take_groups 1 1 1 ∷ empty_buffer ∷ []

init-run-Holds_example : Holds 2 (run calls empty)
init-run-Holds_example = init-run-Holds 2 empty init_two calls
