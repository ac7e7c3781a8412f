-- ===== src/Async/Collector/System.antt =====
-- The collector at work (nemo_rl/algorithms/async_utils.py): its shared state and where its loop,
-- its worker threads and the trainer stand. They take steps in any order (Steps). A phase of the
-- loop and the task of a worker stand between two accesses to what the threads share: each event,
-- the semaphore, the set of threads and the set of reservations under its lock, the weight version
-- and the replay buffer is read or changed in a step of its own; `set_weight_version` is two steps
-- of the trainer. Merged into one step are:
--   * a read of `running` by the loop with the access before it: only the loop clears `running`;
--   * the release of a worker's permit and the end of its thread, which is in the set no more.
-- The set of threads has those that are `listed`. A thread is alive from its start until it has
-- released its permit. A step that waits for an event or for the semaphore is not possible (`none`)
-- until it is set. The rollout of a prompt group and its failures come from outside, as do the
-- batches; the creation of a thread object and its place in the set do not fail, its start may.
pub mod Steps
pub mod Window
pub mod Loop
pub mod Workers
pub mod Safety
use ne_mo_rl.Common.{
  ℕ, zero, suc, ◌+◌, ◌-◌, ◌≡◌, Bool, true, false, ◌&&◌, ◌||◌, not, Option, none, some, List, [],
  ◌∷◌, ltb, leb, ◌==◌, if◌then◌else◌, ℤ, set, get_elem?, erase_idx, map,
}
use ne_mo_rl.Async.ReplayBuffer.{ReplayBuffer, PushStatus, full, success}
use ne_mo_rl.Async.Collector.{Settings, Collector, new_collector, discard}

-- What a worker does next: nothing before its start; its rollout; the test of `running` and the
-- push of what the rollout made; the release of the reservation, if its prompt is the first; and
-- the `finally`, which releases the reservation, takes the thread out of the set and releases the
-- permit.
pub data Task (A : Type 0) : Type 0 where
  created rolling_out : Task A
  pushing sending : A → Task A
  buffered leaving detaching releasing : Task A

pub record Worker (A : Type 0) : Type 0 where
  pub prompt_idx : ℕ
  pub generation_weight_version : ℕ
  pub target_weight_version : ℕ
  pub listed : Bool
  pub task : Task A

-- Where the collection loop stands. `n` is the number of prompts of its batch; `prompt i n g t`
-- is the round for prompt `i` with generation version `g` and target `t`.
pub data Phase : Type 0 where
  next_batch stopped clean_threads : Phase
  check_manual wait_manual check_refit wait_refit : ℕ → Phase
  check_limits check_warning set_warning clear_limits wait_limits check_running read_version :
      ℕ → Phase
  check_last read_last : ℕ → ℕ → Phase
  check_reserved choose_target : ℕ → ℕ → ℤ → Phase
  prompt wait_refit_prompt reread_version : ℕ → ℕ → ℕ → ℕ → Phase
  acquire add_thread start_thread : ℕ → ℕ → ℕ → ℕ → Phase

-- `threads` are the worker threads that hold a permit, the last added first.
pub record System (A : Type 0) : Type 0 where
  pub collector : Collector
  pub buffer : ReplayBuffer A
  pub phase : Phase
  pub threads : List (Worker A)

-- A step: of the loop (`start` to `advance`), of worker `j`, or of the trainer.
pub data Action (A : Type 0) : Type 0 where
  start : Action A
  batch : ℕ → Action A
  end_of_data loop_error advance : Action A
  rollout : ℕ → A → Action A
  work fail : ℕ → Action A
  new_version : ℕ → Action A
  wake_loop set_pause set_resume start_refit wait_pending end_refit : Action A
  train : ℕ → ℕ → ℕ → Action A
  clear_buffer : Action A

module _ {A : Type 0} where
  abbrev pub at_phase : Phase → System A → System A
  at_phase p y = record y { phase = p }

  abbrev pub with_collector : Collector → System A → System A
  with_collector c y = record y { collector = c }

  -- `event.wait()`
  abbrev pub wait_for : Bool → System A → Option (System A)
  wait_for true y = some y
  wait_for false y = none

  -- the branch on the target in `_process_batch`
  abbrev pub chosen : ℕ → ℕ → Option ℕ × Collector → System A → System A
  chosen n g (none, c) y = record y { collector = c; phase = next_batch }
  chosen n g (some t, c) y = record y { collector = c; phase = prompt 0 n g t }

  -- `_inflight_sema.acquire()`, when there is a permit
  abbrev pub acquire_permit : System A → System A
  acquire_permit y = record y {
    collector = record y.collector { inflight_sema = y.collector.inflight_sema - 1 };
  }

  -- `_inflight_threads.add(worker)` of the new thread for prompt `i`
  abbrev pub add_worker : ℕ → ℕ → ℕ → System A → System A
  add_worker i g t y = record y {
    threads =
        record {
          prompt_idx = i;
          generation_weight_version = g;
          target_weight_version = t;
          listed = true;
          task = created;
        }
        ∷ y.threads;
  }

  abbrev pub with_task : Task A → Worker A → Worker A
  with_task k w = record w { task = k }

  -- `worker.start()` of the thread that was added last
  abbrev pub start_worker : List (Worker A) → List (Worker A)
  start_worker [] = []
  start_worker (w ∷ ws) = with_task rolling_out w ∷ ws

  -- Only a thread that is not started is not alive.
  abbrev pub is_alive : Task A → Bool
  is_alive created = false
  is_alive k = true

  abbrev pub drop_dead : Worker A → Worker A
  drop_dead w = record w { listed = w.listed && is_alive w.task }

  -- All threads that are not alive are taken out of the set, also one that is not started yet.
  unfoldable pub cleanup_finished_threads : System A → System A
  cleanup_finished_threads y = record y { threads = map drop_dead y.threads }

  -- `len(self._inflight_threads)`
  unfoldable pub pending_count : List (Worker A) → ℕ
  pending_count [] = 0
  pending_count (w ∷ ws) = if w.listed then suc (pending_count ws) else pending_count ws

  -- One round of the `while`, which ends if the first component is true.
  unfoldable pub wait_for_pending_generations : System A → Bool × System A
  unfolding cleanup_finished_threads pending_count
  wait_for_pending_generations y =
      let z = cleanup_finished_threads y in (pending_count z.threads == 0, z)

  -- Worker `j` goes on with the task `k`.
  abbrev pub set_task : ℕ → Task A → Worker A → System A → System A
  set_task j k w y = record y { threads = set y.threads j (with_task k w) }

  abbrev pub begin : Settings → ℕ → ReplayBuffer A → System A
  begin s start_step b = record {
    collector = new_collector s start_step;
    buffer = b;
    phase = stopped;
    threads = [];
  }
