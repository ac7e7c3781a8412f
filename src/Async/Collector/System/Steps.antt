-- ===== src/Async/Collector/System/Steps.antt =====
-- The steps of the collection loop, of the workers and of the trainer
-- (nemo_rl/algorithms/async_utils.py), and the states that they reach.
use ne_mo_rl.Common.{
  ℕ, suc, ◌+◌, ◌≡◌, false, ◌&&◌, not, Option, none, some, List, [], ◌∷◌, ltb, leb, ◌==◌,
  if◌then◌else◌, get_elem?, erase_idx,
}
use ne_mo_rl.Async.ReplayBuffer.{
  ReplayBuffer, PushStatus, full, success, push_with_wait_signal, sample, clear,
}
use ne_mo_rl.Async.Collector.{
  Settings, get_next_target_for_generation, discard, limits_reached, all_taken,
  calculate_target_weights, assign_version, signal_limits, is_warned, pause, resume,
  prepare_for_refit, resume_after_refit, start_collection,
}
use ne_mo_rl.Async.Collector.System.{
  Task, created, rolling_out, pushing, sending, buffered, leaving, detaching, releasing, Worker,
  Phase, next_batch, stopped, clean_threads, check_manual, wait_manual, check_refit, wait_refit,
  check_limits, check_warning, set_warning, clear_limits, wait_limits, check_running, read_version,
  check_last, read_last, check_reserved, choose_target, prompt, wait_refit_prompt, reread_version,
  acquire, add_thread, start_thread, System, Action, start, batch, end_of_data, loop_error, advance,
  rollout, work, fail, new_version, wake_loop, set_pause, set_resume, start_refit, wait_pending,
  end_refit, train, clear_buffer, at_phase, with_collector, wait_for, chosen, acquire_permit,
  add_worker, start_worker, cleanup_finished_threads, wait_for_pending_generations, set_task,
}

module _ {A : Type 0} where
  -- The next step of the collection loop with a batch, `_collection_loop` and `_process_batch`.
  unfoldable pub loop_step : Settings → Phase → System A → Option (System A)
  unfolding all_taken calculate_target_weights cleanup_finished_threads
      get_next_target_for_generation
  loop_step s next_batch y = none
  loop_step s stopped y = none
  loop_step s (check_manual n) y =
      if not y.collector.running
      then some (with_collector (record y.collector { running = false }) (at_phase stopped y))
      else if not y.collector.manual_pause_cleared
      then some (at_phase (wait_manual n) y)
      else some (at_phase (check_refit n) y)
  loop_step s (wait_manual n) y =
      wait_for y.collector.manual_pause_cleared (at_phase (check_refit n) y)
  loop_step s (check_refit n) y =
      if not y.collector.refit_pause_cleared && y.collector.running
      then some (at_phase (wait_refit n) y)
      else some (at_phase (check_limits n) y)
  loop_step s (wait_refit n) y =
      wait_for y.collector.refit_pause_cleared (at_phase (check_limits n) y)
  loop_step s clean_threads y = some (at_phase next_batch (cleanup_finished_threads y))
  loop_step s (check_limits n) y =
      some (at_phase (check_last n y.collector.current_weight_version) y)
  loop_step s (check_last n v) y =
      some (at_phase (check_reserved n v y.buffer.last_target_weight_already_generated) y)
  loop_step s (check_reserved n v last) y =
      if limits_reached s last v y.collector && y.collector.running
      then some (at_phase (check_warning n) y)
      else some (at_phase (check_running n) y)
  loop_step s (check_warning n) y =
      if is_warned y.collector.last_limit_warning_version y.collector.current_weight_version
      then some (at_phase (wait_limits n) y)
      else some (at_phase (set_warning n) y)
  loop_step s (set_warning n) y = some (
      with_collector
        (record y.collector {
          last_limit_warning_version = some y.collector.current_weight_version;
        })
        (at_phase (clear_limits n) y))
  loop_step s (clear_limits n) y = some (
      with_collector (record y.collector { generation_limit_cleared = false })
        (at_phase (wait_limits n) y))
  loop_step s (wait_limits n) y =
      wait_for y.collector.generation_limit_cleared (at_phase (check_running n) y)
  loop_step s (check_running n) y =
      if not y.collector.running
      then some (with_collector (record y.collector { running = false }) (at_phase stopped y))
      else some (at_phase (read_version n) y)
  loop_step s (read_version n) y =
      some (at_phase (read_last n y.collector.current_weight_version) y)
  loop_step s (read_last n g) y =
      some (at_phase (choose_target n g y.buffer.last_target_weight_already_generated) y)
  loop_step s (choose_target n g last) y =
      some (chosen n g (get_next_target_for_generation s last g y.collector) y)
  loop_step s (prompt i n g t) y =
      if leb n i
      then some (at_phase clean_threads y)
      else if not y.collector.refit_pause_cleared && y.collector.running
      then some (at_phase (wait_refit_prompt i n g t) y)
      else some (at_phase (acquire i n g t) y)
  loop_step s (wait_refit_prompt i n g t) y =
      wait_for y.collector.refit_pause_cleared (at_phase (reread_version i n g t) y)
  loop_step s (reread_version i n g t) y =
      some (at_phase (acquire i n y.collector.current_weight_version t) y)
  loop_step s (acquire i n g t) y =
      wait_for (ltb 0 y.collector.inflight_sema) (at_phase (add_thread i n g t) (acquire_permit y))
  loop_step s (add_thread i n g t) y = some (at_phase (start_thread i n g t) (add_worker i g t y))
  loop_step s (start_thread i n g t) y =
      some (at_phase (prompt (suc i) n g t) (record y { threads = start_worker y.threads }))

  -- One round of the `while` over the pushes.
  abbrev pub push_answered : ℕ → Worker A → A → PushStatus × ReplayBuffer A → System A → System A
  push_answered j w x (full, b) y = set_task j (pushing x) w (record y { buffer = b })
  push_answered j w x (success, b) y =
      set_task j (if w.prompt_idx == 0 then buffered else leaving) w (record y { buffer = b })

  -- The reservation of the worker's target is released, if it is still there.
  abbrev pub release_reservation : Worker A → System A → System A
  release_reservation w y = record y {
    collector = record y.collector {
      generating_targets = discard w.target_weight_version y.collector.generating_targets;
    };
  }

  -- `_inflight_threads.remove(current)`, if it is there
  abbrev pub detach : ℕ → Worker A → System A → System A
  detach j w y = set_task j releasing (record w { listed = false }) y

  -- `_inflight_sema.release()`, and the thread ends.
  abbrev pub release_permit : ℕ → System A → System A
  release_permit j y = record y {
    collector = record y.collector { inflight_sema = suc y.collector.inflight_sema };
    threads = erase_idx y.threads j;
  }

  abbrev pub rollout_step : ℕ → A → Worker A → Task A → System A → Option (System A)
  rollout_step j x w rolling_out y = some (set_task j (pushing x) w y)
  rollout_step j x w k y = none

  -- The step of worker `j` after its rollout, `_run_prompt_group_worker`
  unfoldable pub work_step : ℕ → Worker A → Task A → System A → Option (System A)
  unfolding push_with_wait_signal discard
  work_step j w created y = none
  work_step j w rolling_out y = none
  work_step j w (pushing x) y =
      if y.collector.running
      then some (set_task j (sending x) w y)
      else some (set_task j leaving w y)
  work_step j w (sending x) y = some (
      push_answered j w x
        (push_with_wait_signal x w.generation_weight_version w.target_weight_version y.buffer) y)
  work_step j w buffered y = some (set_task j leaving w (release_reservation w y))
  work_step j w leaving y = some (set_task j detaching w (release_reservation w y))
  work_step j w detaching y = some (detach j w y)
  work_step j w releasing y = some (release_permit j y)

  -- An exception in the worker before its `finally`
  abbrev pub fail_step : ℕ → Worker A → Task A → System A → Option (System A)
  fail_step j w rolling_out y = some (set_task j leaving w y)
  fail_step j w (pushing x) y = some (set_task j leaving w y)
  fail_step j w (sending x) y = some (set_task j leaving w y)
  fail_step j w buffered y = some (set_task j leaving w y)
  fail_step j w k y = none

  -- A step of worker `j`, if there is one.
  abbrev pub of_worker : Option (Worker A) → (Worker A → Option (System A)) → Option (System A)
  of_worker none f = none
  of_worker (some w) f = f w

  -- `start_collection`, for a collector without a loop.
  unfoldable pub start_loop : Phase → System A → Option (System A)
  unfolding start_collection
  start_loop stopped y =
      some (with_collector (start_collection y.collector) (at_phase next_batch y))
  start_loop p y = none

  -- An exception in the loop: the test of the limits then answers False, and `_process_batch` ends.
  -- A thread whose start fails keeps its permit.
  abbrev pub on_error : Phase → System A → Option (System A)
  on_error (check_last n v) y = some (at_phase (check_running n) y)
  on_error (read_last n g) y = some (at_phase next_batch y)
  on_error (prompt i n g t) y = some (at_phase next_batch y)
  on_error (acquire i n g t) y = some (at_phase next_batch y)
  on_error (start_thread i n g t) y = some (at_phase next_batch y)
  on_error p y = none

  abbrev pub begin_batch : ℕ → Phase → System A → Option (System A)
  begin_batch n next_batch y = some (at_phase (check_manual n) y)
  begin_batch n p y = none

  abbrev pub finish : Phase → System A → Option (System A)
  finish next_batch y =
      some (with_collector (record y.collector { running = false }) (at_phase stopped y))
  finish p y = none

  -- One step; the trainer's weight version grows by `d`.
  unfoldable pub act : Settings → Action A → System A → Option (System A)
  unfolding start_loop loop_step work_step wait_for_pending_generations pause resume
      prepare_for_refit resume_after_refit sample clear
  act s start y = start_loop y.phase y
  act s (batch n) y = begin_batch n y.phase y
  act s end_of_data y = finish y.phase y
  act s loop_error y = on_error y.phase y
  act s advance y = loop_step s y.phase y
  act s (rollout j x) y = of_worker (get_elem? y.threads j) (λ w. rollout_step j x w w.task y)
  act s (work j) y = of_worker (get_elem? y.threads j) (λ w. work_step j w w.task y)
  act s (fail j) y = of_worker (get_elem? y.threads j) (λ w. fail_step j w w.task y)
  act s (new_version d) y =
      some (with_collector (assign_version (y.collector.current_weight_version + d) y.collector) y)
  act s wake_loop y = some (with_collector (signal_limits y.collector) y)
  act s set_pause y = some (with_collector (pause y.collector) y)
  act s set_resume y = some (with_collector (resume y.collector) y)
  act s start_refit y = some (with_collector (prepare_for_refit y.collector) y)
  act s wait_pending y = some (wait_for_pending_generations y).1
  act s end_refit y = some (with_collector (resume_after_refit y.collector) y)
  act s (train n current max_age) y =
      some (record y { buffer = (sample n current max_age y.buffer).1 })
  act s clear_buffer y = some (record y { buffer = clear y.buffer })

  -- The states that the steps reach from `y`.
  pub data Reach (s : Settings) (y : System A) : System A → Type 0 where
    here : Reach s y y
    there :
        {z next : System A} (a : Action A) → Reach s y z → act s a z ≡ some next → Reach s y next

  -- The steps one after the other, if each is possible.
  unfoldable pub follow : Settings → List (Action A) → System A → Option (System A)
  unfolding act
  follow s [] y = some y
  follow s (a ∷ rest) y = elim (act s a y) [ none ↦ none | some z ↦ follow s rest z ]
