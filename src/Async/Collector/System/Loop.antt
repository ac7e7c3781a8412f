-- ===== src/Async/Collector/System/Loop.antt =====
-- The steps of the collection loop (nemo_rl/algorithms/async_utils.py).
use ne_mo_rl.Common.{◌&&◌, not, leb, arith, refl, false}
use ne_mo_rl.Async.Collector.{is_warned, limits_reached, Settings}
use ne_mo_rl.Async.Collector.Targets.{get_next_target_for_generation-NextTarget}
use ne_mo_rl.Async.Collector.System.{
  Phase, next_batch, stopped, clean_threads, check_manual, wait_manual, check_refit, wait_refit,
  check_limits, check_warning, set_warning, clear_limits, wait_limits, check_running, read_version,
  check_last, read_last, check_reserved, choose_target, prompt, wait_refit_prompt, reread_version,
  acquire, add_thread, start_thread, System,
}
use ne_mo_rl.Async.Collector.System.Steps.{loop_step}
use ne_mo_rl.Async.Collector.System.Window.{
  SafeAt, SafeAfter, chosen-IsSafe, either-SafeAfter, acquire-SafeAfter, add-IsSafe, start-SafeAt,
  cleanup-SafeAt, wait_for-SafeAfter, with_collector-SafeAt,
}

module _ {A : Type 0} (s : Settings) where
  pub loop_step-SafeAfter :
      (p : Phase) (y : System A) → SafeAt s p y → SafeAfter s (loop_step s p y)
  unfolding loop_step
  loop_step-SafeAfter next_batch y h = tt
  loop_step-SafeAfter stopped y h = tt
  loop_step-SafeAfter clean_threads y h = cleanup-SafeAt s next_batch y h
  loop_step-SafeAfter (check_manual n) y (h, w) =
      either-SafeAfter s (not y.collector.running) _ _
        (with_collector-SafeAt s stopped (record y.collector { running = false }) y refl refl refl
          (h, tt))
        (either-SafeAfter s (not y.collector.manual_pause_cleared) _ _ (h, tt) (h, tt))
  loop_step-SafeAfter (wait_manual n) y (h, w) =
      wait_for-SafeAfter s y.collector.manual_pause_cleared _ (h, tt)
  loop_step-SafeAfter (check_refit n) y (h, w) =
      either-SafeAfter s (not y.collector.refit_pause_cleared && y.collector.running) _ _ (h, tt)
        (h, tt)
  loop_step-SafeAfter (wait_refit n) y (h, w) =
      wait_for-SafeAfter s y.collector.refit_pause_cleared _ (h, tt)
  loop_step-SafeAfter (check_limits n) y (h, w) = (h, tt)
  loop_step-SafeAfter (check_last n v) y (h, w) = (h, tt)
  loop_step-SafeAfter (check_reserved n v last) y (h, w) =
      either-SafeAfter s (limits_reached s last v y.collector && y.collector.running) _ _ (h, tt)
        (h, tt)
  loop_step-SafeAfter (check_warning n) y h =
      either-SafeAfter s
        (is_warned y.collector.last_limit_warning_version y.collector.current_weight_version) _ _ h
        h
  loop_step-SafeAfter (set_warning n) y h =
      with_collector-SafeAt s (clear_limits n) _ y refl refl refl h
  loop_step-SafeAfter (clear_limits n) y h =
      with_collector-SafeAt s (wait_limits n) _ y refl refl refl h
  loop_step-SafeAfter (wait_limits n) y (h, w) =
      wait_for-SafeAfter s y.collector.generation_limit_cleared _ (h, tt)
  loop_step-SafeAfter (check_running n) y (h, w) =
      either-SafeAfter s (not y.collector.running) _ _
        (with_collector-SafeAt s stopped (record y.collector { running = false }) y refl refl refl
          (h, tt))
        (h, tt)
  loop_step-SafeAfter (read_version n) y (h, w) = (h, omega arith)
  loop_step-SafeAfter (read_last n g) y h = h
  loop_step-SafeAfter (choose_target n g last) y h =
      chosen-IsSafe s n g last y h _
        (get_next_target_for_generation-NextTarget s last g y.collector)
  loop_step-SafeAfter (prompt i n g t) y (h, w) =
      either-SafeAfter s (leb n i) _ _ (h, tt)
        (either-SafeAfter s (not y.collector.refit_pause_cleared && y.collector.running) _ _ (h, w)
          (h, w))
  loop_step-SafeAfter (wait_refit_prompt i n g t) y h =
      wait_for-SafeAfter s y.collector.refit_pause_cleared _ h
  loop_step-SafeAfter (reread_version i n g t) y (h, w) =
      (h, (omega arith, omega (arith, w.0, w.1)))
  loop_step-SafeAfter (acquire i n g t) y h = acquire-SafeAfter s i n g t y h
  loop_step-SafeAfter (add_thread i n g t) y h = add-IsSafe s i n g t y h
  loop_step-SafeAfter (start_thread i n g t) y h = start-SafeAt s (prompt i n g t) y h
