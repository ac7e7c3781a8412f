-- ===== src/Timeout/Tests.antt =====
-- Runs of `TimeoutChecker` (nemo_rl/utils/timer.py), and the theorem at a concrete input.
use ne_mo_rl.Common.{
  ◌≤◌, ◌≡◌, refl, ◌⊎◌, Bool, true, false, none, some, List, [], ◌∷◌, Outcome, ok, raise,
}
use ne_mo_rl.Timeout.{
  TimeoutError, wrong_number_of_fields, unbound_elapsed_time, TimeoutChecker, TimeoutCall, starts,
  checks, marks, convert_to_seconds, run_calls,
}
use ne_mo_rl.Timeout.Once.{yes_count, late_check, run_calls_once}

default_timeout : convert_to_seconds (0 ∷ 3 ∷ 45 ∷ 0 ∷ []) ≡ ok 13500
unfolding convert_to_seconds
default_timeout = refl

three_fields : convert_to_seconds (3 ∷ 45 ∷ 0 ∷ []) ≡ raise wrong_number_of_fields
unfolding convert_to_seconds
three_fields = refl

-- A limit of 100 seconds from second 1000 on, with the average taken into account.
abbrev checker : TimeoutChecker
checker = record {
  last_save_time = some 100;
  start_time = 1000;
  last_saved = false;
  iteration_times = [];
  previous_iteration_time = none;
  fit_last_save_time = true;
}

abbrev training : List TimeoutCall
training = checks 1030 ∷ marks 1040 ∷ checks 1050 ∷ marks 1070 ∷ checks 1070 ∷ checks 1110 ∷ []

run_calls_once_example :
    (answers : List Bool) × (after : TimeoutChecker) × (run_calls (starts 1000 ∷ training) checker
      ≡ ok (answers, after))
    × (yes_count answers ≤ 1)
    × ((late_check 1000 (some 100) training ≡ false) ⊎ (yes_count answers ≡ 1))
run_calls_once_example = run_calls_once checker 1000 training refl

abbrev answers_of : Outcome TimeoutError (List Bool × TimeoutChecker) → List Bool
answers_of (ok r) = r.0
answers_of (raise e) = []

-- At second 1070 an iteration of 35 seconds on average does not fit any more.
fitted : answers_of (run_calls (starts 1000 ∷ training) checker) ≡ false ∷ false ∷ true ∷ false ∷ []
unfolding run_calls
fitted = refl

not_started : run_calls (marks 1040 ∷ []) checker ≡ raise unbound_elapsed_time
unfolding run_calls
not_started = refl
