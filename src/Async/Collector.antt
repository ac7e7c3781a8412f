-- ===== src/Async/Collector.antt =====
-- `AsyncTrajectoryCollector` (nemo_rl/algorithms/async_utils.py): its settings, its state and the
-- methods that the collection loop, the workers and the trainer call. An event is a Boolean (it is
-- set or not), a semaphore the number of its permits, and a set a list of its members.
pub mod Targets
pub mod System
pub mod Tests
use ne_mo_rl.Common.{
  ℕ, zero, suc, ◌+◌, ◌*◌, Bool, true, false, ◌&&◌, ◌||◌, not, Option, none, some, List, [], ◌∷◌,
  ltb, leb, ◌==◌, if◌then◌else◌, range_from, ℤ, pos, lt_int,
}
use ne_mo_rl.Async.ReplayBuffer.{ReplayBuffer}

-- What the methods read of `master_config`.
pub record Settings : Type 0 where
  pub num_prompts_per_step : ℕ
  pub max_trajectory_age_steps : ℕ

pub record Collector : Type 0 where
  pub running : Bool
  pub manual_pause_cleared : Bool
  pub refit_pause_cleared : Bool
  pub generation_limit_cleared : Bool
  pub current_weight_version : ℕ
  pub initial_weight_version : ℕ
  pub last_limit_warning_version : Option ℕ
  pub inflight_sema : ℕ
  pub generating_targets : List ℕ

-- `... or 1`
abbrev pub max_inflight : Settings → ℕ
max_inflight s =
    let n = s.num_prompts_per_step * s.max_trajectory_age_steps in if n == 0 then 1 else n

abbrev pub new_collector : Settings → ℕ → Collector
new_collector s start_step = record {
  running = false;
  manual_pause_cleared = true;
  refit_pause_cleared = true;
  generation_limit_cleared = true;
  current_weight_version = start_step;
  initial_weight_version = start_step;
  last_limit_warning_version = none;
  inflight_sema = max_inflight s;
  generating_targets = [];
}

unfoldable pub calculate_target_weights : Settings → ℕ → Collector → List ℕ
calculate_target_weights s generation_weight_version c =
    if generation_weight_version == c.initial_weight_version
    then range_from c.initial_weight_version (s.max_trajectory_age_steps + 1)
    else range_from (suc generation_weight_version) s.max_trajectory_age_steps

-- `t in l`
unfoldable pub is_in : ℕ → List ℕ → Bool
is_in t [] = false
is_in t (u ∷ l) = t == u || is_in t l

-- `generating_targets.discard(t)`
unfoldable pub discard : ℕ → List ℕ → List ℕ
discard t [] = []
discard t (u ∷ l) = let rest = discard t l in if t == u then rest else u ∷ rest

-- The test that both loops over the target weights make.
abbrev pub needs_generation : ℤ → List ℕ → ℕ → Bool
needs_generation last generating t = lt_int last (pos t) && not (is_in t generating)

-- The `for` of `_get_next_target_for_generation`.
unfoldable pub next_target : ℤ → List ℕ → List ℕ → Option ℕ
unfolding is_in
next_target last generating [] = none
next_target last generating (t ∷ targets) =
    if needs_generation last generating t then some t else next_target last generating targets

abbrev pub reserve : Option ℕ → Collector → Option ℕ × Collector
reserve none c = (none, c)
reserve (some t) c = (some t, record c { generating_targets = t ∷ c.generating_targets })

-- `last` is what the replay buffer answers.
unfoldable pub get_next_target_for_generation : Settings → ℤ → ℕ → Collector → Option ℕ × Collector
unfolding calculate_target_weights next_target
get_next_target_for_generation s last generation_weight_version c =
    reserve
      (next_target last c.generating_targets
        (calculate_target_weights s generation_weight_version c))
      c

-- The `for` of `_should_pause_for_generation_limits`: true if no target needs generation.
unfoldable pub all_taken : ℤ → List ℕ → List ℕ → Bool
unfolding is_in
all_taken last generating [] = true
all_taken last generating (t ∷ targets) =
    if needs_generation last generating t then false else all_taken last generating targets

-- The test under the lock, for the targets of a version that was read before.
abbrev pub limits_reached : Settings → ℤ → ℕ → Collector → Bool
limits_reached s last version c =
    all_taken last c.generating_targets (calculate_target_weights s version c)

unfoldable pub should_pause_for_generation_limits : Settings → ℤ → Collector → Bool
unfolding calculate_target_weights all_taken
should_pause_for_generation_limits s last c = limits_reached s last c.current_weight_version c

-- The two accesses of `set_weight_version`: the version, and the event that lets the loop go on
abbrev pub assign_version : ℕ → Collector → Collector
assign_version version c = record c { current_weight_version = version }

abbrev pub signal_limits : Collector → Collector
signal_limits c = record c { generation_limit_cleared = true }

unfoldable pub pause : Collector → Collector
pause c = record c { manual_pause_cleared = false }

unfoldable pub resume : Collector → Collector
resume c = record c { manual_pause_cleared = true }

-- `prepare_for_refit` up to its wait
unfoldable pub prepare_for_refit : Collector → Collector
prepare_for_refit c = record c { refit_pause_cleared = false }

unfoldable pub resume_after_refit : Collector → Collector
resume_after_refit c = record c { refit_pause_cleared = true }

unfoldable pub start_collection : Collector → Collector
start_collection c = record c { running = true }

-- `self._last_limit_warning_version == self.current_weight_version`
abbrev pub is_warned : Option ℕ → ℕ → Bool
is_warned none version = false
is_warned (some v) version = v == version
