-- ===== src/Async/Collector/System/Window.antt =====
-- What is kept by the steps of the collector, and the changes that keep it
-- (nemo_rl/algorithms/async_utils.py).
use ne_mo_rl.Common.{
  ℕ, ◌+◌, ◌≤◌, ◌≡◌, refl, Bool, true, false, Option, none, some, ltb, if◌then◌else◌, ℤ, length,
  length-map, List, [], ◌∷◌, map, All, arith, Bool-cases, inl, inr,
}
use ne_mo_rl.Async.ReplayBuffer.{ReplayBuffer}
use ne_mo_rl.Async.ReplayBuffer.Queue.{Entry, Queue, buffer_of}
use ne_mo_rl.Async.Collector.{Settings, Collector, max_inflight}
use ne_mo_rl.Async.Collector.Targets.{NoDup, NextTarget}
use ne_mo_rl.Async.Collector.System.{
  Worker, Phase, next_batch, stopped, clean_threads, check_manual, wait_manual, check_refit,
  wait_refit, check_limits, check_warning, set_warning, clear_limits, wait_limits, check_running,
  read_version, check_last, read_last, check_reserved, choose_target, prompt, wait_refit_prompt,
  reread_version, acquire, add_thread, start_thread, System, at_phase, with_collector, wait_for,
  chosen, acquire_permit, add_worker, start_worker, drop_dead, cleanup_finished_threads,
}

-- A worker's target is at most the maximal age after the version that generates for it, which the
-- trainer has reached.
abbrev pub InWindow : Settings → ℕ → ℕ → ℕ → Type 0
InWindow s current g t = (g ≤ current) × (t ≤ g + s.max_trajectory_age_steps)

pub window_later :
    (s : Settings) (current d g t : ℕ) → InWindow s current g t → InWindow s (current + d) g t
window_later s current d g t h = omega (arith, h.0, h.1)

-- What a phase of the loop remembers.
abbrev pub PhaseWindow : Settings → ℕ → Phase → Type 0
PhaseWindow s current (prompt i n g t) = InWindow s current g t
PhaseWindow s current (wait_refit_prompt i n g t) = InWindow s current g t
PhaseWindow s current (reread_version i n g t) = InWindow s current g t
PhaseWindow s current (acquire i n g t) = InWindow s current g t
PhaseWindow s current (add_thread i n g t) = InWindow s current g t
PhaseWindow s current (start_thread i n g t) = InWindow s current g t
PhaseWindow s current (read_last n g) = g ≤ current
PhaseWindow s current (choose_target n g last) = g ≤ current
PhaseWindow s current p = Unit

-- The permits that the loop holds: the one for a thread that is not in the set yet.
abbrev pub holding : Phase → ℕ
holding (add_thread i n g t) = 1
holding p = 0

pub phase_later :
    (s : Settings) (current d : ℕ) (p : Phase)
    → PhaseWindow s current p
    → PhaseWindow s (current + d) p
phase_later s current d (prompt i n g t) h = window_later s current d g t h
phase_later s current d (wait_refit_prompt i n g t) h = window_later s current d g t h
phase_later s current d (reread_version i n g t) h = window_later s current d g t h
phase_later s current d (acquire i n g t) h = window_later s current d g t h
phase_later s current d (add_thread i n g t) h = window_later s current d g t h
phase_later s current d (start_thread i n g t) h = window_later s current d g t h
phase_later s current d (read_last n g) h = omega arith
phase_later s current d (choose_target n g last) h = omega arith
phase_later s current d next_batch h = tt
phase_later s current d clean_threads h = tt
phase_later s current d (check_last n v) h = tt
phase_later s current d (check_reserved n v last) h = tt
phase_later s current d stopped h = tt
phase_later s current d (check_manual n) h = tt
phase_later s current d (wait_manual n) h = tt
phase_later s current d (check_refit n) h = tt
phase_later s current d (wait_refit n) h = tt
phase_later s current d (check_limits n) h = tt
phase_later s current d (check_warning n) h = tt
phase_later s current d (set_warning n) h = tt
phase_later s current d (clear_limits n) h = tt
phase_later s current d (wait_limits n) h = tt
phase_later s current d (check_running n) h = tt
phase_later s current d (read_version n) h = tt

module _ {A : Type 0} (s : Settings) where
  abbrev pub WorkerWindow : ℕ → Worker A → Type 0
  WorkerWindow current w = InWindow s current w.generation_weight_version w.target_weight_version

  abbrev pub EntryWindow : ℕ → Entry A → Type 0
  EntryWindow current e = InWindow s current e.version e.target

  -- The buffer is a queue of groups whose targets are in the window of their versions.
  abbrev pub BufferWindow : ℕ → ReplayBuffer A → Type 0
  BufferWindow current b = (q : Queue A) × (b ≡ buffer_of q) × All (EntryWindow current) q.entries

  -- What holds of what is shared, with `held` the permits that the loop holds. Every permit of the
  -- semaphore is free, or one thread's (from its place in the set to its release of it, started or
  -- not), or held by the loop.
  pub record Shared (held : ℕ) (c : Collector) (ws : List (Worker A)) (b : ReplayBuffer A)
      : Type 0 where
    pub permits : c.inflight_sema + length ws + held ≡ max_inflight s
    pub reserved_once : NoDup c.generating_targets
    pub windows : All (WorkerWindow c.current_weight_version) ws
    pub entries : BufferWindow c.current_weight_version b

  -- What holds of a state whose loop is at `p`.
  abbrev pub SafeAt : Phase → System A → Type 0
  SafeAt p y =
      Shared (holding p) y.collector y.threads y.buffer
      × PhaseWindow s y.collector.current_weight_version p

  -- What holds of a reachable state.
  abbrev pub IsSafe : System A → Type 0
  IsSafe y = SafeAt y.phase y

  -- If the step is possible, it leads to a state that is safe.
  abbrev pub SafeAfter : Option (System A) → Type 0
  SafeAfter none = Unit
  SafeAfter (some y) = IsSafe y

  pub wait_for-SafeAfter : (event : Bool) (y : System A) → IsSafe y → SafeAfter (wait_for event y)
  wait_for-SafeAfter true y h = h
  wait_for-SafeAfter false y h = tt

  pub either-SafeAfter :
      (test : Bool) (y z : Option (System A))
      → SafeAfter y
      → SafeAfter z
      → SafeAfter (if test then y else z)
  either-SafeAfter true y z h k = h
  either-SafeAfter false y z h k = k

  -- A change of the collector that keeps its permits, its reservations and its version.
  pub with_collector-SafeAt :
      (p : Phase) (c : Collector) (y : System A)
      → c.inflight_sema ≡ y.collector.inflight_sema
      → c.generating_targets ≡ y.collector.generating_targets
      → c.current_weight_version ≡ y.collector.current_weight_version
      → SafeAt p y
      → SafeAt p (with_collector c y)
  with_collector-SafeAt p c y i g v (h, k) = (
    record {
      permits = omega (arith, i, h.permits);
      reserved_once = rw g h.reserved_once;
      windows = rw v h.windows;
      entries = rw v h.entries;
    },
    rw v k,
  )

  pub chosen-IsSafe :
      (n g : ℕ) (last : ℤ) (y : System A)
      → SafeAt (choose_target n g last) y
      → (r : Option ℕ × Collector) → NextTarget s last g y.collector r
      → IsSafe (chosen n g r y)
  chosen-IsSafe n g last y (h, le) r (inl (t, e, _, short, (_, new))) = rw e (
    record {
      permits = h.permits;
      reserved_once = (new, h.reserved_once);
      windows = h.windows;
      entries = h.entries;
    },
    (le, short),
  )
  chosen-IsSafe n g last y (h, le) r (inr (e, _)) = rw e (h, tt)

  pub acquire-SafeAfter :
      (i n g t : ℕ) (y : System A)
      → SafeAt (acquire i n g t) y
      → SafeAfter (
          wait_for
            (ltb 0 y.collector.inflight_sema)
            (at_phase (add_thread i n g t) (acquire_permit y)))
  acquire-SafeAfter i n g t y (h, w) = elim (Bool-cases (ltb 0 y.collector.inflight_sema)) [
    | inl e ↦ rw e (
      record {
        permits = ground (arith, h.permits, e);
        reserved_once = h.reserved_once;
        windows = h.windows;
        entries = h.entries;
      },
      w,
    )
    | inr e ↦ rw e tt
  ]

  pub add-IsSafe :
      (i n g t : ℕ) (y : System A)
      → SafeAt (add_thread i n g t) y
      → IsSafe (at_phase (start_thread i n g t) (add_worker i g t y))
  add-IsSafe i n g t y (h, w) = (
    record {
      permits = omega (arith, h.permits);
      reserved_once = h.reserved_once;
      windows = (w, h.windows);
      entries = h.entries;
    },
    w,
  )

  -- Other threads for the same permits, with the same versions.
  pub threads-SafeAt :
      (p : Phase) (ws : List (Worker A)) (y : System A)
      → length ws ≡ length y.threads
      → All (WorkerWindow y.collector.current_weight_version) ws
      → SafeAt p y
      → SafeAt p (record y { threads = ws })
  threads-SafeAt p ws y e k (h, w) = (
    record {
      permits = omega (arith, h.permits, e);
      reserved_once = h.reserved_once;
      windows = k;
      entries = h.entries;
    },
    w,
  )

  pub start-SafeAt :
      (p : Phase) (y : System A)
      → SafeAt p y
      → SafeAt p (record y { threads = start_worker y.threads })
  start-SafeAt p y h =
      let (e, k) = started y.collector.current_weight_version y.threads h.0.windows in
      threads-SafeAt p _ y e k h
    where
      started :
          (current : ℕ) (ws : List (Worker A))
          → All (WorkerWindow current) ws
          → (length (start_worker ws) ≡ length ws) × All (WorkerWindow current) (start_worker ws)
      started v [] h = (refl, tt)
      started v (w ∷ ws) h = (refl, h)

  pub cleanup-SafeAt :
      (p : Phase) (y : System A) → SafeAt p y → SafeAt p (cleanup_finished_threads y)
  unfolding cleanup_finished_threads
  cleanup-SafeAt p y h =
      threads-SafeAt p _ y (length-map drop_dead y.threads)
        (dropped y.collector.current_weight_version y.threads h.0.windows) h
    where
      dropped :
          (current : ℕ) (ws : List (Worker A))
          → All (WorkerWindow current) ws
          → All (WorkerWindow current) (map drop_dead ws)
      dropped v [] h = tt
      dropped v (w ∷ ws) h = (h.0, dropped v ws h.1)
