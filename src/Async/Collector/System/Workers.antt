-- ===== src/Async/Collector/System/Workers.antt =====
-- The steps of the workers (nemo_rl/algorithms/async_utils.py).
use ne_mo_rl.Common.{
  ℕ, zero, suc, ◌≡◌, refl, ap, subst, Option, none, some, List, [], ◌∷◌, leb, false, length, set,
  get_elem?, erase_idx, length-set, All, All-append, arith, Bool-cases, inl, inr,
}
use ne_mo_rl.Async.ReplayBuffer.{ReplayBuffer, PushStatus, full, success, push_with_wait_signal}
use ne_mo_rl.Async.ReplayBuffer.Queue.{Queue, push_queue}
use ne_mo_rl.Async.ReplayBuffer.Refinement.{push-refines}
use ne_mo_rl.Async.Collector.{Settings}
use ne_mo_rl.Async.Collector.Targets.{discard-NoDup}
use ne_mo_rl.Async.Collector.System.{
  Task, created, rolling_out, pushing, sending, buffered, leaving, detaching, releasing, Worker,
  System, set_task,
}
use ne_mo_rl.Async.Collector.System.Steps.{
  push_answered, release_reservation, release_permit, rollout_step, work_step, fail_step, of_worker,
}
use ne_mo_rl.Async.Collector.System.Window.{
  BufferWindow, EntryWindow, IsSafe, SafeAfter, WorkerWindow, either-SafeAfter, InWindow,
  threads-SafeAt,
}

module _ {A : Type 0} (s : Settings) where
  set-All :
      (P : Worker A → Type 0) (ws : List (Worker A)) (j : ℕ) (w : Worker A)
      → All P ws
      → P w
      → All P (set ws j w)
  set-All P [] j w h k = tt
  set-All P (v ∷ ws) zero w h k = (k, h.1)
  set-All P (v ∷ ws) (suc j) w h k = (h.0, set-All P ws j w h.1 k)

  erase-All :
      (P : Worker A → Type 0) (ws : List (Worker A)) (j : ℕ) → All P ws → All P (erase_idx ws j)
  erase-All P [] j h = tt
  erase-All P (v ∷ ws) zero h = h.1
  erase-All P (v ∷ ws) (suc j) h = (h.0, erase-All P ws j h.1)

  -- Worker `j` is one of the threads.
  pub record Found (P : Worker A → Type 0) (ws : List (Worker A)) (j : ℕ) (w : Worker A)
      : Type 0 where
    pub holds : P w
    pub erased : suc (length (erase_idx ws j)) ≡ length ws

  found :
      (P : Worker A → Type 0) (ws : List (Worker A)) (j : ℕ) (w : Worker A)
      → All P ws
      → get_elem? ws j ≡ some w
      → Found P ws j w
  found P [] j w h e = cc
  found P (v ∷ ws) zero w h e = record {
    holds = (let same : v ≡ w = cc in subst P same h.0);
    erased = refl;
  }
  found P (v ∷ ws) (suc j) w h e =
      let f = found P ws j w h.1 e in record { holds = f.holds; erased = ap suc f.erased }

  -- Worker `j` is replaced by one for the same target.
  set_task-IsSafe :
      (j : ℕ) (k : Task A) (w : Worker A) (y : System A)
      → IsSafe s y
      → WorkerWindow s y.collector.current_weight_version w
      → IsSafe s (set_task j k w y)
  set_task-IsSafe j k w y h v =
      threads-SafeAt s y.phase _ y (length-set y.threads j (record w { task = k }))
        (set-All _ y.threads j (record w { task = k }) h.0.windows v) h

  release_reservation-IsSafe :
      (w : Worker A) (y : System A) → IsSafe s y → IsSafe s (release_reservation w y)
  release_reservation-IsSafe w y (h, k) = (
    record {
      permits = h.permits;
      reserved_once =
          discard-NoDup w.target_weight_version y.collector.generating_targets h.reserved_once;
      windows = h.windows;
      entries = h.entries;
    },
    k,
  )

  release_permit-IsSafe :
      (j : ℕ) (y : System A)
      → IsSafe s y
      → suc (length (erase_idx y.threads j)) ≡ length y.threads
      → IsSafe s (release_permit j y)
  release_permit-IsSafe j y (h, k) e = (
    record {
      permits = omega (arith, h.permits, e);
      reserved_once = h.reserved_once;
      windows = erase-All _ y.threads j h.windows;
      entries = h.entries;
    },
    k,
  )

  push_queue-window :
      (x : A) (g t current : ℕ) (q : Queue A)
      → All (EntryWindow s current) q.entries
      → InWindow s current g t
      → All (EntryWindow s current) (push_queue x g t q).1.entries
  unfolding push_queue
  push_queue-window x g t current q h w = elim (Bool-cases (leb q.max_size (length q.entries))) [
    | inl e ↦ rw e h
    | inr e ↦ rw e (All-append _ q.entries _ h (w, tt))
  ]

  pushed-BufferWindow :
      (x : A) (g t current : ℕ) (b : ReplayBuffer A)
      → BufferWindow s current b
      → InWindow s current g t
      → BufferWindow s current (push_with_wait_signal x g t b).1
  pushed-BufferWindow x g t current b (q, e, h) w = (
    (push_queue x g t q).1,
    rw e (ap (λ r. r.1) (push-refines x g t q)),
    push_queue-window x g t current q h w,
  )

  pub with_buffer-IsSafe :
      (b : ReplayBuffer A) (y : System A)
      → IsSafe s y
      → BufferWindow s y.collector.current_weight_version b
      → IsSafe s (record y { buffer = b })
  with_buffer-IsSafe b y (h, k) e = (
    record {
      permits = h.permits;
      reserved_once = h.reserved_once;
      windows = h.windows;
      entries = e;
    },
    k,
  )

  push_answered-IsSafe :
      (j : ℕ) (w : Worker A) (x : A) (y : System A)
      → IsSafe s y
      → WorkerWindow s y.collector.current_weight_version w
      → (r : PushStatus × ReplayBuffer A) → BufferWindow s y.collector.current_weight_version r.1
      → IsSafe s (push_answered j w x r y)
  push_answered-IsSafe j w x y h v (full, b) k =
      set_task-IsSafe j (pushing x) w (record y { buffer = b }) (with_buffer-IsSafe b y h k) v
  push_answered-IsSafe j w x y h v (success, b) k =
      set_task-IsSafe j _ w (record y { buffer = b }) (with_buffer-IsSafe b y h k) v

  -- Worker `j` is one of the threads, and does what the task says.
  module _ (j : ℕ) (w : Worker A) (y : System A) (h : IsSafe s y)
      (f : Found (WorkerWindow s y.collector.current_weight_version) y.threads j w) where
    pub work_step-SafeAfter : (k : Task A) → SafeAfter s (work_step j w k y)
    unfolding work_step
    work_step-SafeAfter created = tt
    work_step-SafeAfter rolling_out = tt
    work_step-SafeAfter (pushing x) =
        either-SafeAfter s y.collector.running _ _ (set_task-IsSafe j (sending x) w y h f.holds)
          (set_task-IsSafe j leaving w y h f.holds)
    work_step-SafeAfter (sending x) = push_answered-IsSafe j w x y h f.holds _ (
        pushed-BufferWindow x w.generation_weight_version w.target_weight_version _ y.buffer
          h.0.entries f.holds)
    work_step-SafeAfter buffered =
        set_task-IsSafe j leaving w (release_reservation w y) (release_reservation-IsSafe w y h)
          f.holds
    work_step-SafeAfter leaving =
        set_task-IsSafe j detaching w (release_reservation w y) (release_reservation-IsSafe w y h)
          f.holds
    work_step-SafeAfter detaching =
        set_task-IsSafe j releasing (record w { listed = false }) y h f.holds
    work_step-SafeAfter releasing = release_permit-IsSafe j y h f.erased

    pub fail_step-SafeAfter : (k : Task A) → SafeAfter s (fail_step j w k y)
    fail_step-SafeAfter rolling_out = set_task-IsSafe j leaving w y h f.holds
    fail_step-SafeAfter (pushing x) = set_task-IsSafe j leaving w y h f.holds
    fail_step-SafeAfter (sending x) = set_task-IsSafe j leaving w y h f.holds
    fail_step-SafeAfter buffered = set_task-IsSafe j leaving w y h f.holds
    fail_step-SafeAfter k = tt

    pub rollout_step-SafeAfter : (x : A) (k : Task A) → SafeAfter s (rollout_step j x w k y)
    rollout_step-SafeAfter x rolling_out = set_task-IsSafe j (pushing x) w y h f.holds
    rollout_step-SafeAfter x k = tt

  pub of_worker-SafeAfter :
      (j : ℕ) (y : System A) (f : Worker A → Option (System A))
      → IsSafe s y
      → ((w : Worker A)
          → Found (WorkerWindow s y.collector.current_weight_version) y.threads j w
          → SafeAfter s (f w))
      → (o : Option (Worker A)) → get_elem? y.threads j ≡ o
      → SafeAfter s (of_worker o f)
  of_worker-SafeAfter j y f h step none e = tt
  of_worker-SafeAfter j y f h step (some w) e = step w (found _ y.threads j w h.0.windows e)
