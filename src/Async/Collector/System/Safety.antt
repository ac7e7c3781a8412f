-- ===== src/Async/Collector/System/Safety.antt =====
-- The reachable states of the collector (nemo_rl/algorithms/async_utils.py).
use ne_mo_rl.Common.{
  ℕ, zero, suc, ◌+◌, ◌≡◌, ◌≢◌, refl, ap, subst, true, false, Option, none, some, List, [], ◌∷◌,
  ◌==◌, pos, negsuc, ok, All, All_mono, arith, Bool-cases, inl, inr, ◌⊎◌,
}
use ne_mo_rl.Async.ReplayBuffer.{ReplayBuffer, sample, clear, init}
use ne_mo_rl.Async.ReplayBuffer.Queue.{Entry, Queue, buffer_of, sample_queue, is_valid}
use ne_mo_rl.Async.ReplayBuffer.Refinement.{sample-refines}
use ne_mo_rl.Async.ReplayBuffer.Invariant.{sample_queue-All}
use ne_mo_rl.Async.Collector.{
  Settings, assign_version, pause, resume, prepare_for_refit, resume_after_refit,
}
use ne_mo_rl.Async.Collector.System.{
  Phase, next_batch, stopped, check_last, read_last, prompt, acquire, start_thread, System, Action,
  start, batch, end_of_data, loop_error, advance, rollout, work, fail, new_version, wake_loop,
  set_pause, set_resume, start_refit, wait_pending, end_refit, train, clear_buffer, with_collector,
  wait_for_pending_generations, begin,
}
use ne_mo_rl.Async.Collector.System.Steps.{
  rollout_step, work_step, fail_step, start_loop, on_error, begin_batch, finish, act, follow, Reach,
  here, there,
}
use ne_mo_rl.Async.Collector.System.Window.{
  BufferWindow, EntryWindow, IsSafe, SafeAt, SafeAfter, with_collector-SafeAt, cleanup-SafeAt,
  phase_later, window_later,
}
use ne_mo_rl.Async.Collector.System.Loop.{loop_step-SafeAfter}
use ne_mo_rl.Async.Collector.System.Workers.{
  fail_step-SafeAfter, of_worker-SafeAfter, rollout_step-SafeAfter, with_buffer-IsSafe,
  work_step-SafeAfter,
}

module _ {A : Type 0} (s : Settings) where
  start_loop-SafeAfter : (p : Phase) (y : System A) → SafeAt s p y → SafeAfter s (start_loop p y)
  unfolding start_loop
  start_loop-SafeAfter stopped y h =
      with_collector-SafeAt s next_batch (record y.collector { running = true }) y refl refl refl h
  start_loop-SafeAfter p y h = tt

  on_error-SafeAfter : (p : Phase) (y : System A) → SafeAt s p y → SafeAfter s (on_error p y)
  on_error-SafeAfter (check_last n v) y (h, w) = (h, tt)
  on_error-SafeAfter (read_last n g) y (h, w) = (h, tt)
  on_error-SafeAfter (prompt i n g t) y (h, w) = (h, tt)
  on_error-SafeAfter (acquire i n g t) y (h, w) = (h, tt)
  on_error-SafeAfter (start_thread i n g t) y (h, w) = (h, tt)
  on_error-SafeAfter p y h = tt

  begin_batch-SafeAfter :
      (n : ℕ) (p : Phase) (y : System A) → SafeAt s p y → SafeAfter s (begin_batch n p y)
  begin_batch-SafeAfter n next_batch y h = h
  begin_batch-SafeAfter n p y h = tt

  finish-SafeAfter : (p : Phase) (y : System A) → SafeAt s p y → SafeAfter s (finish p y)
  finish-SafeAfter next_batch y h =
      with_collector-SafeAt s stopped (record y.collector { running = false }) y refl refl refl h
  finish-SafeAfter p y h = tt

  sampled-BufferWindow :
      (n version max_age current : ℕ) (b : ReplayBuffer A)
      → BufferWindow s current b
      → BufferWindow s current (sample n version max_age b).1
  sampled-BufferWindow n version max_age current b (q, e, h) = (
    (sample_queue n version max_age q).1,
    rw e (ap (λ r. r.1) (sample-refines n version max_age q)),
    sample_queue-All (EntryWindow s current) n version max_age q h,
  )

  cleared-BufferWindow :
      (current : ℕ) (b : ReplayBuffer A)
      → BufferWindow s current b
      → BufferWindow s current (clear b)
  unfolding clear
  cleared-BufferWindow current b (q, e, h) = (record q { entries = [] }, rw e refl, tt)

  new_version-IsSafe :
      (d : ℕ) (y : System A)
      → IsSafe s y
      → IsSafe s
          (with_collector (assign_version (y.collector.current_weight_version + d) y.collector) y)
  new_version-IsSafe d y (h, w) =
      let current = y.collector.current_weight_version in
      let (q, e, k) = h.entries in
      (
        record {
          permits = h.permits;
          reserved_once = h.reserved_once;
          windows =
              All_mono
                (λ w v.
                  window_later s current d w.generation_weight_version w.target_weight_version v)
                y.threads h.windows;
          entries =
              (q, e, All_mono (λ x v. window_later s current d x.version x.target v) q.entries k);
        },
        phase_later s current d y.phase w,
      )

  act-SafeAfter : (a : Action A) (y : System A) → IsSafe s y → SafeAfter s (act s a y)
  unfolding act pause resume prepare_for_refit resume_after_refit wait_for_pending_generations
  act-SafeAfter start y h = start_loop-SafeAfter y.phase y h
  act-SafeAfter (batch n) y h = begin_batch-SafeAfter n y.phase y h
  act-SafeAfter end_of_data y h = finish-SafeAfter y.phase y h
  act-SafeAfter loop_error y h = on_error-SafeAfter y.phase y h
  act-SafeAfter advance y h = loop_step-SafeAfter s y.phase y h
  act-SafeAfter (rollout j x) y h =
      of_worker-SafeAfter s j y (λ w. rollout_step j x w w.task y) h
        (λ w f. rollout_step-SafeAfter s j w y h f x w.task) _ refl
  act-SafeAfter (work j) y h =
      of_worker-SafeAfter s j y (λ w. work_step j w w.task y) h
        (λ w f. work_step-SafeAfter s j w y h f w.task) _ refl
  act-SafeAfter (fail j) y h =
      of_worker-SafeAfter s j y (λ w. fail_step j w w.task y) h
        (λ w f. fail_step-SafeAfter s j w y h f w.task) _ refl
  act-SafeAfter (new_version d) y h = new_version-IsSafe d y h
  act-SafeAfter wake_loop y h = with_collector-SafeAt s y.phase _ y refl refl refl h
  act-SafeAfter set_pause y h = with_collector-SafeAt s y.phase _ y refl refl refl h
  act-SafeAfter set_resume y h = with_collector-SafeAt s y.phase _ y refl refl refl h
  act-SafeAfter start_refit y h = with_collector-SafeAt s y.phase _ y refl refl refl h
  act-SafeAfter wait_pending y h = cleanup-SafeAt s y.phase y h
  act-SafeAfter end_refit y h = with_collector-SafeAt s y.phase _ y refl refl refl h
  act-SafeAfter (train n version max_age) y h = with_buffer-IsSafe s _ y h (
      sampled-BufferWindow n version max_age y.collector.current_weight_version y.buffer
        h.0.entries)
  act-SafeAfter clear_buffer y h =
      with_buffer-IsSafe s _ y h
        (cleared-BufferWindow y.collector.current_weight_version y.buffer h.0.entries)

  Reach-keeps : (y : System A) → IsSafe s y → {z : System A} → Reach s y z → IsSafe s z
  Reach-keeps y h here = h
  Reach-keeps y h (there {z} {next} a r e) =
      subst (SafeAfter s) e (act-SafeAfter a z (Reach-keeps y h r))

  begin-IsSafe :
      (n start_step : ℕ) (b : ReplayBuffer A)
      → init (pos n) ≡ ok b
      → IsSafe s (begin s start_step b)
  unfolding init
  begin-IsSafe n start_step b e =
      (record { permits = omega arith; reserved_once = tt; windows = tt; entries = fresh n e }, tt)
    where
      fresh : (n : ℕ) → init (pos n) ≡ ok b → BufferWindow s start_step b
      fresh zero e = cc
      fresh (suc n) e =
          (record { max_size = suc n; entries = []; last_target = negsuc 0 }, ground (arith, e), tt)

  -- In every state that the loop, the workers and the trainer reach by any interleaving of their
  -- steps, from a new collector and a new buffer: the permits of the semaphore, the threads that
  -- were added for a permit and have not released it, started or not, and the permit that the loop
  -- holds between the acquisition and the addition of a thread are together the limit on the
  -- threads in flight; no target is reserved twice; and the target of every such thread, of the
  -- batch that the loop is at and of every group in the buffer is at most the maximal age after the
  -- version that generates or generated for it, which is not after the current version.
  pub Reach-IsSafe :
      (n start_step : ℕ) (b : ReplayBuffer A)
      → init (pos n) ≡ ok b
      → {y : System A} → Reach s (begin s start_step b) y
      → IsSafe s y
  Reach-IsSafe n start_step b e r =
      Reach-keeps (begin s start_step b) (begin-IsSafe n start_step b e) r

  abbrev continue_with : List (Action A) → Option (System A) → Option (System A)
  continue_with rest o = elim o [ none ↦ none | some z ↦ follow s rest z ]

  pub follow-Reach :
      (actions : List (Action A)) (y z next : System A)
      → Reach s y z
      → follow s actions z ≡ some next
      → Reach s y next
  unfolding follow
  follow-Reach [] y z next r e = (let same : z ≡ next = cc in subst (Reach s y) same r)
  follow-Reach (a ∷ rest) y z next r e =
      continued (act s a z) refl e (λ z' f g. follow-Reach rest y z' next (there a r f) g)
    where
      continued :
          (o : Option (System A))
          → act s a z ≡ o
          → continue_with rest o ≡ some next
          → ((z' : System A) → act s a z ≡ some z' → follow s rest z' ≡ some next → Reach s y next)
          → Reach s y next
      continued none f g k = cc
      continued (some z') f g k = k z' f g

  -- A group for another step, or one that is valid for the current step.
  abbrev pub IsUsable : ℕ → Entry A → Type 0
  IsUsable current e = (e.target ≢ current) ⊎ (is_valid current s.max_trajectory_age_steps e ≡ true)

  usable : (current : ℕ) (e : Entry A) → EntryWindow s current e → IsUsable current e
  usable current e h = elim (Bool-cases (e.target == current)) [
    | inl same ↦ inr (ground (arith, h.0, h.1, same))
    | inr other ↦ inl (λ same. ground (arith, same, other))
  ]

  -- In every state that is reached from a new collector and a new buffer, the buffer is one queue
  -- of groups, and each group that is for the current weight version has a version that `sample`
  -- accepts for it with the maximal age: no group gets too old before its step.
  pub Reach-IsUsable :
      (n start_step : ℕ) (b : ReplayBuffer A)
      → init (pos n) ≡ ok b
      → {y : System A} → Reach s (begin s start_step b) y
      → (q : Queue A) × (y.buffer ≡ buffer_of q)
        × All (IsUsable y.collector.current_weight_version) q.entries
  Reach-IsUsable n start_step b e {y} r =
      let (q, f, h) = (Reach-IsSafe n start_step b e r).0.entries in
      (q, f, All_mono (usable y.collector.current_weight_version) q.entries h)
