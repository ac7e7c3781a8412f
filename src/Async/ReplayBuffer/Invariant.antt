-- ===== src/Async/ReplayBuffer/Invariant.antt =====
-- A buffer under a sequence of calls (nemo_rl/algorithms/async_utils.py).
use ne_mo_rl.Common.{
  ℕ, zero, suc, ◌-◌, ◌≤◌, ◌≡◌, refl, ap, ◌∙◌, Bool, false, Option, some, List, [], ◌∷◌, map, leb,
  Outcome, ok, raise, length, length-append, All, All-append, All_mono, arith, Bool-cases, inl, inr,
  ℤ, pos, negsuc, lt_int, max_int,
}
use ne_mo_rl.Async.ReplayBuffer.{
  BufferError, ReplayBuffer, init, push_with_wait_signal, sample, clear, average_age, Fraction,
  Sampled,
}
use ne_mo_rl.Async.ReplayBuffer.Indices.{without_first}
use ne_mo_rl.Async.ReplayBuffer.Queue.{
  Entry, Queue, buffer_of, is_intended, is_ready, has_old, serve, served, sample_queue, push_queue,
}
use ne_mo_rl.Async.ReplayBuffer.Refinement.{push-refines, sample-refines}

-- One call of a method that changes the buffer, by a worker or by the trainer.
pub data Call (A : Type 0) : Type 0 where
  push : A → ℕ → ℕ → Call A
  take_groups : ℕ → ℕ → ℕ → Call A
  empty_buffer : Call A

max_int-reaches : (l : ℤ) (t : ℕ) → lt_int (max_int l (pos t)) (pos t) ≡ false
max_int-reaches (pos a) t = ground arith
max_int-reaches (negsuc a) t = ground arith

max_int_keeps :
    (l : ℤ) (t u : ℕ) → lt_int l (pos u) ≡ false → lt_int (max_int l (pos t)) (pos u) ≡ false
max_int_keeps (pos a) t u h = ground arith
max_int_keeps (negsuc a) t u h = ground arith

module _ {A : Type 0} where
  unfoldable pub step : Call A → ReplayBuffer A → ReplayBuffer A
  step (push trajectory version target) b = (push_with_wait_signal trajectory version target b).1
  step (take_groups n current max_age) b = (sample n current max_age b).1
  step empty_buffer b = clear b

  unfoldable pub run : List (Call A) → ReplayBuffer A → ReplayBuffer A
  unfolding step
  run [] b = b
  run (c ∷ calls) b = run calls (step c b)

  pub record IsWell (q : Queue A) : Type 0 where
    pub bounded : length q.entries ≤ q.max_size
    pub reached : All (λ e. lt_int q.last_target (pos e.target) ≡ false) q.entries

  abbrev pub Holds : ℕ → ReplayBuffer A → Type 0
  Holds size b = (q : Queue A) × (b ≡ buffer_of q) × IsWell q × (q.max_size ≡ size)

  push_queue-IsWell :
      (trajectory : A) (version target : ℕ) (q : Queue A)
      → IsWell q
      → IsWell (push_queue trajectory version target q).1
        × ((push_queue trajectory version target q).1.max_size ≡ q.max_size)
  unfolding push_queue
  push_queue-IsWell trajectory version target q w =
      elim (Bool-cases (leb q.max_size (length q.entries))) [
        | inl e ↦ rw e (w, refl)
        | inr e ↦
            let new : Entry A = record {
              trajectory = trajectory;
              version = version;
              target = target;
            } in
            rw e (
              record {
                bounded = ground (arith, length-append q.entries (new ∷ []));
                reached =
                    All-append _ q.entries (new ∷ [])
                      (All_mono (λ x. max_int_keeps q.last_target target x.target) q.entries
                        w.reached)
                      (max_int-reaches q.last_target target, tt);
              },
              refl,
            )
      ]

  without_first-length :
      (p : Entry A → Bool) (n : ℕ) (es : List (Entry A)) → length (without_first p n es) ≤ length es
  unfolding without_first
  without_first-length p n [] = omega arith
  without_first-length p zero (e ∷ es) = omega arith
  without_first-length p (suc n) (e ∷ es) =
      ground (arith, without_first-length p n es, without_first-length p (suc n) es)

  without_first-All :
      (P : Entry A → Type 0) (p : Entry A → Bool) (n : ℕ) (es : List (Entry A))
      → All P es
      → All P (without_first p n es)
  unfolding without_first
  without_first-All P p n [] h = tt
  without_first-All P p zero (e ∷ es) h = h
  without_first-All P p (suc n) (e ∷ es) h = elim (Bool-cases (p e)) [
    | inl t ↦ rw t (without_first-All P p n es h.1)
    | inr f ↦ rw f (h.0, without_first-All P p (suc n) es h.1)
  ]

  serve-IsWell :
      (n current max_age : ℕ) (q : Queue A) → IsWell q → IsWell (serve n current max_age q)
  serve-IsWell n current max_age q w = record {
    bounded =
        omega (arith, w.bounded, without_first-length (is_intended current max_age) n q.entries);
    reached = without_first-All _ (is_intended current max_age) n q.entries w.reached;
  }

  sample_queue-IsWell :
      (n current max_age : ℕ) (q : Queue A)
      → IsWell q
      → IsWell (sample_queue n current max_age q).1
        × ((sample_queue n current max_age q).1.max_size ≡ q.max_size)
  unfolding sample_queue
  sample_queue-IsWell n current max_age q w =
      elim (Bool-cases (has_old (current - max_age) q.entries)) [
        | inl e ↦ rw e (w, refl)
        | inr e ↦ elim (Bool-cases (is_ready n current max_age q)) [
          | inl f ↦ rw (e, f) (answered (average_age current (map (λ x. x.version) es)))
          | inr f ↦ rw (e, f) (w, refl)
        ]
      ]
    where
      es : List (Entry A)
      es = served n current max_age q

      answered :
          (o : Outcome BufferError Fraction)
          → let r : Outcome BufferError (Option (Sampled A)) × Queue A = elim o [
            | raise e ↦ (raise e, q)
            | ok age ↦ (
              ok (
                  some (record {
                    trajectories = map (λ x. x.trajectory) es;
                    avg_trajectory_age = age;
                  })),
              serve n current max_age q,
            )
          ] in
            IsWell r.1 × (r.1.max_size ≡ q.max_size)
      answered (raise e) = (w, refl)
      answered (ok age) = (serve-IsWell n current max_age q w, refl)

  -- What holds of every entry still does after a sampling.
  pub sample_queue-All :
      (P : Entry A → Type 0) (n current max_age : ℕ) (q : Queue A)
      → All P q.entries
      → All P (sample_queue n current max_age q).1.entries
  unfolding sample_queue
  sample_queue-All P n current max_age q h =
      elim (Bool-cases (has_old (current - max_age) q.entries)) [
        | inl e ↦ rw e h
        | inr e ↦ elim (Bool-cases (is_ready n current max_age q)) [
          | inl f ↦ rw (e, f) (answered (average_age current (map (λ x. x.version) es)))
          | inr f ↦ rw (e, f) h
        ]
      ]
    where
      es : List (Entry A)
      es = served n current max_age q

      answered :
          (o : Outcome BufferError Fraction)
          → let r : Outcome BufferError (Option (Sampled A)) × Queue A = elim o [
            | raise e ↦ (raise e, q)
            | ok age ↦ (
              ok (
                  some (record {
                    trajectories = map (λ x. x.trajectory) es;
                    avg_trajectory_age = age;
                  })),
              serve n current max_age q,
            )
          ] in
            All P r.1.entries
      answered (raise e) = h
      answered (ok age) = without_first-All P (is_intended current max_age) n q.entries h

  step-Holds :
      (size : ℕ) (c : Call A) (q : Queue A)
      → IsWell q
      → q.max_size ≡ size
      → Holds size (step c (buffer_of q))
  unfolding step clear
  step-Holds size (push trajectory version target) q w e =
      let (w', e') = push_queue-IsWell trajectory version target q w in
      (
        (push_queue trajectory version target q).1,
        ap (λ r. r.1) (push-refines trajectory version target q),
        w',
        e' ∙ e,
      )
  step-Holds size (take_groups n current max_age) q w e =
      let (w', e') = sample_queue-IsWell n current max_age q w in
      (
        (sample_queue n current max_age q).1,
        ap (λ r. r.1) (sample-refines n current max_age q),
        w',
        e' ∙ e,
      )
  step-Holds size empty_buffer q w e =
      (record q { entries = [] }, refl, record { bounded = omega arith; reached = tt }, e)

  run-Holds :
      (size : ℕ) (calls : List (Call A)) (q : Queue A)
      → IsWell q
      → q.max_size ≡ size
      → Holds size (run calls (buffer_of q))
  unfolding run
  run-Holds size [] q w e = (q, refl, w, e)
  run-Holds size (c ∷ calls) q w e =
      let (q', same, w', e') = step-Holds size c q w e in rw same (run-Holds size calls q' w' e')

  -- From a buffer that the constructor makes, after any sequence of pushes, samplings and clears:
  -- the three lists are the columns of one queue of entries, there are at most `max_size` of them,
  -- and no entry has a target above the last target that is recorded.
  pub init-run-Holds :
      (n : ℕ) (b : ReplayBuffer A)
      → init (pos n) ≡ ok b
      → (calls : List (Call A)) → Holds n (run calls b)
  unfolding init
  init-run-Holds zero b h calls = cc
  init-run-Holds (suc n) b h calls =
      let new : Queue A = record { max_size = suc n; entries = []; last_target = negsuc 0 } in
      let same : b ≡ buffer_of new = ground (arith, h) in
      rw same (run-Holds (suc n) calls new (record { bounded = omega arith; reached = tt }) refl)
