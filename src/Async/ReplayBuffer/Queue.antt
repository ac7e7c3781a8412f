-- ===== src/Async/ReplayBuffer/Queue.antt =====
-- The abstract buffer: one queue of entries in the order of their arrival.
use ne_mo_rl.Common.{
  ℕ, ◌-◌, Bool, false, ◌&&◌, ◌||◌, Option, none, some, List, [], ◌∷◌, ◌++◌, map, ltb, leb, ◌==◌,
  if◌then◌else◌, Outcome, ok, raise, length, take, ℤ, pos, max_int,
}
use ne_mo_rl.Async.ReplayBuffer.{
  BufferError, PushStatus, full, success, older_than_window, Fraction, ReplayBuffer, Sampled,
  in_window, average_age,
}
use ne_mo_rl.Async.ReplayBuffer.Indices.{passing, without_first}

pub record Entry (A : Type 0) : Type 0 where
  pub trajectory : A
  pub version : ℕ
  pub target : ℕ

pub record Queue (A : Type 0) : Type 0 where
  pub max_size : ℕ
  pub entries : List (Entry A)
  pub last_target : ℤ

module _ {A : Type 0} where
  -- The buffer that holds the entries of a queue in its three lists.
  abbrev pub buffer_of : Queue A → ReplayBuffer A
  buffer_of q = record {
    max_size = q.max_size;
    trajectories = map (λ e. e.trajectory) q.entries;
    trajectory_versions = map (λ e. e.version) q.entries;
    target_weight_versions = map (λ e. e.target) q.entries;
    last_target_weight_already_generated = q.last_target;
  }

  -- made by a version in the window, for the current step
  abbrev pub is_intended : ℕ → ℕ → Entry A → Bool
  is_intended current max_age e =
      in_window (current - max_age) current e.version && e.target == current

  abbrev pub is_valid : ℕ → ℕ → Entry A → Bool
  is_valid current max_age e = in_window (current - max_age) current e.version

  -- There is something to train on: at least one entry of a valid version, and `n` entries that
  -- are intended for the step.
  abbrev pub is_ready : ℕ → ℕ → ℕ → Queue A → Bool
  is_ready n current max_age q =
      ltb 0 (length (passing (is_valid current max_age) q.entries))
      && leb n (length (passing (is_intended current max_age) q.entries))

  unfoldable pub has_old : ℕ → List (Entry A) → Bool
  has_old low [] = false
  has_old low (e ∷ rest) = ltb e.version low || has_old low rest

  -- the first `n` intended entries leave the queue
  abbrev pub serve : ℕ → ℕ → ℕ → Queue A → Queue A
  serve n current max_age q = record q {
    entries = without_first (is_intended current max_age) n q.entries;
  }

  abbrev pub served : ℕ → ℕ → ℕ → Queue A → List (Entry A)
  served n current max_age q = take n (passing (is_intended current max_age) q.entries)

  abbrev answer :
      List (Entry A) → Outcome BufferError Fraction → Outcome BufferError (Option (Sampled A))
  answer es (raise e) = raise e
  answer es (ok age) =
      ok (some (record { trajectories = map (λ e. e.trajectory) es; avg_trajectory_age = age }))

  -- What `sample` does to the queue.
  unfoldable pub sample_queue :
      ℕ → ℕ → ℕ → Queue A → Outcome BufferError (Option (Sampled A)) × Queue A
  unfolding has_old
  sample_queue n current max_age q =
      if has_old (current - max_age) q.entries
      then (raise older_than_window, q)
      else if is_ready n current max_age q
      then (let es = served n current max_age q in
          elim (average_age current (map (λ e. e.version) es)) [
            | raise e ↦ (raise e, q)
            | ok age ↦ (
              ok (
                  some (record {
                    trajectories = map (λ e. e.trajectory) es;
                    avg_trajectory_age = age;
                  })),
              serve n current max_age q,
            )
          ])
      else (ok none, q)

  unfoldable pub push_queue : A → ℕ → ℕ → Queue A → PushStatus × Queue A
  push_queue trajectory version target q =
      if leb q.max_size (length q.entries) then (full, q) else (
        success,
        record q {
          entries =
              q.entries
              ++ record { trajectory = trajectory; version = version; target = target } ∷ [];
          last_target = max_int q.last_target (pos target);
        },
      )
