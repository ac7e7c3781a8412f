-- ===== src/Async/ReplayBuffer/Refinement.antt =====
-- `ReplayBuffer` and the queue of entries (nemo_rl/algorithms/async_utils.py).
use ne_mo_rl.Common.{
  ℕ, ◌-◌, ◌≤◌, ◌≡◌, refl, ap, ◌∙◌, false, ◌||◌, Option, some, List, [], ◌∷◌, map, ltb, leb, Outcome,
  ok, raise, length, length-map, take, arith, Bool-cases, inl, inr, sort_by,
}
use mathlib.Core.List.{map-append}
use ne_mo_rl.Async.ReplayBuffer.{
  BufferError, Fraction, ReplayBuffer, Sampled, in_window, average_age, push_with_wait_signal,
  sample, take_selected, remove, any_below, positions_from, positions_with, select, pop_all,
  largest_first,
}
use ne_mo_rl.Async.ReplayBuffer.Indices.{
  passing, select-positions, pop_all-positions, length-positions, positions-map, select-map,
  pop_all-map, positions_with-positions,
}
use ne_mo_rl.Async.ReplayBuffer.Queue.{
  Entry, Queue, buffer_of, is_intended, is_valid, has_old, serve, served, sample_queue, push_queue,
}

module _ {A : Type 0} where
  abbrev version_of : Entry A → ℕ
  version_of e = e.version

  abbrev target_of : Entry A → ℕ
  target_of e = e.target

  abbrev trajectory_of : Entry A → A
  trajectory_of e = e.trajectory

  -- Pushing into the three lists is pushing into the queue.
  pub push-refines :
      (trajectory : A) (version target : ℕ) (q : Queue A)
      → push_with_wait_signal trajectory version target (buffer_of q) ≡ (
        (push_queue trajectory version target q).0,
        buffer_of (push_queue trajectory version target q).1,
      )
  unfolding push_with_wait_signal push_queue
  push-refines trajectory version target q =
      rw (length-map trajectory_of q.entries)
        (elim (Bool-cases (leb q.max_size (length q.entries))) [
          | inl e ↦ rw e
          | inr e ↦ rw (e, map-append, map-append, map-append)
        ])

  any_below-has_old :
      (low : ℕ) (es : List (Entry A)) → any_below low (map version_of es) ≡ has_old low es
  unfolding any_below has_old
  any_below-has_old low [] = refl
  any_below-has_old low (e ∷ es) = ap (λ b. ltb e.version low || b) (any_below-has_old low es)

  module _ (n current max_age : ℕ) (q : Queue A) where
    abbrev low : ℕ
    low = current - max_age

    abbrev valid : List ℕ
    valid = positions_from (in_window low current) 0 (map version_of q.entries)

    abbrev intended : List ℕ
    intended = positions_with current (map target_of q.entries) valid

    abbrev places : List ℕ
    places = positions_from (is_intended current max_age) 0 q.entries

    valid-eq : valid ≡ positions_from (is_valid current max_age) 0 q.entries
    valid-eq = positions-map version_of (in_window low current) 0 q.entries

    intended-eq : intended ≡ places
    intended-eq =
        ap (positions_with current (map target_of q.entries)) valid-eq
        ∙ positions_with-positions (is_valid current max_age) target_of current q.entries

    length-valid : length valid ≡ length (passing (is_valid current max_age) q.entries)
    length-valid = ap length valid-eq ∙ length-positions (is_valid current max_age) 0 q.entries

    length-intended : length intended ≡ length (passing (is_intended current max_age) q.entries)
    length-intended =
        ap length intended-eq ∙ length-positions (is_intended current max_age) 0 q.entries

    select-eq :
        {B : Type 0} (f : Entry A → B)
        → select (map f q.entries) (take n places) ≡ map f (served n current max_age q)
    select-eq f =
        select-map f q.entries (take n places)
        ∙ ap (map f) (select-positions (is_intended current max_age) n q.entries)

    pop_all-eq :
        {B : Type 0} (f : Entry A → B)
        → pop_all (sort_by largest_first (take n places)) (map f q.entries)
          ≡ map f (serve n current max_age q).entries
    pop_all-eq f =
        pop_all-map f (sort_by largest_first (take n places)) q.entries
        ∙ ap (map f) (pop_all-positions (is_intended current max_age) n q.entries)

    remove-eq : remove (take n places) (buffer_of q) ≡ buffer_of (serve n current max_age q)
    unfolding remove
    remove-eq = λ i. record {
      max_size = q.max_size;
      trajectories = pop_all-eq trajectory_of i;
      trajectory_versions = pop_all-eq version_of i;
      target_weight_versions = pop_all-eq target_of i;
      last_target_weight_already_generated = q.last_target;
    }

    abbrev concrete :
        Outcome BufferError Fraction → Outcome BufferError (Option (Sampled A)) × ReplayBuffer A
    concrete o = elim o [
      | raise e ↦ (raise e, buffer_of q)
      | ok age ↦ (
        ok (
            some (record {
              trajectories = select (map trajectory_of q.entries) (take n places);
              avg_trajectory_age = age;
            })),
        remove (take n places) (buffer_of q),
      )
    ]

    abbrev abstracted :
        Outcome BufferError Fraction → Outcome BufferError (Option (Sampled A)) × Queue A
    abstracted o = elim o [
      | raise e ↦ (raise e, q)
      | ok age ↦ (
        ok (
            some (record {
              trajectories = map trajectory_of (served n current max_age q);
              avg_trajectory_age = age;
            })),
        serve n current max_age q,
      )
    ]

    same_answer :
        (o : Outcome BufferError Fraction)
        → concrete o ≡ ((abstracted o).0, buffer_of (abstracted o).1)
    same_answer (raise e) = refl
    same_answer (ok age) = rw (select-eq trajectory_of, remove-eq)

    take_selected-eq : take_selected current (take n places) (buffer_of q) ≡ (
        let o = average_age current (map version_of (served n current max_age q)) in
        ((abstracted o).0, buffer_of (abstracted o).1))
    unfolding take_selected
    take_selected-eq =
        ap (λ l. concrete (average_age current l)) (select-eq version_of)
        ∙ same_answer (average_age current (map version_of (served n current max_age q)))

  pub passing-le :
      (current max_age : ℕ) (es : List (Entry A))
      → (length (passing (is_intended current max_age) es)
          ≤ length (passing (is_valid current max_age) es))
        × (length (passing (is_valid current max_age) es) ≤ length es)
  unfolding passing
  passing-le current max_age [] = omega arith
  passing-le current max_age (e ∷ es) = ground (arith, passing-le current max_age es)

  has_old_empty : (low : ℕ) (es : List (Entry A)) → length es ≤ 0 → has_old low es ≡ false
  unfolding has_old
  has_old_empty low [] h = refl
  has_old_empty low (e ∷ es) h = absurd (omega arith)

  -- Sampling from the three lists is sampling from the queue: the same answer or error, and the
  -- same entries left.
  pub sample-refines :
      (n current max_age : ℕ) (q : Queue A)
      → sample n current max_age (buffer_of q)
        ≡ ((sample_queue n current max_age q).0, buffer_of (sample_queue n current max_age q).1)
  unfolding sample sample_queue
  sample-refines n current max_age q =
      rw
        (
          length-map trajectory_of q.entries,
          any_below-has_old (current - max_age) q.entries,
          length-valid n current max_age q,
          length-intended n current max_age q,
          intended-eq n current max_age q,
          take_selected-eq n current max_age q,
        )
        (ground (
          arith,
          passing-le current max_age q.entries,
          has_old_empty (current - max_age) q.entries,
        ))
