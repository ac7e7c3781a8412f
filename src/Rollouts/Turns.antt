-- ===== src/Rollouts/Turns.antt =====
-- The loop of `run_multi_turn_rollout` (nemo_rl/experience/rollouts.py).
use ne_mo_rl.Common.{
  ℕ, zero, suc, ◌+◌, ◌≤◌, ◌≡◌, refl, subst, ◌⊎◌, inl, inr, Bool, true, false, ◌||◌, Option, List,
  [], ◌∷◌, map, ok, length, arith, Bool-cases, All,
}
use ne_mo_rl.Rollouts.{
  Message, Sample, Response, Feedback, input_length, turn_from, any_active, run_turns,
  record_max_turns, run_multi_turn_rollout, fresh_sample,
}
use ne_mo_rl.Rollouts.Turn.{IsCounted, IsAt, IsRolling, turn_if-IsRolling}

or_false : (a : Bool) {b : Bool} → (a || b) ≡ false → (a ≡ false) × (b ≡ false)
or_false true h = absurd cc
or_false false h = (refl, h)

or_true_right : (a : Bool) {b : Bool} → b ≡ true → (a || b) ≡ true
or_true_right true h = refl
or_true_right false h = h

module _ {T R I : Type 0} where
  -- After the last turn: done within the turns, or stopped by their number.
  abbrev pub IsOver : ℕ → Sample T R I → Type 0
  IsOver turns s =
      ((s.terminated ≡ true) × (s.turn_count ≤ turns))
      ⊎ ((s.terminated ≡ false) × (s.max_turns_reached ≡ true) × (s.turn_count ≡ turns))

  abbrev pub AllOver : ℕ → ℕ → List ℕ → List (Sample T R I) → Type 0
  AllOver limit turns [] [] = Unit
  AllOver limit turns [] (s ∷ samples) = ⊥
  AllOver limit turns (n ∷ starts) [] = ⊥
  AllOver limit turns (n ∷ starts) (s ∷ samples) =
      (IsCounted limit n s × IsOver turns s) × AllOver limit turns starts samples

  module _ (add : R → R → R) (limit assistant : ℕ) (respond : ℕ → ℕ → Sample T R I → Response T)
      (feedback : ℕ → ℕ → Sample T R I → Feedback T R I)
      (respects : (turn i : ℕ) (s : Sample T R I)
        → input_length s.message_log ≤ limit
        → input_length s.message_log + length (respond turn i s).generated_ids ≤ limit) where
    -- Every sample of a batch, whose logs had `starts` tokens at first.
    abbrev AllRolling : ℕ → List ℕ → List (Sample T R I) → Type 0
    AllRolling turn [] [] = Unit
    AllRolling turn [] (s ∷ samples) = ⊥
    AllRolling turn (n ∷ starts) [] = ⊥
    AllRolling turn (n ∷ starts) (s ∷ samples) =
        IsRolling limit n turn s × AllRolling turn starts samples

    turn_from-AllRolling :
        (turn i : ℕ) (starts : List ℕ) (samples : List (Sample T R I))
        → AllRolling turn starts samples
        → (samples' : List (Sample T R I)) × (turn_from add limit assistant respond feedback turn i
              samples
            ≡ ok samples')
          × AllRolling (suc turn) starts samples'
    unfolding turn_from
    turn_from-AllRolling turn i [] [] h = ([], refl, tt)
    turn_from-AllRolling turn i [] (s ∷ samples) h = absurd h
    turn_from-AllRolling turn i (n ∷ starts) [] h = absurd h
    turn_from-AllRolling turn i (n ∷ starts) (s ∷ samples) h =
        let (s', e, hs) =
          turn_if-IsRolling add limit assistant respond feedback respects n turn i s h.0 in
        let (rest, e', hr) = turn_from-AllRolling turn (suc i) starts samples h.1 in
        (s' ∷ rest, rw e (rw e' refl), (hs, hr))

    -- at the number of turns, or with no active sample before
    AllRolling-AllOver :
        (turn turns : ℕ) (starts : List ℕ) (samples : List (Sample T R I))
        → turn ≤ turns
        → (turn ≡ turns) ⊎ (any_active samples ≡ false)
        → AllRolling turn starts samples
        → AllOver limit turns starts (map record_max_turns samples)
    unfolding any_active record_max_turns
    AllRolling-AllOver turn turns [] [] le stop h = tt
    AllRolling-AllOver turn turns [] (s ∷ samples) le stop h = absurd h
    AllRolling-AllOver turn turns (n ∷ starts) [] le stop h = absurd h
    AllRolling-AllOver turn turns (n ∷ starts) (s ∷ samples) le stop h =
        let c = h.0.0 in
        (
          (record { tokens = c.tokens; log = c.log; fits = c.fits }, over_of stop h.0.1),
          AllRolling-AllOver turn turns starts samples le (later stop) h.1,
        )
      where
        over_of :
            (turn ≡ turns) ⊎ ((s.active || any_active samples) ≡ false)
            → IsAt turn s
            → IsOver turns (record_max_turns s)
        over_of (inl last) (inl (active, going, count)) =
            inr (going, or_true_right s.max_turns_reached active, omega (arith, count, last))
        over_of (inr idle) (inl (active, going, count)) =
            absurd (let off = (or_false s.active idle).0 in cc)
        over_of stop (inr (inactive, done, count)) = inl (done, omega (arith, count, le))

        later :
            (turn ≡ turns) ⊎ ((s.active || any_active samples) ≡ false)
            → (turn ≡ turns) ⊎ (any_active samples ≡ false)
        later (inl last) = inl last
        later (inr idle) = inr ((or_false s.active idle).1)

    run_turns-AllOver :
        (turns turn : ℕ) (starts : List ℕ) (samples : List (Sample T R I))
        → AllRolling turn starts samples
        → (final : List (Sample T R I)) × (run_turns add limit assistant respond feedback turns turn
              samples
            ≡ ok final)
          × AllOver limit (turn + turns) starts (map record_max_turns final)
    unfolding run_turns
    run_turns-AllOver zero turn starts samples h = (
      samples,
      refl,
      AllRolling-AllOver turn (turn + 0) starts samples (omega arith) (inl (omega arith)) h,
    )
    run_turns-AllOver (suc turns) turn starts samples h = elim (Bool-cases (any_active samples)) [
      | inl more ↦
          let (samples', e, h') = turn_from-AllRolling turn 0 starts samples h in
          let (final, e', over) = run_turns-AllOver turns (suc turn) starts samples' h' in
          (
            final,
            rw more (rw e e'),
            subst (λ k. AllOver limit k starts (map record_max_turns final)) (omega arith) over,
          )
      | inr idle ↦ (
        samples,
        rw idle refl,
        AllRolling-AllOver turn (turn + suc turns) starts samples (omega arith) (inr idle) h,
      )
    ]

    -- A batch of `inputs` (log, information and stop strings of every sample), no log longer than
    -- the limit, and an engine that generates no more tokens than the limit leaves: for any number
    -- of turns the rollout raises nothing. Of every sample that it returns the tokens generated and
    -- observed are the tokens counted, the log has these more than at first and is within the
    -- limit; and the sample is terminated after at most `turns` turns, or it is not, has had
    -- exactly `turns` turns and is marked as having reached the maximum.
    pub run_multi_turn_rollout-AllOver :
        (zero_reward : R) (turns : ℕ) (inputs : List (List (Message T) × I × Option ℕ))
        → All (λ x. input_length x.0 ≤ limit) inputs
        → (final : List (Sample T R I)) × (run_multi_turn_rollout add limit assistant respond
              feedback turns
              (map (λ x. fresh_sample zero_reward x.0 x.1 x.2) inputs)
            ≡ ok final)
          × AllOver limit turns (map (λ x. input_length x.0) inputs) final
    unfolding run_multi_turn_rollout
    run_multi_turn_rollout-AllOver zero_reward turns inputs h =
        let (final, e, over) =
          run_turns-AllOver turns 0 (map (λ x. input_length x.0) inputs)
            (map (λ x. fresh_sample zero_reward x.0 x.1 x.2) inputs) (fresh zero_reward inputs h) in
        (
          map record_max_turns final,
          rw e refl,
          subst
              (λ k.
                AllOver limit k (map (λ x. input_length x.0) inputs) (map record_max_turns final))
              (omega arith) over,
        )
      where
        fresh :
            (zero_reward : R) (inputs : List (List (Message T) × I × Option ℕ))
            → All (λ x. input_length x.0 ≤ limit) inputs
            → AllRolling 0
                (map (λ x. input_length x.0) inputs)
                (map (λ x. fresh_sample zero_reward x.0 x.1 x.2) inputs)
        fresh zero_reward [] h = tt
        fresh zero_reward (x ∷ inputs) h = (
          (record { tokens = omega arith; log = omega arith; fits = h.0 }, inl (refl, refl, refl)),
          fresh zero_reward inputs h.1,
        )
