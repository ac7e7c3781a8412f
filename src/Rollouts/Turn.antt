-- ===== src/Rollouts/Turn.antt =====
-- One turn of a sample in `run_multi_turn_rollout` (nemo_rl/experience/rollouts.py).
use ne_mo_rl.Common.{
  ℕ, suc, ◌+◌, ◌-◌, ◌≤◌, ◌≡◌, refl, ap, ◌∙◌, ◌⊎◌, inl, inr, Bool, true, false, ◌||◌, not, List, [],
  ◌∷◌, ◌++◌, ok, length, length-take, take, sum_by-append, leb, arith, Bool-cases,
}
use ne_mo_rl.Rollouts.{
  Sample, Response, Feedback, input_length, add_response, fit_observation, add_feedback, take_turn,
  turn_if,
}

-- What `fit_observation` returns for a response within the limit.
fit_observation_lem :
    {T : Type 0} (limit used : ℕ) (obs : List T)
    → used ≤ limit
    → (out : List T) × (cut : Bool) × (fit_observation limit used obs ≡ ok (out, cut))
      × (used + length out ≤ limit)
unfolding fit_observation
fit_observation_lem limit used obs h = elim (Bool-cases (leb limit (length obs + used))) [
  | inl e ↦ (
    take (limit - used) obs,
    true,
    ground (arith, e),
    omega (arith, length-take (limit - used) obs),
  )
  | inr e ↦ (obs, false, rw e refl, ground (arith, e))
]

module _ {T R I : Type 0} where
  -- The counters of a sample whose log had `start` tokens at first.
  pub record IsCounted (limit start : ℕ) (s : Sample T R I) : Type 0 where
    pub tokens : s.token_count ≡ s.assistant_token_count + s.env_token_count
    pub log : input_length s.message_log ≡ start + s.token_count
    pub fits : input_length s.message_log ≤ limit

  -- After `turn` turns: still going, or done before.
  abbrev pub IsAt : ℕ → Sample T R I → Type 0
  IsAt turn s =
      ((s.active ≡ true) × (s.terminated ≡ false) × (s.turn_count ≡ turn))
      ⊎ ((s.active ≡ false) × (s.terminated ≡ true) × (s.turn_count ≤ turn))

  abbrev pub IsRolling : ℕ → ℕ → ℕ → Sample T R I → Type 0
  IsRolling limit start turn s = IsCounted limit start s × IsAt turn s

  module _ (add : R → R → R) (limit assistant : ℕ) (respond : ℕ → ℕ → Sample T R I → Response T)
      (feedback : ℕ → ℕ → Sample T R I → Feedback T R I)
      (respects : (turn i : ℕ) (s : Sample T R I)
        → input_length s.message_log ≤ limit
        → input_length s.message_log + length (respond turn i s).generated_ids ≤ limit) where
    take_turn-IsAt :
        (start turn i : ℕ) (s : Sample T R I)
        → IsCounted limit start s
        → s.active ≡ true
        → s.terminated ≡ false
        → s.turn_count ≡ turn
        → (s' : Sample T R I) × (take_turn add limit assistant respond feedback turn i s ≡ ok s')
          × IsCounted limit start s'
          × IsAt (suc turn) s'
    unfolding take_turn add_response add_feedback
    take_turn-IsAt start turn i s c active going count =
        let r : Response T = respond turn i s in
        let s1 : Sample T R I = add_response assistant r s in
        let f : Feedback T R I = feedback turn i s1 in
        let room = respects turn i s c.fits in
        let (out, cut, e, fits) =
          fit_observation_lem limit (length r.generated_ids + input_length s.message_log)
            f.observation.token_ids (omega (arith, room)) in
        let length_two : input_length (
              (s.message_log ++ record { role = assistant; token_ids = r.generated_ids } ∷ [])
              ++ record { role = f.observation.role; token_ids = out } ∷ [])
            ≡ input_length s.message_log + length r.generated_ids + length out =
          omega (
            arith,
            sum_by-append (λ m. length m.token_ids)
                (s.message_log ++ record { role = assistant; token_ids = r.generated_ids } ∷ [])
                (record { role = f.observation.role; token_ids = out } ∷ []),
            sum_by-append (λ m. length m.token_ids) s.message_log
                (record { role = assistant; token_ids = r.generated_ids } ∷ []),
          ) in
        let s2 : Sample T R I = add_feedback add f (out, cut) s1 in
        (
          s2,
          rw e refl,
          record {
            tokens = omega (arith, c.tokens);
            log = omega (arith, length_two, c.log);
            fits = omega (arith, length_two, fits);
          },
          elim (Bool-cases (cut || f.is_terminated)) [
            | inl done ↦ inr (
              ap not done,
              ap (λ b. b || (cut || f.is_terminated)) going ∙ done,
              omega (arith, count),
            )
            | inr more ↦ inl (
              ap not more,
              ap (λ b. b || (cut || f.is_terminated)) going ∙ more,
              omega (arith, count),
            )
          ],
        )

    pub turn_if-IsRolling :
        (start turn i : ℕ) (s : Sample T R I)
        → IsRolling limit start turn s
        → (s' : Sample T R I) × (turn_if add limit assistant respond feedback s.active turn i s
            ≡ ok s')
          × IsRolling limit start (suc turn) s'
    turn_if-IsRolling start turn i s h = elim h.1 [
      | inl (active, going, count) ↦
          let (s', e, c, at) = take_turn-IsAt start turn i s h.0 active going count in
          (
            s',
            ap (λ b. turn_if add limit assistant respond feedback b turn i s) active ∙ e,
            (c, at),
          )
      | inr (inactive, done, count) ↦ (
        s,
        ap (λ b. turn_if add limit assistant respond feedback b turn i s) inactive,
        (h.0, inr (inactive, done, omega (arith, count))),
      )
    ]
