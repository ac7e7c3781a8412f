-- ===== src/Async/Collector/Targets.antt =====
-- Which target weights are generated next (nemo_rl/algorithms/async_utils.py).
use ne_mo_rl.Common.{
  ℕ, zero, suc, ◌+◌, ◌≤◌, ◌<◌, ◌≡◌, refl, ap, true, false, Option, none, some, List, [], ◌∷◌, ◌==◌,
  if◌then◌else◌, range_from, ℤ, pos, lt_int, All, All_mono, ◌↔◌, arith, Bool-cases, inl, inr, ◌⊎◌,
}
use ne_mo_rl.Async.Collector.{
  Settings, Collector, calculate_target_weights, is_in, discard, needs_generation, next_target,
  reserve, get_next_target_for_generation, all_taken, should_pause_for_generation_limits,
}

-- No target is in the list twice.
abbrev pub NoDup : List ℕ → Type 0
NoDup [] = Unit
NoDup (t ∷ l) = (is_in t l ≡ false) × NoDup l

is_in-discard : (t u : ℕ) (l : List ℕ) → is_in t l ≡ false → is_in t (discard u l) ≡ false
unfolding is_in discard
is_in-discard t u [] h = refl
is_in-discard t u (v ∷ l) h = ground (arith, is_in-discard t u l)

pub discard-NoDup : (u : ℕ) (l : List ℕ) → NoDup l → NoDup (discard u l)
unfolding discard
discard-NoDup u [] h = tt
discard-NoDup u (v ∷ l) h = elim (Bool-cases (u == v)) [
  | inl e ↦ rw e (discard-NoDup u l h.1)
  | inr e ↦ rw e (is_in-discard v u l h.0, discard-NoDup u l h.1)
]

module _ (last : ℤ) (generating : List ℕ) where
  -- What the search through the targets from `a` on returns.
  abbrev Searched : ℕ → ℕ → Option ℕ → Type 0
  Searched a n none = All (λ t. needs_generation last generating t ≡ false) (range_from a n)
  Searched a n (some t) = (a ≤ t) × (t < a + n) × (needs_generation last generating t ≡ true)

  later_target :
      (a n : ℕ) (o : Option ℕ)
      → needs_generation last generating a ≡ false
      → Searched (suc a) n o
      → Searched a (suc n) o
  later_target a n none e h = (e, h)
  later_target a n (some t) e h = (omega (arith, h.0), omega (arith, h.1), h.2)

  next_target-Searched : (a n : ℕ) → Searched a n (next_target last generating (range_from a n))
  unfolding next_target
  next_target-Searched a zero = tt
  next_target-Searched a (suc n) = elim (Bool-cases (needs_generation last generating a)) [
    | inl e ↦ rw e (omega arith, omega arith, e)
    | inr e ↦ rw e (later_target a n _ e (next_target-Searched (suc a) n))
  ]

  all_taken_next :
      (targets : List ℕ)
      → ((all_taken last generating targets ≡ true) × (next_target last generating targets ≡ none))
        ⊎ ((all_taken last generating targets ≡ false)
            × ((t : ℕ) × (next_target last generating targets ≡ some t)))
  unfolding all_taken next_target
  all_taken_next [] = inl (refl, refl)
  all_taken_next (t ∷ targets) = elim (Bool-cases (needs_generation last generating t)) [
    | inl e ↦ rw e (inr (refl, (t, refl)))
    | inr e ↦ rw e (all_taken_next targets)
  ]

-- The first training step that generation version `g` may work for: only the version that the run
-- begins with may work for its own step.
abbrev pub first_target : ℕ → Collector → ℕ
first_target g c = if g == c.initial_weight_version then g else suc g

targets_window :
    (s : Settings) (g : ℕ) (c : Collector)
    → (n : ℕ) × (calculate_target_weights s g c ≡ range_from (first_target g c) n)
      × (first_target g c + n ≡ suc (g + s.max_trajectory_age_steps))
unfolding calculate_target_weights
targets_window s g c = elim (Bool-cases (g == c.initial_weight_version)) [
  | inl e ↦ rw e (s.max_trajectory_age_steps + 1, same e, omega arith)
  | inr e ↦ rw e (s.max_trajectory_age_steps, refl, omega arith)
]
  where
    same :
        g == c.initial_weight_version ≡ true
        → range_from c.initial_weight_version (s.max_trajectory_age_steps + 1)
          ≡ range_from g (s.max_trajectory_age_steps + 1)
    same e =
        let i : c.initial_weight_version ≡ g = ground arith in
        ap (λ k. range_from k (s.max_trajectory_age_steps + 1)) i

module _ (s : Settings) (last : ℤ) (g : ℕ) (c : Collector) where
  -- A target that is not yet generated and that no worker has.
  abbrev pub IsFree : ℕ → Type 0
  IsFree t = (lt_int last (pos t) ≡ true) × (is_in t c.generating_targets ≡ false)

  -- A target that was generated before or that a worker has.
  abbrev pub IsTaken : ℕ → Type 0
  IsTaken t = (lt_int last (pos t) ≡ false) ⊎ (is_in t c.generating_targets ≡ true)

  -- The answer and the state after a call with generation version `g`.
  abbrev pub NextTarget : Option ℕ × Collector → Type 0
  NextTarget r =
      ((t : ℕ) × (r ≡ (some t, record c { generating_targets = t ∷ c.generating_targets }))
        × (first_target g c ≤ t)
        × (t ≤ g + s.max_trajectory_age_steps)
        × IsFree t)
      ⊎ ((r ≡ (none, c))
          × ((n : ℕ) × (first_target g c + n ≡ suc (g + s.max_trajectory_age_steps))
              × All IsTaken (range_from (first_target g c) n)))

  IsFree-parts : (t : ℕ) → needs_generation last c.generating_targets t ≡ true → IsFree t
  IsFree-parts t h = ground arith

  IsTaken-parts : (t : ℕ) → needs_generation last c.generating_targets t ≡ false → IsTaken t
  IsTaken-parts t h = ground arith

  Searched-next :
      (n : ℕ)
      → first_target g c + n ≡ suc (g + s.max_trajectory_age_steps)
      → (o : Option ℕ) → Searched last c.generating_targets (first_target g c) n o
      → NextTarget (reserve o c)
  Searched-next n e none h = inr (refl, (n, e, All_mono IsTaken-parts _ h))
  Searched-next n e (some t) h = inl (t, refl, h.0, omega (arith, e, h.1), IsFree-parts t h.2)

  -- A worker group gets a target between the first one for its generation version and that
  -- version plus the maximal age, later than every target generated before and reserved by no
  -- other, and it is reserved; or there is no target, the state stays, and every target of that
  -- range was generated before or is reserved.
  pub get_next_target_for_generation-NextTarget :
      NextTarget (get_next_target_for_generation s last g c)
  unfolding get_next_target_for_generation
  get_next_target_for_generation-NextTarget =
      let (n, e, total) = targets_window s g c in
      rw e (
        Searched-next n total _
          (next_target-Searched last c.generating_targets (first_target g c) n))

-- The collection pauses for the generation limits exactly when the current weight version would
-- get no target.
pub should_pause-iff-no_target :
    (s : Settings) (last : ℤ) (c : Collector)
    → (should_pause_for_generation_limits s last c ≡ true)
      ↔ ((get_next_target_for_generation s last c.current_weight_version c).0 ≡ none)
unfolding should_pause_for_generation_limits get_next_target_for_generation
should_pause-iff-no_target s last c =
    elim (all_taken_next last c.generating_targets
      (calculate_target_weights s c.current_weight_version c)) [
        | inl (p, q) ↦ rw (p, q) ((λ h. refl), (λ h. refl))
        | inr (p, (t, q)) ↦ rw (p, q) ((λ h. cc), (λ h. cc))
      ]
