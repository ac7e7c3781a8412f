-- ===== src/Async/ReplayBuffer/Sampling.antt =====
-- What the trainer gets out of `ReplayBuffer.sample`.
use ne_mo_rl.Common.{
  ℕ, zero, suc, ◌+◌, ◌-◌, ◌≤◌, ◌<◌, ◌≡◌, refl, ap, ◌∙◌, Bool, true, false, Option, none, some, List,
  [], ◌∷◌, ◌++◌, map, Outcome, ok, raise, length, length-map, take, sum_by, sum_by-append, All,
  All_mono, Has, ltb, arith, Bool-cases, inl, inr, ◌⊎◌, SameItems,
}
use ne_mo_rl.Async.ReplayBuffer.{
  BufferError, older_than_window, division_by_zero, Fraction, ReplayBuffer, Sampled, average_age,
  sample,
}
use ne_mo_rl.Async.ReplayBuffer.Indices.{passing, without_first}
use ne_mo_rl.Async.ReplayBuffer.Queue.{
  Entry, Queue, buffer_of, is_intended, is_valid, is_ready, has_old, serve, served, sample_queue,
}
use ne_mo_rl.Async.ReplayBuffer.Refinement.{sample-refines}

module _ {B : Type 0} (p : B → Bool) where
  passing-All : (xs : List B) → All (λ x. p x ≡ true) (passing p xs)
  unfolding passing
  passing-All [] = tt
  passing-All (x ∷ xs) = elim (Bool-cases (p x)) [
    | inl e ↦ rw e (e, passing-All xs)
    | inr e ↦ rw e (passing-All xs)
  ]

  All-take : (P : B → Type 0) (n : ℕ) (xs : List B) → All P xs → All P (take n xs)
  All-take P zero xs h = tt
  All-take P (suc n) [] h = tt
  All-take P (suc n) (x ∷ xs) h = (h.0, All-take P n xs h.1)

  length-take_le : (n : ℕ) (xs : List B) → n ≤ length xs → length (take n xs) ≡ n
  length-take_le zero xs h = refl
  length-take_le (suc n) [] h = absurd (omega arith)
  length-take_le (suc n) (x ∷ xs) h = ap suc (length-take_le n xs (omega arith))

  served-conserved :
      (w : B → ℕ) (n : ℕ) (xs : List B)
      → sum_by w (take n (passing p xs)) + sum_by w (without_first p n xs) ≡ sum_by w xs
  unfolding passing without_first
  served-conserved w zero [] = refl
  served-conserved w zero (x ∷ xs) = omega arith
  served-conserved w (suc n) [] = refl
  served-conserved w (suc n) (x ∷ xs) = elim (Bool-cases (p x)) [
    | inl e ↦ rw e (omega (arith, served-conserved w n xs))
    | inr e ↦ rw e (omega (arith, served-conserved w (suc n) xs))
  ]

average_age_cases :
    (current : ℕ) (versions : List ℕ)
    → ((versions ≡ []) × (average_age current versions ≡ raise division_by_zero))
      ⊎ ((age : Fraction) × (average_age current versions ≡ ok age))
unfolding average_age
average_age_cases current [] = inl (refl, refl)
average_age_cases current (v ∷ versions) = inr (_, refl)

module _ {A : Type 0} where
  -- The entries `es` are what the step takes, and `left` is what stays.
  pub record Served (n current max_age : ℕ) (q : Queue A) (es left : List (Entry A)) : Type 0 where
    pub count : length es ≡ n
    pub intended :
        All (λ e. (e.target ≡ current) × (current - max_age ≤ e.version) × (e.version ≤ current)) es
    pub conserved : SameItems (es ++ left) q.entries

  intended_parts :
      (current max_age : ℕ) (e : Entry A)
      → is_intended current max_age e ≡ true
      → (e.target ≡ current) × (current - max_age ≤ e.version) × (e.version ≤ current)
  intended_parts current max_age e h = ground arith

  serve-Served :
      (n current max_age : ℕ) (q : Queue A)
      → n ≤ length (passing (is_intended current max_age) q.entries)
      → Served n current max_age q (served n current max_age q) (serve n current max_age q).entries
  serve-Served n current max_age q enough = record {
    count = length-take_le (is_intended current max_age) n _ enough;
    intended = All-take (is_intended current max_age) _ n _ (
        All_mono (intended_parts current max_age) _
          (passing-All (is_intended current max_age) q.entries));
    conserved = λ w.
        sum_by-append w (served n current max_age q) (serve n current max_age q).entries
        ∙ served-conserved (is_intended current max_age) w n q.entries;
  }

  has_old-All :
      (low : ℕ) (es : List (Entry A)) → has_old low es ≡ false → All (λ e. low ≤ e.version) es
  unfolding has_old
  has_old-All low [] h = tt
  has_old-All low (e ∷ es) h = (ground arith, has_old-All low es (ground arith))

  has_old-some :
      (low : ℕ) (es : List (Entry A))
      → has_old low es ≡ true
      → (e : Entry A) × Has e es × (e.version < low)
  unfolding has_old
  has_old-some low [] h = cc
  has_old-some low (e ∷ es) h = elim (Bool-cases (ltb e.version low)) [
    | inl old ↦ (e, inl refl, ground (arith, old))
    | inr young ↦
        let (f, i, lt) = has_old-some low es (let k : has_old low es ≡ true = ground arith in k) in
        (f, inr i, lt)
  ]

  -- What a call of `sample` may do to a buffer: hand out `n` groups that were made for the current
  -- step, or leave the buffer as it is.
  abbrev pub SampleResult :
      ℕ → ℕ → ℕ → Queue A → Outcome BufferError (Option (Sampled A)) × ReplayBuffer A → Type 0
  SampleResult n current max_age q r =
      ((es : List (Entry A)) × (left : List (Entry A)) × (age : Fraction) × Served n current max_age
          q es left
        × (All (λ e. current - max_age ≤ e.version) q.entries)
        × (r ≡ (
          ok (
              some
                (record { trajectories = map (λ e. e.trajectory) es; avg_trajectory_age = age })),
          buffer_of (record q { entries = left }),
        )))
      ⊎ ((r.1 ≡ buffer_of q)
          × (((r.0 ≡ raise older_than_window)
                × ((e : Entry A) × Has e q.entries × (e.version < current - max_age)))
              ⊎ ((r.0 ≡ raise division_by_zero) × (n ≡ 0))
              ⊎ ((r.0 ≡ ok none)
                  × ((length (passing (is_valid current max_age) q.entries) ≡ 0)
                      ⊎ (length (passing (is_intended current max_age) q.entries) < n)))))

  module _ (n current max_age : ℕ) (q : Queue A) where
    abbrev serving : List (Entry A)
    serving = served n current max_age q

    ready_result :
        has_old (current - max_age) q.entries ≡ false
        → is_ready n current max_age q ≡ true
        → SampleResult n current max_age q
            ((sample_queue n current max_age q).0, buffer_of (sample_queue n current max_age q).1)
    unfolding sample_queue
    ready_result fresh ready =
        let s = serve-Served n current max_age q (ground arith) in
        elim (average_age_cases current (map (λ e. e.version) serving)) [
          | inl (empty, e) ↦
              rw (fresh, ready, e)
                (inr (
                  refl,
                  inr (
                      inl (
                        refl,
                        omega (
                          arith,
                          s.count,
                          ap length empty,
                          length-map (λ (e : Entry A). e.version) serving,
                        ),
                      )),
                ))
          | inr (age, e) ↦
              rw (fresh, ready, e)
                (inl (
                  serving,
                  (serve n current max_age q).entries,
                  age,
                  s,
                  has_old-All (current - max_age) q.entries fresh,
                  refl,
                ))
        ]

    not_ready :
        is_ready n current max_age q ≡ false
        → (length (passing (is_valid current max_age) q.entries) ≡ 0)
          ⊎ (length (passing (is_intended current max_age) q.entries) < n)
    not_ready h = ground arith

    -- `sample` either hands out exactly `n` groups, each generated for the current step by a
    -- version in the age window, leaves all other groups in the buffer, and then no group in the
    -- buffer was older than the window; or it changes nothing, and raises and some group in the buffer is older
    -- than the window, or raises and no group was asked for, or answers None and no group has a
    -- valid version or fewer than `n` groups are there for the step.
    pub sample-SampleResult :
        SampleResult n current max_age q (sample n current max_age (buffer_of q))
    sample-SampleResult =
        rw (sample-refines n current max_age q)
          (elim (Bool-cases (has_old (current - max_age) q.entries)) [
            | inl old ↦
                let older = has_old-some (current - max_age) q.entries old in
                unfold sample_queue in rw old (inr (refl, inl (refl, older)))
            | inr fresh ↦ elim (Bool-cases (is_ready n current max_age q)) [
              | inl ready ↦ ready_result fresh ready
              | inr waits ↦
                  let why = not_ready waits in
                  unfold sample_queue in rw (fresh, waits) (inr (refl, inr (inr (refl, why))))
            ]
          ])
