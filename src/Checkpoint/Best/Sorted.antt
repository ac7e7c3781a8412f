-- ===== src/Checkpoint/Best/Sorted.antt =====
-- The first of the checkpoints that are sorted by their metric (nemo_rl/utils/checkpoint.py).
use ne_mo_rl.Common.{
  ℕ, ◌≡◌, refl, sym, subst, Bool, true, false, Option, none, some, List, [], ◌∷◌, ◌==◌, All,
  All_mono, Has, Bool-cases, inl, inr, ◌⊎◌, sort_by, All-sort_by, All-sort_by_back, TotalTest,
  IsAscending, sort_by-IsAscending, arith,
}
use ne_mo_rl.Checkpoint.{
  CheckpointManager, Disk, load_checkpoint_history, metric_of, get_latest_checkpoint_path,
}
use ne_mo_rl.Checkpoint.Best.{
  has_metric, with_metric, first_step, not_below, best_first, get_best_checkpoint_path, value_of,
  IsOrder, NotBetter, Best, IsBest,
}

module _ {M : Type 0} (below : M → M → Bool) where
  module _ (r : IsOrder below) where
    not_below_total : (a b : Option M) → not_below below a b ≡ false → not_below below b a ≡ true
    not_below_total (some a) (some b) h = rw (r.asym a b (ground (arith, h))) refl
    not_below_total none (some b) h = refl
    not_below_total none none h = refl
    not_below_total (some a) none h = cc

    not_below_trans :
        (a b c : Option M)
        → not_below below a b ≡ true
        → not_below below b c ≡ true
        → not_below below a c ≡ true
    not_below_trans (some a) (some b) (some c) h k =
        rw (r.negative a b c (ground (arith, h)) (ground (arith, k))) refl
    not_below_trans none (some b) (some c) h k = cc
    not_below_trans a none (some c) h k = cc
    not_below_trans (some a) b none h k = refl
    not_below_trans none b none h k = refl

    best_first-TotalTest : (m : Option ℕ) (higher : Bool) → TotalTest (best_first below m higher)
    unfolding best_first
    best_first-TotalTest none higher = record { total = λ x y h. cc; trans = λ x y z h k. refl }
    best_first-TotalTest (some m) true = record {
      total = λ x y. not_below_total (metric_of m x.1) (metric_of m y.1);
      trans = λ x y z. not_below_trans (metric_of m x.1) (metric_of m y.1) (metric_of m z.1);
    }
    best_first-TotalTest (some m) false = record {
      total = λ x y. not_below_total (metric_of m y.1) (metric_of m x.1);
      trans =
          λ x y z h k. not_below_trans (metric_of m z.1) (metric_of m y.1) (metric_of m x.1) k h;
    }

  without_value :
      (m : Option ℕ) (info : List (ℕ × M)) → has_metric m info ≡ false → value_of m info ≡ none
  unfolding metric_of
  without_value none info h = refl
  without_value (some k) [] h = refl
  without_value (some k) ((i, v) ∷ info) h = elim (Bool-cases (i == k)) [
    | inl e ↦ absurd (let f : true ≡ false = (rw e at h) in cc)
    | inr e ↦ rw e (without_value (some k) info (rw e at h))
  ]

  valued :
      (m : Option ℕ) (info : List (ℕ × M))
      → has_metric m info ≡ true
      → (v : M) × (value_of m info ≡ some v)
  unfolding metric_of
  valued none info h = cc
  valued (some k) [] h = cc
  valued (some k) ((i, v) ∷ info) h = elim (Bool-cases (i == k)) [
    | inl e ↦ (v, rw e refl)
    | inr e ↦ (let (w, f) = valued (some k) info (rw e at h) in (w, rw e f))
  ]

  -- What holds of the history holds of those with the metric, and back.
  module _ (P : ℕ × List (ℕ × M) → Type 0) (m : Option ℕ) where
    with_metric-All :
        (history : List (ℕ × List (ℕ × M)))
        → All P history
        → All (λ e. P e × (has_metric m e.1 ≡ true)) (with_metric m history)
    unfolding with_metric
    with_metric-All [] h = tt
    with_metric-All ((n, info) ∷ history) h = elim (Bool-cases (has_metric m info)) [
      | inl e ↦ rw e ((h.0, e), with_metric-All history h.1)
      | inr e ↦ rw e (with_metric-All history h.1)
    ]

    with_metric_back :
        ((e : ℕ × List (ℕ × M)) → has_metric m e.1 ≡ false → P e)
        → (history : List (ℕ × List (ℕ × M))) → All P (with_metric m history)
        → All P history
    unfolding with_metric
    with_metric_back f [] h = tt
    with_metric_back f ((n, info) ∷ history) h = elim (Bool-cases (has_metric m info)) [
      | inl e ↦
          (let k : P (n, info) × All P (with_metric m history) = (rw e at h) in
            (k.0, with_metric_back f history k.1))
      | inr e ↦ (f (n, info) e, with_metric_back f history (rw e at h))
    ]

  all_listed :
      (l history : List (ℕ × List (ℕ × M)))
      → ((e : ℕ × List (ℕ × M)) → Has e l → Has e history)
      → All (λ e. Has e history) l
  all_listed [] history h = tt
  all_listed (e ∷ l) history h = (h e (inl refl), all_listed l history (λ c i. h c (inr i)))

  not_better :
      (m : Option ℕ) (higher : Bool) (v : M) (x y : ℕ × List (ℕ × M))
      → value_of m x.1 ≡ some v
      → best_first below m higher x y ≡ true
      → NotBetter below higher v (value_of m y.1)
  unfolding best_first
  not_better none higher v x y e h = tt
  not_better (some m) true v x y e h = higher_than (metric_of m y.1) (rw e at h)
    where
      higher_than : (o : Option M) → not_below below (some v) o ≡ true → NotBetter below true v o
      higher_than none h = tt
      higher_than (some w) h = ground (arith, h)
  not_better (some m) false v x y e h = lower_than (metric_of m y.1) (rw e at h)
    where
      lower_than : (o : Option M) → not_below below o (some v) ≡ true → NotBetter below false v o
      lower_than none h = tt
      lower_than (some w) h = ground (arith, h)

  NotBetter-refl : IsOrder below → (higher : Bool) (v : M) → NotBetter below higher v (some v)
  NotBetter-refl r higher v =
      let irreflexive : below v v ≡ false = elim (Bool-cases (below v v)) [
        | inl e ↦ r.asym v v e
        | inr e ↦ e
      ] in
      elim higher as (λ higher. NotBetter below higher v (some v)) [
        | true ↦ irreflexive
        | false ↦ irreflexive
      ]

  module _ (r : IsOrder below) (p : CheckpointManager) (history : List (ℕ × List (ℕ × M))) where
    abbrev sorted : List (ℕ × List (ℕ × M))
    sorted =
        sort_by (best_first below p.metric_name p.higher_is_better)
          (with_metric p.metric_name history)

    -- The first of the sorted checkpoints is the best one of the history.
    first-Best :
        (n : ℕ) (info : List (ℕ × M)) (rest : List (ℕ × List (ℕ × M)))
        → sorted ≡ (n, info) ∷ rest
        → Best below p history n
    first-Best n info rest e =
        let ascending : IsAscending (best_first below p.metric_name p.higher_is_better)
            ((n, info) ∷ rest) =
          subst (IsAscending (best_first below p.metric_name p.higher_is_better)) e
            (sort_by-IsAscending _ (best_first-TotalTest r p.metric_name p.higher_is_better) _) in
        let listed : All (λ c. Has c history × (has_metric p.metric_name c.1 ≡ true))
            ((n, info) ∷ rest) =
          subst (All (λ c. Has c history × (has_metric p.metric_name c.1 ≡ true))) e (
            All-sort_by _ _ _
              (with_metric-All _ p.metric_name history (all_listed history history (λ c i. i)))) in
        let (v, f) = valued p.metric_name info listed.0.1 in
        let Kept : ℕ × List (ℕ × M) → Type 0 =
          (λ c. NotBetter below p.higher_is_better v (value_of p.metric_name c.1)) in
        record {
          info = info;
          value = v;
          has_value = f;
          is_listed = listed.0.0;
          is_best =
              with_metric_back Kept p.metric_name
                (λ c missing. rw (without_value p.metric_name c.1 missing) tt) history
                (All-sort_by_back _ Kept _ (
                  subst (All Kept) (sym e) (
                    rw f (NotBetter-refl r p.higher_is_better v),
                    All_mono (λ c. not_better p.metric_name p.higher_is_better v (n, info) c f) rest
                        ascending.0,
                  )));
        }

    none_valued : sorted ≡ [] → All (λ c. value_of p.metric_name c.1 ≡ none) history
    none_valued e =
        with_metric_back _ p.metric_name (λ c. without_value p.metric_name c.1) history
          (All-sort_by_back _ _ _ (subst (All _) (sym e) tt))

    sorted_cases :
        (l : List (ℕ × List (ℕ × M)))
        → sorted ≡ l
        → (latest : Option ℕ)
        → ((n : ℕ) × (first_step latest l ≡ some n) × Best below p history n)
          ⊎ ((first_step latest l ≡ latest) × All (λ c. value_of p.metric_name c.1 ≡ none) history)
    sorted_cases [] e latest = inr (refl, none_valued e)
    sorted_cases ((n, info) ∷ rest) e latest = inl (n, refl, first-Best n info rest e)

  -- If `<` on the values of the metric is asymmetric and its negation transitive: the answer is
  -- none if there is no checkpoint; it is a step of the history with a value of the metric that no
  -- other checkpoint's is better than, in the order that the settings ask for; or it is the latest
  -- checkpoint and none of the history has the metric.
  pub get_best_checkpoint_path-IsBest :
      {A : Type 0} (p : CheckpointManager)
      → IsOrder below
      → (d : Disk M A)
      → IsBest below p
          (get_latest_checkpoint_path d)
          (load_checkpoint_history d)
          (get_best_checkpoint_path below p d)
  unfolding get_best_checkpoint_path
  get_best_checkpoint_path-IsBest p r d =
      elim (load_checkpoint_history d)
        as (λ history. IsBest below p (get_latest_checkpoint_path d) history (elim history [
          | [] ↦ none
          | e ∷ rest ↦ first_step (get_latest_checkpoint_path d) (
              sort_by (best_first below p.metric_name p.higher_is_better)
                (with_metric p.metric_name (e ∷ rest)))
        ])) [
          | [] ↦ refl
          | e ∷ rest ↦ sorted_cases r p (e ∷ rest) _ refl (get_latest_checkpoint_path d)
        ]
