-- ===== src/Checkpoint/Best.antt =====
-- The path to the best checkpoint (nemo_rl/utils/checkpoint.py).
pub mod Sorted
use ne_mo_rl.Common.{
  ℕ, ◌≡◌, refl, sym, subst, Bool, true, false, ◌||◌, not, Option, none, some, List, [], ◌∷◌, ◌==◌,
  if◌then◌else◌, All, All_mono, Has, Bool-cases, inl, inr, ◌⊎◌, sort_by, All-sort_by,
  All-sort_by_back, TotalTest, IsAscending, sort_by-IsAscending, arith,
}
use ne_mo_rl.Checkpoint.{
  CheckpointManager, Disk, load_checkpoint_history, metric_of, get_latest_checkpoint_path,
}

-- `self.metric_name in info`
abbrev has_metric : {M : Type 0} → Option ℕ → List (ℕ × M) → Bool
has_metric none info = false
has_metric (some m) [] = false
has_metric (some m) ((k, v) ∷ info) = k == m || has_metric (some m) info

-- `[c for c in checkpoint_history if self.metric_name in c[2]]`
unfoldable pub with_metric :
    {M : Type 0} → Option ℕ → List (ℕ × List (ℕ × M)) → List (ℕ × List (ℕ × M))
with_metric m [] = []
with_metric m ((n, info) ∷ history) =
    let rest = with_metric m history in if has_metric m info then (n, info) ∷ rest else rest

abbrev first_step : {M : Type 0} → Option ℕ → List (ℕ × List (ℕ × M)) → Option ℕ
first_step latest [] = latest
first_step latest ((n, info) ∷ rest) = some n

module _ {M : Type 0} (below : M → M → Bool) where
  abbrev not_below : Option M → Option M → Bool
  not_below (some a) (some b) = not (below a b)
  not_below none (some b) = false
  not_below a none = true

  -- The order by the metric, with `reverse` if higher is better; of two checkpoints that are equal,
  -- the first listed stays.
  unfoldable pub best_first : Option ℕ → Bool → ℕ × List (ℕ × M) → ℕ × List (ℕ × M) → Bool
  unfolding metric_of
  best_first none higher (i, x) (j, y) = true
  best_first (some m) true (i, x) (j, y) = not_below (metric_of m x) (metric_of m y)
  best_first (some m) false (i, x) (j, y) = not_below (metric_of m y) (metric_of m x)

unfoldable pub get_best_checkpoint_path :
    {M A : Type 0} → (M → M → Bool) → CheckpointManager → Disk M A → Option ℕ
unfolding load_checkpoint_history with_metric best_first sort_by get_latest_checkpoint_path
get_best_checkpoint_path below p d = elim (load_checkpoint_history d) [
  | [] ↦ none
  | e ∷ history ↦ first_step (get_latest_checkpoint_path d) (
      sort_by (best_first below p.metric_name p.higher_is_better)
        (with_metric p.metric_name (e ∷ history)))
]

-- The value that the checkpoints are sorted by
abbrev value_of : {M : Type 0} → Option ℕ → List (ℕ × M) → Option M
value_of none info = none
value_of (some m) info = metric_of m info

module _ {M : Type 0} (below : M → M → Bool) where
  -- What is used of `<` on the values of the metric: numbers have it, but not NaN.
  pub record IsOrder : Type 0 where
    pub asym : (a b : M) → below a b ≡ true → below b a ≡ false
    pub negative : (a b c : M) → below a b ≡ false → below b c ≡ false → below a c ≡ false

  -- The value `o` of another checkpoint is not better than `v`.
  abbrev NotBetter : Bool → M → Option M → Type 0
  NotBetter higher v none = Unit
  NotBetter true v (some w) = below v w ≡ false
  NotBetter false v (some w) = below w v ≡ false

  -- Step `n` is one of the history, with a value of the metric that no other value is better than.
  pub record Best (p : CheckpointManager) (history : List (ℕ × List (ℕ × M))) (n : ℕ) : Type 0 where
    pub info : List (ℕ × M)
    pub value : M
    pub has_value : value_of p.metric_name info ≡ some value
    pub is_listed : Has (n, info) history
    pub is_best : All (λ e. NotBetter p.higher_is_better value (value_of p.metric_name e.1)) history

  -- The best checkpoint of the history; if none has the metric, the latest; none of an empty one.
  abbrev pub IsBest : CheckpointManager → Option ℕ → List (ℕ × List (ℕ × M)) → Option ℕ → Type 0
  IsBest p latest [] o = o ≡ none
  IsBest p latest (e ∷ history) o =
      ((n : ℕ) × (o ≡ some n) × Best p (e ∷ history) n)
      ⊎ ((o ≡ latest) × All (λ c. value_of p.metric_name c.1 ≡ none) (e ∷ history))
