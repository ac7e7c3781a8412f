-- ===== src/Async/ReplayBuffer.antt =====
-- `ReplayBuffer` (nemo_rl/algorithms/async_utils.py). A weight version is a number from 0 on. The
-- lock makes each method one step; what a method prints is left out. The three lists are read at
-- one index: they have one length in every buffer that the methods make (`Refinement`).
pub mod Indices
pub mod Queue
pub mod Refinement
pub mod Sampling
pub mod Invariant
use ne_mo_rl.Common.{
  ℕ, zero, suc, ◌+◌, ◌-◌, ◌*◌, ◌≡◌, Bool, true, false, ◌&&◌, ◌||◌, Option, none, some, List, [],
  ◌∷◌, ◌++◌, ltb, leb, ◌==◌, if◌then◌else◌, Outcome, ok, raise, length, get_or, get_elem?, take,
  erase_idx, sort_by, sum_by, ℤ, pos, negsuc, max_int,
}

pub data BufferError : Type 0 where
  max_size_not_positive older_than_window division_by_zero : BufferError

pub data PushStatus : Type 0 where
  full success : PushStatus

-- A quotient that is not computed: the ages are averages.
pub record Fraction : Type 0 where
  pub numerator : ℕ
  pub denominator : ℕ

pub record ReplayBuffer (A : Type 0) : Type 0 where
  pub max_size : ℕ
  pub trajectories : List A
  pub trajectory_versions : List ℕ
  pub target_weight_versions : List ℕ
  pub last_target_weight_already_generated : ℤ

-- The dictionary that `sample` returns.
pub record Sampled (A : Type 0) : Type 0 where
  pub trajectories : List A
  pub avg_trajectory_age : Fraction

-- `[i for i, v in enumerate(l) if p(v)]`, with indices from `i` on
unfoldable pub positions_from : {A : Type 0} → (A → Bool) → ℕ → List A → List ℕ
positions_from p i [] = []
positions_from p i (x ∷ xs) =
    let later = positions_from p (suc i) xs in if p x then i ∷ later else later

-- `[i for i in indices if l[i] == v]`
unfoldable pub positions_with : ℕ → List ℕ → List ℕ → List ℕ
positions_with v l [] = []
positions_with v l (i ∷ indices) =
    let later = positions_with v l indices in if get_or l i 0 == v then i ∷ later else later

unfoldable pub any_below : ℕ → List ℕ → Bool
any_below n [] = false
any_below n (v ∷ l) = ltb v n || any_below n l

abbrev keep_some : {A : Type 0} → Option A → List A → List A
keep_some none l = l
keep_some (some x) l = x ∷ l

-- `[l[i] for i in indices]`
unfoldable pub select : {A : Type 0} → List A → List ℕ → List A
select l [] = []
select l (i ∷ indices) = keep_some (get_elem? l i) (select l indices)

-- `for idx in indices: l.pop(idx)`
unfoldable pub pop_all : {A : Type 0} → List ℕ → List A → List A
pop_all [] l = l
pop_all (i ∷ indices) l = pop_all indices (erase_idx l i)

abbrev pub largest_first : ℕ → ℕ → Bool
largest_first i j = leb j i

abbrev pub in_window : ℕ → ℕ → ℕ → Bool
in_window low high v = leb low v && leb v high

-- `current - sum(versions) / len(versions)`; the versions are at most `current`
unfoldable pub average_age : ℕ → List ℕ → Outcome BufferError Fraction
average_age current [] = raise division_by_zero
average_age current (v ∷ versions) =
    let n = length (v ∷ versions) in
    ok (record { numerator = current * n - sum_by (λ u. u) (v ∷ versions); denominator = n })

module _ {A : Type 0} where
  unfoldable pub init : ℤ → Outcome BufferError (ReplayBuffer A)
  init (negsuc n) = raise max_size_not_positive
  init (pos n) =
      if leb n 0
      then raise max_size_not_positive
      else ok (record {
        max_size = n;
        trajectories = [];
        trajectory_versions = [];
        target_weight_versions = [];
        last_target_weight_already_generated = negsuc 0;
      })

  unfoldable pub push_with_wait_signal : A → ℕ → ℕ → ReplayBuffer A → PushStatus × ReplayBuffer A
  push_with_wait_signal trajectory weight_version target b =
      if leb b.max_size (length b.trajectories) then (full, b) else (
        success,
        record b {
          trajectories = b.trajectories ++ trajectory ∷ [];
          trajectory_versions = b.trajectory_versions ++ weight_version ∷ [];
          target_weight_versions = b.target_weight_versions ++ target ∷ [];
          last_target_weight_already_generated =
              max_int b.last_target_weight_already_generated (pos target);
        },
      )

  unfoldable pub remove : List ℕ → ReplayBuffer A → ReplayBuffer A
  unfolding pop_all sort_by
  remove selected b =
      let order = sort_by largest_first selected in
      record b {
        trajectories = pop_all order b.trajectories;
        trajectory_versions = pop_all order b.trajectory_versions;
        target_weight_versions = pop_all order b.target_weight_versions;
      }

  -- `sample` once the trajectories are selected
  unfoldable pub take_selected :
      ℕ → List ℕ → ReplayBuffer A → Outcome BufferError (Option (Sampled A)) × ReplayBuffer A
  unfolding average_age select remove
  take_selected current selected b =
      elim (average_age current (select b.trajectory_versions selected)) [
        | raise e ↦ (raise e, b)
        | ok age ↦ (
          ok (
              some (record {
                trajectories = select b.trajectories selected;
                avg_trajectory_age = age;
              })),
          remove selected b,
        )
      ]

  -- `n` is `num_prompt_groups`. `max(0, current - age)` is the subtraction on ℕ.
  unfoldable pub sample :
      ℕ → ℕ → ℕ → ReplayBuffer A → Outcome BufferError (Option (Sampled A)) × ReplayBuffer A
  unfolding any_below positions_from positions_with take_selected
  sample n current max_age b =
      let min_valid = current - max_age in
      let valid = positions_from (in_window min_valid current) 0 b.trajectory_versions in
      let intended = positions_with current b.target_weight_versions valid in
      if leb (length b.trajectories) 0
      then (ok none, b)
      else if any_below min_valid b.trajectory_versions
      then (raise older_than_window, b)
      else if leb (length valid) 0
      then (ok none, b)
      else if ltb (length valid) n
      then (ok none, b)
      else if ltb (length intended) n
      then (ok none, b)
      else take_selected current (take n intended) b

  unfoldable pub size : ReplayBuffer A → ℕ
  size b = length b.trajectories

  -- `clear` keeps the last target
  unfoldable pub clear : ReplayBuffer A → ReplayBuffer A
  clear b = record b { trajectories = []; trajectory_versions = []; target_weight_versions = [] }
