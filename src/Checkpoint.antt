-- ===== src/Checkpoint.antt =====
-- `CheckpointManager` (nemo_rl/utils/checkpoint.py). The checkpoint directory is the list of its
-- subdirectories, in the order in which `glob` lists them. A metric is named by a number; its
-- values and their comparison `<` are parameters. What a training loop writes into a directory is
-- the content `A`; a directory without files has no content. Paths stand for themselves.
pub mod Disk
pub mod Greatest
pub mod Removal
pub mod Latest
pub mod Best
pub mod Finalize
pub mod Tests
use ne_mo_rl.Common.{
  ℕ, zero, suc, ◌≡◌, Bool, true, false, ◌&&◌, ◌||◌, not, Option, none, some, List, [], ◌∷◌, ltb,
  leb, ◌==◌, if◌then◌else◌, Outcome, ok, raise, ◌>>=◌, sort_by, drop,
}

-- `step_{n}`, `tmp_step_{n}` and `old_step_{n}`
pub data Name : Type 0 where
  step tmp_step old_step : ℕ → Name

abbrev pub same : Name → Name → Bool
same (step i) (step j) = i == j
same (tmp_step i) (tmp_step j) = i == j
same (old_step i) (old_step j) = i == j
same a b = false

pub data DiskError : Type 0 where
  not_found not_empty : Name → DiskError

-- A directory: `training_info.json` and the other files, if they are there. The training info is
-- the list of its metrics.
pub record Checkpoint (M A : Type 0) : Type 0 where
  pub training_info : Option (List (ℕ × M))
  pub content : Option A

pub record CheckpointManager : Type 0 where
  pub metric_name : Option ℕ
  pub higher_is_better : Bool
  pub keep_top_k : Option ℕ

abbrev pub Disk : Type 0 → Type 0 → Type 0
Disk M A = List (Name × Checkpoint M A)

-- `sorted(l)[-1]`
abbrev pub last_of : List ℕ → Option ℕ
last_of [] = none
last_of (n ∷ []) = some n
last_of (n ∷ m ∷ l) = last_of (m ∷ l)

abbrev is_latest : Option ℕ → ℕ → Bool
is_latest none n = false
is_latest (some m) n = n == m

module _ {M : Type 0} where
  abbrev with_info : ℕ → Option (List (ℕ × M)) → List (ℕ × List (ℕ × M)) → List (ℕ × List (ℕ × M))
  with_info n none history = history
  with_info n (some info) history = (n, info) ∷ history

  -- `info.get(metric)`
  unfoldable pub metric_of : ℕ → List (ℕ × M) → Option M
  metric_of m [] = none
  metric_of m ((k, v) ∷ info) = if k == m then some v else metric_of m info

  -- `max` of the steps
  unfoldable pub latest_step : List (ℕ × List (ℕ × M)) → Option ℕ
  latest_step [] = none
  latest_step ((n, info) ∷ history) = elim (latest_step history) [
    | none ↦ some n
    | some m ↦ some (if ltb n m then m else n)
  ]

  -- `below a b` is `a < b` on the values of the metric.
  module _ (below : M → M → Bool) where
    -- a missing value is -inf where higher is better, and inf where it is not
    abbrev worse : Bool → Option M → Option M → Bool
    worse higher none none = false
    worse higher none (some b) = true
    worse higher (some a) none = false
    worse true (some a) (some b) = below a b
    worse false (some a) (some b) = below b a

    -- The order of the history, best first.
    unfoldable pub better : CheckpointManager → ℕ × List (ℕ × M) → ℕ × List (ℕ × M) → Bool
    unfolding metric_of
    better p (i, x) (j, y) = elim p.metric_name [
      | none ↦ leb j i
      | some m ↦
          worse p.higher_is_better (metric_of m y) (metric_of m x)
          || (not (worse p.higher_is_better (metric_of m x) (metric_of m y)) && leb j i)
    ]

module _ {M A : Type 0} where
  unfoldable pub lookup : Name → Disk M A → Option (Checkpoint M A)
  lookup a [] = none
  lookup a ((b, c) ∷ d) = if same b a then some c else lookup a d

  abbrev is_some : Option (Checkpoint M A) → Bool
  is_some none = false
  is_some (some c) = true

  -- `path.exists()`
  abbrev pub exists : Name → Disk M A → Bool
  exists a d = is_some (lookup a d)

  unfoldable pub renamed : Name → Name → Disk M A → Disk M A
  renamed a b [] = []
  renamed a b ((x, c) ∷ d) = (if same x a then b else x, c) ∷ renamed a b d

  -- `shutil.rmtree`
  unfoldable pub rmtree : Name → Disk M A → Disk M A
  rmtree a [] = []
  rmtree a ((x, c) ∷ d) = let rest = rmtree a d in if same x a then rest else (x, c) ∷ rest

  abbrev holds_file : Option (List (ℕ × M)) → Option A → Bool
  holds_file none none = false
  holds_file (some info) content = true
  holds_file none (some files) = true

  -- The directory is there and has files.
  abbrev has_files : Option (Checkpoint M A) → Bool
  has_files none = false
  has_files (some c) = holds_file c.training_info c.content

  -- `os.rename` of a directory: a target without files is replaced, one with files is an error.
  unfoldable pub rename : Name → Name → Disk M A → Outcome DiskError (Disk M A)
  unfolding lookup renamed rmtree
  rename a b d =
      if not (exists a d)
      then raise (not_found a)
      else if has_files (lookup b d)
      then raise (not_empty b)
      else if exists b d
      then ok (renamed a b (rmtree b d))
      else ok (renamed a b d)

  -- the directories `step_*`
  unfoldable pub step_dirs : Disk M A → List ℕ
  step_dirs [] = []
  step_dirs ((step n, c) ∷ d) = n ∷ step_dirs d
  step_dirs ((tmp_step n, c) ∷ d) = step_dirs d
  step_dirs ((old_step n, c) ∷ d) = step_dirs d

  unfoldable pub load_checkpoint_history : Disk M A → List (ℕ × List (ℕ × M))
  load_checkpoint_history [] = []
  load_checkpoint_history ((step n, c) ∷ d) =
      with_info n c.training_info (load_checkpoint_history d)
  load_checkpoint_history ((tmp_step n, c) ∷ d) = load_checkpoint_history d
  load_checkpoint_history ((old_step n, c) ∷ d) = load_checkpoint_history d

  unfoldable pub get_latest_checkpoint_path : Disk M A → Option ℕ
  unfolding step_dirs sort_by
  get_latest_checkpoint_path d = last_of (sort_by leb (step_dirs d))

  -- `mkdir` and the write of the training info; a directory that is there keeps its other files.
  unfoldable pub init_tmp_checkpoint : ℕ → List (ℕ × M) → Option A → Disk M A → Disk M A
  init_tmp_checkpoint n info fresh [] =
      (tmp_step n, record { training_info = some info; content = fresh }) ∷ []
  init_tmp_checkpoint n info fresh ((x, c) ∷ d) =
      let later = init_tmp_checkpoint n info fresh d in
      if same x (tmp_step n)
      then (x, record c { training_info = some info }) ∷ d
      else (x, c) ∷ later

  -- `finalize_checkpoint` of `tmp_step_{n}`, before the clean-up
  unfoldable pub move_into_place : ℕ → Disk M A → Outcome DiskError (Disk M A)
  unfolding rename rmtree
  move_into_place n d =
      if exists (step n) d
      then (do
        d1 ← rename (step n) (old_step n) d
        d2 ← rename (tmp_step n) (step n) d1
        ok (if exists (old_step n) d2 then rmtree (old_step n) d2 else d2))
      else rename (tmp_step n) (step n) d

  -- The `for` over the checkpoints that are not in the top k.
  unfoldable pub remove_each : Bool → Option ℕ → List (ℕ × List (ℕ × M)) → Disk M A → Disk M A
  unfolding rmtree
  remove_each exclude latest [] d = d
  remove_each exclude latest ((n, info) ∷ rest) d =
      let kept = remove_each exclude latest rest d in
      let removed = remove_each exclude latest rest (rmtree (step n) d) in
      if exclude && is_latest latest n then kept else removed

  module _ (below : M → M → Bool) where
    unfoldable pub remove_old_checkpoints : CheckpointManager → Bool → Disk M A → Disk M A
    unfolding load_checkpoint_history better latest_step remove_each sort_by
    remove_old_checkpoints p exclude d = elim p.keep_top_k [
      | none ↦ d
      | some k ↦
          let history = load_checkpoint_history d in
          remove_each exclude (latest_step history) (drop k (sort_by (better below p) history)) d
    ]

    unfoldable pub finalize_checkpoint :
        CheckpointManager → ℕ → Disk M A → Outcome DiskError (Disk M A)
    unfolding move_into_place remove_old_checkpoints
    finalize_checkpoint p n d = do d' ← move_into_place n d; ok (remove_old_checkpoints p true d')
