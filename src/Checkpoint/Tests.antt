-- ===== src/Checkpoint/Tests.antt =====
-- Runs of the checkpoint manager (nemo_rl/utils/checkpoint.py), and the theorems at concrete
-- inputs. The values of the metric are numbers.
use ne_mo_rl.Common.{ℕ, ◌≡◌, refl, true, none, some, [], ◌∷◌, ltb, ok, raise, arith}
use ne_mo_rl.Checkpoint.{
  step, tmp_step, old_step, Checkpoint, CheckpointManager, Disk, not_empty, move_into_place,
  finalize_checkpoint, remove_old_checkpoints, get_latest_checkpoint_path, lookup,
  init_tmp_checkpoint,
}
use ne_mo_rl.Checkpoint.Finalize.{Published, move_into_place-Published}
use ne_mo_rl.Checkpoint.{load_checkpoint_history}
use ne_mo_rl.Checkpoint.Best.{get_best_checkpoint_path, IsOrder, IsBest}
use ne_mo_rl.Checkpoint.Best.Sorted.{get_best_checkpoint_path-IsBest}
use ne_mo_rl.Checkpoint.Latest.{remove_old_checkpoints-latest}

abbrev manager : CheckpointManager
manager = record { metric_name = some 0; higher_is_better = true; keep_top_k = some 1 }

abbrev saved : ℕ → ℕ → Checkpoint ℕ ℕ
saved value content = record { training_info = some ((0, value) ∷ []); content = some content }

abbrev disk : Disk ℕ ℕ
disk =
    (step 10, saved 7 1)
    ∷ (step 20, saved 9 2)
    ∷ (step 30, saved 8 3)
    ∷ (tmp_step 30, saved 5 4)
    ∷ []

-- The best checkpoint and the latest one are kept.
finalize_disk :
    finalize_checkpoint ltb manager 30 disk ≡ ok ((step 20, saved 9 2) ∷ (step 30, saved 5 4) ∷ [])
unfolding finalize_checkpoint
finalize_disk = refl

init_disk :
    init_tmp_checkpoint 40 ((0, 6) ∷ []) (some 0) ((step 30, saved 5 4) ∷ [])
    ≡ (step 30, saved 5 4) ∷ (tmp_step 40, saved 6 0) ∷ []
unfolding init_tmp_checkpoint
init_disk = refl

abbrev interrupted : Disk ℕ ℕ
interrupted = (old_step 30, saved 8 3) ∷ (step 30, saved 5 4) ∷ (tmp_step 30, saved 6 5) ∷ []

move_into_place-Published_example :
    (d' : Disk ℕ ℕ) × (move_into_place 30 disk ≡ ok d') × Published 30 disk (saved 5 4) d'
unfolding lookup
move_into_place-Published_example = move_into_place-Published 30 disk (saved 5 4) refl refl

-- An old checkpoint that a run left aside is not overwritten.
interrupted_raises : move_into_place 30 interrupted ≡ raise (not_empty (old_step 30))
unfolding move_into_place
interrupted_raises = refl

abbrev empty_directory : Checkpoint ℕ ℕ
empty_directory = record { training_info = none; content = none }

-- A directory without files is.
overwritten :
    move_into_place 30
      ((old_step 30, empty_directory) ∷ (step 30, saved 5 4) ∷ (tmp_step 30, saved 6 5) ∷ [])
    ≡ ok ((step 30, saved 6 5) ∷ [])
unfolding move_into_place
overwritten = refl

remove_old_checkpoints-latest_example :
    get_latest_checkpoint_path (remove_old_checkpoints ltb manager true disk)
    ≡ get_latest_checkpoint_path disk
remove_old_checkpoints-latest_example = remove_old_checkpoints-latest ltb manager disk

-- The metric is compared as the numbers are.
ltb-IsOrder : IsOrder ltb
ltb-IsOrder = record {
  asym = λ a b h. ground (arith, h);
  negative = λ a b c h k. ground (arith, h, k);
}

best_disk : get_best_checkpoint_path ltb manager disk ≡ some 20
unfolding get_best_checkpoint_path
best_disk = refl

get_best_checkpoint_path-IsBest_example :
    IsBest ltb manager
      (get_latest_checkpoint_path disk)
      (load_checkpoint_history disk)
      (get_best_checkpoint_path ltb manager disk)
get_best_checkpoint_path-IsBest_example =
    get_best_checkpoint_path-IsBest ltb manager ltb-IsOrder disk
