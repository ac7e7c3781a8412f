-- ===== src/ContextParallel/Tests.antt =====
-- Eight tokens over two ranks (nemo_rl/distributed/model_utils.py).
use ne_mo_rl.Common.{
  ℕ, ◌*◌, ◌≡◌, ◌≢◌, ◌⊎◌, refl, inr, List, [], ◌∷◌, map, length, range_from, ok, raise, arith,
}
use ne_mo_rl.ContextParallel.{get_tokens_on_this_cp_rank, forward, backward, invalid_view}
use ne_mo_rl.ContextParallel.Gather.{forward-get_tokens_on_this_cp_rank}
use ne_mo_rl.ContextParallel.Backward.{backward_lem}

abbrev eight : List ℕ
eight = 1 ∷ 2 ∷ 3 ∷ 4 ∷ 5 ∷ 6 ∷ 7 ∷ 8 ∷ []

get_tokens_on_this_cp_rank_first : get_tokens_on_this_cp_rank 0 2 eight ≡ 1 ∷ 2 ∷ 7 ∷ 8 ∷ []
unfolding get_tokens_on_this_cp_rank
get_tokens_on_this_cp_rank_first = refl

forward-get_tokens_on_this_cp_rank_example :
    forward (map (λ r. get_tokens_on_this_cp_rank r 2 eight) (range_from 0 2)) ≡ eight
forward-get_tokens_on_this_cp_rank_example =
    forward-get_tokens_on_this_cp_rank 2 eight (omega arith) (inr (2, refl))

backward_lem_example :
    ((s : ℕ) × (length eight ≡ (2 * 2) * s)
      × (backward 1 2 eight ≡ ok (get_tokens_on_this_cp_rank 1 2 eight)))
    ⊎ (((s : ℕ) → length eight ≢ (2 * 2) * s) × (backward 1 2 eight ≡ raise invalid_view))
backward_lem_example = backward_lem 1 2 eight (omega arith)
