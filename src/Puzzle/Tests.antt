-- ===== src/Puzzle/Tests.antt =====
-- Runs of the sliding puzzle (nemo_rl/environments/games/sliding_puzzle.py), and the theorems at
-- concrete inputs.
use ne_mo_rl.Common.{◌≡◌, refl, false, [], ◌∷◌, pos, arith}
use ne_mo_rl.Puzzle.{
  GameState, slide, up, left, Metadata, slid, solved, not_adjacent, generate, step, refuse,
}
use ne_mo_rl.Puzzle.Board.{IsBoard, IsStep, step-IsStep}
use ne_mo_rl.Puzzle.Turn.{generate-IsBoard}

-- Two random moves: left and up.
abbrev two_by_two : GameState
two_by_two = record {
  size = 2;
  grid = (0 ∷ 2 ∷ []) ∷ (1 ∷ 3 ∷ []) ∷ [];
  solution = (1 ∷ 2 ∷ []) ∷ (3 ∷ 0 ∷ []) ∷ [];
  empty_pos = (0, 0);
}

generate_two : generate 2 (0 ∷ 1 ∷ []) ≡ two_by_two
unfolding generate
generate_two = refl

abbrev one_move : GameState
one_move = record {
  size = 2;
  grid = (1 ∷ 2 ∷ []) ∷ (0 ∷ 3 ∷ []) ∷ [];
  solution = (1 ∷ 2 ∷ []) ∷ (3 ∷ 0 ∷ []) ∷ [];
  empty_pos = (1, 0);
}

step_up :
    step up two_by_two
    ≡ record { response = slid 1; reward = 0; is_terminated = false; state = one_move }
unfolding step
step_up = refl

step_solved : (step left one_move).response ≡ solved
unfolding step
step_solved = refl

step_far : step (slide (pos 2) (pos 2)) two_by_two ≡ refuse not_adjacent two_by_two
unfolding step
step_far = refl

abbrev begun : Metadata
begun = record { game_state = generate 2 (0 ∷ 1 ∷ []); num_moves = 3; max_moves = 5 }

two-IsBoard : IsBoard (generate 2 (0 ∷ 1 ∷ []))
two-IsBoard = generate-IsBoard 2 (0 ∷ 1 ∷ []) (omega arith)

step-IsStep_example : IsStep (generate 2 (0 ∷ 1 ∷ [])) (step up (generate 2 (0 ∷ 1 ∷ [])))
step-IsStep_example = step-IsStep up (generate 2 (0 ∷ 1 ∷ [])) two-IsBoard
