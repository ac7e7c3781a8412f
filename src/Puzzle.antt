-- ===== src/Puzzle.antt =====
-- The sliding puzzle (nemo_rl/environments/games/sliding_puzzle.py). A command is what `step` and
-- `process_turn` make of the text of an action, and a response the kind of text that they answer.
-- The random choices of `generate` are an argument.
pub mod Grid
pub mod Board
pub mod Turn
pub mod Tests
use ne_mo_rl.Common.{
  ℕ, zero, suc, ◌+◌, ◌-◌, ◌*◌, ◌%◌, ◌≡◌, Bool, true, false, ◌&&◌, ◌||◌, not, Option, none, some,
  List, [], ◌∷◌, ◌++◌, ltb, leb, ◌==◌, if◌then◌else◌, length, get_or, set, range_from, ℤ, pos,
  negsuc,
}

abbrev pub Grid : Type 0
Grid = List (List ℕ)

abbrev pub cell : Grid → ℕ → ℕ → ℕ
cell g r c = get_or (get_or g r []) c 0

-- `grid[r][c] = v`
abbrev pub set_cell : Grid → ℕ → ℕ → ℕ → Grid
set_cell g r c v = set g r (set (get_or g r []) c v)

pub record GameState : Type 0 where
  pub size : ℕ
  pub grid : Grid
  pub solution : Grid
  pub empty_pos : ℕ × ℕ

-- `slide` has the two numbers of its text; `bad_slide` is a `slide` whose text is not two numbers.
pub data Command : Type 0 where
  slide : ℤ → ℤ → Command
  bad_slide up down left right view other : Command

pub data Response : Type 0 where
  unknown_command invalid_position not_adjacent invalid_format cannot_slide solved : Response
  slid : ℕ → Response
  max_moves_reached invalid_response viewing : Response

pub record StepResult : Type 0 where
  pub response : Response
  pub reward : ℕ
  pub is_terminated : Bool
  pub state : GameState

-- A row of the solved grid, and its rows from `r` on.
abbrev row_of : ℕ → ℕ → List ℕ
row_of size r = range_from (r * size + 1) size

unfoldable pub rows_from : ℕ → ℕ → ℕ → Grid
rows_from size r zero = []
rows_from size r (suc k) = row_of size r ∷ rows_from size (suc r) k

abbrev pub solved_grid : ℕ → Grid
solved_grid size = set_cell (rows_from size 0 size) (size - 1) (size - 1) 0

-- The tile at `p` goes into the empty cell.
abbrev pub slide_tile : GameState → ℕ × ℕ → GameState
slide_tile s p = record s {
  grid = set_cell (set_cell s.grid s.empty_pos.0 s.empty_pos.1 (cell s.grid p.0 p.1)) p.0 p.1 0;
  empty_pos = p;
}

-- `0 <= r < size and 0 <= c < size`
abbrev pub within : ℕ → ℕ × ℕ → Option (ℕ × ℕ)
within size p = if ltb p.0 size && ltb p.1 size then some p else none

-- The cell beside `p` in a direction, inside the grid.
abbrev pub beside_right : ℕ → ℕ × ℕ → Option (ℕ × ℕ)
beside_right size p = within size (p.0, suc p.1)

abbrev pub beside_down : ℕ → ℕ × ℕ → Option (ℕ × ℕ)
beside_down size p = within size (suc p.0, p.1)

abbrev pub beside_left : ℕ → ℕ × ℕ → Option (ℕ × ℕ)
beside_left size (r, zero) = none
beside_left size (r, suc c) = within size (r, c)

abbrev pub beside_up : ℕ → ℕ × ℕ → Option (ℕ × ℕ)
beside_up size (zero, c) = none
beside_up size (suc r, c) = within size (r, c)

abbrev keep_cell : Option (ℕ × ℕ) → List (ℕ × ℕ) → List (ℕ × ℕ)
keep_cell none cells = cells
keep_cell (some p) cells = p ∷ cells

abbrev pub moves : ℕ → ℕ × ℕ → List (ℕ × ℕ)
moves size p = keep_cell (beside_right size p) (
    keep_cell (beside_down size p)
      (keep_cell (beside_left size p) (keep_cell (beside_up size p) [])))

abbrev choose_move : GameState → ℕ → List (ℕ × ℕ) → GameState
choose_move s choice [] = s
choose_move s choice (p ∷ cells) = slide_tile s (get_or (p ∷ cells) (choice % length (p ∷ cells)) p)

-- The shuffling with the random choices `choices`. The swap of a tile with the empty cell, which
-- holds 0, is the slide of that tile.
unfoldable pub shuffle : List ℕ → GameState → GameState
shuffle [] s = s
shuffle (choice ∷ choices) s = shuffle choices (choose_move s choice (moves s.size s.empty_pos))

unfoldable pub generate : ℕ → List ℕ → GameState
unfolding rows_from shuffle
generate size choices = shuffle choices (record {
  size = size;
  grid = solved_grid size;
  solution = solved_grid size;
  empty_pos = (size - 1, size - 1);
})

-- `l == m` on rows and on grids
unfoldable pub same_row : List ℕ → List ℕ → Bool
same_row [] [] = true
same_row [] (y ∷ ys) = false
same_row (x ∷ xs) [] = false
same_row (x ∷ xs) (y ∷ ys) = x == y && same_row xs ys

unfoldable pub same_grid : Grid → Grid → Bool
unfolding same_row
same_grid [] [] = true
same_grid [] (y ∷ ys) = false
same_grid (x ∷ xs) [] = false
same_grid (x ∷ xs) (y ∷ ys) = same_row x y && same_grid xs ys

-- `int(text) - 1`, if it is not negative
abbrev to_index : ℤ → Option ℕ
to_index (negsuc n) = none
to_index (pos zero) = none
to_index (pos (suc n)) = some n

abbrev distance : ℕ → ℕ → ℕ
distance a b = (a - b) + (b - a)

-- The answer to a move that is not made.
abbrev pub refuse : Response → GameState → StepResult
refuse why s = record { response = why; reward = 0; is_terminated = false; state = s }

-- The answer to a move that is made.
unfoldable pub after_move : ℕ → GameState → StepResult
unfolding same_grid
after_move tile s =
    if same_grid s.grid s.solution
    then record { response = solved; reward = 1; is_terminated = true; state = s }
    else record { response = slid tile; reward = 0; is_terminated = false; state = s }

abbrev pub slide_from : GameState → Option (ℕ × ℕ) → StepResult
slide_from s none = refuse cannot_slide s
slide_from s (some p) = after_move (cell s.grid p.0 p.1) (slide_tile s p)

abbrev pub slide_at : GameState → Option ℕ → Option ℕ → StepResult
slide_at s none c = refuse invalid_position s
slide_at s (some r) none = refuse invalid_position s
slide_at s (some r) (some c) =
    if not (ltb r s.size && ltb c s.size)
    then refuse invalid_position s
    else if not (distance r s.empty_pos.0 + distance c s.empty_pos.1 == 1)
    then refuse not_adjacent s
    else after_move (cell s.grid r c) (slide_tile s (r, c))

unfoldable pub step : Command → GameState → StepResult
unfolding after_move
step (slide r c) s = slide_at s (to_index r) (to_index c)
step bad_slide s = refuse invalid_format s
step up s = slide_from s (beside_down s.size s.empty_pos)
step down s = slide_from s (beside_up s.size s.empty_pos)
step left s = slide_from s (beside_right s.size s.empty_pos)
step right s = slide_from s (beside_left s.size s.empty_pos)
step view s = refuse unknown_command s
step other s = refuse unknown_command s

pub record Metadata : Type 0 where
  pub game_state : GameState
  pub num_moves : ℕ
  pub max_moves : ℕ

pub record TurnResult : Type 0 where
  pub observation : Response
  pub turn_reward : ℕ
  pub terminated : Bool
  pub next_metadata : Option Metadata

abbrev pub after_step : Metadata → StepResult → TurnResult
after_step m r = record {
  observation = r.response;
  turn_reward = r.reward;
  terminated = r.is_terminated;
  next_metadata =
      if r.is_terminated
      then none
      else some (record m { game_state = r.state; num_moves = m.num_moves + 1 });
}

abbrev turn : Metadata → Option Command → TurnResult
turn m none = record {
  observation = invalid_response;
  turn_reward = 0;
  terminated = false;
  next_metadata = none;
}
turn m (some view) = record {
  observation = viewing;
  turn_reward = 0;
  terminated = false;
  next_metadata = some m;
}
turn m (some command) = after_step m (step command m.game_state)

-- The command is what `_parse_action` finds in the last message, if it finds one.
unfoldable pub process_turn : Option Command → Metadata → TurnResult
unfolding step
process_turn parsed m =
    if leb m.max_moves m.num_moves
    then record {
      observation = max_moves_reached;
      turn_reward = 0;
      terminated = true;
      next_metadata = none;
    }
    else turn m parsed
