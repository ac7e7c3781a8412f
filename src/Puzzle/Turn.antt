-- ===== src/Puzzle/Turn.antt =====
-- A turn of the game and its start (nemo_rl/environments/games/sliding_puzzle.py).
use ne_mo_rl.Common.{
  length-range_from, ℕ, zero, suc, ◌+◌, ◌-◌, ◌*◌, ◌%◌, ◌≤◌, ◌<◌, ◌≡◌, refl, ap, ◌⊎◌, true, Option,
  none, some, List, [], ◌∷◌, length, get_or, All, arith,
}
use native.Mathlib.Nat.{mod-lt}
use ne_mo_rl.Puzzle.{
  GameState, rows_from, solved_grid, shuffle, generate, moves, keep_cell, choose_move, Metadata,
  TurnResult,
}
use ne_mo_rl.Puzzle.Grid.{IsSquare, set_cell-IsSquare, cell-set_self, All-get_or}
use ne_mo_rl.Puzzle.Board.{
  IsBoard, Inside, Apart, Target, slide_tile-IsBoard, right-Target, down-Target, left-Target,
  up-Target,
}

-- What a turn hands on: a board, the same limit, and at most one move more, within the limit.
abbrev pub Continues : Metadata → Option Metadata → Type 0
Continues m none = Unit
Continues m (some n) =
    IsBoard n.game_state
    × (n.max_moves ≡ m.max_moves)
    × (m.num_moves ≤ n.num_moves)
    × (n.num_moves ≤ suc m.num_moves)
    × (n.num_moves ≤ m.max_moves)

-- A turn either finds the limit on moves reached and ends the game without a reward, or the limit
-- is not reached.
pub record IsTurn (m : Metadata) (r : TurnResult) : Type 0 where
  pub continues : Continues m r.next_metadata
  pub limit :
      ((m.max_moves ≤ m.num_moves)
        × (r.terminated ≡ true)
        × (r.turn_reward ≡ 0)
        × (r.next_metadata ≡ none))
      ⊎ (m.num_moves < m.max_moves)
  pub rewarded :
      ((r.turn_reward ≡ 1) × (r.terminated ≡ true) × (r.next_metadata ≡ none)) ⊎ (r.turn_reward ≡ 0)

rows_from-length : (size r k : ℕ) → length (rows_from size r k) ≡ k
unfolding rows_from
rows_from-length size r zero = refl
rows_from-length size r (suc k) = ap suc (rows_from-length size (suc r) k)

rows_from-All : (size r k : ℕ) → All (λ row. length row ≡ size) (rows_from size r k)
unfolding rows_from
rows_from-All size r zero = tt
rows_from-All size r (suc k) = (length-range_from (r * size + 1) size, rows_from-All size (suc r) k)

rows_from-IsSquare : (size : ℕ) → IsSquare size (rows_from size 0 size)
rows_from-IsSquare size = record {
  rows = rows_from-length size 0 size;
  columns = rows_from-All size 0 size;
}

abbrev start : ℕ → GameState
start size = record {
  size = size;
  grid = solved_grid size;
  solution = solved_grid size;
  empty_pos = (size - 1, size - 1);
}

start-IsBoard : (size : ℕ) → 1 ≤ size → IsBoard (start size)
start-IsBoard size one =
    let g = rows_from size 0 size in
    let last : size - 1 < size = omega (arith, one) in
    record {
      square = set_cell-IsSquare size g (rows_from-IsSquare size) (size - 1) (size - 1) last last 0;
      inside = (last, last);
      hole = cell-set_self size g (rows_from-IsSquare size) (size - 1) (size - 1) last last 0;
      numbers = λ w. refl;
    }

abbrev Reachable : GameState → ℕ × ℕ → Type 0
Reachable s p = Inside s.size p × Apart s.empty_pos p

kept-All :
    (s : GameState) (o : Option (ℕ × ℕ)) (cells : List (ℕ × ℕ))
    → Target s o
    → All (Reachable s) cells
    → All (Reachable s) (keep_cell o cells)
kept-All s none cells t h = h
kept-All s (some p) cells t h = (t, h)

moves-All : (s : GameState) → All (Reachable s) (moves s.size s.empty_pos)
moves-All s = kept-All s _ _ (right-Target s) (
    kept-All s _ _ (down-Target s) (
      kept-All s _ _ (left-Target s s.empty_pos refl)
        (kept-All s _ _ (up-Target s s.empty_pos refl) tt)))

chosen-IsBoard :
    (s : GameState) (choice : ℕ) (cells : List (ℕ × ℕ))
    → IsBoard s
    → All (Reachable s) cells
    → IsBoard (choose_move s choice cells)
chosen-IsBoard s choice [] b h = b
chosen-IsBoard s choice (p ∷ cells) b h =
    let n = length (p ∷ cells) in
    let lt : choice % n < n = mod-lt choice (omega arith) in
    let t = All-get_or (Reachable s) (p ∷ cells) (choice % n) p h lt in
    slide_tile-IsBoard s b (get_or (p ∷ cells) (choice % n) p) t.0 t.1

shuffled-IsBoard : (choices : List ℕ) (s : GameState) → IsBoard s → IsBoard (shuffle choices s)
unfolding shuffle
shuffled-IsBoard [] s b = b
shuffled-IsBoard (choice ∷ choices) s b =
    shuffled-IsBoard choices (choose_move s choice (moves s.size s.empty_pos))
      (chosen-IsBoard s choice (moves s.size s.empty_pos) b (moves-All s))

-- Whatever the random choices, a generated puzzle of size 1 or more is a board: a square grid with
-- the numbers of the solution, each as often, and 0 at the empty position.
pub generate-IsBoard : (size : ℕ) (choices : List ℕ) → 1 ≤ size → IsBoard (generate size choices)
unfolding generate
generate-IsBoard size choices one = shuffled-IsBoard choices (start size) (start-IsBoard size one)
