-- ===== src/Puzzle/Board.antt =====
-- The board and the moves (nemo_rl/environments/games/sliding_puzzle.py).
use ne_mo_rl.Common.{
  ℕ, zero, suc, ◌+◌, ◌<◌, ◌≡◌, ◌≢◌, refl, sym, ap, ◌∙◌, ◌⊎◌, inl, inr, Bool, true, false, ◌&&◌, not,
  Option, none, some, ltb, ◌==◌, if◌then◌else◌, flatten, sum_by, sum_by-flatten, SameItems, arith,
  Bool-cases,
}
use ne_mo_rl.Puzzle.{
  Grid, cell, set_cell, GameState, Command, slide, bad_slide, up, down, left, right, view, other,
  StepResult, slide_tile, within, beside_right, beside_down, beside_left, beside_up, same_grid,
  same_row, to_index, distance, refuse, after_move, slide_from, slide_at, step,
}
use ne_mo_rl.Puzzle.Grid.{
  IsSquare, set_cell-IsSquare, cell-set_self, cell-set_other, sum_by-set_cell,
}

abbrev pub Inside : ℕ → ℕ × ℕ → Type 0
Inside size p = (p.0 < size) × (p.1 < size)

abbrev pub Apart : ℕ × ℕ → ℕ × ℕ → Type 0
Apart p q = (p.0 ≢ q.0) ⊎ (p.1 ≢ q.1)

-- A square grid whose empty position is inside and holds 0, with the numbers of the solution,
-- each as often.
pub record IsBoard (s : GameState) : Type 0 where
  pub square : IsSquare s.size s.grid
  pub inside : Inside s.size s.empty_pos
  pub hole : cell s.grid s.empty_pos.0 s.empty_pos.1 ≡ 0
  pub numbers : SameItems (flatten s.grid) (flatten s.solution)

module _ (s : GameState) (b : IsBoard s) (p : ℕ × ℕ) (i : Inside s.size p)
    (apart : Apart s.empty_pos p) where
  abbrev tile : ℕ
  tile = cell s.grid p.0 p.1

  abbrev filled : Grid
  filled = set_cell s.grid s.empty_pos.0 s.empty_pos.1 tile

  filled-IsSquare : IsSquare s.size filled
  filled-IsSquare =
      set_cell-IsSquare s.size s.grid b.square s.empty_pos.0 s.empty_pos.1 b.inside.0 b.inside.1
        tile

  same_tile : cell filled p.0 p.1 ≡ tile
  same_tile =
      cell-set_other s.size s.grid b.square s.empty_pos.0 s.empty_pos.1 b.inside.0 b.inside.1 tile
        p.0 p.1 apart

  moved_sum : (w : ℕ → ℕ) → sum_by (sum_by w) (slide_tile s p).grid ≡ sum_by (sum_by w) s.grid
  moved_sum w = omega (
    arith,
    sum_by-set_cell s.size s.grid b.square s.empty_pos.0 s.empty_pos.1 b.inside.0 b.inside.1 tile w,
    sum_by-set_cell s.size filled filled-IsSquare p.0 p.1 i.0 i.1 0 w,
    ap w same_tile,
    ap w b.hole,
  )

  pub slide_tile-IsBoard : IsBoard (slide_tile s p)
  slide_tile-IsBoard = record {
    square = set_cell-IsSquare s.size filled filled-IsSquare p.0 p.1 i.0 i.1 0;
    inside = i;
    hole = cell-set_self s.size filled filled-IsSquare p.0 p.1 i.0 i.1 0;
    numbers = λ w.
        sum_by-flatten w (slide_tile s p).grid
        ∙ moved_sum w
        ∙ sym (sum_by-flatten w s.grid)
        ∙ b.numbers w;
  }

-- What a cell that a move may go to must be.
abbrev pub Target : GameState → Option (ℕ × ℕ) → Type 0
Target s none = Unit
Target s (some p) = Inside s.size p × Apart s.empty_pos p

within-Target : (s : GameState) (p : ℕ × ℕ) → Apart s.empty_pos p → Target s (within s.size p)
within-Target s p a = elim (Bool-cases (ltb p.0 s.size && ltb p.1 s.size)) [
  | inl e ↦ rw e ((ground (arith, e), ground (arith, e)), a)
  | inr e ↦ rw e tt
]

pub right-Target : (s : GameState) → Target s (beside_right s.size s.empty_pos)
right-Target s = within-Target s (s.empty_pos.0, suc s.empty_pos.1) (inr (λ e. omega (arith, e)))

pub down-Target : (s : GameState) → Target s (beside_down s.size s.empty_pos)
down-Target s = within-Target s (suc s.empty_pos.0, s.empty_pos.1) (inl (λ e. omega (arith, e)))

pub left-Target : (s : GameState) (q : ℕ × ℕ) → s.empty_pos ≡ q → Target s (beside_left s.size q)
left-Target s (r, zero) e = tt
left-Target s (r, suc c) e = within-Target s (r, c) (inr (λ f. omega (arith, f, ap (λ x. x.1) e)))

pub up-Target : (s : GameState) (q : ℕ × ℕ) → s.empty_pos ≡ q → Target s (beside_up s.size q)
up-Target s (zero, c) e = tt
up-Target s (suc r, c) e = within-Target s (r, c) (inl (λ f. omega (arith, f, ap (λ x. x.0) e)))

-- The result of a step from `s`: a board, which is `s` itself if the move is refused; the game is
-- over, with the reward 1, exactly when a move made the grid the solution.
pub record IsStep (s : GameState) (r : StepResult) : Type 0 where
  pub board : IsBoard r.state
  pub same_size : r.state.size ≡ s.size
  pub same_solution : r.state.solution ≡ s.solution
  pub outcome :
      ((r.is_terminated ≡ true) × (r.reward ≡ 1) × (same_grid r.state.grid s.solution ≡ true))
      ⊎ ((r.is_terminated ≡ false)
          × (r.reward ≡ 0)
          × ((r.state ≡ s) ⊎ (same_grid r.state.grid s.solution ≡ false)))

refuse-IsStep :
    (why : ne_mo_rl.Puzzle.Response) (s : GameState) → IsBoard s → IsStep s (refuse why s)
refuse-IsStep why s b = record {
  board = b;
  same_size = refl;
  same_solution = refl;
  outcome = inr (refl, refl, inl refl);
}

after_move-IsStep :
    (n : ℕ) (s : GameState) (p : ℕ × ℕ)
    → IsBoard s
    → Inside s.size p
    → Apart s.empty_pos p
    → IsStep s (after_move n (slide_tile s p))
unfolding after_move
after_move-IsStep n s p b i a =
    let moved = slide_tile-IsBoard s b p i a in
    elim (Bool-cases (same_grid (slide_tile s p).grid s.solution)) [
      | inl e ↦ rw e (record {
        board = moved;
        same_size = refl;
        same_solution = refl;
        outcome = inl (refl, refl, e);
      })
      | inr e ↦ rw e (record {
        board = moved;
        same_size = refl;
        same_solution = refl;
        outcome = inr (refl, refl, inr e);
      })
    ]

slide_from-IsStep :
    (s : GameState) (o : Option (ℕ × ℕ)) → IsBoard s → Target s o → IsStep s (slide_from s o)
slide_from-IsStep s none b t = refuse-IsStep _ s b
slide_from-IsStep s (some p) b t = after_move-IsStep _ s p b t.0 t.1

either-IsStep :
    (s : GameState) (test : Bool) (x y : StepResult)
    → (test ≡ true → IsStep s x)
    → (test ≡ false → IsStep s y)
    → IsStep s (if test then x else y)
either-IsStep s true x y h k = h refl
either-IsStep s false x y h k = k refl

Apart-at_distance : (p q : ℕ × ℕ) → distance q.0 p.0 + distance q.1 p.1 == 1 ≡ true → Apart p q
Apart-at_distance p q h = elim (Bool-cases (p.0 == q.0)) [
  | inl e ↦ inr (λ f. ground (arith, h, e, f))
  | inr e ↦ inl (λ f. ground (arith, e, f))
]

slide_at-IsStep : (s : GameState) (r c : Option ℕ) → IsBoard s → IsStep s (slide_at s r c)
slide_at-IsStep s none c b = refuse-IsStep _ s b
slide_at-IsStep s (some r) none b = refuse-IsStep _ s b
slide_at-IsStep s (some r) (some c) b =
    either-IsStep s (not (ltb r s.size && ltb c s.size)) _ _ (λ e. refuse-IsStep _ s b)
      (λ e.
        either-IsStep s (not (distance r s.empty_pos.0 + distance c s.empty_pos.1 == 1)) _ _
          (λ f. refuse-IsStep _ s b)
          (λ f.
            after_move-IsStep _ s (r, c) b (ground (arith, e), ground (arith, e))
              (Apart-at_distance s.empty_pos (r, c) (ground (arith, f)))))

-- From a board every command leads to a board of the same size and solution: the grid is a square
-- with the numbers of the solution, each as often, and the empty position holds 0. The game ends,
-- with the reward 1, only when the grid is the solution; otherwise the reward is 0, and the state
-- stays or the grid is not the solution.
pub step-IsStep : (command : Command) (s : GameState) → IsBoard s → IsStep s (step command s)
unfolding step
step-IsStep (slide r c) s b = slide_at-IsStep s (to_index r) (to_index c) b
step-IsStep bad_slide s b = refuse-IsStep _ s b
step-IsStep up s b = slide_from-IsStep s _ b (down-Target s)
step-IsStep down s b = slide_from-IsStep s _ b (up-Target s s.empty_pos refl)
step-IsStep left s b = slide_from-IsStep s _ b (right-Target s)
step-IsStep right s b = slide_from-IsStep s _ b (left-Target s s.empty_pos refl)
step-IsStep view s b = refuse-IsStep _ s b
step-IsStep other s b = refuse-IsStep _ s b
