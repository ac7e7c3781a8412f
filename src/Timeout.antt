-- ===== src/Timeout.antt =====
-- `TimeoutChecker` and `convert_to_seconds` (nemo_rl/utils/timer.py). Times are whole seconds and
-- an argument of the methods that read the clock, which does not go back; a comparison with an
-- average is written with a multiplication. A time string is the list of its fields.
pub mod Once
pub mod Tests
use ne_mo_rl.Common.{
  ℕ, zero, suc, ◌+◌, ◌-◌, ◌*◌, ◌≤◌, Bool, true, false, ◌&&◌, Option, none, some, List, [], ◌∷◌,
  ◌++◌, ltb, leb, if◌then◌else◌, Outcome, ok, raise, ◌>>=◌, length, sum_by,
}

pub data TimeoutError : Type 0 where
  wrong_number_of_fields unbound_elapsed_time : TimeoutError

unfoldable pub convert_to_seconds : List ℕ → Outcome TimeoutError ℕ
convert_to_seconds (days ∷ hours ∷ minutes ∷ seconds ∷ []) =
    ok (days * 86400 + hours * 3600 + minutes * 60 + seconds)
convert_to_seconds _ = raise wrong_number_of_fields

-- No `last_save_time` stands for infinity.
pub record TimeoutChecker : Type 0 where
  pub last_save_time : Option ℕ
  pub start_time : ℕ
  pub last_saved : Bool
  pub iteration_times : List ℕ
  pub previous_iteration_time : Option ℕ
  pub fit_last_save_time : Bool

abbrev pub converted : Option (List ℕ) → Outcome TimeoutError (Option ℕ)
converted none = ok none
converted (some fields) = convert_to_seconds fields >>= λ n. ok (some n)

unfoldable pub init : Option (List ℕ) → Bool → ℕ → Outcome TimeoutError TimeoutChecker
unfolding convert_to_seconds
init timeout fit now = do
  limit ← converted timeout
  ok (record {
    last_save_time = limit;
    start_time = now;
    last_saved = false;
    iteration_times = [];
    previous_iteration_time = none;
    fit_last_save_time = fit;
  })

-- `elapsed_time >= last_save_time`
abbrev pub reached : ℕ → Option ℕ → Bool
reached elapsed none = false
reached elapsed (some limit) = leb limit elapsed

-- `elapsed_time + average_iteration_time >= last_save_time`
abbrev pub reached_with_average : ℕ → List ℕ → Option ℕ → Bool
reached_with_average elapsed times none = false
reached_with_average elapsed times (some limit) =
    leb (limit * length times) (elapsed * length times + sum_by (λ n. n) times)

abbrev pub mark_saved : TimeoutChecker → TimeoutChecker
mark_saved c = record c { last_saved = true }

unfoldable pub check_save : ℕ → TimeoutChecker → Bool × TimeoutChecker
check_save now c =
    let elapsed = now - c.start_time in
    let average =
      c.fit_last_save_time
      && ltb 0 (length c.iteration_times)
      && reached_with_average elapsed c.iteration_times c.last_save_time in
    if c.last_saved
    then (false, c)
    else if average
    then (true, mark_saved c)
    else if reached elapsed c.last_save_time
    then (true, mark_saved c)
    else (false, c)

unfoldable pub start_iterations : ℕ → TimeoutChecker → TimeoutChecker
start_iterations now c = record c { previous_iteration_time = some now }

-- Without an earlier time the local `elapsed_time` has no value.
abbrev pub mark_from : Option ℕ → ℕ → TimeoutChecker → Outcome TimeoutError TimeoutChecker
mark_from none now c = raise unbound_elapsed_time
mark_from (some earlier) now c = ok (record c {
  iteration_times = c.iteration_times ++ (now - earlier) ∷ [];
  previous_iteration_time = some now;
})

unfoldable pub mark_iteration : ℕ → TimeoutChecker → Outcome TimeoutError TimeoutChecker
mark_iteration now c = mark_from c.previous_iteration_time now c

-- What a training loop does with its checker, each at a time.
pub data TimeoutCall : Type 0 where
  starts checks marks : ℕ → TimeoutCall

-- The answers of `check_save` in a sequence of calls, and the checker after it.
unfoldable pub run_calls :
    List TimeoutCall → TimeoutChecker → Outcome TimeoutError (List Bool × TimeoutChecker)
unfolding check_save start_iterations mark_iteration
run_calls [] c = ok ([], c)
run_calls (starts now ∷ calls) c = run_calls calls (start_iterations now c)
run_calls (checks now ∷ calls) c = do
  rest ← run_calls calls (check_save now c).1
  ok ((check_save now c).0 ∷ rest.0, rest.1)
run_calls (marks now ∷ calls) c = do c' ← mark_iteration now c; run_calls calls c'
