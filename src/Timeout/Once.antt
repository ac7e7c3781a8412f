-- ===== src/Timeout/Once.antt =====
-- How often `check_save` of `TimeoutChecker` answers yes (nemo_rl/utils/timer.py).
use ne_mo_rl.Common.{
  ℕ, ◌+◌, ◌-◌, ◌≤◌, ◌≡◌, refl, sym, ap, ◌∙◌, ◌⊎◌, inl, inr, Bool, true, false, ◌||◌, Option, some,
  List, [], ◌∷◌, ◌++◌, ◌>>=◌, Outcome, ok, arith, if◌then◌else◌, sum_by,
}
use ne_mo_rl.Timeout.{
  TimeoutError, TimeoutChecker, TimeoutCall, starts, checks, marks, reached, check_save,
  start_iterations, mark_iteration, run_calls, mark_saved, mark_from,
}

abbrev pub bit : Bool → ℕ
bit true = 1
bit false = 0

-- The number of times that the answer is yes
abbrev pub yes_count : List Bool → ℕ
yes_count = sum_by bit

-- Whether one of the checks comes when the limit is reached.
abbrev pub late_check : ℕ → Option ℕ → List TimeoutCall → Bool
late_check start limit [] = false
late_check start limit (starts now ∷ calls) = late_check start limit calls
late_check start limit (checks now ∷ calls) =
    reached (now - start) limit || late_check start limit calls
late_check start limit (marks now ∷ calls) = late_check start limit calls

-- What a check changes.
record IsChecked (now : ℕ) (c : TimeoutChecker) (answer : Bool) (after : TimeoutChecker)
    : Type 0 where
  saved : bit answer + bit c.last_saved ≡ bit after.last_saved
  previous : after.previous_iteration_time ≡ c.previous_iteration_time
  start : after.start_time ≡ c.start_time
  limit : after.last_save_time ≡ c.last_save_time
  in_time : (reached (now - c.start_time) c.last_save_time ≡ false) ⊎ (after.last_saved ≡ true)

unchanged :
    (now : ℕ) (c : TimeoutChecker)
    → (reached (now - c.start_time) c.last_save_time ≡ false) ⊎ (c.last_saved ≡ true)
    → IsChecked now c false c
unchanged now c h = record {
  saved = omega arith;
  previous = refl;
  start = refl;
  limit = refl;
  in_time = h;
}

now_saved :
    (now : ℕ) (c : TimeoutChecker) → c.last_saved ≡ false → IsChecked now c true (mark_saved c)
now_saved now c h = record {
  saved = omega (arith, ap bit h);
  previous = refl;
  start = refl;
  limit = refl;
  in_time = inr refl;
}

-- One of two results, by a test
by_test :
    (P : Bool × TimeoutChecker → Type 0) (b : Bool) (x y : Bool × TimeoutChecker)
    → (b ≡ true → P x)
    → (b ≡ false → P y)
    → P (if b then x else y)
by_test P true x y hx hy = hx refl
by_test P false x y hx hy = hy refl

abbrev IsAnswer : ℕ → TimeoutChecker → Bool × TimeoutChecker → Type 0
IsAnswer now c r = IsChecked now c r.0 r.1

check_save-IsAnswer : (now : ℕ) (c : TimeoutChecker) → IsAnswer now c (check_save now c)
unfolding check_save
check_save-IsAnswer now c =
    by_test (IsAnswer now c) c.last_saved _ _ (λ done. unchanged now c (inr done))
      (λ open_yet.
        by_test (IsAnswer now c) _ _ _ (λ average. now_saved now c open_yet)
          (λ below.
            by_test (IsAnswer now c) (reached (now - c.start_time) c.last_save_time) _ _
              (λ late. now_saved now c open_yet) (λ early. unchanged now c (inl early))))

bit-true : (b : Bool) → 1 ≤ bit b → b ≡ true
bit-true true h = refl
bit-true false h = absurd (omega arith)

bit-le-one : (b : Bool) → bit b ≤ 1
bit-le-one true = omega arith
bit-le-one false = omega arith

or_late : (a b : Bool) {S : Type 0} → (a ≡ false) ⊎ S → (b ≡ false) ⊎ S → ((a || b) ≡ false) ⊎ S
or_late a b (inr s) hb = inr s
or_late true b (inl e) hb = absurd cc
or_late false b (inl e) hb = hb

-- What the calls come to, from a checker with `saved` noted.
abbrev Result :
    ℕ
    → Option ℕ
    → Bool
    → List TimeoutCall
    → Outcome TimeoutError (List Bool × TimeoutChecker)
    → Type 0
Result start limit saved calls result =
    (answers : List Bool) × (after : TimeoutChecker) × (result ≡ ok (answers, after))
    × (yes_count answers + bit saved ≡ bit after.last_saved)
    × ((late_check start limit calls ≡ false) ⊎ (after.last_saved ≡ true))

run_calls-Result :
    (calls : List TimeoutCall) (c : TimeoutChecker) (previous start : ℕ) (limit : Option ℕ)
    → c.previous_iteration_time ≡ some previous
    → c.start_time ≡ start
    → c.last_save_time ≡ limit
    → Result start limit c.last_saved calls (run_calls calls c)
unfolding run_calls start_iterations mark_iteration
run_calls-Result [] c previous start limit hp hs hl = ([], c, refl, omega arith, inl refl)
run_calls-Result (starts now ∷ calls) c previous start limit hp hs hl =
    run_calls-Result calls (start_iterations now c) now start limit refl hs hl
run_calls-Result (checks now ∷ calls) c previous start limit hp hs hl =
    let k : IsAnswer now c (check_save now c) = check_save-IsAnswer now c in
    let (answers, after, e, count, late) =
      run_calls-Result calls (check_save now c).1 previous start limit (k.previous ∙ hp)
        (k.start ∙ hs) (k.limit ∙ hl) in
    (
      (check_save now c).0 ∷ answers,
      after,
      rw e refl,
      omega (arith, count, k.saved),
      or_late (reached (now - start) limit) (late_check start limit calls)
          (elim k.in_time [
            | inl early ↦ inl (
                ap (λ s. reached (now - s) limit) (sym hs)
                ∙ ap (λ l. reached (now - c.start_time) l) (sym hl)
                ∙ early)
            | inr saved ↦ inr (bit-true after.last_saved (omega (arith, count, ap bit saved)))
          ])
          late,
    )
run_calls-Result (marks now ∷ calls) c previous start limit hp hs hl =
    let next : TimeoutChecker = record {
      last_save_time = c.last_save_time;
      start_time = c.start_time;
      last_saved = c.last_saved;
      iteration_times = c.iteration_times ++ (now - previous) ∷ [];
      previous_iteration_time = some now;
      fit_last_save_time = c.fit_last_save_time;
    } in
    let marked : mark_from c.previous_iteration_time now c ≡ ok next =
      ap (λ p. mark_from p now c) hp in
    let (answers, after, e, count, late) = run_calls-Result calls next now start limit refl hs hl in
    (answers, after, ap (λ o. o >>= run_calls calls) marked ∙ e, count, late)

-- A checker that has not saved, iterations that are started first, and then checks, marks and
-- starts in any order at any times: no call raises, `check_save` answers yes at most once, and if
-- it is asked once when the limit is reached, it answers yes exactly once.
pub run_calls_once :
    (c : TimeoutChecker) (begin : ℕ) (calls : List TimeoutCall)
    → c.last_saved ≡ false
    → (answers : List Bool) × (after : TimeoutChecker) × (run_calls (starts begin ∷ calls) c
        ≡ ok (answers, after))
      × (yes_count answers ≤ 1)
      × ((late_check c.start_time c.last_save_time calls ≡ false) ⊎ (yes_count answers ≡ 1))
unfolding run_calls start_iterations
run_calls_once c begin calls open_yet =
    let (answers, after, e, count, late) =
      run_calls-Result calls (start_iterations begin c) begin c.start_time c.last_save_time refl
        refl refl in
    let exact : yes_count answers ≡ bit after.last_saved = omega (arith, count, ap bit open_yet) in
    (
      answers,
      after,
      e,
      omega (arith, exact, bit-le-one after.last_saved),
      elim late [ inl never ↦ inl never | inr saved ↦ inr (exact ∙ ap bit saved) ],
    )
