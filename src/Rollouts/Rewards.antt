-- ===== src/Rollouts/Rewards.antt =====
-- `calculate_rewards` (nemo_rl/experience/rollouts.py).
use ne_mo_rl.Common.{
  ℕ, zero, suc, ◌+◌, ◌≡◌, refl, sym, ap, ◌∙◌, ◌==◌, ==_iff, Option, some, List, [], ◌∷◌, ◌++◌, map,
  ok, length, length-map, get_elem?, range_from, arith, All, All-append, inl, inr, Bool-cases,
  sum_by, sum_by-append, sum_by-map, sort_by, sum_by-sort_by, All-sort_by, sort_by-IsAscending,
}
use ne_mo_rl.Batch.{zip, first_le, select}
use ne_mo_rl.Batch.Columns.{select_all}
use ne_mo_rl.Batch.Reorder.{
  ascending_unique, range_from-IsAscending, firsts-IsAscending, first_le-TotalTest,
}
use ne_mo_rl.Rollouts.{Groups, add_to_group, task_groups, group_replies, calculate_rewards}

zip-map :
    {M R : Type 0} (f : M → R) (group : List (ℕ × M))
    → zip (map (λ p. p.0) group) (map f (map (λ p. p.1) group)) ≡ map (λ e. (e.0, f e.1)) group
unfolding zip
zip-map f [] = refl
zip-map f (e ∷ group) = ap (λ l. (e.0, f e.1) ∷ l) (zip-map f group)

get_elem?-map :
    {M R : Type 0} (f : M → R) (xs : List M) (i : ℕ) {x : M}
    → get_elem? xs i ≡ some x
    → get_elem? (map f xs) i ≡ some (f x)
get_elem?-map f [] i h = absurd cc
get_elem?-map f (y ∷ xs) zero h = let e : y ≡ _ = cc in ap (λ z. some (f z)) e
get_elem?-map f (y ∷ xs) (suc i) h = get_elem?-map f xs i h

-- Pairs of an index and the item at it
select_firsts :
    {R : Type 0} (wants : List R) (ps : List (ℕ × R))
    → All (λ p. get_elem? wants p.0 ≡ some p.1) ps
    → map (λ p. p.1) ps ≡ select (map (λ p. p.0) ps) wants
unfolding select
select_firsts wants [] h = refl
select_firsts wants (p ∷ ps) h = rw h.0 (ap (λ l. p.1 ∷ l) (select_firsts wants ps h.1))

module _ {M R : Type 0} (step : ℕ → Option (List M → List R)) (reply : ℕ → M → R)
    (batch : List (ℕ × M)) where
  -- The task has an environment, which answers each message by itself.
  abbrev pub Answers : ℕ → Type 0
  Answers task =
      (f : List M → List R) × (step task ≡ some f)
      × ((messages : List M) → f messages ≡ map (reply task) messages)

  -- A group of a task has samples of the task, with their indices.
  abbrev IsGroup : ℕ × List (ℕ × M) → Type 0
  IsGroup g = Answers g.0 × All (λ e. get_elem? batch e.0 ≡ some (g.0, e.1)) g.1

  abbrev weight : (ℕ → ℕ) → Groups M → ℕ
  weight w = sum_by (λ g. sum_by (λ e. w e.0) g.1)

  add_to_group-IsGroup :
      (task i : ℕ) (m : M) (groups : Groups M)
      → Answers task
      → get_elem? batch i ≡ some (task, m)
      → All IsGroup groups
      → All IsGroup (add_to_group task (i, m) groups)
  unfolding add_to_group
  add_to_group-IsGroup task i m [] ans at h = ((ans, (at, tt)), tt)
  add_to_group-IsGroup task i m ((t, group) ∷ groups) ans at h = elim (Bool-cases (t == task)) [
    | inl e ↦
        let here : get_elem? batch i ≡ some (t, m) =
          at ∙ ap (λ k. some (k, m)) (sym ((==_iff t task).0 e)) in
        rw e ((h.0.0, All-append _ group ((i, m) ∷ []) h.0.1 (here, tt)), h.1)
    | inr e ↦ rw e (h.0, add_to_group-IsGroup task i m groups ans at h.1)
  ]

  weight-add_to_group :
      (w : ℕ → ℕ) (task i : ℕ) (m : M) (groups : Groups M)
      → weight w (add_to_group task (i, m) groups) ≡ w i + weight w groups
  unfolding add_to_group
  weight-add_to_group w task i m [] = omega arith
  weight-add_to_group w task i m ((t, group) ∷ groups) = elim (Bool-cases (t == task)) [
    | inl e ↦ rw e (omega (arith, sum_by-append (λ e. w e.0) group ((i, m) ∷ [])))
    | inr e ↦ rw e (omega (arith, weight-add_to_group w task i m groups))
  ]

  task_groups-IsGroup :
      (i : ℕ) (rest : List (ℕ × M)) (groups : Groups M)
      → ((j : ℕ) → get_elem? batch (i + j) ≡ get_elem? rest j)
      → All (λ x. Answers x.0) rest
      → All IsGroup groups
      → All IsGroup (task_groups i rest groups)
        × ((w : ℕ → ℕ)
            → weight w (task_groups i rest groups)
              ≡ weight w groups + sum_by w (range_from i (length rest)))
  unfolding task_groups
  task_groups-IsGroup i [] groups at ans h = (h, λ w. omega arith)
  task_groups-IsGroup i ((task, m) ∷ rest) groups at ans h =
      let zero_on : i + 0 ≡ i = omega arith in
      let here : get_elem? batch i ≡ some (task, m) = ap (get_elem? batch) (sym zero_on) ∙ at 0 in
      let later : (j : ℕ) → get_elem? batch (suc i + j) ≡ get_elem? rest j = λ j.
        let next : suc i + j ≡ i + suc j = omega arith in ap (get_elem? batch) next ∙ at (suc j) in
      let (ok_groups, sums) =
        task_groups-IsGroup (suc i) rest (add_to_group task (i, m) groups) later ans.1
          (add_to_group-IsGroup task i m groups ans.0 here h) in
      (ok_groups, λ w. omega (arith, sums w, weight-add_to_group w task i m groups))

  abbrev wants : List R
  wants = map (λ x. reply x.0 x.1) batch

  abbrev IsReply : ℕ × R → Type 0
  IsReply p = get_elem? wants p.0 ≡ some p.1

  group-IsReply :
      (task : ℕ) (group : List (ℕ × M))
      → All (λ e. get_elem? batch e.0 ≡ some (task, e.1)) group
      → All IsReply (map (λ e. (e.0, reply task e.1)) group)
  group-IsReply task [] h = tt
  group-IsReply task (e ∷ group) h =
      (get_elem?-map (λ x. reply x.0 x.1) batch e.0 h.0, group-IsReply task group h.1)

  group_replies-IsReply :
      (groups : Groups M)
      → All IsGroup groups
      → (replies : List (ℕ × R)) × (group_replies step groups ≡ ok replies)
        × All IsReply replies
        × ((w : ℕ → ℕ) → sum_by (λ p. w p.0) replies ≡ weight w groups)
  unfolding group_replies
  group_replies-IsReply [] h = ([], refl, tt, λ w. refl)
  group_replies-IsReply ((task, group) ∷ groups) h =
      let (f, has, each) = h.0.0 in
      let (rest, e, good, sums) = group_replies-IsReply groups h.1 in
      let mine : List (ℕ × R) = map (λ x. (x.0, reply task x.1)) group in
      let same : zip (map (λ p. p.0) group) (f (map (λ p. p.1) group)) ≡ mine =
        ap (zip (map (λ p. p.0) group)) (each (map (λ p. p.1) group))
        ∙ zip-map (reply task) group in
      (
        mine ++ rest,
        rw has (rw e (ap (λ l. ok (l ++ rest)) same)),
        All-append IsReply mine rest (group-IsReply task group h.0.1) good,
        λ w. omega (
          arith,
          sum_by-append (λ p. w p.0) mine rest,
          sum_by-map {A = ℕ × M} {B = ℕ × R} (λ p. w p.0) (λ x. (x.0, reply task x.1)) group,
          sums w,
        ),
      )

  -- If every sample's task has an environment, and these answer each message by itself: the
  -- grouping by task and the sorting back raise nothing and return for every sample, in the order
  -- of the batch, the reply of its task's environment to its own message.
  pub calculate_rewards-map :
      All (λ x. Answers x.0) batch
      → calculate_rewards step batch ≡ ok (map (λ x. reply x.0 x.1) batch)
  unfolding calculate_rewards
  calculate_rewards-map ans =
      let (groups_ok, sums) =
        task_groups-IsGroup 0 batch [] (λ j. ap (get_elem? batch) (omega arith)) ans tt in
      let (replies, e, good, sums') = group_replies-IsReply (task_groups 0 batch []) groups_ok in
      let sorted : List (ℕ × R) = sort_by first_le replies in
      let firsts : map (λ p. p.0) sorted ≡ range_from 0 (length wants) =
        ascending_unique _ _
          (firsts-IsAscending sorted (sort_by-IsAscending first_le first_le-TotalTest replies))
          (range_from-IsAscending 0 (length wants))
          (λ w.
            sum_by-map w (λ p. p.0) sorted
            ∙ sum_by-sort_by first_le (λ p. w p.0) replies
            ∙ sums' w
            ∙ sums w
            ∙ (let same : length batch ≡ length wants = sym (length-map _ batch) in
                omega (arith, ap (λ n. sum_by w (range_from 0 n)) same))) in
      rw e (
        ap ok (
          select_firsts wants sorted (All-sort_by first_le IsReply replies good)
          ∙ ap (λ is. select is wants) firsts
          ∙ select_all wants))
