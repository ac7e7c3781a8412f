-- ===== src/PackedTensor/Groups.antt =====
-- The groups that the rounds of nemo_rl/utils/packed_tensor.py form.
pub mod Least
use ne_mo_rl.Common.{
  ℕ, zero, suc, ◌+◌, ◌<◌, ◌≡◌, refl, sym, ap, ◌∙◌, Bool, true, false, List, [], ◌∷◌, ◌++◌, map,
  append-nil, append_assoc, ltb, if◌then◌else◌, ◌==◌, length, sum_by, sum_by-append, subst, Outcome,
  ok, raise, arith,
}
use ne_mo_rl.PackedTensor.{
  TransferError, Round, full, ended, Buffers, fill_buffer, rounds, last_group, groups_after, groups,
  IsBuffers,
}

pub map-append_one :
    {A B : Type 0} (f : A → B) (xs : List A) (x : A) → map f (xs ++ x ∷ []) ≡ map f xs ++ f x ∷ []
map-append_one f [] x = refl
map-append_one f (y ∷ xs) x = ap (λ l. f y ∷ l) (map-append_one f xs x)

pub map_id : {A : Type 0} (xs : List A) → map (λ x. x) xs ≡ xs
map_id [] = refl
map_id (x ∷ xs) = ap (λ l. x ∷ l) (map_id xs)

last_group_lem :
    {A : Type 0} (acc : List A) → last_group acc ≡ (if ltb 0 (length acc) then acc ∷ [] else [])
last_group_lem [] = refl
last_group_lem (a ∷ acc) = ground arith

module _ {Item State A : Type 0} (b : Buffers Item State) (pack : Item → A) (w : A → ℕ)
    (Holds : List (List A) → List A → State → Type 0) (laws : IsBuffers b pack w Holds)
    (target : ℕ) where
  -- What a round leaves: the group it formed with the items left, or the last group.
  abbrev FilledFull : List (List A) → List A → List Item → List Item → State → Type 0
  FilledFull gs acc items rest st' =
      (g : List A) × Holds gs g st'
      × (length rest < length items)
      × (groups_after w target (sum_by w acc) acc (map pack items)
          ≡ g ∷ groups w target (map pack rest))

  abbrev FilledLast : List (List A) → List A → List Item → State → Type 0
  FilledLast gs acc items st' =
      (g : List A) × Holds gs g st'
      × (groups_after w target (sum_by w acc) acc (map pack items)
          ≡ (if ltb 0 (length g) then g ∷ [] else []))

  abbrev Filled : List (List A) → List A → List Item → Round Item State → Type 0
  Filled gs acc items (full rest st') = FilledFull gs acc items rest st'
  Filled gs acc items (ended st') = FilledLast gs acc items st'

  put_size :
      (x : Item) (gs : List (List A)) (acc : List A) (st : State)
      → Holds gs acc st
      → b.packing_size (b.put x st) ≡ sum_by w acc + w (pack x)
  put_size x gs acc st h =
      laws.packing_size_lem gs (acc ++ pack x ∷ []) (b.put x st) (laws.put_lem x gs acc st h)
      ∙ sum_by-append w acc (pack x ∷ [])
      ∙ omega arith

  -- One item more in the open group, when it stays open.
  groups_after_open :
      (x : Item) (items : List Item) (acc : List A)
      → ltb target (sum_by w acc + w (pack x)) ≡ false
      → groups_after w target (sum_by w acc) acc (map pack (x ∷ items))
        ≡ groups_after w target
            (sum_by w (acc ++ pack x ∷ []))
            (acc ++ pack x ∷ [])
            (map pack items)
  groups_after_open x items acc under =
      let e : sum_by w (acc ++ pack x ∷ []) ≡ sum_by w acc + w (pack x) =
        sum_by-append w acc (pack x ∷ []) ∙ omega arith in
      rw (under, e)

  fill_buffer-step :
      (over : Bool) (x : Item) (items : List Item) (gs : List (List A)) (acc : List A) (st : State)
      (more : Round Item State)
      → over ≡ ltb target (sum_by w acc + w (pack x))
      → Holds gs (acc ++ pack x ∷ []) st
      → Filled gs (acc ++ pack x ∷ []) items more
      → Filled gs acc (x ∷ items) (if over then full items st else more)
  fill_buffer-step true x items gs acc st more e h next =
      (acc ++ pack x ∷ [], h, omega arith, rw (← e))
  fill_buffer-step false x items gs acc st (full rest st') e h next =
      let (g, hg, less, eq) = next in
      (g, hg, omega (arith, less), groups_after_open x items acc (sym e) ∙ eq)
  fill_buffer-step false x items gs acc st (ended st') e h next =
      let (g, hg, eq) = next in (g, hg, groups_after_open x items acc (sym e) ∙ eq)

  fill_buffer-Filled :
      (items : List Item) (gs : List (List A)) (acc : List A) (st : State)
      → Holds gs acc st
      → Filled gs acc items (fill_buffer b target items st)
  unfolding fill_buffer
  fill_buffer-Filled [] gs acc st h = (acc, h, last_group_lem acc)
  fill_buffer-Filled (x ∷ items) gs acc st h =
      let h' = laws.put_lem x gs acc st h in
      fill_buffer-step (ltb target (b.packing_size (b.put x st))) x items gs acc (b.put x st)
        (fill_buffer b target items (b.put x st)) (ap (λ n. ltb target n) (put_size x gs acc st h))
        h' (fill_buffer-Filled items gs (acc ++ pack x ∷ []) (b.put x st) h')

  -- What the rounds come to.
  abbrev Ends : List (List A) → List Item → Outcome TransferError State → Type 0
  Ends gs items (raise e) = ⊥
  Ends gs items (ok st) = (acc : List A) × Holds (gs ++ groups w target (map pack items)) acc st

  full-Ends :
      (gs : List (List A)) (g : List A) (items rest : List Item) (out : Outcome TransferError State)
      → groups w target (map pack items) ≡ g ∷ groups w target (map pack rest)
      → Ends (gs ++ g ∷ []) rest out
      → Ends gs items out
  full-Ends gs g items rest (raise e) eq h = h
  full-Ends gs g items rest (ok st) eq (acc, h) = (
    acc,
    subst (λ l. Holds l acc st)
        (append_assoc gs (g ∷ []) (groups w target (map pack rest)) ∙ ap (λ l. gs ++ l) (sym eq)) h,
  )

  last_flush :
      (some : Bool) (gs : List (List A)) (g : List A) (items : List Item) (st : State)
      → groups w target (map pack items) ≡ (if some then g ∷ [] else [])
      → Holds gs g st
      → Ends gs items (ok (if some then b.flush st else st))
  last_flush true gs g items st eq h =
      (g, subst (λ l. Holds (gs ++ l) g (b.flush st)) (sym eq) (laws.flush_lem gs g st h))
  last_flush false gs g items st eq h =
      (g, subst (λ l. Holds l g st) (sym (append-nil gs) ∙ ap (λ l. gs ++ l) (sym eq)) h)

  last-Ends :
      (gs : List (List A)) (g : List A) (items : List Item) (st : State)
      → groups w target (map pack items) ≡ (if ltb 0 (length g) then g ∷ [] else [])
      → Holds gs g st
      → Ends gs items (ok (if ltb 0 (b.held st) then b.flush st else st))
  last-Ends gs g items st eq h =
      subst (λ n. Ends gs items (ok (if ltb 0 n then b.flush st else st)))
        (sym (laws.held_lem gs g st h)) (last_flush (ltb 0 (length g)) gs g items st eq h)

  round-Ends :
      (fuel : ℕ) (items : List Item) (gs : List (List A))
      → ((rest : List Item) (g : List A) (st : State)
          → length rest < length items
          → Holds (gs ++ g ∷ []) g st
          → Ends (gs ++ g ∷ []) rest (rounds fuel b target rest st))
      → (r : Round Item State) → Filled gs [] items r
      → Ends gs items (elim r [
        | full rest st ↦ rounds fuel b target rest (b.flush st)
        | ended st ↦ ok (if ltb 0 (b.held st) then b.flush st else st)
      ])
  round-Ends fuel items gs again (full rest st) (g, hg, less, eq) =
      full-Ends gs g items rest (rounds fuel b target rest (b.flush st)) eq
        (again rest g (b.flush st) less (laws.flush_lem gs g st hg))
  round-Ends fuel items gs again (ended st) (g, hg, eq) = last-Ends gs g items st eq hg

  rounds-Ends :
      (fuel : ℕ) (items : List Item) (gs : List (List A)) (acc : List A) (st : State)
      → length items < fuel
      → Holds gs acc st
      → Ends gs items (rounds fuel b target items st)
  unfolding rounds fill_buffer
  rounds-Ends zero items gs acc st enough h = absurd (omega (arith, enough))
  rounds-Ends (suc fuel) items gs acc st enough h =
      round-Ends fuel items gs
        (λ rest g st' less.
          rounds-Ends fuel rest (gs ++ g ∷ []) g st' (omega (arith, less, enough)))
        (fill_buffer b target items (b.start_round st))
        (fill_buffer-Filled items gs [] (b.start_round st) (laws.start_round_lem gs acc st h))

  ok_of_Ends :
      (gs : List (List A)) (items : List Item) (out : Outcome TransferError State)
      → Ends gs items out
      → (acc : List A) × (st : State) × (out ≡ ok st)
        × Holds (gs ++ groups w target (map pack items)) acc st
  ok_of_Ends gs items (ok st) (acc, h) = (acc, st, refl, h)
  ok_of_Ends gs items (raise e) h = elim h [ ]

  -- One round for each item, and one more, are enough to send the groups of the items.
  pub rounds_lem :
      (items : List Item) (acc : List A) (st : State)
      → Holds [] acc st
      → (acc' : List A) × (st' : State) × (rounds (suc (length items)) b target items st ≡ ok st')
        × Holds (groups w target (map pack items)) acc' st'
  rounds_lem items acc st h =
      ok_of_Ends [] items (rounds (suc (length items)) b target items st)
        (rounds-Ends (suc (length items)) items [] acc st (omega arith) h)
