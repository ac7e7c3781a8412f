-- ===== src/PackedTensor.antt =====
-- The broadcast of a model's parameters in large pieces (nemo_rl/utils/packed_tensor.py). Both
-- functions take their items in rounds of the same form, each with its own buffers, which `Buffers`
-- holds.
pub mod Groups
pub mod Producer
pub mod Consumer
pub mod Transfer
mod Tests
use ne_mo_rl.Common.{
  ℕ, zero, suc, ◌+◌, ◌≡◌, Bool, true, false, List, [], ◌∷◌, ◌++◌, map, ltb, if◌then◌else◌, length,
  sum_by, Outcome, ok, raise,
}

-- `out_of_rounds` is no exception of the code: the fuel of `rounds` has run out.
pub data TransferError : Type 0 where
  zero_division out_of_rounds : TransferError

abbrev pub Bytes : Type 0
Bytes = List ℕ

-- What a round does to the buffers: `start_round` goes to the next one and empties it, `put` adds
-- an item, `packing_size` and `held` are the bytes and the items in it, `flush` is the broadcast
-- and what follows it.
pub record Buffers (Item State : Type 0) : Type 0 where
  pub start_round : State → State
  pub put : Item → State → State
  pub packing_size : State → ℕ
  pub held : State → ℕ
  pub flush : State → State

-- How the inner loop ended: over the target size with these items left, or for want of items.
pub data Round (Item State : Type 0) : Type 0 where
  full : List Item → State → Round Item State
  ended : State → Round Item State

unfoldable pub fill_buffer :
    {Item State : Type 0} → Buffers Item State → ℕ → List Item → State → Round Item State
fill_buffer b target [] st = ended st
fill_buffer b target (x ∷ items) st =
    let st' = b.put x st in
    let more = fill_buffer b target items st' in
    if ltb target (b.packing_size st') then full items st' else more

-- The outer loop. With the items gone, the last broadcast is of what is left.
unfoldable pub rounds :
    {Item State : Type 0}
    → ℕ
    → Buffers Item State
    → ℕ
    → List Item
    → State
    → Outcome TransferError State
unfolding fill_buffer
rounds zero b target items st = raise out_of_rounds
rounds (suc fuel) b target items st = elim (fill_buffer b target items (b.start_round st)) [
  | full rest st' ↦ rounds fuel b target rest (b.flush st')
  | ended st' ↦ ok (if ltb 0 (b.held st') then b.flush st' else st')
]

abbrev pub last_group : {A : Type 0} → List A → List (List A)
last_group [] = []
last_group (x ∷ xs) = (x ∷ xs) ∷ []

-- The groups that items of some weights form: a group ends with the item that takes it over the
-- target. The group that is open has the items `acc` and the weight `size`.
abbrev pub groups_after : {A : Type 0} → (A → ℕ) → ℕ → ℕ → List A → List A → List (List A)
groups_after w target size acc [] = last_group acc
groups_after w target size acc (x ∷ xs) =
    if ltb target (size + w x)
    then (acc ++ x ∷ []) ∷ groups_after w target 0 [] xs
    else groups_after w target (size + w x) (acc ++ x ∷ []) xs

abbrev pub groups : {A : Type 0} → (A → ℕ) → ℕ → List A → List (List A)
groups w target = groups_after w target 0 []

-- What buffers hold, in the terms of the items: the groups that have gone out and the open one.
pub record IsBuffers {Item State A : Type 0} (b : Buffers Item State) (pack : Item → A) (w : A → ℕ)
    (Holds : List (List A) → List A → State → Type 0) : Type 0 where
  pub start_round_lem :
      (gs : List (List A)) (acc : List A) (st : State)
      → Holds gs acc st
      → Holds gs [] (b.start_round st)
  pub put_lem :
      (x : Item) (gs : List (List A)) (acc : List A) (st : State)
      → Holds gs acc st
      → Holds gs (acc ++ pack x ∷ []) (b.put x st)
  pub packing_size_lem :
      (gs : List (List A)) (acc : List A) (st : State)
      → Holds gs acc st
      → b.packing_size st ≡ sum_by w acc
  pub held_lem :
      (gs : List (List A)) (acc : List A) (st : State) → Holds gs acc st → b.held st ≡ length acc
  pub flush_lem :
      (gs : List (List A)) (acc : List A) (st : State)
      → Holds gs acc st
      → Holds (gs ++ acc ∷ []) acc (b.flush st)
