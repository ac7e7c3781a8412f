-- ===== src/PackedTensor/Groups/Least.antt =====
-- When a group of nemo_rl/utils/packed_tensor.py is sent.
use ne_mo_rl.Common.{
  ℕ, ◌+◌, ◌≤◌, ◌<◌, ◌≡◌, refl, sym, ap, ◌∙◌, ◌⊎◌, inl, inr, Bool, true, false, List, [], ◌∷◌, ◌++◌,
  map, flatten, append_assoc, ltb, ltb→lt, if◌then◌else◌, sum_by, sum_by-append, All, arith,
}
use ne_mo_rl.PackedTensor.Groups.{map-append_one}
use ne_mo_rl.PackedTensor.{groups_after, groups}

module _ {A : Type 0} (w : A → ℕ) (target : ℕ) where
  -- Without its last item the group is within the target.
  abbrev pub IsLeast : List A → Type 0
  IsLeast g =
      (before : List A) × (last : A) × (g ≡ before ++ last ∷ []) × (sum_by w before ≤ target)

  -- Every group is least, and all but the last one are over the target.
  abbrev pub AreGroups : List (List A) → Type 0
  AreGroups [] = Unit
  AreGroups (g ∷ []) = IsLeast g
  AreGroups (g ∷ h ∷ gs) = IsLeast g × (target < sum_by w g) × AreGroups (h ∷ gs)

  cons-AreGroups :
      (g : List A) (gs : List (List A))
      → IsLeast g
      → target < sum_by w g
      → AreGroups gs
      → AreGroups (g ∷ gs)
  cons-AreGroups g [] l o h = l
  cons-AreGroups g (g' ∷ gs) l o h = (l, o, h)

  -- What is known of the open group.
  abbrev IsOpen : List A → Type 0
  IsOpen acc = ((acc ≡ []) ⊎ IsLeast acc) × (sum_by w acc ≤ target)

  append-IsLeast : (acc : List A) (x : A) → sum_by w acc ≤ target → IsLeast (acc ++ x ∷ [])
  append-IsLeast acc x h = (acc, x, refl, h)

  groups_after-AreGroups :
      (size : ℕ) (acc xs : List A)
      → size ≡ sum_by w acc
      → IsOpen acc
      → AreGroups (groups_after w target size acc xs)
  groups_after-AreGroups size [] [] e h = tt
  groups_after-AreGroups size (a ∷ acc) [] e (inl empty, small) = cc
  groups_after-AreGroups size (a ∷ acc) [] e (inr least, small) = least
  groups_after-AreGroups size acc (x ∷ xs) e (how, small) =
      let total : sum_by w (acc ++ x ∷ []) ≡ size + w x =
        sum_by-append w acc (x ∷ []) ∙ omega (arith, e) in
      by_test _ _ (ltb target (size + w x))
        (λ over.
          cons-AreGroups (acc ++ x ∷ []) (groups_after w target 0 [] xs)
            (append-IsLeast acc x small) (omega (arith, total, ltb→lt target (size + w x) over))
            (groups_after-AreGroups 0 [] xs refl (inl refl, omega arith)))
        (λ under.
          groups_after-AreGroups (size + w x) (acc ++ x ∷ []) xs (sym total)
            (inr (append-IsLeast acc x small), ground (arith, total, under)))
    where
      by_test :
          (gs hs : List (List A)) (over : Bool)
          → (over ≡ true → AreGroups gs)
          → (over ≡ false → AreGroups hs)
          → AreGroups (if over then gs else hs)
      by_test _ _ true h k = h refl
      by_test _ _ false h k = k refl

  flatten-groups_after :
      (size : ℕ) (acc xs : List A) → flatten (groups_after w target size acc xs) ≡ acc ++ xs
  unfolding flatten
  flatten-groups_after size [] [] = refl
  flatten-groups_after size (a ∷ acc) [] = refl
  flatten-groups_after size acc (x ∷ xs) =
      by_test _ _ _ (ltb target (size + w x))
        (ap (λ l. (acc ++ x ∷ []) ++ l) (flatten-groups_after 0 [] xs)
          ∙ append_assoc acc (x ∷ []) xs)
        (flatten-groups_after (size + w x) (acc ++ x ∷ []) xs ∙ append_assoc acc (x ∷ []) xs)
    where
      by_test :
          (gs hs : List (List A)) (l : List A) (over : Bool)
          → flatten gs ≡ l
          → flatten hs ≡ l
          → flatten (if over then gs else hs) ≡ l
      by_test _ _ _ true h k = h
      by_test _ _ _ false h k = k

  pub groups-AreGroups : (xs : List A) → AreGroups (groups w target xs)
  groups-AreGroups xs = groups_after-AreGroups 0 [] xs refl (inl refl, omega arith)

  pub flatten-groups : (xs : List A) → flatten (groups w target xs) ≡ xs
  flatten-groups = flatten-groups_after 0 []

-- Groups of items that are images are the images of groups.
module _ {A B : Type 0} (w : B → ℕ) (f : A → B) (target : ℕ) where
  pub groups_after-map :
      (size : ℕ) (acc xs : List A)
      → groups_after w target size (map f acc) (map f xs)
        ≡ map (map f) (groups_after (λ x. w (f x)) target size acc xs)
  groups_after-map size [] [] = refl
  groups_after-map size (a ∷ acc) [] = refl
  groups_after-map size acc (x ∷ xs) =
      let grown : map f acc ++ f x ∷ [] ≡ map f (acc ++ x ∷ []) = sym (map-append_one f acc x) in
      by_test _ _ _ _ (ltb target (size + w (f x)))
        (ap (λ l. l ∷ groups w target (map f xs)) grown
          ∙ ap (λ l. map f (acc ++ x ∷ []) ∷ l) (groups_after-map 0 [] xs))
        (ap (λ l. groups_after w target (size + w (f x)) l (map f xs)) grown
          ∙ groups_after-map (size + w (f x)) (acc ++ x ∷ []) xs)
    where
      by_test :
          (gs hs : List (List B)) (gs' hs' : List (List A)) (over : Bool)
          → gs ≡ map (map f) gs'
          → hs ≡ map (map f) hs'
          → (if over then gs else hs) ≡ map (map f) (if over then gs' else hs')
      by_test _ _ _ _ true h k = h
      by_test _ _ _ _ false h k = k

  pub groups-map :
      (xs : List A) → groups w target (map f xs) ≡ map (map f) (groups (λ x. w (f x)) target xs)
  groups-map = groups_after-map 0 []

-- Items that have the same weights form the same groups.
module _ {A : Type 0} (v w : A → ℕ) (target : ℕ) where
  groups_after_ext :
      (size : ℕ) (acc xs : List A)
      → All (λ x. v x ≡ w x) xs
      → groups_after v target size acc xs ≡ groups_after w target size acc xs
  groups_after_ext size acc [] h = refl
  groups_after_ext size acc (x ∷ xs) h =
      rw (h.0, groups_after_ext 0 [] xs h.1, groups_after_ext (size + w x) (acc ++ x ∷ []) xs h.1)

  pub groups_ext : (xs : List A) → All (λ x. v x ≡ w x) xs → groups v target xs ≡ groups w target xs
  groups_ext = groups_after_ext 0 []
