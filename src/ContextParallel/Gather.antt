-- ===== src/ContextParallel/Gather.antt =====
-- What the gather over context parallel ranks puts together (nemo_rl/distributed/model_utils.py).
use ne_mo_rl.Common.{
  ==_iff, Bool-cases, append-nil, take-append_first, drop-append_first, take-append-drop, insert_by,
  ℕ, ◌+◌, ◌-◌, ◌*◌, ◌/◌, ◌<◌, ◌≡◌, sym, ap, ◌∙◌, subst, ◌⊎◌, inl, inr, ◌≢◌, List, [], ◌∷◌, ◌++◌,
  map, flatten, ◌==◌, if◌then◌else◌, length, length-append, length-map, length-range_from, take,
  drop, range_from, sort_by, arith, map_ext_range,
}
use mathlib.Core.List.{map-map}
use ne_mo_rl.Batch.{zip}
use ne_mo_rl.Batch.Slices.{flatten-chunks}
use ne_mo_rl.ContextParallel.{
  shard_at, get_tokens_on_this_cp_rank, torch_chunk_two, chunk_indices, second_le, forward,
}
use ne_mo_rl.ContextParallel.Chunks.{
  chunk_indices-SameItems, flatten-pairs, sorted_chunks, length-shard_at, rank_tokens,
}

module _ {A : Type 0} where
  torch_chunk_two-append :
      (xs ys : List A) → length xs ≡ length ys → torch_chunk_two (xs ++ ys) ≡ xs ∷ ys ∷ []
  unfolding torch_chunk_two
  torch_chunk_two-append xs ys h =
      let total : length (xs ++ ys) ≡ length xs + length xs =
        length-append xs ys ∙ omega (arith, h) in
      let half : (length (xs ++ ys) + 1) / 2 ≡ length xs = omega (arith, total) in
      even_length (length (xs ++ ys)) (length xs) total _ _
      ∙ ap (λ n. take n (xs ++ ys) ∷ drop n (xs ++ ys) ∷ []) half
      ∙ ap (λ l. l ∷ drop (length xs) (xs ++ ys) ∷ []) (take-append_first xs ys)
      ∙ ap (λ l. xs ∷ l ∷ []) (drop-append_first xs ys)
    where
      even_length : {B : Type 0} (n m : ℕ) → n ≡ m + m → (x y : B) → (if n == 1 then x else y) ≡ y
      even_length n m e x y = ground arith

  forward_one : (xs : List A) → forward (xs ∷ []) ≡ xs
  unfolding forward torch_chunk_two zip sort_by flatten insert_by
  forward_one xs = elim (Bool-cases (length xs == 1)) [
    | inl one ↦ rw one (append-nil xs)
    | inr other ↦ rw other (
        ap (λ l. take ((length xs + 1) / 2) xs ++ l) (append-nil (drop ((length xs + 1) / 2) xs))
        ∙ take-append-drop ((length xs + 1) / 2) xs)
  ]

  -- The chunks of `2 * n` even ones that rank `r` has.
  rank_chunks :
      (n s r : ℕ) (xs : List A)
      → length xs ≡ (2 * n) * s
      → r < n
      → torch_chunk_two (shard_at s xs r ++ shard_at s xs (2 * n - r - 1))
        ≡ shard_at s xs r ∷ shard_at s xs (2 * n - r - 1) ∷ []
  rank_chunks n s r xs h below = torch_chunk_two-append _ _ (
      length-shard_at s r (2 * n) xs h (omega (arith, below))
      ∙ sym (length-shard_at s (2 * n - r - 1) (2 * n) xs h (omega (arith, below))))

  gather_several :
      (n s : ℕ) (xs : List A)
      → length xs ≡ (2 * n) * s
      → 0 < n
      → n ≢ 1
      → forward (map (λ r. get_tokens_on_this_cp_rank r n xs) (range_from 0 n)) ≡ xs
  unfolding forward
  gather_several n s xs h some several =
      let tokens : ℕ → List A = λ r. get_tokens_on_this_cp_rank r n xs in
      let count : length (map tokens (range_from 0 n)) ≡ n =
        length-map tokens (range_from 0 n) ∙ length-range_from 0 n in
      let chunks : flatten (map torch_chunk_two (map tokens (range_from 0 n)))
          ≡ map (shard_at s xs) (chunk_indices n) =
        ap flatten (
          map-map torch_chunk_two tokens (range_from 0 n)
          ∙ map_ext_range _ (λ r. shard_at s xs r ∷ shard_at s xs (2 * n - r - 1) ∷ []) 0 n
              (λ r below.
                ap torch_chunk_two (rank_tokens n s r xs h some several)
                ∙ rank_chunks n s r xs h (omega (arith, below))))
        ∙ flatten-pairs (shard_at s xs) (λ r. r) (λ r. 2 * n - r - 1) (range_from 0 n) in
      ap
        (λ m. flatten (
          map (λ p. p.0)
            (sort_by second_le (
              zip (flatten (map torch_chunk_two (map tokens (range_from 0 n))))
                (chunk_indices m)))))
        count
      ∙ ap (λ l. flatten (map (λ p. p.0) (sort_by second_le (zip l (chunk_indices n))))) chunks
      ∙ ap flatten
          (sorted_chunks (shard_at s xs) (chunk_indices n) (2 * n) (chunk_indices-SameItems n))
      ∙ flatten-chunks (2 * n) s xs h

  -- The gather puts the tokens of all ranks back into the sequence, if there is one rank, or there
  -- are ranks and the sequence is of even chunks, two for each rank.
  pub forward-get_tokens_on_this_cp_rank :
      (cp_size : ℕ) (input_ids : List A)
      → 0 < cp_size
      → (cp_size ≡ 1) ⊎ ((s : ℕ) × (length input_ids ≡ (2 * cp_size) * s))
      → forward (map (λ r. get_tokens_on_this_cp_rank r cp_size input_ids) (range_from 0 cp_size))
        ≡ input_ids
  unfolding get_tokens_on_this_cp_rank
  forward-get_tokens_on_this_cp_rank cp_size xs some (inl one) =
      subst (λ n. forward (map (λ r. get_tokens_on_this_cp_rank r n xs) (range_from 0 n)) ≡ xs)
        (sym one) (forward_one xs)
  forward-get_tokens_on_this_cp_rank cp_size xs some (inr (s, h)) =
      elim (Bool-cases (cp_size == 1)) [
        | inl one ↦
            subst
              (λ n. forward (map (λ r. get_tokens_on_this_cp_rank r n xs) (range_from 0 n)) ≡ xs)
              (sym ((==_iff cp_size 1).0 one)) (forward_one xs)
        | inr several ↦ gather_several cp_size s xs h some (λ one. ground (arith, one, several))
      ]
