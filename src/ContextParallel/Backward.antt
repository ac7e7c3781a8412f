-- ===== src/ContextParallel/Backward.antt =====
-- What the gradient of a rank's tokens is (nemo_rl/distributed/model_utils.py).
use ne_mo_rl.Common.{
  if_true, if_false, if_ne_zero, ==_iff, raise, Bool-cases, ℕ, ◌-◌, ◌*◌, ◌/◌, ◌<◌, ◌≡◌, sym, ap,
  ◌∙◌, subst, ◌⊎◌, inl, inr, ◌≢◌, List, ◌++◌, ◌==◌, length, ok, arith,
}
use native.Mathlib.Nat.{suc-mul, mul-div_cancel_left}
use ne_mo_rl.Batch.{slice_list}
use ne_mo_rl.Batch.Slices.{slice_list-append, slice_list_whole}
use ne_mo_rl.ContextParallel.{shard_at, get_tokens_on_this_cp_rank, backward, invalid_view}
use ne_mo_rl.ContextParallel.Chunks.{rank_tokens}

module _ {A : Type 0} where
  two_shards :
      (s r : ℕ) (xs : List A)
      → length xs ≡ (2 * 1) * s
      → r < 1
      → shard_at s xs r ++ shard_at s xs (2 * 1 - r - 1) ≡ xs
  two_shards s r xs h below =
      let first : r ≡ 0 = omega (arith, below) in
      let second : 2 * 1 - r - 1 ≡ 1 = omega (arith, below) in
      ap (λ i. shard_at s xs i ++ shard_at s xs (2 * 1 - r - 1)) first
      ∙ ap (λ i. shard_at s xs 0 ++ shard_at s xs i) second
      ∙ slice_list-append (0 * s) (1 * s) (2 * s) xs (omega arith) (omega (arith, suc-mul 1 s))
      ∙ ap (λ m. slice_list m (2 * s) xs) (omega arith)
      ∙ slice_list_whole (2 * s) xs (omega (arith, h))

  even_shards :
      (n s r : ℕ) (xs : List A)
      → length xs ≡ (2 * n) * s
      → r < n
      → shard_at s xs r ++ shard_at s xs (2 * n - r - 1) ≡ get_tokens_on_this_cp_rank r n xs
  unfolding get_tokens_on_this_cp_rank
  even_shards n s r xs h below = elim (Bool-cases (n == 1)) [
    | inl one ↦
        subst
          (λ m.
            length xs ≡ (2 * m) * s
            → r < m
            → shard_at s xs r ++ shard_at s xs (2 * m - r - 1) ≡ get_tokens_on_this_cp_rank r m xs)
          (sym ((==_iff n 1).0 one)) (two_shards s r xs) h below
    | inr several ↦
        sym (rank_tokens n s r xs h (omega (arith, below)) (λ one. ground (arith, one, several)))
  ]

  -- The backward pass gives a rank, below the number of ranks, its own tokens' part of the gradient
  -- if the gradient is of even chunks, two for each rank, and raises if it is not.
  pub backward_lem :
      (cp_rank cp_size : ℕ) (grad_output : List A)
      → cp_rank < cp_size
      → ((s : ℕ) × (length grad_output ≡ (2 * cp_size) * s)
          × (backward cp_rank cp_size grad_output
              ≡ ok (get_tokens_on_this_cp_rank cp_rank cp_size grad_output)))
        ⊎ (((s : ℕ) → length grad_output ≢ (2 * cp_size) * s)
            × (backward cp_rank cp_size grad_output ≡ raise invalid_view))
  unfolding backward
  backward_lem r n g below =
      let size = length g / (2 * n) in
      let twice : 0 < 2 * n = omega (arith, below) in
      elim (Bool-cases ((2 * n) * size == length g)) [
        | inl even ↦ inl (
          size,
          sym ((==_iff _ _).0 even),
          if_ne_zero n (omega (arith, below)) _ _
              ∙ if_true _ even _ _
              ∙ ap ok (even_shards n size r g (sym ((==_iff _ _).0 even)) below),
        )
        | inr odd ↦ inr (
          λ s e. absurd (
              ground (
                arith,
                odd,
                e,
                ap (λ m. (2 * n) * (m / (2 * n))) e,
                ap (λ m. (2 * n) * m) (mul-div_cancel_left s twice),
              )),
          if_ne_zero n (omega (arith, below)) _ _ ∙ if_false _ odd _ _,
        )
      ]
