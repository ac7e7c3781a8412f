-- ===== src/ContextParallel/Chunks.antt =====
-- The chunks of a sequence and their indices (nemo_rl/distributed/model_utils.py).
use ne_mo_rl.Common.{
  if_false, ℕ, zero, suc, ◌+◌, ◌-◌, ◌*◌, ◌/◌, ◌<◌, ◌≡◌, refl, sym, ap, ◌∙◌, ◌≢◌, true, List, [],
  ◌∷◌, ◌++◌, map, flatten, leb, ◌==◌, length, range_from, sort_by, All, sum_by, SameItems,
  sum_by-sort_by, sum_by-map, All-sort_by, IsAscending, sort_by-IsAscending, TotalTest, arith,
}
use native.Mathlib.Nat.{suc-mul, mul-div_cancel_left, mul-le-mul_right}
use ne_mo_rl.Batch.{zip}
use ne_mo_rl.Batch.Slices.{length-slice_list}
use ne_mo_rl.Batch.Reorder.{ascending_unique, range_from-IsAscending}
use ne_mo_rl.Batch.Shard.Bounds.{sum_by_ext, sum_by-flatten-map}
use ne_mo_rl.Batch.Dynamic.Order.{sum_by-range_suc, sum_by-range_last, sum_by-range_append}
use ne_mo_rl.ContextParallel.{shard_at, get_tokens_on_this_cp_rank, chunk_indices, second_le}

-- The late chunks of the first `m` ranks are the `m` chunks after the `k`-th, from behind.
late_sum :
    (w : ℕ → ℕ) (k m : ℕ)
    → sum_by (λ r. w ((k + m) - r - 1)) (range_from 0 m) ≡ sum_by w (range_from k m)
late_sum w k zero = refl
late_sum w k (suc m) = omega (
  arith,
  ap w (last k m),
  sum_by-range_suc (λ r. w ((k + suc m) - r - 1)) 0 m,
  sum_by_ext _ _ (range_from 0 m) (λ r. ap w (earlier k m r)),
  late_sum w k m,
  sum_by-range_last w k m,
)
  where
    last : (k m : ℕ) → (k + suc m) - 0 - 1 ≡ k + m
    last k m = omega arith

    earlier : (k m r : ℕ) → (k + suc m) - suc r - 1 ≡ (k + m) - r - 1
    earlier k m r = omega arith

sum_by-plus :
    (v w : ℕ → ℕ) (is : List ℕ) → sum_by (λ i. v i + (w i + 0)) is ≡ sum_by v is + sum_by w is
sum_by-plus v w [] = refl
sum_by-plus v w (i ∷ is) = omega (arith, sum_by-plus v w is)

pub chunk_indices-SameItems : (n : ℕ) → SameItems (chunk_indices n) (range_from 0 (2 * n))
chunk_indices-SameItems n w =
    let twice : 2 * n ≡ n + n = omega arith in
    sum_by-flatten-map w (λ r. r ∷ (2 * n - r - 1) ∷ []) (range_from 0 n)
    ∙ sum_by-plus w (λ r. w (2 * n - r - 1)) (range_from 0 n)
    ∙ ap (λ t. sum_by w (range_from 0 n) + sum_by (λ r. w (t - r - 1)) (range_from 0 n)) twice
    ∙ ap (λ t. sum_by w (range_from 0 n) + t) (late_sum w n n)
    ∙ omega (arith, sum_by-range_append w 0 n n, ap (λ a. sum_by w (range_from a n)) (zero_left n))
    ∙ ap (λ t. sum_by w (range_from 0 t)) (sym twice)
  where
    zero_left : (n : ℕ) → 0 + n ≡ n
    zero_left n = omega arith

module _ {A : Type 0} where
  second_le-TotalTest : TotalTest (second_le {B = A})
  second_le-TotalTest = record { total = λ x y h. ground arith; trans = λ x y z h k. ground arith }

  seconds-IsAscending :
      (ps : List (A × ℕ)) → IsAscending second_le ps → IsAscending leb (map (λ p. p.1) ps)
  seconds-IsAscending [] h = tt
  seconds-IsAscending (p ∷ ps) h = (seconds p ps h.0, seconds-IsAscending ps h.1)
    where
      seconds :
          (p : A × ℕ) (ps : List (A × ℕ))
          → All (λ q. second_le p q ≡ true) ps
          → All (λ y. leb p.1 y ≡ true) (map (λ q. q.1) ps)
      seconds p [] h = tt
      seconds p (q ∷ ps) h = (h.0, seconds p ps h.1)

  pub flatten-pairs :
      (c : ℕ → A) (f g : ℕ → ℕ) (is : List ℕ)
      → flatten (map (λ r. c (f r) ∷ c (g r) ∷ []) is)
        ≡ map c (flatten (map (λ r. f r ∷ g r ∷ []) is))
  unfolding flatten
  flatten-pairs c f g [] = refl
  flatten-pairs c f g (i ∷ is) = ap (λ l. c (f i) ∷ c (g i) ∷ l) (flatten-pairs c f g is)

  firsts_by :
      (c : ℕ → A) (ps : List (A × ℕ))
      → All (λ p. p.0 ≡ c p.1) ps
      → map (λ p. p.0) ps ≡ map c (map (λ p. p.1) ps)
  firsts_by c [] h = refl
  firsts_by c (p ∷ ps) h = rw (h.0, firsts_by c ps h.1)

  zip-tagged : (c : ℕ → A) (is : List ℕ) → All (λ p. p.0 ≡ c p.1) (zip (map c is) is)
  unfolding zip
  zip-tagged c [] = tt
  zip-tagged c (i ∷ is) = (refl, zip-tagged c is)

  zip-indices : (c : ℕ → A) (is : List ℕ) → map (λ p. p.1) (zip (map c is) is) ≡ is
  unfolding zip
  zip-indices c [] = refl
  zip-indices c (i ∷ is) = ap (λ l. i ∷ l) (zip-indices c is)

  -- Tagged with their indices and sorted by them, chunks are in order.
  pub sorted_chunks :
      (c : ℕ → A) (is : List ℕ) (n : ℕ)
      → SameItems is (range_from 0 n)
      → map (λ p. p.0) (sort_by second_le (zip (map c is) is)) ≡ map c (range_from 0 n)
  sorted_chunks c is n same =
      let ps = zip (map c is) is in
      let sorted = sort_by second_le ps in
      let order : map (λ p. p.1) sorted ≡ range_from 0 n =
        ascending_unique (map (λ p. p.1) sorted) (range_from 0 n)
          (seconds-IsAscending sorted (sort_by-IsAscending second_le second_le-TotalTest ps))
          (range_from-IsAscending 0 n)
          (λ w.
            sum_by-map w (λ p. p.1) sorted
            ∙ sum_by-sort_by second_le (λ p. w p.1) ps
            ∙ sym (sum_by-map w (λ p. p.1) ps)
            ∙ ap (sum_by w) (zip-indices c is)
            ∙ same w) in
      firsts_by c sorted (All-sort_by second_le (λ p. p.0 ≡ c p.1) ps (zip-tagged c is))
      ∙ ap (map c) order

  pub length-shard_at :
      (s i k : ℕ) (xs : List A) → length xs ≡ k * s → i < k → length (shard_at s xs i) ≡ s
  length-shard_at s i k xs h below =
      length-slice_list _ _ xs (omega (arith, h, mul-le-mul_right s below))
      ∙ omega (arith, suc-mul i s)

  -- Over several ranks a rank's tokens are its two chunks.
  pub rank_tokens :
      (n s r : ℕ) (xs : List A)
      → length xs ≡ (2 * n) * s
      → 0 < n
      → n ≢ 1
      → get_tokens_on_this_cp_rank r n xs ≡ shard_at s xs r ++ shard_at s xs (2 * n - r - 1)
  unfolding get_tokens_on_this_cp_rank
  rank_tokens n s r xs h some several =
      let twice : n * 2 ≡ 2 * n = omega arith in
      let size : length xs / (n * 2) ≡ s =
        ap (λ m. length xs / m) twice
        ∙ ap (λ m. m / (2 * n)) h
        ∙ mul-div_cancel_left s (omega (arith, some)) in
      rw (size, twice) (if_false (n == 1) (ground (arith, several)) _ _)
