-- ===== src/Packing/Adjust/Rounding.antt =====
-- The number of bins that is asked for (nemo_rl/data/packing/algorithms.py).
use ne_mo_rl.Common.{
  ℕ, ◌-◌, ◌*◌, ◌/◌, ◌%◌, ◌≤◌, ◌<◌, ◌≡◌, sym, ap, ◌∙◌, inl, inr, Option, none, some, arith,
  Bool-cases, ◌==◌, ==_iff,
}
use native.Mathlib.Nat.{
  mod-lt, mod_self, mod-add-mod, div-add-mod, lt_of_mul-lt-mul_left, mul-le-mul_left,
}
use ne_mo_rl.Packing.Packer.{SequencePacker}
use ne_mo_rl.Packing.Adjust.{target_bin_count, at_least, round_up}

round_up-le : (m : Option ℕ) (n : ℕ) → n ≤ round_up m n
round_up-le none n = omega arith
round_up-le (some k) n = ground arith

round_up-multiple : (k n : ℕ) → 1 ≤ k → round_up (some k) n % k ≡ 0
round_up-multiple k n h = elim (Bool-cases (n % k == 0)) [
  | inl e ↦ rw e ((==_iff (n % k) 0).0 e)
  | inr e ↦
      rw e (
        sym (mod-add-mod n k (k - n % k))
        ∙ ap (λ m. m % k) (omega (arith, mod-lt n h))
        ∙ mod_self k)
]

round_up_least : (k n t : ℕ) → n ≤ t → t % k ≡ 0 → round_up (some k) n ≤ t
round_up_least k n t le m = elim (Bool-cases (n % k == 0)) [
  | inl e ↦ rw e le
  | inr e ↦
      let below : k * (n / k) < k * (t / k) = ground (arith, div-add-mod n k, div-add-mod t k) in
      let step = mul-le-mul_left k (lt_of_mul-lt-mul_left k below) in
      rw e (omega (arith, step, div-add-mod n k, div-add-mod t k))
]

at_least-le : (m : Option ℕ) (n : ℕ) → n ≤ at_least m n
at_least-le none n = omega arith
at_least-le (some k) n = omega arith

pub target_bin_count-le : (p : SequencePacker) (current : ℕ) → current ≤ target_bin_count p current
unfolding target_bin_count
target_bin_count-le p current = omega (
  arith,
  round_up-le p.bin_count_multiple (at_least p.min_bin_count current),
  at_least-le p.min_bin_count current,
)

-- The number of bins that is asked for is not below the current number and the minimum, and it is
-- a multiple of the setting `k`, where `k` is at least 1.
pub target_bin_count-multiple :
    (p : SequencePacker) (k current : ℕ)
    → p.bin_count_multiple ≡ some k
    → 1 ≤ k
    → (at_least p.min_bin_count current ≤ target_bin_count p current)
      × (target_bin_count p current % k ≡ 0)
unfolding target_bin_count
target_bin_count-multiple p k current e one = rw e (
  round_up-le (some k) (at_least p.min_bin_count current),
  round_up-multiple k (at_least p.min_bin_count current) one,
)

-- No number of bins that is at least the current number and the minimum, and a multiple of the
-- setting `k`, is below the number that is asked for.
pub target_bin_count_least :
    (p : SequencePacker) (k current t : ℕ)
    → p.bin_count_multiple ≡ some k
    → at_least p.min_bin_count current ≤ t
    → t % k ≡ 0
    → target_bin_count p current ≤ t
unfolding target_bin_count
target_bin_count_least p k current t e le m =
    rw e (round_up_least k (at_least p.min_bin_count current) t le m)
