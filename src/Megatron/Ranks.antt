-- ===== src/Megatron/Ranks.antt =====
-- The parts of a packed row that context parallel ranks have (nemo_rl/models/megatron/data.py).
use ne_mo_rl.Common.{
  ℕ, ◌+◌, ◌-◌, ◌*◌, ◌/◌, ◌%◌, ◌<◌, ◌≡◌, sym, ap, ◌∙◌, subst, Bool-cases, inl, inr, List, [], ◌∷◌,
  map, flatten, ltb, ◌==◌, ==_iff, if_true, length, range_from, All, All_mono, lt→ltb, arith,
}
use mathlib.Core.Path.{fun_ext}
use native.Mathlib.Nat.{mul_comm, div-add-mod, add-mul, mul-sub, mul_assoc}
use ne_mo_rl.ContextParallel.{get_tokens_on_this_cp_rank, forward}
use ne_mo_rl.ContextParallel.Gather.{forward-get_tokens_on_this_cp_rank}
use ne_mo_rl.Megatron.{
  round_up_to_multiple, Padding, packed_end, padded_seq_len, pad_sequences, packed,
}
use ne_mo_rl.Megatron.Blocks.{factor, Fits, rounded_total, HasRoom, length-middle, length-last}

-- `n` is so many times `m`.
abbrev pub IsMultiple : ℕ → ℕ → Type 0
IsMultiple m n = (k : ℕ) × (n ≡ k * m)

IsMultiple-add : (m i j : ℕ) → IsMultiple m i → IsMultiple m j → IsMultiple m (i + j)
IsMultiple-add m i j (a, e) (b, f) = (a + b, omega (arith, e, f, add-mul a b m))

IsMultiple-of_sum : (m i j : ℕ) → IsMultiple m i → IsMultiple m (i + j) → IsMultiple m j
IsMultiple-of_sum m i j (a, e) (b, f) =
    (b - a, omega (arith, e, f, mul_comm (b - a) m, mul-sub m b a, mul_comm m b, mul_comm m a))

round_up_to_multiple-IsMultiple :
    (n k m : ℕ) → IsMultiple m k → IsMultiple m (round_up_to_multiple n k)
unfolding round_up_to_multiple
round_up_to_multiple-IsMultiple n k m (c, e) = elim (Bool-cases (n % k == 0)) [
  | inl even ↦
      let times : n ≡ n / k * k =
        omega (arith, div-add-mod n k, mul_comm k (n / k), (==_iff (n % k) 0).0 even) in
      rw even (n / k * c, times ∙ ap (λ t. n / k * t) e ∙ sym (mul_assoc (n / k) c m))
  | inr odd ↦ let q = (n + k - 1) / k in rw odd (q * c, ap (λ t. q * t) e ∙ sym (mul_assoc q c m))
]

module _ {A : Type 0} (blank : A) (p : Padding) (m : ℕ) where
  -- The end of the packed row and the padding of a sequence are multiples of `m`.
  blocks-IsMultiple :
      (running : ℕ) (ss : List (List A × ℕ))
      → All Fits ss
      → 0 < factor p
      → IsMultiple m (factor p)
      → IsMultiple m running
      → HasRoom p.pad_packed_seq_to (running + rounded_total p ss)
      → IsMultiple m (packed_end p (running + rounded_total p ss))
      → All (λ b. IsMultiple m (length b)) (pad_sequences blank p running ss)
  unfolding pad_sequences padded_seq_len
  blocks-IsMultiple running [] fits h k start room end = tt
  blocks-IsMultiple running ((row, n) ∷ []) fits h k start room end =
      let e : running + (round_up_to_multiple n (factor p) + 0)
          ≡ running + round_up_to_multiple n (factor p) =
        omega arith in
      let whole =
        length-last blank p running row n fits.0 h (subst (HasRoom p.pad_packed_seq_to) e room) in
      (
        IsMultiple-of_sum m running _ start
            (subst (IsMultiple m) (ap (packed_end p) e ∙ sym whole) end),
        tt,
      )
  blocks-IsMultiple running ((row, n) ∷ s ∷ ss) fits h k start room end =
      let r = round_up_to_multiple n (factor p) in
      let e : running + (r + rounded_total p (s ∷ ss)) ≡ (running + r) + rounded_total p (s ∷ ss) =
        omega arith in
      let padded = round_up_to_multiple-IsMultiple n (factor p) m k in
      (
        subst (IsMultiple m) (sym (length-middle blank p row n fits.0 h)) padded,
        blocks-IsMultiple (running + r) (s ∷ ss) fits.1 h k
            (IsMultiple-add m running r start padded) (subst (HasRoom p.pad_packed_seq_to) e room)
            (subst (λ t. IsMultiple m (packed_end p t)) e end),
      )

-- There is more than one context parallel rank, the factor for single sequences is above 1, each
-- length is at most its row's, a length given for the packed row is not below the sum of the
-- rounded lengths, and the factor and the end of the packed row are multiples of twice the number
-- of ranks. Then a rank's row has its tokens of each padded sequence, and the gather over all ranks
-- puts each padded sequence back together.
pub packed-forward :
    {A : Type 0} (blank : A) (p : Padding) (cp_rank cp_size : ℕ) (ss : List (List A × ℕ))
    → 1 < cp_size
    → 1 < factor p
    → All Fits ss
    → IsMultiple (2 * cp_size) (factor p)
    → HasRoom p.pad_packed_seq_to (rounded_total p ss)
    → IsMultiple (2 * cp_size) (packed_end p (rounded_total p ss))
    → ((packed blank p cp_rank cp_size ss).packed_input_ids
        ≡ flatten (map (get_tokens_on_this_cp_rank cp_rank cp_size) (pad_sequences blank p 0 ss)))
      × All
          (λ b.
            forward (map (λ r. get_tokens_on_this_cp_rank r cp_size b) (range_from 0 cp_size)) ≡ b)
          (pad_sequences blank p 0 ss)
unfolding packed
packed-forward blank p cp_rank cp_size ss several padded fits even room end =
    let start : rounded_total p ss ≡ 0 + rounded_total p ss = omega arith in
    (
      if_true (ltb 1 (factor p)) (lt→ltb 1 (factor p) padded) _ _
          ∙ ap (λ f. flatten (map f (pad_sequences blank p 0 ss)))
              (fun_ext λ b. if_true (ltb 1 cp_size) (lt→ltb 1 cp_size several) _ _),
      All_mono
          (λ b even_b.
            forward-get_tokens_on_this_cp_rank cp_size b (omega (arith, several))
              (inr (even_b.0, even_b.1 ∙ mul_comm even_b.0 (2 * cp_size))))
          (pad_sequences blank p 0 ss)
          (blocks-IsMultiple blank p (2 * cp_size) 0 ss fits (omega (arith, padded)) even
            (0, omega arith) (subst (HasRoom p.pad_packed_seq_to) start room)
            (subst (λ t. IsMultiple (2 * cp_size) (packed_end p t)) start end)),
    )
