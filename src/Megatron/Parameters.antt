-- ===== src/Megatron/Parameters.antt =====
-- The settings that the configuration gives (nemo_rl/models/megatron/data.py).
use ne_mo_rl.Common.{
  ℕ, ◌+◌, ◌-◌, ◌*◌, ◌/◌, ◌%◌, ◌<◌, ◌≡◌, refl, Bool, true, false, ◌&&◌, Bool-cases, inl, inr, ◌⊎◌,
  ◌≢◌, Option, none, some, ltb, ltb→lt, lt→ltb, ◌==◌, ==_iff, if◌then◌else◌, ok, raise, arith,
}
use native.Mathlib.Nat.{mul-mod_left, mul-pos}
use ne_mo_rl.Megatron.{
  not_a_multiple, round_up_to_multiple, Padding, Fp8Recipe, blockwise, mxfp8, other_recipe,
  MegatronConfig, with_parallel_factors, packed_multiple, get_pack_sequence_parameters_for_megatron,
  check_packed_multiple,
}
use ne_mo_rl.Megatron.Blocks.{round_up_to_multiple-le, HasRoom}

positive_factors : (cfg : MegatronConfig) (n : ℕ) → 0 < n → 0 < with_parallel_factors cfg n
positive_factors cfg n h =
    let m_pos : 0
        < (if ltb 1 cfg.context_parallel_size then n * (cfg.context_parallel_size * 2) else n) =
      if_pos (ltb 1 cfg.context_parallel_size) (λ e. mul-pos h (ground (arith, e))) h in
    if_pos (ltb 1 cfg.tensor_model_parallel_size && cfg.sequence_parallel)
      (λ e.
        let large = left_true (ltb 1 cfg.tensor_model_parallel_size) cfg.sequence_parallel e in
        mul-pos m_pos (omega (arith, ltb→lt 1 cfg.tensor_model_parallel_size large)))
      m_pos
  where
    left_true : (a b : Bool) → (a && b) ≡ true → a ≡ true
    left_true true b e = refl
    left_true false b e = e

    if_pos : (t : Bool) {i j : ℕ} → (t ≡ true → 0 < i) → 0 < j → 0 < (if t then i else j)
    if_pos true hi hj = hi refl
    if_pos false hi hj = hj

packed_multiple-pos : (cfg : MegatronConfig) (o : Option Fp8Recipe) → 0 < packed_multiple cfg o
packed_multiple-pos cfg none = omega arith
packed_multiple-pos cfg (some blockwise) = positive_factors cfg 128 (omega arith)
packed_multiple-pos cfg (some mxfp8) = positive_factors cfg 32 (omega arith)
packed_multiple-pos cfg (some other_recipe) = positive_factors cfg 16 (omega arith)

round_up_to_multiple-mod : (n k : ℕ) → round_up_to_multiple n k % k ≡ 0
unfolding round_up_to_multiple
round_up_to_multiple-mod n k = elim (Bool-cases (n % k == 0)) [
  | inl e ↦ rw e ((==_iff (n % k) 0).0 e)
  | inr e ↦ rw e (mul-mod_left ((n + k - 1) / k) k)
]

abbrev settings : MegatronConfig → ℕ → ℕ → Padding
settings cfg individual max_seq_len = record {
  pad_individual_seqs_to_multiple_of = individual;
  pad_packed_seq_to_multiple_of = packed_multiple cfg cfg.fp8;
  pad_packed_seq_to =
      if ltb 1 cfg.pipeline_model_parallel_size
      then some (round_up_to_multiple max_seq_len (packed_multiple cfg cfg.fp8))
      else none;
}

settings-checked :
    (pipelined : Bool) (max_seq_len k : ℕ)
    → 0 < k
    → (check_packed_multiple
          (if pipelined then some (round_up_to_multiple max_seq_len k) else none)
          k
        ≡ ok tt)
      × HasRoom (if pipelined then some (round_up_to_multiple max_seq_len k) else none) max_seq_len
settings-checked false n k h = (refl, tt)
settings-checked true n k h =
    (rw (lt→ltb 0 k h, round_up_to_multiple-mod n k) refl, round_up_to_multiple-le n k h)

-- If the factor for single sequences is a multiple of what the parallel sizes ask for, the settings
-- are returned with that factor, they pass the assertion of the packing, and a length that they
-- give for the packed row is not below the maximum of the batch. Otherwise the assertion on the
-- factor raises.
pub get_pack_sequence_parameters_for_megatron_lem :
    (cfg : MegatronConfig) (individual max_seq_len : ℕ)
    → ((individual % with_parallel_factors cfg 1 ≡ 0)
        × ((p : Padding) × (get_pack_sequence_parameters_for_megatron cfg individual max_seq_len
              ≡ ok p)
            × (p.pad_individual_seqs_to_multiple_of ≡ individual)
            × (check_packed_multiple p.pad_packed_seq_to p.pad_packed_seq_to_multiple_of ≡ ok tt)
            × HasRoom p.pad_packed_seq_to max_seq_len))
      ⊎ ((individual % with_parallel_factors cfg 1 ≢ 0)
          × (get_pack_sequence_parameters_for_megatron cfg individual max_seq_len
              ≡ raise not_a_multiple))
unfolding get_pack_sequence_parameters_for_megatron
get_pack_sequence_parameters_for_megatron_lem cfg individual max_seq_len =
    elim (Bool-cases (individual % with_parallel_factors cfg 1 == 0)) [
      | inl e ↦
          let (checked, room) =
            settings-checked (ltb 1 cfg.pipeline_model_parallel_size) max_seq_len
              (packed_multiple cfg cfg.fp8) (packed_multiple-pos cfg cfg.fp8) in
          inl (
            (==_iff _ _).0 e,
            (settings cfg individual max_seq_len, rw e refl, refl, checked, room),
          )
      | inr e ↦ inr (λ zero_rest. ground (arith, e, zero_rest), rw e refl)
    ]
