-- ===== src/Megatron/Tests.antt =====
-- Three sequences packed for two context parallel ranks (nemo_rl/models/megatron/data.py).
use ne_mo_rl.Common.{
  ℕ, ◌%◌, ◌≡◌, ◌≢◌, ◌⊎◌, refl, true, some, List, [], ◌∷◌, map, flatten, range_from, All, ok, raise,
  arith,
}
use ne_mo_rl.ContextParallel.{get_tokens_on_this_cp_rank, forward}
use ne_mo_rl.Megatron.{
  Padding, PackedSequences, not_a_multiple, empty_batch, MegatronConfig, check_packed_multiple,
  with_parallel_factors, round_up_to_multiple, padded_seq_len, pad_sequences, packed,
  pack_sequences_for_megatron, get_pack_sequence_parameters_for_megatron, mxfp8,
}
use ne_mo_rl.Megatron.Blocks.{HasRoom}
use ne_mo_rl.Megatron.Layout.{IsLayout, pack_sequences_for_megatron-IsLayout}
use ne_mo_rl.Megatron.Ranks.{packed-forward}
use ne_mo_rl.Megatron.Parameters.{get_pack_sequence_parameters_for_megatron_lem}

abbrev three_rows : List (List ℕ)
three_rows = (1 ∷ 2 ∷ 3 ∷ 0 ∷ 0 ∷ []) ∷ (4 ∷ 5 ∷ 6 ∷ 7 ∷ 8 ∷ []) ∷ (9 ∷ 9 ∷ 0 ∷ 0 ∷ 0 ∷ []) ∷ []

abbrev three_lengths : List ℕ
three_lengths = 3 ∷ 5 ∷ 2 ∷ []

abbrev three_sequences : List (List ℕ × ℕ)
three_sequences =
    ((1 ∷ 2 ∷ 3 ∷ 0 ∷ 0 ∷ []), 3)
    ∷ ((4 ∷ 5 ∷ 6 ∷ 7 ∷ 8 ∷ []), 5)
    ∷ ((9 ∷ 9 ∷ 0 ∷ 0 ∷ 0 ∷ []), 2)
    ∷ []

-- Each sequence is padded to a multiple of 4, and the row to 20 tokens.
abbrev to_twenty : Padding
to_twenty = record {
  pad_individual_seqs_to_multiple_of = 4;
  pad_packed_seq_to_multiple_of = 1;
  pad_packed_seq_to = some 20;
}

packed_starts : (packed 0 to_twenty 0 2 three_sequences).cu_seqlens_padded ≡ 0 ∷ 4 ∷ 12 ∷ 20 ∷ []
unfolding packed round_up_to_multiple
packed_starts = refl

packed_first_rank :
    (packed 0 to_twenty 0 2 three_sequences).packed_input_ids
    ≡ 1 ∷ 0 ∷ 4 ∷ 5 ∷ 0 ∷ 0 ∷ 9 ∷ 9 ∷ 0 ∷ 0 ∷ []
unfolding packed pad_sequences padded_seq_len round_up_to_multiple flatten
    get_tokens_on_this_cp_rank
packed_first_rank = refl

pack_nothing : pack_sequences_for_megatron {A = ℕ} 0 to_twenty 0 2 [] [] ≡ raise empty_batch
unfolding pack_sequences_for_megatron
pack_nothing = refl

pack_sequences_for_megatron-IsLayout_example :
    (out : PackedSequences ℕ) × (pack_sequences_for_megatron 0 to_twenty 0 2 three_rows
        three_lengths
      ≡ ok out)
    × IsLayout 0 to_twenty 0 2 three_sequences out
unfolding round_up_to_multiple
pack_sequences_for_megatron-IsLayout_example =
    pack_sequences_for_megatron-IsLayout 0 to_twenty 0 2 three_rows three_lengths refl refl refl
      (omega arith, (omega arith, (omega arith, tt))) (omega arith) (omega arith)

packed-forward_example :
    ((packed 0 to_twenty 0 2 three_sequences).packed_input_ids
      ≡ flatten
          (map (get_tokens_on_this_cp_rank 0 2) (pad_sequences 0 to_twenty 0 three_sequences)))
    × All
        (λ b. forward (map (λ r. get_tokens_on_this_cp_rank r 2 b) (range_from 0 2)) ≡ b)
        (pad_sequences 0 to_twenty 0 three_sequences)
unfolding round_up_to_multiple
packed-forward_example =
    packed-forward 0 to_twenty 0 2 three_sequences (omega arith) (omega arith)
      (omega arith, (omega arith, (omega arith, tt))) (1, refl) (omega arith) (5, refl)

abbrev four_ranks : MegatronConfig
four_ranks = record {
  tensor_model_parallel_size = 2;
  sequence_parallel = true;
  pipeline_model_parallel_size = 2;
  context_parallel_size = 2;
  fp8 = some mxfp8;
}

get_pack_sequence_parameters_for_megatron_lem_example :
    ((16 % with_parallel_factors four_ranks 1 ≡ 0)
      × ((p : Padding) × (get_pack_sequence_parameters_for_megatron four_ranks 16 1000 ≡ ok p)
          × (p.pad_individual_seqs_to_multiple_of ≡ 16)
          × (check_packed_multiple p.pad_packed_seq_to p.pad_packed_seq_to_multiple_of ≡ ok tt)
          × HasRoom p.pad_packed_seq_to 1000))
    ⊎ ((16 % with_parallel_factors four_ranks 1 ≢ 0)
        × (get_pack_sequence_parameters_for_megatron four_ranks 16 1000 ≡ raise not_a_multiple))
get_pack_sequence_parameters_for_megatron_lem_example =
    get_pack_sequence_parameters_for_megatron_lem four_ranks 16 1000
