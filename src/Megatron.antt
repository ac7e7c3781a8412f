-- ===== src/Megatron.antt =====
-- The packing of sequences for Megatron (nemo_rl/models/megatron/data.py, and the rounding of
-- nemo_rl/models/megatron/common.py). A tensor of one row is the list of its tokens, `blank` is the
-- token 0 that pads. A sequence is a row of the input with its length.
pub mod Blocks
pub mod Layout
pub mod Ranks
pub mod Parameters
mod Tests
use ne_mo_rl.Common.{
  ℕ, zero, suc, ◌+◌, ◌-◌, ◌*◌, ◌/◌, ◌%◌, max, Bool, true, false, ◌&&◌, ◌||◌, not, Option, none,
  some, List, [], ◌∷◌, ◌++◌, map, flatten, ltb, ◌==◌, if◌then◌else◌, length, take, replicate,
  Outcome, ok, raise, ◌>>=◌,
}
use ne_mo_rl.ContextParallel.{get_tokens_on_this_cp_rank}

pub data PackError : Type 0 where
  not_a_multiple zero_division index_error empty_batch : PackError

unfoldable pub round_up_to_multiple : ℕ → ℕ → ℕ
round_up_to_multiple value multiple =
    if value % multiple == 0 then value else (value + multiple - 1) / multiple * multiple

-- The three settings of the padding
pub record Padding : Type 0 where
  pub pad_individual_seqs_to_multiple_of : ℕ
  pub pad_packed_seq_to_multiple_of : ℕ
  pub pad_packed_seq_to : Option ℕ

abbrev pub is_given : Option ℕ → Bool
is_given none = false
is_given (some n) = true

abbrev pub needs_padding : Padding → Bool
needs_padding p =
    ltb 1 p.pad_individual_seqs_to_multiple_of
    || ltb 1 p.pad_packed_seq_to_multiple_of
    || is_given p.pad_packed_seq_to

abbrev pub require : Bool → PackError → Outcome PackError (Unit {0})
require true e = ok tt
require false e = raise e

-- The assertion on `pad_packed_seq_to`; the remainder by 0 raises by itself.
abbrev pub check_packed_multiple : Option ℕ → ℕ → Outcome PackError (Unit {0})
check_packed_multiple none multiple = ok tt
check_packed_multiple (some t) multiple = do
  _ ← require (ltb 0 multiple) zero_division
  require (t % multiple == 0) not_a_multiple

-- The rounding of the first length does not divide by 0.
abbrev pub rounds_by_nonzero : Padding → Bool
rounds_by_nonzero p = not (needs_padding p) || ltb 0 p.pad_individual_seqs_to_multiple_of

-- `seq_lengths[b]` for each row
abbrev pub with_lengths :
    {A : Type 0} → List (List A) → List ℕ → Outcome PackError (List (List A × ℕ))
with_lengths [] lengths = ok []
with_lengths (row ∷ rows) [] = raise index_error
with_lengths (row ∷ rows) (n ∷ lengths) = do rest ← with_lengths rows lengths; ok ((row, n) ∷ rest)

-- A list of sums, from `total` on
abbrev pub cumulative : ℕ → List ℕ → List ℕ
cumulative total [] = total ∷ []
cumulative total (n ∷ ns) = total ∷ cumulative (total + n) ns

-- `l[-1] = f(l[-1])`
abbrev pub with_last : (ℕ → ℕ) → List ℕ → List ℕ
with_last f [] = []
with_last f (n ∷ []) = f n ∷ []
with_last f (n ∷ m ∷ ns) = n ∷ with_last f (m ∷ ns)

-- Where the packed row ends: at the length given, or at `end` rounded up.
abbrev pub end_by : Option ℕ → ℕ → ℕ → ℕ
end_by (some t) multiple end = t
end_by none multiple end = if ltb 1 multiple then round_up_to_multiple end multiple else end

abbrev pub packed_end : Padding → ℕ → ℕ
packed_end p = end_by p.pad_packed_seq_to p.pad_packed_seq_to_multiple_of

abbrev pub differences : List ℕ → List ℕ
differences [] = []
differences (n ∷ []) = []
differences (n ∷ m ∷ ns) = (m - n) ∷ differences (m ∷ ns)

abbrev pub largest : List ℕ → ℕ
largest [] = 0
largest (n ∷ ns) = max n (largest ns)

abbrev pub is_last : {A : Type 0} → List A → Bool
is_last [] = true
is_last (x ∷ xs) = false

pub record PackedSequences (A : Type 0) : Type 0 where
  pub all_input_ids : List A
  pub packed_input_ids : List A
  pub cu_seqlens : List ℕ
  pub cu_seqlens_padded : List ℕ
  pub max_seqlen : ℕ

-- The length that a sequence is padded to; the last one takes up the rest of the row.
unfoldable pub padded_seq_len : Padding → Bool → ℕ → ℕ → ℕ
unfolding round_up_to_multiple
padded_seq_len p last running_seq_len seq_len =
    let padded = round_up_to_multiple seq_len p.pad_individual_seqs_to_multiple_of in
    if last then packed_end p (running_seq_len + padded) - running_seq_len else padded

abbrev pub cut_for_rank : {A : Type 0} → ℕ → ℕ → List A → List A
cut_for_rank cp_rank cp_size seq_tokens =
    if ltb 1 cp_size then get_tokens_on_this_cp_rank cp_rank cp_size seq_tokens else seq_tokens

module _ {A : Type 0} (blank : A) (p : Padding) where
  -- `seq_tokens` for each sequence; `pad` adds nothing to a sequence that is long enough.
  unfoldable pub pad_sequences : ℕ → List (List A × ℕ) → List (List A)
  unfolding padded_seq_len
  pad_sequences running_seq_len [] = []
  pad_sequences running_seq_len ((row, seq_len) ∷ sequences) =
      let padded = padded_seq_len p (is_last sequences) running_seq_len seq_len in
      (take seq_len row ++ replicate (padded - seq_len) blank)
      ∷ pad_sequences (running_seq_len + padded) sequences

  -- The valid tokens of all sequences, padded at the end only
  unfoldable pub pad_end : List (List A × ℕ) → List A
  unfolding flatten
  pad_end sequences =
      let valid = flatten (map (λ s. take s.1 s.0) sequences) in
      valid
      ++ replicate (if needs_padding p then packed_end p (length valid) - length valid else 0) blank

  unfoldable pub packed : ℕ → ℕ → List (List A × ℕ) → PackedSequences A
  unfolding pad_sequences pad_end flatten get_tokens_on_this_cp_rank
  packed cp_rank cp_size sequences =
      let lengths = map (λ s. s.1) sequences in
      let factor = p.pad_individual_seqs_to_multiple_of in
      let rounded = cumulative 0 (map (λ n. round_up_to_multiple n factor) lengths) in
      let padded =
        if needs_padding p then with_last (packed_end p) rounded else cumulative 0 lengths in
      let blocks = pad_sequences 0 sequences in
      record {
        all_input_ids = if ltb 1 factor then flatten blocks else pad_end sequences;
        packed_input_ids =
            if ltb 1 factor
            then flatten (map (cut_for_rank cp_rank cp_size) blocks)
            else pad_end sequences;
        cu_seqlens = cumulative 0 lengths;
        cu_seqlens_padded = padded;
        max_seqlen = largest (differences padded);
      }

  unfoldable pub pack_sequences_for_megatron :
      ℕ → ℕ → List (List A) → List ℕ → Outcome PackError (PackedSequences A)
  unfolding packed
  pack_sequences_for_megatron cp_rank cp_size input_ids seq_lengths = do
    _ ← check_packed_multiple p.pad_packed_seq_to p.pad_packed_seq_to_multiple_of
    _ ← require (is_last input_ids || is_last seq_lengths || rounds_by_nonzero p) zero_division
    sequences ← with_lengths input_ids seq_lengths
    _ ← require (not (is_last sequences)) empty_batch
    ok (packed cp_rank cp_size sequences)

-- `fp8_recipe`
pub data Fp8Recipe : Type 0 where
  blockwise mxfp8 other_recipe : Fp8Recipe

abbrev pub divisor : Fp8Recipe → ℕ
divisor blockwise = 128
divisor mxfp8 = 32
divisor other_recipe = 16

-- The entries of the configuration that the settings come from; without a recipe fp8 is off.
pub record MegatronConfig : Type 0 where
  pub tensor_model_parallel_size : ℕ
  pub sequence_parallel : Bool
  pub pipeline_model_parallel_size : ℕ
  pub context_parallel_size : ℕ
  pub fp8 : Option Fp8Recipe

-- `n` with the factors for context parallelism and for sequence parallelism
abbrev pub with_parallel_factors : MegatronConfig → ℕ → ℕ
with_parallel_factors cfg n =
    let m = if ltb 1 cfg.context_parallel_size then n * (cfg.context_parallel_size * 2) else n in
    if ltb 1 cfg.tensor_model_parallel_size && cfg.sequence_parallel
    then m * cfg.tensor_model_parallel_size
    else m

abbrev pub packed_multiple : MegatronConfig → Option Fp8Recipe → ℕ
packed_multiple cfg none = 1
packed_multiple cfg (some recipe) = with_parallel_factors cfg (divisor recipe)

unfoldable pub get_pack_sequence_parameters_for_megatron :
    MegatronConfig → ℕ → ℕ → Outcome PackError Padding
unfolding round_up_to_multiple
get_pack_sequence_parameters_for_megatron cfg individual max_seq_len_in_batch = do
  _ ← require (individual % with_parallel_factors cfg 1 == 0) not_a_multiple
  ok (record {
    pad_individual_seqs_to_multiple_of = individual;
    pad_packed_seq_to_multiple_of = packed_multiple cfg cfg.fp8;
    pad_packed_seq_to =
        if ltb 1 cfg.pipeline_model_parallel_size
        then some (round_up_to_multiple max_seq_len_in_batch (packed_multiple cfg cfg.fp8))
        else none;
  })
