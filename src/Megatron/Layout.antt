-- ===== src/Megatron/Layout.antt =====
-- Where the sequences stand in a packed row (nemo_rl/models/megatron/data.py).
use ne_mo_rl.Common.{
  lt→ltb, ok, not, ◌||◌, ℕ, ◌+◌, ◌-◌, ◌<◌, ◌≡◌, refl, sym, ap, ◌∙◌, subst, ◌||◌, Bool, true, false,
  Bool-cases, inl, inr, List, [], ◌∷◌, ◌++◌, map, flatten, ltb, if◌then◌else◌, if_true, if_false,
  length, replicate, All, arith,
}
use ne_mo_rl.Megatron.{
  rounds_by_nonzero, PackedSequences, round_up_to_multiple, Padding, needs_padding, cumulative,
  with_last, packed_end, is_last, pad_sequences, pad_end, cut_for_rank, packed,
  check_packed_multiple, with_lengths, pack_sequences_for_megatron,
}
use ne_mo_rl.Megatron.Blocks.{
  round_up_to_multiple-one, no_padding, factor, pad_sequences-ArePadded, cumulative-pad_sequences,
  pad_sequences-one, rounded, valid_tokens, Fits, rounded_total, HasRoom, ArePadded,
}

module _ {A : Type 0} (blank : A) (p : Padding) where
  with_last_id : (f : ℕ → ℕ) (ns : List ℕ) → ((n : ℕ) → f n ≡ n) → with_last f ns ≡ ns
  with_last_id f [] h = refl
  with_last_id f (n ∷ []) h = ap (λ m. m ∷ []) (h n)
  with_last_id f (n ∷ m ∷ ns) h = ap (λ l. n ∷ l) (with_last_id f (m ∷ ns) h)

  pad_end_lem :
      (ss : List (List A × ℕ))
      → is_last ss ≡ false
      → All Fits ss
      → (factor p) ≡ 1
      → pad_end blank p ss ≡ flatten (pad_sequences blank p 0 ss)
  unfolding pad_end
  pad_end_lem ss nonempty fits one =
      let total = length (valid_tokens ss) in
      let start : 0 + total ≡ total = omega arith in
      let added : (if needs_padding p then packed_end p total - total else 0)
          ≡ packed_end p total - total =
        elim (Bool-cases (needs_padding p)) [
          | inl padded ↦ if_true (needs_padding p) padded _ _
          | inr bare ↦
              if_false (needs_padding p) bare _ _
              ∙ omega (
                arith,
                (no_padding (factor p) p.pad_packed_seq_to_multiple_of p.pad_packed_seq_to bare).0
                    total,
              )
        ] in
      ap (λ k. valid_tokens ss ++ replicate k blank)
        (added ∙ ap (λ m. packed_end p m - m) (sym start))
      ∙ sym (pad_sequences-one blank p 0 ss nonempty fits one)

  rounded_one : (ss : List (List A × ℕ)) → (factor p) ≡ 1 → rounded p ss ≡ map (λ s. s.1) ss
  rounded_one [] one = refl
  rounded_one (s ∷ ss) one =
      ap (λ m. m ∷ rounded p ss) (ap (round_up_to_multiple s.1) one ∙ round_up_to_multiple-one s.1)
      ∙ ap (λ l. s.1 ∷ l) (rounded_one ss one)

  cu_seqlens_padded_lem :
      (ss : List (List A × ℕ))
      → 0 < (factor p)
      → (if needs_padding p
          then with_last (packed_end p) (cumulative 0 (rounded p ss))
          else cumulative 0 (map (λ s. s.1) ss))
        ≡ with_last (packed_end p) (cumulative 0 (rounded p ss))
  cu_seqlens_padded_lem ss h = elim (Bool-cases (needs_padding p)) [
    | inl padded ↦ if_true (needs_padding p) padded _ _
    | inr bare ↦
        let (same, small) =
          no_padding (factor p) p.pad_packed_seq_to_multiple_of p.pad_packed_seq_to bare in
        if_false (needs_padding p) bare _ _
        ∙ ap (cumulative 0) (sym (rounded_one ss (ground (arith, h, small))))
        ∙ sym (with_last_id (packed_end p) (cumulative 0 (rounded p ss)) same)
  ]

  -- Blocks that the sequences are in, one after the other: the start of each is in
  -- `cu_seqlens_padded`, and a rank's row has its part of each.
  abbrev pub IsLayout : ℕ → ℕ → List (List A × ℕ) → PackedSequences A → Type 0
  IsLayout cp_rank cp_size ss out =
      (blocks : List (List A)) × ArePadded blank ss blocks
      × (out.all_input_ids ≡ flatten blocks)
      × (out.cu_seqlens ≡ cumulative 0 (map (λ s. s.1) ss))
      × (out.cu_seqlens_padded ≡ cumulative 0 (map length blocks))
      × (out.packed_input_ids ≡ (
          if ltb 1 (factor p)
          then flatten (map (cut_for_rank cp_rank cp_size) blocks)
          else flatten blocks))

  packed-IsLayout :
      (cp_rank cp_size : ℕ) (ss : List (List A × ℕ))
      → is_last ss ≡ false
      → All Fits ss
      → 0 < (factor p)
      → HasRoom p.pad_packed_seq_to (rounded_total p ss)
      → IsLayout cp_rank cp_size ss (packed blank p cp_rank cp_size ss)
  unfolding packed pad_end
  packed-IsLayout r n ss nonempty fits h room =
      let blocks = pad_sequences blank p 0 ss in
      let start : rounded_total p ss ≡ 0 + rounded_total p ss = omega arith in
      (
        blocks,
        pad_sequences-ArePadded blank p 0 ss,
        either _ _ _ (ltb 1 (factor p)) refl
            (λ small. pad_end_lem ss nonempty fits (ground (arith, h, small))),
        refl,
        cu_seqlens_padded_lem ss h
            ∙ sym (
                cumulative-pad_sequences blank p 0 ss nonempty fits h
                  (subst (HasRoom p.pad_packed_seq_to) start room)),
        either_same _ _ _ (ltb 1 (factor p))
            (λ small. pad_end_lem ss nonempty fits (ground (arith, h, small))),
      )
    where
      either : (x y z : List A) (t : Bool) → x ≡ z → (t ≡ false → y ≡ z) → (if t then x else y) ≡ z
      either x y z true hx hy = hx
      either x y z false hx hy = hy refl

      either_same :
          (x y z : List A) (t : Bool)
          → (t ≡ false → y ≡ z)
          → (if t then x else y) ≡ (if t then x else z)
      either_same x y z true hy = refl
      either_same x y z false hy = hy refl

  pack_lem :
      (cp_rank cp_size : ℕ) (input_ids : List (List A)) (seq_lengths : List ℕ)
      {ss : List (List A × ℕ)} {u : Unit {0}}
      → check_packed_multiple p.pad_packed_seq_to p.pad_packed_seq_to_multiple_of ≡ ok u
      → with_lengths input_ids seq_lengths ≡ ok ss
      → is_last ss ≡ false
      → 0 < factor p
      → pack_sequences_for_megatron blank p cp_rank cp_size input_ids seq_lengths
        ≡ ok (packed blank p cp_rank cp_size ss)
  unfolding pack_sequences_for_megatron
  pack_lem cp_rank cp_size input_ids seq_lengths checked rows nonempty h =
      let given : rounds_by_nonzero p ≡ true =
        ap (λ b. not (needs_padding p) || b) (lt→ltb 0 (factor p) h)
        ∙ or_true (not (needs_padding p)) in
      let called : (is_last input_ids || is_last seq_lengths || rounds_by_nonzero p) ≡ true =
        ap (λ b. is_last input_ids || is_last seq_lengths || b) given
        ∙ or_true (is_last input_ids || is_last seq_lengths) in
      rw (checked, called, rows, nonempty)
    where
      or_true : (b : Bool) → (b || true) ≡ true
      or_true true = refl
      or_true false = refl

  -- Packing returns, if a length given for the packed row passes the assertion, each row has a
  -- length, there is a row, each length is at most its row's, the factor for single sequences is
  -- not 0, and a length given for the packed row is not below the sum of the rounded lengths. What
  -- it returns: the row for all ranks has each sequence from its start in `cu_seqlens_padded` on,
  -- its tokens and then blanks up to the start of the next one; `cu_seqlens` has the sums of the
  -- lengths; and the rank's row has its part of each padded sequence, if the factor is above 1, and
  -- is the row for all ranks if not.
  pub pack_sequences_for_megatron-IsLayout :
      (cp_rank cp_size : ℕ) (input_ids : List (List A)) (seq_lengths : List ℕ)
      {ss : List (List A × ℕ)} {u : Unit {0}}
      → check_packed_multiple p.pad_packed_seq_to p.pad_packed_seq_to_multiple_of ≡ ok u
      → with_lengths input_ids seq_lengths ≡ ok ss
      → is_last ss ≡ false
      → All Fits ss
      → 0 < factor p
      → HasRoom p.pad_packed_seq_to (rounded_total p ss)
      → (out : PackedSequences A) × (pack_sequences_for_megatron blank p cp_rank cp_size input_ids
            seq_lengths
          ≡ ok out)
        × IsLayout cp_rank cp_size ss out
  pack_sequences_for_megatron-IsLayout cp_rank cp_size input_ids seq_lengths {ss} checked rows
        nonempty fits h room =
      (
        packed blank p cp_rank cp_size ss,
        pack_lem cp_rank cp_size input_ids seq_lengths checked rows nonempty h,
        packed-IsLayout cp_rank cp_size ss nonempty fits h room,
      )
