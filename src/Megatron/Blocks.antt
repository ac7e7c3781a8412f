-- ===== src/Megatron/Blocks.antt =====
-- The blocks of a packed row, one for each sequence (nemo_rl/models/megatron/data.py).
use ne_mo_rl.Common.{
  ℕ, ◌+◌, ◌-◌, ◌/◌, ◌%◌, ◌≤◌, ◌<◌, ◌≡◌, refl, sym, ap, ◌∙◌, subst, ◌||◌, Bool, true, false,
  Bool-cases, inl, inr, Option, none, some, List, [], ◌∷◌, ◌++◌, map, flatten, append-nil,
  append_assoc, ltb, ◌==◌, if◌then◌else◌, if_false, length, length-append, length-take,
  length-replicate, take, replicate, sum_by, All, arith,
}
use native.Mathlib.Nat.{div-add-mod, mod-lt, mul_comm}
use ne_mo_rl.Megatron.{
  round_up_to_multiple, Padding, is_given, cumulative, with_last, end_by, packed_end, is_last,
  padded_seq_len, pad_sequences,
}

pub round_up_to_multiple-le : (n k : ℕ) → 0 < k → n ≤ round_up_to_multiple n k
unfolding round_up_to_multiple
round_up_to_multiple-le n k h = elim (Bool-cases (n % k == 0)) [
  | inl e ↦ if_ge _ e n _
  | inr e ↦
      rw e (
        omega
          (arith, div-add-mod (n + k - 1) k, mod-lt (n + k - 1) h, mul_comm k ((n + k - 1) / k)))
]
  where
    if_ge : (t : Bool) → t ≡ true → (n m : ℕ) → n ≤ (if t then n else m)
    if_ge t e n m = rw e (omega arith)

pub round_up_to_multiple-one : (n : ℕ) → round_up_to_multiple n 1 ≡ n
unfolding round_up_to_multiple
round_up_to_multiple-one n = let e : n % 1 ≡ 0 = omega arith in rw e

-- Without padding the packed row ends where its sequences do.
pub no_padding :
    (factor multiple : ℕ) (o : Option ℕ)
    → (ltb 1 factor || ltb 1 multiple || is_given o) ≡ false
    → ((n : ℕ) → end_by o multiple n ≡ n) × (ltb 1 factor ≡ false)
no_padding factor multiple none h =
    (λ n. if_false (ltb 1 multiple) (ground (arith, h)) _ n, ground (arith, h))
no_padding factor multiple (some t) h = absurd (ground (arith, h))

abbrev pub factor : Padding → ℕ
factor p = p.pad_individual_seqs_to_multiple_of

-- A sequence is at most as long as its row.
abbrev pub Fits : {A : Type 0} → List A × ℕ → Type 0
Fits s = s.1 ≤ length s.0

abbrev pub rounded : {A : Type 0} → Padding → List (List A × ℕ) → List ℕ
rounded p ss = map (λ n. round_up_to_multiple n (factor p)) (map (λ s. s.1) ss)

-- The length of all sequences, each rounded up
abbrev pub rounded_total : {A : Type 0} → Padding → List (List A × ℕ) → ℕ
rounded_total p = sum_by (λ s. round_up_to_multiple s.1 (factor p))

-- A length that is given for the packed row is enough for it.
abbrev pub HasRoom : Option ℕ → ℕ → Type 0
HasRoom none total = Unit
HasRoom (some t) total = total ≤ t

-- A sequence in the packed row: its tokens, and blanks after them.
abbrev pub IsPadded : {A : Type 0} → A → List A × ℕ → List A → Type 0
IsPadded blank s block = (n : ℕ) × (block ≡ take s.1 s.0 ++ replicate n blank)

abbrev pub ArePadded : {A : Type 0} → A → List (List A × ℕ) → List (List A) → Type 0
ArePadded blank [] [] = Unit
ArePadded blank (s ∷ ss) (b ∷ bs) = IsPadded blank s b × ArePadded blank ss bs
ArePadded blank _ _ = ⊥

abbrev pub valid_tokens : {A : Type 0} → List (List A × ℕ) → List A
valid_tokens ss = flatten (map (λ s. take s.1 s.0) ss)

pub end_by-le : (o : Option ℕ) (k total : ℕ) → HasRoom o total → total ≤ end_by o k total
end_by-le none k total room = elim (Bool-cases (ltb 1 k)) [
  | inl e ↦ rw e (round_up_to_multiple-le total k (ground (arith, e)))
  | inr e ↦ rw e (omega arith)
]
end_by-le (some t) k total room = room

module _ {A : Type 0} (blank : A) (p : Padding) where
  pub pad_sequences-ArePadded :
      (running : ℕ) (ss : List (List A × ℕ)) → ArePadded blank ss (pad_sequences blank p running ss)
  unfolding pad_sequences
  pad_sequences-ArePadded running [] = tt
  pad_sequences-ArePadded running ((row, n) ∷ ss) = (
    (padded_seq_len p (is_last ss) running n - n, refl),
    pad_sequences-ArePadded (running + padded_seq_len p (is_last ss) running n) ss,
  )

  length-block :
      (row : List A) (n m : ℕ)
      → n ≤ length row
      → n ≤ m
      → length (take n row ++ replicate (m - n) blank) ≡ m
  length-block row n m fits le =
      length-append (take n row) (replicate (m - n) blank)
      ∙ omega (arith, length-take n row, length-replicate (m - n) blank, fits, le)

  -- A block has the length that its sequence is padded to.
  pub length-middle :
      (row : List A) (n : ℕ)
      → n ≤ length row
      → 0 < (factor p)
      → length (take n row ++ replicate (round_up_to_multiple n (factor p) - n) blank)
        ≡ round_up_to_multiple n (factor p)
  length-middle row n fits h = length-block row n _ fits (round_up_to_multiple-le n (factor p) h)

  pub length-last :
      (running : ℕ) (row : List A) (n : ℕ)
      → n ≤ length row
      → 0 < (factor p)
      → HasRoom p.pad_packed_seq_to (running + round_up_to_multiple n (factor p))
      → running
          + length (
              take n row
              ++ replicate
                  ((packed_end p (running + round_up_to_multiple n (factor p)) - running) - n)
                  blank)
        ≡ packed_end p (running + round_up_to_multiple n (factor p))
  length-last running row n fits h room =
      let r = round_up_to_multiple n (factor p) in
      let enough =
        end_by-le p.pad_packed_seq_to p.pad_packed_seq_to_multiple_of (running + r) room in
      omega (
        arith,
        enough,
        round_up_to_multiple-le n (factor p) h,
        length-block row n (packed_end p (running + r) - running) fits
            (omega (arith, enough, round_up_to_multiple-le n (factor p) h)),
      )

  pub cumulative-pad_sequences :
      (running : ℕ) (ss : List (List A × ℕ))
      → is_last ss ≡ false
      → All Fits ss
      → 0 < (factor p)
      → HasRoom p.pad_packed_seq_to (running + rounded_total p ss)
      → cumulative running (map length (pad_sequences blank p running ss))
        ≡ with_last (packed_end p) (cumulative running (rounded p ss))
  unfolding pad_sequences padded_seq_len
  cumulative-pad_sequences running [] nonempty fits h room = cc
  cumulative-pad_sequences running ((row, n) ∷ []) nonempty fits h room =
      let e : running + (round_up_to_multiple n (factor p) + 0)
          ≡ running + round_up_to_multiple n (factor p) =
        omega arith in
      ap (λ m. running ∷ m ∷ [])
        (length-last running row n fits.0 h (subst (HasRoom p.pad_packed_seq_to) e room))
  cumulative-pad_sequences running ((row, n) ∷ s ∷ ss) nonempty fits h room =
      let r = round_up_to_multiple n (factor p) in
      let e : running + (r + rounded_total p (s ∷ ss)) ≡ (running + r) + rounded_total p (s ∷ ss) =
        omega arith in
      ap
        (λ m.
          running
          ∷ cumulative (running + m) (map length (pad_sequences blank p (running + r) (s ∷ ss))))
        (length-middle row n fits.0 h)
      ∙ ap (λ l. running ∷ l)
          (cumulative-pad_sequences (running + r) (s ∷ ss) refl fits.1 h
            (subst (HasRoom p.pad_packed_seq_to) e room))

  pub pad_sequences-one :
      (running : ℕ) (ss : List (List A × ℕ))
      → is_last ss ≡ false
      → All Fits ss
      → (factor p) ≡ 1
      → flatten (pad_sequences blank p running ss)
        ≡ valid_tokens ss
          ++ replicate
              (packed_end p (running + length (valid_tokens ss))
                - (running + length (valid_tokens ss)))
              blank
  unfolding pad_sequences padded_seq_len flatten
  pad_sequences-one running [] nonempty fits one = cc
  pad_sequences-one running ((row, n) ∷ []) nonempty fits one =
      let r : round_up_to_multiple n (factor p) ≡ n =
        ap (round_up_to_multiple n) one ∙ round_up_to_multiple-one n in
      let len : length (take n row ++ []) ≡ n =
        ap length (append-nil (take n row)) ∙ omega (arith, length-take n row, fits.0) in
      let same : running + round_up_to_multiple n (factor p) ≡ running + length (take n row ++ []) =
        omega (arith, r, len) in
      let count : (packed_end p (running + round_up_to_multiple n (factor p)) - running) - n
          ≡ packed_end p (running + length (take n row ++ []))
            - (running + length (take n row ++ [])) =
        omega (arith, ap (packed_end p) same, len) in
      append-nil _
      ∙ ap (λ k. take n row ++ replicate k blank) count
      ∙ ap
          (λ l.
            l
            ++ replicate
                (packed_end p (running + length (take n row ++ []))
                  - (running + length (take n row ++ [])))
                blank)
          (sym (append-nil (take n row)))
  pad_sequences-one running ((row, n) ∷ s ∷ ss) nonempty fits one =
      let r : round_up_to_multiple n (factor p) ≡ n =
        ap (round_up_to_multiple n) one ∙ round_up_to_multiple-one n in
      let rest = valid_tokens (s ∷ ss) in
      let none_added : round_up_to_multiple n (factor p) - n ≡ 0 = omega (arith, r) in
      let same : (running + round_up_to_multiple n (factor p)) + length rest
          ≡ running + length (take n row ++ rest) =
        omega (arith, r, length-append (take n row) rest, length-take n row, fits.0) in
      ap
        (λ k.
          (take n row ++ replicate k blank)
          ++ flatten (pad_sequences blank p (running + round_up_to_multiple n (factor p)) (s ∷ ss)))
        none_added
      ∙ ap
          (λ l.
            l
            ++ flatten
                (pad_sequences blank p (running + round_up_to_multiple n (factor p)) (s ∷ ss)))
          (append-nil (take n row))
      ∙ ap (λ l. take n row ++ l)
          (pad_sequences-one (running + round_up_to_multiple n (factor p)) (s ∷ ss) refl fits.1 one)
      ∙ sym (append_assoc (take n row) rest _)
      ∙ ap (λ m. (take n row ++ rest) ++ replicate (packed_end p m - m) blank) same
