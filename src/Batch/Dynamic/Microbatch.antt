-- ===== src/Batch/Dynamic/Microbatch.antt =====
-- What the loop of dynamic batching (`shard_by_batch_size` of `BatchedDataDict`,
-- nemo_rl/distributed/batched_data_dict.py) keeps of its microbatches.
use ne_mo_rl.Common.{
  ℕ, zero, suc, ◌+◌, ◌-◌, ◌*◌, ◌≤◌, ◌<◌, ◌≡◌, refl, sym, ap, ◌∙◌, subst, List, [], ◌∷◌, ◌++◌,
  Outcome, ok, range_from, arith, max, leb, le→leb, leb→le, Bool-cases, inl, inr,
}
use ne_mo_rl.Batch.{BatchError}
use ne_mo_rl.Batch.Dynamic.{
  MicroBatches, empty_micro_batches, chunk_micro_batch_indices, chunk_micro_batch_lengths,
  add_indice, add_indices,
}
use native.Mathlib.Decide.{dec_lt}

width_one : (n : ℕ) → 1 ≡ n + 1 - n
width_one n = omega arith

max_zero : (n : ℕ) → n ≡ max 0 n
max_zero n = omega arith

-- `Serves i l`: a microbatch of rows of length `l` serves index `i`.
module _ (max_tokens : ℕ) (Serves : ℕ → ℕ → Type 0) where
  abbrev pub IsMicroBatch : ℕ → ℕ → ℕ → Type 0
  IsMicroBatch s e l = (s < e) × ((e - s) * l ≤ max_tokens) × ((i : ℕ) → s ≤ i → i < e → Serves i l)

  -- The ranges follow each other from `a` to `b`, and every one is a microbatch.
  abbrev pub IsMicroBatching : ℕ → List (ℕ × ℕ) → List ℕ → ℕ → Type 0
  IsMicroBatching a [] [] b = a ≡ b
  IsMicroBatching a [] (l ∷ lengths) b = ⊥
  IsMicroBatching a (r ∷ indices) [] b = ⊥
  IsMicroBatching a (r ∷ indices) (l ∷ lengths) b =
      (r.0 ≡ a) × IsMicroBatch r.0 r.1 l × IsMicroBatching r.1 indices lengths b

  IsMicroBatching-snoc :
      (a : ℕ) (indices : List (ℕ × ℕ)) (lengths : List ℕ) (s e l : ℕ)
      → IsMicroBatching a indices lengths s
      → IsMicroBatch s e l
      → IsMicroBatching a (indices ++ (s, e) ∷ []) (lengths ++ l ∷ []) e
  IsMicroBatching-snoc a [] [] s e l h m = (sym h, m, refl)
  IsMicroBatching-snoc a [] (k ∷ lengths) s e l h m = absurd h
  IsMicroBatching-snoc a (r ∷ indices) [] s e l h m = absurd h
  IsMicroBatching-snoc a (r ∷ indices) (k ∷ lengths) s e l h m =
      (h.0, h.1, IsMicroBatching-snoc r.1 indices lengths s e l h.2 m)

  -- The microbatches of the indices below `n`.
  record IsProgress (n : ℕ) (m : MicroBatches) : Type 0 where
    before : IsMicroBatching 0 m.closed m.closed_lengths m.start
    last : IsMicroBatch m.start m.stop m.last_length
    stop_at : m.stop ≡ n
    same : m.last_length ≡ m.max_seqlen

  module _ (mono : (i k l : ℕ) → k ≤ l → Serves i k → Serves i l) where
    -- a microbatch of one row
    alone : (n need : ℕ) → need ≤ max_tokens → Serves n need → IsMicroBatch n (n + 1) need
    alone n need small serves = (
      omega arith,
      subst (λ k. k * need ≤ max_tokens) (width_one n) (omega (arith, small)),
      λ i lo hi. subst (λ k. Serves k need) (omega arith) serves,
    )

    add_indice-IsProgress :
        (n need : ℕ) (m : MicroBatches)
        → need ≤ max_tokens
        → Serves n need
        → IsProgress n m
        → IsProgress (suc n) (add_indice max_tokens n need m)
    unfolding add_indice
    add_indice-IsProgress n need m small serves p =
        elim (Bool-cases (leb ((m.stop - m.start + 1) * max m.max_seqlen need) max_tokens)) [
          | inl e ↦ rw e (record {
            before = p.before;
            last = (
              omega (arith, p.last.0),
              subst (λ k. k * max m.max_seqlen need ≤ max_tokens) (omega (arith, p.last.0))
                  (leb→le _ max_tokens e),
              λ i lo hi. elim (dec_lt i m.stop) [
                | yes lt ↦ mono i m.last_length _ (omega (arith, p.same)) (p.last.2 i lo lt)
                | no ge ↦
                    mono i need _ (omega arith)
                      (subst (λ k. Serves k need) (omega (arith, p.stop_at)) serves)
              ],
            );
            stop_at = omega (arith, p.stop_at);
            same = refl;
          })
          | inr e ↦ rw e (record {
            before =
                subst
                  (λ k.
                    IsMicroBatching 0 (chunk_micro_batch_indices m) (chunk_micro_batch_lengths m) k)
                  p.stop_at
                  (IsMicroBatching-snoc 0 m.closed m.closed_lengths m.start m.stop m.last_length
                    p.before p.last);
            last = alone n need small serves;
            stop_at = omega arith;
            same = refl;
          })
        ]

    add_indice_first :
        (need : ℕ)
        → need ≤ max_tokens
        → Serves 0 need
        → IsProgress 1 (add_indice max_tokens 0 need empty_micro_batches)
    unfolding add_indice
    add_indice_first need small serves =
        rw (le→leb ((0 - 0 + 1) * max 0 need) max_tokens (omega (arith, small))) (record {
          before = refl;
          last = subst (λ l. IsMicroBatch 0 (0 + 1) l) (max_zero need) (alone 0 need small serves);
          stop_at = refl;
          same = refl;
        })

    module _ (needed : ℕ → Outcome BatchError ℕ) (size : ℕ)
        (enough : (i : ℕ)
          → i < size
          → (l : ℕ) × (needed i ≡ ok l) × (l ≤ max_tokens) × Serves i l) where
      add_indices-IsProgress :
          (n i : ℕ) (m : MicroBatches)
          → i + n ≤ size
          → IsProgress i m
          → (m' : MicroBatches) × (add_indices max_tokens needed (range_from i n) m ≡ ok m')
            × IsProgress (i + n) m'
      unfolding add_indices
      add_indices-IsProgress zero i m h p = (m, refl, subst (λ k. IsProgress k m) (omega arith) p)
      add_indices-IsProgress (suc n) i m h p =
          let (l, e, small, serves) = enough i (omega arith) in
          let (m', e', p') =
            add_indices-IsProgress n (suc i) (add_indice max_tokens i l m) (omega arith)
              (add_indice-IsProgress i l m small serves p) in
          (m', rw e e', subst (λ k. IsProgress k m') (omega arith) p')

      pub add_indices-IsMicroBatching :
          0 < size
          → (m : MicroBatches) × (add_indices max_tokens needed
                (range_from 0 size)
                empty_micro_batches
              ≡ ok m)
            × IsMicroBatching 0 (chunk_micro_batch_indices m) (chunk_micro_batch_lengths m) size
      unfolding add_indices
      add_indices-IsMicroBatching pos =
          let n : ℕ = size - 1 in
          let whole : size ≡ suc n = omega arith in
          let (l, e, small, serves) = enough 0 pos in
          let (m, e', p) =
            add_indices-IsProgress n 1 (add_indice max_tokens 0 l empty_micro_batches) (omega arith)
              (add_indice_first l small serves) in
          (
            m,
            ap (λ k. add_indices max_tokens needed (range_from 0 k) empty_micro_batches) whole
                ∙ rw e e',
            subst
                (λ k.
                  IsMicroBatching 0 (chunk_micro_batch_indices m) (chunk_micro_batch_lengths m) k)
                (omega (arith, p.stop_at))
                (IsMicroBatching-snoc 0 m.closed m.closed_lengths m.start m.stop m.last_length
                  p.before p.last),
          )
