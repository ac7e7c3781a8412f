-- ===== src/Packing/Adjust/Laws.antt =====
-- The loop of `_adjust_bin_count` over the new bins (nemo_rl/data/packing/algorithms.py).
use ne_mo_rl.Common.{
  ℕ, zero, suc, ◌+◌, ◌≤◌, ◌<◌, ◌≡◌, refl, sym, ap, ◌∙◌, inl, List, [], ◌∷◌, length, get_or, sum_by,
  arith, Outcome, ok, raise,
}
use native.Mathlib.Decide.{ℕ_discrete, dec_le}
use ne_mo_rl.Packing.Packer.{Bins, PackingError, insufficient_to_redistribute}
use ne_mo_rl.Packing.Adjust.{find_source, move_one, redistribute}
use ne_mo_rl.Packing.Adjust.Moves.{
  sum_by-drop_last, length-drop_last, length-move_one, move_one_new, move_one-source,
  move_one_other, sum_by-move_one,
}
use ne_mo_rl.Packing.Adjust.Sources.{IsSpread, Found, find_source_lem, smaller-total, total_length}

module _ (Strict : Type 0) (size : ℕ → ℕ) (capacity : ℕ) where
  -- what the loop keeps of the bins
  pub record Kept (new : ℕ) (bins : Bins) : Type 0 where
    pub filled : Strict → (j : ℕ) → j < new → 0 < length (get_or bins j [])
    pub fits : Strict → (j : ℕ) → sum_by size (get_or bins j []) ≤ capacity

  module _ (bins : Bins) (new found_size i : ℕ) (sources rest : List (ℕ × ℕ))
      (spread : IsSpread new sources bins) (room : new < length bins)
      (found : Found bins sources ((found_size, i) ∷ rest)) where
    abbrev fresh_new : get_or bins new [] ≡ []
    fresh_new = spread.fresh new (omega arith)

    move-IsSpread : IsSpread (suc new) ((found_size, i) ∷ rest) (move_one bins i new)
    move-IsSpread = record {
      reach = λ j lt. elim (ℕ_discrete j new) [
        | yes e ↦ absurd (
            omega (
              arith,
              lt,
              ap length (
                  ap (λ k. get_or (move_one bins i new) k []) e
                  ∙ move_one_new bins i new found.0 room fresh_new),
            ))
        | no p ↦ elim (ℕ_discrete j i) [
          | yes e ↦ inl e
          | no q ↦
              found.1 j
                (spread.reach j (
                  omega (
                    arith,
                    lt,
                    ap length (move_one_other bins i new found.0 room fresh_new j q p),
                  )))
                (omega
                  (arith, lt, ap length (move_one_other bins i new found.0 room fresh_new j q p)))
        ]
      ];
      fresh = λ j le.
          move_one_other bins i new found.0 room fresh_new j
            (λ e. absurd (
              omega (
                arith,
                found.0,
                ap length (ap (λ k. get_or bins k []) (sym e) ∙ spread.fresh j (omega arith)),
              )))
            (omega arith)
          ∙ spread.fresh j (omega arith);
    }

    move-Kept : Kept new bins → Kept (suc new) (move_one bins i new)
    move-Kept k = record {
      filled = λ st j lt. elim (ℕ_discrete j new) [
        | yes e ↦ rw e (rw (move_one_new bins i new found.0 room fresh_new) (omega arith))
        | no p ↦ elim (ℕ_discrete j i) [
          | yes e ↦ rw e (
              rw (move_one-source bins i new found.0 room fresh_new)
                (omega (arith, found.0, length-drop_last (get_or bins i []))))
          | no q ↦
              rw (move_one_other bins i new found.0 room fresh_new j q p)
                (k.filled st j (omega arith))
        ]
      ];
      fits = λ st j. elim (ℕ_discrete j new) [
        | yes e ↦ rw e (
            rw (move_one_new bins i new found.0 room fresh_new) (
              omega (
                arith,
                k.fits st i,
                sum_by-drop_last size (get_or bins i []) (omega (arith, found.0)),
              )))
        | no p ↦ elim (ℕ_discrete j i) [
          | yes e ↦ rw e (
              rw (move_one-source bins i new found.0 room fresh_new) (
                omega (
                  arith,
                  k.fits st i,
                  sum_by-drop_last size (get_or bins i []) (omega (arith, found.0)),
                )))
          | no q ↦ rw (move_one_other bins i new found.0 room fresh_new j q p) (k.fits st j)
        ]
      ];
    }

  abbrev pub SpreadTo : Bins → Outcome PackingError Bins → Type 0
  SpreadTo bins result =
      (bins' : Bins) × (result ≡ ok bins')
      × (length bins' ≡ length bins)
      × ((w : ℕ → ℕ) → sum_by (sum_by w) bins' ≡ sum_by (sum_by w) bins)
      × Kept (length bins) bins'

  after_move :
      (bins moved : Bins) (result : Outcome PackingError Bins)
      → length moved ≡ length bins
      → ((w : ℕ → ℕ) → sum_by (sum_by w) moved ≡ sum_by (sum_by w) bins)
      → SpreadTo moved result
      → SpreadTo bins result
  after_move bins moved result len sums (bins', e, n, same, kept) =
      (bins', e, n ∙ len, λ w. same w ∙ sums w, rw len at kept)

  stuck :
      (bins : Bins) (new : ℕ) (sources : List (ℕ × ℕ))
      → new < length bins
      → length bins ≤ sum_by length bins
      → IsSpread new sources bins
      → Found bins sources []
      → ⊥
  stuck bins new sources room enough spread none = omega (
    arith,
    enough,
    smaller-total bins new (λ i. at_most_one i) room (spread.fresh new (omega arith)),
  )
    where
      at_most_one : (i : ℕ) → length (get_or bins i []) ≤ 1
      at_most_one i = elim (dec_le (length (get_or bins i [])) 1) [
        | yes p ↦ p
        | no p ↦ none i (spread.reach i (omega arith))
      ]

  pub redistribute_lem :
      (k new : ℕ) (sources : List (ℕ × ℕ)) (bins : Bins)
      → new + k ≡ length bins
      → length bins ≤ sum_by length bins
      → IsSpread new sources bins
      → Kept new bins
      → SpreadTo bins (redistribute k new sources bins)
  unfolding redistribute
  redistribute_lem zero new sources bins len enough spread kept = (
    bins,
    refl,
    refl,
    λ w. refl,
    record { filled = λ st j lt. kept.filled st j (omega (arith, len)); fits = kept.fits },
  )
  redistribute_lem (suc k) new sources bins len enough spread kept =
      let room : new < length bins = omega (arith, len) in
      (elim (find_source bins sources)
          as (λ f.
            Found bins sources f
            → SpreadTo bins (elim f [
              | [] ↦ raise insufficient_to_redistribute
              | (size, i) ∷ rest ↦ redistribute k (suc new) ((size, i) ∷ rest) (move_one bins i new)
            ])) [
              | [] ↦ λ none. absurd (stuck bins new sources room enough spread none)
              | (s, i) ∷ rest ↦ λ found.
                  let sums =
                    sum_by-move_one bins i new found.0 room (spread.fresh new (omega arith)) in
                  let same =
                    length-move_one bins i new found.0 room (spread.fresh new (omega arith)) in
                  after_move bins (move_one bins i new) _ same sums (
                    redistribute_lem k (suc new) ((s, i) ∷ rest) (move_one bins i new)
                      (omega (arith, same, len))
                      (omega (
                        arith,
                        same,
                        enough,
                        sums (λ j. 1),
                        total_length bins,
                        total_length (move_one bins i new),
                      ))
                      (move-IsSpread bins new s i sources rest spread room found)
                      (move-Kept bins new s i sources rest spread room found kept))
            ])
        (find_source_lem bins sources)
