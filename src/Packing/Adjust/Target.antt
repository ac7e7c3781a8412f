-- ===== src/Packing/Adjust/Target.antt =====
-- `_adjust_bin_count` as a whole (nemo_rl/data/packing/algorithms.py).
use ne_mo_rl.Common.{
  ℕ, zero, suc, ◌+◌, ◌-◌, ◌≤◌, ◌<◌, ◌≡◌, ◌≢◌, refl, sym, ap, subst, ◌∙◌, ◌⊎◌, inl, inr, List, [],
  ◌∷◌, ◌++◌, length, length-append, length-replicate, get_or, get_or-append_left,
  get_or-append_right, get_or-replicate, sum_by, sum_by-append, All, Has, arith, Bool-cases, ltb,
  ltb→lt, ◌==◌, ==_iff, Outcome, ok, raise, replicate, if◌then◌else◌, sort_by, sum_by-sort_by,
  sum_by-flatten, perm_of_SameItems, range_from,
}
use native.Mathlib.Decide.{dec_lt}
use ne_mo_rl.Packing.Packer.{
  Bin, Bins, SequencePacker, load, descending, PackingError, not_enough_sequences,
  insufficient_to_redistribute,
}
use ne_mo_rl.Packing.Spec.{IsPacking, NonEmpty}
use ne_mo_rl.Packing.FirstFit.Optimality.{sum_by-perm}
use ne_mo_rl.Packing.Adjust.{redistribute, bin_sizes_from, target_bin_count, adjust_bin_count}
use ne_mo_rl.Packing.Adjust.Moves.{All_of_get_or, get_or_of_All}
use ne_mo_rl.Packing.Adjust.Laws.{Kept, redistribute_lem}
use ne_mo_rl.Packing.Adjust.Sources.{IsSpread, indices, total_length}
use ne_mo_rl.Packing.Adjust.Rounding.{target_bin_count-le}

Has-of_count :
    (j : ℕ) (sources : List (ℕ × ℕ))
    → 0 < sum_by (λ p. if p.1 == j then 1 else 0) sources
    → Has j (indices sources)
Has-of_count j [] h = absurd (omega arith)
Has-of_count j ((s, i) ∷ rest) h = elim (Bool-cases (i == j)) [
  | inl e ↦ inl (sym ((==_iff i j).0 e))
  | inr e ↦ inr (Has-of_count j rest (ground arith))
]

count-bin_sizes_from :
    (i j : ℕ) (bins : Bins)
    → j < length bins
    → 0 < sum_by (λ p. if p.1 == (i + j) then 1 else 0) (bin_sizes_from i bins)
unfolding bin_sizes_from
count-bin_sizes_from i j [] h = elim h [ ]
count-bin_sizes_from i zero (b ∷ bins) h = ground arith
count-bin_sizes_from i (suc j) (b ∷ bins) h =
    let later = count-bin_sizes_from (suc i) j bins (omega arith) in
    let same : suc i + j ≡ i + suc j = omega arith in ground (arith, rw same at later)

packed_total :
    (capacity : ℕ) (lengths : List ℕ) (bins : Bins)
    → IsPacking capacity lengths bins
    → sum_by length bins ≡ length lengths
packed_total capacity lengths bins v =
    sym (total_length bins)
    ∙ sym (sum_by-flatten (λ i. 1) bins)
    ∙ sum_by-perm (λ i. 1) v.items
    ∙ range_ones 0 (length lengths)
  where
    range_ones : (i n : ℕ) → sum_by (λ j. 1) (range_from i n) ≡ n
    range_ones i zero = refl
    range_ones i (suc n) = omega (arith, range_ones (suc i) n)

nonempty_total : (bins : Bins) → All NonEmpty bins → length bins ≤ sum_by length bins
nonempty_total [] h = omega arith
nonempty_total (b ∷ bins) h = omega (arith, h.0, nonempty_total bins h.1)

module _ (p : SequencePacker) (bins : Bins) where
  abbrev current : ℕ
  current = length bins

  abbrev target : ℕ
  target = target_bin_count p current

  abbrev sources : List (ℕ × ℕ)
  sources = sort_by descending (bin_sizes_from 0 bins)

  abbrev extended : Bins
  extended = bins ++ replicate (target - current) []

  in_sources : (j : ℕ) → j < current → Has j (indices sources)
  in_sources j lt = Has-of_count j sources (
      omega (
        arith,
        sum_by-sort_by descending (λ q. if q.1 == j then 1 else 0) (bin_sizes_from 0 bins),
        let shift : 0 + j ≡ j = omega arith in
            subst (λ k. 0 < sum_by (λ q. if q.1 == k then 1 else 0) (bin_sizes_from 0 bins)) shift
              (count-bin_sizes_from 0 j bins lt),
      ))

  length-extended : length extended ≡ target
  length-extended = omega (
    arith,
    length-append bins (replicate (target - current) []),
    length-replicate {0} {A = Bin} (target - current) [],
    target_bin_count-le p current,
  )

  extended_fresh : (j : ℕ) → current ≤ j → get_or extended j [] ≡ []
  extended_fresh j le =
      get_or-append_right bins (replicate (target - current) []) j [] le
      ∙ get_or-replicate (target - current) (j - current) []

  start-IsSpread : IsSpread current sources extended
  start-IsSpread = record {
    reach = λ j lt. elim (dec_lt j current) [
      | yes q ↦ in_sources j q
      | no q ↦ absurd (omega (arith, lt, ap length (extended_fresh j (omega arith))))
    ];
    fresh = extended_fresh;
  }

  sum_by-empty : (w : Bin → ℕ) → w [] ≡ 0 → (n : ℕ) → sum_by w (replicate n []) ≡ 0
  sum_by-empty w e zero = refl
  sum_by-empty w e (suc n) = omega (arith, e, sum_by-empty w e n)

  sum_by-extended : (w : Bin → ℕ) → w [] ≡ 0 → sum_by w extended ≡ sum_by w bins
  sum_by-extended w e = omega (
    arith,
    sum_by-append w bins (replicate (target - current) []),
    sum_by-empty w e (target - current),
  )

  module _ (capacity : ℕ) (lengths : List ℕ) where
    abbrev size : ℕ → ℕ
    size i = get_or lengths i 0

    abbrev Valid : Type 0
    Valid = IsPacking capacity lengths bins

    start-Kept : Kept Valid size capacity current extended
    start-Kept = record {
      filled = λ v j lt.
          rw (get_or-append_left bins (replicate (target - current) []) j [] lt)
            (get_or_of_All NonEmpty bins [] j lt v.nonempty);
      fits = λ v j. elim (dec_lt j current) [
        | yes q ↦
            rw (get_or-append_left bins (replicate (target - current) []) j [] q)
              (get_or_of_All (λ b. load lengths b ≤ capacity) bins [] j q v.fits)
        | no q ↦ rw (extended_fresh j (omega arith)) (omega arith)
      ];
    }

    abbrev Adjusted : Bins → Type 0
    Adjusted bins' =
        (length bins' ≡ target)
        × ((w : ℕ → ℕ) → sum_by (sum_by w) bins' ≡ sum_by (sum_by w) bins)
        × (Valid → IsPacking capacity lengths bins')

    redistributed :
        target ≤ sum_by length bins
        → (bins' : Bins) × (redistribute (target - current) current sources extended ≡ ok bins')
          × Adjusted bins'
    redistributed enough =
        let (bins', e, len, same, kept) =
          redistribute_lem Valid size capacity (target - current) current sources extended
            (omega (arith, length-extended, target_bin_count-le p current))
            (omega (arith, length-extended, enough, sum_by-extended length refl)) start-IsSpread
            start-Kept in
        (
          bins',
          e,
          (
            len ∙ length-extended,
            λ w. same w ∙ sum_by-extended (sum_by w) refl,
            λ v. record {
              items = perm_of_SameItems _ _ (λ w.
                  sum_by-flatten w bins'
                  ∙ same w
                  ∙ sum_by-extended (sum_by w) refl
                  ∙ sym (sum_by-flatten w bins)
                  ∙ sum_by-perm w v.items);
              fits =
                  All_of_get_or (λ b. load lengths b ≤ capacity) bins' [] (λ j lt. kept.fits v j);
              nonempty =
                  All_of_get_or NonEmpty bins' [] (λ j lt. kept.filled v j (omega (arith, len)));
            },
          ),
        )

    abbrev Settled : Outcome PackingError Bins → Type 0
    Settled result =
        ((bins' : Bins) × (result ≡ ok bins') × Adjusted bins')
        ⊎ ((sum_by length bins < target) × (result ≡ raise not_enough_sequences))

    adjust_cases : Settled (adjust_bin_count p bins)
    unfolding adjust_bin_count
    adjust_cases = elim (Bool-cases (target == current)) [
      | inl e ↦ inl (bins, rw e, (sym ((==_iff target current).0 e), λ w. refl, λ v. v))
      | inr e ↦ elim (Bool-cases (ltb (sum_by length bins) target)) [
        | inl f ↦ inr (ltb→lt (sum_by length bins) target f, rw (e, f))
        | inr f ↦ let (bins', g, a) = redistributed (ground arith) in inl (bins', rw (e, f) g, a)
      ]
    ]

-- `_adjust_bin_count` never raises the error that its source calls a bug: whatever the bins and
-- the settings, a bin with two sequences is found for each new bin.
adjust_bin_count-never_stuck :
    (p : SequencePacker) (bins : Bins)
    → adjust_bin_count p bins ≢ raise insufficient_to_redistribute
adjust_bin_count-never_stuck p bins h = elim (adjust_cases p bins 0 []) [
  | inl (bins', e, _) ↦ cc
  | inr (_, e) ↦ cc
]

-- From a valid packing of at least as many sequences as bins are asked for, `_adjust_bin_count`
-- returns a valid packing of the same sequences into exactly the number of bins asked for.
pub adjust_bin_count-IsPacking :
    (p : SequencePacker) (capacity : ℕ) (lengths : List ℕ) (bins : Bins)
    → IsPacking capacity lengths bins
    → target_bin_count p (length bins) ≤ length lengths
    → (bins' : Bins) × (adjust_bin_count p bins ≡ ok bins')
      × (length bins' ≡ target_bin_count p (length bins))
      × IsPacking capacity lengths bins'
adjust_bin_count-IsPacking p capacity lengths bins v enough =
    elim (adjust_cases p bins capacity lengths) [
      | inl (bins', e, (len, same, keep)) ↦ (bins', e, len, keep v)
      | inr (few, e) ↦ absurd (omega (arith, few, enough, packed_total capacity lengths bins v))
    ]

-- From a valid packing of fewer sequences than bins are asked for, `_adjust_bin_count` raises
-- the error that says so.
pub adjust_bin_count-raises :
    (p : SequencePacker) (capacity : ℕ) (lengths : List ℕ) (bins : Bins)
    → IsPacking capacity lengths bins
    → length lengths < target_bin_count p (length bins)
    → adjust_bin_count p bins ≡ raise not_enough_sequences
adjust_bin_count-raises p capacity lengths bins v few =
    elim (adjust_cases p bins capacity lengths) [
      | inl (bins', e, (len, same, keep)) ↦ absurd (
          omega (
            arith,
            few,
            len,
            packed_total capacity lengths bins' (keep v),
            nonempty_total bins' (keep v).nonempty,
          ))
      | inr (_, e) ↦ e
    ]
