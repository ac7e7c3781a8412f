-- ===== src/Batch/Packed/Deal.antt =====
-- The bins that sequence packing (`shard_by_batch_size` of `BatchedDataDict`) deals to the shards.
use ne_mo_rl.Common.{
  ℕ, zero, suc, ◌+◌, ◌*◌, ◌/◌, ◌%◌, ◌≤◌, ◌<◌, ◌≡◌, ◌≢◌, refl, sym, ap, ◌∙◌, subst, List, [], ◌∷◌,
  length, length-set, length-append, length-replicate, get_or, get_or-set_self, get_or-set_ne,
  get_or-replicate, set, replicate, arith, Bool-cases, inl, inr, ==_iff, ◌==◌, All, All-append,
  sum_by, sum_by-append,
}
use ne_mo_rl.Packing.Packer.{Bin, Bins}
use ne_mo_rl.Batch.Packed.{append_at, deal}
use native.Mathlib.Decide.{dec_lt}
use native.Mathlib.Nat.{
  mod-eq_of_lt, mod-lt, suc-mul, mul-add-mod_self_right, mul-mod_left, mul-div_left,
}

pub length-deal :
    (shards k : ℕ) (bins : Bins) (sharded : List Bins)
    → length (deal shards k bins sharded) ≡ length sharded
unfolding deal
length-deal shards k [] sharded = refl
length-deal shards k (b ∷ bins) sharded =
    length-deal shards (suc k) bins (append_at sharded (k % shards) b)
    ∙ length-set sharded (k % shards) _

-- What the bins of a shard all have, where all bins have it.
module _ (P : Bin → Type 0) where
  All-set :
      (sharded : List Bins) (i : ℕ) (v : Bins)
      → All (All P) sharded
      → All P v
      → All (All P) (set sharded i v)
  All-set [] i v h hv = tt
  All-set (s ∷ sharded) zero v h hv = (hv, h.1)
  All-set (s ∷ sharded) (suc i) v h hv = (h.0, All-set sharded i v h.1 hv)

  All-get_or : (sharded : List Bins) (i : ℕ) → All (All P) sharded → All P (get_or sharded i [])
  All-get_or [] i h = tt
  All-get_or (s ∷ sharded) zero h = h.0
  All-get_or (s ∷ sharded) (suc i) h = All-get_or sharded i h.1

  pub All-deal :
      (shards k : ℕ) (bins : Bins) (sharded : List Bins)
      → All P bins
      → All (All P) sharded
      → All (All P) (deal shards k bins sharded)
  unfolding deal
  All-deal shards k [] sharded h hs = hs
  All-deal shards k (b ∷ bins) sharded h hs =
      All-deal shards (suc k) bins (append_at sharded (k % shards) b) h.1 (
        All-set sharded (k % shards) _ hs (
          All-append P (get_or sharded (k % shards) []) (b ∷ [])
            (All-get_or sharded (k % shards) hs) (h.0, tt)))

  pub All-replicate : (n : ℕ) → All (All P) (replicate n [])
  All-replicate zero = tt
  All-replicate (suc n) = (tt, All-replicate n)

-- Dealing keeps the bins: any weighing gives the same sum.
module _ (w : Bin → ℕ) where
  sum_by-append_at :
      (sharded : List Bins) (i : ℕ) (b : Bin)
      → i < length sharded
      → sum_by (sum_by w) (append_at sharded i b) ≡ sum_by (sum_by w) sharded + w b
  sum_by-append_at [] i b h = absurd (omega arith)
  sum_by-append_at (s ∷ sharded) zero b h = omega (arith, sum_by-append w s (b ∷ []))
  sum_by-append_at (s ∷ sharded) (suc i) b h =
      omega (arith, sum_by-append_at sharded i b (omega arith))

  pub sum_by-deal :
      (shards k : ℕ) (bins : Bins) (sharded : List Bins)
      → 0 < shards
      → length sharded ≡ shards
      → sum_by (sum_by w) (deal shards k bins sharded) ≡ sum_by (sum_by w) sharded + sum_by w bins
  unfolding deal
  sum_by-deal shards k [] sharded h e = omega arith
  sum_by-deal shards k (b ∷ bins) sharded h e = omega (
    arith,
    sum_by-deal shards (suc k) bins (append_at sharded (k % shards) b) h
        (length-set sharded (k % shards) _ ∙ e),
    sum_by-append_at sharded (k % shards) b (omega (arith, mod-lt k h, e)),
  )

  pub sum_by-replicate : (n : ℕ) → sum_by (sum_by w) (replicate n []) ≡ 0
  sum_by-replicate zero = refl
  sum_by-replicate (suc n) = omega (arith, sum_by-replicate n)

-- After bin number `q * shards + r` the first `r` shards are one bin ahead.
abbrev IsDealt : ℕ → ℕ → ℕ → List Bins → Type 0
IsDealt shards q r sharded =
    (i : ℕ)
    → i < shards
    → (i < r → length (get_or sharded i []) ≡ suc q) × (r ≤ i → length (get_or sharded i []) ≡ q)

append_at-IsDealt :
    (shards q r : ℕ) (sharded : List Bins) (b : Bin)
    → r < shards
    → length sharded ≡ shards
    → IsDealt shards q r sharded
    → IsDealt shards q (suc r) (append_at sharded r b)
append_at-IsDealt shards q r sharded b lt e h i hi = elim (Bool-cases (i == r)) [
  | inl t ↦
      let same : i ≡ r = (==_iff i r).0 t in
      let grown : length (get_or (append_at sharded r b) i []) ≡ suc q =
        ap (λ j. length (get_or (append_at sharded r b) j [])) same
        ∙ ap length (get_or-set_self sharded r _ [] (omega (arith, e)))
        ∙ length-append (get_or sharded r []) (b ∷ [])
        ∙ omega (arith, (h r lt).1 (omega arith)) in
      (λ _. grown, λ le. absurd (omega arith))
  | inr f ↦
      let other : i ≢ r = λ e'. absurd (ground (arith, f, e')) in
      let kept : get_or (append_at sharded r b) i [] ≡ get_or sharded i [] =
        get_or-set_ne sharded r i _ [] (λ e'. other (sym e')) in
      (
        λ below. ap length kept ∙ (h i hi).0 (ground (arith, other)),
        λ le. ap length kept ∙ (h i hi).1 (omega arith),
      )
]

-- The next round
IsDealt-wrap :
    (shards q : ℕ) (sharded : List Bins)
    → IsDealt shards q shards sharded
    → IsDealt shards (suc q) 0 sharded
IsDealt-wrap shards q sharded h i hi = (λ below. absurd (omega arith), λ le. (h i hi).0 hi)

deal-IsDealt :
    (shards q r k : ℕ) (bins : Bins) (sharded : List Bins)
    → k ≡ q * shards + r
    → r < shards
    → length sharded ≡ shards
    → IsDealt shards q r sharded
    → (q' : ℕ) × (r' : ℕ) × (r' < shards)
      × (k + length bins ≡ q' * shards + r')
      × IsDealt shards q' r' (deal shards k bins sharded)
unfolding deal
deal-IsDealt shards q r k [] sharded at lt e h = (q, r, lt, omega (arith, at), h)
deal-IsDealt shards q r k (b ∷ bins) sharded at lt e h =
    let here : r ≡ k % shards =
      sym (ap (λ j. j % shards) at ∙ mul-add-mod_self_right q shards r ∙ mod-eq_of_lt lt) in
    let dealt : List Bins = append_at sharded (k % shards) b in
    let next : IsDealt shards q (suc r) dealt =
      subst (λ j. IsDealt shards q (suc r) (append_at sharded j b)) here
        (append_at-IsDealt shards q r sharded b lt e h) in
    let len : length dealt ≡ shards = length-set sharded (k % shards) _ ∙ e in
    elim (dec_lt (suc r) shards) [
      | yes more ↦
          let (q', r', lt', sum, d) =
            deal-IsDealt shards q (suc r) (suc k) bins dealt (omega (arith, at)) more len next in
          (q', r', lt', omega (arith, sum), d)
      | no full ↦
          let whole : suc r ≡ shards = omega arith in
          let (q', r', lt', sum, d) =
            deal-IsDealt shards (suc q) 0 (suc k) bins dealt
              (omega (arith, at, whole, suc-mul q shards)) (omega arith) len
              (IsDealt-wrap shards q dealt (subst (λ j. IsDealt shards q j dealt) whole next)) in
          (q', r', lt', omega (arith, sum), d)
    ]

-- A number of bins that is a multiple of the shards gives every shard as many.
pub deal-even :
    (shards k : ℕ) (bins : Bins)
    → 0 < shards
    → length bins ≡ k * shards
    → (i : ℕ) → i < shards
    → length (get_or (deal shards 0 bins (replicate shards [])) i []) ≡ k
deal-even shards k bins h e i hi =
    let (q, r, lt, sum, d) =
      deal-IsDealt shards 0 0 0 bins (replicate shards []) (omega arith) h
        (length-replicate shards [])
        (λ j hj. (λ below. absurd (omega arith), λ le. ap length (get_or-replicate shards j []))) in
    let total : q * shards + r ≡ k * shards = omega (arith, sum, e) in
    let none_left : r ≡ 0 =
      sym (mod-eq_of_lt lt)
      ∙ sym (mul-add-mod_self_right q shards r)
      ∙ ap (λ j. j % shards) total
      ∙ mul-mod_left k shards in
    let rounds : q ≡ k =
      sym (mul-div_left q h)
      ∙ ap (λ j. j / shards) (omega (arith, total, none_left))
      ∙ mul-div_left k h in
    (d i hi).1 (omega (arith, none_left)) ∙ rounds
