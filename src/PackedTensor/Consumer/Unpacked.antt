-- ===== src/PackedTensor/Consumer/Unpacked.antt =====
-- The metadata of a group and what the groups unpack to (nemo_rl/utils/packed_tensor.py).
use ne_mo_rl.Common.{ℕ, suc, ◌+◌, ◌≡◌, refl, ap, ◌∙◌, List, [], ◌∷◌, ◌++◌, length, sum_by, arith}
use ne_mo_rl.PackedTensor.{Bytes}
use ne_mo_rl.PackedTensor.Consumer.{TensorInfo, MetaData, tensor_size_of, unpack_tensor}

module _ {Name Dtype : Type 0} (itemsize : Dtype → ℕ) where
  -- The metadata of a group's items, the first one at the offset given.
  abbrev pub entries : ℕ → List (TensorInfo Name Dtype) → List (MetaData Name Dtype)
  entries offset [] = []
  entries offset (x ∷ xs) =
      record { info = x; offset = offset; tensor_size = tensor_size_of itemsize x }
      ∷ entries (offset + tensor_size_of itemsize x) xs

  pub entries-append_one :
      (offset : ℕ) (xs : List (TensorInfo Name Dtype)) (x : TensorInfo Name Dtype)
      → entries offset (xs ++ x ∷ [])
        ≡ entries offset xs
          ++ record {
            info = x;
            offset = offset + sum_by (tensor_size_of itemsize) xs;
            tensor_size = tensor_size_of itemsize x;
          }
            ∷ []
  entries-append_one offset [] x =
      let e : offset ≡ offset + 0 = omega arith in
      ap (λ n. record { info = x; offset = n; tensor_size = tensor_size_of itemsize x } ∷ []) e
  entries-append_one offset (y ∷ xs) x =
      let size = tensor_size_of itemsize y in
      let total = sum_by (tensor_size_of itemsize) xs in
      let e : (offset + size) + total ≡ offset + (size + total) = omega arith in
      let first : MetaData Name Dtype = record { info = y; offset = offset; tensor_size = size } in
      ap (λ l. first ∷ l) (entries-append_one (offset + size) xs x)
      ∙ ap
          (λ n.
            first ∷ entries (offset + size) xs
            ++ record { info = x; offset = n; tensor_size = tensor_size_of itemsize x } ∷ [])
          e

  pub length-entries :
      (offset : ℕ) (xs : List (TensorInfo Name Dtype)) → length (entries offset xs) ≡ length xs
  length-entries offset [] = refl
  length-entries offset (x ∷ xs) = ap suc (length-entries (offset + tensor_size_of itemsize x) xs)

module _ {Name Dtype Tensor : Type 0} (itemsize : Dtype → ℕ)
    (view : Dtype → List ℕ → Bytes → Tensor) (receive : ℕ → ℕ → Bytes) where
  -- The groups unpacked from the broadcasts, from the k-th on.
  abbrev pub unpacked_groups : ℕ → List (List (TensorInfo Name Dtype)) → List (List (Name × Tensor))
  unpacked_groups k [] = []
  unpacked_groups k (g ∷ gs) =
      unpack_tensor view (receive k (sum_by (tensor_size_of itemsize) g)) (entries itemsize 0 g)
      ∷ unpacked_groups (suc k) gs

  pub unpacked_groups-append_one :
      (k : ℕ) (gs : List (List (TensorInfo Name Dtype))) (g : List (TensorInfo Name Dtype))
      → unpacked_groups k (gs ++ g ∷ [])
        ≡ unpacked_groups k gs
          ++ unpack_tensor view
              (receive (length gs + k) (sum_by (tensor_size_of itemsize) g))
              (entries itemsize 0 g)
            ∷ []
  unpacked_groups-append_one k [] g =
      let e : k ≡ 0 + k = omega arith in
      ap
        (λ n.
          unpack_tensor view (receive n (sum_by (tensor_size_of itemsize) g)) (entries itemsize 0 g)
          ∷ [])
        e
  unpacked_groups-append_one k (h ∷ gs) g =
      let e : length gs + suc k ≡ suc (length gs) + k = omega arith in
      let first =
        unpack_tensor view (receive k (sum_by (tensor_size_of itemsize) h))
          (entries itemsize 0 h) in
      ap (λ l. first ∷ l) (unpacked_groups-append_one (suc k) gs g)
      ∙ ap
          (λ n.
            first ∷ unpacked_groups (suc k) gs
            ++ unpack_tensor view (receive n (sum_by (tensor_size_of itemsize) g))
                (entries itemsize 0 g)
              ∷ [])
          e
