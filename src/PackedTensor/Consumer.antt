-- ===== src/PackedTensor/Consumer.antt =====
-- `packed_broadcast_consumer` (nemo_rl/utils/packed_tensor.py). The iterator of names, shapes and
-- types is a list. `itemsize` and `view` (`tensor.view(dtype).view(*shape)`) are parameters, and so
-- is `receive`: what the k-th broadcast of the group leaves in a buffer of n bytes.
pub mod Unpacked
pub mod Laws
use ne_mo_rl.Common.{
  ℕ, zero, suc, ◌+◌, ◌*◌, ◌%◌, List, [], ◌∷◌, ◌++◌, map, if◌then◌else◌, ◌==◌, length, get_or, set,
  take, drop, replicate, Outcome, raise,
}
use ne_mo_rl.PackedTensor.{TransferError, zero_division, Bytes, Buffers, rounds}

-- `math.prod`
abbrev pub prod : List ℕ → ℕ
prod [] = 1
prod (n ∷ ns) = n * prod ns

-- What the iterator gives: `name, (shape, dtype)`
pub record TensorInfo (Name Dtype : Type 0) : Type 0 where
  pub name : Name
  pub shape : List ℕ
  pub dtype : Dtype

-- `(name, shape, dtype, offset, tensor_size)`
pub record MetaData (Name Dtype : Type 0) : Type 0 where
  pub info : TensorInfo Name Dtype
  pub offset : ℕ
  pub tensor_size : ℕ

abbrev pub tensor_size_of : {Name Dtype : Type 0} → (Dtype → ℕ) → TensorInfo Name Dtype → ℕ
tensor_size_of itemsize x = prod x.shape * itemsize x.dtype

abbrev pub split_with_sizes : List ℕ → Bytes → List Bytes
split_with_sizes [] packed = []
split_with_sizes (n ∷ ns) packed = take n packed ∷ split_with_sizes ns (drop n packed)

abbrev pub named_views :
    {Name Dtype Tensor : Type 0}
    → (Dtype → List ℕ → Bytes → Tensor)
    → List (MetaData Name Dtype)
    → List Bytes
    → List (Name × Tensor)
named_views view (m ∷ ms) (t ∷ ts) =
    (m.info.name, view m.info.dtype m.info.shape t) ∷ named_views view ms ts
named_views view _ _ = []

unfoldable pub unpack_tensor :
    {Name Dtype Tensor : Type 0}
    → (Dtype → List ℕ → Bytes → Tensor)
    → Bytes
    → List (MetaData Name Dtype)
    → List (Name × Tensor)
unpack_tensor view packed meta_data_list =
    named_views view meta_data_list
      (split_with_sizes (map (λ m. m.tensor_size) meta_data_list) packed)

-- `requests` are the sizes of the buffers given to `group.broadcast` so far, `unpacked` the
-- arguments of `post_unpack_func`.
pub record ConsumerState (Name Dtype Tensor : Type 0) : Type 0 where
  pub buffer_idx : ℕ
  pub packing_tensor_meta_data : List (List (MetaData Name Dtype))
  pub packing_tensor_sizes : List ℕ
  pub offsets : List ℕ
  pub packed_tensors : List Bytes
  pub requests : List ℕ
  pub unpacked : List (List (Name × Tensor))

abbrev pub consumer_start : {Name Dtype Tensor : Type 0} → ℕ → ConsumerState Name Dtype Tensor
consumer_start num_buffers = record {
  buffer_idx = 0;
  packing_tensor_meta_data = replicate num_buffers [];
  packing_tensor_sizes = replicate num_buffers 0;
  offsets = replicate num_buffers 0;
  packed_tensors = replicate num_buffers [];
  requests = [];
  unpacked = [];
}

module _ {Name Dtype Tensor : Type 0} where
  unfoldable pub next_meta_data :
      ℕ → ConsumerState Name Dtype Tensor → ConsumerState Name Dtype Tensor
  next_meta_data num_buffers st =
      let idx = (st.buffer_idx + 1) % num_buffers in
      record st {
        buffer_idx = idx;
        packing_tensor_meta_data = set st.packing_tensor_meta_data idx [];
        packing_tensor_sizes = set st.packing_tensor_sizes idx 0;
        offsets = set st.offsets idx 0;
      }

  unfoldable pub add_meta_data :
      (Dtype → ℕ)
      → TensorInfo Name Dtype
      → ConsumerState Name Dtype Tensor
      → ConsumerState Name Dtype Tensor
  add_meta_data itemsize x st =
      let idx = st.buffer_idx in
      let size = tensor_size_of itemsize x in
      let offset = get_or st.offsets idx 0 in
      let entry : MetaData Name Dtype = record { info = x; offset = offset; tensor_size = size } in
      record st {
        buffer_idx = idx;
        packing_tensor_meta_data =
            set st.packing_tensor_meta_data idx
              (get_or st.packing_tensor_meta_data idx [] ++ entry ∷ []);
        packing_tensor_sizes =
            set st.packing_tensor_sizes idx (get_or st.packing_tensor_sizes idx 0 + size);
        offsets = set st.offsets idx (offset + size);
      }

  unfoldable pub receive_packed :
      (Dtype → List ℕ → Bytes → Tensor)
      → (ℕ → ℕ → Bytes)
      → ConsumerState Name Dtype Tensor
      → ConsumerState Name Dtype Tensor
  unfolding unpack_tensor
  receive_packed view receive st =
      let size = get_or st.packing_tensor_sizes st.buffer_idx 0 in
      let packed = receive (length st.requests) size in
      record st {
        packed_tensors = set st.packed_tensors st.buffer_idx packed;
        requests = st.requests ++ size ∷ [];
        unpacked =
            st.unpacked
            ++ unpack_tensor view packed (get_or st.packing_tensor_meta_data st.buffer_idx []) ∷ [];
      }

  unfoldable pub consumer_buffers :
      (Dtype → ℕ)
      → (Dtype → List ℕ → Bytes → Tensor)
      → (ℕ → ℕ → Bytes)
      → ℕ
      → Buffers (TensorInfo Name Dtype) (ConsumerState Name Dtype Tensor)
  unfolding next_meta_data add_meta_data receive_packed
  consumer_buffers itemsize view receive num_buffers = record {
    start_round = next_meta_data num_buffers;
    put = add_meta_data itemsize;
    packing_size = λ st. get_or st.packing_tensor_sizes st.buffer_idx 0;
    held = λ st. length (get_or st.packing_tensor_meta_data st.buffer_idx []);
    flush = receive_packed view receive;
  }

  -- What the call leaves; the rounds are at most one for each item and one more.
  unfoldable pub packed_broadcast_consumer :
      (Dtype → ℕ)
      → (Dtype → List ℕ → Bytes → Tensor)
      → (ℕ → ℕ → Bytes)
      → ℕ
      → ℕ
      → List (TensorInfo Name Dtype)
      → Outcome TransferError (ConsumerState Name Dtype Tensor)
  unfolding rounds consumer_buffers
  packed_broadcast_consumer itemsize view receive target num_buffers items =
      let st : ConsumerState Name Dtype Tensor = consumer_start num_buffers in
      let run =
        rounds (suc (length items)) (consumer_buffers itemsize view receive num_buffers) target
          items st in
      if num_buffers == 0 then raise zero_division else run
