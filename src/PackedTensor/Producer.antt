-- ===== src/PackedTensor/Producer.antt =====
-- `packed_broadcast_producer` (nemo_rl/utils/packed_tensor.py). The streams only order the copies
-- on the device and are left out. The weights' iterator is a list; `post_iter_func` and the bytes
-- of a tensor (`tensor.view(torch.uint8).view(-1)`) are parameters.
use ne_mo_rl.Common.{
  if_ne_zero, ℕ, suc, ◌+◌, ◌%◌, ◌<◌, ◌≡◌, refl, sym, ap, ◌∙◌, List, [], ◌∷◌, ◌++◌, map, flatten,
  if◌then◌else◌, ◌==◌, length, get_or, set, replicate, length-set, length-replicate,
  get_or-set_self, get_or-replicate, sum_by, sum_by-append, Outcome, ok, raise, arith,
}
use native.Mathlib.Nat.{mod-lt}
use ne_mo_rl.PackedTensor.{TransferError, zero_division, Bytes, Buffers, rounds, groups, IsBuffers}
use ne_mo_rl.PackedTensor.Groups.Least.{AreGroups, groups-AreGroups, flatten-groups}
use ne_mo_rl.PackedTensor.Groups.{rounds_lem, map-append_one}

-- The `broadcasts` are the arguments of `group.broadcast` so far.
pub record ProducerState : Type 0 where
  pub buffer_idx : ℕ
  pub packing_tensor_list : List (List Bytes)
  pub packing_tensor_sizes : List ℕ
  pub packed_tensors : List Bytes
  pub broadcasts : List Bytes

unfoldable pub next_buffer : ℕ → ProducerState → ProducerState
next_buffer num_buffers st =
    let idx = (st.buffer_idx + 1) % num_buffers in
    record st {
      buffer_idx = idx;
      packing_tensor_list = set st.packing_tensor_list idx [];
      packing_tensor_sizes = set st.packing_tensor_sizes idx 0;
    }

unfoldable pub add_tensor : Bytes → ProducerState → ProducerState
add_tensor tensor st =
    let idx = st.buffer_idx in
    record st {
      buffer_idx = idx;
      packing_tensor_list =
          set st.packing_tensor_list idx (get_or st.packing_tensor_list idx [] ++ tensor ∷ []);
      packing_tensor_sizes =
          set st.packing_tensor_sizes idx (get_or st.packing_tensor_sizes idx 0 + length tensor);
    }

unfoldable pub broadcast_packed : ProducerState → ProducerState
unfolding flatten
broadcast_packed st =
    let packed = flatten (get_or st.packing_tensor_list st.buffer_idx []) in
    record st {
      packed_tensors = set st.packed_tensors st.buffer_idx packed;
      broadcasts = st.broadcasts ++ packed ∷ [];
    }

abbrev pub producer_start : ℕ → ProducerState
producer_start num_buffers = record {
  buffer_idx = 0;
  packing_tensor_list = replicate num_buffers [];
  packing_tensor_sizes = replicate num_buffers 0;
  packed_tensors = replicate num_buffers [];
  broadcasts = [];
}

-- A tensor as the producer packs it
abbrev pub linear : {Param Tensor : Type 0} → (Param → Tensor) → (Tensor → Bytes) → Param → Bytes
linear post_iter_func bytes p = bytes (post_iter_func p)

unfoldable pub producer_buffers :
    {Param Tensor : Type 0} → (Param → Tensor) → (Tensor → Bytes) → ℕ → Buffers Param ProducerState
unfolding next_buffer add_tensor broadcast_packed
producer_buffers post_iter_func bytes num_buffers = record {
  start_round = next_buffer num_buffers;
  put = λ p st. add_tensor (linear post_iter_func bytes p) st;
  packing_size = λ st. get_or st.packing_tensor_sizes st.buffer_idx 0;
  held = λ st. length (get_or st.packing_tensor_list st.buffer_idx []);
  flush = broadcast_packed;
}

-- What the call leaves; the rounds are at most one for each item and one more.
unfoldable pub packed_broadcast_producer :
    {Param Tensor : Type 0}
    → (Param → Tensor)
    → (Tensor → Bytes)
    → ℕ
    → ℕ
    → List Param
    → Outcome TransferError ProducerState
unfolding rounds producer_buffers
packed_broadcast_producer post_iter_func bytes target num_buffers items =
    let st = producer_start num_buffers in
    let run =
      rounds (suc (length items)) (producer_buffers post_iter_func bytes num_buffers) target items
        st in
    if num_buffers == 0 then raise zero_division else run

-- The state in the terms of the groups of linear tensors.
record HoldsTensors (num_buffers : ℕ) (gs : List (List Bytes)) (acc : List Bytes)
    (st : ProducerState) : Type 0 where
  in_range : st.buffer_idx < num_buffers
  lists : length st.packing_tensor_list ≡ num_buffers
  sizes : length st.packing_tensor_sizes ≡ num_buffers
  open_list : get_or st.packing_tensor_list st.buffer_idx [] ≡ acc
  open_size : get_or st.packing_tensor_sizes st.buffer_idx 0 ≡ sum_by length acc
  sent : st.broadcasts ≡ map flatten gs

module _ {Param Tensor : Type 0} (post_iter_func : Param → Tensor) (bytes : Tensor → Bytes)
    (num_buffers : ℕ) where
  producer-IsBuffers :
      0 < num_buffers
      → IsBuffers
          (producer_buffers post_iter_func bytes num_buffers)
          (linear post_iter_func bytes)
          length
          (HoldsTensors num_buffers)
  unfolding producer_buffers next_buffer add_tensor broadcast_packed
  producer-IsBuffers some = record {
    start_round_lem = λ gs acc st h.
        let below : (st.buffer_idx + 1) % num_buffers < num_buffers = mod-lt _ some in
        record {
          in_range = below;
          lists = length-set st.packing_tensor_list _ [] ∙ h.lists;
          sizes = length-set st.packing_tensor_sizes _ 0 ∙ h.sizes;
          open_list =
              get_or-set_self st.packing_tensor_list _ [] [] (omega (arith, h.lists, below));
          open_size = get_or-set_self st.packing_tensor_sizes _ 0 0 (omega (arith, h.sizes, below));
          sent = h.sent;
        };
    put_lem = λ p gs acc st h.
        let tensor = linear post_iter_func bytes p in
        record {
          in_range = h.in_range;
          lists = length-set st.packing_tensor_list _ _ ∙ h.lists;
          sizes = length-set st.packing_tensor_sizes _ _ ∙ h.sizes;
          open_list =
              get_or-set_self st.packing_tensor_list _ _ [] (omega (arith, h.lists, h.in_range))
              ∙ ap (λ l. l ++ tensor ∷ []) h.open_list;
          open_size =
              get_or-set_self st.packing_tensor_sizes _ _ 0 (omega (arith, h.sizes, h.in_range))
              ∙ omega (arith, h.open_size, sum_by-append length acc (tensor ∷ []));
          sent = h.sent;
        };
    packing_size_lem = λ gs acc st h. h.open_size;
    held_lem = λ gs acc st h. ap length h.open_list;
    flush_lem = λ gs acc st h. record {
      in_range = h.in_range;
      lists = h.lists;
      sizes = h.sizes;
      open_list = h.open_list;
      open_size = h.open_size;
      sent =
          ap (λ l. l ++ flatten (get_or st.packing_tensor_list st.buffer_idx []) ∷ []) h.sent
          ∙ ap (λ l. map flatten gs ++ flatten l ∷ []) h.open_list
          ∙ sym (map-append_one flatten gs acc);
    };
  }

  producer_start-HoldsTensors :
      0 < num_buffers → HoldsTensors num_buffers [] [] (producer_start num_buffers)
  producer_start-HoldsTensors some = record {
    in_range = some;
    lists = length-replicate num_buffers [];
    sizes = length-replicate num_buffers 0;
    open_list = get_or-replicate num_buffers 0 [];
    open_size = get_or-replicate num_buffers 0 0;
    sent = refl;
  }

  -- With a buffer the producer returns, and its broadcasts are the groups of the linear tensors,
  -- each joined.
  pub packed_broadcast_producer-groups :
      (target : ℕ) (items : List Param)
      → 0 < num_buffers
      → (st : ProducerState) × (packed_broadcast_producer post_iter_func bytes target num_buffers
            items
          ≡ ok st)
        × (st.broadcasts
            ≡ map flatten (groups length target (map (linear post_iter_func bytes) items)))
  unfolding packed_broadcast_producer
  packed_broadcast_producer-groups target items some =
      let (acc, st, e, h) =
        rounds_lem (producer_buffers post_iter_func bytes num_buffers) (linear post_iter_func bytes)
          length (HoldsTensors num_buffers) (producer-IsBuffers some) target items []
          (producer_start num_buffers) (producer_start-HoldsTensors some) in
      (st, if_ne_zero num_buffers some _ _ ∙ e, h.sent)

  -- With a buffer the producer returns. Its broadcasts are groups of the linear tensors, in order
  -- and none left out; a group without its last tensor is within the target size, and each group
  -- but the last one is over it.
  pub packed_broadcast_producer-AreGroups :
      (target : ℕ) (items : List Param)
      → 0 < num_buffers
      → (st : ProducerState) × (gs : List (List Bytes)) × (packed_broadcast_producer post_iter_func
            bytes target num_buffers items
          ≡ ok st)
        × (st.broadcasts ≡ map flatten gs)
        × (flatten gs ≡ map (linear post_iter_func bytes) items)
        × AreGroups length target gs
  packed_broadcast_producer-AreGroups target items some =
      let (st, run, sent) = packed_broadcast_producer-groups target items some in
      let tensors = map (linear post_iter_func bytes) items in
      (
        st,
        groups length target tensors,
        run,
        sent,
        flatten-groups length target tensors,
        groups-AreGroups length target tensors,
      )
