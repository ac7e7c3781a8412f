-- ===== src/PackedTensor/Consumer/Laws.antt =====
-- What the buffers of `packed_broadcast_consumer` hold (nemo_rl/utils/packed_tensor.py).
use ne_mo_rl.Common.{
  if_ne_zero, ℕ, ◌+◌, ◌%◌, ◌<◌, ◌≡◌, refl, sym, ap, ◌∙◌, List, [], ◌∷◌, ◌++◌, map, length,
  length-map, get_or, length-set, length-replicate, get_or-set_self, get_or-replicate, sum_by,
  sum_by-append, ok, arith,
}
use native.Mathlib.Nat.{mod-lt}
use ne_mo_rl.PackedTensor.{Bytes, groups, IsBuffers}
use ne_mo_rl.PackedTensor.Groups.{rounds_lem, map_id, map-append_one}
use ne_mo_rl.PackedTensor.Consumer.{
  TensorInfo, tensor_size_of, ConsumerState, consumer_start, next_meta_data, add_meta_data,
  receive_packed, consumer_buffers, packed_broadcast_consumer,
}
use ne_mo_rl.PackedTensor.Consumer.Unpacked.{
  entries, entries-append_one, length-entries, unpacked_groups, unpacked_groups-append_one,
}

module _ {Name Dtype Tensor : Type 0} (itemsize : Dtype → ℕ)
    (view : Dtype → List ℕ → Bytes → Tensor) (receive : ℕ → ℕ → Bytes) where
  -- The state in the terms of the groups of items.
  record HoldsItems (num_buffers : ℕ) (gs : List (List (TensorInfo Name Dtype)))
      (acc : List (TensorInfo Name Dtype)) (st : ConsumerState Name Dtype Tensor) : Type 0 where
    in_range : st.buffer_idx < num_buffers
    lists : length st.packing_tensor_meta_data ≡ num_buffers
    sizes : length st.packing_tensor_sizes ≡ num_buffers
    starts : length st.offsets ≡ num_buffers
    open_list : get_or st.packing_tensor_meta_data st.buffer_idx [] ≡ entries itemsize 0 acc
    open_size :
        get_or st.packing_tensor_sizes st.buffer_idx 0 ≡ sum_by (tensor_size_of itemsize) acc
    open_offset : get_or st.offsets st.buffer_idx 0 ≡ sum_by (tensor_size_of itemsize) acc
    asked : st.requests ≡ map (sum_by (tensor_size_of itemsize)) gs
    loaded : st.unpacked ≡ unpacked_groups itemsize view receive 0 gs

  next_meta_data-HoldsItems :
      (num_buffers : ℕ) (gs : List (List (TensorInfo Name Dtype)))
      (acc : List (TensorInfo Name Dtype)) (st : ConsumerState Name Dtype Tensor)
      → 0 < num_buffers
      → HoldsItems num_buffers gs acc st
      → HoldsItems num_buffers gs [] (next_meta_data num_buffers st)
  unfolding next_meta_data
  next_meta_data-HoldsItems num_buffers gs acc st some h =
      let below : (st.buffer_idx + 1) % num_buffers < num_buffers = mod-lt _ some in
      record {
        in_range = below;
        lists = length-set st.packing_tensor_meta_data _ [] ∙ h.lists;
        sizes = length-set st.packing_tensor_sizes _ 0 ∙ h.sizes;
        starts = length-set st.offsets _ 0 ∙ h.starts;
        open_list =
            get_or-set_self st.packing_tensor_meta_data _ [] [] (omega (arith, h.lists, below));
        open_size = get_or-set_self st.packing_tensor_sizes _ 0 0 (omega (arith, h.sizes, below));
        open_offset = get_or-set_self st.offsets _ 0 0 (omega (arith, h.starts, below));
        asked = h.asked;
        loaded = h.loaded;
      }

  add_meta_data-HoldsItems :
      (num_buffers : ℕ) (x : TensorInfo Name Dtype) (gs : List (List (TensorInfo Name Dtype)))
      (acc : List (TensorInfo Name Dtype)) (st : ConsumerState Name Dtype Tensor)
      → HoldsItems num_buffers gs acc st
      → HoldsItems num_buffers gs (acc ++ x ∷ []) (add_meta_data itemsize x st)
  unfolding add_meta_data
  add_meta_data-HoldsItems num_buffers x gs acc st h =
      let w : TensorInfo Name Dtype → ℕ = tensor_size_of itemsize in
      let more = sum_by-append w acc (x ∷ []) in
      record {
        in_range = h.in_range;
        lists = length-set st.packing_tensor_meta_data _ _ ∙ h.lists;
        sizes = length-set st.packing_tensor_sizes _ _ ∙ h.sizes;
        starts = length-set st.offsets _ _ ∙ h.starts;
        open_list =
            get_or-set_self st.packing_tensor_meta_data _ _ [] (omega (arith, h.lists, h.in_range))
            ∙ ap
                (λ l.
                  l
                  ++ record {
                    info = x;
                    offset = get_or st.offsets st.buffer_idx 0;
                    tensor_size = w x;
                  }
                    ∷ [])
                h.open_list
            ∙ ap
                (λ n.
                  entries itemsize 0 acc ++ record { info = x; offset = n; tensor_size = w x } ∷ [])
                (h.open_offset ∙ omega arith)
            ∙ sym (entries-append_one itemsize 0 acc x);
        open_size =
            get_or-set_self st.packing_tensor_sizes _ _ 0 (omega (arith, h.sizes, h.in_range))
            ∙ omega (arith, h.open_size, more);
        open_offset =
            get_or-set_self st.offsets _ _ 0 (omega (arith, h.starts, h.in_range))
            ∙ omega (arith, h.open_offset, more);
        asked = h.asked;
        loaded = h.loaded;
      }

  receive_packed-HoldsItems :
      (num_buffers : ℕ) (gs : List (List (TensorInfo Name Dtype)))
      (acc : List (TensorInfo Name Dtype)) (st : ConsumerState Name Dtype Tensor)
      → HoldsItems num_buffers gs acc st
      → HoldsItems num_buffers (gs ++ acc ∷ []) acc (receive_packed view receive st)
  unfolding receive_packed
  receive_packed-HoldsItems num_buffers gs acc st h =
      let w : TensorInfo Name Dtype → ℕ = tensor_size_of itemsize in
      let count : length st.requests ≡ length gs + 0 =
        ap length h.asked ∙ length-map (sum_by w) gs ∙ omega arith in
      record {
        in_range = h.in_range;
        lists = h.lists;
        sizes = h.sizes;
        starts = h.starts;
        open_list = h.open_list;
        open_size = h.open_size;
        open_offset = h.open_offset;
        asked =
            ap (λ l. l ++ get_or st.packing_tensor_sizes st.buffer_idx 0 ∷ []) h.asked
            ∙ ap (λ n. map (sum_by w) gs ++ n ∷ []) h.open_size
            ∙ sym (map-append_one (sum_by w) gs acc);
        loaded =
            rw (h.loaded, count, h.open_size, h.open_list)
              (sym (unpacked_groups-append_one itemsize view receive 0 gs acc));
      }

  consumer-IsBuffers :
      (num_buffers : ℕ)
      → 0 < num_buffers
      → IsBuffers
          (consumer_buffers itemsize view receive num_buffers)
          (λ x. x)
          (tensor_size_of itemsize)
          (HoldsItems num_buffers)
  unfolding consumer_buffers
  consumer-IsBuffers num_buffers some = record {
    start_round_lem = λ gs acc st h. next_meta_data-HoldsItems num_buffers gs acc st some h;
    put_lem = add_meta_data-HoldsItems num_buffers;
    packing_size_lem = λ gs acc st h. h.open_size;
    held_lem = λ gs acc st h. ap length h.open_list ∙ length-entries itemsize 0 acc;
    flush_lem = receive_packed-HoldsItems num_buffers;
  }

  consumer_start-HoldsItems :
      (num_buffers : ℕ)
      → 0 < num_buffers
      → HoldsItems num_buffers [] [] (consumer_start num_buffers)
  consumer_start-HoldsItems num_buffers some = record {
    in_range = some;
    lists = length-replicate num_buffers [];
    sizes = length-replicate num_buffers 0;
    starts = length-replicate num_buffers 0;
    open_list = get_or-replicate num_buffers 0 [];
    open_size = get_or-replicate num_buffers 0 0;
    open_offset = get_or-replicate num_buffers 0 0;
    asked = refl;
    loaded = refl;
  }

  -- With a buffer the consumer returns; it has asked for one broadcast for each group of items.
  pub packed_broadcast_consumer-groups :
      (target num_buffers : ℕ) (items : List (TensorInfo Name Dtype))
      → 0 < num_buffers
      → (st : ConsumerState Name Dtype Tensor) × (packed_broadcast_consumer itemsize view receive
            target num_buffers items
          ≡ ok st)
        × (st.requests
            ≡ map
                (sum_by (tensor_size_of itemsize))
                (groups (tensor_size_of itemsize) target items))
        × (st.unpacked
            ≡ unpacked_groups itemsize view receive 0
                (groups (tensor_size_of itemsize) target items))
  unfolding packed_broadcast_consumer
  packed_broadcast_consumer-groups target num_buffers items some =
      let w : TensorInfo Name Dtype → ℕ = tensor_size_of itemsize in
      let (acc, st, e, h) =
        rounds_lem (consumer_buffers itemsize view receive num_buffers) (λ x. x) w
          (HoldsItems num_buffers) (consumer-IsBuffers num_buffers some) target items []
          (consumer_start num_buffers) (consumer_start-HoldsItems num_buffers some) in
      let same : groups w target (map (λ x. x) items) ≡ groups w target items =
        ap (groups w target) (map_id items) in
      (
        st,
        if_ne_zero num_buffers some _ _ ∙ e,
        h.asked ∙ ap (map (sum_by w)) same,
        h.loaded ∙ ap (unpacked_groups itemsize view receive 0) same,
      )
