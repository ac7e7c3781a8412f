-- ===== src/PackedTensor/Tests.antt =====
-- Three tensors of numbers, one byte each, over two buffers (nemo_rl/utils/packed_tensor.py).
use ne_mo_rl.Common.{
  ℕ, zero, suc, ◌≡◌, refl, some, List, [], ◌∷◌, map, flatten, length, get_or, get_elem?, ok, raise,
  arith,
}
use ne_mo_rl.PackedTensor.{Bytes, zero_division, rounds, fill_buffer}
use ne_mo_rl.PackedTensor.Groups.Least.{AreGroups}
use ne_mo_rl.PackedTensor.Producer.{
  ProducerState, next_buffer, add_tensor, broadcast_packed, producer_buffers,
  packed_broadcast_producer, packed_broadcast_producer-AreGroups, linear,
}
use ne_mo_rl.PackedTensor.Consumer.{TensorInfo, ConsumerState, packed_broadcast_consumer}
use ne_mo_rl.PackedTensor.Transfer.{packed_broadcast_consumer-unpacked}

abbrev same_tensor : List ℕ → Bytes
same_tensor t = t

abbrev three_tensors : List (List ℕ)
three_tensors = (1 ∷ 2 ∷ []) ∷ (3 ∷ []) ∷ (4 ∷ 5 ∷ 6 ∷ []) ∷ (7 ∷ []) ∷ []

abbrev view_bytes : ℕ → List ℕ → Bytes → List ℕ
view_bytes dtype shape b = b

abbrev info_of : ℕ → List ℕ → TensorInfo ℕ ℕ
info_of name t = record { name = name; shape = length t ∷ []; dtype = 1 }

abbrev described : List (List ℕ × TensorInfo ℕ ℕ)
described =
    ((1 ∷ 2 ∷ []), info_of 10 (1 ∷ 2 ∷ []))
    ∷ ((3 ∷ []), info_of 11 (3 ∷ []))
    ∷ ((4 ∷ 5 ∷ 6 ∷ []), info_of 12 (4 ∷ 5 ∷ 6 ∷ []))
    ∷ ((7 ∷ []), info_of 13 (7 ∷ []))
    ∷ []

-- The first two tensors take a buffer over two bytes, and so does the third alone.
abbrev sent_example : List Bytes
sent_example = (1 ∷ 2 ∷ 3 ∷ []) ∷ (4 ∷ 5 ∷ 6 ∷ []) ∷ (7 ∷ []) ∷ []

abbrev receive_example : ℕ → ℕ → Bytes
receive_example k n = get_or sent_example k []

get_or-get_elem? : (l : List Bytes) (k : ℕ) (t : Bytes) → get_elem? l k ≡ some t → get_or l k [] ≡ t
get_or-get_elem? [] k t h = cc
get_or-get_elem? (x ∷ l) zero t h = cc
get_or-get_elem? (x ∷ l) (suc k) t h = get_or-get_elem? l k t h

packed_broadcast_producer-AreGroups_example :
    (st : ProducerState) × (gs : List (List Bytes)) × (packed_broadcast_producer same_tensor
        same_tensor 2 2 three_tensors
      ≡ ok st)
    × (st.broadcasts ≡ map flatten gs)
    × (flatten gs ≡ map (linear same_tensor same_tensor) three_tensors)
    × AreGroups length 2 gs
packed_broadcast_producer-AreGroups_example =
    packed_broadcast_producer-AreGroups same_tensor same_tensor 2 2 three_tensors (omega arith)

abbrev producer_example : ProducerState
producer_example = record {
  buffer_idx = 1;
  packing_tensor_list = ((4 ∷ 5 ∷ 6 ∷ []) ∷ []) ∷ ((7 ∷ []) ∷ []) ∷ [];
  packing_tensor_sizes = 3 ∷ 1 ∷ [];
  packed_tensors = (4 ∷ 5 ∷ 6 ∷ []) ∷ (7 ∷ []) ∷ [];
  broadcasts = sent_example;
}

packed_broadcast_producer_runs :
    packed_broadcast_producer same_tensor same_tensor 2 2 three_tensors ≡ ok producer_example
unfolding packed_broadcast_producer rounds fill_buffer producer_buffers next_buffer add_tensor
    broadcast_packed flatten
packed_broadcast_producer_runs = refl

packed_broadcast_producer_no_buffers :
    packed_broadcast_producer same_tensor same_tensor 2 0 three_tensors ≡ raise zero_division
unfolding packed_broadcast_producer
packed_broadcast_producer_no_buffers = refl

packed_broadcast_consumer-unpacked_example :
    (c : ConsumerState ℕ ℕ (List ℕ)) × (packed_broadcast_consumer
        (λ d. d)
        view_bytes
        receive_example
        2
        3
        (map (λ x. x.1) described)
      ≡ ok c)
    × (c.requests ≡ map length producer_example.broadcasts)
    × (flatten c.unpacked ≡ map (λ x. (x.1.name, same_tensor x.0)) described)
packed_broadcast_consumer-unpacked_example =
    packed_broadcast_consumer-unpacked same_tensor same_tensor (λ d. d) view_bytes receive_example 2
      2 3 described (omega arith) (omega arith)
      ((refl, refl), ((refl, refl), ((refl, refl), ((refl, refl), tt))))
      packed_broadcast_producer_runs (λ k t e. get_or-get_elem? sent_example k t e)
