-- ===== src/PackedTensor/Transfer.antt =====
-- The two ends of a packed broadcast together (nemo_rl/utils/packed_tensor.py).
use ne_mo_rl.Common.{
  take-append_first, drop-append_first, ℕ, suc, ◌+◌, ◌<◌, ◌≡◌, refl, sym, ap, ◌∙◌, some, List, [],
  ◌∷◌, ◌++◌, map, flatten, length, length-append, get_elem?, take, drop, sum_by, All, All_left,
  All_right, All_mono, subst, Outcome, ok, raise, arith,
}
use mathlib.Core.List.{map-append, map-map}
use ne_mo_rl.PackedTensor.{TransferError, Bytes, groups}
use ne_mo_rl.PackedTensor.Groups.Least.{flatten-groups, groups-map, groups_ext}
use ne_mo_rl.PackedTensor.Producer.{
  ProducerState, linear, packed_broadcast_producer, packed_broadcast_producer-groups,
}
use ne_mo_rl.PackedTensor.Consumer.{
  TensorInfo, tensor_size_of, ConsumerState, unpack_tensor, split_with_sizes, named_views,
  packed_broadcast_consumer,
}
use ne_mo_rl.PackedTensor.Consumer.Unpacked.{entries, unpacked_groups}
use ne_mo_rl.PackedTensor.Consumer.Laws.{packed_broadcast_consumer-groups}

-- Every broadcast leaves what is sent in a buffer of its length.
abbrev pub Delivers : (ℕ → ℕ → Bytes) → List Bytes → Type 0
Delivers receive sent = (k : ℕ) (t : Bytes) → get_elem? sent k ≡ some t → receive k (length t) ≡ t

All-flatten :
    {A : Type 0} (P : A → Type 0) (xss : List (List A)) → All P (flatten xss) → All (All P) xss
unfolding flatten
All-flatten P [] h = tt
All-flatten P (xs ∷ xss) h =
    (All_left P xs (flatten xss) h, All-flatten P xss (All_right P xs (flatten xss) h))

-- Items `A` with what the producer sends of one, what the consumer knows of it, and its tensor.
module _ {A Tensor Name Dtype : Type 0} (own : A → Bytes) (info : A → TensorInfo Name Dtype)
    (value : A → Tensor) (itemsize : Dtype → ℕ) (view : Dtype → List ℕ → Bytes → Tensor) where
  -- The size that the consumer computes is the tensor's, and the views read the tensor back.
  abbrev pub Agrees : A → Type 0
  Agrees x =
      (length (own x) ≡ tensor_size_of itemsize (info x))
      × (view (info x).dtype (info x).shape (own x) ≡ value x)

  abbrev pub named : A → Name × Tensor
  named x = ((info x).name, value x)

  abbrev packed : List A → Bytes
  packed g = flatten (map own g)

  length-packed :
      (g : List A)
      → All Agrees g
      → length (packed g) ≡ sum_by (tensor_size_of itemsize) (map info g)
  unfolding flatten
  length-packed [] h = refl
  length-packed (x ∷ g) h =
      length-append (own x) (packed g) ∙ omega (arith, h.0.0, length-packed g h.1)

  unpack_packed :
      (offset : ℕ) (g : List A)
      → All Agrees g
      → unpack_tensor view (packed g) (entries itemsize offset (map info g)) ≡ map named g
  unfolding unpack_tensor flatten
  unpack_packed offset [] h = refl
  unpack_packed offset (x ∷ g) h =
      let mine = own x in
      let size = tensor_size_of itemsize (info x) in
      let metas = entries itemsize (offset + size) (map info g) in
      ap
        (λ n. named_views view (entries itemsize offset (map info (x ∷ g))) (
          take n (mine ++ packed g)
          ∷ split_with_sizes (map (λ m. m.tensor_size) metas) (drop n (mine ++ packed g))))
        (sym h.0.0)
      ∙ ap
          (λ l. named_views view (entries itemsize offset (map info (x ∷ g))) (
            l
            ∷ split_with_sizes (map (λ m. m.tensor_size) metas)
                (drop (length mine) (mine ++ packed g))))
          (take-append_first mine (packed g))
      ∙ ap
          (λ l.
            ((info x).name, view (info x).dtype (info x).shape mine)
            ∷ named_views view metas (split_with_sizes (map (λ m. m.tensor_size) metas) l))
          (drop-append_first mine (packed g))
      ∙ ap (λ t. ((info x).name, t) ∷ unpack_tensor view (packed g) metas) h.0.1
      ∙ ap (λ l. named x ∷ l) (unpack_packed (offset + size) g h.1)

  requests_lem :
      (gs : List (List A))
      → All (All Agrees) gs
      → map (sum_by (tensor_size_of itemsize)) (map (map info) gs) ≡ map length (map packed gs)
  requests_lem [] h = refl
  requests_lem (g ∷ gs) h = rw (length-packed g h.0, requests_lem gs h.1)

  unpacked_lem :
      (receive : ℕ → ℕ → Bytes) (k : ℕ) (gs : List (List A))
      → All (All Agrees) gs
      → ((j : ℕ) (t : Bytes)
          → get_elem? (map packed gs) j ≡ some t
          → receive (j + k) (length t) ≡ t)
      → flatten (unpacked_groups itemsize view receive k (map (map info) gs))
        ≡ map named (flatten gs)
  unfolding flatten
  unpacked_lem receive k [] h d = refl
  unpacked_lem receive k (g ∷ gs) h d =
      let size : sum_by (tensor_size_of itemsize) (map info g) ≡ length (packed g) =
        sym (length-packed g h.0) in
      let arrived : receive k (length (packed g)) ≡ packed g =
        ap (λ n. receive n (length (packed g))) (omega arith) ∙ d 0 (packed g) refl in
      ap (λ l. l ++ flatten (unpacked_groups itemsize view receive (suc k) (map (map info) gs)))
        (ap (λ t. unpack_tensor view t (entries itemsize 0 (map info g)))
            (ap (receive k) size ∙ arrived)
          ∙ unpack_packed 0 g h.0)
      ∙ ap (λ l. map named g ++ l)
          (unpacked_lem receive (suc k) gs h.1
            (λ j t e. ap (λ n. receive n (length t)) (omega arith) ∙ d (suc j) t e))
      ∙ sym (map-append named g (flatten gs))

  -- The groups that the two ends form are of the same items.
  same_groups :
      (target : ℕ) (xs : List A)
      → All Agrees xs
      → groups (tensor_size_of itemsize) target (map info xs)
        ≡ map (map info) (groups (λ x. length (own x)) target xs)
  same_groups target xs h =
      groups-map (tensor_size_of itemsize) info target xs
      ∙ ap (map (map info)) (
          groups_ext (λ x. tensor_size_of itemsize (info x)) (λ x. length (own x)) target xs
            (All_mono (λ x a. sym a.0) xs h))

  sent_groups :
      (target : ℕ) (xs : List A)
      → map flatten (groups length target (map own xs))
        ≡ map packed (groups (λ x. length (own x)) target xs)
  sent_groups target xs =
      ap (map flatten) (groups-map length own target xs)
      ∙ map-map flatten (map own) (groups (λ x. length (own x)) target xs)

  unpacked_by_groups :
      (receive : ℕ → ℕ → Bytes) (target n : ℕ) (xs : List A) (sent : List Bytes)
      → 0 < n
      → All Agrees xs
      → sent ≡ map packed (groups (λ x. length (own x)) target xs)
      → Delivers receive sent
      → (c : ConsumerState Name Dtype Tensor) × (packed_broadcast_consumer itemsize view receive
            target n
            (map info xs)
          ≡ ok c)
        × (c.requests ≡ map length sent)
        × (flatten c.unpacked ≡ map named xs)
  unpacked_by_groups receive target n xs sent hn agrees eq delivers =
      let gs = groups (λ x. length (own x)) target xs in
      let whole : flatten gs ≡ xs = flatten-groups (λ x. length (own x)) target xs in
      let each : All (All Agrees) gs =
        All-flatten Agrees gs (subst (All Agrees) (sym whole) agrees) in
      let same = same_groups target xs agrees in
      let (c, run, asked, loaded) =
        packed_broadcast_consumer-groups itemsize view receive target n (map info xs) hn in
      (
        c,
        run,
        asked
            ∙ ap (map (sum_by (tensor_size_of itemsize))) same
            ∙ requests_lem gs each
            ∙ ap (map length) (sym eq),
        ap flatten (loaded ∙ ap (unpacked_groups itemsize view receive 0) same)
            ∙ unpacked_lem receive 0 gs each (λ j t e.
              ap (λ k. receive k (length t)) (omega arith)
              ∙ delivers j t (ap (λ l. get_elem? l j) eq ∙ e))
            ∙ ap (map named) whole,
      )

abbrev sent_by : Outcome TransferError ProducerState → List Bytes
sent_by (ok st) = st.broadcasts
sent_by (raise e) = []

-- Both ends have a buffer at least and the same target size, the size that the consumer computes of
-- each tensor is that of the bytes sent, and the views read the tensor back from them. If the
-- producer has returned, and each of its broadcasts leaves what is sent in a buffer of its length,
-- the consumer returns; it has taken as many broadcasts, each with a buffer of the length sent, and
-- has given `post_unpack_func` every tensor under its name, in the producer's order.
pub packed_broadcast_consumer-unpacked :
    {Param Tensor Name Dtype : Type 0} (post_iter_func : Param → Tensor) (bytes : Tensor → Bytes)
    (itemsize : Dtype → ℕ) (view : Dtype → List ℕ → Bytes → Tensor) (receive : ℕ → ℕ → Bytes)
    (target m n : ℕ) (items : List (Param × TensorInfo Name Dtype)) {st : ProducerState}
    → 0 < m
    → 0 < n
    → All
        (Agrees
          (λ x. linear post_iter_func bytes x.0)
          (λ x. x.1)
          (λ x. post_iter_func x.0)
          itemsize
          view)
        items
    → packed_broadcast_producer post_iter_func bytes target m (map (λ x. x.0) items) ≡ ok st
    → Delivers receive st.broadcasts
    → (c : ConsumerState Name Dtype Tensor) × (packed_broadcast_consumer itemsize view receive
          target n
          (map (λ x. x.1) items)
        ≡ ok c)
      × (c.requests ≡ map length st.broadcasts)
      × (flatten c.unpacked ≡ map (λ x. (x.1.name, post_iter_func x.0)) items)
packed_broadcast_consumer-unpacked post_iter_func bytes itemsize view receive target m n items {st}
      hm hn agrees run delivers =
    let (st', run', sent) =
      packed_broadcast_producer-groups post_iter_func bytes m target (map (λ x. x.0) items) hm in
    unpacked_by_groups (λ x. linear post_iter_func bytes x.0) (λ x. x.1) (λ x. post_iter_func x.0)
      itemsize view receive target n items st.broadcasts hn agrees
      (ap sent_by (sym run ∙ run')
        ∙ sent
        ∙ ap (λ l. map flatten (groups length target l))
            (map-map (linear post_iter_func bytes) (λ x. x.0) items)
        ∙ sent_groups (λ x. linear post_iter_func bytes x.0) (λ x. x.1) (λ x. post_iter_func x.0)
            itemsize view target items)
      delivers
