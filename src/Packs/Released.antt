-- ===== src/Packs/Released.antt =====
-- The memory of a message is freed by the deleter of `CreateSSPack` when its sender is done, and by
-- the one of `IoLoop` when its receiver is.
use tg_chat_server.Prelude.{
  ℕ, ◌/◌, ◌%◌, ◌<◌, ◌≡◌, ◌≢◌, refl, sym, ap, ◌∙◌, arith, true, false, some, nat_beq, length, set,
  length-set, get_or-set,
}
use tg_chat_server.Slab.{
  Slab, write_word, alloc, free, free_list, take_head, align8, size_class_index,
}
use tg_chat_server.Slab.Lists.{freed, free_lem, alloc_lem, head-freed}
use tg_chat_server.Packs.{
  MsgType, type_of, write_header, type_at, pack, create_ss_pack, delete_ss_pack, receive_pack,
}
use tg_chat_server.Packs.Header.{size_of, create_ss_pack_lem, receive-create_ss_pack}

-- `bytes` are of the size class `cls`.
abbrev pub HasClass : ℕ → ℕ → Type 0
HasClass bytes cls = size_class_index (align8 bytes) ≡ some cls

module _ (cls : ℕ) where
  type_at-free :
      (s : Slab) (off bytes : ℕ)
      → off ≢ 0
      → HasClass bytes cls
      → type_at (free s off bytes) off ≡ free_list s cls / 256 % 256
  type_at-free s off bytes h e =
      ap (λ t. type_at t off) (free_lem s off bytes cls h e)
      ∙ (unfold type_at write_word in ground arith)

  -- Where the sender is done with a message before the receiver takes it, the handler is not found
  -- by the message's type but by the second byte of the free list that the memory was put back on.
  pub receive-released :
      (s : Slab) (message_strlen : ℕ) (type : MsgType) (seq : ℕ)
      → (alloc s (size_of message_strlen)).1 ≢ 0
      → HasClass (size_of message_strlen) cls
      → let q = create_ss_pack s true true message_strlen type seq in
        let off = (alloc s (size_of message_strlen)).1 in
        let released = free q.0 off (size_of message_strlen) in
        receive_pack released off
        ≡ some (delete_ss_pack released off, type_of (free_list q.0 cls / 256 % 256))
  receive-released s message_strlen type seq h e =
      let off = (alloc s (size_of message_strlen)).1 in
      let q = create_ss_pack s true true message_strlen type seq in
      let z : nat_beq off 0 ≡ false = ground arith in
      let t = type_at-free q.0 off (size_of message_strlen) h e in
      unfold receive_pack in rw (receive_pack, z, t) refl

  module _ (s : Slab) (bytes : ℕ) (e : HasClass bytes cls) (h : free_list s cls ≢ 0) where
    alloc_off : (alloc s bytes).1 ≡ free_list s cls
    alloc_off = ap (λ q. q.1) (alloc_lem s bytes cls e h) ∙ (unfold take_head in refl)

    alloc_head :
        cls < length s.free_lists → free_list (alloc s bytes).0 cls ≡ s.memory (free_list s cls)
    alloc_head k =
        ap (λ q. free_list q.0 cls) (alloc_lem s bytes cls e h)
        ∙ (unfold take_head in
            get_or-set s.free_lists cls cls (s.memory (free_list s cls)) 0 k ∙ ground arith)

  -- Freed twice, a block is the head of its list and its own successor.
  module _ (s : Slab) (off bytes : ℕ) (h : off ≢ 0) (e : HasClass bytes cls)
      (k : cls < length s.free_lists) where
    abbrev pub twice : Slab
    twice = free (free s off bytes) off bytes

    twice_lem : twice ≡ freed (freed s off cls) off cls
    twice_lem =
        ap (λ t. free t off bytes) (free_lem s off bytes cls h e)
        ∙ free_lem (freed s off cls) off bytes cls h e

    free_list-twice : free_list twice cls ≡ off
    free_list-twice =
        ap (λ t. free_list t cls) twice_lem
        ∙ head-freed (freed s off cls) off cls (rw (length-set s.free_lists cls off) k)

    memory-twice : twice.memory off ≡ off
    memory-twice =
        let w : (freed (freed s off cls) off cls).memory off ≡ free_list (freed s off cls) cls =
          unfold write_word in ground arith in
        ap (λ t. t.memory off) twice_lem ∙ w ∙ head-freed s off cls k

    length-twice : length twice.free_lists ≡ length s.free_lists
    length-twice =
        ap (λ t. length t.free_lists) twice_lem
        ∙ length-set (set s.free_lists cls off) cls off
        ∙ length-set s.free_lists cls off

    -- A message whose receiver and then its sender have freed its memory: the next two messages of
    -- that size class get the same memory, the first one's, and a receiver that takes the first of
    -- them after both were made finds the second.
    pub shared_block :
        (len1 len2 : ℕ) (type1 type2 : MsgType) (seq1 seq2 : ℕ)
        → HasClass (size_of len1) cls
        → HasClass (size_of len2) cls
        → let one = create_ss_pack twice true true len1 type1 seq1 in
          let two = create_ss_pack one.0 true true len2 type2 seq2 in
          (one.1 ≡ pack off)
          × (two.1 ≡ pack off)
          × (receive_pack two.0 off ≡ some (free two.0 off (size_of len2), some type2))
    shared_block len1 len2 type1 type2 seq1 seq2 e1 e2 =
        let m = free_list-twice in
        let a1 : (alloc twice (size_of len1)).1 ≡ off =
          alloc_off twice (size_of len1) e1 (λ z. h (sym m ∙ z)) ∙ m in
        let g1 : (alloc twice (size_of len1)).1 ≢ 0 = λ z. h (sym a1 ∙ z) in
        let c1 = create_ss_pack_lem twice len1 type1 seq1 g1 in
        let head : free_list (create_ss_pack twice true true len1 type1 seq1).0 cls ≡ off =
          ap (λ q. free_list q.0 cls) c1
          ∙ (unfold write_header in
              alloc_head twice (size_of len1) e1 (λ z. h (sym m ∙ z)) (rw (length-twice) k)
              ∙ ap twice.memory m
              ∙ memory-twice) in
        let one = (create_ss_pack twice true true len1 type1 seq1).0 in
        let a2 : (alloc one (size_of len2)).1 ≡ off =
          alloc_off one (size_of len2) e2 (λ z. h (sym head ∙ z)) ∙ head in
        let g2 : (alloc one (size_of len2)).1 ≢ 0 = λ z. h (sym a2 ∙ z) in
        let r = receive-create_ss_pack one len2 type2 seq2 g2 in
        (
          ap (λ q. q.1) c1 ∙ ap pack a1,
          r.0 ∙ ap pack a2,
          ap (receive_pack (create_ss_pack one true true len2 type2 seq2).0) (sym a2)
              ∙ r.1
              ∙ ap
                  (λ o. some (
                    free (create_ss_pack one true true len2 type2 seq2).0 o (size_of len2),
                    some type2,
                  ))
                  a2,
        )
