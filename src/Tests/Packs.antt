-- ===== src/Tests/Packs.antt =====
-- Messages in shared memory at concrete inputs: 80 bytes are of the class of 128.
use tg_chat_server.Prelude.{ℕ, ◌/◌, ◌%◌, ◌≡◌, ◌≢◌, refl, arith, true, none, some, [], ◌∷◌}
use tg_chat_server.Slab.{
  Slab, write_word, alloc, alloc_class, take_head, free, free_list, size_class_index, align8,
  pow2ceil, class_from,
}
use tg_chat_server.Packs.{
  MsgType, pack, type_of, write_header, create_ss_pack, delete_ss_pack, receive_pack,
}
use tg_chat_server.Packs.Header.{size_of, receive-create_ss_pack}
use tg_chat_server.Packs.Released.{HasClass, receive-released, twice, shared_block}

-- Two free blocks of 128 bytes, at 4096 and at 4224.
abbrev two_blocks : Slab
two_blocks = record {
  item_sizes = 16 ∷ 32 ∷ 64 ∷ 128 ∷ 256 ∷ 512 ∷ 1024 ∷ 2048 ∷ 4096 ∷ 8192 ∷ [];
  free_lists = 0 ∷ 0 ∷ 0 ∷ 4096 ∷ 0 ∷ 0 ∷ 0 ∷ 0 ∷ 0 ∷ 0 ∷ [];
  bump = 65536;
  end = 65536;
  memory = write_word (λ at. 0) 4096 4224;
}

class_of_80 : HasClass (size_of 10) 3
unfolding size_class_index align8 pow2ceil class_from
class_of_80 = refl

first_block : (alloc two_blocks (size_of 10)).1 ≡ 4096
unfolding alloc alloc_class take_head size_class_index align8 pow2ceil class_from
first_block = refl

not_zero : (alloc two_blocks (size_of 10)).1 ≢ 0
not_zero e = absurd (omega (arith, first_block, e))

receive-create_ss_pack_example :
    let q = create_ss_pack two_blocks true true 10 MsgType.s2s_req 5 in
    let off = (alloc two_blocks (size_of 10)).1 in
    (q.1 ≡ pack off) × (receive_pack q.0 off ≡ some (free q.0 off 80, some MsgType.s2s_req))
receive-create_ss_pack_example = receive-create_ss_pack two_blocks 10 MsgType.s2s_req 5 not_zero

receive-released_example :
    let q = create_ss_pack two_blocks true true 10 MsgType.s2s_req 5 in
    let off = (alloc two_blocks (size_of 10)).1 in
    let released = free q.0 off 80 in
    receive_pack released off
    ≡ some (delete_ss_pack released off, type_of (free_list q.0 3 / 256 % 256))
receive-released_example = receive-released 3 two_blocks 10 MsgType.s2s_req 5 not_zero class_of_80

-- The next free block is at 4224, so the type is read as 16.
lost :
    type_of (free_list (create_ss_pack two_blocks true true 10 MsgType.s2s_req 5).0 3 / 256 % 256)
    ≡ none
unfolding create_ss_pack write_header type_of alloc alloc_class take_head size_class_index align8
    pow2ceil class_from
lost = refl

some_block : ◌≢◌ {A = ℕ} 4352 0
some_block e = absurd (omega (arith, e))

class_of_90 : HasClass (size_of 20) 3
unfolding size_class_index align8 pow2ceil class_from
class_of_90 = refl

shared_block_example :
    let one =
      create_ss_pack
        (twice 3 two_blocks 4352 80 some_block class_of_80 (omega arith))
        true
        true
        10
        MsgType.s2s_req
        5 in
    let two = create_ss_pack one.0 true true 20 MsgType.s2s_rsp 6 in
    (one.1 ≡ pack 4352)
    × (two.1 ≡ pack 4352)
    × (receive_pack two.0 4352 ≡ some (free two.0 4352 90, some MsgType.s2s_rsp))
shared_block_example =
    shared_block 3 two_blocks 4352 80 some_block class_of_80 (omega arith) 10 20 MsgType.s2s_req
      MsgType.s2s_rsp 5 6 class_of_80 class_of_90
