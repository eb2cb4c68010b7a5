-- ===== src/Packs.antt =====
-- A message in shared memory: `CreateSSPack`, `CreateCSPackage`, `ForwardRawAppMsg` and `DeleteSSPack`
-- of server/common/Helper.cpp, and what `IoLoop` of server/core/bus/IBus.cpp does with one that it
-- popped. The allocator is that of `Slab`; of the header, the version, the type and the length are
-- its first six bytes, the word at the message's offset and the low half of the next.
pub mod Header
pub mod Released
use tg_chat_server.Prelude.{
  ℕ, ◌+◌, ◌*◌, ◌/◌, ◌%◌, ◌^◌, Bool, true, false, Option, none, some, nat_beq, if◌then◌else◌, add32,
}
use tg_chat_server.Slab.{Slab, write_word, alloc, free}

-- sizeof(AppMsg)
abbrev pub app_msg_size : ℕ
app_msg_size = 70

pub data MsgType : Type 0 where
  c2s s2c s2s_req s2s_rsp : MsgType

abbrev pub type_number : MsgType → ℕ
type_number MsgType.c2s = 1
type_number MsgType.s2c = 2
type_number MsgType.s2s_req = 3
type_number MsgType.s2s_rsp = 4

-- Of a type's byte; 0 and what is above 4 is none.
unfoldable pub type_of : ℕ → Option MsgType
type_of b =
    if nat_beq b 1
    then some MsgType.c2s
    else if nat_beq b 2
    then some MsgType.s2c
    else if nat_beq b 3
    then some MsgType.s2s_req
    else if nat_beq b 4
    then some MsgType.s2s_rsp
    else none

-- What making a message comes to: without memory the code writes to a null pointer.
pub data Created : Type 0 where
  null_write refused : Created
  pack : (offset : ℕ) → Created

-- `seq` is what follows the length.
unfoldable pub write_header : Slab → ℕ → ℕ → ℕ → ℕ → Slab
unfolding write_word
write_header s off type pack_len seq =
    let first = 1 + 256 * type + 2 ^ 16 * (pack_len % 2 ^ 16) in
    let second = pack_len / 2 ^ 16 + 2 ^ 16 * (seq % 2 ^ 16) in
    record s { memory = write_word (write_word s.memory off first) (off + 4) second }

-- The bytes of the header as they are read back.
unfoldable pub type_at : Slab → ℕ → ℕ
type_at s off = s.memory off / 256 % 256

unfoldable pub pack_len_at : Slab → ℕ → ℕ
pack_len_at s off = s.memory off / 2 ^ 16 + 2 ^ 16 * (s.memory (off + 4) % 2 ^ 16)

-- Whether the message's name has an id, and whether protobuf writes the message, are arguments.
unfoldable pub create_ss_pack :
    Slab → (has_id serializes : Bool) → (message_strlen : ℕ) → MsgType → ℕ → Slab × Created
unfolding write_header
create_ss_pack s has_id serializes message_strlen type seq =
    if has_id
    then (let pack_len = add32 app_msg_size message_strlen in
        let (got, off) = alloc s pack_len in
        if nat_beq off 0
        then (got, null_write)
        else let filled = write_header got off (type_number type) pack_len seq in
          if serializes then (filled, pack off) else (free filled off pack_len, refused))
    else (s, refused)

unfoldable pub create_cs_package :
    Slab → (has_id serializes : Bool) → (message_strlen : ℕ) → ℕ → Slab × Created
unfolding create_ss_pack
create_cs_package s has_id serializes message_strlen seq =
    create_ss_pack s has_id serializes message_strlen MsgType.c2s seq

-- The copy of a message with `data_len` bytes of payload; the header is the source's.
unfoldable pub forward_raw : Slab → (data_len type pack_len seq : ℕ) → Slab × Created
unfolding write_header
forward_raw s data_len type pack_len seq =
    let (got, off) = alloc s (add32 app_msg_size data_len) in
    if nat_beq off 0 then (got, refused) else (write_header got off type pack_len seq, pack off)

unfoldable pub delete_ss_pack : Slab → ℕ → Slab
unfolding pack_len_at
delete_ss_pack s off = free s off (pack_len_at s off)

-- The handler that `IoLoop` finds for a message, and the memory after the handler let the message go;
-- none where the offset is 0.
unfoldable pub receive_pack : Slab → ℕ → Option (Slab × Option MsgType)
unfolding type_at type_of delete_ss_pack
receive_pack s off =
    if nat_beq off 0 then none else some (delete_ss_pack s off, type_of (type_at s off))
