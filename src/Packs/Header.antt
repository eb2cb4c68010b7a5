-- ===== src/Packs/Header.antt =====
-- The header that is written is read back.
use mathlib.Core.Path.{subst}
use tg_chat_server.Prelude.{
  ℕ, ◌^◌, ◌<◌, ◌≡◌, ◌≢◌, refl, sym, ap, arith, true, false, some, nat_beq, add32,
}
use tg_chat_server.Slab.{Slab, write_word, alloc, free}
use tg_chat_server.Packs.{
  MsgType, type_number, type_of, write_header, type_at, pack_len_at, app_msg_size, pack,
  create_ss_pack, delete_ss_pack, receive_pack,
}

module _ (s : Slab) (off type pack_len seq : ℕ) (h : type < 256) (k : pack_len < 2 ^ 32) where
  pub type_at-write_header : type_at (write_header s off type pack_len seq) off ≡ type
  type_at-write_header = unfold type_at write_header write_word in ground arith

  pub pack_len_at-write_header : pack_len_at (write_header s off type pack_len seq) off ≡ pack_len
  pack_len_at-write_header = unfold pack_len_at write_header write_word in ground arith

type_of-type_number : (type : MsgType) → type_of (type_number type) ≡ some type
unfolding type_of
type_of-type_number MsgType.c2s = refl
type_of-type_number MsgType.s2c = refl
type_of-type_number MsgType.s2s_req = refl
type_of-type_number MsgType.s2s_rsp = refl

type_number_lt : (type : MsgType) → type_number type < 256
type_number_lt MsgType.c2s = omega arith
type_number_lt MsgType.s2c = omega arith
type_number_lt MsgType.s2s_req = omega arith
type_number_lt MsgType.s2s_rsp = omega arith

-- The size of a message with its header.
abbrev pub size_of : ℕ → ℕ
size_of message_strlen = add32 app_msg_size message_strlen

module _ (s : Slab) (message_strlen : ℕ) (type : MsgType) (seq : ℕ)
    (h : (alloc s (size_of message_strlen)).1 ≢ 0) where
  abbrev pub filled : Slab
  filled =
      write_header (alloc s (size_of message_strlen)).0 (alloc s (size_of message_strlen)).1
        (type_number type) (size_of message_strlen) seq

  pub create_ss_pack_lem :
      create_ss_pack s true true message_strlen type seq
      ≡ (filled, pack (alloc s (size_of message_strlen)).1)
  create_ss_pack_lem =
      let z : nat_beq (alloc s (size_of message_strlen)).1 0 ≡ false = ground arith in
      unfold create_ss_pack in rw (create_ss_pack, z) refl

  -- A message for which there is memory, and whose memory nobody has written or freed since it was
  -- made, is received by the handler of its type, and the memory that is freed after it has the size
  -- that was allocated.
  pub receive-create_ss_pack :
      let q = create_ss_pack s true true message_strlen type seq in
      let off = (alloc s (size_of message_strlen)).1 in
      (q.1 ≡ pack off)
      × (receive_pack q.0 off ≡ some (free q.0 off (size_of message_strlen), some type))
  receive-create_ss_pack =
      let off = (alloc s (size_of message_strlen)).1 in
      let z : nat_beq off 0 ≡ false = ground arith in
      let n : size_of message_strlen < 2 ^ 32 = omega arith in
      let got = (alloc s (size_of message_strlen)).0 in
      let t =
        type_at-write_header got off (type_number type) (size_of message_strlen) seq
          (type_number_lt type) n in
      let l =
        pack_len_at-write_header got off (type_number type) (size_of message_strlen) seq
          (type_number_lt type) n in
      let r : receive_pack filled off ≡ some (free filled off (size_of message_strlen), some type) =
        unfold receive_pack delete_ss_pack in
        rw (receive_pack, z, t, l, type_of-type_number type) refl in
      (
        ap (λ p. p.1) create_ss_pack_lem,
        subst (λ p. receive_pack p.0 off ≡ some (free p.0 off (size_of message_strlen), some type))
            (sym create_ss_pack_lem) r,
      )
