-- ===== src/Tests/Transport.antt =====
-- server/core/network/TcpConnection.cpp at concrete inputs.
use mathlib.Core.List.{flatten}
use tg_chat_server.Prelude.{
  ℕ, ◌≡◌, ◌≢◌, ◌⊎◌, refl, arith, false, List, [], ◌∷◌, ◌++◌, take, drop, replicate,
}
use tg_chat_server.Ring.{init_shm, push, peek, pop, used, available, copy_in, copy_out}
use tg_chat_server.Transport.{
  Link, receive, running, overflowed, on_readable, fill, process_recv_buffer, rounds, round, peeked,
  take_packet,
}
use tg_chat_server.Transport.Chunks.{Parsed, receive-init_shm, receive_chunking}
use tg_chat_server.Transport.Send.{
  Sender, took, would_block, connected, send_impl, on_writable, write, is_empty,
}
use tg_chat_server.Transport.Wire.{owed, Runs, Takes, wire-Runs}

-- A packet without a body.
abbrev packet : List ℕ
packet = 1 ∷ 1 ∷ 70 ∷ 0 ∷ 0 ∷ 0 ∷ replicate 64 0

abbrev memory : List ℕ
memory = replicate 100 0

-- In two reads of one wake-up, and in three wake-ups.
abbrev at_once : List (List (List ℕ))
at_once = (take 30 packet ∷ drop 30 packet ∷ []) ∷ []

abbrev in_pieces : List (List (List ℕ))
in_pieces = (take 5 packet ∷ []) ∷ (take 20 (drop 5 packet) ∷ []) ∷ (drop 25 packet ∷ []) ∷ []

at_once_received : (receive (init_shm 100 memory) at_once).link ≡ running
unfolding receive on_readable fill process_recv_buffer rounds round peeked take_packet push peek pop
    used available copy_in copy_out init_shm
at_once_received = refl

in_pieces_received : (receive (init_shm 100 memory) in_pieces).link ≡ running
unfolding receive on_readable fill process_recv_buffer rounds round peeked take_packet push peek pop
    used available copy_in copy_out init_shm
in_pieces_received = refl

in_pieces_packets : (receive (init_shm 100 memory) in_pieces).packets ≡ packet ∷ []
unfolding receive on_readable fill process_recv_buffer rounds round peeked take_packet push peek pop
    used available copy_in copy_out init_shm
in_pieces_packets = refl

receive-init_shm_example :
    Parsed (flatten (flatten in_pieces)) (receive (init_shm 100 memory) in_pieces)
    ⊎ ((receive (init_shm 100 memory) in_pieces).link ≡ overflowed)
receive-init_shm_example = receive-init_shm 99 memory in_pieces (omega arith) refl

not_overflowed : {l : Link} → l ≡ running → l ≢ overflowed
not_overflowed e f = cc

receive_chunking_example :
    ((receive (init_shm 100 memory) at_once).packets
      ≡ (receive (init_shm 100 memory) in_pieces).packets)
    × ((receive (init_shm 100 memory) at_once).link
        ≡ (receive (init_shm 100 memory) in_pieces).link)
unfolding flatten
receive_chunking_example =
    receive_chunking 99 99 memory memory at_once in_pieces (omega arith) (omega arith) refl refl
      refl (not_overflowed at_once_received) (not_overflowed in_pieces_received)

-- A packet that goes out in two parts, and then another.
abbrev pack : List ℕ
pack = 7 ∷ 8 ∷ 9 ∷ []

abbrev used_sender : Sender
used_sender = send_impl (on_writable (send_impl connected pack (took 1)) (took 2)) pack would_block

wire-Runs_example :
    (used_sender.wire ++ owed used_sender ≡ 7 ∷ 8 ∷ 9 ∷ 7 ∷ 8 ∷ 9 ∷ [])
    × (used_sender.wants_write ≡ false → used_sender.wire ≡ 7 ∷ 8 ∷ 9 ∷ 7 ∷ 8 ∷ 9 ∷ [])
unfolding flatten send_impl on_writable write is_empty
wire-Runs_example = wire-Runs (
    Runs.sent pack
      (Runs.written
        (Runs.sent pack Runs.start refl (Takes.some_bytes 1 (omega arith) (omega arith)))
        (Takes.some_bytes 2 (omega arith) (omega arith)))
      refl Takes.none_now)
