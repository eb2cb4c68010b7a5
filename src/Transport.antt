-- ===== src/Transport.antt =====
-- server/core/network/TcpConnection.cpp: one TCP connection. `receive` is how bytes become packets
-- through the ring buffer, `Sender` how packets become bytes. What `read`, `write` and `sendmsg`
-- return is an argument; a packet is the bytes of its `AppMsg` and body.
pub mod Frames
pub mod Receive
pub mod Chunks
pub mod Send
pub mod Wire
use tg_chat_server.Prelude.{
  ℕ, zero, suc, ◌+◌, ◌*◌, ◌≡◌, Bool, true, false, not, ◌||◌, Option, none, some, List, [], ◌∷◌,
  ◌++◌, map, length, get_or, take, drop, ltb, nat_beq, leb, if◌then◌else◌,
}
use tg_chat_server.Ring.{Ring, used, peek, pop, push}

-- PackBase.h and AppMsg.h, packed: the sizes, and the offsets of the fields that are read.
abbrev pub magic_version : ℕ
magic_version = 1

abbrev pub max_packet_size : ℕ
max_packet_size = 1048576

abbrev pub header_size : ℕ
header_size = 18

abbrev pub app_msg_size : ℕ
app_msg_size = 70

-- uint8_t version_ at 0; uint32_t pack_len_ at 2; uint16_t data_len_ at 20; little endian.
abbrev pub version : List ℕ → ℕ
version bs = get_or bs 0 0

abbrev pub pack_len : List ℕ → ℕ
pack_len bs = get_or bs 2 0 + 256 * get_or bs 3 0 + 65536 * get_or bs 4 0 + 16777216 * get_or bs 5 0

abbrev pub data_len : List ℕ → ℕ
data_len bs = get_or bs 20 0 + 256 * get_or bs 21 0

-- Why a connection is closed, or that it is open.
pub data Link : Type 0 where
  running overflowed finished failed corrupt : Link

pub record Received : Type 0 where
  pub ring : Ring ℕ
  pub packets : List (List ℕ)
  pub link : Link

-- One round of `processRecvBuffer`: whether it goes on, and with which packet.
pub data Round : Type 0 where
  waits : Round
  breaks : Ring ℕ → Round
  delivers : Ring ℕ → List ℕ → Round

-- `Peek` cannot fail here, since the size is tested first; a failure would leave the header unset.
unfoldable pub peeked : Ring ℕ → List ℕ
peeked r = elim (peek r header_size) [ none ↦ [] | some h ↦ h ]

-- The packet is popped before its `data_len_` is compared.
unfoldable pub take_packet : Ring ℕ → ℕ → Round
take_packet r n =
    let q = pop r n in
    elim q.1 [
      | none ↦ breaks q.0
      | some raw ↦ if nat_beq (data_len raw + app_msg_size) n then delivers q.0 raw else breaks q.0
    ]

unfoldable pub round : Ring ℕ → Round
unfolding peeked take_packet
round r =
    if ltb (used r) header_size
    then waits
    else let header = peeked r in
      if not (nat_beq (version header) magic_version)
      then breaks r
      else if ltb (pack_len header) app_msg_size || ltb max_packet_size (pack_len header)
      then breaks r
      else if ltb (used r) (pack_len header)
      then waits
      else take_packet r (pack_len header)

-- The loop. Each round that goes on takes a packet off the buffer, so as many rounds as there are
-- bytes are enough.
unfoldable pub rounds : ℕ → Ring ℕ → Received
rounds zero r = record { ring = r; packets = []; link = failed }
rounds (suc fuel) r = elim (round r) [
  | waits ↦ record { ring = r; packets = []; link = running }
  | breaks q ↦ record { ring = q; packets = []; link = corrupt }
  | delivers q raw ↦
      let rest = rounds fuel q in
      record { ring = rest.ring; packets = raw ∷ rest.packets; link = rest.link }
]

unfoldable pub process_recv_buffer : Ring ℕ → Received
process_recv_buffer r = rounds (suc (used r)) r

-- What one `read` returns.
pub data Read : Type 0 where
  bytes : List ℕ → Read
  end_of_file again error : Read

-- The loop of `onReadable` over the reads of one wake-up: the buffer, and why it ended.
unfoldable pub fill : Ring ℕ → List Read → Ring ℕ × Link
fill r [] = (r, running)
fill r (bytes xs ∷ rest) =
    let q = push r xs (length xs) in
    let more = fill q.0 rest in if q.1 then more else (q.0, overflowed)
fill r (end_of_file ∷ rest) = (r, finished)
fill r (again ∷ rest) = (r, running)
fill r (error ∷ rest) = (r, failed)

-- After the end of the file what is buffered is still processed; after an error it is not.
unfoldable pub on_readable : Ring ℕ → List Read → Received
on_readable r reads =
    let q = fill r reads in
    elim q.1 [
      | running ↦ process_recv_buffer q.0
      | finished ↦ record (process_recv_buffer q.0) { link = finished }
      | l ↦ record { ring = q.0; packets = []; link = l }
    ]

-- One wake-up after another, until the connection is closed. Each ends with EAGAIN.
unfoldable pub receive : Ring ℕ → List (List (List ℕ)) → Received
receive r [] = record { ring = r; packets = []; link = running }
receive r (chunks ∷ later) =
    let now = on_readable r (map bytes chunks ++ again ∷ []) in
    let rest = receive now.ring later in
    elim now.link [
      | running ↦ record {
        ring = rest.ring;
        packets = now.packets ++ rest.packets;
        link = rest.link;
      }
      | _ ↦ now
    ]
