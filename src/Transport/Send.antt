-- ===== src/Transport/Send.antt =====
-- server/core/network/TcpConnection.cpp: how packets become bytes on the wire. What `sendmsg` and
-- `write` return is an argument: how many bytes they took, that they would block, or an error.
use tg_chat_server.Prelude.{
  ℕ, ◌+◌, Bool, true, false, List, [], ◌∷◌, ◌++◌, length, take, drop, nat_beq, leb, if◌then◌else◌,
}

-- `wire` is what the socket took so far; `wants_write` that the write event is registered.
pub record Sender : Type 0 where
  pub partial_send_buffer : List ℕ
  pub partial_send_offset : ℕ
  pub wants_write : Bool
  pub closed : Bool
  pub wire : List ℕ

-- A call takes at least one byte and at most what it is given, or it fails.
pub data Sent : Type 0 where
  took : ℕ → Sent
  would_block failed : Sent

abbrev pub connected : Sender
connected = record {
  partial_send_buffer = [];
  partial_send_offset = 0;
  wants_write = false;
  closed = false;
  wire = [];
}

unfoldable pub send_impl : Sender → List ℕ → Sent → Sender
send_impl s pack (took n) =
    if nat_beq n (length pack) then record s { wire = s.wire ++ pack } else record s {
      partial_send_buffer = drop n pack;
      partial_send_offset = 0;
      wants_write = true;
      wire = s.wire ++ take n pack;
    }
send_impl s pack failed = record s { closed = true }
send_impl s pack would_block = record s {
  partial_send_buffer = pack;
  partial_send_offset = 0;
  wants_write = true;
}

unfoldable pub is_empty : List ℕ → Bool
is_empty [] = true
is_empty (x ∷ xs) = false

-- `onWritable` with something pending.
unfoldable pub write : Sender → Sent → Sender
write s (took n) =
    let offset = s.partial_send_offset + n in
    let wire = s.wire ++ take n (drop s.partial_send_offset s.partial_send_buffer) in
    if leb (length s.partial_send_buffer) offset
    then record s {
      partial_send_buffer = [];
      partial_send_offset = 0;
      wants_write = false;
      wire = wire;
    }
    else record s { partial_send_offset = offset; wire = wire }
write s would_block = s
write s failed = record s { closed = true }

unfoldable pub on_writable : Sender → Sent → Sender
on_writable s o = if is_empty s.partial_send_buffer then s else write s o
