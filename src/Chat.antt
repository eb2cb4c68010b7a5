-- ===== src/Chat.antt =====
-- server/logic/Chat/ChatHandler.cpp with the frame of a handler of server/logic/ILogic.h. A request is
-- what protobuf parses, none where it fails; the answer is what `Reply` gets. An `int32_t` is its 32
-- bits. The player is the number of the connection.
use tg_chat_server.Prelude.{
  ℕ, ◌^◌, ◌<◌, ◌≡◌, arith, Bool, ◌||◌, not, Option, none, some, ltb, leb, length, if◌then◌else◌,
  add32, add64,
}
use tg_chat_server.Base64.{Bytes}

pub data ChatError : Type 0 where
  success wrong_msg msg_too_long no_channel argument : ChatError

pub record SendRequest : Type 0 where
  pub msg : Bytes
  pub emoji_id : ℕ
  pub channel : ℕ
  pub chat_id : ℕ

pub record ChatMessage : Type 0 where
  pub player_id : ℕ
  pub text : Bytes
  pub emoji : ℕ
  pub channel_id : ℕ
  pub chat : ℕ
  pub timestamp : ℕ
  pub message_id : ℕ

abbrev max_chat_msg_len : ℕ
max_chat_msg_len = 512

-- The order of `int32_t`.
abbrev signed_lt32 : ℕ → ℕ → Bool
signed_lt32 a b = ltb (add32 a (2 ^ 31)) (add32 b (2 ^ 31))

-- Outside the channels 0 to 3.
unfoldable pub bad_channel : ℕ → Bool
bad_channel channel = signed_lt32 channel 0 || signed_lt32 3 channel

unfoldable pub check_send : SendRequest → ChatError
unfolding bad_channel
check_send r =
    if leb (length r.msg) 0
    then ChatError.wrong_msg
    else if ltb max_chat_msg_len (length r.msg)
    then ChatError.msg_too_long
    else if bad_channel r.channel
    then ChatError.no_channel
    else ChatError.success

-- The counter of messages after it, the answer, and the message that was accepted.
unfoldable pub on_send_message :
    (next_msg_id uid now : ℕ) → Option SendRequest → ℕ × Option ChatError × Option ChatMessage
unfolding check_send
on_send_message next_msg_id uid now none = (next_msg_id, none, none)
on_send_message next_msg_id uid now (some r) = elim (check_send r) [
  | ChatError.success ↦ (
    add64 next_msg_id 1,
    some ChatError.success,
    some (record {
      player_id = uid;
      text = r.msg;
      emoji = r.emoji_id;
      channel_id = r.channel;
      chat = r.chat_id;
      timestamp = now;
      message_id = next_msg_id;
    }),
  )
  | ChatError.wrong_msg ↦ (next_msg_id, some ChatError.wrong_msg, none)
  | ChatError.msg_too_long ↦ (next_msg_id, some ChatError.msg_too_long, none)
  | ChatError.no_channel ↦ (next_msg_id, some ChatError.no_channel, none)
  | ChatError.argument ↦ (next_msg_id, some ChatError.argument, none)
]

-- The request's channel and count.
unfoldable pub on_req_message : Option (ℕ × ℕ) → Option ChatError
unfolding bad_channel
on_req_message none = none
on_req_message (some (channel, after_count)) = some (
    if bad_channel channel
    then ChatError.no_channel
    else if not (signed_lt32 0 after_count)
    then ChatError.argument
    else ChatError.success)

-- The player and the end of the mute.
unfoldable pub on_req_chat_info : (uid : ℕ) → (parses : Bool) → Option (ℕ × ℕ)
on_req_chat_info uid parses = if parses then some (uid, 0) else none

-- A channel is taken exactly if it is one of 0 to 3.
bad_channel_lem : (channel : ℕ) → channel < 2 ^ 32 → bad_channel channel ≡ ltb 3 channel
bad_channel_lem channel h = unfold bad_channel in ground arith
