-- ===== src/Connd/Dispatch.antt =====
-- server/connd/ConndMsgDispatcher.cpp: what the gateway does with a message, as the new table of
-- sessions and the effects in their order. The parsed form of a payload, the authentication
-- provider, and whether a reply could be packed are parameters (`Env`).
pub mod Routing
pub mod Login
pub mod Switch
use Prim.Native.String.{len}
use tg_chat_server.Prelude.{
  ℕ, ◌≡◌, Bool, true, false, not, Option, none, some, List, [], ◌∷◌, ◌++◌, if◌then◌else◌, String,
  ltb, nat_beq, get_elem?,
}
use tg_chat_server.Connd.Session.{SessionManager, on_disconnect, on_auth_ok, on_connect, is_authed}

-- The fields of an `AppMsg` that the dispatcher reads.
pub record Msg : Type 0 where
  pub msg_id : ℕ
  pub header_conn : ℕ
  pub payload : List ℕ

pub record AuthResult : Type 0 where
  pub accepted : Bool
  pub user_id : String

pub data ErrorCode : Type 0 where
  success auth_failed : ErrorCode

-- `listeners` holds the identities of the configured listeners: TCP, WebSocket, KCP.
pub record Env : Type 0 where
  pub parse : List ℕ → Option String
  pub verify : String → AuthResult
  pub packs : ErrorCode → Bool
  pub forwards : Msg → Bool
  pub listeners : List ℕ

pub data Effect : Type 0 where
  reply : (listener conn : ℕ) → ErrorCode → Effect
  close : (listener conn : ℕ) → Effect
  push : (listener : ℕ) → Msg → Effect
  heart to_account to_logic : Msg → Effect

-- MsgID of public/proto/msg_id.proto
abbrev pub cs_heart_beat : ℕ
cs_heart_beat = 0

abbrev pub cs_player_apply_token : ℕ
cs_player_apply_token = 1

abbrev pub cs_player_auth : ℕ
cs_player_auth = 2

abbrev pub max_token_len : ℕ
max_token_len = 4096

-- What reaches the gateway: the callbacks of the listeners.
pub data Event : Type 0 where
  connect : (conn : ℕ) (proto : String) (now : ℕ) → Event
  disconnect : (conn : ℕ) → Event
  message : (conn : ℕ) → Msg → Event

module _ (env : Env) where
  unfoldable pub find_listener : ℕ → Option ℕ
  find_listener conn =
      get_elem? env.listeners (if ltb conn 1000000 then 0 else if ltb conn 2000000 then 1 else 2)

  unfoldable pub send_reply : ℕ → ErrorCode → List Effect
  send_reply conn code =
      if env.packs code
      then elim (find_listener conn) [ none ↦ [] | some l ↦ reply l conn code ∷ [] ]
      else []

  unfoldable pub close_old : ℕ → List Effect
  close_old conn = elim (find_listener conn) [ none ↦ [] | some l ↦ close l conn ∷ [] ]

  -- The binding of an accepted user, after a first connection of the user is kicked.
  unfoldable pub accept : SessionManager → ℕ → String → SessionManager × List Effect
  accept m conn user =
      let first = on_auth_ok m conn user in
      elim first.1 [
        | none ↦ (first.0, send_reply conn success)
        | some old ↦ (
          (on_auth_ok (on_disconnect first.0 old) conn user).0,
          close_old old ++ send_reply conn success,
        )
      ]

  unfoldable pub check_token : String → AuthResult
  check_token token =
      if ltb max_token_len (len token)
      then record { accepted = false; user_id = "" }
      else env.verify token

  unfoldable pub handle_login : SessionManager → ℕ → Msg → SessionManager × List Effect
  handle_login m conn msg = elim (env.parse msg.payload) [
    | none ↦ (m, [])
    | some token ↦
        if (check_token token).accepted
        then accept m conn (check_token token).user_id
        else (m, send_reply conn auth_failed)
  ]

  unfoldable pub on_client_message : SessionManager → ℕ → Option Msg → SessionManager × List Effect
  on_client_message m conn none = (m, [])
  on_client_message m conn (some msg) =
      if nat_beq msg.msg_id cs_heart_beat
      then (m, heart msg ∷ [])
      else if nat_beq msg.msg_id cs_player_apply_token
      then (m, to_account msg ∷ [])
      else if nat_beq msg.msg_id cs_player_auth
      then handle_login m conn msg
      else if not (is_authed m conn)
      then (m, [])
      else (m, to_logic msg ∷ [])

  unfoldable pub on_downstream_message : Msg → List Effect
  on_downstream_message msg = elim (find_listener msg.header_conn) [
    | none ↦ []
    | some l ↦ if env.forwards msg then push l msg ∷ [] else []
  ]

  unfoldable pub handle : SessionManager → Event → SessionManager × List Effect
  handle m (connect conn proto now) = (on_connect m conn proto now, [])
  handle m (disconnect conn) = (on_disconnect m conn, [])
  handle m (message conn msg) = on_client_message m conn (some msg)

  unfoldable pub run : SessionManager → List Event → SessionManager
  run m [] = m
  run m (e ∷ es) = run (handle m e).0 es
