-- ===== src/Connd/Session.antt =====
-- server/connd/SessionManager.h and SessionManager.cpp. Each method holds the lock throughout, so a
-- method is one step; the time of `on_connect` is an argument.
pub mod Invariant
use tg_chat_server.Prelude.{
  ℕ, ◌≡◌, Bool, true, false, not, ◌&&◌, Option, none, some, List, [], ◌==◌, if◌then◌else◌, String,
  find, insert, erase, length, string_key, nat_key,
}

pub record ClientSession : Type 0 where
  pub conn_id : ℕ
  pub user_id : String
  pub proto : String
  pub authed : Bool
  pub connected_at : ℕ

pub record SessionManager : Type 0 where
  pub sessions : List (ℕ × ClientSession)
  pub user_to_conn : List (String × ℕ)

abbrev pub no_sessions : SessionManager
no_sessions = record { sessions = []; user_to_conn = [] }

abbrev pub new_session : ℕ → String → ℕ → ClientSession
new_session conn proto now = record {
  conn_id = conn;
  user_id = "";
  proto = proto;
  authed = false;
  connected_at = now;
}

unfoldable pub on_connect : SessionManager → ℕ → String → ℕ → SessionManager
on_connect m conn proto now = record m {
  sessions = insert conn (new_session conn proto now) m.sessions;
}

-- The user's entry goes only if it still points to this connection.
unfoldable pub unbind : List (String × ℕ) → ClientSession → ℕ → List (String × ℕ)
unbind users s conn =
    if s.authed && not (s.user_id == "")
    then elim (find s.user_id users) [
      | none ↦ users
      | some c ↦ if c == conn then erase s.user_id users else users
    ]
    else users

unfoldable pub on_disconnect : SessionManager → ℕ → SessionManager
on_disconnect m conn = elim (find conn m.sessions) [
  | none ↦ m
  | some s ↦ record {
    sessions = erase conn m.sessions;
    user_to_conn = unbind m.user_to_conn s conn;
  }
]

-- The binding at the end of `on_auth_ok`.
unfoldable pub bind : SessionManager → ℕ → String → SessionManager
bind m conn user = elim (find conn m.sessions) [
  | none ↦ m
  | some s ↦ record {
    sessions = insert conn (record s { user_id = user; authed = true }) m.sessions;
    user_to_conn = insert user conn m.user_to_conn;
  }
]

unfoldable pub on_auth_ok : SessionManager → ℕ → String → SessionManager × Option ℕ
on_auth_ok m conn user = elim (find user m.user_to_conn) [
  | none ↦ (bind m conn user, none)
  | some c ↦ if not (c == conn) then (m, some c) else (bind m conn user, none)
]

unfoldable pub is_authed : SessionManager → ℕ → Bool
is_authed m conn = elim (find conn m.sessions) [ none ↦ false | some s ↦ s.authed ]

unfoldable pub get_user_id : SessionManager → ℕ → String
get_user_id m conn = elim (find conn m.sessions) [ none ↦ "" | some s ↦ s.user_id ]

unfoldable pub find_conn_by_user : SessionManager → String → Option ℕ
find_conn_by_user m user = find user m.user_to_conn

unfoldable pub online_count : SessionManager → ℕ
online_count m = length m.sessions

unfoldable pub get_session : SessionManager → ℕ → Option ClientSession
get_session m conn = find conn m.sessions
