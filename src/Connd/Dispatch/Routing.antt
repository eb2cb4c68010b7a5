-- ===== src/Connd/Dispatch/Routing.antt =====
-- Which messages of a client leave the gateway, and what must have happened before.
use tg_chat_server.Prelude.{
  ℕ, ◌≡◌, ◌⊎◌, inl, inr, arith, true, some, List, [], ◌∷◌, ◌++◌, String, ltb, nat_beq,
  if◌then◌else◌, Option-cases, Bool-cases, find, find-insert, find-erase, nat_beq_iff, nat_key, ◌≢◌,
  ◌&&◌,
}
use tg_chat_server.Connd.Session.{
  SessionManager, no_sessions, new_session, on_connect, on_disconnect, bind, on_auth_ok, is_authed,
}
use tg_chat_server.Connd.Dispatch.{
  Msg, Env, Event, connect, disconnect, message, Effect, to_logic, cs_player_auth,
  on_client_message, find_listener, check_token, accept, handle_login, handle, run, send_reply,
  close_old, ErrorCode, success, auth_failed,
}

on_connect-authed :
    (m : SessionManager) (c : ℕ) (proto : String) (now d : ℕ)
    → is_authed (on_connect m c proto now) d ≡ true
    → is_authed m d ≡ true
unfolding is_authed on_connect
on_connect-authed m c proto now d h =
    ground (arith, find-insert c d (new_session c proto now) m.sessions)

on_disconnect-authed :
    (m : SessionManager) (c d : ℕ) → is_authed (on_disconnect m c) d ≡ true → is_authed m d ≡ true
unfolding is_authed on_disconnect
on_disconnect-authed m c d h = ground (arith, find-erase c d m.sessions)

bind-authed :
    (m : SessionManager) (c : ℕ) (u : String) (d : ℕ)
    → is_authed (bind m c u) d ≡ true
    → (c ≡ d) ⊎ (is_authed m d ≡ true)
bind-authed m c u d h = elim (Option-cases (find c m.sessions)) [
  | inl e ↦ unfold bind is_authed in ground arith
  | inr (s, e) ↦
      unfold bind is_authed in
      ground (
        arith,
        find-insert c d (record s { user_id = u; authed = true }) m.sessions,
        nat_beq_iff c d,
      )
]

on_auth_ok-authed :
    (m : SessionManager) (c : ℕ) (u : String) (d : ℕ)
    → is_authed (on_auth_ok m c u).0 d ≡ true
    → (c ≡ d) ⊎ (is_authed m d ≡ true)
unfolding on_auth_ok
on_auth_ok-authed m c u d h = ground (arith, bind-authed m c u d)

abbrev pub Happened : (Event → Type 0) → List Event → Type 0
Happened P [] = ⊥
Happened P (e ∷ es) = P e ⊎ Happened P es

module _ (env : Env) where
  accept-authed :
      (m : SessionManager) (c : ℕ) (u : String) (d : ℕ)
      → is_authed (accept env m c u).0 d ≡ true
      → (c ≡ d) ⊎ (is_authed m d ≡ true)
  unfolding accept
  accept-authed m c u d h = elim (Option-cases (on_auth_ok m c u).1) [
    | inl e ↦ ground (arith, on_auth_ok-authed m c u d)
    | inr (old, e) ↦ ground (
      arith,
      on_auth_ok-authed (on_disconnect (on_auth_ok m c u).0 old) c u d,
      on_disconnect-authed (on_auth_ok m c u).0 old d,
      on_auth_ok-authed m c u d,
    )
  ]

  -- An authentication message on the connection whose token the provider accepted.
  abbrev pub IsAcceptance : ℕ → Event → Type 0
  IsAcceptance conn (connect c proto now) = ⊥
  IsAcceptance conn (disconnect c) = ⊥
  IsAcceptance conn (message c msg) =
      (token : String) × (c ≡ conn)
      × (msg.msg_id ≡ cs_player_auth)
      × (env.parse msg.payload ≡ some token)
      × ((check_token env token).accepted ≡ true)

  handle_login-authed :
      (m : SessionManager) (c : ℕ) (msg : Msg) (d : ℕ)
      → msg.msg_id ≡ cs_player_auth
      → is_authed (handle_login env m c msg).0 d ≡ true
      → IsAcceptance d (message c msg) ⊎ (is_authed m d ≡ true)
  unfolding handle_login
  handle_login-authed m c msg d i h = elim (Option-cases (env.parse msg.payload)) [
    | inl e ↦ inr (rw (e, handle_login) at h)
    | inr (token, e) ↦ elim (Bool-cases (check_token env token).accepted) [
      | inr no' ↦ inr (ground arith)
      | inl ok ↦ elim (accept-authed m c (check_token env token).user_id d (ground arith)) [
        | inl here ↦ inl (token, here, i, e, ok)
        | inr before ↦ inr before
      ]
    ]
  ]

  handle-authed :
      (m : SessionManager) (e : Event) (d : ℕ)
      → is_authed (handle env m e).0 d ≡ true
      → IsAcceptance d e ⊎ (is_authed m d ≡ true)
  unfolding handle
  handle-authed m (connect c proto now) d h = inr (on_connect-authed m c proto now d h)
  handle-authed m (disconnect c) d h = inr (on_disconnect-authed m c d h)
  handle-authed m (message c msg) d h = elim (Bool-cases (nat_beq msg.msg_id cs_player_auth)) [
    | inl i ↦
        handle_login-authed m c msg d (ground arith) (unfold on_client_message in ground arith)
    | inr i ↦ inr (unfold on_client_message in ground arith)
  ]

  run-authed :
      (m : SessionManager) (es : List Event) (d : ℕ)
      → is_authed (run env m es) d ≡ true
      → Happened (IsAcceptance d) es ⊎ (is_authed m d ≡ true)
  unfolding run
  run-authed m [] d h = inr h
  run-authed m (e ∷ es) d h = elim (run-authed (handle env m e).0 es d h) [
    | inl later ↦ inl (inr later)
    | inr now ↦ elim (handle-authed m e d now) [
      | inl this ↦ inl (inl this)
      | inr before ↦ inr before
    ]
  ]

-- The messages that go on to the logic service.
abbrev pub logics : List Effect → List Msg
logics [] = []
logics (to_logic msg ∷ es) = msg ∷ logics es
logics (_ ∷ es) = logics es

module _ (env : Env) where
  logics-reply : (conn : ℕ) (code : ErrorCode) → logics (send_reply env conn code) ≡ []
  unfolding send_reply
  logics-reply conn code = ground arith

  logics-kick :
      (old conn : ℕ) (code : ErrorCode)
      → logics (close_old env old ++ send_reply env conn code) ≡ []
  unfolding close_old
  logics-kick old conn code = elim (Option-cases (find_listener env old)) [
    | inl e ↦ ground (arith, logics-reply conn code)
    | inr (l, e) ↦ ground (arith, logics-reply conn code)
  ]

  logics-login : (m : SessionManager) (c : ℕ) (msg : Msg) → logics (handle_login env m c msg).1 ≡ []
  unfolding handle_login accept
  logics-login m c msg = elim (Option-cases (env.parse msg.payload)) [
    | inl e ↦ ground arith
    | inr (token, e) ↦ elim (Option-cases (on_auth_ok m c (check_token env token).user_id).1) [
      | inl f ↦ ground (arith, logics-reply c success, logics-reply c auth_failed)
      | inr (old, f) ↦ ground (arith, logics-kick old c success, logics-reply c auth_failed)
    ]
  ]

  -- A message goes on to the logic service, once and as it is, exactly if it is neither a heart
  -- beat, an application for a token nor an authentication, and the connection is authenticated.
  pub logics-on_client_message :
      (m : SessionManager) (c : ℕ) (msg : Msg)
      → logics (on_client_message env m c (some msg)).1
        ≡ (if ltb cs_player_auth msg.msg_id && is_authed m c then msg ∷ [] else [])
  unfolding on_client_message
  logics-on_client_message m c msg = ground (arith, logics-login m c msg)

  -- After any sequence of events from a gateway with no sessions, whatever the order and the
  -- numbers of the connections: if a message is passed on to the logic service, then the provider
  -- has accepted a token that came over the same connection number.
  pub forwarded_was_accepted :
      (es : List Event) (c : ℕ) (msg : Msg)
      → logics (on_client_message env (run env no_sessions es) c (some msg)).1 ≢ []
      → Happened (IsAcceptance env c) es
  forwarded_was_accepted es c msg h = elim (Bool-cases (is_authed (run env no_sessions es) c)) [
    | inr e ↦ absurd (h (ground (arith, logics-on_client_message (run env no_sessions es) c msg)))
    | inl e ↦ elim (run-authed env no_sessions es c e) [
      | inl p ↦ p
      | inr f ↦ absurd (unfold is_authed find in cc f)
    ]
  ]
