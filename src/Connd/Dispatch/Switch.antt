-- ===== src/Connd/Dispatch/Switch.antt =====
-- Runs of the gateway: the events that keep the tables consistent, and what goes wrong when a
-- connection that is authenticated logs in again as another user.
use text.Mathlib.TextEquality.{eq_iff}
use tg_chat_server.Prelude.{
  ℕ, ◌≡◌, ◌≢◌, inl, inr, refl, sym, ap, arith, true, false, none, some, List, [], ◌∷◌, ◌++◌, String,
  Option-cases, Bool-cases, find, insert, find-insert, find-erase, nat_beq, nat_beq_iff, nat_key,
  string_key,
}
use tg_chat_server.Connd.Session.{
  ClientSession, SessionManager, on_disconnect, unbind, bind, on_auth_ok, is_authed,
}
use tg_chat_server.Connd.Session.Invariant.{
  IsConsistent, May, on_connect-IsConsistent, on_disconnect-IsConsistent, on_auth_ok-IsConsistent,
}
use tg_chat_server.Connd.Dispatch.Login.{as_user}
use tg_chat_server.Connd.Dispatch.{
  Msg, Env, Event, connect, disconnect, message, success, cs_player_auth, on_client_message,
  check_token, accept, handle_login, handle, run, send_reply, close_old,
}

-- Two authenticated sessions of one user are one.
pub one_session_per_user :
    (m : SessionManager) (c d : ℕ) (s t : ClientSession)
    → IsConsistent m
    → find c m.sessions ≡ some s
    → find d m.sessions ≡ some t
    → s.authed ≡ true
    → t.authed ≡ true
    → s.user_id ≡ t.user_id
    → c ≡ d
one_session_per_user m c d s t v e f a b n =
    let p = (v.listed c s e a).0 in
    let q = (v.listed d t f b).0 in ground (arith, ap (λ (k : String). find k m.user_to_conn) n)

module _ (env : Env) where
  -- Connection numbers are fresh; the provider names no empty user; nobody logs in as another user
  -- on a connection that is authenticated.
  abbrev pub IsOrderly : SessionManager → Event → Type 0
  IsOrderly m (connect conn proto now) = find conn m.sessions ≡ none
  IsOrderly m (disconnect conn) = Unit {0}
  IsOrderly m (message conn msg) =
      (token : String)
      → env.parse msg.payload ≡ some token
      → (check_token env token).accepted ≡ true
      → ((check_token env token).user_id ≢ "") × May m conn (check_token env token).user_id

  abbrev pub AreOrderly : SessionManager → List Event → Type 0
  AreOrderly m [] = Unit {0}
  AreOrderly m (e ∷ es) = IsOrderly m e × AreOrderly (handle env m e).0 es

  on_auth_ok_refused :
      (m : SessionManager) (conn : ℕ) (u : String) (old : ℕ)
      → (on_auth_ok m conn u).1 ≡ some old
      → on_auth_ok m conn u ≡ (m, some old)
  unfolding on_auth_ok
  on_auth_ok_refused m conn u old e = ground arith

  find-on_disconnect :
      (m : SessionManager) (o conn : ℕ) (s : ClientSession)
      → find conn (on_disconnect m o).sessions ≡ some s
      → find conn m.sessions ≡ some s
  unfolding on_disconnect
  find-on_disconnect m o conn s e = ground (arith, find-erase o conn m.sessions)

  held :
      (m : SessionManager) (conn : ℕ) (u : String) (o : ℕ)
      → find u m.user_to_conn ≡ some o
      → o ≢ conn
      → on_auth_ok m conn u ≡ (m, some o)
  unfolding on_auth_ok
  held m conn u o f n = ground (arith, nat_beq_iff o conn)

  accept-IsConsistent :
      (m : SessionManager) (conn : ℕ) (u : String)
      → IsConsistent m
      → u ≢ ""
      → May m conn u
      → IsConsistent (accept env m conn u).0
  unfolding accept
  accept-IsConsistent m conn u v ne may = elim (Option-cases (on_auth_ok m conn u).1) [
    | inl e ↦
        let q : (accept env m conn u).0 ≡ (on_auth_ok m conn u).0 = ground arith in
        rw q (on_auth_ok-IsConsistent m v conn u ne may)
    | inr (old, e) ↦
        let q : (accept env m conn u).0 ≡ (on_auth_ok (on_disconnect m old) conn u).0 =
          ground (arith, on_auth_ok_refused m conn u old e) in
        rw q (
          on_auth_ok-IsConsistent (on_disconnect m old) (on_disconnect-IsConsistent m v old) conn u
            ne (λ s f a. may s (find-on_disconnect m old conn s f) a))
  ]

  login-IsConsistent :
      (conn : ℕ) (msg : Msg) (m : SessionManager)
      → IsConsistent m
      → IsOrderly m (message conn msg)
      → IsConsistent (handle_login env m conn msg).0
  unfolding handle_login
  login-IsConsistent conn msg m v o = elim (Option-cases (env.parse msg.payload)) [
    | inl e ↦ let q : (handle_login env m conn msg).0 ≡ m = ground arith in rw q v
    | inr (token, e) ↦ elim (Bool-cases (check_token env token).accepted) [
      | inr r ↦ let q : (handle_login env m conn msg).0 ≡ m = ground arith in rw q v
      | inl r ↦
          let q : handle_login env m conn msg ≡ accept env m conn (check_token env token).user_id =
            ground arith in
          rw q (
            accept-IsConsistent m conn (check_token env token).user_id v (o token e r).0
              (o token e r).1)
    ]
  ]

  handle-IsConsistent :
      (m : SessionManager) (e : Event)
      → IsConsistent m
      → IsOrderly m e
      → IsConsistent (handle env m e).0
  unfolding handle
  handle-IsConsistent m (connect conn proto now) v o = on_connect-IsConsistent m v conn proto now o
  handle-IsConsistent m (disconnect conn) v o = on_disconnect-IsConsistent m v conn
  handle-IsConsistent m (message conn msg) v o =
      elim (Bool-cases (nat_beq msg.msg_id cs_player_auth)) [
        | inr i ↦
            let q : (on_client_message env m conn (some msg)).0 ≡ m =
              unfold on_client_message in ground arith in
            rw q v
        | inl i ↦
            let q : on_client_message env m conn (some msg) ≡ handle_login env m conn msg =
              unfold on_client_message in ground arith in
            rw q (login-IsConsistent conn msg m v o)
      ]

  -- The tables of a gateway with no sessions are consistent after any sequence of events that is
  -- orderly: a user is bound to a connection exactly if its session is authenticated as the user.
  pub run-IsConsistent :
      (m : SessionManager) (es : List Event)
      → IsConsistent m
      → AreOrderly m es
      → IsConsistent (run env m es)
  unfolding run
  run-IsConsistent m [] v o = v
  run-IsConsistent m (e ∷ es) v o =
      run-IsConsistent (handle env m e).0 es (handle-IsConsistent m e v o.0) o.1

  -- The tables after `conn` has switched to `w` and is kicked.
  stranded :
      (m : SessionManager) (conn later : ℕ) (u w : String) (s t : ClientSession)
      → find conn m.sessions ≡ some s
      → u ≢ w
      → find u (bind m conn w).user_to_conn ≡ some conn
      → later ≢ conn
      → find later m.sessions ≡ some t
      → let m'' = on_disconnect (bind m conn w) conn in
        (find u m''.user_to_conn ≡ some conn) × (find later m''.sessions ≡ some t)
  unfolding bind on_disconnect
  stranded m conn later u w s t e ne st lc f =
      let users = insert w conn m.user_to_conn in
      let sessions = insert conn (as_user s w) m.sessions in
      let found : find conn sessions ≡ some (as_user s w) =
        ground (arith, find-insert conn conn (as_user s w) m.sessions, nat_beq_iff conn conn) in
      let st' : find u users ≡ some conn = ground arith in
      let kept : find u (unbind users (as_user s w) conn) ≡ some conn =
        unfold unbind in ground (arith, find-erase w u users, eq_iff w u) in
      (
        ground (arith, found, kept),
        ground (
          arith,
          found,
          find-erase conn later sessions,
          find-insert conn later (as_user s w) m.sessions,
          nat_beq_iff conn later,
        ),
      )

  -- A connection that is authenticated as `u` logs in as `w`, whom nobody holds. From then on `u`
  -- is bound to a connection that is not u's: a login of `u` on any other connection is answered
  -- with success and leaves that connection unauthenticated.
  pub relogin_locks_out :
      (m : SessionManager) (conn later : ℕ) (u w : String) (s t : ClientSession)
      → IsConsistent m
      → find conn m.sessions ≡ some s
      → s.authed ≡ true
      → s.user_id ≡ u
      → u ≢ w
      → find w m.user_to_conn ≡ none
      → later ≢ conn
      → find later m.sessions ≡ some t
      → t.authed ≡ false
      → let m' = (accept env m conn w).0 in
        let r = accept env m' later u in
        (is_authed r.0 later ≡ false) × (r.1 ≡ close_old env conn ++ send_reply env later success)
  relogin_locks_out m conn later u w s t v e a n ne free lc f b =
      let first : (accept env m conn w).0 ≡ bind m conn w =
        unfold accept on_auth_ok in ground arith in
      rw first (
        let m' = bind m conn w in
        let m'' = on_disconnect m' conn in
        let stale : find u m'.user_to_conn ≡ some conn =
          unfold bind in
          ground (
            arith,
            rw n at ((v.listed conn s e a).0),
            find-insert w u conn m.user_to_conn,
            eq_iff w u,
          ) in
        let (still, there) = stranded m conn later u w s t e ne (unfold bind in stale) lc f in
        let one = held m' later u conn stale (λ z. lc (sym z)) in
        let two = held m'' later u conn still (λ z. lc (sym z)) in
        let out : accept env m' later u
            ≡ (m'', close_old env conn ++ send_reply env later success) =
          unfold accept in ground (arith, one, two) in
        rw out ((unfold is_authed in ground (arith, there)), refl))
