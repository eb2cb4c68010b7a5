-- ===== src/Connd/Dispatch/Login.antt =====
-- What a login does to the sessions.
use text.Mathlib.TextEquality.{eq_iff}
use tg_chat_server.Prelude.{
  ℕ, ◌≡◌, ◌≢◌, ◌⊎◌, inl, inr, refl, sym, ap, ◌∙◌, arith, true, Option, none, some, List, ◌++◌,
  String, if◌then◌else◌, Option-cases, Bool-cases, find, find-insert, find-erase, nat_beq_iff,
  nat_key, string_key, ◌==◌,
}
use tg_chat_server.Connd.Session.{ClientSession, SessionManager, on_disconnect, bind, on_auth_ok}
use tg_chat_server.Connd.Session.Invariant.{
  IsConsistent, May, on_auth_ok-IsConsistent, on_disconnect-IsConsistent, on_disconnect_holder,
}
use tg_chat_server.Connd.Dispatch.{
  Msg, Env, Effect, success, check_token, accept, handle_login, send_reply, close_old,
}

-- The session that a login leaves behind.
abbrev pub as_user : ClientSession → String → ClientSession
as_user s u = record s { user_id = u; authed = true }

-- The connection `conn` is now the user's, and every other connection but `out` is as it was.
pub record LoggedIn (m : SessionManager) (conn : ℕ) (u : String) (s : ClientSession)
    (out : Option ℕ) (m' : SessionManager) : Type 0 where
  pub bound : find u m'.user_to_conn ≡ some conn
  pub here : find conn m'.sessions ≡ some (as_user s u)
  pub others :
      (d : ℕ)
      → d ≢ conn
      → find d m'.sessions ≡ elim out [
        | none ↦ find d m.sessions
        | some o ↦ if o == d then none else find d m.sessions
      ]

module _ (m : SessionManager) (conn : ℕ) (u : String) (s : ClientSession)
    (e : find conn m.sessions ≡ some s) where
  bind-LoggedIn : LoggedIn m conn u s none (bind m conn u)
  unfolding bind
  bind-LoggedIn =
      rw (e, bind)
        (record {
          bound = ground (arith, find-insert u u conn m.user_to_conn, eq_iff u u);
          here =
              ground (arith, find-insert conn conn (as_user s u) m.sessions, nat_beq_iff conn conn);
          others = λ d n.
              ground (arith, find-insert conn d (as_user s u) m.sessions, nat_beq_iff conn d);
        })

  free-LoggedIn :
      (find u m.user_to_conn ≡ none) ⊎ (find u m.user_to_conn ≡ some conn)
      → on_auth_ok m conn u ≡ (bind m conn u, none)
  unfolding on_auth_ok
  free-LoggedIn f = ground (arith, nat_beq_iff conn conn)

  on_auth_ok_held :
      (o : ℕ) → find u m.user_to_conn ≡ some o → o ≢ conn → on_auth_ok m conn u ≡ (m, some o)
  unfolding on_auth_ok
  on_auth_ok_held o f n = ground (arith, nat_beq_iff o conn)

-- The connection that a login of `u` on `conn` kicks.
unfoldable pub other_holder : SessionManager → ℕ → String → Option ℕ
other_holder m conn u = elim (find u m.user_to_conn) [
  | none ↦ none
  | some o ↦ if o == conn then none else some o
]

-- The effects of a login that goes well: the other holder of the user is kicked first.
abbrev pub greets : Env → ℕ → Option ℕ → List Effect
greets env conn none = send_reply env conn success
greets env conn (some o) = close_old env o ++ send_reply env conn success

module _ (env : Env) (m : SessionManager) (v : IsConsistent m) where
  accept_kick :
      (conn : ℕ) (u : String) (s : ClientSession) (o : ℕ)
      → find conn m.sessions ≡ some s
      → u ≢ ""
      → May m conn u
      → find u m.user_to_conn ≡ some o
      → o ≢ conn
      → let m' = bind (on_disconnect m o) conn u in
        (accept env m conn u ≡ (m', close_old env o ++ send_reply env conn success))
        × IsConsistent m'
        × LoggedIn m conn u s (some o) m'
  unfolding accept
  accept_kick conn u s o e ne may f n =
      let (free, less) = on_disconnect_holder m v u o f in
      let there : find conn (on_disconnect m o).sessions ≡ some s =
        rw less (ground (arith, find-erase o conn m.sessions, nat_beq_iff o conn)) in
      let w = on_disconnect-IsConsistent m v o in
      let first = on_auth_ok_held m conn u s e o f n in
      let second = free-LoggedIn (on_disconnect m o) conn u s there (inl free) in
      let may' : May (on_disconnect m o) conn u = λ t g a. may t (e ∙ (sym there ∙ g)) a in
      let l = bind-LoggedIn (on_disconnect m o) conn u s there in
      (
        ground (arith, first, second),
        rw second at (on_auth_ok-IsConsistent (on_disconnect m o) w conn u ne may'),
        record {
          bound = l.bound;
          here = l.here;
          others = λ d k. ground (arith, l.others d k, ap (find d) less, find-erase o d m.sessions);
        },
      )

  accept_free :
      (conn : ℕ) (u : String) (s : ClientSession)
      → find conn m.sessions ≡ some s
      → u ≢ ""
      → May m conn u
      → (find u m.user_to_conn ≡ none) ⊎ (find u m.user_to_conn ≡ some conn)
      → let m' = bind m conn u in
        (accept env m conn u ≡ (m', send_reply env conn success))
        × IsConsistent m'
        × LoggedIn m conn u s none m'
  unfolding accept
  accept_free conn u s e ne may f =
      let first = free-LoggedIn m conn u s e f in
      (
        ground (arith, first),
        rw first at (on_auth_ok-IsConsistent m v conn u ne may),
        bind-LoggedIn m conn u s e,
      )

  pub accept_lem :
      (conn : ℕ) (u : String) (s : ClientSession)
      → find conn m.sessions ≡ some s
      → u ≢ ""
      → May m conn u
      → let r = accept env m conn u in
        IsConsistent r.0
        × LoggedIn m conn u s (other_holder m conn u) r.0
        × (r.1 ≡ greets env conn (other_holder m conn u))
  accept_lem conn u s e ne may = elim (Option-cases (find u m.user_to_conn)) [
    | inl f ↦
        let (r, c, l) = accept_free conn u s e ne may (inl f) in
        let h : other_holder m conn u ≡ none = unfold other_holder in ground arith in
        rw (r, h) (c, l, refl)
    | inr (o, f) ↦ elim (Bool-cases (o == conn)) [
      | inl q ↦
          let f' = f ∙ ap (λ (k : ℕ). some k) ((nat_beq_iff o conn).0 q) in
          let (r, c, l) = accept_free conn u s e ne may (inr f') in
          let h : other_holder m conn u ≡ none = unfold other_holder in ground arith in
          rw (r, h) (c, l, refl)
      | inr q ↦
          let (r, c, l) = accept_kick conn u s o e ne may f (λ z. cc ((nat_beq_iff o conn).1 z)) in
          let h : other_holder m conn u ≡ some o = unfold other_holder in ground arith in
          rw (r, h) (c, l, refl)
    ]
  ]

  -- In consistent tables, a login on a connection that has a session and is not authenticated as
  -- another user, with a token that the provider accepts for a user that is not empty: the
  -- connection becomes the user's, the session that held the user before is removed and its
  -- connection closed, every other session stays, the tables stay consistent, and the client is
  -- told of the success.
  pub login_lem :
      (conn : ℕ) (s : ClientSession) (msg : Msg) (token : String)
      → find conn m.sessions ≡ some s
      → env.parse msg.payload ≡ some token
      → (check_token env token).accepted ≡ true
      → (check_token env token).user_id ≢ ""
      → May m conn (check_token env token).user_id
      → let u = (check_token env token).user_id in
        let r = handle_login env m conn msg in
        IsConsistent r.0
        × LoggedIn m conn u s (other_holder m conn u) r.0
        × (r.1 ≡ greets env conn (other_holder m conn u))
  login_lem conn s msg token e p a ne may =
      let q : handle_login env m conn msg ≡ accept env m conn (check_token env token).user_id =
        unfold handle_login in ground arith in
      rw q (accept_lem conn (check_token env token).user_id s e ne may)
