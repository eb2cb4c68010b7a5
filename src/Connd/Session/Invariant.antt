-- ===== src/Connd/Session/Invariant.antt =====
-- The two tables of the session manager agree, and which methods keep it so.
use text.Mathlib.TextEquality.{eq_iff}
use tg_chat_server.Prelude.{
  ℕ, ◌⊎◌, ◌≡◌, refl, sym, ◌∙◌, ap, ◌≢◌, true, none, some, ◌==◌, String, find, insert, erase,
  find-insert, find-erase, nat_key, string_key, nat_beq_iff, arith, inl, inr, Option-cases,
  Bool-cases, some_inj,
}
use tg_chat_server.Connd.Session.{
  ClientSession, new_session, SessionManager, on_connect, unbind, on_disconnect, bind, on_auth_ok,
}

-- A user is bound to a connection exactly if that connection's session is authenticated as the
-- user; no session is authenticated as the empty user.
pub record IsConsistent (m : SessionManager) : Type 0 where
  pub bound :
      (u : String) (c : ℕ)
      → find u m.user_to_conn ≡ some c
      → (s : ClientSession) × (find c m.sessions ≡ some s) × (s.authed ≡ true) × (s.user_id ≡ u)
  pub listed :
      (c : ℕ) (s : ClientSession)
      → find c m.sessions ≡ some s
      → s.authed ≡ true
      → (find s.user_id m.user_to_conn ≡ some c) × (s.user_id ≢ "")

-- The session of `conn` is not authenticated as another user.
abbrev pub May : SessionManager → ℕ → String → Type 0
May m conn u = (s : ClientSession) → find conn m.sessions ≡ some s → s.authed ≡ true → s.user_id ≡ u

module _ (m : SessionManager) (v : IsConsistent m) where
  pub on_connect-IsConsistent :
      (conn : ℕ) (proto : String) (now : ℕ)
      → find conn m.sessions ≡ none
      → IsConsistent (on_connect m conn proto now)
  unfolding on_connect
  on_connect-IsConsistent conn proto now fresh = record {
    bound = λ u c e.
        let (s, f, a, n) = v.bound u c e in
        (
          s,
          ground (
            arith,
            find-insert conn c (new_session conn proto now) m.sessions,
            nat_beq_iff conn c,
          ),
          a,
          n,
        );
    listed = λ c s e a.
        v.listed c s
          (ground
            (arith, find-insert conn c (new_session conn proto now) m.sessions, nat_beq_iff conn c))
          a;
  }

  -- What `unbind` takes away is the entry of the session's user, and only one that is `conn`.
  find-unbind :
      (s : ClientSession) (conn : ℕ) (u : String) (c : ℕ)
      → find u (unbind m.user_to_conn s conn) ≡ some c
      → find u m.user_to_conn ≡ some c
  unfolding unbind
  find-unbind s conn u c e =
      ground (arith, find-erase s.user_id u m.user_to_conn, eq_iff s.user_id u)

  find-unbind_self :
      (s : ClientSession) (conn : ℕ)
      → s.authed ≡ true
      → s.user_id ≢ ""
      → find s.user_id m.user_to_conn ≡ some conn
      → find s.user_id (unbind m.user_to_conn s conn) ≡ none
  unfolding unbind
  find-unbind_self s conn a n e = ground (
    arith,
    find-erase s.user_id s.user_id m.user_to_conn,
    eq_iff s.user_id s.user_id,
    eq_iff s.user_id "",
  )

  find-unbind_other :
      (s : ClientSession) (conn : ℕ) (u : String) (c : ℕ)
      → find u m.user_to_conn ≡ some c
      → c ≢ conn
      → find u (unbind m.user_to_conn s conn) ≡ some c
  unfolding unbind
  find-unbind_other s conn u c e n =
      ground (arith, find-erase s.user_id u m.user_to_conn, eq_iff s.user_id u, nat_beq_iff c conn)

  unbind_ne :
      (conn : ℕ) (s : ClientSession) (u : String) (c : ℕ)
      → find conn m.sessions ≡ some s
      → find u (unbind m.user_to_conn s conn) ≡ some c
      → c ≢ conn
  unbind_ne conn s u c e f q =
      let (t, h, a, n) = v.bound u c (find-unbind s conn u c f) in
      let same : s ≡ t = some_inj (sym e ∙ ap (λ (k : ℕ). find k m.sessions) (sym q) ∙ h) in
      let a' : s.authed ≡ true = ap (λ (k : ClientSession). k.authed) same ∙ a in
      let n' : s.user_id ≡ u = ap (λ (k : ClientSession). k.user_id) same ∙ n in
      let (k, x) = v.listed conn s e a' in
      let gone : find u (unbind m.user_to_conn s conn) ≡ none =
        rw (← n') (find-unbind_self s conn a' x k) in
      cc

  dropped-IsConsistent :
      (conn : ℕ) (s : ClientSession)
      → find conn m.sessions ≡ some s
      → IsConsistent
          (record { sessions = erase conn m.sessions; user_to_conn = unbind m.user_to_conn s conn })
  dropped-IsConsistent conn s e = record {
    bound = λ u c f.
        let g = find-unbind s conn u c f in
        let (t, h, a, n) = v.bound u c g in
        let other : c ≢ conn = unbind_ne conn s u c e f in
        (t, ground (arith, find-erase conn c m.sessions, nat_beq_iff conn c), a, n);
    listed = λ c t f a.
        let other : c ≢ conn =
          λ q. ground (arith, find-erase conn c m.sessions, nat_beq_iff conn c) in
        let g : find c m.sessions ≡ some t = ground (arith, find-erase conn c m.sessions) in
        let (h, n) = v.listed c t g a in (find-unbind_other s conn t.user_id c h other, n);
  }

  pub on_disconnect-IsConsistent : (conn : ℕ) → IsConsistent (on_disconnect m conn)
  unfolding on_disconnect
  on_disconnect-IsConsistent conn = elim (Option-cases (find conn m.sessions)) [
    | inl e ↦ rw (e, on_disconnect) v
    | inr (s, e) ↦ rw (e, on_disconnect) (dropped-IsConsistent conn s e)
  ]

  bound_here :
      (conn : ℕ) (user : String) (s : ClientSession)
      → find conn m.sessions ≡ some s
      → user ≢ ""
      → May m conn user
      → (find user m.user_to_conn ≡ none) ⊎ (find user m.user_to_conn ≡ some conn)
      → IsConsistent (record {
        sessions = insert conn (record s { user_id = user; authed = true }) m.sessions;
        user_to_conn = insert user conn m.user_to_conn;
      })
  bound_here conn user s e ne may free = record {
    bound = λ u c f. elim (Bool-cases (user == u)) [
      | inl q ↦
          let q' : user ≡ u = (eq_iff user u).0 q in
          let c' : conn ≡ c = ground (arith, find-insert user u conn m.user_to_conn) in
          (
            record s { user_id = user; authed = true },
            ground (
              arith,
              find-insert conn c (record s { user_id = user; authed = true }) m.sessions,
              nat_beq_iff conn c,
            ),
            refl,
            q',
          )
      | inr q ↦
          let g : find u m.user_to_conn ≡ some c =
            ground (arith, find-insert user u conn m.user_to_conn) in
          let (t, h, a, n) = v.bound u c g in
          let other : c ≢ conn =
            λ k. let w = may t (rw k at h) a in cc ((eq_iff user u).1 (sym w ∙ n)) in
          (
            t,
            ground (
              arith,
              find-insert conn c (record s { user_id = user; authed = true }) m.sessions,
              nat_beq_iff conn c,
            ),
            a,
            n,
          )
    ];
    listed = λ c t f a. elim (Bool-cases (conn == c)) [
      | inl q ↦
          let q' : conn ≡ c = (nat_beq_iff conn c).0 q in
          let w : record s { user_id = user; authed = true } ≡ t = some_inj (
            ground (
              arith,
              find-insert conn c (record s { user_id = user; authed = true }) m.sessions,
            )) in
          let w' : user ≡ t.user_id = ap (λ (k : ClientSession). k.user_id) w in
          (
            ground (arith, find-insert user t.user_id conn m.user_to_conn, eq_iff user t.user_id),
            λ z. ne (w' ∙ z),
          )
      | inr q ↦
          let g : find c m.sessions ≡ some t =
            ground
              (arith, find-insert conn c (record s { user_id = user; authed = true }) m.sessions) in
          let (h, n) = v.listed c t g a in
          (
            ground (
              arith,
              find-insert user t.user_id conn m.user_to_conn,
              eq_iff user t.user_id,
              nat_beq_iff conn c,
            ),
            n,
          )
    ];
  }

  pub on_auth_ok-IsConsistent :
      (conn : ℕ) (user : String)
      → user ≢ ""
      → May m conn user
      → IsConsistent (on_auth_ok m conn user).0
  unfolding on_auth_ok bind
  on_auth_ok-IsConsistent conn user ne may = elim (Option-cases (find user m.user_to_conn)) [
    | inl e ↦ rw (e, on_auth_ok) (bind_here (inl e))
    | inr (c, e) ↦ elim (Bool-cases (c == conn)) [
      | inl q ↦
          let e' = e ∙ ap (λ (k : ℕ). some k) ((nat_beq_iff c conn).0 q) in
          rw (e, on_auth_ok, q) (bind_here (inr e'))
      | inr q ↦ rw (e, on_auth_ok, q) v
    ]
  ]
    where
      bind_here :
          (find user m.user_to_conn ≡ none) ⊎ (find user m.user_to_conn ≡ some conn)
          → IsConsistent (bind m conn user)
      bind_here free = elim (Option-cases (find conn m.sessions)) [
        | inl e ↦ rw (e, bind) v
        | inr (s, e) ↦ rw (e, bind) (bound_here conn user s e ne may free)
      ]

  -- Kicking the connection that holds a user frees the user, and takes away that session alone.
  pub on_disconnect_holder :
      (u : String) (o : ℕ)
      → find u m.user_to_conn ≡ some o
      → (find u (on_disconnect m o).user_to_conn ≡ none)
        × ((on_disconnect m o).sessions ≡ erase o m.sessions)
  unfolding on_disconnect
  on_disconnect_holder u o f =
      let (t, h, a, n) = v.bound u o f in
      let (k, x) = v.listed o t h a in
      let free : find u (unbind m.user_to_conn t o) ≡ none =
        rw (← n) (find-unbind_self t o a x k) in
      (ground (arith, free), ground arith)
