-- ===== src/Tests/Connd.antt =====
-- The gateway of server/connd at concrete inputs.
use text.Mathlib.TextEquality.{eq_iff}
use tg_chat_server.Prelude.{
  ℕ, ◌≡◌, refl, arith, true, false, none, some, List, [], ◌∷◌, ◌++◌, String, nat_beq, if◌then◌else◌,
  find, insert, erase, get_elem?, nat_key, string_key, nat_beq_iff, some_inj, sym, ap,
}
use tg_chat_server.Connd.Session.{
  ClientSession, SessionManager, new_session, no_sessions, is_authed, on_connect, on_disconnect,
  unbind, on_auth_ok, bind,
}
use tg_chat_server.Connd.Session.Invariant.{IsConsistent}
use tg_chat_server.Connd.Dispatch.{
  Msg, Env, Event, connect, message, reply, close, success, on_client_message, handle_login,
  check_token, find_listener, accept, run, handle, send_reply, close_old,
}
use tg_chat_server.Connd.Dispatch.Routing.{Happened, IsAcceptance, forwarded_was_accepted}
use tg_chat_server.Connd.Dispatch.Login.{LoggedIn, greets, other_holder, login_lem, as_user}
use tg_chat_server.Connd.Dispatch.Switch.{one_session_per_user, run-IsConsistent, relogin_locks_out}

-- The token is the user's name; a payload starts with the number of the user.
abbrev by_name : Env
by_name = record {
  parse = λ p. elim p [ [] ↦ none | x ∷ _ ↦ if nat_beq x 1 then some "alice" else some "bob" ];
  verify = λ token. record { accepted = true; user_id = token };
  packs = λ _. true;
  forwards = λ _. true;
  listeners = 0 ∷ 1 ∷ 2 ∷ [];
}

abbrev auth_as : ℕ → Msg
auth_as n = record { msg_id = 2; header_conn = 7; payload = n ∷ [] }

abbrev chat : Msg
chat = record { msg_id = 103; header_conn = 7; payload = [] }

abbrev opening : List Event
opening = connect 7 "tcp" 100 ∷ message 7 (auth_as 1) ∷ []

program : Unit {0}
unfolding run handle on_client_message handle_login check_token accept find_listener send_reply
    close_old on_connect on_disconnect unbind on_auth_ok bind find insert erase is_authed get_elem?
    other_holder
program = tt

not_authed : (g s : ClientSession) → g.authed ≡ false → some g ≡ some s → s.authed ≡ true → ⊥
not_authed g s n e a = ground arith

no_sessions-IsConsistent : IsConsistent no_sessions
unfolding find
no_sessions-IsConsistent = record {
  bound = λ u c e. absurd (cc e);
  listed = λ c s e. absurd (cc e);
}

-- Alice is on connection 7; 8 has not logged in.
abbrev alice : ClientSession
alice = as_user (new_session 7 "tcp" 100) "alice"

abbrev guest : ClientSession
guest = new_session 8 "tcp" 200

abbrev two : SessionManager
two = record { sessions = (7, alice) ∷ (8, guest) ∷ []; user_to_conn = ("alice", 7) ∷ [] }

opened_two : run by_name no_sessions (opening ++ connect 8 "tcp" 200 ∷ []) ≡ two
unfolding program
opened_two = refl

alone : {u : String} {c : ℕ} → find u two.user_to_conn ≡ some c → (u ≡ "alice") × (c ≡ 7)
unfolding find
alone {u} e = ground (arith, eq_iff "alice" u)

only :
    {c : ℕ} {s : ClientSession}
    → find c two.sessions ≡ some s
    → s.authed ≡ true
    → (c ≡ 7) × (s ≡ alice)
unfolding find
only {c} e a = ground (arith, nat_beq_iff 7 c, nat_beq_iff 8 c)

two-IsConsistent : IsConsistent two
unfolding find
two-IsConsistent = record {
  bound = λ u c e. let (p, q) = alone {u = u} {c = c} e in (alice, rw q refl, refl, sym p);
  listed = λ c s e a.
      let (p, q) = only {c = c} {s = s} e a in
      (rw q (sym (ap (λ (k : ℕ). some k) p)), rw q (λ z. cc ((eq_iff "alice" "").1 z)));
}

forwarded_was_accepted_example : Happened (IsAcceptance by_name 7) opening
unfolding program
forwarded_was_accepted_example = forwarded_was_accepted by_name opening 7 chat (λ e. cc e)

abbrev as_alice : String
as_alice = (check_token by_name "alice").user_id

-- Alice logs in on 8 and is kicked off 7.
login_lem_example :
    IsConsistent (handle_login by_name two 8 (auth_as 1)).0
    × LoggedIn two 8 as_alice guest
        (other_holder two 8 as_alice)
        (handle_login by_name two 8 (auth_as 1)).0
    × ((handle_login by_name two 8 (auth_as 1)).1 ≡ greets by_name 8 (other_holder two 8 as_alice))
unfolding find check_token
login_lem_example =
    login_lem by_name two two-IsConsistent 8 guest (auth_as 1) "alice" refl refl refl
      (λ z. cc ((eq_iff "alice" "").1 z)) (λ s e a. absurd (not_authed guest s refl e a))

login_effects : (handle_login by_name two 8 (auth_as 1)).1 ≡ close 0 7 ∷ reply 0 8 success ∷ []
unfolding program
login_effects = refl

run-IsConsistent_example : IsConsistent (run by_name no_sessions opening)
unfolding program
run-IsConsistent_example = run-IsConsistent by_name no_sessions opening no_sessions-IsConsistent (
  refl,
  (
    λ token e a. (
      rw (← some_inj e) (λ z. cc ((eq_iff "alice" "").1 z)),
      λ s f b. absurd (not_authed (new_session 7 "tcp" 100) s refl f b),
    ),
    tt,
  ),
)

one_session_per_user_example : ◌≡◌ {A = ℕ} 7 7
unfolding find
one_session_per_user_example =
    one_session_per_user two 7 7 alice alice two-IsConsistent refl refl refl refl refl

relogin_locks_out_example :
    (is_authed (accept by_name (accept by_name two 7 "bob").0 8 "alice").0 8 ≡ false)
    × ((accept by_name (accept by_name two 7 "bob").0 8 "alice").1
        ≡ close_old by_name 7 ++ send_reply by_name 8 success)
unfolding find
relogin_locks_out_example =
    relogin_locks_out by_name two 7 8 "alice" "bob" alice guest two-IsConsistent refl refl refl
      (λ z. cc ((eq_iff "alice" "bob").1 z)) refl (omega arith) refl refl
