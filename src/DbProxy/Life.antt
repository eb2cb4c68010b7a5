-- ===== src/DbProxy/Life.antt =====
-- A transaction from its begin to its end, by the messages of a client.
use mathlib.Core.List.{Memᴰ}
use tg_chat_server.Prelude.{
  ℕ, ◌-◌, ◌^◌, ◌≤◌, ◌<◌, ◌≡◌, ◌≢◌, refl, ap, ◌∙◌, inl, inr, arith, Bool, true, false, Option, none,
  some, List, ◌++◌, nat_beq, nat_beq_iff, if◌then◌else◌, find, insert, find-insert, nat_key,
  same_refl,
}
use tg_chat_server.Balancer.Smooth.{signed_lt}
use tg_chat_server.Base64.{Bytes, ascii}
use tg_chat_server.Jwt.Decimal.{decimal}
use tg_chat_server.Transactions.{
  TransactionManager, TxContext, deadline_from, emplace, begin_tx, get_connection, finalize, commit,
  rollback, check_timeouts, rolled_back,
}
use tg_chat_server.Transactions.Exclusive.{finalize_once, allowed, check_timeouts_lem}
use tg_chat_server.DbProxy.{
  DbError, success, tx_not_found, exec_failed, connection_for, on_db_tx_begin, on_db_tx_commit,
  on_db_tx_rollback,
}

-- What a message about an id without a transaction is answered.
abbrev pub gone : ℕ → DbError × Bytes
gone id = (tx_not_found, ascii "transaction not found or expired: tx_id=" ++ decimal 20 id)

module _ {C : Type 0} (t : TransactionManager C) (acquired : Option C) (id now : ℕ)
    (h : id ≢ 0) where
  no_zero : nat_beq id 0 ≡ false
  no_zero = ground (arith, nat_beq_iff id 0)

  connection_for-none :
      get_connection t id now ≡ none → connection_for t acquired id now ≡ inl (gone id)
  connection_for-none e = unfold connection_for in rw (connection_for, no_zero, e) refl

  connection_for-some :
      (c : C) → get_connection t id now ≡ some c → connection_for t acquired id now ≡ inr c
  connection_for-some c e = unfold connection_for in rw (connection_for, no_zero, e) refl

emplace-fresh :
    {C : Type 0}
    → (id : ℕ) (x : TxContext C) (txs : List (ℕ × TxContext C)) → find id txs ≡ none
    → emplace id x txs ≡ insert id x txs
emplace-fresh id x txs e = unfold emplace in rw (emplace, e) refl

abbrev pub answered : Bool → DbError
answered b = if b then success else exec_failed

module _ {C : Type 0} (t : TransactionManager C) (c : C) (timeout now : ℕ) (h : t.tx_id_gen ≢ 0)
    (fresh : find t.tx_id_gen t.active_txs ≡ none) where
  -- When the transaction ends by itself.
  abbrev pub until : ℕ
  until = deadline_from now (allowed t timeout)

  -- The context that `begin` stores.
  abbrev pub context : TxContext C
  context = record { tx_id = t.tx_id_gen; conn = c; deadline = until }

  abbrev pub after_begin : TransactionManager C
  after_begin = (on_db_tx_begin t (some c) true now (some timeout)).0

  find-after_begin : find t.tx_id_gen after_begin.active_txs ≡ some context
  find-after_begin =
      unfold on_db_tx_begin begin_tx in
      ap (find t.tx_id_gen) (emplace-fresh t.tx_id_gen context t.active_txs fresh)
      ∙ find-insert t.tx_id_gen t.tx_id_gen context t.active_txs
      ∙ rw (same_refl t.tx_id_gen) refl

  begin_reply : (on_db_tx_begin t (some c) true now (some timeout)).1 ≡ some (success, t.tx_id_gen)
  begin_reply = unfold on_db_tx_begin begin_tx in rw (no_zero t none t.tx_id_gen 0 h) refl

  in_time :
      (later : ℕ)
      → signed_lt until later ≡ false
      → get_connection after_begin t.tx_id_gen later ≡ some c
  in_time later k = unfold get_connection in rw (get_connection, find-after_begin, k) refl

  too_late :
      (later : ℕ)
      → signed_lt until later ≡ true
      → get_connection after_begin t.tx_id_gen later ≡ none
  too_late later k = unfold get_connection in rw (get_connection, find-after_begin, k) refl

  -- BEGIN on a connection that the pool gave, where the id counter is not 0 and its id is not in
  -- use: the answer is a success with the id. While the time is not past the deadline, as signed words
  -- compare, the id stands for that connection, whatever the pool gives, and after that for none; the
  -- deadline is the time of now and the timeout in milliseconds, added as words that wrap around. Its
  -- COMMIT, which the database answers, is answered accordingly, and from then on, at any time, the id
  -- is unknown to a query, and another COMMIT or ROLLBACK of it fails and changes nothing.
  pub life_of_transaction :
      (acquired : Option C) (answer : C → Bool)
      → let q = on_db_tx_begin t (some c) true now (some timeout) in
        let r = on_db_tx_commit q.0 answer (some t.tx_id_gen) in
        (q.1 ≡ some (success, t.tx_id_gen))
        × ((later : ℕ)
            → signed_lt until later ≡ false
            → connection_for q.0 acquired t.tx_id_gen later ≡ inr c)
        × ((later : ℕ)
            → signed_lt until later ≡ true
            → connection_for q.0 acquired t.tx_id_gen later ≡ inl (gone t.tx_id_gen))
        × (r.1 ≡ some (answered (answer c)))
        × ((later : ℕ) → connection_for r.0 acquired t.tx_id_gen later ≡ inl (gone t.tx_id_gen))
        × ((again : C → Bool)
            → on_db_tx_commit r.0 again (some t.tx_id_gen) ≡ (r.0, some exec_failed))
        × ((again : C → Bool)
            → on_db_tx_rollback r.0 again (some t.tx_id_gen) ≡ (r.0, some exec_failed))
  life_of_transaction acquired answer =
      let id = t.tx_id_gen in
      let q = after_begin in
      let (asked, calls, no_connection, no_end, others) =
        finalize_once q id true answer context find-after_begin in
      let r = (finalize q id true answer).0 in
      unfold on_db_tx_commit on_db_tx_rollback commit rollback in
      (
        begin_reply,
        (λ later k. connection_for-some q acquired id later h c (in_time later k)),
        (λ later k. connection_for-none q acquired id later h (too_late later k)),
        ap (λ b. some (answered b)) asked,
        (λ later. connection_for-none r acquired id later h (no_connection later)),
        (λ again. ap (λ p. (p.0, some (answered p.1))) (no_end true again)),
        (λ again. ap (λ p. (p.0, some (answered p.1))) (no_end false again)),
      )

  -- Where the id counter is not 0 and its id is not in use, a client that begins a transaction with
  -- the largest timeout, at a time of the clock from one millisecond on, is told of a success, yet the
  -- id stands for no connection at that very time, and a time-out check then rolls it back.
  pub endless_timeout :
      (acquired : Option C) (answer : C → Bool)
      → timeout ≡ 2 ^ 64 - 1
      → 1000000 ≤ now
      → now < 2 ^ 63
      → let q = on_db_tx_begin t (some c) true now (some timeout) in
        let r = check_timeouts q.0 now answer in
        (q.1 ≡ some (success, t.tx_id_gen))
        × (connection_for q.0 acquired t.tx_id_gen now ≡ inl (gone t.tx_id_gen))
        × (find t.tx_id_gen r.active_txs ≡ none)
        × Memᴰ (rolled_back c) r.calls
  endless_timeout acquired answer e low high =
      let wrapped : until ≡ now - 1000000 = unfold deadline_from in ground (arith, e) in
      let past : signed_lt until now ≡ true = rw wrapped ground arith in
      let rolled =
        check_timeouts_lem after_begin now t.tx_id_gen answer context find-after_begin past in
      (
        begin_reply,
        connection_for-none after_begin acquired t.tx_id_gen now h (too_late now past),
        rolled.0,
        rolled.1,
      )
