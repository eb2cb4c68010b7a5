-- ===== src/Tests/Services.antt =====
-- server/center/ServiceRegistry.cpp and server/dbproxy/TransactionManager.cpp at concrete inputs.
use mathlib.Core.List.{Memᴰ}
use tg_chat_server.Prelude.{
  ℕ, ◌≡◌, refl, true, false, none, some, List, [], ◌∷◌, find, insert, erase, nat_key, string_key,
}
use tg_chat_server.Registry.{
  Op, ServiceRegistry, gone, pop_deltas, subscribe, register_instance, deregister_instance,
  cleanup_expired, push_delta_to_others, instances_at, put_or_drop, expired_ids, expired_from,
  set_insert, text_lt, expire_all, expire, take_out_everywhere, take_out, keep_service,
}
use tg_chat_server.Registry.Deltas.{
  Change, registers, deregisters, cleans_up, changes, all_news, pop_deltas-changes,
}
use tg_chat_server.Transactions.{
  TxContext, rolled_back, TransactionManager, new_manager, deadline_from, emplace, begin_tx,
  get_connection, check_timeouts,
}
use tg_chat_server.Transactions.Exclusive.{check_timeouts_lem}
use tg_chat_server.Tests.Balancer.{service}

-- The connd is subscribed; logic services come and go.
abbrev subscribed : ServiceRegistry
subscribed = subscribe (record { registry = []; expirations = []; delta_map = [] }) "connd"

abbrev events : List Change
events =
    registers (service "l1" 1 0) 30 true 100
    ∷ registers (service "l1" 1 0) 30 false 110
    ∷ registers (service "l2" 1 0) 30 true 120
    ∷ deregisters "logic" "l2"
    ∷ cleans_up 200
    ∷ []

events_news :
    all_news "connd" subscribed events
    ≡ record { op = Op.upsert; inst = record (service "l1" 1 0) { last_seen = 100 } }
      ∷ record { op = Op.upsert; inst = record (service "l2" 1 0) { last_seen = 120 } }
      ∷ gone (record (service "l2" 1 0) { last_seen = 120 })
      ∷ gone (record (service "l1" 1 0) { last_seen = 110 })
      ∷ []
unfolding subscribe register_instance deregister_instance cleanup_expired push_delta_to_others
    instances_at put_or_drop expired_ids expired_from set_insert text_lt expire_all expire
    take_out_everywhere take_out keep_service find insert erase
events_news = refl

pop_deltas-changes_example :
    let q = pop_deltas (changes subscribed events) "connd" in
    (q.1 ≡ all_news "connd" subscribed events)
    × (find "connd" q.0.delta_map ≡ some [])
    × (q.0.registry ≡ (changes subscribed events).registry)
pop_deltas-changes_example =
    pop_deltas-changes "connd" events subscribed (unfold subscribe find insert in refl)

-- One transaction, with the id 1 on the connection 7, for 30 milliseconds from 100.
abbrev manager : TransactionManager ℕ
manager = (begin_tx (new_manager 30) 0 (some 7) true 100).0

abbrev entry : TxContext ℕ
entry = record { tx_id = 1; conn = 7; deadline = 30000100 }

begin_entry :
    (find 1 manager.active_txs ≡ some entry) × (get_connection manager 1 30000100 ≡ some 7)
unfolding begin_tx deadline_from emplace find insert get_connection
begin_entry = (refl, refl)

check_timeouts_lem_example :
    (find 1 (check_timeouts manager 30000101 (λ c. true)).active_txs ≡ none)
    × Memᴰ (rolled_back 7) (check_timeouts manager 30000101 (λ c. true)).calls
check_timeouts_lem_example =
    check_timeouts_lem manager 30000101 1 (λ c. true) entry (begin_entry.0) refl
