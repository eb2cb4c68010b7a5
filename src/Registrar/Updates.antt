-- ===== src/Registrar/Updates.antt =====
-- What the centre answers to an update, and what the service makes of it: the two together.
use tg_chat_server.Prelude.{
  ℕ, ◌≡◌, refl, ◌∙◌, Bool, true, false, none, some, [], String, ◌==◌, string_key, nat_key, find,
  insert,
}
use tg_chat_server.Service.{ServiceInstance, ServiceInfo}
use tg_chat_server.Registry.{register_instance, pop_deltas, snapshot}
use tg_chat_server.Balancer.Factory.{LbStrategy}
use tg_chat_server.Registrar.{
  TcpRegistrar, has, renew, renew_cached, answer, on_update_service_status, all_infos,
}
use tg_chat_server.BusNet.{BusNet, on_update_response, is_name, first_info, route, send_msg_to}
use tg_chat_server.BusNet.Tables.{online}
use tg_chat_server.BusNet.Sending.{route-on_update_response, send_msg_to-nil}

-- A service that is registered over this connection, with nothing to fetch.
pub record IsQuiet (t : TcpRegistrar) (fd : ℕ) (info : ServiceInfo) (inst : ServiceInstance)
    : Type 0 where
  pub cached : find fd t.fd_to_inst ≡ some inst
  pub same_id : (inst.id == info.id) ≡ true
  pub fetched : find inst.id t.reg.delta_map ≡ some []

module _ (t : TcpRegistrar) (fd : ℕ) (info : ServiceInfo) (inst : ServiceInstance)
    (q : IsQuiet t fd info inst) (now : ℕ) where
  renewed : renew t fd info now ≡ renew_cached t inst info now
  unfolding renew
  renewed = rw (renew, q.cached, q.same_id) refl

  -- The registrar when the deltas are taken, which are none.
  popped : pop_deltas (renew_cached t inst info now).0.reg inst.id ≡ (
    record (renew_cached t inst info now).0.reg { delta_map = insert inst.id [] t.reg.delta_map },
    [],
  )
  unfolding pop_deltas renew_cached register_instance
  popped = rw (pop_deltas, q.fetched) refl

  updated :
      (on_update_service_status t fd info now).1
      ≡ (answer
          (record (renew_cached t inst info now).0 {
            reg = record (renew_cached t inst info now).0.reg {
              delta_map = insert inst.id [] t.reg.delta_map;
            };
          })
          fd
          []).1
  unfolding on_update_service_status renew_cached
  updated = rw (on_update_service_status, renewed, popped) refl

  -- The response to a service whose full list was sent already.
  quiet_response :
      has t.fd_to_got_full_update fd ≡ true
      → (on_update_service_status t fd info now).1
        ≡ record { is_full_update = false; service_info_map = [] }
  unfolding answer renew_cached
  quiet_response h = updated ∙ rw (answer, h) refl

  full_response :
      has t.fd_to_got_full_update fd ≡ false
      → (on_update_service_status t fd info now).1 ≡ record {
        is_full_update = true;
        service_info_map = all_infos (renew_cached t inst info now).0.reg.registry;
      }
  unfolding answer snapshot renew_cached
  full_response h = updated ∙ rw (answer, h) refl

  -- The first update of a registered service with nothing to fetch: afterwards its messages to an id go to the
  -- first service of the registry, after the renewal, that has the id, and to none if there is none.
  pub route-full_update :
      (hash : String → ℕ) (dist : ℕ → ℕ) (n : BusNet) (id : String) (strategy : LbStrategy)
      → has t.fd_to_got_full_update fd ≡ false
      → is_name id ≡ false
      → let response = (on_update_service_status t fd info now).1 in
        route hash dist (on_update_response n true response.service_info_map) id strategy
        ≡ first_info (online id (all_infos (renew_cached t inst info now).0.reg.registry))
  route-full_update hash dist n id strategy h e =
      rw (full_response h) (route-on_update_response hash dist n _ id strategy e)

  -- Every later update of a registered service with nothing to fetch wipes its routes, once the full
  -- list was sent: after it the service can send a message to nobody, whatever its tables held and whatever is registered.
  pub send_msg_to-quiet_update :
      (hash : String → ℕ) (dist : ℕ → ℕ) (takes : String → Bool) (n : BusNet) (target : String)
      (strategy : LbStrategy)
      → has t.fd_to_got_full_update fd ≡ true
      → let response = (on_update_service_status t fd info now).1 in
        (send_msg_to hash dist takes
          (on_update_response n true response.service_info_map)
          target
          strategy).1
        ≡ none
  send_msg_to-quiet_update hash dist takes n target strategy h =
      rw (quiet_response h) (send_msg_to-nil hash dist takes n target strategy)
