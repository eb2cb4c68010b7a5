-- ===== src/BusNet/Sending.antt =====
-- Where a message goes after a response of the centre, and what becomes of the routes when the
-- centre has nothing new to tell.
use tg_chat_server.Prelude.{
  ℕ, suc, ◌%◌, length, ◌≡◌, inl, inr, refl, ap, arith, Bool, true, false, none, some, List, [], ◌∷◌,
  String, Bool-cases, string_key, nat_key, find,
}
use native.Mathlib.Nat.{mod-eq_of_lt}
use tg_chat_server.Service.{ServiceInstance, ServiceInstances, ServiceInfo}
use tg_chat_server.Balancer as Balancer
use tg_chat_server.Balancer.Smooth as Smooth
use tg_chat_server.Balancer.Factory.{LbStrategy, create-lb_factory}
use tg_chat_server.BusNet.{
  BusNet, ServiceNameInstances, instances_at, fill_map, fill_names, on_update_response, is_name,
  select_fresh, first_info, route_to_id, route, send_msg_to,
}
use tg_chat_server.BusNet.Tables.{online, infos_at-fill_map}

module _ (hash : String → ℕ) (dist : ℕ → ℕ) where
  route_to_id_lem :
      (n : BusNet) (infos : List ServiceInfo) (id : String)
      → route_to_id (on_update_response n true infos) id ≡ first_info (online id infos)
  unfolding route_to_id on_update_response find
  route_to_id_lem n infos id = ap first_info (infos_at-fill_map id infos [])

  -- After a successful response, a message to an id goes to the first service of the response that
  -- has the id and is up, with any strategy, and to none if there is no such service.
  pub route-on_update_response :
      (n : BusNet) (infos : List ServiceInfo) (id : String) (strategy : LbStrategy)
      → is_name id ≡ false
      → route hash dist (on_update_response n true infos) id strategy ≡ first_info (online id infos)
  unfolding route first_info
  route-on_update_response n infos id strategy e = rw (route, e) (route_to_id_lem n infos id)

  select_fresh-nil : (s : LbStrategy) → select_fresh hash dist s [] ≡ none
  unfolding select_fresh Balancer.round_robin Balancer.weighted_rr Balancer.least_conn
      Balancer.consistent_hash Smooth.smooth_weighted Balancer.latency_aware Balancer.weighted_load
      Balancer.least_load Balancer.most_load Balancer.scan
  select_fresh-nil LbStrategy.round_robin = refl
  select_fresh-nil LbStrategy.weighted_rr = refl
  select_fresh-nil LbStrategy.least_conn = refl
  select_fresh-nil LbStrategy.cons_hash = refl
  select_fresh-nil LbStrategy.smooth_weighted = refl
  select_fresh-nil LbStrategy.latency_aware = refl
  select_fresh-nil LbStrategy.weighted_load = refl
  select_fresh-nil LbStrategy.least_load = refl
  select_fresh-nil LbStrategy.most_load = refl

  route-nil :
      (n : BusNet) (target : String) (strategy : LbStrategy)
      → route hash dist (on_update_response n true []) target strategy ≡ none
  unfolding route on_update_response fill_names fill_map find route_to_id first_info
  route-nil n target strategy = elim (Bool-cases (is_name target)) [
    | inl e ↦ rw (e, create-lb_factory.0 strategy, select_fresh-nil strategy) refl
    | inr e ↦ rw e refl
  ]

  -- After a successful response without services, every message to every target fails, with any
  -- strategy and whatever the tables held before.
  pub send_msg_to-nil :
      (takes : String → Bool) (n : BusNet) (target : String) (strategy : LbStrategy)
      → (send_msg_to hash dist takes (on_update_response n true []) target strategy).1 ≡ none
  unfolding send_msg_to
  send_msg_to-nil takes n target strategy = rw (send_msg_to, route-nil n target strategy) refl

  -- By name with round robin, the balancer is new for each message, so every message goes to the
  -- first instance of the name, in the order of the map.
  pub route-round_robin :
      (n : BusNet) (target k : String) (i : ServiceInstance) (rest : ServiceInstances)
      (names : ServiceNameInstances)
      → is_name target ≡ true
      → n.name_instances ≡ some names
      → instances_at target names ≡ (k, i) ∷ rest
      → route hash dist n target LbStrategy.round_robin ≡ route_to_id n i.id
  unfolding route select_fresh Balancer.round_robin route_to_id
  route-round_robin n target k i rest names e q m =
      let zero_mod : 0 % suc (length rest) ≡ 0 = mod-eq_of_lt (omega arith) in
      rw (route, e, q, create-lb_factory.0 LbStrategy.round_robin, select_fresh, m, zero_mod) refl
