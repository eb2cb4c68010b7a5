-- ===== src/Tests/Balancer.antt =====
-- server/common/LoadBalancer.cpp at concrete inputs.
use tg_chat_server.Prelude.{
  ℕ, ◌≤◌, ◌≡◌, refl, true, String, some, [], ◌∷◌, find, insert, string_key,
}
use tg_chat_server.Service.{ServiceInstance, ServiceInstances}
use tg_chat_server.Balancer.{
  instances_of, least_conn, latency, latency_aware, least_load, most_load,
}
use tg_chat_server.Balancer.Best.{Finds, best_choices}
use tg_chat_server.Balancer.Smooth.{
  smooth_weighted, update_node, update_nodes, is_alive, drop_dead, raise, find_best, charge,
}

abbrev pub service : String → ℕ → ℕ → ServiceInstance
service id weight load = record {
  id = id;
  svc_name = "logic";
  address = "10.0.0.1";
  port = 9000;
  weight = weight;
  shm_recv_buffer_name = id;
  metadata = [];
  healthy = true;
  connections = load;
  last_seen = 0;
  avg_latency_us = 0;
  cpu_percent = 0;
  load_score = load;
}

abbrev a : ServiceInstance
a = service "a" 2 7

abbrev b : ServiceInstance
b = service "b" 1 0

abbrev two : ServiceInstances
two = ("a", a) ∷ ("b", b) ∷ []

best_choices_example :
    Finds (◌≤◌) (λ i. i.connections) (least_conn two) (instances_of two)
    × Finds (◌≤◌) latency (latency_aware two) (instances_of two)
    × Finds (◌≤◌) (λ i. i.load_score) (least_load two) (instances_of two)
    × Finds (λ x y. y ≤ x) (λ i. i.load_score) (most_load two) (instances_of two)
best_choices_example = best_choices two (λ e. cc)

-- With the weights 2 and 1 the smooth strategy alternates as 2 : 1.
smooth_turn :
    let x = smooth_weighted [] two in
    let y = smooth_weighted x.0 two in
    let z = smooth_weighted y.0 two in (x.1 ≡ some a) × (y.1 ≡ some b) × (z.1 ≡ some a)
unfolding smooth_weighted update_nodes update_node is_alive drop_dead raise find_best charge find
    insert
smooth_turn = (refl, refl, refl)

abbrev heavy : ServiceInstances
heavy = ("a", a) ∷ ("b", service "b" 100 0) ∷ []

-- A weight that changes later has no effect, since the effective weight stays.
smooth_weight_kept :
    let x = smooth_weighted [] two in
    let y = smooth_weighted x.0 heavy in
    let z = smooth_weighted y.0 heavy in
    (x.1 ≡ some a) × (y.1 ≡ some (service "b" 100 0)) × (z.1 ≡ some a)
unfolding smooth_weighted update_nodes update_node is_alive drop_dead raise find_best charge find
    insert
smooth_weight_kept = (refl, refl, refl)
