-- ===== src/Balancer/Smooth.antt =====
-- `SmoothWeightedRRLB` of server/common/LoadBalancer.cpp. An `int64_t` is its 64 bits, as a number
-- below 2 ^ 64.
use tg_chat_server.Prelude.{
  ℕ, ◌^◌, max, Bool, true, false, Option, none, some, List, [], ◌∷◌, String, ltb, if◌then◌else◌,
  ◌==◌, string_key, find, insert, add64, sub64,
}
use tg_chat_server.Service.{ServiceInstance, ServiceInstances}

-- The order of `int64_t`.
abbrev pub signed_lt : ℕ → ℕ → Bool
signed_lt a b = ltb (add64 a (2 ^ 63)) (add64 b (2 ^ 63))

pub record Node : Type 0 where
  pub weight : ℕ
  pub current : ℕ
  pub effective_weight : ℕ

abbrev pub Nodes : Type 0
Nodes = List (String × Node)

-- A new node, or an old one with the new `weight`, whose `effective_weight` stays.
unfoldable pub update_node : Nodes → ServiceInstance → Node
update_node nodes p = elim (find p.id nodes) [
  | none ↦ record { weight = max 1 p.weight; current = 0; effective_weight = max 1 p.weight }
  | some n ↦ record n { weight = max 1 p.weight }
]

-- The first loop: the nodes, and the total after it.
unfoldable pub update_nodes : ServiceInstances → Nodes → ℕ → Nodes × ℕ
update_nodes [] nodes total = (nodes, total)
update_nodes (kv ∷ rest) nodes total =
    let n = update_node nodes kv.1 in
    update_nodes rest (insert kv.1.id n nodes) (add64 total n.effective_weight)

unfoldable pub is_alive : ServiceInstances → String → Bool
is_alive [] id = false
is_alive (kv ∷ rest) id = let later = is_alive rest id in if kv.1.id == id then true else later

unfoldable pub drop_dead : ServiceInstances → Nodes → Nodes
drop_dead m [] = []
drop_dead m ((id, n) ∷ rest) =
    let others = drop_dead m rest in if is_alive m id then (id, n) ∷ others else others

-- The first step of the choice; every instance has a node here.
unfoldable pub raise : ServiceInstances → Nodes → Nodes
raise [] nodes = nodes
raise (kv ∷ rest) nodes = elim (find kv.1.id nodes) [
  | none ↦ raise rest nodes
  | some n ↦
      raise rest (insert kv.1.id (record n { current = add64 n.current n.effective_weight }) nodes)
]

-- The second step, from the best id so far and its current.
unfoldable pub find_best : Nodes → String → ℕ → String × ℕ
find_best [] best_id best_current = (best_id, best_current)
find_best ((id, n) ∷ rest) best_id best_current =
    let keep = find_best rest best_id best_current in
    if signed_lt best_current n.current then find_best rest id n.current else keep

unfoldable pub charge : Nodes → String → ℕ → Nodes
charge nodes id total = elim (find id nodes) [
  | none ↦ nodes
  | some n ↦ insert id (record n { current = sub64 n.current total }) nodes
]

unfoldable pub smooth_weighted : Nodes → ServiceInstances → Nodes × Option ServiceInstance
smooth_weighted nodes [] = (nodes, none)
smooth_weighted nodes (kv ∷ rest) =
    let m = kv ∷ rest in
    let updated = update_nodes m nodes 0 in
    let raised = raise m (drop_dead m updated.0) in
    let best = find_best raised "" (2 ^ 63) in
    if best.0 == "" then (raised, none) else (charge raised best.0 updated.1, find best.0 m)
