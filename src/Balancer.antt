-- ===== src/Balancer.antt =====
-- server/common/LoadBalancer.cpp: the strategies that choose one of a service's instances. A map's
-- iteration order is the order of the list. The hash of a key and the random number are arguments.
pub mod Turn
pub mod Best
pub mod Spin
pub mod Smooth
pub mod Factory
use mathlib.Core.List.{flatten}
use tg_chat_server.Prelude.{
  ℕ, zero, suc, ◌+◌, ◌-◌, ◌/◌, ◌%◌, ◌^◌, max, Bool, not, Option, none, some, List, [], ◌∷◌, ◌++◌,
  map, String, length, get_elem?, replicate, ltb, nat_beq, if◌then◌else◌, ◌==◌, string_key, find,
  insert, add64, sub64,
}
use tg_chat_server.Service.{ServiceInstance, ServiceInstances}

abbrev pub instances_of : ServiceInstances → List ServiceInstance
instances_of m = map (λ kv. kv.1) m

-- `select` of `RoundRobinLB`: the counter after it, and the choice.
unfoldable pub round_robin : ℕ → ServiceInstances → String → ℕ × Option ServiceInstance
round_robin idx [] key = (idx, none)
round_robin idx (kv ∷ rest) key =
    if not (key == "")
    then (idx, find key (kv ∷ rest))
    else (add64 idx 1, get_elem? (instances_of (kv ∷ rest)) (idx % length (kv ∷ rest)))

-- The wheel of `WeightedRRLB`: each instance as often as its weight says, at least once.
unfoldable pub weight_wheel : ServiceInstances → List ServiceInstance
weight_wheel m = flatten (map (λ kv. replicate (max 1 kv.1.weight) kv.1) m)

unfoldable pub weighted_rr : ℕ → ServiceInstances → ℕ × Option ServiceInstance
weighted_rr idx [] = (idx, none)
weighted_rr idx (kv ∷ rest) =
    let wheel = weight_wheel (kv ∷ rest) in (add64 idx 1, get_elem? wheel (idx % length wheel))

-- The loop of the strategies that look for the best instance: the best one so far with its value,
-- none at first, and replaced by a strictly better one.
unfoldable pub scan :
    (ServiceInstance → ℕ)
    → (ℕ → ℕ → Bool)
    → Option ServiceInstance
    → ℕ
    → ServiceInstances
    → Option ServiceInstance
scan value better best best_value [] = best
scan value better none best_value (kv ∷ rest) = scan value better (some kv.1) (value kv.1) rest
scan value better (some b) best_value (kv ∷ rest) =
    let keep = scan value better (some b) best_value rest in
    if better (value kv.1) best_value then scan value better (some kv.1) (value kv.1) rest else keep

unfoldable pub least_conn : ServiceInstances → Option ServiceInstance
least_conn m = scan (λ i. i.connections) ltb none (2 ^ 64 - 1) m

-- A latency of zero is unknown and counts as high.
abbrev pub latency : ServiceInstance → ℕ
latency i = if nat_beq i.avg_latency_us 0 then (2 ^ 64 - 1) / 2 else i.avg_latency_us

unfoldable pub latency_aware : ServiceInstances → Option ServiceInstance
latency_aware m = scan latency ltb none (2 ^ 64 - 1) m

unfoldable pub least_load : ServiceInstances → Option ServiceInstance
least_load m = scan (λ i. i.load_score) ltb none (2 ^ 32 - 1) m

unfoldable pub most_load : ServiceInstances → Option ServiceInstance
most_load m = scan (λ i. i.load_score) (λ a b. ltb b a) none 0 m

-- Without a key, a round robin that was made for this one call.
unfoldable pub consistent_hash : (String → ℕ) → ServiceInstances → String → Option ServiceInstance
unfolding round_robin
consistent_hash hash [] key = none
consistent_hash hash (kv ∷ rest) key =
    if key == ""
    then (round_robin 0 (kv ∷ rest) "").1
    else get_elem? (instances_of (kv ∷ rest)) (hash key % length (kv ∷ rest))

abbrev pub load_weight : ServiceInstance → ℕ
load_weight i = if ltb 0 i.load_score then i.load_score else 1

-- `total` of `WeightedLoadLB`.
unfoldable pub total_load : ServiceInstances → ℕ → ℕ
total_load [] total = total
total_load (kv ∷ rest) total = total_load rest (add64 total (load_weight kv.1))

-- The search for the roll in the wheel, and the last instance if it is not found.
unfoldable pub spin : ℕ → ℕ → Option ServiceInstance → ServiceInstances → Option ServiceInstance
spin roll acc last [] = last
spin roll acc last (kv ∷ rest) =
    let sum = add64 acc (load_weight kv.1) in
    let later = spin roll sum (some kv.1) rest in if ltb roll sum then some kv.1 else later

-- `dist(rng)` is a number from 0 to `total - 1`.
unfoldable pub weighted_load : (ℕ → ℕ) → ServiceInstances → Option ServiceInstance
weighted_load dist [] = none
weighted_load dist (kv ∷ rest) =
    let total = total_load (kv ∷ rest) 0 in
    if nat_beq total 0 then some kv.1 else spin (dist total) 0 none (kv ∷ rest)
