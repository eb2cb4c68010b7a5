-- ===== src/Balancer/Factory.antt =====
-- `LBFactory` of server/common/LoadBalancer.cpp and LoadBalancer.h: which strategy a name makes. A
-- creator is the strategy that it creates.
use tg_chat_server.Prelude.{
  ◌≡◌, refl, Option, none, some, List, [], String, string_key, find, insert,
}

pub data LbStrategy : Type 0 where
  round_robin weighted_rr least_conn cons_hash smooth_weighted latency_aware weighted_load
        least_load most_load :
      LbStrategy

abbrev pub Factory : Type 0
Factory = List (String × LbStrategy)

unfoldable pub register_factory : Factory → String → LbStrategy → Factory
register_factory f name c = insert name c f

unfoldable pub lb_factory : Factory
unfolding register_factory
lb_factory =
    let a = register_factory [] "round_robin" LbStrategy.round_robin in
    let b = register_factory a "weighted_rr" LbStrategy.weighted_rr in
    let c = register_factory b "least_conn" LbStrategy.least_conn in
    let d = register_factory c "cons_hash" LbStrategy.cons_hash in
    let e = register_factory d "smooth_weighted" LbStrategy.smooth_weighted in
    let f = register_factory e "latency_aware" LbStrategy.latency_aware in
    let g = register_factory f "weighted_load" LbStrategy.weighted_load in
    let h = register_factory g "least_load" LbStrategy.least_load in
    register_factory h "most_load" LbStrategy.most_load

-- `factory_[name]()`; a name without a creator would be a call of an empty function.
unfoldable pub creator : Factory → String → Option LbStrategy
creator f name = find name f

unfoldable pub create_by_name : Factory → String → Option LbStrategy
unfolding creator
create_by_name f name = elim (find name f) [ none ↦ creator f "round_robin" | some c ↦ some c ]

abbrev pub strategy_name : LbStrategy → String
strategy_name LbStrategy.round_robin = "round_robin"
strategy_name LbStrategy.weighted_rr = "weighted_rr"
strategy_name LbStrategy.least_conn = "least_conn"
strategy_name LbStrategy.cons_hash = "cons_hash"
strategy_name LbStrategy.smooth_weighted = "smooth_weighted"
strategy_name LbStrategy.latency_aware = "latency_aware"
strategy_name LbStrategy.weighted_load = "weighted_load"
strategy_name LbStrategy.least_load = "least_load"
strategy_name LbStrategy.most_load = "most_load"

unfoldable pub create : Factory → LbStrategy → Option LbStrategy
unfolding creator
create f strategy = creator f (strategy_name strategy)

find-lb_factory : (s : LbStrategy) → find (strategy_name s) lb_factory ≡ some s
unfolding find lb_factory register_factory insert
find-lb_factory LbStrategy.round_robin = refl
find-lb_factory LbStrategy.weighted_rr = refl
find-lb_factory LbStrategy.least_conn = refl
find-lb_factory LbStrategy.cons_hash = refl
find-lb_factory LbStrategy.smooth_weighted = refl
find-lb_factory LbStrategy.latency_aware = refl
find-lb_factory LbStrategy.weighted_load = refl
find-lb_factory LbStrategy.least_load = refl
find-lb_factory LbStrategy.most_load = refl

-- The factory makes for every strategy a balancer of that strategy, and by its name too; and for a
-- name that is none of the nine, a round robin.
pub create-lb_factory :
    ((s : LbStrategy) → create lb_factory s ≡ some s)
    × ((s : LbStrategy) → create_by_name lb_factory (strategy_name s) ≡ some s)
    × ((name : String)
        → find name lb_factory ≡ none
        → create_by_name lb_factory name ≡ some LbStrategy.round_robin)
unfolding create create_by_name creator
create-lb_factory = (
  find-lb_factory,
  λ s. rw (create_by_name, find-lb_factory s) refl,
  λ name e. rw (create_by_name, e) (find-lb_factory LbStrategy.round_robin),
)
