-- ===== src/BusNet.antt =====
-- server/core/bus/IBusNet.h, IBusNet.cpp and BusClientNet.cpp: how a service keeps its routes to the
-- others, from the centre's responses, and where it sends a message. A table that was not stored
-- yet is `none`. Whether a ring buffer takes a message, the hash and the random number are
-- arguments; a ring buffer of shared memory is its name.
pub mod Tables
pub mod Sending
pub mod Daemon
use Prim.Native.Char.{code}
use tg_chat_server.Prelude.{
  ℕ, Bool, true, false, not, ◌&&◌, ◌||◌, Option, none, some, List, [], ◌∷◌, ◌++◌, String, leb,
  if◌then◌else◌, ◌==◌, string_key, find, insert,
}
use tg_chat_server.Service.{ServiceInstance, ServiceInstances, ServiceInfo}
use tg_chat_server.Balancer as Balancer
use tg_chat_server.Balancer.Smooth as Smooth
use tg_chat_server.Balancer.Factory.{LbStrategy, lb_factory, create}

abbrev pub ServiceMap : Type 0
ServiceMap = List (String × List ServiceInfo)

abbrev pub ServiceNameInstances : Type 0
ServiceNameInstances = List (String × ServiceInstances)

pub record BusNet : Type 0 where
  pub local_busd : Option String
  pub service_map : Option ServiceMap
  pub name_instances : Option ServiceNameInstances
  pub local_services : List (String × String)
  pub local_ip : String

-- `m[key]`, which an absent key reads as empty.
abbrev pub or_empty : {A : Type 0} → Option (List A) → List A
or_empty none = []
or_empty (some xs) = xs

abbrev pub infos_at : String → ServiceMap → List ServiceInfo
infos_at k m = or_empty (find k m)

abbrev pub instances_at : String → ServiceNameInstances → ServiceInstances
instances_at k m = or_empty (find k m)

-- `last_seen` is the time of the construction, which nothing reads here.
abbrev pub instance_of : ServiceInfo → ServiceInstance
instance_of s = record {
  id = s.id;
  svc_name = s.svr_name;
  address = s.ip;
  port = s.port;
  weight = 1;
  shm_recv_buffer_name = s.shm_recv_buffer_name;
  metadata = [];
  healthy = true;
  connections = s.connections;
  last_seen = 0;
  avg_latency_us = 0;
  cpu_percent = s.cpu_percent;
  load_score = s.load_score;
}

-- The entry of the instance in its service's map: a new one, or the old one with new figures.
unfoldable pub merged : ServiceInstances → ServiceInfo → ServiceInstance
merged m s = elim (find s.id m) [
  | none ↦ instance_of s
  | some i ↦ record i {
    connections = s.connections;
    cpu_percent = s.cpu_percent;
    load_score = s.load_score;
  }
]

-- The loop of `onCenterUpdateServiceStatusRsp`, one table at a time.
unfoldable pub fill_map : List ServiceInfo → ServiceMap → ServiceMap
fill_map [] m = m
fill_map (s ∷ rest) m =
    fill_map rest (if s.is_offline then m else insert s.id (infos_at s.id m ++ s ∷ []) m)

unfoldable pub fill_names : List ServiceInfo → ServiceNameInstances → ServiceNameInstances
fill_names [] m = m
fill_names (s ∷ rest) m = fill_names rest (
    if s.is_offline
    then m
    else let of_name = instances_at s.svr_name m in
      insert s.svr_name (insert s.id (merged of_name s) of_name) m)

unfoldable pub find_busd : List ServiceInfo → String → Option String → Option String
find_busd [] ip busd = busd
find_busd (s ∷ rest) ip (some b) = some b
find_busd (s ∷ rest) ip none = find_busd rest ip (
    if not s.is_offline && (s.is_daemon && (s.ip == ip)) then some s.shm_recv_buffer_name else none)

-- Both tables are built anew from the services of the response.
unfoldable pub on_update_response : BusNet → (success : Bool) → List ServiceInfo → BusNet
on_update_response n success infos = if not success then n else record n {
  local_busd = find_busd infos n.local_ip n.local_busd;
  service_map = some (fill_map infos []);
  name_instances = some (fill_names infos []);
}

unfoldable pub is_alpha : ℕ → Bool
is_alpha c = leb b'A' c && leb c b'Z' || leb b'a' c && leb c b'z'

-- A name has a letter; an id has digits and dots.
unfoldable pub is_name : String → Bool
is_name String.[] = false
is_name (String.◌∷◌ c s) = is_alpha (code c) || is_name s

-- `select` of a balancer that has just been made, without a key.
unfoldable pub select_fresh :
    (String → ℕ) → (ℕ → ℕ) → LbStrategy → ServiceInstances → Option ServiceInstance
select_fresh hash dist LbStrategy.round_robin m = (Balancer.round_robin 0 m "").1
select_fresh hash dist LbStrategy.weighted_rr m = (Balancer.weighted_rr 0 m).1
select_fresh hash dist LbStrategy.least_conn m = Balancer.least_conn m
select_fresh hash dist LbStrategy.cons_hash m = Balancer.consistent_hash hash m ""
select_fresh hash dist LbStrategy.smooth_weighted m = (Smooth.smooth_weighted [] m).1
select_fresh hash dist LbStrategy.latency_aware m = Balancer.latency_aware m
select_fresh hash dist LbStrategy.weighted_load m = Balancer.weighted_load dist m
select_fresh hash dist LbStrategy.least_load m = Balancer.least_load m
select_fresh hash dist LbStrategy.most_load m = Balancer.most_load m

unfoldable pub first_info : List ServiceInfo → Option ServiceInfo
first_info [] = none
first_info (s ∷ rest) = some s

-- The service with the id, if the table of ids has one.
unfoldable pub route_to_id : BusNet → String → Option ServiceInfo
route_to_id n id = elim n.service_map [ none ↦ none | some m ↦ first_info (infos_at id m) ]

-- The service that `sendMsgTo` hands to `sendMsgByServiceInfo`, or none where it fails before.
unfoldable pub route : (String → ℕ) → (ℕ → ℕ) → BusNet → String → LbStrategy → Option ServiceInfo
route hash dist n target strategy =
    if is_name target
    then elim n.name_instances [
      | none ↦ none
      | some names ↦ elim (create lb_factory strategy) [
        | none ↦ none
        | some lb ↦ elim (select_fresh hash dist lb (instances_at target names)) [
          | none ↦ none
          | some i ↦ route_to_id n i.id
        ]
      ]
    ]
    else route_to_id n target

-- `BusClientNet::sendMsgByServiceInfo`: the object after it, and the ring buffer that took the
-- message.
unfoldable pub send_by_service_info :
    (String → Bool) → BusNet → ServiceInfo → BusNet × Option String
send_by_service_info takes n info =
    if info.ip == "127.0.0.1"
    then elim (find info.id n.local_services) [
      | some ring ↦ (n, if takes ring then some ring else none)
      | none ↦ (
        record n { local_services = insert info.id info.shm_recv_buffer_name n.local_services },
        if takes info.shm_recv_buffer_name then some info.shm_recv_buffer_name else none,
      )
    ]
    else elim n.local_busd [
      | none ↦ (n, none)
      | some ring ↦ (n, if takes ring then some ring else none)
    ]

-- `sendMsgTo`; it returns whether a ring buffer took the message.
unfoldable pub send_msg_to :
    (String → ℕ) → (ℕ → ℕ) → (String → Bool) → BusNet → String → LbStrategy → BusNet × Option String
send_msg_to hash dist takes n target strategy = elim (route hash dist n target strategy) [
  | none ↦ (n, none)
  | some info ↦ send_by_service_info takes n info
]
