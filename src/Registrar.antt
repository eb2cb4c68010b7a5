-- ===== src/Registrar.antt =====
-- server/center/TcpRegistrar.h and TcpRegistrar.cpp: what the centre does with a service's messages.
-- The messages are decoded; the reply is a value. The time of a call and the latency that a
-- registration measures are arguments. An instance that the registry and the table of connections
-- share is a value in both, and a delta holds the values of its time.
pub mod Updates
use tg_chat_server.Prelude.{
  ℕ, ◌+◌, Bool, true, false, not, Option, none, some, List, [], ◌∷◌, ◌++◌, map, String, nat_beq,
  if◌then◌else◌, ◌==◌, string_key, nat_key, find, insert, erase,
}
use tg_chat_server.Service.{ServiceInstance, ServiceInstances, ServiceInfo}
use tg_chat_server.Registry.{
  Op, upsert, offline, DeltaEntry, ServiceRegistry, register_instance, deregister_instance,
  find_by_id, snapshot, cleanup_expired, subscribe, unsubscribe, pop_deltas,
}

abbrev pub ttl : ℕ
ttl = 15

pub record TcpRegistrar : Type 0 where
  pub reg : ServiceRegistry
  pub fd_to_id : List (ℕ × String)
  pub fd_to_inst : List (ℕ × ServiceInstance)
  pub fd_to_got_full_update : List ℕ

-- The response of an update: whether it is the full list, and the services in it.
pub record UpdateResponse : Type 0 where
  pub is_full_update : Bool
  pub service_info_map : List ServiceInfo

-- The latency of an instance that has none yet is its first sample.
abbrev pub new_instance : ServiceInfo → (latency now : ℕ) → ServiceInstance
new_instance i latency now = record {
  id = i.id;
  svc_name = i.svr_name;
  address = i.ip;
  port = i.port;
  weight = 1;
  shm_recv_buffer_name = i.shm_recv_buffer_name;
  metadata = [];
  healthy = true;
  connections = i.connections;
  last_seen = now;
  avg_latency_us = latency;
  cpu_percent = i.cpu_percent;
  load_score = i.load_score;
}

-- The name of the receive buffer and the daemon mark are not filled in.
unfoldable pub fill_info : ServiceInstance → (is_offline : Bool) → ServiceInfo
fill_info p is_offline = record {
  svr_name = p.svc_name;
  ip = p.address;
  port = p.port;
  id = p.id;
  is_daemon = false;
  is_offline = is_offline;
  shm_recv_buffer_name = "";
  connections = p.connections;
  cpu_percent = p.cpu_percent;
  load_score = p.load_score;
}

unfoldable pub has : List ℕ → ℕ → Bool
has [] fd = false
has (x ∷ xs) fd = let rest = has xs fd in if nat_beq x fd then true else rest

unfoldable pub without : List ℕ → ℕ → List ℕ
without [] fd = []
without (x ∷ xs) fd = let rest = without xs fd in if nat_beq x fd then rest else x ∷ rest

unfoldable pub handle_disconnect : TcpRegistrar → ℕ → TcpRegistrar
handle_disconnect t fd = elim (find fd t.fd_to_id) [
  | none ↦ t
  | some i ↦ record {
    reg = elim (find fd t.fd_to_inst) [
      | none ↦ t.reg
      | some inst ↦ unsubscribe (deregister_instance t.reg inst.svc_name inst.id) inst.id
    ];
    fd_to_id = erase fd t.fd_to_id;
    fd_to_inst = erase fd t.fd_to_inst;
    fd_to_got_full_update = without t.fd_to_got_full_update fd;
  }
]

-- The reply says success in any case.
unfoldable pub on_regist : TcpRegistrar → ℕ → ServiceInfo → (latency now : ℕ) → TcpRegistrar
on_regist t fd info latency now =
    let inst = new_instance info latency now in
    record t {
      reg = register_instance (subscribe t.reg inst.id) inst ttl true now;
      fd_to_id = insert fd inst.id t.fd_to_id;
      fd_to_inst = insert fd inst t.fd_to_inst;
    }

-- The search through all services.
unfoldable pub find_anywhere : List (String × ServiceInstances) → String → Option ServiceInstance
find_anywhere [] id = none
find_anywhere ((svc, m) ∷ rest) id =
    let later = find_anywhere rest id in elim (find_by_id id m) [ none ↦ later | some p ↦ some p ]

-- A renewal of the cached instance, of one that is found, or a new registration: the registrar
-- after it, and the instance.
unfoldable pub renew_cached :
    TcpRegistrar → ServiceInstance → ServiceInfo → ℕ → TcpRegistrar × ServiceInstance
renew_cached t inst info now =
    let seen = record inst {
      connections = info.connections;
      cpu_percent = info.cpu_percent;
      load_score = info.load_score;
    } in
    (record t { reg = register_instance t.reg seen ttl false now }, seen)

unfoldable pub renew_found : TcpRegistrar → ℕ → ServiceInstance → ℕ → TcpRegistrar × ServiceInstance
renew_found t fd p now = (
  record t { reg = register_instance t.reg p ttl false now; fd_to_inst = insert fd p t.fd_to_inst },
  p,
)

unfoldable pub register_again : TcpRegistrar → ℕ → ServiceInfo → ℕ → TcpRegistrar × ServiceInstance
register_again t fd info now =
    let inst = new_instance info 0 now in
    (
      record {
        reg = register_instance (subscribe t.reg inst.id) inst ttl true now;
        fd_to_id = insert fd inst.id t.fd_to_id;
        fd_to_inst = insert fd inst t.fd_to_inst;
        fd_to_got_full_update = without t.fd_to_got_full_update fd;
      },
      inst,
    )

unfoldable pub look_up : TcpRegistrar → ℕ → ServiceInfo → ℕ → TcpRegistrar × ServiceInstance
look_up t fd info now = elim (find_anywhere (snapshot t.reg) info.id) [
  | none ↦ register_again t fd info now
  | some p ↦ renew_found t fd p now
]

unfoldable pub renew : TcpRegistrar → ℕ → ServiceInfo → ℕ → TcpRegistrar × ServiceInstance
renew t fd info now = elim (find fd t.fd_to_inst) [
  | none ↦ look_up t fd info now
  | some inst ↦ if inst.id == info.id then renew_cached t inst info now else look_up t fd info now
]

unfoldable pub is_offline_op : Op → Bool
is_offline_op upsert = false
is_offline_op offline = true

unfoldable pub delta_infos : List DeltaEntry → List ServiceInfo
delta_infos [] = []
delta_infos (d ∷ rest) = fill_info d.inst (is_offline_op d.op) ∷ delta_infos rest

unfoldable pub service_infos : ServiceInstances → List ServiceInfo
service_infos [] = []
service_infos ((k, p) ∷ rest) = fill_info p false ∷ service_infos rest

unfoldable pub all_infos : List (String × ServiceInstances) → List ServiceInfo
all_infos [] = []
all_infos ((svc, m) ∷ rest) = service_infos m ++ all_infos rest

-- What is sent, from the deltas that were taken.
unfoldable pub answer : TcpRegistrar → ℕ → List DeltaEntry → TcpRegistrar × UpdateResponse
answer t fd [] =
    if not (has t.fd_to_got_full_update fd)
    then (
      record t { fd_to_got_full_update = fd ∷ t.fd_to_got_full_update },
      record { is_full_update = true; service_info_map = all_infos (snapshot t.reg) },
    )
    else (t, record { is_full_update = false; service_info_map = [] })
answer t fd (d ∷ rest) =
    (t, record { is_full_update = false; service_info_map = delta_infos (d ∷ rest) })

unfoldable pub on_update_service_status :
    TcpRegistrar → ℕ → ServiceInfo → ℕ → TcpRegistrar × UpdateResponse
on_update_service_status t fd info now =
    let r = renew t fd info now in
    let d = pop_deltas r.0.reg r.1.id in
    let a = answer (record r.0 { reg = d.0 }) fd d.1 in
    (record a.0 { reg = cleanup_expired a.0.reg now }, a.1)
