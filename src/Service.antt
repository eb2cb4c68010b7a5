-- ===== src/Service.antt =====
-- server/common/ServiceInstance.h and ServiceInstance.cpp: what the system knows of a running
-- service. A time is a number of ticks.
use tg_chat_server.Prelude.{ℕ, Bool, List, String}

pub record ServiceInstance : Type 0 where
  pub id : String
  pub svc_name : String
  pub address : String
  pub port : ℕ
  pub weight : ℕ
  pub shm_recv_buffer_name : String
  pub metadata : List (String × String)
  pub healthy : Bool
  pub connections : ℕ
  pub last_seen : ℕ
  pub avg_latency_us : ℕ
  pub cpu_percent : ℕ
  pub load_score : ℕ

-- An unordered map by id, in the order of its iteration.
abbrev pub ServiceInstances : Type 0
ServiceInstances = List (String × ServiceInstance)

-- `ss::ServiceInfo`, as the messages between the centre and the services carry it.
pub record ServiceInfo : Type 0 where
  pub svr_name : String
  pub ip : String
  pub port : ℕ
  pub id : String
  pub is_daemon : Bool
  pub is_offline : Bool
  pub shm_recv_buffer_name : String
  pub connections : ℕ
  pub cpu_percent : ℕ
  pub load_score : ℕ
