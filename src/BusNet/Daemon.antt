-- ===== src/BusNet/Daemon.antt =====
-- server/core/bus/BusdNet.cpp: how the daemon of a machine hands messages to its services and to other
-- machines. A message is the offset of its memory; a connection is an address and a port. Whether a
-- ring buffer takes a message and whether a connection starts are arguments.
pub mod Released
use tg_chat_server.Prelude.{
  ℕ, suc, ◌+◌, Bool, true, false, ◌&&◌, Option, none, some, List, [], ◌∷◌, ◌++◌, String, ◌==◌,
  string_key, find, insert, nat_beq, if◌then◌else◌,
}
use tg_chat_server.Service.{ServiceInstances, ServiceInfo}
use tg_chat_server.BusNet.{BusNet, ServiceMap, infos_at, instances_at, first_info}

-- `pushed` is which ring buffer took which message, `sent` what went to another machine, `deleted` the
-- memory that was freed; the last one first.
pub record Daemon : Type 0 where
  pub net : BusNet
  pub remote_daemons : List (String × ℕ)
  pub pushed : List (String × ℕ)
  pub sent : List ((String × ℕ) × ℕ)
  pub deleted : List ℕ

unfoldable pub is_connected : List (String × ℕ) → String → ℕ → Bool
is_connected [] ip port = false
is_connected (d ∷ rest) ip port =
    let later = is_connected rest ip port in if (d.0 == ip) && nat_beq d.1 port then true else later

unfoldable pub delete_ss_pack : Daemon → ℕ → (delete_msg : Bool) → Daemon
delete_ss_pack d offset delete_msg =
    if delete_msg then record d { deleted = offset ∷ d.deleted } else d

-- The ring buffer of a service on this machine, which is opened at its first message.
unfoldable pub open_ring : BusNet → ServiceInfo → BusNet × String
open_ring n info = elim (find info.id n.local_services) [
  | some ring ↦ (n, ring)
  | none ↦ (
    record n { local_services = insert info.id info.shm_recv_buffer_name n.local_services },
    info.shm_recv_buffer_name,
  )
]

-- The services of a name that the table of ids has too.
unfoldable pub targets_of : ServiceMap → ServiceInstances → List ServiceInfo
targets_of m [] = []
targets_of m (kv ∷ rest) =
    let others = targets_of m rest in
    elim (first_info (infos_at kv.0 m)) [ none ↦ others | some info ↦ info ∷ others ]

unfoldable pub all_infos : ServiceMap → List ServiceInfo
all_infos [] = []
all_infos (kv ∷ rest) = kv.1 ++ all_infos rest

module _ (takes : String → Bool) (starts : String → ℕ → Bool) where
  -- `sendMsgByServiceInfo`
  unfoldable pub send_by_info : Daemon → ServiceInfo → ℕ → (delete_msg : Bool) → Daemon × Bool
  unfolding is_connected delete_ss_pack open_ring
  send_by_info d info offset delete_msg =
      if info.ip == d.net.local_ip
      then (let (net, ring) = open_ring d.net info in
          let opened = record d { net = net } in
          let tried =
            if takes ring then record opened { pushed = (ring, offset) ∷ d.pushed } else opened in
          (delete_ss_pack tried offset delete_msg, takes ring))
      else if is_connected d.remote_daemons info.ip info.port
      then (record d { sent = ((info.ip, info.port), offset) ∷ d.sent }, true)
      else if starts info.ip info.port
      then (
        record d {
          remote_daemons = (info.ip, info.port) ∷ d.remote_daemons;
          sent = ((info.ip, info.port), offset) ∷ d.sent;
        },
        true,
      )
      else (delete_ss_pack d offset delete_msg, false)

  -- A copy for each target but the last, which gets the message itself; `copy` is the memory for the
  -- copies. The daemon after it, and how many failed.
  unfoldable pub send_to_targets : (copy : ℕ → ℕ) → Daemon → ℕ → ℕ → List ServiceInfo → Daemon × ℕ
  unfolding send_by_info
  send_to_targets copy d offset i [] = (d, 0)
  send_to_targets copy d offset i (info ∷ []) =
      let q = send_by_info d info offset true in (q.0, if q.1 then 0 else 1)
  send_to_targets copy d offset i (info ∷ next ∷ rest) =
      let q = send_by_info d info (copy i) true in
      let others = send_to_targets copy q.0 offset (i + 1) (next ∷ rest) in
      (others.0, if q.1 then others.1 else others.1 + 1)

  unfoldable pub send_msg_to_group : (copy : ℕ → ℕ) → Daemon → String → ℕ → Daemon × Bool
  unfolding delete_ss_pack targets_of send_to_targets
  send_msg_to_group copy d group_name offset = elim d.net.name_instances [
    | none ↦ (delete_ss_pack d offset true, false)
    | some names ↦ elim d.net.service_map [
      | none ↦ (delete_ss_pack d offset true, false)
      | some m ↦ elim (targets_of m (instances_at group_name names)) [
        | [] ↦ (delete_ss_pack d offset true, false)
        | info ∷ rest ↦
            let q = send_to_targets copy d offset 0 (info ∷ rest) in (q.0, nat_beq q.1 0)
      ]
    ]
  ]

  -- The loop of `broadCast` over the services that are no daemons, each with a copy.
  unfoldable pub broadcast_to : (copy : ℕ → ℕ) → Daemon → ℕ → List ServiceInfo → Daemon
  unfolding send_by_info
  broadcast_to copy d i [] = d
  broadcast_to copy d i (info ∷ rest) =
      if info.is_daemon
      then broadcast_to copy d i rest
      else broadcast_to copy (send_by_info d info (copy i) true).0 (i + 1) rest

  unfoldable pub broad_cast : (copy : ℕ → ℕ) → Daemon → ℕ → Daemon
  unfolding delete_ss_pack broadcast_to all_infos
  broad_cast copy d offset = elim d.net.service_map [
    | none ↦ delete_ss_pack d offset true
    | some m ↦ delete_ss_pack (broadcast_to copy d 0 (all_infos m)) offset true
  ]
