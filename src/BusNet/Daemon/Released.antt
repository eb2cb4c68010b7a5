-- ===== src/BusNet/Daemon/Released.antt =====
-- When the daemon of server/core/bus/BusdNet.cpp frees the memory of the messages that it hands on.
use mathlib.Core.List.{Memᴰ}
use tg_chat_server.Prelude.{
  ℕ, ◌+◌, refl, inl, inr, Bool, true, false, List, [], ◌∷◌, String, ◌==◌, string_key, List-cases,
  if◌then◌else◌, Bool-cases, Option-cases,
}
use tg_chat_server.Service.{ServiceInfo}
use tg_chat_server.BusNet.{BusNet, instances_at}
use tg_chat_server.BusNet.Daemon.{
  Daemon, is_connected, delete_ss_pack, open_ring, send_by_info, targets_of, send_to_targets,
  send_msg_to_group, broadcast_to, all_infos, broad_cast,
}

-- The memory of each message in a ring buffer was freed.
abbrev pub AreDeleted : List (String × ℕ) → List ℕ → Type 0
AreDeleted [] deleted = Unit {0}
AreDeleted (p ∷ rest) deleted = Memᴰ p.1 deleted × AreDeleted rest deleted

abbrev pub IsReleased : Daemon → Type 0
IsReleased d = AreDeleted d.pushed d.deleted

AreDeleted-cons :
    (ps : List (String × ℕ)) (x : ℕ) (xs : List ℕ) → AreDeleted ps xs → AreDeleted ps (x ∷ xs)
AreDeleted-cons [] x xs h = tt
AreDeleted-cons (p ∷ rest) x xs (m, h) = (Memᴰ.tail m, AreDeleted-cons rest x xs h)

delete-IsReleased :
    (d : Daemon) (offset : ℕ) → IsReleased d → IsReleased (delete_ss_pack d offset true)
delete-IsReleased d offset h = unfold delete_ss_pack in AreDeleted-cons d.pushed offset d.deleted h

module _ (takes : String → Bool) (starts : String → ℕ → Bool) where
  -- On this machine: the message may go to a ring buffer, and its memory is freed.
  push_lem :
      (d : Daemon) (net : BusNet) (ring : String) (offset : ℕ) (b : Bool)
      → IsReleased d
      → IsReleased (
          delete_ss_pack
            (if b
              then record d { net = net; pushed = (ring, offset) ∷ d.pushed }
              else record d { net = net })
            offset
            true)
  push_lem d net ring offset true h =
      unfold delete_ss_pack in (Memᴰ.head refl, AreDeleted-cons d.pushed offset d.deleted h)
  push_lem d net ring offset false h =
      unfold delete_ss_pack in AreDeleted-cons d.pushed offset d.deleted h

  send_by_info-IsReleased :
      (d : Daemon) (info : ServiceInfo) (offset : ℕ)
      → IsReleased d
      → IsReleased (send_by_info takes starts d info offset true).0
  send_by_info-IsReleased d info offset h =
      let local =
        push_lem d (open_ring d.net info).0 (open_ring d.net info).1 offset
          (takes (open_ring d.net info).1) h in
      elim (Bool-cases (info.ip == d.net.local_ip)) [
        | inl e ↦ unfold send_by_info in rw (send_by_info, e) local
        | inr e ↦ elim (Bool-cases (is_connected d.remote_daemons info.ip info.port)) [
          | inl c ↦ unfold send_by_info in rw (send_by_info, e, c) h
          | inr c ↦ elim (Bool-cases (starts info.ip info.port)) [
            | inl s ↦ unfold send_by_info in rw (send_by_info, e, c, s) h
            | inr s ↦
                unfold send_by_info in rw (send_by_info, e, c, s) (delete-IsReleased d offset h)
          ]
        ]
      ]

  send_to_targets-IsReleased :
      (copy : ℕ → ℕ) (d : Daemon) (offset i : ℕ) (infos : List ServiceInfo)
      → IsReleased d
      → IsReleased (send_to_targets takes starts copy d offset i infos).0
  unfolding send_to_targets
  send_to_targets-IsReleased copy d offset i [] h = h
  send_to_targets-IsReleased copy d offset i (info ∷ []) h = send_by_info-IsReleased d info offset h
  send_to_targets-IsReleased copy d offset i (info ∷ next ∷ rest) h =
      send_to_targets-IsReleased copy (send_by_info takes starts d info (copy i) true).0 offset
        (i + 1) (next ∷ rest) (send_by_info-IsReleased d info (copy i) h)

  broadcast_to-IsReleased :
      (copy : ℕ → ℕ) (d : Daemon) (i : ℕ) (infos : List ServiceInfo)
      → IsReleased d
      → IsReleased (broadcast_to takes starts copy d i infos)
  unfolding broadcast_to
  broadcast_to-IsReleased copy d i [] h = h
  broadcast_to-IsReleased copy d i (info ∷ rest) h =
      let skipped = broadcast_to-IsReleased copy d i rest h in
      let sent =
        broadcast_to-IsReleased copy (send_by_info takes starts d info (copy i) true).0 (i + 1) rest
          (send_by_info-IsReleased d info (copy i) h) in
      elim info.is_daemon
        as (λ b. IsReleased (
          if b
          then broadcast_to takes starts copy d i rest
          else broadcast_to takes starts copy (send_by_info takes starts d info (copy i) true).0
              (i + 1) rest)) [ true ↦ skipped | false ↦ sent ]

  -- Where the memory of every message that is in a ring buffer was freed, as where there is none, it
  -- still is after a message to a group and after a broadcast, so that each message that they put
  -- into a ring buffer of this machine is in freed memory before its receiver sees it.
  pub pushed_is_deleted :
      (copy : ℕ → ℕ) (d : Daemon) (group_name : String) (offset : ℕ)
      → IsReleased d
      → IsReleased (send_msg_to_group takes starts copy d group_name offset).0
        × IsReleased (broad_cast takes starts copy d offset)
  pushed_is_deleted copy d group_name offset h =
      let dropped = delete-IsReleased d offset h in
      let group : IsReleased (send_msg_to_group takes starts copy d group_name offset).0 =
        elim (Option-cases d.net.name_instances) [
          | inl e ↦ unfold send_msg_to_group in rw (send_msg_to_group, e) dropped
          | inr (names, e) ↦ elim (Option-cases d.net.service_map) [
            | inl f ↦ unfold send_msg_to_group in rw (send_msg_to_group, e, f) dropped
            | inr (m, f) ↦ elim (List-cases (targets_of m (instances_at group_name names))) [
              | inl g ↦ unfold send_msg_to_group in rw (send_msg_to_group, e, f, g) dropped
              | inr (info, rest, g) ↦
                  let sent = send_to_targets-IsReleased copy d offset 0 (info ∷ rest) h in
                  unfold send_msg_to_group in rw (send_msg_to_group, e, f, g) sent
            ]
          ]
        ] in
      let cast : IsReleased (broad_cast takes starts copy d offset) =
        elim (Option-cases d.net.service_map) [
          | inl f ↦ unfold broad_cast in rw (broad_cast, f) dropped
          | inr (m, f) ↦
              let all = broadcast_to-IsReleased copy d 0 (all_infos m) h in
              let deleted =
                delete-IsReleased (broadcast_to takes starts copy d 0 (all_infos m)) offset all in
              unfold broad_cast in rw (broad_cast, f) deleted
        ] in
      (group, cast)
