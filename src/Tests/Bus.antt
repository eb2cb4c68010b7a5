-- ===== src/Tests/Bus.antt =====
-- server/center/TcpRegistrar.cpp and server/core/bus/IBusNet.cpp at concrete inputs.
use tg_chat_server.Prelude.{
  ℕ, ◌+◌, ◌≡◌, refl, Bool, true, false, none, List, [], ◌∷◌, String, find, insert, string_key,
  nat_key,
}
use tg_chat_server.Service.{ServiceInfo}
use tg_chat_server.Balancer.Factory.{LbStrategy}
use tg_chat_server.Registry.{
  register_instance, subscribe, push_delta_to_others, instances_at, put_or_drop,
}
use tg_chat_server.Registrar.{TcpRegistrar, new_instance, on_regist, on_update_service_status, has}
use tg_chat_server.Registrar.Updates.{IsQuiet, send_msg_to-quiet_update}
use tg_chat_server.BusNet.{
  BusNet, on_update_response, send_msg_to, fill_map, fill_names, find_busd, merged, first_info,
}
use tg_chat_server.BusNet.Daemon.{
  Daemon, open_ring, delete_ss_pack, send_by_info, targets_of, send_to_targets, send_msg_to_group,
  broad_cast,
}
use tg_chat_server.BusNet.Daemon.Released.{IsReleased, pushed_is_deleted}

abbrev info : String → String → ServiceInfo
info name id = record {
  svr_name = name;
  ip = "127.0.0.1";
  port = 9000;
  id = id;
  is_daemon = false;
  is_offline = false;
  shm_recv_buffer_name = "ring";
  connections = 0;
  cpu_percent = 0;
  load_score = 0;
}

abbrev new_net : BusNet
new_net = record {
  local_busd = none;
  service_map = none;
  name_instances = none;
  local_services = [];
  local_ip = "127.0.0.1";
}

abbrev hash : String → ℕ
hash s = 0

abbrev dist : ℕ → ℕ
dist n = 0

abbrev takes : String → Bool
takes ring = true

abbrev infos : List ServiceInfo
infos = info "logic" "1.1" ∷ info "logic" "1.2" ∷ []

abbrev filled : BusNet
filled = on_update_response new_net true infos

-- Two services register over the connections 5 and 6; the deltas of the first are fetched.
abbrev centre : TcpRegistrar
centre =
    on_regist
      (record {
        reg = record { registry = []; expirations = []; delta_map = [] };
        fd_to_id = [];
        fd_to_inst = [];
        fd_to_got_full_update = [];
      })
      5 (info "connd" "1.1") 40 100

centre-IsQuiet : IsQuiet centre 5 (info "connd" "1.1") (new_instance (info "connd" "1.1") 40 100)
unfolding on_regist register_instance subscribe push_delta_to_others instances_at put_or_drop find
    insert
centre-IsQuiet = record { cached = refl; same_id = refl; fetched = refl }

-- The same centre after its first answer.
abbrev answered : TcpRegistrar
answered = record centre { fd_to_got_full_update = 5 ∷ [] }

answered-IsQuiet :
    IsQuiet answered 5 (info "connd" "1.1") (new_instance (info "connd" "1.1") 40 100)
unfolding on_regist register_instance subscribe push_delta_to_others instances_at put_or_drop find
    insert
answered-IsQuiet = record { cached = refl; same_id = refl; fetched = refl }

send_msg_to-quiet_update_example :
    let response = (on_update_service_status answered 5 (info "connd" "1.1") 120).1 in
    (send_msg_to hash dist takes
      (on_update_response filled true response.service_info_map)
      "1.2"
      LbStrategy.round_robin).1
    ≡ none
send_msg_to-quiet_update_example =
    send_msg_to-quiet_update answered 5 (info "connd" "1.1")
      (new_instance (info "connd" "1.1") 40 100) answered-IsQuiet 120 hash dist takes filled "1.2"
      LbStrategy.round_robin (unfold has in refl)

-- The daemon of the machine, to which the services are local.
abbrev daemon : Daemon
daemon = record { net = filled; remote_daemons = []; pushed = []; sent = []; deleted = [] }

abbrev starts : String → ℕ → Bool
starts ip port = false

pushed_is_deleted_example :
    IsReleased (send_msg_to_group takes starts (λ i. 100 + i) daemon "logic" 50).0
    × IsReleased (broad_cast takes starts (λ i. 100 + i) daemon 50)
pushed_is_deleted_example = pushed_is_deleted takes starts (λ i. 100 + i) daemon "logic" 50 tt

daemon_runs :
    let q = send_msg_to_group takes starts (λ i. 100 + i) daemon "logic" 50 in
    (q.0.pushed ≡ ("ring", 50) ∷ ("ring", 100) ∷ []) × (q.0.deleted ≡ 50 ∷ 100 ∷ []) × (q.1 ≡ true)
unfolding send_msg_to_group targets_of send_to_targets send_by_info open_ring delete_ss_pack
    on_update_response fill_map fill_names find_busd merged first_info find insert
daemon_runs = (refl, refl, refl)
