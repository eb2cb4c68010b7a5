-- ===== src/Registry.antt =====
-- server/center/ServiceRegistry.h and ServiceRegistry.cpp: the services that are up, when each
-- registration ends, and the changes that each subscriber has not fetched yet. Each method holds
-- the lock throughout, so a method is one step; the time is an argument.
pub mod Deltas
use Prim.Native.Char.{code}
use tg_chat_server.Prelude.{
  ℕ, ◌+◌, Bool, true, false, not, ◌||◌, Option, none, some, List, [], ◌∷◌, ◌++◌, String, ltb,
  if◌then◌else◌, ◌==◌, string_key, find, insert, erase,
}
use tg_chat_server.Service.{ServiceInstance, ServiceInstances}

pub data Op : Type 0 where
  upsert offline : Op

pub record DeltaEntry : Type 0 where
  pub op : Op
  pub inst : ServiceInstance

pub record ServiceRegistry : Type 0 where
  pub registry : List (String × ServiceInstances)
  pub expirations : List (String × ℕ)
  pub delta_map : List (String × List DeltaEntry)

-- `m[key]`, which an absent key reads as an empty map.
unfoldable pub instances_at : List (String × ServiceInstances) → String → ServiceInstances
instances_at m svc = elim (find svc m) [ none ↦ [] | some x ↦ x ]

unfoldable pub push_delta_to_others :
    String → DeltaEntry → List (String × List DeltaEntry) → List (String × List DeltaEntry)
push_delta_to_others changed_id entry [] = []
push_delta_to_others changed_id entry ((k, ds) ∷ rest) =
    let others = push_delta_to_others changed_id entry rest in
    if k == changed_id then (k, ds) ∷ others else (k, ds ++ entry ∷ []) ∷ others

-- Both branches store the instance with the time of now.
unfoldable pub register_instance :
    ServiceRegistry → ServiceInstance → ℕ → Bool → ℕ → ServiceRegistry
register_instance r inst ttl is_new_instance now =
    let seen = record inst { last_seen = now } in
    let m = instances_at r.registry inst.svc_name in
    record {
      registry = insert inst.svc_name (insert inst.id seen m) r.registry;
      expirations = insert inst.id (now + ttl) r.expirations;
      delta_map =
          if is_new_instance
          then push_delta_to_others inst.id (record { op = Op.upsert; inst = seen }) r.delta_map
          else r.delta_map;
    }

abbrev pub gone : ServiceInstance → DeltaEntry
gone i = record { op = Op.offline; inst = i }

-- A service without instances leaves the registry.
unfoldable pub put_or_drop :
    String → ServiceInstances → List (String × ServiceInstances) → List (String × ServiceInstances)
put_or_drop svc [] m = erase svc m
put_or_drop svc (kv ∷ rest) m = insert svc (kv ∷ rest) m

unfoldable pub deregister_instance : ServiceRegistry → String → String → ServiceRegistry
deregister_instance r svc id = elim (find svc r.registry) [
  | none ↦ r
  | some m ↦ elim (find id m) [
    | none ↦ r
    | some i ↦ record {
      registry = put_or_drop svc (erase id m) r.registry;
      expirations = erase id r.expirations;
      delta_map = push_delta_to_others id (gone i) r.delta_map;
    }
  ]
]

unfoldable pub healthy_only : Bool → ServiceInstances → ServiceInstances
healthy_only only_healthy [] = []
healthy_only only_healthy ((k, i) ∷ rest) =
    let others = healthy_only only_healthy rest in
    if not only_healthy || i.healthy then (k, i) ∷ others else others

unfoldable pub get_instances : ServiceRegistry → String → Bool → ServiceInstances
get_instances r svc only_healthy = elim (find svc r.registry) [
  | none ↦ []
  | some m ↦ healthy_only only_healthy m
]

unfoldable pub snapshot : ServiceRegistry → List (String × ServiceInstances)
snapshot r = r.registry

-- The instance with an id, wherever it stands.
unfoldable pub find_by_id : String → ServiceInstances → Option ServiceInstance
find_by_id id [] = none
find_by_id id ((k, i) ∷ rest) =
    let later = find_by_id id rest in if i.id == id then some i else later

unfoldable pub get_by_id : ServiceRegistry → String → String → Option ServiceInstance
get_by_id r svc id = elim (find svc r.registry) [ none ↦ none | some m ↦ find_by_id id m ]

-- `<` of `std::string`, which compares the bytes; in UTF-8 their order is that of the characters.
unfoldable pub text_lt : String → String → Bool
text_lt String.[] String.[] = false
text_lt String.[] (String.◌∷◌ d t) = true
text_lt (String.◌∷◌ c s) String.[] = false
text_lt (String.◌∷◌ c s) (String.◌∷◌ d t) =
    let later = text_lt s t in
    if ltb (code c) (code d) then true else if ltb (code d) (code c) then false else later

-- `insert` of a `std::set`, which is the list of its elements in their order.
unfoldable pub set_insert : String → List String → List String
unfolding text_lt
set_insert x [] = x ∷ []
set_insert x (y ∷ rest) =
    let later = set_insert x rest in
    if text_lt x y then x ∷ y ∷ rest else if text_lt y x then y ∷ later else y ∷ rest

-- The loop that collects the ids whose registration has ended.
unfoldable pub expired_from : ℕ → List (String × ℕ) → List String → List String
unfolding set_insert
expired_from now [] ids = ids
expired_from now ((id, end) ∷ rest) ids =
    let with_it = expired_from now rest (set_insert id ids) in
    let without_it = expired_from now rest ids in if ltb end now then with_it else without_it

unfoldable pub expired_ids : ℕ → List (String × ℕ) → List String
unfolding expired_from
expired_ids now expirations = expired_from now expirations []

-- The inner loop of `cleanup_expired`: the instances without those of the id, and the last of them.
unfoldable pub take_out :
    String → ServiceInstances → Option ServiceInstance → ServiceInstances × Option ServiceInstance
take_out id [] out = ([], out)
take_out id ((k, i) ∷ rest) out =
    let kept = take_out id rest out in
    if i.id == id then take_out id rest (some i) else ((k, i) ∷ kept.0, kept.1)

unfoldable pub keep_service :
    String → ServiceInstances → List (String × ServiceInstances) → List (String × ServiceInstances)
keep_service svc [] rest = rest
keep_service svc (kv ∷ m) rest = (svc, kv ∷ m) ∷ rest

unfoldable pub take_out_everywhere :
    String
    → List (String × ServiceInstances)
    → Option ServiceInstance
    → List (String × ServiceInstances) × Option ServiceInstance
take_out_everywhere id [] out = ([], out)
take_out_everywhere id ((svc, m) ∷ rest) out =
    let q = take_out id m out in
    let later = take_out_everywhere id rest q.1 in (keep_service svc q.0 later.0, later.1)

unfoldable pub expire : ServiceRegistry → String → ServiceRegistry
expire r id =
    let q = take_out_everywhere id r.registry none in
    record {
      registry = q.0;
      expirations = erase id r.expirations;
      delta_map = elim q.1 [
        | none ↦ r.delta_map
        | some i ↦ push_delta_to_others id (gone i) r.delta_map
      ];
    }

unfoldable pub expire_all : ServiceRegistry → List String → ServiceRegistry
expire_all r [] = r
expire_all r (id ∷ ids) = expire_all (expire r id) ids

unfoldable pub cleanup_expired : ServiceRegistry → ℕ → ServiceRegistry
cleanup_expired r now = expire_all r (expired_ids now r.expirations)

-- `emplace` leaves what a subscriber has already.
unfoldable pub subscribe : ServiceRegistry → String → ServiceRegistry
subscribe r id = elim (find id r.delta_map) [
  | none ↦ record r { delta_map = insert id [] r.delta_map }
  | some ds ↦ r
]

unfoldable pub unsubscribe : ServiceRegistry → String → ServiceRegistry
unsubscribe r id = record r { delta_map = erase id r.delta_map }

unfoldable pub pop_deltas : ServiceRegistry → String → ServiceRegistry × List DeltaEntry
pop_deltas r id = elim (find id r.delta_map) [
  | none ↦ (r, [])
  | some ds ↦ (record r { delta_map = insert id [] r.delta_map }, ds)
]
