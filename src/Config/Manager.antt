-- ===== src/Config/Manager.antt =====
-- server/core/app/ConfigManager.cpp: the configuration and the listeners to its changes. What the file
-- system and the JSON library answer is an argument; the events that listeners get are recorded, the
-- last one first. A method is one step, since it holds the lock.
use tg_chat_server.Prelude.{
  ℕ, ◌+◌, Bool, true, false, not, ◌&&◌, Option, none, some, List, [], ◌∷◌, ◌++◌, map, ltb, nat_key,
  find, insert, erase, if◌then◌else◌,
}
use tg_chat_server.Base64.{Bytes}
use tg_chat_server.Config.{JsonTree, get_value, set_value}

pub data EventType : Type 0 where
  loaded saved changed reloaded : EventType

pub record ConfigEvent : Type 0 where
  pub event_type : EventType
  pub key : Bytes

-- `event_listeners` are by their ids; `fired` is which listener got which event.
pub record ConfigManager (j : JsonTree) : Type 0 where
  pub config_root : j.Value
  pub config_file_path : Bytes
  pub last_modified_time : ℕ
  pub event_listeners : List (ℕ × Unit {0})
  pub next_listener_id : ℕ
  pub fired : List (ℕ × ConfigEvent)

module _ {j : JsonTree} where
  abbrev pub new_config : ConfigManager j
  new_config = record {
    config_root = j.empty_object;
    config_file_path = [];
    last_modified_time = 0;
    event_listeners = [];
    next_listener_id = 0;
    fired = [];
  }

  unfoldable pub fire_event : ConfigManager j → EventType → Bytes → ConfigManager j
  fire_event c event_type key = record c {
    fired =
        map (λ m. (m.0, record { event_type = event_type; key = key })) c.event_listeners
        ++ c.fired;
  }

  unfoldable pub register_event_listener : ConfigManager j → ConfigManager j × ℕ
  register_event_listener c =
      let id = c.next_listener_id in
      (record c { event_listeners = insert id tt c.event_listeners; next_listener_id = id + 1 }, id)

  unfoldable pub unregister_event_listener : ConfigManager j → ℕ → ConfigManager j × Bool
  unregister_event_listener c id = (
    record c { event_listeners = erase id c.event_listeners },
    elim (find id c.event_listeners) [ none ↦ false | some l ↦ true ],
  )

  -- `getJsonValue`; `get` is the library's conversion, none where it throws.
  unfoldable pub get_json_value :
      {T : Type 0} → (Bytes → Option ℕ) → (j.Value → Option T) → ConfigManager j → Bytes → T → T
  get_json_value stoul get c key default_value = elim (get_value j stoul c.config_root key) [
    | none ↦ default_value
    | some node ↦ elim (get node) [ none ↦ default_value | some x ↦ x ]
  ]

  -- `setValue`: whether there was a place for the value makes no difference to the event.
  unfoldable pub set_config_value :
      (Bytes → Option ℕ) → ConfigManager j → Bytes → j.Value → (notify : Bool) → ConfigManager j
  unfolding fire_event
  set_config_value stoul c key value notify =
      let written = record c { config_root = (set_value j stoul c.config_root key value).0 } in
      if notify then fire_event written EventType.changed key else written

  unfoldable pub load_from_json_string :
      (merge_patch : j.Value → j.Value → j.Value)
      → ConfigManager j
      → (parsed : Option j.Value) → (merge : Bool) → ConfigManager j × Bool
  unfolding fire_event
  load_from_json_string merge_patch c none merge = (c, false)
  load_from_json_string merge_patch c (some new_config) merge =
      let root = if merge then merge_patch c.config_root new_config else new_config in
      (fire_event (record c { config_root = root }) EventType.loaded [], true)

  unfoldable pub clear : ConfigManager j → ConfigManager j
  unfolding fire_event
  clear c = fire_event (record c { config_root = j.empty_object }) EventType.changed []

  -- What `loadFromFile` leaves in the configuration, and whether it succeeded.
  unfoldable pub load_config :
      ConfigManager j
      → Bytes
      → (exists auto_create creates : Bool) → (file : j.Value × Bool) → (modified_time : ℕ)
      → ConfigManager j × Bool
  unfolding fire_event
  load_config c config_file exists auto_create creates file modified_time =
      let named = record c { config_file_path = config_file } in
      if not exists && not (auto_create && creates)
      then (named, false)
      else if file.1
      then (
        fire_event (record named { config_root = file.0; last_modified_time = modified_time })
            EventType.loaded [],
        true,
      )
      else (record named { config_root = file.0 }, false)

  unfoldable pub save_config :
      ConfigManager j → Bytes → (saves : Bool) → (modified_time : ℕ) → ConfigManager j × Bool
  unfolding fire_event
  save_config c config_file saves modified_time =
      let target : Bytes = elim config_file [ [] ↦ c.config_file_path | ch ∷ rest ↦ ch ∷ rest ] in
      elim target [
        | [] ↦ (c, false)
        | ch ∷ rest ↦
            if saves
            then (
              fire_event (record c { last_modified_time = modified_time }) EventType.saved [],
              true,
            )
            else (c, false)
      ]

  unfoldable pub is_config_file_modified : ConfigManager j → (modified_time : ℕ) → Bool
  is_config_file_modified c modified_time = elim c.config_file_path [
    | [] ↦ false
    | ch ∷ rest ↦ ltb c.last_modified_time modified_time
  ]

  -- A round of the monitor's thread: the file's time when it is looked at and after it was loaded.
  unfoldable pub monitor_round :
      ConfigManager j
      → (enabled : Bool) → (seen_time : ℕ) → (file : j.Value × Bool) → (loaded_time : ℕ)
      → ConfigManager j
  unfolding fire_event is_config_file_modified
  monitor_round c enabled seen_time file loaded_time =
      if enabled && is_config_file_modified c seen_time
      then (if file.1
          then fire_event (record c { config_root = file.0; last_modified_time = loaded_time })
              EventType.reloaded []
          else record c { config_root = file.0 })
      else c
