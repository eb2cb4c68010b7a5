-- ===== src/Config/Values.antt =====
-- Setting a value by the text of its path, and reading it.
use tg_chat_server.Prelude.{
  ℕ, ◌≡◌, ◌⊎◌, inl, inr, refl, ap, ◌∙◌, arith, Bool, true, false, Option, some, map, ◌++◌,
  Bool-cases, if◌then◌else◌,
}
use tg_chat_server.Base64.{Bytes}
use tg_chat_server.Config.{
  JsonTree, IsTree, parse_key_path, set_at, is_null, get_value, set_value, has_key,
}
use tg_chat_server.Config.Manager.{
  ConfigManager, EventType, fire_event, get_json_value, set_config_value,
}
use tg_chat_server.Config.Path.{get_at-set_at, set_at_refused}

module _ (j : JsonTree) (l : IsTree j) (stoul : Bytes → Option ℕ) where
  -- A value that is not null is set at a path or refused: if it is set, reading the path gives it and
  -- the path is there, and if it is refused, the tree is as it was.
  pub get_value-set_value :
      (config : j.Value) (key_path : Bytes) (x : j.Value)
      → is_null j x ≡ false
      → let q = set_value j stoul config key_path x in
        ((q.1 ≡ true)
          × (get_value j stoul q.0 key_path ≡ some x)
          × (has_key j stoul q.0 key_path ≡ true))
        ⊎ ((q.1 ≡ false) × (q.0 ≡ config))
  get_value-set_value config key_path x n =
      let path = parse_key_path key_path in
      elim (Bool-cases (set_at j stoul config path x).1) [
        | inl e ↦
            let r = get_at-set_at j l stoul config path x e in
            inl (
              (unfold set_value in e),
              (unfold get_value set_value in rw (get_value, r, n) refl),
              (unfold has_key set_value in rw (has_key, r, n) refl),
            )
        | inr e ↦ inr (
          (unfold set_value in e),
          (unfold set_value in set_at_refused j l stoul config path x e),
        )
      ]

  -- A value that is not null and that converts to `x`, set by the manager: if there is a place for it,
  -- the key reads as `x` whatever the default, and otherwise no key has changed; where it notifies,
  -- every listener gets the change of the key, in both cases.
  pub get_json_value-set_config_value :
      {T : Type 0} (get : j.Value → Option T) (c : ConfigManager j) (key : Bytes) (value : j.Value)
      (notify : Bool) (x : T)
      → is_null j value ≡ false
      → get value ≡ some x
      → let d = set_config_value stoul c key value notify in
        let placed = (set_value j stoul c.config_root key value).1 in
        (((placed ≡ true)
            × ((default_value : T) → get_json_value stoul get d key default_value ≡ x))
          ⊎ ((placed ≡ false) × (d.config_root ≡ c.config_root)))
        × (d.fired ≡ (
            if notify
            then map
                (λ m. (m.0, record { event_type = EventType.changed; key = key }))
                c.event_listeners
              ++ c.fired
            else c.fired))
  get_json_value-set_config_value get c key value notify x n e =
      let root : (set_config_value stoul c key value notify).config_root
          ≡ (set_value j stoul c.config_root key value).0 =
        unfold set_config_value fire_event in ground arith in
      let fires : (set_config_value stoul c key value notify).fired ≡ (
          if notify
          then map (λ m. (m.0, record { event_type = EventType.changed; key = key }))
              c.event_listeners
            ++ c.fired
          else c.fired) =
        unfold set_config_value fire_event in ground arith in
      elim (get_value-set_value c.config_root key value n) [
        | inl (p, g, k) ↦
            let r : get_value j stoul (set_config_value stoul c key value notify).config_root key
                ≡ some value =
              ap (λ v. get_value j stoul v key) root ∙ g in
            (
              inl (p, λ default_value. unfold get_json_value in rw (get_json_value, r, e) refl),
              fires,
            )
        | inr (p, g) ↦ (inr (p, root ∙ g), fires)
      ]
