-- ===== src/Tests/Config.antt =====
-- Paths in a JSON tree at concrete inputs, with a tree that has the laws.
use tg_chat_server.Prelude.{
  ℕ, ◌-◌, ◌≡◌, ◌⊎◌, refl, true, false, Option, none, some, [], ◌∷◌, if◌then◌else◌, ltb,
}
use tg_chat_server.Base64.{Bytes, ascii}
use tg_chat_server.Jwt.{bytes_beq}
use tg_chat_server.Config.{parse_key_path, extend, set_at, is_null, set_value}
use tg_chat_server.Config.Manager.{ConfigManager, EventType, get_json_value, set_config_value}
use tg_chat_server.Config.Values.{get_json_value-set_config_value}
use tg_chat_server.Tests.Tree.{
  Tree, nothing, no_members, no_elements, leaf, with_member, with_element, tree_kind, tree_member,
  tree_put, tree_size, tree_element, tree_put_element, tree_push_back, tree, tree-IsTree,
}

-- `std::stoul` of texts of one digit.
stoul : Bytes → Option ℕ
stoul [] = none
stoul (ch ∷ rest) = if ltb ch b'0' then none else if ltb b'9' ch then none else some (ch - b'0')

abbrev root : Tree
root = with_member (ascii "ports") (with_element (leaf (ascii "80")) no_elements) no_members

abbrev secret : Bytes
secret = ascii "auth.jwt.secret"

leaf_not_null : is_null tree (leaf (ascii "key")) ≡ false
unfolding is_null tree_kind
leaf_not_null = refl

-- An array grows for an index behind its end, and a path does not go through a text.
path_runs :
    ((set_value tree stoul root (ascii "ports.2") (leaf [])).0
      ≡ with_member
          (ascii "ports")
          (with_element
            (leaf (ascii "80"))
            (with_element no_members (with_element (leaf []) no_elements)))
          no_members)
    × (set_value tree stoul root (ascii "ports.0.x") (leaf []) ≡ (root, false))
    × (parse_key_path (ascii "a..b.") ≡ ascii "a" ∷ [] ∷ ascii "b" ∷ [])
unfolding set_value set_at extend parse_key_path tree_kind tree_member tree_put tree_size
    tree_element tree_put_element tree_push_back stoul bytes_beq
path_runs = (refl, refl, refl)

as_text : Tree → Option Bytes
as_text nothing = none
as_text no_members = none
as_text no_elements = none
as_text (leaf s) = some s
as_text (with_member k x rest) = none
as_text (with_element x rest) = none

as_text_leaf : as_text (leaf (ascii "key")) ≡ some (ascii "key")
unfolding as_text
as_text_leaf = refl

abbrev listening : ConfigManager tree
listening = record {
  config_root = root;
  config_file_path = [];
  last_modified_time = 0;
  event_listeners = (0, tt) ∷ [];
  next_listener_id = 1;
  fired = [];
}

get_json_value-set_config_value_example :
    let d = set_config_value stoul listening secret (leaf (ascii "key")) true in
    let placed = (set_value tree stoul root secret (leaf (ascii "key"))).1 in
    (((placed ≡ true)
        × ((default_value : Bytes)
            → get_json_value stoul as_text d secret default_value ≡ ascii "key"))
      ⊎ ((placed ≡ false) × (d.config_root ≡ root)))
    × (d.fired ≡ (0, record { event_type = EventType.changed; key = secret }) ∷ [])
get_json_value-set_config_value_example =
    get_json_value-set_config_value tree tree-IsTree stoul as_text listening secret
      (leaf (ascii "key")) true (ascii "key") leaf_not_null as_text_leaf
