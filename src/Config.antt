-- ===== src/Config.antt =====
-- server/core/app/JsonParser.cpp: values of a JSON tree by a path of keys. The tree is nlohmann's: an
-- interface of the operations that the code calls, with the laws that it relies on. A pointer into
-- the tree is the value it points to, which is put back in its place. `stoul` gives none where it
-- throws.
pub mod Extend
pub mod Path
pub mod Manager
pub mod Values
use tg_chat_server.Prelude.{
  ℕ, zero, suc, ◌+◌, ◌-◌, ◌<◌, ◌≡◌, Bool, true, false, Option, none, some, List, [], ◌∷◌, nat_beq,
  ltb, if◌then◌else◌,
}
use tg_chat_server.Base64.{Bytes}
use tg_chat_server.Jwt.{bytes_beq}

pub data Kind : Type 0 where
  null object array other : Kind

pub record JsonTree : Type 1 where
  pub Value : Type 0
  pub kind : Value → Kind
  pub empty_object : Value
  -- `contains` and `[]` of an object, and assigning through `[]`
  pub member : Value → Bytes → Option Value
  pub put : Value → Bytes → Value → Value
  pub size : Value → ℕ
  pub element : Value → ℕ → Option Value
  pub put_element : Value → ℕ → Value → Value
  pub push_back : Value → Value → Value

pub record IsTree (j : JsonTree) : Type 0 where
  pub kind_empty : j.kind j.empty_object ≡ Kind.object
  pub member_empty : (k : Bytes) → j.member j.empty_object k ≡ none
  pub kind_put :
      (v x : j.Value) (k : Bytes) → j.kind v ≡ Kind.object → j.kind (j.put v k x) ≡ Kind.object
  pub member_put :
      (v x : j.Value) (k : Bytes) → j.kind v ≡ Kind.object → j.member (j.put v k x) k ≡ some x
  pub put_same : (v x : j.Value) (k : Bytes) → j.member v k ≡ some x → j.put v k x ≡ v
  pub element_some :
      (v : j.Value) (i : ℕ)
      → j.kind v ≡ Kind.array
      → i < j.size v
      → (x : j.Value) × (j.element v i ≡ some x)
  pub kind_put_element :
      (v x : j.Value) (i : ℕ)
      → j.kind v ≡ Kind.array
      → i < j.size v
      → j.kind (j.put_element v i x) ≡ Kind.array
  pub size_put_element :
      (v x : j.Value) (i : ℕ)
      → j.kind v ≡ Kind.array
      → i < j.size v
      → j.size (j.put_element v i x) ≡ j.size v
  pub element_put :
      (v x : j.Value) (i : ℕ)
      → j.kind v ≡ Kind.array
      → i < j.size v
      → j.element (j.put_element v i x) i ≡ some x
  pub put_element_same : (v x : j.Value) (i : ℕ) → j.element v i ≡ some x → j.put_element v i x ≡ v
  pub kind_push_back :
      (v x : j.Value) → j.kind v ≡ Kind.array → j.kind (j.push_back v x) ≡ Kind.array
  pub size_push_back :
      (v x : j.Value) → j.kind v ≡ Kind.array → j.size (j.push_back v x) ≡ j.size v + 1
  pub element_push_back :
      (v x : j.Value) (i : ℕ)
      → j.kind v ≡ Kind.array
      → j.element (j.push_back v x) i ≡ (if nat_beq i (j.size v) then some x else j.element v i)

-- `getline` up to each dot: nothing follows the last dot, and an empty path has no keys.
unfoldable pub parse_key_path : Bytes → List Bytes
parse_key_path [] = []
parse_key_path (ch ∷ rest) =
    let tokens = parse_key_path rest in
    if nat_beq ch b'.'
    then [] ∷ tokens
    else elim tokens [ [] ↦ (ch ∷ []) ∷ [] | t ∷ ts ↦ (ch ∷ t) ∷ ts ]

unfoldable pub is_null : (j : JsonTree) → j.Value → Bool
is_null j v = elim (j.kind v) [
  | Kind.null ↦ true
  | Kind.object ↦ false
  | Kind.array ↦ false
  | Kind.other ↦ false
]

module _ (j : JsonTree) (stoul : Bytes → Option ℕ) where
  -- `push_back` as often as is said.
  unfoldable pub extend : ℕ → j.Value → j.Value
  extend zero v = v
  extend (suc n) v = extend n (j.push_back v j.empty_object)

  -- `getMutableJsonRef` with creation, and the assignment to what it points to: the tree after it and
  -- whether there was something to assign to.
  unfoldable pub set_at : j.Value → List Bytes → j.Value → j.Value × Bool
  unfolding extend
  set_at current [] value = (value, true)
  set_at current (token ∷ rest) value =
      let inside = λ (child : j.Value). set_at child rest value in
      elim (j.kind current) [
        | Kind.object ↦ elim (j.member current token) [
          | some child ↦ (j.put current token (inside child).0, (inside child).1)
          | none ↦ (j.put current token (inside j.empty_object).0, (inside j.empty_object).1)
        ]
        | Kind.array ↦ elim (stoul token) [
          | none ↦ (current, false)
          | some index ↦
              let grown = extend (index + 1 - j.size current) current in
              elim (j.element grown index) [
                | none ↦ (grown, false)
                | some child ↦ (j.put_element grown index (inside child).0, (inside child).1)
              ]
        ]
        | Kind.null ↦
            (j.put j.empty_object token (inside j.empty_object).0, (inside j.empty_object).1)
        | Kind.other ↦ (current, false)
      ]

  -- `getConstJsonRef`
  unfoldable pub get_at : j.Value → List Bytes → Option j.Value
  get_at current [] = some current
  get_at current (token ∷ rest) =
      let inside = λ (child : j.Value). get_at child rest in
      elim (j.kind current) [
        | Kind.object ↦ elim (j.member current token) [ some child ↦ inside child | none ↦ none ]
        | Kind.array ↦ elim (stoul token) [
          | none ↦ none
          | some index ↦
              if ltb index (j.size current)
              then (elim (j.element current index) [ some child ↦ inside child | none ↦ none ])
              else none
        ]
        | Kind.null ↦ none
        | Kind.other ↦ none
      ]

  unfoldable pub get_value : j.Value → Bytes → Option j.Value
  unfolding parse_key_path get_at is_null
  get_value config key_path = elim (get_at config (parse_key_path key_path)) [
    | none ↦ none
    | some v ↦ if is_null j v then none else some v
  ]

  unfoldable pub set_value : j.Value → Bytes → j.Value → j.Value × Bool
  unfolding parse_key_path set_at
  set_value config key_path value = set_at config (parse_key_path key_path) value

  unfoldable pub has_key : j.Value → Bytes → Bool
  unfolding parse_key_path get_at is_null
  has_key config key_path = elim (get_at config (parse_key_path key_path)) [
    | none ↦ false
    | some v ↦ if is_null j v then false else true
  ]
