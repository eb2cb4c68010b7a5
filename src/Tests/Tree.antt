-- ===== src/Tests/Tree.antt =====
-- A JSON tree with the laws that server/core/app/JsonParser.cpp relies on.
use tg_chat_server.Prelude.{
  ℕ, zero, suc, ◌+◌, ◌<◌, ◌≡◌, refl, sym, ap, ◌∙◌, arith, Option, none, some, nat_beq,
  if◌then◌else◌, some_inj,
}
use tg_chat_server.Base64.{Bytes}
use tg_chat_server.Jwt.{bytes_beq}
use tg_chat_server.Jwt.Signed.{bytes_beq_refl}
use tg_chat_server.Config.{Kind, JsonTree, IsTree}

-- The members of an object and the elements of an array are chains that end in an empty one.
pub data Tree : Type 0 where
  nothing no_members no_elements : Tree
  leaf : Bytes → Tree
  with_member : Bytes → Tree → Tree → Tree
  with_element : Tree → Tree → Tree

unfoldable pub tree_kind : Tree → Kind
tree_kind nothing = Kind.null
tree_kind no_members = Kind.object
tree_kind no_elements = Kind.array
tree_kind (leaf s) = Kind.other
tree_kind (with_member k x rest) = Kind.object
tree_kind (with_element x rest) = Kind.array

unfoldable pub tree_member : Tree → Bytes → Option Tree
tree_member nothing k = none
tree_member no_members k = none
tree_member no_elements k = none
tree_member (leaf s) k = none
tree_member (with_member i x rest) k =
    let later = tree_member rest k in if bytes_beq i k then some x else later
tree_member (with_element x rest) k = none

unfoldable pub tree_put : Tree → Bytes → Tree → Tree
tree_put nothing k x = with_member k x nothing
tree_put no_members k x = with_member k x no_members
tree_put no_elements k x = with_member k x no_elements
tree_put (leaf s) k x = with_member k x (leaf s)
tree_put (with_member i w rest) k x =
    let later = tree_put rest k x in
    if bytes_beq i k then with_member i x rest else with_member i w later
tree_put (with_element w rest) k x = with_member k x (with_element w rest)

unfoldable pub tree_size : Tree → ℕ
tree_size nothing = 0
tree_size no_members = 0
tree_size no_elements = 0
tree_size (leaf s) = 0
tree_size (with_member k x rest) = 0
tree_size (with_element x rest) = tree_size rest + 1

unfoldable pub tree_element : Tree → ℕ → Option Tree
tree_element nothing i = none
tree_element no_members i = none
tree_element no_elements i = none
tree_element (leaf s) i = none
tree_element (with_member k x rest) i = none
tree_element (with_element x rest) zero = some x
tree_element (with_element x rest) (suc i) = tree_element rest i

unfoldable pub tree_put_element : Tree → ℕ → Tree → Tree
tree_put_element nothing i x = nothing
tree_put_element no_members i x = no_members
tree_put_element no_elements i x = no_elements
tree_put_element (leaf s) i x = leaf s
tree_put_element (with_member k w rest) i x = with_member k w rest
tree_put_element (with_element w rest) zero x = with_element x rest
tree_put_element (with_element w rest) (suc i) x = with_element w (tree_put_element rest i x)

unfoldable pub tree_push_back : Tree → Tree → Tree
tree_push_back nothing x = with_element x nothing
tree_push_back no_members x = with_element x no_members
tree_push_back no_elements x = with_element x no_elements
tree_push_back (leaf s) x = with_element x (leaf s)
tree_push_back (with_member k w rest) x = with_element x (with_member k w rest)
tree_push_back (with_element w rest) x = with_element w (tree_push_back rest x)

abbrev pub tree : JsonTree
tree = record {
  Value = Tree;
  kind = tree_kind;
  empty_object = no_members;
  member = tree_member;
  put = tree_put;
  size = tree_size;
  element = tree_element;
  put_element = tree_put_element;
  push_back = tree_push_back;
}

kind_put :
    (v x : Tree) (k : Bytes) → tree_kind v ≡ Kind.object → tree_kind (tree_put v k x) ≡ Kind.object
unfolding tree_kind tree_put
kind_put nothing x k e = refl
kind_put no_members x k e = refl
kind_put no_elements x k e = refl
kind_put (leaf s) x k e = refl
kind_put (with_member i w rest) x k e = ground arith
kind_put (with_element w rest) x k e = refl

member_put : (v x : Tree) (k : Bytes) → tree_member (tree_put v k x) k ≡ some x
unfolding tree_member tree_put
member_put nothing x k = ground (arith, bytes_beq_refl k)
member_put no_members x k = ground (arith, bytes_beq_refl k)
member_put no_elements x k = ground (arith, bytes_beq_refl k)
member_put (leaf s) x k = ground (arith, bytes_beq_refl k)
member_put (with_member i w rest) x k = ground (arith, member_put rest x k)
member_put (with_element w rest) x k = ground (arith, bytes_beq_refl k)

put_same : (v x : Tree) (k : Bytes) → tree_member v k ≡ some x → tree_put v k x ≡ v
unfolding tree_member tree_put
put_same nothing x k e = absurd cc
put_same no_members x k e = absurd cc
put_same no_elements x k e = absurd cc
put_same (leaf s) x k e = absurd cc
put_same (with_member i w rest) x k e = ground (arith, put_same rest x k)
put_same (with_element w rest) x k e = absurd cc

element_some : (v : Tree) (i : ℕ) → i < tree_size v → (x : Tree) × (tree_element v i ≡ some x)
unfolding tree_size tree_element
element_some nothing i h = absurd (omega arith)
element_some no_members i h = absurd (omega arith)
element_some no_elements i h = absurd (omega arith)
element_some (leaf s) i h = absurd (omega arith)
element_some (with_member k x rest) i h = absurd (omega arith)
element_some (with_element x rest) zero h = (x, refl)
element_some (with_element x rest) (suc i) h = element_some rest i (omega arith)

kind_put_element : (v x : Tree) (i : ℕ) → tree_kind (tree_put_element v i x) ≡ tree_kind v
unfolding tree_kind tree_put_element
kind_put_element nothing x i = refl
kind_put_element no_members x i = refl
kind_put_element no_elements x i = refl
kind_put_element (leaf s) x i = refl
kind_put_element (with_member k w rest) x i = refl
kind_put_element (with_element w rest) x zero = refl
kind_put_element (with_element w rest) x (suc i) = refl

size_put_element : (v x : Tree) (i : ℕ) → tree_size (tree_put_element v i x) ≡ tree_size v
unfolding tree_size tree_put_element
size_put_element nothing x i = refl
size_put_element no_members x i = refl
size_put_element no_elements x i = refl
size_put_element (leaf s) x i = refl
size_put_element (with_member k w rest) x i = refl
size_put_element (with_element w rest) x zero = refl
size_put_element (with_element w rest) x (suc i) = ap (λ n. n + 1) (size_put_element rest x i)

element_put :
    (v x : Tree) (i : ℕ) → i < tree_size v → tree_element (tree_put_element v i x) i ≡ some x
unfolding tree_size tree_element tree_put_element
element_put nothing x i h = absurd (omega arith)
element_put no_members x i h = absurd (omega arith)
element_put no_elements x i h = absurd (omega arith)
element_put (leaf s) x i h = absurd (omega arith)
element_put (with_member k w rest) x i h = absurd (omega arith)
element_put (with_element w rest) x zero h = refl
element_put (with_element w rest) x (suc i) h = element_put rest x i (omega arith)

put_element_same : (v x : Tree) (i : ℕ) → tree_element v i ≡ some x → tree_put_element v i x ≡ v
unfolding tree_element tree_put_element
put_element_same nothing x i e = refl
put_element_same no_members x i e = refl
put_element_same no_elements x i e = refl
put_element_same (leaf s) x i e = refl
put_element_same (with_member k w rest) x i e = refl
put_element_same (with_element w rest) x zero e = ap (λ y. with_element y rest) (sym (some_inj e))
put_element_same (with_element w rest) x (suc i) e =
    ap (with_element w) (put_element_same rest x i e)

kind_push_back : (v x : Tree) → tree_kind (tree_push_back v x) ≡ Kind.array
unfolding tree_kind tree_push_back
kind_push_back nothing x = refl
kind_push_back no_members x = refl
kind_push_back no_elements x = refl
kind_push_back (leaf s) x = refl
kind_push_back (with_member k w rest) x = refl
kind_push_back (with_element w rest) x = refl

size_push_back : (v x : Tree) → tree_size (tree_push_back v x) ≡ tree_size v + 1
unfolding tree_size tree_push_back
size_push_back nothing x = refl
size_push_back no_members x = refl
size_push_back no_elements x = refl
size_push_back (leaf s) x = refl
size_push_back (with_member k w rest) x = refl
size_push_back (with_element w rest) x = ap (λ n. n + 1) (size_push_back rest x)

element_push_back :
    (v x : Tree) (i : ℕ)
    → tree_element (tree_push_back v x) i
      ≡ (if nat_beq i (tree_size v) then some x else tree_element v i)
unfolding tree_element tree_push_back tree_size
element_push_back nothing x zero = ground arith
element_push_back nothing x (suc i) = ground arith
element_push_back no_members x zero = ground arith
element_push_back no_members x (suc i) = ground arith
element_push_back no_elements x zero = ground arith
element_push_back no_elements x (suc i) = ground arith
element_push_back (leaf s) x zero = ground arith
element_push_back (leaf s) x (suc i) = ground arith
element_push_back (with_member k w rest) x zero = ground arith
element_push_back (with_member k w rest) x (suc i) = ground arith
element_push_back (with_element w rest) x zero = ground arith
element_push_back (with_element w rest) x (suc i) = ground (arith, element_push_back rest x i)

pub tree-IsTree : IsTree tree
tree-IsTree = record {
  kind_empty = (unfold tree_kind in refl);
  member_empty = λ k. unfold tree_member in refl;
  kind_put = kind_put;
  member_put = λ v x k e. member_put v x k;
  put_same = put_same;
  element_some = λ v i e h. element_some v i h;
  kind_put_element = λ v x i e h. kind_put_element v x i ∙ e;
  size_put_element = λ v x i e h. size_put_element v x i;
  element_put = λ v x i e h. element_put v x i h;
  put_element_same = put_element_same;
  kind_push_back = λ v x e. kind_push_back v x;
  size_push_back = λ v x e. size_push_back v x;
  element_push_back = λ v x i e. element_push_back v x i;
}
