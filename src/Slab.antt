-- ===== src/Slab.antt =====
-- server/core/shm/shm_slab.h and shm_slab.cpp: the allocator in shared memory. An address is an
-- offset from the base; `memory` reads the 32-bit word at an offset, which is how the free lists are
-- linked. `Alloc` and `Free` hold the allocator's lock while they touch it, so each is one step, in
-- which the exchange of `bump` succeeds at once. A page's header and bitmap are written once and
-- never read, and are left out.
pub mod Lists
pub mod Classes
use Prim.Native.Nat.{bit_or}
use tg_chat_server.Prelude.{
  ℕ, zero, suc, ◌+◌, ◌-◌, ◌*◌, ◌/◌, ◌%◌, ◌^◌, ◌≡◌, Bool, true, false, ◌&&◌, Option, none, some,
  List, [], ◌∷◌, ltb, leb, nat_beq, if◌then◌else◌, get_or, set, add32, mul32,
}

abbrev pub page_size : ℕ
page_size = 65536

abbrev pub max_classes : ℕ
max_classes = 10

-- sizeof(PageHeader)
abbrev pub page_header_size : ℕ
page_header_size = 16

-- `(x + 7u) & ~7u`
unfoldable pub align8 : ℕ → ℕ
align8 x = add32 x 7 / 8 * 8

unfoldable pub pow2ceil : ℕ → ℕ
pow2ceil x =
    if leb x 1
    then 1
    else let a = x - 1 in
      let b = bit_or a (a / 2) in
      let c = bit_or b (b / 4) in
      let d = bit_or c (c / 16) in
      let e = bit_or d (d / 256) in let f = bit_or e (e / 65536) in add32 f 1

-- The loop over the classes, with one step for each class that is left.
unfoldable pub class_from : ℕ → ℕ → ℕ → ℕ → ℕ
class_from zero v idx s = idx
class_from (suc fuel) v idx s =
    let rest = class_from fuel (mul32 v 2) (idx + 1) s in
    if ltb v s && ltb (idx + 1) max_classes then rest else idx

-- `UINT32_MAX` is `none`.
unfoldable pub size_class_index : ℕ → Option ℕ
size_class_index bytes =
    let p = pow2ceil bytes in
    let s = if ltb p 16 then 16 else p in
    if ltb 8192 s then none else some (class_from max_classes 16 0 s)

-- `item_size` and `free_list` of each class, `bump` and `end` of the header, and the words.
pub record Slab : Type 0 where
  pub item_sizes : List ℕ
  pub free_lists : List ℕ
  pub bump : ℕ
  pub end : ℕ
  pub memory : ℕ → ℕ

unfoldable pub write_word : (ℕ → ℕ) → ℕ → ℕ → ℕ → ℕ
write_word mem off x at = if nat_beq off at then x else mem at

abbrev pub item_size : Slab → ℕ → ℕ
item_size s cls = get_or s.item_sizes cls 0

abbrev pub free_list : Slab → ℕ → ℕ
free_list s cls = get_or s.free_lists cls 0

-- The chunks of a page are linked, each to the one before: the memory and the last one.
unfoldable pub link_chunks : ℕ → ℕ → ℕ → ℕ → (ℕ → ℕ) → (ℕ → ℕ) × ℕ
link_chunks zero off item prev mem = (mem, prev)
link_chunks (suc n) off item prev mem =
    link_chunks n (add32 off item) item off (write_word mem off prev)

abbrev pub bitmap_bytes : ℕ → ℕ
bitmap_bytes item =
    let items = (page_size - page_header_size) / item in
    ((if ltb 8192 items then 8192 else items) + 7) / 8

unfoldable pub new_page : Slab → ℕ → Slab × ℕ
new_page s cls =
    let cur = s.bump in
    let next = add32 cur page_size in
    if ltb s.end next
    then (s, 0)
    else let item = item_size s cls in
      let payload_off = page_header_size + bitmap_bytes item in
      let capacity = (page_size - payload_off) / item in
      let tail = add32 cur payload_off in
      let q = link_chunks capacity tail item 0 s.memory in
      if nat_beq q.1 0 then (record s { bump = next }, cur) else (
        record s {
          bump = next;
          free_lists = set s.free_lists cls q.1;
          memory = write_word q.0 tail (free_list s cls);
        },
        cur,
      )

-- The head of a class's free list is taken off.
unfoldable pub take_head : Slab → ℕ → Slab × ℕ
take_head s cls =
    let off = free_list s cls in
    (record s { free_lists = set s.free_lists cls (s.memory off) }, off)

-- `Alloc` for a class.
unfoldable pub alloc_class : Slab → ℕ → Slab × ℕ
alloc_class s cls =
    if nat_beq (free_list s cls) 0
    then (let q = new_page s cls in
        if nat_beq q.1 0 && nat_beq (free_list q.0 cls) 0 then (q.0, 0) else take_head q.0 cls)
    else take_head s cls

unfoldable pub alloc : Slab → ℕ → Slab × ℕ
alloc s bytes = elim (size_class_index (align8 bytes)) [
  | none ↦ (s, 0)
  | some cls ↦ alloc_class s cls
]

unfoldable pub free : Slab → ℕ → ℕ → Slab
free s off bytes = if nat_beq off 0 then s else elim (size_class_index (align8 bytes)) [
  | none ↦ s
  | some cls ↦ record s {
    free_lists = set s.free_lists cls off;
    memory = write_word s.memory off (free_list s cls);
  }
]

-- The constructor with `create`: 16, 32, ... 8192 bytes.
abbrev pub new_slab : (header_size region_off region_size : ℕ) → (ℕ → ℕ) → Slab
new_slab header_size region_off region_size mem = record {
  item_sizes = 16 ∷ 32 ∷ 64 ∷ 128 ∷ 256 ∷ 512 ∷ 1024 ∷ 2048 ∷ 4096 ∷ 8192 ∷ [];
  free_lists = 0 ∷ 0 ∷ 0 ∷ 0 ∷ 0 ∷ 0 ∷ 0 ∷ 0 ∷ 0 ∷ 0 ∷ [];
  bump = add32 region_off header_size;
  end = add32 region_off region_size;
  memory = mem;
}
