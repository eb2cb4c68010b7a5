-- ===== src/HashMap.antt =====
-- server/core/shm/shm_hashmap.h and shm_hashmap.cpp: how the hash map in shared memory is laid out and
-- built, its hash and the allocation of its nodes. `memory` reads the 32-bit word at an offset from
-- the base, and the allocator is read off the words of its header. Of the map's own header only the
-- size is modelled.
pub mod Rounding
pub mod Overlap
use Prim.Native.Nat.{bit_and, bit_xor}
use tg_chat_server.Prelude.{
  ℕ, zero, suc, ◌+◌, ◌-◌, ◌*◌, ◌/◌, ◌%◌, ◌^◌, Bool, ◌&&◌, Option, none, some, List, [], ◌∷◌, length,
  ltb, leb, nat_beq, if◌then◌else◌, add32, mul32,
}
use tg_chat_server.Slab.{Slab, page_size, page_header_size, align8, alloc}

-- sizeof(HMHeader), sizeof(Node), sizeof(SlabHeader)
abbrev pub hm_header_size : ℕ
hm_header_size = 128

abbrev pub node_size : ℕ
node_size = 24

abbrev pub slab_header_size : ℕ
slab_header_size = 224

-- The words of sizeof(EpochHeader)
abbrev pub epoch_words : ℕ
epoch_words = 3075

-- FNV-1a over the bytes, and the last mixing.
unfoldable pub hash_from : ℕ → List ℕ → ℕ
hash_from h [] = h
hash_from h (x ∷ xs) = hash_from (bit_xor h x * 1099511628211 % 2 ^ 64) xs

unfoldable pub hash_bytes : List ℕ → ℕ
unfolding hash_from
hash_bytes key =
    let a = hash_from 1469598103934665603 key in
    let b = bit_xor a (a / 2 ^ 33) * 0xff51afd7ed558ccd % 2 ^ 64 in
    let c = bit_xor b (b / 2 ^ 33) * 0xc4ceb9fe1a85ec53 % 2 ^ 64 in bit_xor c (c / 2 ^ 33)

unfoldable pub is_pow2 : ℕ → Bool
is_pow2 x = nat_beq (bit_and x ((x + 2 ^ 32 - 1) % 2 ^ 32)) 0

-- `while (x < n) x <<= 1`, for at most as many rounds as the fuel.
unfoldable pub double_until : ℕ → ℕ → ℕ → Option ℕ
double_until zero x n = none
double_until (suc fuel) x n =
    let rest = double_until fuel (mul32 x 2) n in if ltb x n then rest else some x

-- A bucket count that is no power of two is rounded up to one; none is a loop that does not end.
unfoldable pub round_buckets : ℕ → ℕ → Option ℕ
round_buckets fuel n = if is_pow2 n then some n else double_until fuel 8 n

-- The count of stripe locks is rounded up in the same way.
unfoldable pub round_locks : ℕ → ℕ → Option ℕ
round_locks fuel n = if is_pow2 n then some n else double_until fuel 4 n

-- `n` words from an offset on are written, the word with number i as `f i`.
unfoldable pub write_block : (ℕ → ℕ) → (off n : ℕ) → (f : ℕ → ℕ) → ℕ → ℕ
write_block mem off n f at =
    if leb off at && ltb at (off + 4 * n) then f ((at - off) / 4) else mem at

-- The words that the allocator's constructor writes: six of the header, and five for each size class.
unfoldable pub slab_word : (total region_off region_size : ℕ) → ℕ → ℕ
slab_word total region_off region_size i =
    let item = 16 * 2 ^ ((i - 6) / 5) in
    let field = (i - 6) % 5 in
    if nat_beq i 0
    then 0x534C4142
    else if nat_beq i 1
    then 1
    else if nat_beq i 2
    then total
    else if nat_beq i 3
    then region_off
    else if nat_beq i 4
    then add32 region_off slab_header_size
    else if nat_beq i 5
    then add32 region_off region_size
    else if nat_beq field 0
    then item
    else if nat_beq field 1
    then (page_size - page_header_size - 256) / item
    else 0

-- The words that the constructor of the epochs writes: the magic number, the version, the global
-- epoch, and three words for each reader.
unfoldable pub epoch_word : ℕ → ℕ
epoch_word i = if nat_beq i 0 then 0x45504F43 else if leb i 2 then 1 else 0

unfoldable pub write_epoch : (ℕ → ℕ) → ℕ → ℕ → ℕ
unfolding write_block epoch_word
write_epoch mem off = write_block mem off epoch_words epoch_word

-- Where the allocator's header, the table of buckets and the epochs are.
pub record Layout : Type 0 where
  pub memory : ℕ → ℕ
  pub slab_off : ℕ
  pub buckets_new_off : ℕ
  pub epoch_off : ℕ
  pub bucket_count : ℕ
  pub lock_count : ℕ

-- The constructor with `create`, with the counts as given and as rounded up: the allocator for the
-- counts as given, the epochs at offset 0 for a start, then the locks and the table, which are zero,
-- and the epochs. The words of the map's own header are left as they are.
unfoldable pub lay_out : (total bucket_new lock_count b l : ℕ) → (ℕ → ℕ) → Layout
unfolding write_block slab_word write_epoch
lay_out total bucket_new lock_count b l mem =
    let slab_off = (hm_header_size + 4 * lock_count + 4 * bucket_new) % 2 ^ 32 in
    let region_size =
      (total + 2 ^ 64 - (hm_header_size + 4 * lock_count + 4 * bucket_new)) % 2 ^ 32 in
    let epoch_off = (hm_header_size + 4 * l + 4 * b) % 2 ^ 32 in
    let with_slab = write_block mem slab_off 56 (slab_word total slab_off region_size) in
    let cleared = write_block (write_epoch with_slab 0) hm_header_size (l + b) (λ i. 0) in
    record {
      memory = write_epoch cleared epoch_off;
      slab_off = slab_off;
      buckets_new_off = (hm_header_size + 4 * l) % 2 ^ 32;
      epoch_off = epoch_off;
      bucket_count = b;
      lock_count = l;
    }

-- None is the exception for a memory that is too small, or a rounding loop that takes more rounds.
unfoldable pub construct : ℕ → (total bucket_new lock_count : ℕ) → (ℕ → ℕ) → Option Layout
unfolding lay_out round_buckets round_locks
construct fuel total bucket_new lock_count mem =
    if ltb total (2 ^ 20) then none else elim (round_buckets fuel bucket_new) [
      | none ↦ none
      | some b ↦ elim (round_locks fuel lock_count) [
        | none ↦ none
        | some l ↦ some (lay_out total bucket_new lock_count b l mem)
      ]
    ]

-- The words of a size class's items and of its free list, from the allocator's header.
unfoldable pub class_words : (ℕ → ℕ) → (off n : ℕ) → List ℕ
class_words mem off zero = []
class_words mem off (suc n) = mem off ∷ class_words mem (off + 20) n

-- The allocator whose header is at an offset.
unfoldable pub read_slab : (ℕ → ℕ) → ℕ → Slab
unfolding class_words
read_slab mem off = record {
  item_sizes = class_words mem (off + 24) 10;
  free_lists = class_words mem (off + 32) 10;
  bump = mem (off + 16);
  end = mem (off + 20);
  memory = mem;
}

unfoldable pub node_size_bytes : ℕ → ℕ → ℕ
node_size_bytes k v = align8 (add32 (add32 node_size k) v)

-- `AllocNode`: the allocator after it, and the node's offset, 0 for no room.
unfoldable pub alloc_node : Layout → List ℕ → List ℕ → Slab × ℕ
unfolding read_slab node_size_bytes
alloc_node m key val =
    alloc (read_slab m.memory m.slab_off) (node_size_bytes (length key) (length val))
