-- ===== src/Tests/Slab.antt =====
-- server/core/shm/shm_slab.cpp at concrete inputs.
use tg_chat_server.Prelude.{ℕ, ◌+◌, ◌*◌, ◌<◌, ◌≤◌, ◌≡◌, refl, arith, some, none, get_or}
use tg_chat_server.Slab.{
  Slab, new_slab, align8, pow2ceil, class_from, size_class_index, alloc, alloc_class, take_head,
  new_page, link_chunks, write_word, max_classes,
}
use tg_chat_server.Slab.Classes.{size_class_index_lem}

-- A megabyte, whose header has 224 bytes.
abbrev fresh : Slab
fresh = new_slab 224 0 1048576 (λ at. 0)

class_100 : size_class_index (align8 100) ≡ some 3
unfolding size_class_index align8 pow2ceil class_from
class_100 = refl

-- The ten classes end at 8192 bytes.
class_8193 : size_class_index (align8 8193) ≡ none
unfolding size_class_index align8 pow2ceil class_from
class_8193 = refl

-- A page of 8192-byte items holds seven of them; the last is handed out first.
first_large : (alloc fresh 8000).1 ≡ 224 + 16 + 1 + 6 * 8192
unfolding alloc size_class_index align8 pow2ceil class_from alloc_class new_page link_chunks
    write_word take_head
first_large = refl

size_class_index_lem_example :
    (c : ℕ) × (size_class_index (align8 5000) ≡ some c)
    × (c < max_classes)
    × (5000 ≤ get_or (new_slab 0 0 0 (λ at. 0)).item_sizes c 0)
size_class_index_lem_example = size_class_index_lem 5000 (omega arith)
