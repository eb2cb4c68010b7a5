-- ===== src/Tests/HashMap.antt =====
-- server/core/shm/shm_hashmap.cpp at concrete inputs.
use tg_chat_server.Prelude.{ℕ, ◌≡◌, ◌≤◌, ◌^◌, refl, arith, some, [], ◌∷◌}
use tg_chat_server.HashMap.{
  Layout, is_pow2, round_buckets, round_locks, lay_out, construct, read_slab, alloc_node,
}
use tg_chat_server.HashMap.Rounding.{round_buckets-ends}
use tg_chat_server.HashMap.Overlap.{alloc_node-construct}

round_buckets-ends_example : (y : ℕ) × (round_buckets 29 100 ≡ some y) × (100 ≤ y) × (y ≤ 2 ^ 31)
round_buckets-ends_example = round_buckets-ends 100 (omega arith)

-- The map with the default counts, in a megabyte.
abbrev default_map : Layout
default_map = lay_out 1048576 4096 64 4096 64 (λ at. 0)

alloc_node-construct_example :
    (default_map.slab_off ≡ default_map.epoch_off)
    × (alloc_node default_map (1 ∷ 2 ∷ []) (3 ∷ [])
        ≡ (read_slab default_map.memory default_map.slab_off, 0))
unfolding construct round_buckets round_locks is_pow2
alloc_node-construct_example =
    alloc_node-construct 29 1048576 4096 64 (λ at. 0) default_map refl refl refl (1 ∷ 2 ∷ [])
      (3 ∷ [])
