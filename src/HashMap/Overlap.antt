-- ===== src/HashMap/Overlap.antt =====
-- What is left of the allocator's header once the map is built.
use mathlib.Core.Path.{subst}
use tg_chat_server.Prelude.{
  ℕ, zero, suc, ◌+◌, ◌*◌, ◌^◌, ◌≤◌, ◌<◌, ◌≡◌, refl, ap, ◌∙◌, inl, inr, arith, true, none, some,
  List, ◌∷◌, Bool-cases, Option-cases, Option, add32, length, some_inj, sym, get_or, replicate, ltb,
}
use tg_chat_server.Slab.{
  Slab, page_size, align8, size_class_index, free_list, new_page, alloc_class, alloc,
}
use tg_chat_server.HashMap.{
  lay_out, Layout, is_pow2, round_buckets, round_locks, write_block, epoch_word, write_epoch,
  construct, class_words, read_slab, node_size_bytes, alloc_node,
}

get_or-replicate : (n i : ℕ) → ◌≡◌ {A = ℕ} (get_or (replicate n 0) i 0) 0
get_or-replicate zero i = refl
get_or-replicate (suc n) zero = refl
get_or-replicate (suc n) (suc i) = get_or-replicate n i

no_page : (s : Slab) (cls : ℕ) → s.bump ≡ 0 → s.end ≡ 0 → new_page s cls ≡ (s, 0)
unfolding new_page
no_page s cls b e =
    let full : ltb s.end (add32 s.bump page_size) ≡ true = ground (arith, b, e) in
    rw (new_page, full) refl

-- An allocator that has no free items and no room has nothing to give, and stays as it is.
alloc-exhausted :
    (s : Slab) (bytes : ℕ)
    → s.free_lists ≡ replicate 10 0
    → s.bump ≡ 0
    → s.end ≡ 0
    → alloc s bytes ≡ (s, 0)
unfolding alloc alloc_class
alloc-exhausted s bytes f b e = elim (Option-cases (size_class_index (align8 bytes))) [
  | inl q ↦ rw (alloc, q) refl
  | inr (cls, q) ↦
      let z : free_list s cls ≡ 0 = ap (λ l. get_or l cls 0) f ∙ get_or-replicate 10 cls in
      let p : new_page s cls ≡ (s, 0) = no_page s cls b e in rw (alloc, q, z, p) (rw z refl)
]

-- The words of the readers are zero.
write_epoch-reader :
    (mem : ℕ → ℕ) (off k : ℕ) → 3 ≤ k → k < 3075 → write_epoch mem off (off + 4 * k) ≡ 0
unfolding write_epoch write_block epoch_word
write_epoch-reader mem off k l h = ground arith

class_words-zero :
    (mem : ℕ → ℕ) (off k n : ℕ)
    → 3 ≤ k
    → k + 5 * n < 3075
    → class_words (write_epoch mem off) (off + 4 * k) n ≡ replicate n 0
unfolding class_words
class_words-zero mem off k zero l h = refl
class_words-zero mem off k (suc n) l h =
    let next : off + 4 * k + 20 ≡ off + 4 * (k + 5) = omega arith in
    rw (write_epoch-reader mem off k l (omega arith)) (
      ap (λ o. 0 ∷ class_words (write_epoch mem off) o n) next
      ∙ ap (◌∷◌ 0) (class_words-zero mem off (k + 5) n (omega arith) (omega arith)))

-- `AllocNode` where the header of the epochs is put over the allocator's.
overlaid :
    (mem : ℕ → ℕ) (off bytes : ℕ)
    → let s = read_slab (write_epoch mem off) off in alloc s bytes ≡ (s, 0)
unfolding read_slab
overlaid mem off bytes =
    alloc-exhausted (read_slab (write_epoch mem off) off) bytes
      (class_words-zero mem off 8 10 (omega arith) (omega arith))
      (write_epoch-reader mem off 4 (omega arith) (omega arith))
      (write_epoch-reader mem off 5 (omega arith) (omega arith))

built :
    (m n : Layout)
    → some n ≡ some m
    → n.slab_off ≡ n.epoch_off
    → ((bytes : ℕ)
        → alloc (read_slab n.memory n.slab_off) bytes ≡ (read_slab n.memory n.slab_off, 0))
    → (m.slab_off ≡ m.epoch_off)
      × ((bytes : ℕ)
          → alloc (read_slab m.memory m.slab_off) bytes ≡ (read_slab m.memory m.slab_off, 0))
built m n e s a =
    subst
      (λ (x : Layout).
        (x.slab_off ≡ x.epoch_off)
        × ((bytes : ℕ)
            → alloc (read_slab x.memory x.slab_off) bytes ≡ (read_slab x.memory x.slab_off, 0)))
      (some_inj e) (s, a)

-- A map that is built for counts of buckets and locks that are powers of two: the header of the
-- epochs is put over the allocator's, so the allocator has nothing to give. `AllocNode` finds no
-- room for any key and value, and leaves the allocator as it is.
pub alloc_node-construct :
    (fuel total bucket_new lock_count : ℕ) (mem : ℕ → ℕ) (m : Layout)
    → is_pow2 bucket_new ≡ true
    → is_pow2 lock_count ≡ true
    → construct fuel total bucket_new lock_count mem ≡ some m
    → (key val : List ℕ)
    → (m.slab_off ≡ m.epoch_off) × (alloc_node m key val ≡ (read_slab m.memory m.slab_off, 0))
unfolding construct round_buckets round_locks
alloc_node-construct fuel total bucket_new lock_count mem m b l e key val =
    elim (Bool-cases (ltb total (2 ^ 20))) [
      | inl t ↦
          let f : ◌≡◌ {A = Option Layout} none (some m) = sym (rw (construct, t) refl) ∙ e in
          absurd (ground (arith, f))
      | inr t ↦
          let n = lay_out total bucket_new lock_count bucket_new lock_count mem in
          let g : some n ≡ some m = sym (rw (construct, t, b, l) refl) ∙ e in
          let (s, a) =
            built m n g (unfold lay_out in refl) (unfold lay_out in λ bytes. overlaid _ _ bytes) in
          (s, unfold alloc_node in a (node_size_bytes (length key) (length val)))
    ]
