-- ===== src/Slab/Lists.antt =====
-- The free list of a size class behaves as a stack.
use tg_chat_server.Prelude.{
  ℕ, ◌<◌, ◌≡◌, ◌≢◌, refl, sym, ◌∙◌, arith, false, some, length, nat_beq, if◌then◌else◌, set,
  length-set, get_or-set,
}
use tg_chat_server.Slab.{
  Slab, align8, size_class_index, write_word, free_list, take_head, alloc_class, alloc, free,
}

abbrev pub freed : Slab → ℕ → ℕ → Slab
freed s off cls = record s {
  free_lists = set s.free_lists cls off;
  memory = write_word s.memory off (free_list s cls);
}

pub free_lem :
    (s : Slab) (off bytes cls : ℕ)
    → off ≢ 0
    → size_class_index (align8 bytes) ≡ some cls
    → free s off bytes ≡ freed s off cls
free_lem s off bytes cls h e =
    let z : nat_beq off 0 ≡ false = ground arith in unfold free in rw (z, e) refl

pub alloc_lem :
    (s : Slab) (bytes cls : ℕ)
    → size_class_index (align8 bytes) ≡ some cls
    → free_list s cls ≢ 0
    → alloc s bytes ≡ take_head s cls
unfolding alloc alloc_class
alloc_lem s bytes cls e h =
    let z : nat_beq (free_list s cls) 0 ≡ false = ground arith in rw (alloc, e, alloc_class, z) refl

module _ (s : Slab) (off cls : ℕ) (k : cls < length s.free_lists) where
  free_list-freed :
      (j : ℕ) → free_list (freed s off cls) j ≡ (if nat_beq cls j then off else free_list s j)
  free_list-freed j = get_or-set s.free_lists cls j off 0 k

  pub head-freed : free_list (freed s off cls) cls ≡ off
  head-freed = free_list-freed cls ∙ ground arith

  take_head-freed :
      let q = take_head (freed s off cls) cls in
      (q.1 ≡ off)
      × ((j : ℕ) → free_list q.0 j ≡ free_list s j)
      × (q.0.bump ≡ s.bump)
      × ((at : ℕ) → at ≢ off → q.0.memory at ≡ s.memory at)
  unfolding take_head write_word
  take_head-freed = (
    head-freed,
    λ j.
        get_or-set (freed s off cls).free_lists cls j _ 0
          (omega (arith, length-set s.free_lists cls off))
        ∙ restored j (free_list (freed s off cls) cls) head-freed,
    refl,
    λ at n. ground arith,
  )
    where
      restored :
          (j h : ℕ)
          → h ≡ off
          → (if nat_beq cls j then (freed s off cls).memory h else free_list (freed s off cls) j)
            ≡ free_list s j
      restored j h e = ground (arith, free_list-freed j)

-- Memory that is freed is the next that an allocation of its size gets: the allocation returns it,
-- every free list and the bump pointer are as before both calls, and so is every word but the one
-- at the offset itself.
pub alloc-free :
    (s : Slab) (off bytes cls : ℕ)
    → off ≢ 0
    → size_class_index (align8 bytes) ≡ some cls
    → cls < length s.free_lists
    → let q = alloc (free s off bytes) bytes in
      (q.1 ≡ off)
      × ((j : ℕ) → free_list q.0 j ≡ free_list s j)
      × (q.0.bump ≡ s.bump)
      × ((at : ℕ) → at ≢ off → q.0.memory at ≡ s.memory at)
alloc-free s off bytes cls h e k =
    let head = head-freed s off cls k in
    rw
      (
        free_lem s off bytes cls h e,
        alloc_lem (freed s off cls) bytes cls e (λ z. h (sym head ∙ z)),
      )
      (take_head-freed s off cls k)
