-- ===== src/Ring.antt =====
-- server/core/shm/shm_ringbuffer.h and shm_ringbuffer.cpp: the ring buffer in shared memory.
-- The header's two offsets and the array that follows it are fields of one record. Every method
-- holds the buffer's lock from its first read to its last write, so a method is one step; the lock
-- of `TryPush` and `TryPop` is an argument that says whether it was free.
pub mod Bounds
pub mod Contents
pub mod Spec
pub mod Reading
pub mod Front
pub mod Refinement
pub mod Each
pub mod Writing
use tg_chat_server.Prelude.{
  ℕ, ◌+◌, ◌-◌, ◌%◌, ◌^◌, ◌≤◌, ◌<◌, ◌≡◌, Bool, true, false, Option, none, some, List, [], ◌∷◌, ◌++◌,
  length, get_elem?, set, take, drop, ltb, leb, nat_beq, if◌then◌else◌, add64, sub64,
}

pub record Ring (A : Type 0) : Type 0 where
  pub head : ℕ
  pub tail : ℕ
  pub ring_size : ℕ
  pub buffer : List A

module _ {A : Type 0} where
  -- `memcpy` out of the array: `count` elements from `off`.
  unfoldable pub copy_out : List A → ℕ → ℕ → List A
  copy_out buf off count = take count (drop off buf)

  -- `memcpy` into the array at `off`.
  unfoldable pub copy_in : List A → ℕ → List A → List A
  copy_in buf off xs = take off buf ++ (xs ++ drop (off + length xs) buf)

  -- `InitShm(true)` over memory that holds `memory`.
  unfoldable pub init_shm : ℕ → List A → Ring A
  init_shm ring_size memory = record { head = 0; tail = 0; ring_size = ring_size; buffer = memory }

  unfoldable pub is_empty : Ring A → Bool
  is_empty r = nat_beq r.head r.tail

  unfoldable pub is_full : Ring A → Bool
  is_full r = nat_beq (add64 r.tail 1 % r.ring_size) r.head

  unfoldable pub used : Ring A → ℕ
  used r =
      if leb r.head r.tail then sub64 r.tail r.head else sub64 r.ring_size (sub64 r.head r.tail)

  unfoldable pub available : Ring A → ℕ
  available r =
      if leb r.head r.tail
      then sub64 (sub64 r.ring_size (sub64 r.tail r.head)) 1
      else sub64 (sub64 r.head r.tail) 1

  unfoldable pub reset : Ring A → Ring A
  reset r = record r { head = 0; tail = 0 }

  -- `Push(const T &)`
  unfoldable pub push_one : Ring A → A → Ring A × Bool
  unfolding is_full
  push_one r item = if is_full r then (r, false) else (
    record r { buffer = set r.buffer r.tail item; tail = add64 r.tail 1 % r.ring_size },
    true,
  )

  -- `Pop(T &)`: the value read, if any. A read out of the array is `none` too.
  unfoldable pub pop_one : Ring A → Ring A × Option A
  unfolding is_empty
  pop_one r =
      if is_empty r
      then (r, none)
      else (record r { head = add64 r.head 1 % r.ring_size }, get_elem? r.buffer r.head)

  -- `TryPush` and `TryPop`, where `TryLock` returned `locked`.
  unfoldable pub try_push : Bool → Ring A → A → Ring A × Bool
  unfolding push_one
  try_push locked r item = if locked then push_one r item else (r, false)

  unfoldable pub try_pop : Bool → Ring A → Ring A × Option A
  unfolding pop_one
  try_pop locked r = if locked then pop_one r else (r, none)

  unfoldable pub discard : Ring A → ℕ → Ring A × Bool
  unfolding used
  discard r count =
      let available = used r in
      if nat_beq count 0
      then (r, false)
      else if nat_beq available 0
      then (r, false)
      else let count = if ltb available count then available else count in
        (record r { head = add64 r.head count % r.ring_size }, true)

  -- `Peek`: what stands in `items` afterwards, and no items where it fails.
  unfoldable pub peek : Ring A → ℕ → Option (List A)
  unfolding used copy_out
  peek r count =
      if nat_beq count 0
      then some []
      else if ltb (used r) count
      then none
      else let contiguous = sub64 r.ring_size r.head in
        if leb count contiguous
        then some (copy_out r.buffer r.head count)
        else some
            (copy_out r.buffer r.head contiguous ++ copy_out r.buffer 0 (sub64 count contiguous))

  -- `Pop(uint8_t *, size_t)`
  unfoldable pub pop : Ring A → ℕ → Ring A × Option (List A)
  unfolding used copy_out
  pop r count =
      if nat_beq count 0
      then (r, some [])
      else if ltb (used r) count
      then (r, none)
      else let contiguous = sub64 r.ring_size r.head in
        if leb count contiguous
        then (
          record r { head = add64 r.head count % r.ring_size },
          some (copy_out r.buffer r.head count),
        )
        else (
          record r { head = sub64 count contiguous },
          some
              (copy_out r.buffer r.head contiguous ++ copy_out r.buffer 0 (sub64 count contiguous)),
        )

  -- `Push(const uint8_t *, size_t)`: `items` points to at least `count` elements.
  unfoldable pub push : Ring A → List A → ℕ → Ring A × Bool
  unfolding available copy_in
  push r items count =
      if nat_beq count 0
      then (r, true)
      else if ltb (available r) count
      then (r, false)
      else let contiguous = sub64 r.ring_size r.tail in
        if leb count contiguous
        then (
          record r {
            buffer = copy_in r.buffer r.tail (take count items);
            tail = add64 r.tail count % r.ring_size;
          },
          true,
        )
        else (
          record r {
            buffer =
                copy_in (copy_in r.buffer r.tail (take contiguous items)) 0
                  (take (sub64 count contiguous) (drop contiguous items));
            tail = sub64 count contiguous;
          },
          true,
        )

  -- `PushFront`: `none` is the null pointer.
  unfoldable pub push_front : Ring A → Option (List A) → ℕ → Ring A × Bool
  unfolding available copy_in
  push_front r none count = if nat_beq count 0 then (r, true) else (r, false)
  push_front r (some items) count =
      if nat_beq count 0
      then (r, true)
      else if ltb (available r) count
      then (r, false)
      else let contiguous = r.head in
        if leb count contiguous
        then (
          record r {
            buffer = copy_in r.buffer (sub64 r.head count) (take count items);
            head = add64 (sub64 r.head count) r.ring_size % r.ring_size;
          },
          true,
        )
        else let first_part = sub64 count contiguous in
          (
            record r {
              buffer =
                  copy_in (copy_in r.buffer (sub64 r.ring_size first_part) (take first_part items))
                    0 (take contiguous (drop first_part items));
              head = sub64 r.ring_size first_part;
            },
            true,
          )
