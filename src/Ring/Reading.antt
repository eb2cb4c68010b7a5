-- ===== src/Ring/Reading.antt =====
-- What `Peek`, `Pop` and `Drop` read off the front of the queue.
use tg_chat_server.Prelude.{
  ℕ, ◌+◌, ◌-◌, ◌≤◌, ◌<◌, ◌≡◌, arith, none, some, ◌++◌, get_elem?, take, drop, leb, le→leb, nat_beq,
  not, ◌&&◌, min, if◌then◌else◌, length-append, length-take, length-drop, get_elem?-take,
  get_elem?-drop, get_elem?-append, list_ext_below,
}
use native.Mathlib.Decide.{dec_lt}
use tg_chat_server.Ring.Bounds.{IsValid, wrap, used_lem, used-lt, add64-wrap}
use tg_chat_server.Ring.Contents.{contents, length-contents, get_elem?-contents}
use tg_chat_server.Ring.{Ring, used, copy_out, pop, peek, discard, pop_one}

-- The buffer with its head moved past `count` elements.
abbrev pub advanced : {A : Type 0} → Ring A → ℕ → Ring A
advanced r count = record r { head = wrap r.ring_size (r.head + count) }

module _ {A : Type 0} (r : Ring A) (v : IsValid r) (count : ℕ) (enough : count ≤ used r) where
  open r use {ring_size, head, buffer}

  -- In one piece.
  copy_out-contents :
      head + count ≤ ring_size → copy_out buffer head count ≡ take count (contents r)
  unfolding copy_out
  copy_out-contents h =
      list_ext_below ring_size _ _
        (omega (arith, length-take count (drop head buffer), used-lt r v))
        (omega (arith, length-take count (contents r), used-lt r v))
        λ i hi. ground (
          arith,
          get_elem?-take count (drop head buffer) i,
          get_elem?-drop head buffer i,
          get_elem?-take count (contents r) i,
          get_elem?-contents r i v,
        )

  -- In two pieces, the second from the start of the array.
  copy_out_split-contents :
      ring_size < head + count
      → copy_out buffer head (ring_size - head) ++ copy_out buffer 0 (count - (ring_size - head))
        ≡ take count (contents r)
  unfolding copy_out
  copy_out_split-contents h =
      list_ext_below ring_size _ _
        (omega (
          arith,
          length-append (take (ring_size - head) (drop head buffer))
              (take (count - (ring_size - head)) buffer),
          length-take (ring_size - head) (drop head buffer),
          length-take (count - (ring_size - head)) buffer,
          length-drop head buffer,
          used-lt r v,
          v.whole,
        ))
        (omega (arith, length-take count (contents r), used-lt r v))
        λ i hi. ground (
          arith,
          get_elem?-append (take (ring_size - head) (drop head buffer))
              (take (count - (ring_size - head)) buffer) i,
          length-take (ring_size - head) (drop head buffer),
          length-drop head buffer,
          get_elem?-take (ring_size - head) (drop head buffer) i,
          get_elem?-drop head buffer i,
          get_elem?-take (count - (ring_size - head)) buffer (i - (ring_size - head)),
          get_elem?-take count (contents r) i,
          get_elem?-contents r i v,
          used-lt r v,
          v.whole,
        )

  pub advanced-IsValid : IsValid (advanced r count)
  advanced-IsValid = ground (arith, used-lt r v)

  used-advanced : used (advanced r count) + count ≡ used r
  used-advanced = ground (arith, used_lem r v, used_lem (advanced r count) advanced-IsValid)

  pub contents-advanced : contents (advanced r count) ≡ drop count (contents r)
  contents-advanced =
      list_ext_below ring_size _ _
        (omega
          (arith, length-contents (advanced r count) advanced-IsValid, used-lt r v, used-advanced))
        (omega (arith, length-drop count (contents r), length-contents r v, used-lt r v))
        λ i hi. ground (
          arith,
          get_elem?-contents (advanced r count) i advanced-IsValid,
          get_elem?-drop count (contents r) i,
          get_elem?-contents r (count + i) v,
          used-advanced,
          used-lt r v,
        )

  pop_enough : pop r count ≡ (advanced r count, some (take count (contents r)))
  unfolding pop
  pop_enough = elim (dec_lt ring_size (head + count)) [
    | yes h ↦
        ground (arith, copy_out_split-contents h, add64-wrap head count ring_size, used-lt r v)
    | no h ↦
        ground
          (arith, copy_out-contents (omega arith), add64-wrap head count ring_size, used-lt r v)
  ]

  peek_enough : peek r count ≡ some (take count (contents r))
  unfolding peek
  peek_enough = elim (dec_lt ring_size (head + count)) [
    | yes h ↦ ground (arith, copy_out_split-contents h, used-lt r v)
    | no h ↦ ground (arith, copy_out-contents (omega arith), used-lt r v)
  ]

module _ {A : Type 0} (r : Ring A) (v : IsValid r) where
  pub pop_lem :
      (count : ℕ)
      → pop r count ≡ (
          if leb count (used r)
          then (advanced r count, some (take count (contents r)))
          else (r, none))
  pop_lem count = elim (dec_lt (used r) count) [
    | yes h ↦ unfold pop in ground arith
    | no h ↦ rw (le→leb count (used r) (omega arith)) (pop_enough r v count (omega arith))
  ]

  pub peek_lem :
      (count : ℕ)
      → peek r count ≡ (if leb count (used r) then some (take count (contents r)) else none)
  peek_lem count = elim (dec_lt (used r) count) [
    | yes h ↦ unfold peek in ground arith
    | no h ↦ rw (le→leb count (used r) (omega arith)) (peek_enough r v count (omega arith))
  ]

  pub discard_lem :
      (count : ℕ)
      → discard r count
        ≡ (advanced r (min count (used r)), not (nat_beq count 0) && not (nat_beq (used r) 0))
  unfolding discard
  discard_lem count =
      ground
        (arith, used-lt r v, add64-wrap head count ring_size, add64-wrap head (used r) ring_size)
    where
      open r use {head, ring_size}

  pub pop_one_lem :
      pop_one r
      ≡ (if nat_beq (used r) 0 then (r, none) else (advanced r 1, get_elem? (contents r) 0))
  unfolding pop_one
  pop_one_lem =
      ground (
        arith,
        used_lem r v,
        used-lt r v,
        get_elem?-contents r 0 v,
        add64-wrap r.head 1 r.ring_size,
      )
