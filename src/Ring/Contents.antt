-- ===== src/Ring/Contents.antt =====
-- The queue that a ring buffer stands for, position by position.
use tg_chat_server.Prelude.{
  ℕ, ◌+◌, ◌-◌, ◌≤◌, ◌<◌, ◌≡◌, arith, none, List, ◌++◌, length, get_elem?, take, drop, ltb,
  if◌then◌else◌, length-append, length-take, length-drop, get_elem?-take, get_elem?-drop,
  get_elem?-append,
}
use native.Mathlib.Decide.{dec_lt}
use tg_chat_server.Ring.Bounds.{IsValid, wrap, used-lt}
use tg_chat_server.Ring.{Ring, used, copy_in}

module _ {A : Type 0} where
  -- The `used` elements from the head on, the front of the queue first.
  abbrev pub contents : Ring A → List A
  contents r = take (used r) (drop r.head r.buffer ++ r.buffer)

  pub length-contents : (r : Ring A) → IsValid r → length (contents r) ≡ used r
  length-contents r v = omega (
    arith,
    length-take (used r) (drop r.head r.buffer ++ r.buffer),
    length-append (drop r.head r.buffer) r.buffer,
    length-drop r.head r.buffer,
    used-lt r v,
  )

  -- A window of the array that may run over its end.
  pub get_elem?-window :
      (buf : List A) (n h k i : ℕ)
      → length buf ≡ n
      → h < n
      → i < n
      → get_elem? (take k (drop h buf ++ buf)) i
        ≡ (if ltb i k then get_elem? buf (wrap n (h + i)) else none)
  get_elem?-window buf n h k i e hn hi = ground (
    arith,
    get_elem?-take k (drop h buf ++ buf) i,
    get_elem?-append (drop h buf) buf i,
    get_elem?-drop h buf i,
    length-drop h buf,
  )

  pub get_elem?-contents :
      (r : Ring A) (i : ℕ)
      → IsValid r
      → get_elem? (contents r) i
        ≡ (if ltb i (used r) then get_elem? r.buffer (wrap r.ring_size (r.head + i)) else none)
  get_elem?-contents r i v = elim (dec_lt i r.ring_size) [
    | yes h ↦ get_elem?-window r.buffer r.ring_size r.head (used r) i v.whole v.head_in h
    | no h ↦
        ground (arith, get_elem?-take (used r) (drop r.head r.buffer ++ r.buffer) i, used-lt r v)
  ]

  pub length-copy_in :
      (buf : List A) (off : ℕ) (xs : List A)
      → off + length xs ≤ length buf
      → length (copy_in buf off xs) ≡ length buf
  unfolding copy_in
  length-copy_in buf off xs h = omega (
    arith,
    length-append (take off buf) (xs ++ drop (off + length xs) buf),
    length-append xs (drop (off + length xs) buf),
    length-take off buf,
    length-drop (off + length xs) buf,
  )

  pub get_elem?-copy_in :
      (buf : List A) (off : ℕ) (xs : List A) (j : ℕ)
      → off + length xs ≤ length buf
      → get_elem? (copy_in buf off xs) j ≡ (
          if ltb j off
          then get_elem? buf j
          else if ltb j (off + length xs)
          then get_elem? xs (j - off)
          else get_elem? buf j)
  unfolding copy_in
  get_elem?-copy_in buf off xs j h = ground (
    arith,
    get_elem?-append (take off buf) (xs ++ drop (off + length xs) buf) j,
    get_elem?-append xs (drop (off + length xs) buf) (j - off),
    get_elem?-take off buf j,
    get_elem?-drop (off + length xs) buf (j - off - length xs),
    length-take off buf,
  )
