-- ===== src/Ring/Front.antt =====
-- What `PushFront` adds before the front of the queue.
use native.Mathlib.Decide.{dec_lt}
use tg_chat_server.Prelude.{
  ℕ, ◌+◌, ◌-◌, ◌≤◌, ◌<◌, ◌≡◌, refl, arith, some, true, List, ◌++◌, length, get_elem?, take, drop,
  leb, if◌then◌else◌, length-append, length-take, length-drop, get_elem?-take, get_elem?-drop,
  get_elem?-append, list_ext_below,
}
use tg_chat_server.Ring.Bounds.{IsValid, wrap, used_lem, available_lem, add64-wrap}
use tg_chat_server.Ring.Contents.{
  contents, length-contents, get_elem?-contents, length-copy_in, get_elem?-copy_in,
}
use tg_chat_server.Ring.{Ring, used, available, copy_in, push_front}

module _ {A : Type 0} (r : Ring A) (v : IsValid r) (xs : List A)
    (room : length xs ≤ available r) where
  open r use {ring_size, head, tail, buffer}

  -- The head moved back over the elements of `xs`.
  abbrev pub before : ℕ
  before = if leb (length xs) head then head - length xs else ring_size - (length xs - head)

  -- A buffer that differs from `r` in the elements of `xs`, laid out up to the head.
  pub record Prepended (q : Ring A) : Type 0 where
    pub size : q.ring_size ≡ ring_size
    pub front : q.head ≡ before
    pub back : q.tail ≡ tail
    pub whole : length q.buffer ≡ ring_size
    pub written :
        (i : ℕ) → i < length xs → get_elem? q.buffer (wrap ring_size (before + i)) ≡ get_elem? xs i
    pub kept :
        (i : ℕ)
        → i < used r
        → get_elem? q.buffer (wrap ring_size (head + i))
          ≡ get_elem? buffer (wrap ring_size (head + i))

  module _ (q : Ring A) (p : Prepended q) where
    pub Prepended-IsValid : IsValid q
    Prepended-IsValid = ground (arith, p.size, p.front, p.back, p.whole, available_lem r v)

    used-prepended : used q ≡ used r + length xs
    used-prepended = ground (
      arith,
      p.size,
      p.front,
      p.back,
      available_lem r v,
      used_lem r v,
      used_lem q Prepended-IsValid,
    )

    pub contents-prepended : contents q ≡ xs ++ contents r
    contents-prepended =
        list_ext_below ring_size _ _
          (omega (arith, length-contents q Prepended-IsValid, used-prepended, available_lem r v))
          (omega (arith, length-append xs (contents r), length-contents r v, available_lem r v))
          λ i hi.
            let in_q = rw (p.size, p.front) at (get_elem?-contents q i Prepended-IsValid) in
            elim (dec_lt i (length xs)) [
              | yes h ↦
                  ground
                    (arith, in_q, p.written i h, get_elem?-append xs (contents r) i, used-prepended)
              | no h ↦ elim (dec_lt i (used r + length xs)) [
                | yes h' ↦ ground (
                  arith,
                  in_q,
                  p.kept (i - length xs) (omega arith),
                  get_elem?-append xs (contents r) i,
                  get_elem?-contents r (i - length xs) v,
                  used-prepended,
                  available_lem r v,
                )
                | no h' ↦ ground (
                  arith,
                  in_q,
                  get_elem?-append xs (contents r) i,
                  get_elem?-contents r (i - length xs) v,
                  used-prepended,
                )
              ]
            ]

  Prepended-none : length xs ≡ 0 → Prepended r
  Prepended-none e = record {
    size = refl;
    front = ground arith;
    back = refl;
    whole = v.whole;
    written = λ i h. absurd (omega arith);
    kept = λ i h. refl;
  }

  one_piece : Ring A
  one_piece = record r {
    buffer = copy_in buffer (head - length xs) (take (length xs) xs);
    head = before;
  }

  one_piece-Prepended : length xs ≤ head → Prepended one_piece
  unfolding one_piece
  one_piece-Prepended h = record {
    size = refl;
    front = refl;
    back = refl;
    whole = omega (
      arith,
      length-copy_in buffer (head - length xs) (take (length xs) xs),
      length-take (length xs) xs,
      v.whole,
      v.head_in,
    );
    written = λ i hi. ground (
      arith,
      get_elem?-copy_in buffer (head - length xs) (take (length xs) xs) (head - length xs + i),
      get_elem?-take (length xs) xs i,
      length-take (length xs) xs,
      v.whole,
    );
    kept = λ i hi. ground (
      arith,
      get_elem?-copy_in buffer (head - length xs) (take (length xs) xs) (wrap ring_size (head + i)),
      length-take (length xs) xs,
      used_lem r v,
      available_lem r v,
      v.whole,
    );
  }

  two_pieces : Ring A
  two_pieces =
      let n = length xs - head in
      record r {
        buffer = copy_in (copy_in buffer (ring_size - n) (take n xs)) 0 (take head (drop n xs));
        head = before;
      }

  two_pieces-Prepended : head < length xs → Prepended two_pieces
  unfolding two_pieces
  two_pieces-Prepended h =
      let n = length xs - head in
      let off = ring_size - n in
      let first = take n xs in
      let second = take head (drop n xs) in
      let one = copy_in buffer off first in
      let len_first : length first ≡ n = omega (arith, length-take n xs) in
      let len_second : length second ≡ head =
        omega (arith, length-take head (drop n xs), length-drop n xs) in
      let len_one : length one ≡ ring_size =
        omega (arith, length-copy_in buffer off first, v.whole, available_lem r v) in
      record {
        size = refl;
        front = refl;
        back = refl;
        whole = omega (arith, length-copy_in one 0 second, available_lem r v, v.head_in);
        written = λ i hi. ground (
          arith,
          get_elem?-copy_in one 0 second (wrap ring_size (off + i)),
          get_elem?-copy_in buffer off first (wrap ring_size (off + i)),
          get_elem?-take n xs i,
          get_elem?-take head (drop n xs) (i - n),
          get_elem?-drop n xs (i - n),
          available_lem r v,
          v.whole,
        );
        kept = λ i hi. ground (
          arith,
          get_elem?-copy_in one 0 second (wrap ring_size (head + i)),
          get_elem?-copy_in buffer off first (wrap ring_size (head + i)),
          used_lem r v,
          available_lem r v,
          v.whole,
        );
      }

  pub push_front_enough :
      (q : Ring A) × (push_front r (some xs) (length xs) ≡ (q, true)) × Prepended q
  unfolding push_front one_piece two_pieces
  push_front_enough = elim (dec_lt 0 (length xs)) [
    | no h ↦ (r, ground arith, Prepended-none (omega arith))
    | yes h ↦ elim (dec_lt head (length xs)) [
      | no h' ↦ (
        one_piece,
        ground (arith, add64-wrap (head - length xs) ring_size ring_size, available_lem r v),
        one_piece-Prepended (omega arith),
      )
      | yes h' ↦ (two_pieces, ground (arith, available_lem r v), two_pieces-Prepended h')
    ]
  ]
