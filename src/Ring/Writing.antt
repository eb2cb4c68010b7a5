-- ===== src/Ring/Writing.antt =====
-- What `Push` and `PushFront` add at the ends of the queue.
use native.Mathlib.Decide.{dec_lt}
use tg_chat_server.Prelude.{
  ℕ, ◌+◌, ◌-◌, ◌≤◌, ◌<◌, ◌≡◌, refl, ◌∙◌, arith, true, List, [], ◌∷◌, ◌++◌, length, get_elem?, set,
  take, drop, length-append, length-take, length-drop, length-set, get_elem?-take, get_elem?-drop,
  get_elem?-append, list_ext_below, get_elem?_past, get_elem?-set_self, get_elem?-set_ne,
}
use tg_chat_server.Ring.Bounds.{IsValid, wrap, used_lem, available_lem, add64-wrap}
use tg_chat_server.Ring.Contents.{
  contents, length-contents, get_elem?-contents, length-copy_in, get_elem?-copy_in,
}
use tg_chat_server.Ring.{Ring, used, available, copy_in, push, push_one}

module _ {A : Type 0} (r : Ring A) (v : IsValid r) (xs : List A)
    (room : length xs ≤ available r) where
  open r use {ring_size, head, tail, buffer}

  -- A buffer that differs from `r` in the elements of `xs`, laid out from the tail on.
  pub record Appended (q : Ring A) : Type 0 where
    pub size : q.ring_size ≡ ring_size
    pub front : q.head ≡ head
    pub back : q.tail ≡ wrap ring_size (tail + length xs)
    pub whole : length q.buffer ≡ ring_size
    pub written :
        (i : ℕ) → i < length xs → get_elem? q.buffer (wrap ring_size (tail + i)) ≡ get_elem? xs i
    pub kept :
        (i : ℕ)
        → i < used r
        → get_elem? q.buffer (wrap ring_size (head + i))
          ≡ get_elem? buffer (wrap ring_size (head + i))

  module _ (q : Ring A) (p : Appended q) where
    pub Appended-IsValid : IsValid q
    Appended-IsValid = ground (arith, p.size, p.front, p.back, p.whole, available_lem r v)

    used-appended : used q ≡ used r + length xs
    used-appended = ground (
      arith,
      p.size,
      p.front,
      p.back,
      available_lem r v,
      used_lem r v,
      used_lem q Appended-IsValid,
    )

    pub contents-appended : contents q ≡ contents r ++ xs
    contents-appended =
        list_ext_below ring_size _ _
          (omega (arith, length-contents q Appended-IsValid, used-appended, available_lem r v))
          (omega (arith, length-append (contents r) xs, length-contents r v, available_lem r v))
          λ i hi.
            let in_q = rw (p.size, p.front) at (get_elem?-contents q i Appended-IsValid) in
            elim (dec_lt i (used r)) [
              | yes h ↦ ground (
                arith,
                in_q,
                p.kept i h,
                get_elem?-append (contents r) xs i,
                length-contents r v,
                get_elem?-contents r i v,
                used-appended,
              )
              | no h ↦ elim (dec_lt i (used r + length xs)) [
                | yes h' ↦ ground (
                  arith,
                  in_q,
                  p.written (i - used r) (omega arith),
                  get_elem?-append (contents r) xs i,
                  length-contents r v,
                  used-appended,
                  used_lem r v,
                  available_lem r v,
                )
                | no h' ↦ ground (
                  arith,
                  in_q,
                  get_elem?-append (contents r) xs i,
                  length-contents r v,
                  used-appended,
                  get_elem?_past xs (i - used r),
                )
              ]
            ]

  -- Nothing written: the buffer as it is.
  Appended-none : length xs ≡ 0 → Appended r
  Appended-none e = record {
    size = refl;
    front = refl;
    back = ground (arith, v.tail_in);
    whole = v.whole;
    written = λ i h. absurd (omega arith);
    kept = λ i h. refl;
  }

  one_piece : Ring A
  one_piece = record r {
    buffer = copy_in buffer tail (take (length xs) xs);
    tail = wrap ring_size (tail + length xs);
  }

  one_piece-Appended : tail + length xs ≤ ring_size → Appended one_piece
  unfolding one_piece
  one_piece-Appended h = record {
    size = refl;
    front = refl;
    back = refl;
    whole = omega (
      arith,
      length-copy_in buffer tail (take (length xs) xs),
      length-take (length xs) xs,
      v.whole,
    );
    written = λ i hi. ground (
      arith,
      get_elem?-copy_in buffer tail (take (length xs) xs) (wrap ring_size (tail + i)),
      get_elem?-take (length xs) xs i,
      length-take (length xs) xs,
      v.whole,
    );
    kept = λ i hi. ground (
      arith,
      get_elem?-copy_in buffer tail (take (length xs) xs) (wrap ring_size (head + i)),
      length-take (length xs) xs,
      used_lem r v,
      available_lem r v,
      v.whole,
    );
  }

  two_pieces : Ring A
  two_pieces = record r {
    buffer =
        copy_in (copy_in buffer tail (take (ring_size - tail) xs)) 0
          (take (length xs - (ring_size - tail)) (drop (ring_size - tail) xs));
    tail = wrap ring_size (tail + length xs);
  }

  two_pieces-Appended : ring_size < tail + length xs → Appended two_pieces
  unfolding two_pieces
  two_pieces-Appended h =
      let c = ring_size - tail in
      let first = take c xs in
      let second = take (length xs - c) (drop c xs) in
      let one = copy_in buffer tail first in
      let len_first : length first ≡ c = omega (arith, length-take c xs) in
      let len_second : length second ≡ length xs - c =
        omega (arith, length-take (length xs - c) (drop c xs), length-drop c xs) in
      let len_one : length one ≡ ring_size =
        omega (arith, length-copy_in buffer tail first, v.whole) in
      record {
        size = refl;
        front = refl;
        back = refl;
        whole = omega (arith, length-copy_in one 0 second, available_lem r v);
        written = λ i hi. ground (
          arith,
          get_elem?-copy_in one 0 second (wrap ring_size (tail + i)),
          get_elem?-copy_in buffer tail first (wrap ring_size (tail + i)),
          get_elem?-take c xs i,
          get_elem?-take (length xs - c) (drop c xs) (i - c),
          get_elem?-drop c xs (i - c),
          available_lem r v,
          v.whole,
        );
        kept = λ i hi. ground (
          arith,
          get_elem?-copy_in one 0 second (wrap ring_size (head + i)),
          get_elem?-copy_in buffer tail first (wrap ring_size (head + i)),
          used_lem r v,
          available_lem r v,
          v.whole,
        );
      }

  pub push_enough : (q : Ring A) × (push r xs (length xs) ≡ (q, true)) × Appended q
  unfolding push one_piece two_pieces
  push_enough = elim (dec_lt 0 (length xs)) [
    | no h ↦ (r, ground arith, Appended-none (omega arith))
    | yes h ↦ elim (dec_lt ring_size (tail + length xs)) [
      | no h' ↦ (
        one_piece,
        ground (arith, add64-wrap tail (length xs) ring_size, available_lem r v),
        one_piece-Appended (omega arith),
      )
      | yes h' ↦ (
        two_pieces,
        ground (arith, add64-wrap tail (length xs) ring_size, available_lem r v),
        two_pieces-Appended h',
      )
    ]
  ]

-- One element.
pub push_one_enough :
    {A : Type 0} (r : Ring A) (v : IsValid r) (x : A) (room : 1 ≤ available r)
    → (q : Ring A) × (push_one r x ≡ (q, true)) × Appended r v (x ∷ []) room q
unfolding push_one
push_one_enough r v x room = (
  record r { buffer = set buffer tail x; tail = wrap ring_size (tail + 1) },
  ground (arith, add64-wrap tail 1 ring_size, used_lem r v, available_lem r v),
  record {
    size = refl;
    front = refl;
    back = refl;
    whole = length-set buffer tail x ∙ v.whole;
    written = λ i hi. ground (arith, get_elem?-set_self buffer tail x, v.whole);
    kept = λ i hi. get_elem?-set_ne buffer x (ground (arith, used_lem r v, available_lem r v));
  },
)
  where
    open r use {ring_size, head, tail, buffer}
