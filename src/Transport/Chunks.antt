-- ===== src/Transport/Chunks.antt =====
-- However the network cuts a stream into reads and wake-ups, the same packets come out.
use mathlib.Core.List.{append_assoc, append-nil, flatten}
use tg_chat_server.Prelude.{
  ℕ, ◌+◌, ◌<◌, ◌^◌, ◌≡◌, ◌≢◌, ◌⊎◌, inl, inr, refl, sym, ap, ◌∙◌, arith, true, false, List, [], ◌∷◌,
  ◌++◌, map, length, Bool-cases,
}
use tg_chat_server.Ring.{Ring, push, init_shm, used}
use tg_chat_server.Ring.Bounds.{IsValid, init_shm-IsValid}
use tg_chat_server.Ring.Contents.{contents}
use tg_chat_server.Ring.Spec.{pushes, call, spec}
use tg_chat_server.Ring.Refinement.{call-Refines}
use tg_chat_server.Transport.{
  Received, running, overflowed, corrupt, bytes, again, fill, on_readable, receive,
  process_recv_buffer,
}
use tg_chat_server.Transport.Frames.{
  Frames, stop, front, short, Frames-append, Frames-rest, Frames-append_broken, Frames-unique,
}
use tg_chat_server.Transport.Receive.{Outcome, process-Outcome}

push_ok :
    (r : Ring ℕ) (xs : List ℕ)
    → IsValid r
    → (push r xs (length xs)).1 ≡ true
    → IsValid (push r xs (length xs)).0 × (contents (push r xs (length xs)).0 ≡ contents r ++ xs)
unfolding call spec
push_ok r xs v e =
    let p = call-Refines r v (pushes xs) in (p.valid, ground (arith, e, p.reply, p.queue))

-- What the reads of a wake-up leave in the buffer, if all of it fits.
fill_lem :
    (r : Ring ℕ) (chunks : List (List ℕ))
    → IsValid r
    → let q = fill r (map bytes chunks ++ again ∷ []) in
      ((q.1 ≡ running) × IsValid q.0 × (contents q.0 ≡ contents r ++ flatten chunks))
      ⊎ (q.1 ≡ overflowed)
unfolding fill flatten
fill_lem r [] v = inl (refl, v, sym (append-nil _))
fill_lem r (xs ∷ rest) v = elim (Bool-cases (push r xs (length xs)).1) [
  | inr e ↦ inr (ground arith)
  | inl e ↦
      let (w, c) = push_ok r xs v e in
      let r' = (push r xs (length xs)).0 in
      let q : fill r (map bytes (xs ∷ rest) ++ again ∷ [])
          ≡ fill r' (map bytes rest ++ again ∷ []) =
        ground arith in
      elim (fill_lem r' rest w) [
        | inl (l, w', c') ↦
            inl (rw q (l, w', c' ∙ rw c (append_assoc (contents r) xs (flatten rest))))
        | inr l ↦ inr (rw q l)
      ]
]

-- How a stream of bytes after what is buffered comes out.
pub data Parsed (bs : List ℕ) (x : Received) : Type 0 where
  waiting :
      x.link ≡ running → IsValid x.ring → Frames bs x.packets (contents x.ring) true → Parsed bs x
  at_fault : (left : List ℕ) → x.link ≡ corrupt → Frames bs x.packets left false → Parsed bs x

on_readable-Parsed :
    (r : Ring ℕ) (chunks : List (List ℕ))
    → IsValid r
    → let x = on_readable r (map bytes chunks ++ again ∷ []) in
      Parsed (contents r ++ flatten chunks) x ⊎ (x.link ≡ overflowed)
unfolding on_readable
on_readable-Parsed r chunks v = elim (fill_lem r chunks v) [
  | inr l ↦ inr (ground arith)
  | inl (l, w, c) ↦
      let x = on_readable r (map bytes chunks ++ again ∷ []) in
      let q = (fill r (map bytes chunks ++ again ∷ [])).0 in
      let e : x ≡ process_recv_buffer q = ground arith in
      inl (rw e (from_outcome q (contents r ++ flatten chunks) c (process-Outcome q w)))
]
  where
    from_outcome :
        (q : Ring ℕ) (bs : List ℕ)
        → contents q ≡ bs
        → Outcome q (process_recv_buffer q)
        → Parsed bs (process_recv_buffer q)
    from_outcome q bs c (Outcome.waiting l w n f) = waiting l w (rw c at f)
    from_outcome q bs c (Outcome.at_fault left l f) = at_fault left l (rw c at f)

pub flatten-append :
    (xs : List (List ℕ)) (ys : List (List ℕ)) → flatten (xs ++ ys) ≡ flatten xs ++ flatten ys
unfolding flatten
flatten-append [] ys = refl
flatten-append (x ∷ xs) ys =
    ap (λ z. x ++ z) (flatten-append xs ys) ∙ sym (append_assoc x (flatten xs) (flatten ys))

abbrev followed_by : Received → Received → Received
followed_by x rest = record {
  ring = rest.ring;
  packets = x.packets ++ rest.packets;
  link = rest.link;
}

followed_by-Parsed :
    (bs more : List ℕ) (x rest : Received)
    → Frames bs x.packets (contents x.ring) true
    → Parsed (contents x.ring ++ more) rest
    → Parsed (bs ++ more) (followed_by x rest)
followed_by-Parsed bs more x rest f (waiting l v g) = waiting l v (Frames-append more f refl g)
followed_by-Parsed bs more x rest f (at_fault left l g) =
    at_fault left l (Frames-append more f refl g)

-- Every wake-up is all read before the buffer overflows, or the connection is closed for that.
receive-Parsed :
    (r : Ring ℕ) (bursts : List (List (List ℕ)))
    → IsValid r
    → front (contents r) ≡ short
    → Parsed (contents r ++ flatten (flatten bursts)) (receive r bursts)
      ⊎ ((receive r bursts).link ≡ overflowed)
unfolding receive flatten
receive-Parsed r [] v e = inl (waiting refl v (rw append-nil (stop e)))
receive-Parsed r (chunks ∷ later) v e =
    let x = on_readable r (map bytes chunks ++ again ∷ []) in
    let bs = contents r ++ flatten chunks in
    let more = flatten (flatten later) in
    let split : contents r ++ flatten (chunks ++ flatten later) ≡ bs ++ more =
      ap (λ z. contents r ++ z) (flatten-append chunks (flatten later))
      ∙ sym (append_assoc (contents r) (flatten chunks) more) in
    elim (on_readable-Parsed r chunks v) [
      | inr l ↦ inr (ground arith)
      | inl (at_fault left l f) ↦
          let q : receive r (chunks ∷ later) ≡ x = ground arith in
          inl (rw (q, split) (at_fault (left ++ more) l (Frames-append_broken more f refl)))
      | inl (waiting l w f) ↦
          let rest = receive x.ring later in
          let q : receive r (chunks ∷ later) ≡ followed_by x rest = ground arith in
          elim (receive-Parsed x.ring later w (Frames-rest f refl)) [
            | inl p ↦ inl (rw (q, split) (followed_by-Parsed bs more x rest f p))
            | inr o ↦ inr (rw q o)
          ]
    ]

init_shm-empty : (cap : ℕ) (memory : List ℕ) → contents (init_shm (cap + 1) memory) ≡ []
init_shm-empty cap memory = unfold init_shm used in refl

-- On a connection with a fresh buffer of any capacity, and for any bytes in any reads and wake-ups,
-- one of two things holds. Either the packets handed on are those that the whole stream falls into,
-- and the connection waits with the rest in a valid buffer or is closed at the first bytes that are
-- no packet. Or a burst did not fit, and the connection is closed for that.
pub receive-init_shm :
    (cap : ℕ) (memory : List ℕ) (bursts : List (List (List ℕ)))
    → cap < 2 ^ 62
    → length memory ≡ cap + 1
    → let x = receive (init_shm (cap + 1) memory) bursts in
      Parsed (flatten (flatten bursts)) x ⊎ (x.link ≡ overflowed)
receive-init_shm cap memory bursts h e = rw (init_shm-empty cap memory) at (
    receive-Parsed (init_shm (cap + 1) memory) bursts
      (init_shm-IsValid (cap + 1) memory (omega arith) (omega arith) e)
      (rw (init_shm-empty cap memory) refl))

Parsed-unique :
    (bs : List ℕ) (x y : Received)
    → Parsed bs x
    → Parsed bs y
    → (x.packets ≡ y.packets) × (x.link ≡ y.link)
Parsed-unique bs x y (waiting l v f) (waiting m w g) = ((Frames-unique f g).0, l ∙ sym m)
Parsed-unique bs x y (waiting l v f) (at_fault left m g) =
    absurd (ground (arith, (Frames-unique f g).2))
Parsed-unique bs x y (at_fault left l f) (waiting m w g) =
    absurd (ground (arith, (Frames-unique f g).2))
Parsed-unique bs x y (at_fault left l f) (at_fault left' m g) = ((Frames-unique f g).0, l ∙ sym m)

-- Two connections, with fresh buffers of any two capacities, that read the same bytes hand on the
-- same packets and end in the same state, however the bytes were cut into reads and wake-ups,
-- provided that no burst overflowed either buffer.
pub receive_chunking :
    (cap cap' : ℕ) (memory memory' : List ℕ) (bursts bursts' : List (List (List ℕ)))
    → cap < 2 ^ 62
    → cap' < 2 ^ 62
    → length memory ≡ cap + 1
    → length memory' ≡ cap' + 1
    → flatten (flatten bursts) ≡ flatten (flatten bursts')
    → (receive (init_shm (cap + 1) memory) bursts).link ≢ overflowed
    → (receive (init_shm (cap' + 1) memory') bursts').link ≢ overflowed
    → ((receive (init_shm (cap + 1) memory) bursts).packets
        ≡ (receive (init_shm (cap' + 1) memory') bursts').packets)
      × ((receive (init_shm (cap + 1) memory) bursts).link
          ≡ (receive (init_shm (cap' + 1) memory') bursts').link)
receive_chunking cap cap' memory memory' bursts bursts' h h' e e' same n n' =
    elim (receive-init_shm cap memory bursts h e) [
      | inr o ↦ absurd (n o)
      | inl p ↦ elim (receive-init_shm cap' memory' bursts' h' e') [
        | inr o ↦ absurd (n' o)
        | inl p' ↦ Parsed-unique _ _ _ (rw same at p) p'
      ]
    ]
