-- ===== src/Transport/Receive.antt =====
-- The loop over the ring buffer takes the stream apart as `Frames` says, with the rounds it has.
use tg_chat_server.Prelude.{
  ℕ, ◌⊎◌, zero, suc, ◌+◌, ◌≤◌, ◌<◌, ◌≡◌, refl, sym, ap, ◌∙◌, arith, true, false, not, ◌||◌, some,
  List, ◌∷◌, length, take, drop, ltb, nat_beq, le→leb, if◌then◌else◌, Bool-cases, get_or-take,
  length-drop, inl, inr,
}
use tg_chat_server.Ring.{Ring, used, pop}
use tg_chat_server.Ring.Bounds.{IsValid}
use tg_chat_server.Ring.Contents.{contents, length-contents}
use tg_chat_server.Ring.Reading.{advanced, advanced-IsValid, contents-advanced, pop_lem, peek_lem}
use tg_chat_server.Transport.{
  Received, running, corrupt, Round, waits, breaks, delivers, peeked, take_packet, round, rounds,
  process_recv_buffer, version, pack_len, data_len, header_size, app_msg_size, magic_version,
  max_packet_size,
}
use tg_chat_server.Transport.Frames.{Front, short, broken, packet, front, Frames, stop, fault, next}

module _ (r : Ring ℕ) (v : IsValid r) where
  peeked_lem : header_size ≤ used r → peeked r ≡ take header_size (contents r)
  unfolding peeked
  peeked_lem h = ground (arith, peek_lem r v header_size)

  header_lem :
      header_size ≤ used r
      → (version (peeked r) ≡ version (contents r)) × (pack_len (peeked r) ≡ pack_len (contents r))
  header_lem h = rw (peeked_lem h) (
      ground (
        arith,
        get_or-take header_size (contents r) 0 0,
        get_or-take header_size (contents r) 2 0,
        get_or-take header_size (contents r) 3 0,
        get_or-take header_size (contents r) 4 0,
        get_or-take header_size (contents r) 5 0,
      ))

  -- What a round makes of the front of the stream.
  abbrev Agrees : Front → Round → Type 0
  Agrees short o = o ≡ waits
  Agrees broken o = (q : Ring ℕ) × (o ≡ breaks q)
  Agrees (packet raw rest) o =
      (q : Ring ℕ) × (o ≡ delivers q raw)
      × IsValid q
      × (contents q ≡ rest)
      × (q.ring_size ≡ r.ring_size)
      × (used q < used r)

  take_packet_lem :
      (n : ℕ)
      → app_msg_size ≤ n
      → n ≤ used r
      → Agrees
          (if nat_beq (data_len (contents r) + app_msg_size) n
            then packet (take n (contents r)) (drop n (contents r))
            else broken)
          (take_packet r n)
  take_packet_lem n lo hi =
      let p : pop r n ≡ (advanced r n, some (take n (contents r))) =
        rw (pop_lem r v n, le→leb n (used r) hi) in
      let d : data_len (take n (contents r)) ≡ data_len (contents r) =
        ground (arith, get_or-take n (contents r) 20 0, get_or-take n (contents r) 21 0) in
      let w = advanced-IsValid r v n hi in
      let c = contents-advanced r v n hi in
      elim (Bool-cases (nat_beq (data_len (contents r) + app_msg_size) n)) [
        | inl e ↦
            let o : take_packet r n ≡ delivers (advanced r n) (take n (contents r)) =
              unfold take_packet in ground (arith, p, d) in
            rw (e, o)
              (
                advanced r n,
                refl,
                w,
                c,
                refl,
                omega (
                  arith,
                  length-contents r v,
                  length-contents (advanced r n) w,
                  ap length c,
                  length-drop n (contents r),
                ),
              )
        | inr e ↦
            let o : take_packet r n ≡ breaks (advanced r n) =
              unfold take_packet in ground (arith, p, d) in
            rw (e, o) (advanced r n, refl)
      ]

  round-Agrees : Agrees (front (contents r)) (round r)
  round-Agrees = elim (Bool-cases (ltb (used r) header_size)) [
    | inl s ↦
        let f : front (contents r) ≡ short = ground (arith, length-contents r v) in
        let o : round r ≡ waits = unfold round in ground arith in rw (f, o) refl
    | inr s ↦
        let (a, b) = header_lem (ground arith) in
        elim (Bool-cases (not (nat_beq (version (contents r)) magic_version))) [
          | inl m ↦
              let f : front (contents r) ≡ broken = ground (arith, length-contents r v) in
              let o : round r ≡ breaks r = unfold round in ground (arith, a) in rw (f, o) (r, refl)
          | inr m ↦
              elim (Bool-cases (
                ltb (pack_len (contents r)) app_msg_size
                || ltb max_packet_size (pack_len (contents r)))) [
                  | inl z ↦
                      let f : front (contents r) ≡ broken = ground (arith, length-contents r v) in
                      let o : round r ≡ breaks r = unfold round in ground (arith, a, b) in
                      rw (f, o) (r, refl)
                  | inr z ↦ elim (Bool-cases (ltb (used r) (pack_len (contents r)))) [
                    | inl t ↦
                        let f : front (contents r) ≡ short = ground (arith, length-contents r v) in
                        let o : round r ≡ waits = unfold round in ground (arith, a, b) in
                        rw (f, o) refl
                    | inr t ↦
                        let n = pack_len (contents r) in
                        let f : front (contents r) ≡ (
                            if nat_beq (data_len (contents r) + app_msg_size) n
                            then packet (take n (contents r)) (drop n (contents r))
                            else broken) =
                          ground (arith, length-contents r v) in
                        let o : round r ≡ take_packet r n = unfold round in ground (arith, a, b) in
                        rw (f, o) (take_packet_lem n (ground arith) (ground arith))
                  ]
                ]
        ]
  ]

-- How the loop leaves the connection: waiting for more bytes, or closed at a fault.
pub data Outcome (r : Ring ℕ) (x : Received) : Type 0 where
  waiting :
      x.link ≡ running
      → IsValid x.ring
      → x.ring.ring_size ≡ r.ring_size
      → Frames (contents r) x.packets (contents x.ring) true
      → Outcome r x
  at_fault :
      (left : List ℕ) → x.link ≡ corrupt → Frames (contents r) x.packets left false → Outcome r x

abbrev cons_packet : List ℕ → Received → Received
cons_packet raw x = record { ring = x.ring; packets = raw ∷ x.packets; link = x.link }

next-Outcome :
    (r q : Ring ℕ) (raw : List ℕ) (x : Received)
    → front (contents r) ≡ packet raw (contents q)
    → q.ring_size ≡ r.ring_size
    → Outcome q x
    → Outcome r (cons_packet raw x)
next-Outcome r q raw x e n (waiting l v m f) = waiting l v (m ∙ n) (next e f)
next-Outcome r q raw x e n (at_fault left l f) = at_fault left l (next e f)

Front-cases :
    (f : Front)
    → (f ≡ short) ⊎ (f ≡ broken) ⊎ ((raw : List ℕ) × (rest : List ℕ) × (f ≡ packet raw rest))
Front-cases short = inl refl
Front-cases broken = inr (inl refl)
Front-cases (packet raw rest) = inr (inr (raw, rest, refl))

rounds-Outcome : (fuel : ℕ) (r : Ring ℕ) → IsValid r → used r < fuel → Outcome r (rounds fuel r)
unfolding rounds
rounds-Outcome zero r v h = absurd (omega arith)
rounds-Outcome (suc fuel) r v h = elim (Front-cases (front (contents r))) [
  | inl e ↦
      let o : round r ≡ waits = rw e at (round-Agrees r v) in
      rw (o, rounds) (waiting refl v refl (stop e))
  | inr (inl e) ↦
      let (q, o) = rw e at (round-Agrees r v) in
      rw (o, rounds) (at_fault (contents r) refl (fault e))
  | inr (inr (raw, rest, e)) ↦
      let (q, o, w, c, n, less) = rw e at (round-Agrees r v) in
      let e' : front (contents r) ≡ packet raw (contents q) = e ∙ ap (packet raw) (sym c) in
      rw (o, rounds)
        (next-Outcome r q raw (rounds fuel q) e' n (rounds-Outcome fuel q w (omega arith)))
]

-- The loop ends by itself, with the packets of the buffered stream.
pub process-Outcome : (r : Ring ℕ) → IsValid r → Outcome r (process_recv_buffer r)
unfolding process_recv_buffer
process-Outcome r v = rounds-Outcome (suc (used r)) r v (omega arith)
