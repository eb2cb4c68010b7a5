-- ===== src/Transport/Wire.antt =====
-- The bytes on the wire are those of the packets sent, as long as a packet is only sent when nothing
-- is pending.
use mathlib.Core.List.{append_assoc, append-nil, flatten}
use tg_chat_server.Prelude.{
  ℕ, ◌+◌, ◌≤◌, ◌<◌, ◌≡◌, ◌⊎◌, inl, inr, refl, sym, ap, ◌∙◌, arith, false, List, [], ◌∷◌, ◌++◌,
  length, take, drop, nat_beq, leb, Bool-cases, take-drop, drop-drop, drop_past, drop_nil, leb→le,
}
use tg_chat_server.Transport.Send.{
  Sender, Sent, took, would_block, failed, connected, send_impl, is_empty, write, on_writable,
}
use tg_chat_server.Transport.Chunks.{flatten-append}

-- What is still to be written.
abbrev pub owed : Sender → List ℕ
owed s = drop s.partial_send_offset s.partial_send_buffer

-- What a call may answer when it is given `n` bytes, if it does not fail.
pub data Takes (n : ℕ) : Sent → Type 0 where
  some_bytes : (k : ℕ) → 0 < k → k ≤ n → Takes n (took k)
  none_now : Takes n would_block

-- A connection in use: packets are sent when nothing is pending, what is pending is written.
pub data Runs : Sender → List (List ℕ) → Type 0 where
  start : Runs connected []
  sent :
      {s : Sender} {ps : List (List ℕ)} (pack : List ℕ) {o : Sent}
      → Runs s ps
      → s.partial_send_buffer ≡ []
      → Takes (length pack) o
      → Runs (send_impl s pack o) (ps ++ pack ∷ [])
  written :
      {s : Sender} {ps : List (List ℕ)} {o : Sent}
      → Runs s ps
      → Takes (length (owed s)) o
      → Runs (on_writable s o) ps

module _ (s : Sender) where
  -- What one answer of `sendmsg` makes of a sender with nothing pending.
  send_impl_lem :
      (pack : List ℕ) (o : Sent)
      → s.partial_send_buffer ≡ []
      → Takes (length pack) o
      → (send_impl s pack o).wire ++ owed (send_impl s pack o) ≡ s.wire ++ pack
  unfolding send_impl
  send_impl_lem pack (took n) e (some_bytes k p h) = elim (Bool-cases (nat_beq n (length pack))) [
    | inl q ↦ rw (q, e, drop_nil s.partial_send_offset) (append-nil (s.wire ++ pack))
    | inr q ↦ rw q (append_assoc s.wire (take n pack) (drop n pack) ∙ rw (take-drop n pack) refl)
  ]
  send_impl_lem pack would_block e none_now = refl
  send_impl_lem pack failed e t = elim t [ ]

  send_impl-event :
      (pack : List ℕ) (o : Sent)
      → s.partial_send_buffer ≡ []
      → Takes (length pack) o
      → (send_impl s pack o).wants_write ≡ false
      → (send_impl s pack o).partial_send_buffer ≡ []
  unfolding send_impl
  send_impl-event pack (took n) e t f = ground arith
  send_impl-event pack would_block e none_now f = ground arith
  send_impl-event pack failed e t f = elim t [ ]

  write_lem :
      (o : Sent)
      → Takes (length (owed s)) o
      → (write s o).wire ++ owed (write s o) ≡ s.wire ++ owed s
  unfolding write
  write_lem (took n) (some_bytes k p h) =
      let b = s.partial_send_buffer in
      let rest : drop n (owed s) ≡ drop (s.partial_send_offset + n) b =
        drop-drop n s.partial_send_offset b in
      let whole : take n (owed s) ++ drop (s.partial_send_offset + n) b ≡ owed s =
        rw (sym rest) (take-drop n (owed s)) in
      let tail : (s.wire ++ take n (owed s)) ++ drop (s.partial_send_offset + n) b
          ≡ s.wire ++ owed s =
        append_assoc s.wire (take n (owed s)) _ ∙ ap (λ z. s.wire ++ z) whole in
      elim (Bool-cases (leb (length b) (s.partial_send_offset + n))) [
        | inl q ↦ rw q (rw (drop_past (s.partial_send_offset + n) b (leb→le _ _ q)) at tail)
        | inr q ↦ rw q tail
      ]
  write_lem would_block none_now = refl
  write_lem failed t = elim t [ ]

  write-event :
      (o : Sent)
      → (s.wants_write ≡ false → s.partial_send_buffer ≡ [])
      → (write s o).wants_write ≡ false
      → (write s o).partial_send_buffer ≡ []
  unfolding write
  write-event (took n) i f =
      elim (Bool-cases (leb (length s.partial_send_buffer) (s.partial_send_offset + n))) [
        | inl q ↦ rw q refl
        | inr q ↦ rw q (i (rw q at f))
      ]
  write-event would_block i f = i f
  write-event failed i f = i f

owed-send_impl : (s : Sender) → s.partial_send_buffer ≡ [] → owed s ≡ []
owed-send_impl s e = rw (e, drop_nil s.partial_send_offset) refl

on_writable-cases : (s : Sender) (o : Sent) → (on_writable s o ≡ s) ⊎ (on_writable s o ≡ write s o)
unfolding on_writable
on_writable-cases s o = elim (Bool-cases (is_empty s.partial_send_buffer)) [
  | inl e ↦ inl (rw e refl)
  | inr e ↦ inr (rw e refl)
]

flatten_one : (pack : List ℕ) → flatten (pack ∷ []) ≡ pack
unfolding flatten
flatten_one pack = append-nil pack

Runs-bytes :
    {s : Sender} {ps : List (List ℕ)}
    → Runs s ps
    → (s.wire ++ owed s ≡ flatten ps) × (s.wants_write ≡ false → s.partial_send_buffer ≡ [])
Runs-bytes start = (unfold flatten in refl, λ f. refl)
Runs-bytes (sent {s = s} {ps = ps} pack {o} r e t) =
    let (a, b) = Runs-bytes r in
    let wire : s.wire ≡ flatten ps = sym (append-nil s.wire) ∙ rw (owed-send_impl s e) at a in
    (
      send_impl_lem s pack o e t
          ∙ rw wire
              (sym (flatten-append ps (pack ∷ []) ∙ ap (λ z. flatten ps ++ z) (flatten_one pack))),
      send_impl-event s pack o e t,
    )
Runs-bytes (written {s = s} {o = o} r t) =
    let (a, b) = Runs-bytes r in
    elim (on_writable-cases s o) [
      | inl e ↦ rw e (a, b)
      | inr e ↦ rw e (write_lem s o t ∙ a, write-event s o b)
    ]

-- In a run where each packet is sent when nothing is pending, the bytes on the wire followed by the
-- bytes still owed are always those of the packets, in order; and while the write event is not
-- registered, all of them are on the wire.
pub wire-Runs :
    {s : Sender} {ps : List (List ℕ)}
    → Runs s ps
    → (s.wire ++ owed s ≡ flatten ps) × (s.wants_write ≡ false → s.wire ≡ flatten ps)
wire-Runs {s = s} r =
    let (a, b) = Runs-bytes r in
    (a, λ f. sym (append-nil s.wire) ∙ rw (owed-send_impl s (b f)) at a)
