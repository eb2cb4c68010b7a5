-- ===== src/Transport/Frames.antt =====
-- How a stream of bytes falls into packets, apart from any buffer.
use tg_chat_server.Prelude.{
  ℕ, ◌+◌, ◌≤◌, ◌≡◌, inl, inr, refl, sym, ap₂, ◌∙◌, arith, Bool, true, false, not, ◌||◌, List, [],
  ◌∷◌, ◌++◌, length, take, drop, ltb, nat_beq, if◌then◌else◌, Bool-cases, get_or-append_left,
  take-append_left, drop-append_left, length-append,
}
use mathlib.Core.Path.{subst}
use tg_chat_server.Transport.{
  magic_version, max_packet_size, header_size, app_msg_size, version, pack_len, data_len,
}

-- What the front of a stream is: too short to tell, no packet, or a packet and the rest.
pub data Front : Type 0 where
  short broken : Front
  packet : (raw rest : List ℕ) → Front

abbrev pub front : List ℕ → Front
front bs =
    if ltb (length bs) header_size
    then short
    else if not (nat_beq (version bs) magic_version)
    then broken
    else if ltb (pack_len bs) app_msg_size || ltb max_packet_size (pack_len bs)
    then broken
    else if ltb (length bs) (pack_len bs)
    then short
    else if nat_beq (data_len bs + app_msg_size) (pack_len bs)
    then packet (take (pack_len bs) bs) (drop (pack_len bs) bs)
    else broken

-- `Frames bs ps rest ok`: the stream `bs` begins with the packets `ps`; then comes `rest`, too
-- short for a packet (`ok`), or something that is no packet.
pub data Frames : List ℕ → List (List ℕ) → List ℕ → Bool → Type 0 where
  stop : {bs : List ℕ} → front bs ≡ short → Frames bs [] bs true
  fault : {bs : List ℕ} → front bs ≡ broken → Frames bs [] bs false
  next :
      {bs raw rest left : List ℕ} {ps : List (List ℕ)} {ok : Bool}
      → front bs ≡ packet raw rest
      → Frames rest ps left ok
      → Frames bs (raw ∷ ps) left ok

-- A front that is decided stays so when more bytes come.
front-append :
    (bs more : List ℕ)
    → header_size ≤ length bs
    → (version (bs ++ more) ≡ version bs) × (pack_len (bs ++ more) ≡ pack_len bs)
front-append bs more h = ground (
  arith,
  get_or-append_left bs more 0 0,
  get_or-append_left bs more 2 0,
  get_or-append_left bs more 3 0,
  get_or-append_left bs more 4 0,
  get_or-append_left bs more 5 0,
)

data_len-append :
    (bs more : List ℕ) → app_msg_size ≤ length bs → data_len (bs ++ more) ≡ data_len bs
data_len-append bs more h =
    ground (arith, get_or-append_left bs more 20 0, get_or-append_left bs more 21 0)

broken-append : (bs more : List ℕ) → front bs ≡ broken → front (bs ++ more) ≡ broken
broken-append bs more e = elim (Bool-cases (ltb (length bs) header_size)) [
  | inl s ↦ ground arith
  | inr s ↦
      let (v, n) = front-append bs more (ground arith) in
      rw (v, n) (ground (arith, length-append bs more, data_len-append bs more))
]

packet-append :
    (bs more raw rest : List ℕ)
    → front bs ≡ packet raw rest
    → front (bs ++ more) ≡ packet raw (rest ++ more)
packet-append bs more raw rest e = elim (Bool-cases (ltb (length bs) header_size)) [
  | inl s ↦ ground arith
  | inr s ↦
      let (v, n) = front-append bs more (ground arith) in
      rw (v, n)
        (ground (
          arith,
          length-append bs more,
          data_len-append bs more,
          take-append_left (pack_len bs) bs more,
          drop-append_left (pack_len bs) bs more,
        ))
]

pub Frames-rest :
    {xs left : List ℕ} {ps : List (List ℕ)} {c : Bool}
    → Frames xs ps left c
    → c ≡ true
    → front left ≡ short
Frames-rest (stop e) h = e
Frames-rest (fault e) h = cc
Frames-rest (next e f) h = Frames-rest f h

-- More bytes after a rest that is too short.
pub Frames-append :
    {xs left : List ℕ} {ps : List (List ℕ)} {c : Bool} (ys : List ℕ) {qs : List (List ℕ)}
    {q : List ℕ} {ok : Bool}
    → Frames xs ps left c
    → c ≡ true
    → Frames (left ++ ys) qs q ok
    → Frames (xs ++ ys) (ps ++ qs) q ok
Frames-append ys (stop e) h g = g
Frames-append ys (fault e) h g = cc
Frames-append ys (next {bs = bs} {raw = raw} {rest = rest} e f) h g =
    next (packet-append bs ys raw rest e) (Frames-append ys f h g)

-- More bytes after a fault change nothing.
pub Frames-append_broken :
    {xs left : List ℕ} {ps : List (List ℕ)} {c : Bool} (ys : List ℕ)
    → Frames xs ps left c
    → c ≡ false
    → Frames (xs ++ ys) ps (left ++ ys) false
Frames-append_broken ys (stop e) h = cc
Frames-append_broken ys (fault {bs = bs} e) h = fault (broken-append bs ys e)
Frames-append_broken ys (next {bs = bs} {raw = raw} {rest = rest} e f) h =
    next (packet-append bs ys raw rest e) (Frames-append_broken ys f h)

packet_inj : {x y r s : List ℕ} → packet x r ≡ packet y s → (x ≡ y) × (r ≡ s)
packet_inj e = (cc, cc)

-- A stream falls into packets in one way.
pub Frames-unique :
    {bs left left' : List ℕ} {ps ps' : List (List ℕ)} {ok ok' : Bool}
    → Frames bs ps left ok
    → Frames bs ps' left' ok'
    → (ps ≡ ps') × (left ≡ left') × (ok ≡ ok')
Frames-unique (stop e) (stop e') = (refl, refl, refl)
Frames-unique (stop e) (fault e') = absurd (cc (sym e ∙ e'))
Frames-unique (stop e) (next e' g) = absurd (cc (sym e ∙ e'))
Frames-unique (fault e) (stop e') = absurd (cc (sym e ∙ e'))
Frames-unique (fault e) (fault e') = (refl, refl, refl)
Frames-unique (fault e) (next e' g) = absurd (cc (sym e ∙ e'))
Frames-unique (next e f) (stop e') = absurd (cc (sym e ∙ e'))
Frames-unique (next e f) (fault e') = absurd (cc (sym e ∙ e'))
Frames-unique {left' = left'} {ps' = _ ∷ ps'} {ok' = ok'} (next e f) (next e' g) =
    let (x, y) = packet_inj (sym e ∙ e') in
    let (p, q, r) = Frames-unique f (subst (λ z. Frames z ps' left' ok') (sym y) g) in
    (ap₂ ◌∷◌ x p, q, r)
