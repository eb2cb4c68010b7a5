-- ===== src/Jwt/Text.antt =====
-- The texts of a token for server/account and server/connd/auth: bytes without a dot once they are encoded.
use tg_chat_server.Prelude.{
  ℕ, ◌+◌, ◌*◌, ◌/◌, ◌%◌, ◌≡◌, refl, arith, Bool, true, false, some, [], ◌∷◌, ◌++◌, ltb, nat_beq,
  if◌then◌else◌, ◌&&◌, ltb→lt, map,
}
use tg_chat_server.Base64.{Bytes, ascii, encode_groups, to_url, strip, pad_char, base64_url_encode}
use tg_chat_server.Base64.Table.{lt-IsCode}
use tg_chat_server.Base64.RoundTrip.{IsBytes}
use tg_chat_server.Jwt.Decimal.{append-IsBytes, to_string, to_string-IsBytes}
use tg_chat_server.Jwt.{split_dot, header_json, payload_json}

-- No byte is a dot.
abbrev pub HasNoDot : Bytes → Type 0
HasNoDot [] = Unit {0}
HasNoDot (ch ∷ rest) = (nat_beq ch b'.' ≡ false) × HasNoDot rest

pub split_dot-append : (s t : Bytes) → HasNoDot s → split_dot (s ++ (b'.' ∷ t)) ≡ some (s, t)
unfolding split_dot
split_dot-append [] t h = refl
split_dot-append (ch ∷ s) t (p, h) = ground (arith, p, split_dot-append s t h)

strip_step :
    (ch : ℕ) (t : Bytes)
    → nat_beq ch b'.' ≡ false
    → HasNoDot t
    → HasNoDot
        (elim t [ [] ↦ if nat_beq ch pad_char then [] else ch ∷ [] | d ∷ later ↦ ch ∷ d ∷ later ])
strip_step ch [] p h = elim (nat_beq ch pad_char) as (λ b. HasNoDot (if b then [] else ch ∷ [])) [
  | true ↦ tt
  | false ↦ (p, tt)
]
strip_step ch (d ∷ later) p h = (p, h)

strip-HasNoDot : (s : Bytes) → HasNoDot s → HasNoDot (strip s)
unfolding strip
strip-HasNoDot [] h = tt
strip-HasNoDot (ch ∷ s) (p, h) = strip_step ch (strip s) p (strip-HasNoDot s h)

encode_groups-HasNoDot : (xs : Bytes) → IsBytes xs → HasNoDot (map to_url (encode_groups xs))
unfolding encode_groups
encode_groups-HasNoDot [] h = tt
encode_groups-HasNoDot (a ∷ []) (p, h) = (
  (lt-IsCode (a / 4) (omega arith)).no_dot,
  ((lt-IsCode (a % 4 * 16) (omega arith)).no_dot, (unfold to_url in (refl, (refl, tt)))),
)
encode_groups-HasNoDot (a ∷ b ∷ []) (p, (q, h)) = (
  (lt-IsCode (a / 4) (omega arith)).no_dot,
  (
    (lt-IsCode (a % 4 * 16 + b / 16) (omega arith)).no_dot,
    ((lt-IsCode (b % 16 * 4) (omega arith)).no_dot, (unfold to_url in (refl, tt))),
  ),
)
encode_groups-HasNoDot (a ∷ b ∷ c ∷ rest) (p, (q, (r, h))) = (
  (lt-IsCode (a / 4) (omega arith)).no_dot,
  (
    (lt-IsCode (a % 4 * 16 + b / 16) (omega arith)).no_dot,
    (
      (lt-IsCode (b % 16 * 4 + c / 64) (omega arith)).no_dot,
      ((lt-IsCode (c % 64) (omega arith)).no_dot, encode_groups-HasNoDot rest h),
    ),
  ),
)

pub base64_url_encode-HasNoDot : (xs : Bytes) → IsBytes xs → HasNoDot (base64_url_encode xs)
unfolding base64_url_encode
base64_url_encode-HasNoDot xs h =
    strip-HasNoDot (map to_url (encode_groups xs)) (encode_groups-HasNoDot xs h)

-- A test, for the literals.
unfoldable pub are_bytes : Bytes → Bool
are_bytes [] = true
are_bytes (x ∷ rest) = ltb x 256 && are_bytes rest

pub are_bytes_lem : (s : Bytes) → are_bytes s ≡ true → IsBytes s
unfolding are_bytes
are_bytes_lem [] e = tt
are_bytes_lem (x ∷ rest) e =
    (ltb→lt x 256 (ground (arith, e)), are_bytes_lem rest (ground (arith, e)))

pub header_json-IsBytes : IsBytes header_json
header_json-IsBytes = are_bytes_lem header_json (unfold are_bytes in refl)

pub payload_json-IsBytes :
    (account : Bytes) (exp : ℕ) → IsBytes account → IsBytes (payload_json account exp)
payload_json-IsBytes account exp h =
    let start = ascii "{\"sub\":\"" in
    let between = ascii "\",\"exp\":" in
    let end = ascii "}" in
    let last =
      append-IsBytes (to_string exp) end (to_string-IsBytes exp)
        (are_bytes_lem end (unfold are_bytes in refl)) in
    let later =
      append-IsBytes between (to_string exp ++ end)
        (are_bytes_lem between (unfold are_bytes in refl)) last in
    let rest = append-IsBytes account (between ++ (to_string exp ++ end)) h later in
    unfold payload_json in
    append-IsBytes start (account ++ (between ++ (to_string exp ++ end)))
      (are_bytes_lem start (unfold are_bytes in refl)) rest
