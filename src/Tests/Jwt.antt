-- ===== src/Tests/Jwt.antt =====
-- Base64 and the tokens of server/account and server/connd/auth at concrete inputs.
use tg_chat_server.Prelude.{
  ℕ, zero, suc, ◌+◌, ◌-◌, ◌*◌, ◌%◌, ◌≡◌, ◌≢◌, ◌⊎◌, inl, inr, refl, ap, arith, true, Option, none,
  some, List, [], ◌∷◌, String, length, nat_beq, leb, ◌&&◌, drop, get_or, if◌then◌else◌,
}
use tg_chat_server.Balancer.Smooth.{signed_lt}
use tg_chat_server.Base64.{
  Bytes, ascii, base64_url_encode, base64_decode, encode_groups, encode_char, to_url, from_url,
  strip, pad, decode_groups, decode_char, second_byte, third_byte,
}
use tg_chat_server.Base64.RoundTrip.{IsBytes, base64_decode-base64_url_encode}
use tg_chat_server.Jwt.Decimal.{to_string, decimal}
use tg_chat_server.Jwt.{
  Json, failed, bytes_beq, is_empty, split_dot, is_hs256, check_header, check_exp, check_nbf,
  read_user, read_payload, verify_signed, verify, payload_json, sign_jwt,
}
use tg_chat_server.Jwt.Signed.{IsSigned, accepted-IsSigned}
use tg_chat_server.Jwt.Issued.{IsRead, accepted, injected, verify-sign_jwt}

-- Flat JSON objects of texts and numbers, of which the last of two equal keys counts.
data Value : Type 0 where
  object : List (Bytes × (Bytes ⊎ ℕ)) → Value
  leaf : Bytes ⊎ ℕ → Value

until_quote : Bytes → Bytes × Bytes
until_quote [] = ([], [])
until_quote (ch ∷ rest) =
    let later = until_quote rest in if nat_beq ch b'"' then ([], rest) else (ch ∷ later.0, later.1)

number : ℕ → Bytes → ℕ × Bytes
number n [] = (n, [])
number n (ch ∷ rest) =
    let later = number (n * 10 + (ch - b'0')) rest in
    if leb b'0' ch && leb ch b'9' then later else (n, ch ∷ rest)

-- One value and what follows it.
value : Bytes → (Bytes ⊎ ℕ) × Bytes
unfolding until_quote number
value s =
    if nat_beq (get_or s 0 0) b'"'
    then (inl (until_quote (drop 1 s)).0, (until_quote (drop 1 s)).1)
    else (inr (number 0 s).0, (number 0 s).1)

members : ℕ → Bytes → List (Bytes × (Bytes ⊎ ℕ))
unfolding until_quote value
members zero s = []
members (suc fuel) s =
    let key = until_quote (drop 1 s) in
    let v = value (drop 1 key.1) in
    let later = members fuel (drop 1 v.1) in
    if nat_beq (get_or s 0 0) b'"' then (key.0, v.0) ∷ later else []

last_of : List (Bytes × (Bytes ⊎ ℕ)) → Bytes → Option (Bytes ⊎ ℕ)
unfolding bytes_beq
last_of [] key = none
last_of (m ∷ rest) key = elim (last_of rest key) [
  | some v ↦ some v
  | none ↦ if bytes_beq m.0 key then some m.1 else none
]

get_text : Value → Bytes ⊎ Bytes
get_text (object ms) = inl (ascii "type")
get_text (leaf (inl t)) = inr t
get_text (leaf (inr n)) = inl (ascii "type")

get_int : Value → Bytes ⊎ ℕ
get_int (object ms) = inl (ascii "type")
get_int (leaf (inl t)) = inl (ascii "type")
get_int (leaf (inr n)) = inr n

get_field : Value → String → Option Value
unfolding last_of
get_field (object ms) key = elim (last_of ms (ascii key)) [ none ↦ none | some v ↦ some (leaf v) ]
get_field (leaf v) key = none

abbrev flat : Json
flat = record {
  Value = Value;
  parse = λ s.
      if nat_beq (get_or s 0 0) b'{'
      then inr (object (members 9 (drop 1 s)))
      else inl (ascii "syntax");
  field = get_field;
  as_text = get_text;
  as_int = get_int;
}

abbrev mac : Bytes → Bytes → Bytes
mac key text = (length key % 256) ∷ (length text % 256) ∷ []

mac-IsBytes : (key text : Bytes) → IsBytes (mac key text)
mac-IsBytes key text = (omega arith, (omega arith, tt))

-- Issued at 1000 for 60 seconds.
abbrev token_of : String → Bytes
token_of account = sign_jwt mac (ascii "key") 60 1000 (ascii account)

base64_decode-base64_url_encode_example :
    base64_decode (base64_url_encode (0 ∷ 255 ∷ 62 ∷ 250 ∷ [])) ≡ 0 ∷ 255 ∷ 62 ∷ 250 ∷ []
base64_decode-base64_url_encode_example =
    base64_decode-base64_url_encode (0 ∷ 255 ∷ 62 ∷ 250 ∷ [])
      (omega arith, (omega arith, (omega arith, (omega arith, tt))))

alice-IsRead : IsRead flat (ascii "alice") 1060 (ascii "alice")
unfolding payload_json to_string decimal members value until_quote number last_of get_field get_text
    get_int bytes_beq
alice-IsRead = record {
  header = object ((ascii "alg", inl (ascii "HS256")) ∷ (ascii "typ", inl (ascii "JWT")) ∷ []);
  reads_header = refl;
  alg = (leaf (inl (ascii "HS256")), refl, refl);
  payload = object ((ascii "sub", inl (ascii "alice")) ∷ (ascii "exp", inr 1060) ∷ []);
  reads_payload = refl;
  exp_field = (leaf (inr 1060), refl, refl);
  no_nbf = refl;
  sub = (leaf (inl (ascii "alice")), refl, refl);
}

mallory-IsRead : IsRead flat (injected (ascii "x") (ascii "admin")) 1060 (ascii "admin")
unfolding payload_json to_string decimal members value until_quote number last_of get_field get_text
    get_int bytes_beq
mallory-IsRead = record {
  header = object ((ascii "alg", inl (ascii "HS256")) ∷ (ascii "typ", inl (ascii "JWT")) ∷ []);
  reads_header = refl;
  alg = (leaf (inl (ascii "HS256")), refl, refl);
  payload = object (
      (ascii "sub", inl (ascii "x"))
      ∷ (ascii "sub", inl (ascii "admin"))
      ∷ (ascii "exp", inr 1060)
      ∷ []);
  reads_payload = refl;
  exp_field = (leaf (inr 1060), refl, refl);
  no_nbf = refl;
  sub = (leaf (inl (ascii "admin")), refl, refl);
}

text-IsBytes : IsBytes (ascii "alice") × (IsBytes (ascii "x") × IsBytes (ascii "admin"))
text-IsBytes = (
  (omega arith, (omega arith, (omega arith, (omega arith, (omega arith, tt))))),
  (
    (omega arith, tt),
    (omega arith, (omega arith, (omega arith, (omega arith, (omega arith, tt))))),
  ),
)

has_key : ascii "key" ≢ []
has_key e = absurd cc

verify-sign_jwt_example :
    verify flat mac (ascii "key") 1060 (token_of "alice")
    ≡ (if signed_lt 1060 1060 then failed (ascii "token expired") else accepted (ascii "alice"))
verify-sign_jwt_example =
    verify-sign_jwt flat mac (ascii "key") 60 (ascii "alice") (ascii "alice") 1000 1060
      text-IsBytes.0 has_key mac-IsBytes alice-IsRead

alice_accepted : (verify flat mac (ascii "key") 1060 (token_of "alice")).ok ≡ true
alice_accepted = ap (λ r. r.ok) verify-sign_jwt_example

accepted-IsSigned_example :
    IsSigned flat mac
      (ascii "key")
      1060
      (token_of "alice")
      (verify flat mac (ascii "key") 1060 (token_of "alice")).user_id
accepted-IsSigned_example =
    accepted-IsSigned flat mac (ascii "key") 1060 (token_of "alice") alice_accepted

-- What is told apart.
rejections :
    (verify flat mac (ascii "key") 1061 (token_of "alice") ≡ failed (ascii "token expired"))
    × ((verify flat mac (ascii "key") 1061 (ascii "a.b") ≡ failed (ascii "invalid jwt format"))
        × (verify flat mac (ascii "") 1000 (token_of "alice")
            ≡ failed (ascii "jwt secret not configured")))
unfolding verify verify_signed split_dot check_header is_hs256 bytes_beq is_empty read_payload
    check_exp check_nbf read_user sign_jwt payload_json to_string decimal base64_url_encode
    encode_groups encode_char to_url from_url strip base64_decode pad decode_groups decode_char
    second_byte third_byte members value until_quote number last_of get_field get_text get_int
rejections = (refl, (refl, refl))
