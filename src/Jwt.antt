-- ===== src/Jwt.antt =====
-- `JwtAuthProvider` of server/connd/auth and `AccountApp` of server/account. HMAC-SHA256 is OpenSSL's
-- and JSON is nlohmann's: parameters. A text is the list of its bytes, an `int64_t` its 64 bits.
pub mod Decimal
pub mod Signed
pub mod Text
pub mod Issued
use tg_chat_server.Prelude.{
  ℕ, ◌+◌, ◌≡◌, ◌⊎◌, inl, inr, Bool, true, false, Option, none, some, List, [], ◌∷◌, ◌++◌, String,
  length, ◌==◌, string_key, ltb, nat_beq, ◌&&◌, ◌||◌, if◌then◌else◌, add64,
}
use tg_chat_server.Balancer.Smooth.{signed_lt}
use tg_chat_server.Base64.{Bytes, ascii, base64_url_encode, base64_decode}
use tg_chat_server.Jwt.Decimal.{to_string}

-- What the code uses of the JSON library; the first case of a sum is the exception's `what()`.
pub record Json : Type 1 where
  pub Value : Type 0
  pub parse : Bytes → Bytes ⊎ Value
  -- `contains` and `[]`
  pub field : Value → String → Option Value
  -- `get<std::string>` and `get<int64_t>`
  pub as_text : Value → Bytes ⊎ Bytes
  pub as_int : Value → Bytes ⊎ ℕ

pub record AuthResult : Type 0 where
  pub ok : Bool
  pub user_id : Bytes
  pub err_msg : Bytes

abbrev pub failed : Bytes → AuthResult
failed err_msg = record { ok = false; user_id = []; err_msg = err_msg }

-- `find('.')`, with the text before it and after it.
unfoldable pub split_dot : Bytes → Option (Bytes × Bytes)
split_dot [] = none
split_dot (ch ∷ rest) =
    let later = split_dot rest in
    if nat_beq ch b'.'
    then some ([], rest)
    else elim later [ none ↦ none | some p ↦ some (ch ∷ p.0, p.1) ]

-- The sizes and `CRYPTO_memcmp`.
unfoldable pub bytes_beq : Bytes → Bytes → Bool
bytes_beq [] [] = true
bytes_beq [] (y ∷ ys) = false
bytes_beq (x ∷ xs) [] = false
bytes_beq (x ∷ xs) (y ∷ ys) = nat_beq x y && bytes_beq xs ys

unfoldable pub is_empty : Bytes → Bool
is_empty [] = true
is_empty (x ∷ xs) = false

module _ (json : Json) where
  -- The `alg` of a header that has been read; another kind of value is unequal.
  unfoldable pub is_hs256 : json.Value → Bool
  unfolding bytes_beq
  is_hs256 header = elim (json.field header "alg") [
    | none ↦ false
    | some alg ↦ elim (json.as_text alg) [
      | inl what ↦ false
      | inr text ↦ bytes_beq text (ascii "HS256")
    ]
  ]

  -- The error, where there is one.
  unfoldable pub check_header : Bytes → Option Bytes
  unfolding is_hs256
  check_header header_b64 = elim (json.parse (base64_decode header_b64)) [
    | inl what ↦ some (ascii "header parse error")
    | inr header ↦ if is_hs256 header then none else some (ascii "unsupported alg")
  ]

  abbrev pub payload_error : Bytes → Bytes
  payload_error what = ascii "payload parse error: " ++ what

  unfoldable pub check_exp : ℕ → json.Value → Option Bytes
  check_exp now payload = elim (json.field payload "exp") [
    | none ↦ none
    | some v ↦ elim (json.as_int v) [
      | inl what ↦ some (payload_error what)
      | inr exp ↦ if signed_lt exp now then some (ascii "token expired") else none
    ]
  ]

  unfoldable pub check_nbf : ℕ → json.Value → Option Bytes
  check_nbf now payload = elim (json.field payload "nbf") [
    | none ↦ none
    | some v ↦ elim (json.as_int v) [
      | inl what ↦ some (payload_error what)
      | inr nbf ↦ if signed_lt now nbf then some (ascii "token not yet valid") else none
    ]
  ]

  abbrev pub accept_user : json.Value → AuthResult
  accept_user v = elim (json.as_text v) [
    | inl what ↦ failed (payload_error what)
    | inr user_id ↦ record { ok = true; user_id = user_id; err_msg = [] }
  ]

  unfoldable pub read_user : json.Value → AuthResult
  read_user payload = elim (json.field payload "sub") [
    | some v ↦ accept_user v
    | none ↦ elim (json.field payload "user_id") [
      | some v ↦ accept_user v
      | none ↦ failed (ascii "missing sub/user_id in payload")
    ]
  ]

  unfoldable pub read_payload : ℕ → Bytes → AuthResult
  unfolding check_exp check_nbf read_user
  read_payload now payload_json = elim (json.parse payload_json) [
    | inl what ↦ failed (payload_error what)
    | inr payload ↦ elim (check_exp now payload) [
      | some e ↦ failed e
      | none ↦ elim (check_nbf now payload) [ some e ↦ failed e | none ↦ read_user payload ]
    ]
  ]

module _ (json : Json) (hmac : Bytes → Bytes → Bytes) (secret : Bytes) where
  -- From the checked header on.
  unfoldable pub verify_signed : ℕ → Bytes → Bytes → Bytes → AuthResult
  unfolding is_empty bytes_beq read_payload
  verify_signed now header_b64 payload_b64 signature_b64 =
      if is_empty secret
      then failed (ascii "jwt secret not configured")
      else if bytes_beq (hmac secret (header_b64 ++ (b'.' ∷ payload_b64)))
          (base64_decode signature_b64)
      then read_payload json now (base64_decode payload_b64)
      else failed (ascii "signature mismatch")

  -- `now` is what the clock says when the payload is read.
  unfoldable pub verify : ℕ → Bytes → AuthResult
  unfolding split_dot check_header verify_signed
  verify now token = elim (split_dot token) [
    | none ↦ failed (ascii "invalid jwt format")
    | some (header_b64, rest) ↦ elim (split_dot rest) [
      | none ↦ failed (ascii "invalid jwt format")
      | some (payload_b64, signature_b64) ↦ elim (check_header json header_b64) [
        | some e ↦ failed e
        | none ↦ verify_signed now header_b64 payload_b64 signature_b64
      ]
    ]
  ]

abbrev pub header_json : Bytes
header_json = ascii "{\"alg\":\"HS256\",\"typ\":\"JWT\"}"

unfoldable pub payload_json : Bytes → ℕ → Bytes
unfolding to_string
payload_json account exp =
    ascii "{\"sub\":\"" ++ (account ++ (ascii "\",\"exp\":" ++ (to_string exp ++ ascii "}")))

abbrev pub max_account_len : ℕ
max_account_len = 64

-- `PlayerApplyToken`'s response
pub data Response : Type 0 where
  auth_failed : Response
  issued : (token : Bytes) → Response

module _ (hmac : Bytes → Bytes → Bytes) (secret : Bytes) (ttl : ℕ) where
  unfoldable pub sign_jwt : ℕ → Bytes → Bytes
  unfolding payload_json
  sign_jwt now account =
      let h = base64_url_encode header_json in
      let p = base64_url_encode (payload_json account (add64 now ttl)) in
      let sig = base64_url_encode (hmac secret (h ++ (b'.' ∷ p))) in h ++ (b'.' ∷ p ++ (b'.' ∷ sig))

  -- The request as protobuf parses it, none where it fails; the answer is what `Reply` gets.
  unfoldable pub on_apply_token : ℕ → Option Bytes → Option Response
  unfolding is_empty sign_jwt
  on_apply_token now none = none
  on_apply_token now (some account) = some (
      if is_empty account || ltb max_account_len (length account)
      then auth_failed
      else issued (sign_jwt now account))

-- `onInit`: the secret of the configuration, without which the service does not start.
unfoldable pub can_start : Bytes → Bool → Bool
unfolding is_empty
can_start secret bus_starts = if is_empty secret then false else bus_starts

-- `AuthProviderFactory::create`: the one provider, whatever type is configured.
pub data Provider : Type 0 where
  jwt : (secret : Bytes) → Provider

unfoldable pub create : Option String → Option Bytes → Provider
create type secret =
    let configured : Bytes = elim secret [ none ↦ [] | some s ↦ s ] in
    let name : String = elim type [ none ↦ "jwt" | some t ↦ t ] in
    if name == "jwt" then jwt configured else jwt configured
