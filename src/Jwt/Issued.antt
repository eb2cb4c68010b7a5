-- ===== src/Jwt/Issued.antt =====
-- A token of `AccountApp::signJwt` before `JwtAuthProvider::verify`.
use tg_chat_server.Prelude.{
  ℕ, ◌≤◌, ◌≡◌, ◌≢◌, refl, ◌∙◌, inr, arith, true, false, none, some, [], ◌∷◌, ◌++◌, length,
  if◌then◌else◌, add64,
}
use tg_chat_server.Balancer.Smooth.{signed_lt}
use tg_chat_server.Base64.{Bytes, ascii, base64_url_encode}
use tg_chat_server.Base64.RoundTrip.{IsBytes, base64_decode-base64_url_encode}
use tg_chat_server.Jwt.Decimal.{append-IsBytes}
use tg_chat_server.Jwt.{
  Json, AuthResult, issued, failed, split_dot, header_json, payload_json, max_account_len, sign_jwt,
  on_apply_token, check_header, read_payload, verify_signed, verify, is_hs256, is_empty, check_exp,
  check_nbf, read_user,
}
use tg_chat_server.Jwt.Signed.{bytes_beq_refl, Says}
use tg_chat_server.Jwt.Text.{
  split_dot-append, base64_url_encode-HasNoDot, are_bytes, are_bytes_lem, header_json-IsBytes,
  payload_json-IsBytes,
}

-- What the JSON library reads in the two texts of a token.
pub record IsRead (json : Json) (account : Bytes) (exp : ℕ) (user : Bytes) : Type 0 where
  pub header : json.Value
  pub reads_header : json.parse header_json ≡ inr header
  pub alg : Says json header "alg" (ascii "HS256")
  pub payload : json.Value
  pub reads_payload : json.parse (payload_json account exp) ≡ inr payload
  pub exp_field : (v : json.Value) × (json.field payload "exp" ≡ some v) × (json.as_int v ≡ inr exp)
  pub no_nbf : json.field payload "nbf" ≡ none
  pub sub : Says json payload "sub" user

is_empty_lem : (s : Bytes) → s ≢ [] → is_empty s ≡ false
unfolding is_empty
is_empty_lem [] h = absurd (h refl)
is_empty_lem (x ∷ s) h = refl

-- An account that closes the first `sub` and opens another.
abbrev pub injected : Bytes → Bytes → Bytes
injected front name = front ++ (ascii "\",\"sub\":\"" ++ name)

injected_full : (front name : Bytes) → injected front name ≢ []
injected_full [] name e = absurd cc
injected_full (x ∷ front) name e = absurd cc

abbrev pub accepted : Bytes → AuthResult
accepted user = record { ok = true; user_id = user; err_msg = [] }

module _ (json : Json) (account : Bytes) (exp : ℕ) (user : Bytes)
    (read : IsRead json account exp user) where
  check_header-header_json : check_header json (base64_url_encode header_json) ≡ none
  check_header-header_json =
      let t = base64_decode-base64_url_encode header_json header_json-IsBytes in
      let (v, f, g) = read.alg in
      unfold check_header is_hs256 in
      ground (arith, t, read.reads_header, f, g, bytes_beq_refl (ascii "HS256"))

  read_payload-payload_json :
      (now : ℕ)
      → read_payload json now (payload_json account exp)
        ≡ (if signed_lt exp now then failed (ascii "token expired") else accepted user)
  read_payload-payload_json now =
      let (v, f, g) = read.exp_field in
      let (w, i, k) = read.sub in
      unfold read_payload check_exp check_nbf read_user in
      ground (arith, read.reads_payload, f, g, read.no_nbf, i, k)

module _ (json : Json) (hmac : Bytes → Bytes → Bytes) (secret : Bytes) (ttl : ℕ) where
  split_token :
      (h p sig : Bytes)
      → IsBytes h
      → IsBytes p
      → (split_dot (base64_url_encode h ++ (b'.' ∷ base64_url_encode p ++ (b'.' ∷ sig)))
          ≡ some (base64_url_encode h, base64_url_encode p ++ (b'.' ∷ sig)))
        × (split_dot (base64_url_encode p ++ (b'.' ∷ sig)) ≡ some (base64_url_encode p, sig))
  split_token h p sig hb pb = (
    split_dot-append (base64_url_encode h) (base64_url_encode p ++ (b'.' ∷ sig))
        (base64_url_encode-HasNoDot h hb),
    split_dot-append (base64_url_encode p) sig (base64_url_encode-HasNoDot p pb),
  )

  -- With a secret that is not empty, and an account whose payload the JSON library reads as a token
  -- of `user` with that expiry, the provider accepts the token issued for the account as `user`'s
  -- while the clock is not past the expiry, `ttl` after the issue, and says that it has expired from
  -- then on.
  pub verify-sign_jwt :
      (account user : Bytes) (issued_at now : ℕ)
      → IsBytes account
      → secret ≢ []
      → ((key text : Bytes) → IsBytes (hmac key text))
      → IsRead json account (add64 issued_at ttl) user
      → verify json hmac secret now (sign_jwt hmac secret ttl issued_at account) ≡ (
          if signed_lt (add64 issued_at ttl) now
          then failed (ascii "token expired")
          else accepted user)
  verify-sign_jwt account user issued_at now ab full mac read =
      let exp = add64 issued_at ttl in
      let payload = payload_json account exp in
      let pb = payload_json-IsBytes account exp ab in
      let input = base64_url_encode header_json ++ (b'.' ∷ base64_url_encode payload) in
      let sig = base64_url_encode (hmac secret input) in
      let split = split_token header_json payload sig header_json-IsBytes pb in
      let c = check_header-header_json json account exp user read in
      let first : verify json hmac secret now (sign_jwt hmac secret ttl issued_at account)
          ≡ verify_signed json hmac secret now (base64_url_encode header_json)
              (base64_url_encode payload) sig =
        unfold verify sign_jwt in ground (arith, split.0, split.1, c) in
      let second : verify_signed json hmac secret now (base64_url_encode header_json)
            (base64_url_encode payload) sig
          ≡ read_payload json now payload =
        let s = base64_decode-base64_url_encode (hmac secret input) (mac secret input) in
        let p = base64_decode-base64_url_encode payload pb in
        let e = is_empty_lem secret full in
        unfold verify_signed in ground (arith, s, p, e, bytes_beq_refl (hmac secret input)) in
      first ∙ second ∙ read_payload-payload_json json account exp user read now

  on_apply_token_issued :
      (issued_at : ℕ) (account : Bytes)
      → account ≢ []
      → length account ≤ max_account_len
      → on_apply_token hmac secret ttl issued_at (some account)
        ≡ some (issued (sign_jwt hmac secret ttl issued_at account))
  on_apply_token_issued issued_at account full small =
      let e = is_empty_lem account full in unfold on_apply_token in ground (arith, e)

  -- An account that holds `","sub":"` and then a name gets a token, unless it is over 64 bytes, and
  -- where the JSON library reads the later `sub`, as it does, the provider accepts that token as the
  -- named user's: whoever asks for the account is that user.
  pub injected_subject :
      (front name : Bytes) (issued_at now : ℕ)
      → IsBytes front
      → IsBytes name
      → secret ≢ []
      → ((key text : Bytes) → IsBytes (hmac key text))
      → length (injected front name) ≤ max_account_len
      → IsRead json (injected front name) (add64 issued_at ttl) name
      → signed_lt (add64 issued_at ttl) now ≡ false
      → (token : Bytes) × (on_apply_token hmac secret ttl issued_at (some (injected front name))
          ≡ some (issued token))
        × (verify json hmac secret now token ≡ accepted name)
  injected_subject front name issued_at now fb nb full mac small read early =
      let account = injected front name in
      (
        sign_jwt hmac secret ttl issued_at account,
        on_apply_token_issued issued_at account (injected_full front name) small,
        verify-sign_jwt account name issued_at now
              (append-IsBytes front (ascii "\",\"sub\":\"" ++ name) fb (
                append-IsBytes (ascii "\",\"sub\":\"") name
                  (are_bytes_lem (ascii "\",\"sub\":\"") (unfold are_bytes in refl)) nb))
              full mac read
            ∙ rw (early) refl,
      )
