-- ===== src/Jwt/Signed.antt =====
-- `JwtAuthProvider::verify`: what an accepted token is.
use mathlib.Core.Path.{subst}
use tg_chat_server.Prelude.{
  ℕ, ◌≡◌, ◌≢◌, ◌⊎◌, refl, sym, ap, ◌∙◌, inl, inr, arith, true, false, none, some, [], ◌∷◌, ◌++◌,
  String, nat_beq_iff, Option-cases,
}
use tg_chat_server.Balancer.Smooth.{signed_lt}
use tg_chat_server.Base64.{Bytes, ascii, base64_decode}
use tg_chat_server.Jwt.{
  Json, split_dot, bytes_beq, is_empty, is_hs256, check_header, check_exp, check_nbf, accept_user,
  read_user, read_payload, verify_signed, verify,
}

pub bytes_beq_lem : (xs ys : Bytes) → bytes_beq xs ys ≡ true → xs ≡ ys
unfolding bytes_beq
bytes_beq_lem [] [] e = refl
bytes_beq_lem [] (y ∷ ys) e = absurd cc
bytes_beq_lem (x ∷ xs) [] e = absurd cc
bytes_beq_lem (x ∷ xs) (y ∷ ys) e = ground (arith, nat_beq_iff x y, bytes_beq_lem xs ys)

pub bytes_beq_refl : (xs : Bytes) → bytes_beq xs xs ≡ true
unfolding bytes_beq
bytes_beq_refl [] = refl
bytes_beq_refl (x ∷ xs) = ground (arith, nat_beq_iff x x, bytes_beq_refl xs)

pub split_dot_lem : (s : Bytes) (q : Bytes × Bytes) → split_dot s ≡ some q → s ≡ q.0 ++ (b'.' ∷ q.1)
unfolding split_dot
split_dot_lem [] q e = absurd cc
split_dot_lem (ch ∷ rest) q e =
    let ih = λ (r : Bytes × Bytes) (f : split_dot rest ≡ some r). split_dot_lem rest r f in
    elim (Option-cases (split_dot rest)) [
      | inl s ↦ ground (arith, nat_beq_iff ch b'.', s)
      | inr (r, s) ↦ ground (arith, nat_beq_iff ch b'.', s, ih r s)
    ]

-- What a text in a field says.
abbrev pub Says : (json : Json) → json.Value → String → Bytes → Type 0
Says json payload key text =
    (v : json.Value) × (json.field payload key ≡ some v) × (json.as_text v ≡ inr text)

-- A payload that lets `user` in at `now`.
pub record IsValid (json : Json) (now : ℕ) (payload : json.Value) (user : Bytes) : Type 0 where
  pub not_expired :
      (v : json.Value)
      → json.field payload "exp" ≡ some v
      → (exp : ℕ) × (json.as_int v ≡ inr exp) × (signed_lt exp now ≡ false)
  pub begun :
      (v : json.Value)
      → json.field payload "nbf" ≡ some v
      → (nbf : ℕ) × (json.as_int v ≡ inr nbf) × (signed_lt now nbf ≡ false)
  pub named :
      Says json payload "sub" user
      ⊎ ((json.field payload "sub" ≡ none) × Says json payload "user_id" user)

pub record IsSigned (json : Json) (hmac : Bytes → Bytes → Bytes) (secret : Bytes) (now : ℕ)
    (token user : Bytes) : Type 0 where
  pub header : Bytes
  pub payload : Bytes
  pub signature : Bytes
  pub parts : token ≡ header ++ (b'.' ∷ payload ++ (b'.' ∷ signature))
  pub has_secret : secret ≢ []
  pub mac : base64_decode signature ≡ hmac secret (header ++ (b'.' ∷ payload))
  pub alg :
      (v : json.Value) × (json.parse (base64_decode header) ≡ inr v)
      × Says json v "alg" (ascii "HS256")
  pub claims :
      (v : json.Value) × (json.parse (base64_decode payload) ≡ inr v) × IsValid json now v user

Sum-cases : {A B : Type 0} (s : A ⊎ B) → ((a : A) × (s ≡ inl a)) ⊎ ((b : B) × (s ≡ inr b))
Sum-cases (inl a) = inl (a, refl)
Sum-cases (inr b) = inr (b, refl)

module _ (json : Json) where
  check_header_lem :
      (h : Bytes)
      → check_header json h ≡ none
      → (v : json.Value) × (json.parse (base64_decode h) ≡ inr v)
        × Says json v "alg" (ascii "HS256")
  unfolding check_header is_hs256
  check_header_lem h e = elim (Sum-cases (json.parse (base64_decode h))) [
    | inl (what, s) ↦ ground (arith, s)
    | inr (v, s) ↦ elim (Option-cases (json.field v "alg")) [
      | inl f ↦ ground (arith, s, f)
      | inr (alg, f) ↦ elim (Sum-cases (json.as_text alg)) [
        | inl (what, t) ↦ ground (arith, s, f, t)
        | inr (text, t) ↦
            let b : bytes_beq text (ascii "HS256") ≡ true = ground (arith, s, f, t) in
            (v, s, (alg, f, t ∙ ap inr (bytes_beq_lem text (ascii "HS256") b)))
      ]
    ]
  ]

  module _ (now : ℕ) (payload : json.Value) where
    check_exp_lem :
        check_exp json now payload ≡ none
        → (v : json.Value) → json.field payload "exp" ≡ some v
        → (exp : ℕ) × (json.as_int v ≡ inr exp) × (signed_lt exp now ≡ false)
    unfolding check_exp
    check_exp_lem e v f = elim (Sum-cases (json.as_int v)) [
      | inl (what, s) ↦ absurd ground (arith, f, s)
      | inr (exp, s) ↦ (exp, s, ground (arith, f, s))
    ]

    check_nbf_lem :
        check_nbf json now payload ≡ none
        → (v : json.Value) → json.field payload "nbf" ≡ some v
        → (nbf : ℕ) × (json.as_int v ≡ inr nbf) × (signed_lt now nbf ≡ false)
    unfolding check_nbf
    check_nbf_lem e v f = elim (Sum-cases (json.as_int v)) [
      | inl (what, s) ↦ absurd ground (arith, f, s)
      | inr (nbf, s) ↦ (nbf, s, ground (arith, f, s))
    ]

  accept_user_lem :
      (v : json.Value)
      → (accept_user json v).ok ≡ true
      → json.as_text v ≡ inr (accept_user json v).user_id
  accept_user_lem v h = elim (Sum-cases (json.as_text v)) [
    | inl (what, s) ↦ absurd ground (arith, s)
    | inr (user, s) ↦ ground (arith, s)
  ]

  read_user_lem :
      (payload : json.Value)
      → (read_user json payload).ok ≡ true
      → Says json payload "sub" (read_user json payload).user_id
        ⊎ ((json.field payload "sub" ≡ none)
            × Says json payload "user_id" (read_user json payload).user_id)
  unfolding read_user
  read_user_lem payload h = elim (Option-cases (json.field payload "sub")) [
    | inr (v, f) ↦
        let e : read_user json payload ≡ accept_user json v = ground (arith, f) in
        inl (v, f, accept_user_lem v (ap (λ r. r.ok) (sym e) ∙ h) ∙ ap (λ r. inr r.user_id) (sym e))
    | inl f ↦ elim (Option-cases (json.field payload "user_id")) [
      | inl g ↦ absurd ground (arith, f, g)
      | inr (v, g) ↦
          let e : read_user json payload ≡ accept_user json v = ground (arith, f, g) in
          inr (
            f,
            (
              v,
              g,
              accept_user_lem v (ap (λ r. r.ok) (sym e) ∙ h) ∙ ap (λ r. inr r.user_id) (sym e),
            ),
          )
    ]
  ]

  read_payload_lem :
      (now : ℕ) (text : Bytes)
      → (read_payload json now text).ok ≡ true
      → (v : json.Value) × (json.parse text ≡ inr v)
        × IsValid json now v (read_payload json now text).user_id
  unfolding read_payload
  read_payload_lem now text h = elim (Sum-cases (json.parse text)) [
    | inl (what, s) ↦ absurd ground (arith, s)
    | inr (v, s) ↦ elim (Option-cases (check_exp json now v)) [
      | inr (m, x) ↦ absurd ground (arith, s, x)
      | inl x ↦ elim (Option-cases (check_nbf json now v)) [
        | inr (m, n) ↦ absurd ground (arith, s, x, n)
        | inl n ↦
            let e : read_payload json now text ≡ read_user json v = ground (arith, s, x, n) in
            let u = read_user_lem v (ap (λ r. r.ok) (sym e) ∙ h) in
            let valid : IsValid json now v (read_user json v).user_id = record {
              not_expired = check_exp_lem now v x;
              begun = check_nbf_lem now v n;
              named = u;
            } in
            (v, s, subst (λ r. IsValid json now v r.user_id) (sym e) valid)
      ]
    ]
  ]

module _ (json : Json) (hmac : Bytes → Bytes → Bytes) (secret : Bytes) where
  verify_signed_lem :
      (now : ℕ) (header payload signature : Bytes)
      → (verify_signed json hmac secret now header payload signature).ok ≡ true
      → (secret ≢ [])
        × (hmac secret (header ++ (b'.' ∷ payload)) ≡ base64_decode signature)
        × (verify_signed json hmac secret now header payload signature
            ≡ read_payload json now (base64_decode payload))
  unfolding verify_signed is_empty
  verify_signed_lem now header payload signature h =
      let mac =
        bytes_beq_lem (hmac secret (header ++ (b'.' ∷ payload))) (base64_decode signature) in
      let full : secret ≢ [] = λ e. ground (arith, e) in (full, ground (arith, mac), ground arith)

  -- A token that the provider accepts has three parts, of which the third is the HMAC of the first
  -- two under a secret that is not empty; the header names HS256; the payload is neither expired nor
  -- early at `now`, and names the user, as `sub` or, without a `sub`, as `user_id`.
  pub accepted-IsSigned :
      (now : ℕ) (token : Bytes)
      → (verify json hmac secret now token).ok ≡ true
      → IsSigned json hmac secret now token (verify json hmac secret now token).user_id
  unfolding verify
  accepted-IsSigned now token h = elim (Option-cases (split_dot token)) [
    | inl s ↦ absurd ground (arith, s)
    | inr ((header, rest), s) ↦ elim (Option-cases (split_dot rest)) [
      | inl t ↦ absurd ground (arith, s, t)
      | inr ((payload, signature), t) ↦ elim (Option-cases (check_header json header)) [
        | inr (m, c) ↦ absurd ground (arith, s, t, c)
        | inl c ↦
            let e : verify json hmac secret now token
                ≡ verify_signed json hmac secret now header payload signature =
              ground (arith, s, t, c) in
            let (full, mac, read) =
              verify_signed_lem now header payload signature (ap (λ r. r.ok) (sym e) ∙ h) in
            let claims =
              read_payload_lem json now (base64_decode payload)
                (ap (λ r. r.ok) (sym (e ∙ read)) ∙ h) in
            let signed : IsSigned json hmac secret now token
                (read_payload json now (base64_decode payload)).user_id =
              record {
                header = header;
                payload = payload;
                signature = signature;
                parts =
                    split_dot_lem token (header, rest) s
                    ∙ ap (λ r. header ++ (b'.' ∷ r)) (split_dot_lem rest (payload, signature) t);
                has_secret = full;
                mac = sym mac;
                alg = check_header_lem json header c;
                claims = claims;
              } in
            subst (λ r. IsSigned json hmac secret now token r.user_id) (sym (e ∙ read)) signed
      ]
    ]
  ]
