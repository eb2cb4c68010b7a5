-- ===== src/Base64/RoundTrip.antt =====
-- What is encoded is decoded again.
use tg_chat_server.Prelude.{
  ℕ, ◌+◌, ◌-◌, ◌*◌, ◌/◌, ◌%◌, ◌<◌, ◌≡◌, refl, ap, ap₂, ◌∙◌, inl, inr, arith, false, [], ◌∷◌, ◌++◌,
  length, nat_beq, map, replicate, List-cases,
}
use tg_chat_server.Base64.{
  Bytes, encode_char, encode_groups, to_url, from_url, strip, pad, pad_char, decode_groups,
  second_byte, third_byte, base64_url_encode, base64_decode,
}
use tg_chat_server.Base64.Table.{lt-IsCode}

abbrev pub IsBytes : Bytes → Type 0
IsBytes [] = Unit {0}
IsBytes (x ∷ rest) = (x < 256) × IsBytes rest

strip-cons : (x : ℕ) (t : Bytes) → nat_beq x pad_char ≡ false → strip (x ∷ t) ≡ x ∷ strip t
strip-cons x t e = elim (List-cases (strip t)) [
  | inl s ↦ unfold strip in rw (strip, s, e) refl
  | inr (y, ys, s) ↦ unfold strip in rw (strip, s) refl
]

pad_four : (w x y z : ℕ) (t : Bytes) → pad (w ∷ x ∷ y ∷ z ∷ t) ≡ w ∷ x ∷ y ∷ z ∷ pad t
unfolding pad
pad_four w x y z t =
    let e : (4 - length (w ∷ x ∷ y ∷ z ∷ t) % 4) % 4 ≡ (4 - length t % 4) % 4 = omega arith in
    ap (λ n. w ∷ x ∷ y ∷ z ∷ (t ++ replicate n pad_char)) e

-- What the decoder makes of the encoder's text before it decodes.
abbrev restored : Bytes → Bytes
restored g = pad (map from_url (strip (map to_url g)))

module _ (v w : ℕ) (p : v < 64) (q : w < 64) where
  -- The characters of two values, with what follows them.
  strip_two :
      (t : Bytes)
      → map from_url (strip (to_url (encode_char v) ∷ to_url (encode_char w) ∷ t))
        ≡ encode_char v ∷ encode_char w ∷ map from_url (strip t)
  strip_two t =
      let a = lt-IsCode v p in
      let b = lt-IsCode w q in
      ap (map from_url) (
        strip-cons (to_url (encode_char v)) (to_url (encode_char w) ∷ t) a.no_url_pad
        ∙ ap (◌∷◌ (to_url (encode_char v))) (strip-cons (to_url (encode_char w)) t b.no_url_pad))
      ∙ ap₂ (λ x y. x ∷ y ∷ map from_url (strip t)) a.from b.from

strip_one :
    (v : ℕ) (t : Bytes)
    → v < 64
    → map from_url (strip (to_url (encode_char v) ∷ t)) ≡ encode_char v ∷ map from_url (strip t)
strip_one v t p =
    let a = lt-IsCode v p in
    ap (map from_url) (strip-cons (to_url (encode_char v)) t a.no_url_pad)
    ∙ ap (λ x. x ∷ map from_url (strip t)) a.from

restored_group :
    (v w y z : ℕ) (t : Bytes)
    → v < 64
    → w < 64
    → y < 64
    → z < 64
    → restored (encode_char v ∷ encode_char w ∷ encode_char y ∷ encode_char z ∷ t)
      ≡ encode_char v ∷ encode_char w ∷ encode_char y ∷ encode_char z ∷ restored t
restored_group v w y z t hv hw hy hz =
    ap pad (
      strip_two v w hv hw (to_url (encode_char y) ∷ to_url (encode_char z) ∷ map to_url t)
      ∙ ap (λ u. encode_char v ∷ encode_char w ∷ u) (strip_two y z hy hz (map to_url t)))
    ∙ pad_four (encode_char v) (encode_char w) (encode_char y) (encode_char z)
        (map from_url (strip (map to_url t)))

restored_lem : (xs : Bytes) → IsBytes xs → restored (encode_groups xs) ≡ encode_groups xs
unfolding encode_groups
restored_lem [] h = unfold strip pad in refl
restored_lem (a ∷ []) (p, h) =
    ap pad (
      strip_two (a / 4) (a % 4 * 16) (omega arith) (omega arith)
        (to_url pad_char ∷ to_url pad_char ∷ []))
    ∙ (unfold strip pad to_url in refl)
restored_lem (a ∷ b ∷ []) (p, (q, h)) =
    ap pad (
      strip_two (a / 4) (a % 4 * 16 + b / 16) (omega arith) (omega arith)
        (to_url (encode_char (b % 16 * 4)) ∷ to_url pad_char ∷ [])
      ∙ ap (λ t. encode_char (a / 4) ∷ encode_char (a % 4 * 16 + b / 16) ∷ t)
          (strip_one (b % 16 * 4) (to_url pad_char ∷ []) (omega arith)))
    ∙ (unfold strip pad to_url in refl)
restored_lem (a ∷ b ∷ c ∷ rest) (p, (q, (r, h))) =
    restored_group (a / 4) (a % 4 * 16 + b / 16) (b % 16 * 4 + c / 64) (c % 64) (encode_groups rest)
      (omega arith) (omega arith) (omega arith) (omega arith)
    ∙ ap
        (λ t.
          encode_char (a / 4)
          ∷ encode_char (a % 4 * 16 + b / 16)
          ∷ encode_char (b % 16 * 4 + c / 64)
          ∷ encode_char (c % 64)
          ∷ t)
        (restored_lem rest h)

decode_group :
    (a b c : ℕ) (t : Bytes)
    → a < 256
    → b < 256
    → c < 256
    → decode_groups (
        encode_char (a / 4)
        ∷ encode_char (a % 4 * 16 + b / 16)
        ∷ encode_char (b % 16 * 4 + c / 64)
        ∷ encode_char (c % 64)
        ∷ t)
      ≡ a ∷ b ∷ c ∷ decode_groups t
decode_group a b c t p q r =
    let v = lt-IsCode (a / 4) (omega arith) in
    let w = lt-IsCode (a % 4 * 16 + b / 16) (omega arith) in
    let y = lt-IsCode (b % 16 * 4 + c / 64) (omega arith) in
    let z = lt-IsCode (c % 64) (omega arith) in
    let e : (a / 4 * 4 + (a % 4 * 16 + b / 16) / 16) % 256 ≡ a = omega arith in
    let f : (a % 4 * 16 + b / 16) % 16 * 16 + (b % 16 * 4 + c / 64) / 4 ≡ b = omega arith in
    let g : (b % 16 * 4 + c / 64) % 4 * 64 + c % 64 ≡ c = omega arith in
    unfold decode_groups second_byte third_byte in
    rw (decode_groups, v.value, w.value, y.value, z.value, y.no_pad, z.no_pad)
      (ap₂ (λ s u. s ∷ u) e (ap₂ (λ s u. s ∷ u) f (ap (λ s. s ∷ decode_groups t) g)))

decode_groups-encode_groups : (xs : Bytes) → IsBytes xs → decode_groups (encode_groups xs) ≡ xs
unfolding encode_groups
decode_groups-encode_groups [] h = unfold decode_groups in refl
decode_groups-encode_groups (a ∷ []) (p, h) =
    let v = lt-IsCode (a / 4) (omega arith) in
    let w = lt-IsCode (a % 4 * 16) (omega arith) in
    let e : (a / 4 * 4 + a % 4 * 16 / 16) % 256 ≡ a = omega arith in
    unfold decode_groups in rw (decode_groups, v.value, w.value) (ap (λ x. x ∷ []) e)
decode_groups-encode_groups (a ∷ b ∷ []) (p, (q, h)) =
    let v = lt-IsCode (a / 4) (omega arith) in
    let w = lt-IsCode (a % 4 * 16 + b / 16) (omega arith) in
    let y = lt-IsCode (b % 16 * 4) (omega arith) in
    let e : (a / 4 * 4 + (a % 4 * 16 + b / 16) / 16) % 256 ≡ a = omega arith in
    let f : (a % 4 * 16 + b / 16) % 16 * 16 + b % 16 * 4 / 4 ≡ b = omega arith in
    unfold decode_groups second_byte in
    rw (decode_groups, v.value, w.value, y.value, y.no_pad) (ap₂ (λ s t. s ∷ t ∷ []) e f)
decode_groups-encode_groups (a ∷ b ∷ c ∷ rest) (p, (q, (r, h))) =
    decode_group a b c (encode_groups rest) p q r
    ∙ ap (λ t. a ∷ b ∷ c ∷ t) (decode_groups-encode_groups rest h)

-- Bytes that are encoded for a URL, without padding, are decoded to themselves.
pub base64_decode-base64_url_encode :
    (xs : Bytes) → IsBytes xs → base64_decode (base64_url_encode xs) ≡ xs
unfolding base64_decode base64_url_encode
base64_decode-base64_url_encode xs h =
    ap decode_groups (restored_lem xs h) ∙ decode_groups-encode_groups xs h
