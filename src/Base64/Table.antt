-- ===== src/Base64/Table.antt =====
-- The 64 characters of the table, one by one.
use tg_chat_server.Prelude.{
  ℕ, zero, suc, ◌<◌, ◌≡◌, refl, arith, Bool, true, false, not, ◌&&◌, Option, none, some, nat_beq,
}
use tg_chat_server.Base64.{encode_char, to_url, from_url, decode_char, pad_char}

abbrev is_value : ℕ → Option ℕ → Bool
is_value v none = false
is_value v (some w) = nat_beq w v

-- A character of the table is no padding and no dot in a URL, comes back from there, and stands for
-- its place.
abbrev is_good : ℕ → Bool
is_good v =
    let ch = encode_char v in
    nat_beq (from_url (to_url ch)) ch
    && (not (nat_beq ch pad_char)
        && (not (nat_beq (to_url ch) pad_char)
            && (not (nat_beq (to_url ch) b'.') && is_value v (decode_char ch))))

all_good : ℕ → Bool
all_good zero = true
all_good (suc n) = is_good n && all_good n

all_good_lem : (n v : ℕ) → all_good n ≡ true → v < n → is_good v ≡ true
unfolding all_good
all_good_lem zero v e h = absurd (omega arith)
all_good_lem (suc n) v e h = ground (arith, all_good_lem n v)

table_good : all_good 64 ≡ true
unfolding all_good encode_char to_url from_url decode_char
table_good = refl

is_value_lem : (v : ℕ) (o : Option ℕ) → is_value v o ≡ true → o ≡ some v
is_value_lem v none e = absurd cc
is_value_lem v (some w) e = ground arith

pub record IsCode (v : ℕ) : Type 0 where
  pub from : from_url (to_url (encode_char v)) ≡ encode_char v
  pub no_pad : nat_beq (encode_char v) pad_char ≡ false
  pub no_url_pad : nat_beq (to_url (encode_char v)) pad_char ≡ false
  pub no_dot : nat_beq (to_url (encode_char v)) b'.' ≡ false
  pub value : decode_char (encode_char v) ≡ some v

pub lt-IsCode : (v : ℕ) → v < 64 → IsCode v
lt-IsCode v h =
    let g = all_good_lem 64 v table_good h in
    record {
      from = ground (arith, g);
      no_pad = ground (arith, g);
      no_url_pad = ground (arith, g);
      no_dot = ground (arith, g);
      value = is_value_lem v (decode_char (encode_char v)) (ground (arith, g));
    }
