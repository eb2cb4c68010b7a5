-- ===== src/Base64.antt =====
-- `Helper::base64Decode` of server/common/Helper.cpp and `base64UrlEncode` of
-- server/account/AccountService.cpp. A string is the list of its bytes. Shifts and masks are divisions
-- and remainders, and `|` of numbers without a common bit is their sum.
pub mod Table
pub mod RoundTrip
use Prim.Native.Char.{code}
use tg_chat_server.Prelude.{
  ℕ, ◌+◌, ◌-◌, ◌*◌, ◌/◌, ◌%◌, Bool, true, false, Option, none, some, List, [], ◌∷◌, ◌++◌, String,
  length, nat_beq, leb, ◌&&◌, if◌then◌else◌, map, get_or, get_elem?, replicate,
}

abbrev pub Bytes : Type 0
Bytes = List ℕ

-- A literal of ASCII characters.
abbrev pub ascii : String → Bytes
ascii String.[] = []
ascii (String.◌∷◌ c s) = code c ∷ ascii s

-- `kTable`
abbrev pub table : Bytes
table = ascii "ABCDEFGHIJKLMNOPQRSTUVWXYZabcdefghijklmnopqrstuvwxyz0123456789+/"

abbrev pub pad_char : ℕ
pad_char = b'='

unfoldable pub encode_char : ℕ → ℕ
encode_char v = get_or table v 0

-- The loop over three bytes at a time.
unfoldable pub encode_groups : Bytes → Bytes
unfolding encode_char
encode_groups [] = []
encode_groups (a ∷ []) = encode_char (a / 4) ∷ encode_char (a % 4 * 16) ∷ pad_char ∷ pad_char ∷ []
encode_groups (a ∷ b ∷ []) =
    encode_char (a / 4)
    ∷ encode_char (a % 4 * 16 + b / 16)
    ∷ encode_char (b % 16 * 4)
    ∷ pad_char
    ∷ []
encode_groups (a ∷ b ∷ c ∷ rest) =
    encode_char (a / 4)
    ∷ encode_char (a % 4 * 16 + b / 16)
    ∷ encode_char (b % 16 * 4 + c / 64)
    ∷ encode_char (c % 64)
    ∷ encode_groups rest

-- Between the two alphabets: `+` and `/` are `-` and `_` in a URL.
unfoldable pub to_url : ℕ → ℕ
to_url ch = if nat_beq ch b'+' then b'-' else if nat_beq ch b'/' then b'_' else ch

unfoldable pub from_url : ℕ → ℕ
from_url ch = if nat_beq ch b'-' then b'+' else if nat_beq ch b'_' then b'/' else ch

-- `while (out.back() == '=') out.pop_back()`: what only padding follows ends the list.
unfoldable pub strip : Bytes → Bytes
strip [] = []
strip (ch ∷ rest) = elim (strip rest) [
  | [] ↦ if nat_beq ch pad_char then [] else ch ∷ []
  | d ∷ later ↦ ch ∷ d ∷ later
]

unfoldable pub base64_url_encode : Bytes → Bytes
unfolding encode_groups to_url strip
base64_url_encode input = strip (map to_url (encode_groups input))

-- Padding until the size is a multiple of four.
unfoldable pub pad : Bytes → Bytes
pad b64 = b64 ++ replicate ((4 - length b64 % 4) % 4) pad_char

-- `kDecodeTable`, none for -1. The array has 256 places, of which the last 128 are not given and so
-- are 0.
unfoldable pub decode_char : ℕ → Option ℕ
decode_char ch =
    if leb 128 ch
    then some 0
    else if leb b'A' ch && leb ch b'Z'
    then some (ch - b'A')
    else if leb b'a' ch && leb ch b'z'
    then some (ch - b'a' + 26)
    else if leb b'0' ch && leb ch b'9'
    then some (ch - b'0' + 52)
    else if nat_beq ch b'+'
    then some 62
    else if nat_beq ch b'/'
    then some 63
    else none

-- The second and the third byte of a group; -1 has all bits.
unfoldable pub second_byte : ℕ → Option ℕ → ℕ
second_byte b none = 255
second_byte b (some c) = b % 16 * 16 + c / 4

unfoldable pub third_byte : Option ℕ → Option ℕ → ℕ
third_byte c none = 255
third_byte none (some d) = 192 + d
third_byte (some c) (some d) = c % 4 * 64 + d

unfoldable pub decode_groups : Bytes → Bytes
unfolding decode_char second_byte third_byte
decode_groups [] = []
decode_groups (w ∷ []) = []
decode_groups (w ∷ x ∷ []) = []
decode_groups (w ∷ x ∷ y ∷ []) = []
decode_groups (w ∷ x ∷ y ∷ z ∷ rest) =
    let later = decode_groups rest in
    elim (decode_char w) [
      | none ↦ []
      | some a ↦ elim (decode_char x) [
        | none ↦ []
        | some b ↦
            (a * 4 + b / 16) % 256 ∷ []
            ++ (if nat_beq y pad_char then [] else second_byte b (decode_char y) ∷ [])
            ++ (if nat_beq z pad_char then [] else third_byte (decode_char y) (decode_char z) ∷ [])
            ++ later
      ]
    ]

unfoldable pub base64_decode : Bytes → Bytes
unfolding from_url pad decode_groups
base64_decode input = decode_groups (pad (map from_url input))
