-- ===== src/Utf8.antt =====
-- `Helper::IsTextUTF8` of server/common/Helper.cpp. A string is the list of its bytes.
pub mod Grammar
use tg_chat_server.Prelude.{
  ℕ, zero, suc, ◌+◌, ◌-◌, ◌≤◌, Bool, true, false, not, List, [], ◌∷◌, leb, ltb, ◌&&◌, if◌then◌else◌,
  Option, none, some,
}

-- What a first byte makes of `nBytes`, none where it is refused.
unfoldable pub rest_of_char : ℕ → Option ℕ
rest_of_char chr =
    if ltb chr 0x80
    then some 0
    else if leb 0xFC chr && leb chr 0xFD
    then some 5
    else if leb 0xF8 chr
    then some 4
    else if leb 0xF0 chr
    then some 3
    else if leb 0xE0 chr
    then some 2
    else if leb 0xC0 chr
    then some 1
    else none

-- `(chr & 0xC0) == 0x80`
abbrev pub continues : ℕ → Bool
continues chr = leb 0x80 chr && ltb chr 0xC0

-- The loop, from `nBytes` and `bAllAscii`, and the two tests after it.
unfoldable pub scan : List ℕ → ℕ → Bool → Bool
unfolding rest_of_char
scan [] zero all_ascii = not all_ascii
scan [] (suc n) all_ascii = false
scan (chr ∷ rest) zero all_ascii = elim (rest_of_char chr) [
  | none ↦ false
  | some n ↦ scan rest n (all_ascii && ltb chr 0x80)
]
scan (chr ∷ rest) (suc n) all_ascii =
    let later = scan rest n (all_ascii && ltb chr 0x80) in if continues chr then later else false

unfoldable pub is_text_utf8 : List ℕ → Bool
unfolding scan
is_text_utf8 str = scan str 0 true
