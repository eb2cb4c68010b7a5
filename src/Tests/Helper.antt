-- ===== src/Tests/Helper.antt =====
-- `IsTextUTF8` and `GenUID` at concrete inputs.
use tg_chat_server.Prelude.{◌≡◌, ◌↔◌, inl, inr, refl, arith, true, false, [], ◌∷◌, replicate}
use tg_chat_server.Utf8.{rest_of_char, scan, is_text_utf8}
use tg_chat_server.Utf8.Grammar.{IsText, all_ascii, is_text_utf8_lem}
use tg_chat_server.Uid.{UidState, exchange, reset, take_uid, gen_uid, gen_uids}
use tg_chat_server.Uid.Unique.{IsIncreasing, gen_uids-IsIncreasing, raced}

-- The letter b, then two bytes for an accented e.
is_text_utf8_lem_example :
    (is_text_utf8 (98 ∷ 0xC3 ∷ 0xA9 ∷ []) ≡ true)
    ↔ (IsText (98 ∷ 0xC3 ∷ 0xA9 ∷ []) × (all_ascii (98 ∷ 0xC3 ∷ 0xA9 ∷ []) ≡ false))
is_text_utf8_lem_example = is_text_utf8_lem (98 ∷ 0xC3 ∷ 0xA9 ∷ [])

utf8_runs :
    (is_text_utf8 (98 ∷ 0xC3 ∷ 0xA9 ∷ []) ≡ true)
    × (is_text_utf8 (98 ∷ []) ≡ false)
    × (is_text_utf8 (0xC3 ∷ []) ≡ false)
    × (is_text_utf8 (0xA9 ∷ []) ≡ false)
    × (is_text_utf8 (0xFF ∷ 0x80 ∷ 0x80 ∷ 0x80 ∷ 0x80 ∷ []) ≡ true)
unfolding is_text_utf8 scan rest_of_char
utf8_runs = (refl, refl, refl, refl, refl)

abbrev uids_at_4 : UidState
uids_at_4 = record { last_ms = 4; counter = 2 }

gen_uids-IsIncreasing_example : IsIncreasing 4002 (gen_uids (4 ∷ 5 ∷ 5 ∷ []) uids_at_4).0
gen_uids-IsIncreasing_example = gen_uids-IsIncreasing (4 ∷ 5 ∷ 5 ∷ []) uids_at_4 (omega arith) (
  omega arith,
  inr (
    refl,
    omega arith,
    (omega arith, inl (omega arith, (omega arith, inr (refl, omega arith, tt)))),
  ),
)

uid_runs :
    ((raced 5 uids_at_4).0 ≡ 5002)
    × ((raced 5 uids_at_4).1 ≡ 5000)
    × ((gen_uids (replicate 2 5) (raced 5 uids_at_4).2).0 ≡ 5001 ∷ 5002 ∷ [])
unfolding raced gen_uids gen_uid exchange reset take_uid
uid_runs = (refl, refl, refl)
