-- ===== src/Uid.antt =====
-- `Helper::GenUID` of server/common/Helper.cpp: the parts of a call that other threads' calls can come
-- between, and the whole call. An `int64_t` is its 64 bits.
pub mod Unique
use tg_chat_server.Prelude.{ℕ, ◌*◌, ◌%◌, ◌^◌, List, [], ◌∷◌, if◌then◌else◌, add64}
use tg_chat_server.Balancer.Smooth.{signed_lt}

-- The two atomic variables.
pub record UidState : Type 0 where
  pub last_ms : ℕ
  pub counter : ℕ

abbrev pub no_uids : UidState
no_uids = record { last_ms = 0; counter = 0 }

-- The loop of the exchange, with the value that it replaced.
unfoldable pub exchange : ℕ → UidState → ℕ × UidState
exchange now_ms s = (s.last_ms, record s { last_ms = now_ms })

unfoldable pub reset : ℕ → ℕ → UidState → UidState
reset now_ms base s = if signed_lt base now_ms then record s { counter = 0 } else s

unfoldable pub take_uid : ℕ → UidState → ℕ × UidState
take_uid now_ms s =
    (add64 (now_ms * 1000 % 2 ^ 64) s.counter, record s { counter = add64 s.counter 1 })

unfoldable pub gen_uid : ℕ → UidState → ℕ × UidState
unfolding exchange reset take_uid
gen_uid now_ms s =
    let swapped = exchange now_ms s in take_uid now_ms (reset now_ms swapped.0 swapped.1)

-- Calls one after another, at what the clock says at each.
unfoldable pub gen_uids : List ℕ → UidState → List ℕ × UidState
unfolding gen_uid
gen_uids [] s = ([], s)
gen_uids (now_ms ∷ rest) s =
    let one = gen_uid now_ms s in let others = gen_uids rest one.1 in (one.0 ∷ others.0, others.1)
