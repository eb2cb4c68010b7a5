-- ===== src/ConnectionPool.antt =====
-- server/dbproxy/MySQLConnectionPool.h and MySQLConnectionPool.cpp. A connection is the number of
-- its object, which is not used again. A function is what a thread does from taking the mutex to
-- letting it go; whether connecting, `ping` and `reconnect` succeed, and whether a wait times out,
-- are arguments. `freed` records the objects that were deleted.
pub mod Steps
pub mod Counts
pub mod Invariant
use tg_chat_server.Prelude.{
  ℕ, suc, ◌+◌, ◌-◌, ◌≡◌, Bool, true, false, Option, none, some, List, [], ◌∷◌, ◌++◌, length, ltb,
  nat_beq, if◌then◌else◌,
}

pub record ConnectionPool : Type 0 where
  pub max_pool_size : ℕ
  pub idle : List ℕ
  pub all : List ℕ
  pub active_count : ℕ
  pub creating : ℕ
  pub shut_down : Bool
  pub freed : List ℕ

-- Where `acquire` stands when it lets the mutex go: it returns, it connects, or it waits.
pub data Progress : Type 0 where
  returns : Option ℕ → Progress
  connects waits : Progress

-- The constructor, with what each of the `createOne` calls gave.
unfoldable pub new_pool : ℕ → List (Option ℕ) → ConnectionPool
new_pool max_size [] = record {
  max_pool_size = max_size;
  idle = [];
  all = [];
  active_count = 0;
  creating = 0;
  shut_down = false;
  freed = [];
}
new_pool max_size (none ∷ rest) = new_pool max_size rest
new_pool max_size (some c ∷ rest) =
    let p = new_pool max_size rest in record p { idle = c ∷ p.idle; all = c ∷ p.all }

-- From the head of the loop of `acquire` on.
unfoldable pub look : ConnectionPool → ConnectionPool × Progress
look p = if p.shut_down then (p, returns none) else elim p.idle [
  | c ∷ rest ↦ (record p { idle = rest; active_count = p.active_count + 1 }, returns (some c))
  | [] ↦
      if ltb (length p.all + p.creating) p.max_pool_size
      then (record p { creating = p.creating + 1 }, connects)
      else (p, waits)
]

-- After `createOne`.
unfoldable pub connected : ConnectionPool → Option ℕ → ConnectionPool × Progress
unfolding look
connected p none = (record p { creating = p.creating - 1 }, waits)
connected p (some c) =
    let q = record p { creating = p.creating - 1 } in
    if p.shut_down
    then (record q { freed = c ∷ p.freed }, returns none)
    else look (record q { all = p.all ++ c ∷ []; idle = p.idle ++ c ∷ [] })

-- After the wait.
unfoldable pub woken : ConnectionPool → (timed_out : Bool) → ConnectionPool × Progress
unfolding look
woken p timed_out = if timed_out then (p, returns none) else look p

unfoldable pub release : ConnectionPool → ℕ → ConnectionPool
release p c =
    if p.shut_down
    then record p { freed = c ∷ p.freed }
    else record p { active_count = p.active_count - 1; idle = p.idle ++ c ∷ [] }

-- `healthCheck` takes the idle connections, drops those that are gone, and puts the rest back.
unfoldable pub take_idle : ConnectionPool → ConnectionPool × List ℕ
take_idle p = (record p { idle = [] }, p.idle)

-- `all_.erase(std::find(…))`
unfoldable pub remove_first : ℕ → List ℕ → List ℕ
remove_first c [] = []
remove_first c (x ∷ xs) = let rest = remove_first c xs in if nat_beq x c then xs else x ∷ rest

unfoldable pub drop_dead : ConnectionPool → ℕ → ConnectionPool
unfolding remove_first
drop_dead p c = record p { all = remove_first c p.all; freed = c ∷ p.freed }

unfoldable pub put_back : ConnectionPool → List ℕ → ConnectionPool
put_back p healthy = record p { idle = p.idle ++ healthy }

unfoldable pub shutdown : ConnectionPool → ConnectionPool
shutdown p =
    if p.shut_down
    then p
    else record p { shut_down = true; freed = p.all ++ p.freed; all = []; idle = [] }

unfoldable pub idle_count : ConnectionPool → ℕ
idle_count p = length p.idle

unfoldable pub active_connections : ConnectionPool → ℕ
active_connections p = p.active_count
