-- ===== src/ConnectionPool/Steps.antt =====
-- The pool with the threads that use it: the connections that are lent, and those that a health
-- check has taken. Any number of threads acquire, release, check and shut down, one step after
-- another.
use tg_chat_server.Prelude.{ℕ, ◌≡◌, ◌≤◌, Bool, none, some, List, [], ◌∷◌, ◌++◌}
use tg_chat_server.ConnectionPool.{
  ConnectionPool, Progress, returns, connects, waits, look, connected, woken, release, take_idle,
  remove_first, drop_dead, put_back,
}
use tg_chat_server.ConnectionPool.Counts.{count}

pub record System : Type 0 where
  pub pool : ConnectionPool
  pub lent : List ℕ
  pub checked : List ℕ

-- What `acquire` returns is lent.
abbrev pub lend : Progress → List ℕ → List ℕ
lend (returns (some c)) lent = c ∷ lent
lend (returns none) lent = lent
lend connects lent = lent
lend waits lent = lent

abbrev pub after : System → ConnectionPool × Progress → System
after s q = record s { pool = q.0; lent = lend q.1 s.lent }

-- A connection that was not there before.
abbrev pub Fresh : ℕ → System → Type 0
Fresh c s =
    (count c s.pool.all ≡ 0)
    × (count c s.pool.freed ≡ 0)
    × (count c s.pool.idle ≡ 0)
    × (count c s.lent ≡ 0)
    × (count c s.checked ≡ 0)

-- A thread that connects or waits is one of those that `creating` counts.
pub data Step (s : System) : System → Type 0 where
  looks : Step s (after s (look s.pool))
  fails_to_connect : 1 ≤ s.pool.creating → Step s (after s (connected s.pool none))
  connects_to :
      (c : ℕ) → 1 ≤ s.pool.creating → Fresh c s → Step s (after s (connected s.pool (some c)))
  wakes : (timed_out : Bool) → Step s (after s (woken s.pool timed_out))
  releases :
      (c : ℕ)
      → 1 ≤ count c s.lent
      → Step s (record s { pool = release s.pool c; lent = remove_first c s.lent })
  takes :
      Step s (record s { pool = (take_idle s.pool).0; checked = s.checked ++ (take_idle s.pool).1 })
  drops :
      (c : ℕ)
      → 1 ≤ count c s.checked
      → Step s (record s { pool = drop_dead s.pool c; checked = remove_first c s.checked })
  puts_back :
      (c : ℕ)
      → 1 ≤ count c s.checked
      → Step s (record s { pool = put_back s.pool (c ∷ []); checked = remove_first c s.checked })

-- The states up to a shutdown.
pub data Reach (s : System) : System → Type 0 where
  here : Reach s s
  next : {t u : System} → Reach s t → Step t u → Reach s u
