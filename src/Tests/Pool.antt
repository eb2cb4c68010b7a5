-- ===== src/Tests/Pool.antt =====
-- server/dbproxy/MySQLConnectionPool.cpp at concrete inputs.
use tg_chat_server.Prelude.{ℕ, ◌+◌, ◌≤◌, ◌≡◌, arith, none, some, [], ◌∷◌, length}
use tg_chat_server.ConnectionPool.{new_pool, look, release, shutdown}
use tg_chat_server.ConnectionPool.Counts.{count}
use tg_chat_server.ConnectionPool.Steps.{System, after, looks, Reach, here, next}
use tg_chat_server.ConnectionPool.Invariant.{started, Reach-exclusive, release-shutdown}

-- Two of three connections could be opened; one is acquired.
abbrev one_lent : System
one_lent =
    after (started 3 (some 7 ∷ none ∷ some 9 ∷ []))
      (look (new_pool 3 (some 7 ∷ none ∷ some 9 ∷ [])))

one_lent-Reach : Reach (started 3 (some 7 ∷ none ∷ some 9 ∷ [])) one_lent
one_lent-Reach = next here looks

opened_once : (c : ℕ) → count c (7 ∷ 9 ∷ []) ≤ 1
opened_once c = ground arith

Reach-exclusive_example :
    (count 7 one_lent.lent
        + count 7 one_lent.pool.idle
        + count 7 one_lent.checked
        + count 7 one_lent.pool.freed
      ≤ 1)
    × (one_lent.pool.active_count ≡ length one_lent.lent)
    × (length one_lent.pool.all + one_lent.pool.creating ≤ one_lent.pool.max_pool_size)
Reach-exclusive_example =
    Reach-exclusive 3 (some 7 ∷ none ∷ some 9 ∷ []) opened_once (omega arith) one_lent-Reach 7

release-shutdown_example : count 7 (release (shutdown one_lent.pool) 7).freed ≡ 2
unfolding look new_pool
release-shutdown_example =
    release-shutdown 3 (some 7 ∷ none ∷ some 9 ∷ []) opened_once (omega arith) one_lent-Reach 7
      (omega arith)
