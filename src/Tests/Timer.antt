-- ===== src/Tests/Timer.antt =====
-- server/common/Timer.cpp at concrete inputs.
use tg_chat_server.Prelude.{◌≡◌, refl, nat_key}
use tg_chat_server.Timer.{Timer, new_timer, run_every, turn, emplace, earliest, runs, waits_until}
use tg_chat_server.Timer.Due.{Chooses, turn-Chooses}

abbrev two_tasks : Timer
two_tasks = (run_every (run_every new_timer 50 1 0).0 20 2 0).0

-- The second task is the first that is due.
two_tasks_wait : (turn two_tasks 10).1 ≡ waits_until 20
unfolding turn run_every emplace earliest
two_tasks_wait = refl

two_tasks_run : (turn two_tasks 25).1 ≡ runs 2
unfolding turn run_every emplace earliest
two_tasks_run = refl

turn-Chooses_example : Chooses two_tasks 25 (turn two_tasks 25)
unfolding run_every
turn-Chooses_example = turn-Chooses two_tasks 25 refl

-- The second task while its callback runs.
abbrev running : Timer
running = (turn two_tasks 25).0
