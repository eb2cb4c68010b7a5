-- ===== src/Tests/Ring.antt =====
-- The ring buffer of server/core/shm at concrete inputs.
use tg_chat_server.Prelude.{ℕ, ◌≡◌, refl, arith, true, false, some, List, [], ◌∷◌}
use tg_chat_server.Ring.{Ring, init_shm}
use tg_chat_server.Ring.Bounds.{IsValid}
use tg_chat_server.Ring.Contents.{contents}
use tg_chat_server.Ring.Spec.{
  Call, pushes, pushes_front, pushes_one, pops, peeks, discards, pops_one, flag, read, spec, calls,
  specs,
}
use tg_chat_server.Ring.Refinement.{calls-init_shm}

abbrev zeros : List ℕ
zeros = 0 ∷ 0 ∷ 0 ∷ 0 ∷ []

abbrev session : List (Call ℕ)
session =
    pushes (1 ∷ 2 ∷ 3 ∷ [])
    ∷ pops 2
    ∷ pushes (4 ∷ 5 ∷ [])
    ∷ pushes_one 6
    ∷ peeks 3
    ∷ pops_one
    ∷ pushes_front (9 ∷ [])
    ∷ discards 1
    ∷ pops 2
    ∷ []

-- Elements wrap round the end of the array, and the fourth does not fit.
session_replies :
    (specs 3 [] session).1
    ≡ flag true
      ∷ read (some (1 ∷ 2 ∷ []))
      ∷ flag true
      ∷ flag false
      ∷ read (some (3 ∷ 4 ∷ 5 ∷ []))
      ∷ read (some (3 ∷ []))
      ∷ flag true
      ∷ flag true
      ∷ read (some (4 ∷ 5 ∷ []))
      ∷ []
unfolding specs spec
session_replies = refl

calls-init_shm_example :
    ((calls (init_shm 4 zeros) session).1 ≡ (specs 3 [] session).1)
    × (contents (calls (init_shm 4 zeros) session).0 ≡ (specs 3 [] session).0)
calls-init_shm_example = calls-init_shm 3 zeros session (omega arith) refl

-- Three elements that run over the end of the array.
abbrev wrapped : Ring ℕ
wrapped = record { head = 3; tail = 2; ring_size = 4; buffer = 20 ∷ 30 ∷ 0 ∷ 10 ∷ [] }

wrapped-IsValid : IsValid wrapped
wrapped-IsValid = record {
  head_in = omega arith;
  tail_in = omega arith;
  whole = refl;
  fits = omega arith;
}
