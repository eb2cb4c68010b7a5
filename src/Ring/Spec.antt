-- ===== src/Ring/Spec.antt =====
-- The bounded queue that a ring buffer implements, and its calls one after another.
use tg_chat_server.Prelude.{
  ℕ, ◌+◌, Bool, true, false, Option, none, some, List, [], ◌∷◌, ◌++◌, length, take, drop, leb,
  nat_beq, if◌then◌else◌,
}
use tg_chat_server.Ring.{Ring, push, push_one, push_front, pop, pop_one, peek, discard, reset}

-- One call of a method, with what its caller passes.
pub data Call (A : Type 0) : Type 0 where
  pushes pushes_front : List A → Call A
  pushes_one : A → Call A
  pops peeks discards : ℕ → Call A
  pops_one resets : Call A

-- What the caller gets: a flag, or the elements that were read.
pub data Reply (A : Type 0) : Type 0 where
  flag : Bool → Reply A
  read : Option (List A) → Reply A

module _ {A : Type 0} where
  abbrev pub one : Option A → Option (List A)
  one none = none
  one (some a) = some (a ∷ [])

  -- The calls on the ring buffer.
  unfoldable pub call : Ring A → Call A → Ring A × Reply A
  call r (pushes xs) = let q = push r xs (length xs) in (q.0, flag q.1)
  call r (pushes_front xs) = let q = push_front r (some xs) (length xs) in (q.0, flag q.1)
  call r (pushes_one x) = let q = push_one r x in (q.0, flag q.1)
  call r (pops n) = let q = pop r n in (q.0, read q.1)
  call r pops_one = let q = pop_one r in (q.0, read (one q.1))
  call r (peeks n) = (r, read (peek r n))
  call r (discards n) = let q = discard r n in (q.0, flag q.1)
  call r resets = (reset r, flag true)

  -- The same on a queue of at most `cap` elements.
  unfoldable pub spec : ℕ → List A → Call A → List A × Reply A
  spec cap q (pushes xs) =
      if leb (length q + length xs) cap then (q ++ xs, flag true) else (q, flag false)
  spec cap q (pushes_front xs) =
      if leb (length q + length xs) cap then (xs ++ q, flag true) else (q, flag false)
  spec cap q (pushes_one x) =
      if leb (length q + 1) cap then (q ++ x ∷ [], flag true) else (q, flag false)
  spec cap q (pops n) =
      if leb n (length q) then (drop n q, read (some (take n q))) else (q, read none)
  spec cap [] pops_one = ([], read none)
  spec cap (x ∷ q) pops_one = (q, read (some (x ∷ [])))
  spec cap q (peeks n) = (q, read (if leb n (length q) then some (take n q) else none))
  spec cap q (discards n) =
      (drop n q, flag (if nat_beq n 0 then false else if nat_beq (length q) 0 then false else true))
  spec cap q resets = ([], flag true)

  unfoldable pub calls : Ring A → List (Call A) → Ring A × List (Reply A)
  calls r [] = (r, [])
  calls r (c ∷ cs) = let q = call r c in let rest = calls q.0 cs in (rest.0, q.1 ∷ rest.1)

  unfoldable pub specs : ℕ → List A → List (Call A) → List A × List (Reply A)
  specs cap q [] = (q, [])
  specs cap q (c ∷ cs) =
      let p = spec cap q c in let rest = specs cap p.0 cs in (rest.0, p.1 ∷ rest.1)
