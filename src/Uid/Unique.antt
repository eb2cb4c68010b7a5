-- ===== src/Uid/Unique.antt =====
-- When the identifiers of `GenUID` are different, and when they are not.
use mathlib.Core.Path.{subst}
use tg_chat_server.Prelude.{
  ℕ, zero, suc, ◌+◌, ◌*◌, ◌^◌, ◌≤◌, ◌<◌, ◌≡◌, ◌⊎◌, inl, inr, refl, sym, ap, ◌∙◌, arith, List, [],
  ◌∷◌, get_elem?, some, replicate,
}
use tg_chat_server.Uid.{UidState, exchange, reset, take_uid, gen_uid, gen_uids}

-- A clock that does not go back, with at most 1000 readings of one millisecond: from the last reading
-- and the number of identifiers it has had.
abbrev pub IsPaced : ℕ → ℕ → List ℕ → Type 0
IsPaced last count [] = Unit {0}
IsPaced last count (now ∷ rest) =
    (now < 2 ^ 53)
    × (((last < now) × IsPaced now 1 rest)
        ⊎ ((now ≡ last) × (count < 1000) × IsPaced last (count + 1) rest))

-- Each above the ones before it, the first not below the bound.
abbrev pub IsIncreasing : ℕ → List ℕ → Type 0
IsIncreasing bound [] = Unit {0}
IsIncreasing bound (uid ∷ rest) = (bound ≤ uid) × IsIncreasing (uid + 1) rest

gen_uid_new :
    (now : ℕ) (s : UidState)
    → s.last_ms < now
    → now < 2 ^ 53
    → gen_uid now s ≡ (now * 1000, record { last_ms = now; counter = 1 })
gen_uid_new now s h k = unfold gen_uid exchange reset take_uid in ground arith

gen_uid_same :
    (now : ℕ) (s : UidState)
    → now ≡ s.last_ms
    → now < 2 ^ 53
    → s.counter < 1000
    → gen_uid now s
      ≡ (s.last_ms * 1000 + s.counter, record { last_ms = s.last_ms; counter = s.counter + 1 })
gen_uid_same now s e k l = unfold gen_uid exchange reset take_uid in ground arith

cons_IsIncreasing :
    (now : ℕ) (rest : List ℕ) (s : UidState) (uid : ℕ) (t : UidState) (bound : ℕ)
    → gen_uid now s ≡ (uid, t)
    → bound ≤ uid
    → IsIncreasing (uid + 1) (gen_uids rest t).0
    → IsIncreasing bound (gen_uids (now ∷ rest) s).0
cons_IsIncreasing now rest s uid t bound e p q =
    unfold gen_uids in
    subst (λ one. (bound ≤ one.0) × IsIncreasing (one.0 + 1) (gen_uids rest one.1).0) (sym e) (p, q)

-- Calls one after another give increasing identifiers, where the clock is below 2 ^ 53, does not go
-- back behind the last reading, and is read at most 1000 times in one millisecond.
pub gen_uids-IsIncreasing :
    (clock : List ℕ) (s : UidState)
    → s.counter ≤ 1000
    → IsPaced s.last_ms s.counter clock
    → IsIncreasing (s.last_ms * 1000 + s.counter) (gen_uids clock s).0
unfolding gen_uids
gen_uids-IsIncreasing [] s c h = tt
gen_uids-IsIncreasing (now ∷ rest) s c (k, inl (l, h)) =
    cons_IsIncreasing now rest s (now * 1000) (record { last_ms = now; counter = 1 })
      (s.last_ms * 1000 + s.counter) (gen_uid_new now s l k) (omega arith)
      (gen_uids-IsIncreasing rest (record { last_ms = now; counter = 1 }) (omega arith) h)
gen_uids-IsIncreasing (now ∷ rest) s c (k, inr (m, l, h)) =
    let ih =
      gen_uids-IsIncreasing rest (record { last_ms = s.last_ms; counter = s.counter + 1 })
        (omega arith) h in
    cons_IsIncreasing now rest s (s.last_ms * 1000 + s.counter)
      (record { last_ms = s.last_ms; counter = s.counter + 1 }) (s.last_ms * 1000 + s.counter)
      (gen_uid_same now s m k l) (omega arith)
      (subst
        (λ n.
          IsIncreasing n
            (gen_uids rest (record { last_ms = s.last_ms; counter = s.counter + 1 })).0)
        (omega arith) ih)

-- Calls at one millisecond count on.
gen_uids-replicate :
    (n i now : ℕ) (c : ℕ)
    → i < n
    → now < 2 ^ 53
    → c + n ≤ 1000
    → get_elem? (gen_uids (replicate n now) (record { last_ms = now; counter = c })).0 i
      ≡ some (now * 1000 + c + i)
unfolding gen_uids
gen_uids-replicate zero i now c h k l = absurd (omega arith)
gen_uids-replicate (suc n) zero now c h k l =
    let e = gen_uid_same now (record { last_ms = now; counter = c }) refl k (omega arith) in
    ap (λ one. some one.0) e ∙ ap some (omega arith)
gen_uids-replicate (suc n) (suc i) now c h k l =
    let e = gen_uid_same now (record { last_ms = now; counter = c }) refl k (omega arith) in
    let ih = gen_uids-replicate n i now (c + 1) (omega arith) k (omega arith) in
    ap (λ one. get_elem? (gen_uids (replicate n now) one.1).0 i) e ∙ ih ∙ ap some (omega arith)

later_call :
    (now c : ℕ)
    → now < 2 ^ 53
    → c < 1000
    → get_elem?
        (now * 1000 ∷ (gen_uids (replicate c now) (record { last_ms = now; counter = 1 })).0)
        c
      ≡ some (now * 1000 + c)
later_call now zero k l = ap some (omega arith)
later_call now (suc c) k l =
    gen_uids-replicate (suc c) c now 1 (omega arith) k (omega arith) ∙ ap some (omega arith)

-- A call that has exchanged the time, then another thread's whole call at the same millisecond, then
-- the rest of the first call: the other's identifier, the first's, and the state.
unfoldable pub raced : ℕ → UidState → ℕ × ℕ × UidState
raced now s =
    let swapped = exchange now s in
    let other = gen_uid now swapped.1 in
    let own = take_uid now (reset now swapped.0 other.1) in (other.0, own.0, own.1)

-- Two threads at a new millisecond: where one comes between the other's exchange of the time and its
-- reset of the counter, which stands at `s.counter`, its identifier is given again, by the
-- `s.counter`-th call from the other's on, where those calls are at that millisecond too.
pub raced_duplicate :
    (now : ℕ) (s : UidState)
    → s.last_ms < now
    → now < 2 ^ 53
    → s.counter < 1000
    → get_elem? ((raced now s).1 ∷ (gen_uids (replicate s.counter now) (raced now s).2).0) s.counter
      ≡ some (raced now s).0
raced_duplicate now s h k l =
    let e : raced now s
        ≡ (now * 1000 + s.counter, now * 1000, record { last_ms = now; counter = 1 }) =
      unfold raced gen_uid exchange reset take_uid in ground arith in
    let d : get_elem?
          (now * 1000
            ∷ (gen_uids (replicate s.counter now) (record { last_ms = now; counter = 1 })).0)
          s.counter
        ≡ some (now * 1000 + s.counter) =
      later_call now s.counter k l in
    subst (λ r. get_elem? (r.1 ∷ (gen_uids (replicate s.counter now) r.2).0) s.counter ≡ some r.0)
      (sym e) d
