-- ===== src/ConnectionPool/Invariant.antt =====
-- No connection is lent twice, none that is lent is idle or deleted, and there are never more than
-- the pool may have. A shutdown breaks this for the connections that are lent.
use tg_chat_server.Prelude.{
  ℕ, ◌+◌, ◌-◌, ◌≤◌, ◌≡◌, refl, arith, Bool, true, false, Option, none, some, List, [], ◌∷◌, ◌++◌,
  length, length-append,
}
use tg_chat_server.ConnectionPool.{
  new_pool, look, connected, woken, release, take_idle, remove_first, drop_dead, put_back, shutdown,
}
use tg_chat_server.ConnectionPool.Counts.{
  count, count-append, count-remove_first, length-remove_first,
}
use tg_chat_server.ConnectionPool.Steps.{
  System, after, Fresh, Step, looks, fails_to_connect, connects_to, wakes, releases, takes, drops,
  puts_back, Reach, here, next,
}

-- Before a shutdown every connection of the pool is idle, lent or taken by a health check, once.
pub record IsSound (s : System) : Type 0 where
  pub live : s.pool.shut_down ≡ false
  pub whole :
      (c : ℕ) → count c s.pool.all ≡ count c s.pool.idle + count c s.lent + count c s.checked
  pub apart : (c : ℕ) → count c s.pool.all + count c s.pool.freed ≤ 1
  pub active : s.pool.active_count ≡ length s.lent
  pub bounded : length s.pool.all + s.pool.creating ≤ s.pool.max_pool_size

look-IsSound : (s : System) → IsSound s → IsSound (after s (look s.pool))
unfolding look
look-IsSound s v = record {
  live = ground (arith, v.live);
  whole = λ c. ground (arith, v.live, v.whole c);
  apart = λ c. ground (arith, v.live, v.apart c);
  active = ground (arith, v.live, v.active);
  bounded = ground (arith, v.live, v.bounded);
}

-- The pool with a new connection, before it is looked at again.
abbrev added : System → ℕ → System
added s c = record s {
  pool = record s.pool {
    creating = s.pool.creating - 1;
    all = s.pool.all ++ c ∷ [];
    idle = s.pool.idle ++ c ∷ [];
  };
}

added-IsSound :
    (s : System) (c : ℕ) → IsSound s → 1 ≤ s.pool.creating → Fresh c s → IsSound (added s c)
added-IsSound s c v h f = record {
  live = v.live;
  whole = λ d.
      omega
        (arith, v.whole d, count-append d s.pool.all (c ∷ []), count-append d s.pool.idle (c ∷ []));
  apart = λ d. ground (arith, v.apart d, count-append d s.pool.all (c ∷ []));
  active = v.active;
  bounded = omega (arith, v.bounded, length-append s.pool.all (c ∷ []));
}

connected_lem :
    (s : System) (c : ℕ)
    → s.pool.shut_down ≡ false
    → after s (connected s.pool (some c)) ≡ after (added s c) (look (added s c).pool)
unfolding connected
connected_lem s c l = rw l refl

woken-IsSound : (s : System) (t : Bool) → IsSound s → IsSound (after s (woken s.pool t))
unfolding woken
woken-IsSound s true v = v
woken-IsSound s false v = look-IsSound s v

released-IsSound :
    (s : System) (d : ℕ)
    → IsSound s
    → 1 ≤ count d s.lent
    → IsSound (record s { pool = release s.pool d; lent = remove_first d s.lent })
unfolding release
released-IsSound s d v h = record {
  live = ground (arith, v.live);
  whole = λ c. ground (
    arith,
    v.live,
    v.whole c,
    count-append c s.pool.idle (d ∷ []),
    count-remove_first c d s.lent,
  );
  apart = λ c. ground (arith, v.live, v.apart c);
  active = ground (arith, v.live, v.active, length-remove_first d s.lent);
  bounded = ground (arith, v.live, v.bounded);
}

dropped-IsSound :
    (s : System) (d : ℕ)
    → IsSound s
    → 1 ≤ count d s.checked
    → IsSound (record s { pool = drop_dead s.pool d; checked = remove_first d s.checked })
unfolding drop_dead
dropped-IsSound s d v h =
    let there : 1 ≤ count d s.pool.all = omega (arith, v.whole d) in
    record {
      live = v.live;
      whole = λ c. omega (
        arith,
        v.whole c,
        count-remove_first c d s.checked h,
        count-remove_first c d s.pool.all there,
      );
      apart = λ c. ground (arith, v.apart c, count-remove_first c d s.pool.all);
      active = v.active;
      bounded = omega (arith, v.bounded, length-remove_first d s.pool.all there);
    }

Step-IsSound : {s t : System} → Step s t → IsSound s → IsSound t
Step-IsSound {s = s} looks v = look-IsSound s v
Step-IsSound {s = s} (fails_to_connect h) v =
    unfold connected in
    record {
      live = v.live;
      whole = v.whole;
      apart = v.apart;
      active = v.active;
      bounded = omega (arith, v.bounded);
    }
Step-IsSound {s = s} (connects_to c h f) v =
    rw (connected_lem s c v.live) (look-IsSound (added s c) (added-IsSound s c v h f))
Step-IsSound {s = s} (wakes t) v = woken-IsSound s t v
Step-IsSound {s = s} (releases d h) v = released-IsSound s d v h
Step-IsSound {s = s} takes v =
    unfold take_idle in
    record {
      live = v.live;
      whole = λ c. omega (arith, v.whole c, count-append c s.checked s.pool.idle);
      apart = v.apart;
      active = v.active;
      bounded = v.bounded;
    }
Step-IsSound {s = s} (drops d h) v = dropped-IsSound s d v h
Step-IsSound {s = s} (puts_back d h) v =
    unfold put_back in
    record {
      live = v.live;
      whole = λ c. omega (
        arith,
        v.whole c,
        count-append c s.pool.idle (d ∷ []),
        count-remove_first c d s.checked h,
      );
      apart = v.apart;
      active = v.active;
      bounded = v.bounded;
    }

Reach-IsSound : {s t : System} → IsSound s → Reach s t → IsSound t
Reach-IsSound v here = v
Reach-IsSound v (next r st) = Step-IsSound st (Reach-IsSound v r)

-- The connections that the constructor opened.
abbrev pub opened : List (Option ℕ) → List ℕ
opened [] = []
opened (none ∷ rest) = opened rest
opened (some c ∷ rest) = c ∷ opened rest

abbrev pub started : ℕ → List (Option ℕ) → System
started max_size answers = record { pool = new_pool max_size answers; lent = []; checked = [] }

new_pool_lem :
    (n : ℕ) (answers : List (Option ℕ))
    → new_pool n answers ≡ record {
      max_pool_size = n;
      idle = opened answers;
      all = opened answers;
      active_count = 0;
      creating = 0;
      shut_down = false;
      freed = [];
    }
unfolding new_pool
new_pool_lem n [] = refl
new_pool_lem n (none ∷ rest) = new_pool_lem n rest
new_pool_lem n (some c ∷ rest) = rw (new_pool_lem n rest) refl

module _ (n : ℕ) (answers : List (Option ℕ)) (once : (c : ℕ) → count c (opened answers) ≤ 1)
    (fits : length (opened answers) ≤ n) {t : System} (r : Reach (started n answers) t) where
  reached : IsSound t
  reached =
      let first : IsSound (started n answers) = rw (new_pool_lem n answers) (record {
        live = refl;
        whole = λ c. omega arith;
        apart = λ c. omega (arith, once c);
        active = refl;
        bounded = omega arith;
      }) in
      Reach-IsSound first r

  -- In every state that a pool of distinct connections, at most as many as it may have, reaches
  -- before a shutdown: a connection is at most once lent, idle, with a health check or deleted, and
  -- no two of these; the active count is the number of those lent; and the connections, with those
  -- that are being opened, are never more than the pool may have.
  pub Reach-exclusive :
      (c : ℕ)
      → (count c t.lent + count c t.pool.idle + count c t.checked + count c t.pool.freed ≤ 1)
        × (t.pool.active_count ≡ length t.lent)
        × (length t.pool.all + t.pool.creating ≤ t.pool.max_pool_size)
  Reach-exclusive c = let v = reached in (omega (arith, v.whole c, v.apart c), v.active, v.bounded)

  -- In every state that a pool of distinct connections, at most as many as it may have, reaches
  -- before a shutdown: once it is shut down, the release of a connection that was lent deletes its
  -- object a second time.
  pub release-shutdown :
      (c : ℕ) → 1 ≤ count c t.lent → count c (release (shutdown t.pool) c).freed ≡ 2
  unfolding release shutdown
  release-shutdown c h =
      let v = reached in
      ground (arith, v.live, v.whole c, v.apart c, count-append c t.pool.all t.pool.freed)
