-- ===== src/Ring/Refinement.antt =====
-- The ring buffer refines the bounded queue of `Spec`, call by call and over any sequence of calls.
use native.Mathlib.Decide.{dec_lt}
use tg_chat_server.Prelude.{
  ℕ, suc, ◌+◌, ◌-◌, ◌<◌, ◌^◌, ◌≡◌, refl, sym, ap, ap₂, ◌∙◌, arith, min, drop_past, some, true,
  false, List, [], ◌∷◌, length, get_elem?, drop, leb, nat_beq,
}
use tg_chat_server.Ring.Bounds.{IsValid, available_lem, used_lem, add64-wrap, init_shm-IsValid}
use tg_chat_server.Ring.Contents.{contents, length-contents}
use tg_chat_server.Ring.Reading.{
  advanced-IsValid, contents-advanced, pop_lem, peek_lem, discard_lem, pop_one_lem,
}
use tg_chat_server.Ring.Writing.{Appended-IsValid, contents-appended, push_enough, push_one_enough}
use tg_chat_server.Ring.Front.{Prepended-IsValid, contents-prepended, push_front_enough}
use tg_chat_server.Ring.Spec.{
  Call, pushes, pushes_front, pushes_one, pops, peeks, discards, pops_one, resets, Reply, read, one,
  call, spec, calls, specs,
}
use tg_chat_server.Ring.{Ring, used, available, push, push_one, push_front, reset, init_shm}

module _ {A : Type 0} where
  -- The outcome of a call stands for the outcome `p` of the queue.
  pub record Refines (r : Ring A) (o : Ring A × Reply A) (p : List A × Reply A) : Type 0 where
    pub valid : IsValid o.0
    pub size : o.0.ring_size ≡ r.ring_size
    pub queue : contents o.0 ≡ p.0
    pub reply : o.1 ≡ p.1

  drop-min : (n k : ℕ) (xs : List A) → length xs ≡ k → drop (min n k) xs ≡ drop n xs
  drop-min n k xs h = elim (dec_lt k n) [
    | yes p ↦ drop_past (min n k) xs (omega arith) ∙ sym (drop_past n xs (omega arith))
    | no p ↦ let e : min n k ≡ n = omega arith in rw e
  ]

  module _ (r : Ring A) (v : IsValid r) where
    pushes-Refines :
        (xs : List A)
        → Refines r (call r (pushes xs)) (spec (r.ring_size - 1) (contents r) (pushes xs))
    unfolding call spec
    pushes-Refines xs = elim (dec_lt (available r) (length xs)) [
      | yes h ↦
          let e : push r xs (length xs) ≡ (r, false) = unfold push in ground arith in
          let f : leb (length (contents r) + length xs) (r.ring_size - 1) ≡ false =
            ground (arith, length-contents r v, available_lem r v) in
          rw (e, f) (record { valid = v; size = refl; queue = refl; reply = refl })
      | no h ↦
          let (q, e, p) = push_enough r v xs (omega arith) in
          let f : leb (length (contents r) + length xs) (r.ring_size - 1) ≡ true =
            ground (arith, length-contents r v, available_lem r v) in
          rw (e, f)
            (record {
              valid = Appended-IsValid r v xs (omega arith) q p;
              size = p.size;
              queue = contents-appended r v xs (omega arith) q p;
              reply = refl;
            })
    ]

    pushes_front-Refines :
        (xs : List A)
        → Refines r
            (call r (pushes_front xs))
            (spec (r.ring_size - 1) (contents r) (pushes_front xs))
    unfolding call spec
    pushes_front-Refines xs = elim (dec_lt (available r) (length xs)) [
      | yes h ↦
          let e : push_front r (some xs) (length xs) ≡ (r, false) =
            unfold push_front in ground arith in
          let f : leb (length (contents r) + length xs) (r.ring_size - 1) ≡ false =
            ground (arith, length-contents r v, available_lem r v) in
          rw (e, f) (record { valid = v; size = refl; queue = refl; reply = refl })
      | no h ↦
          let (q, e, p) = push_front_enough r v xs (omega arith) in
          let f : leb (length (contents r) + length xs) (r.ring_size - 1) ≡ true =
            ground (arith, length-contents r v, available_lem r v) in
          rw (e, f)
            (record {
              valid = Prepended-IsValid r v xs (omega arith) q p;
              size = p.size;
              queue = contents-prepended r v xs (omega arith) q p;
              reply = refl;
            })
    ]

    pushes_one-Refines :
        (x : A)
        → Refines r (call r (pushes_one x)) (spec (r.ring_size - 1) (contents r) (pushes_one x))
    unfolding call spec
    pushes_one-Refines x = elim (dec_lt (available r) 1) [
      | yes h ↦
          let e : push_one r x ≡ (r, false) =
            unfold push_one in
            ground (arith, used_lem r v, available_lem r v, add64-wrap r.tail 1 r.ring_size) in
          let f : leb (length (contents r) + 1) (r.ring_size - 1) ≡ false =
            ground (arith, length-contents r v, available_lem r v) in
          rw (e, f) (record { valid = v; size = refl; queue = refl; reply = refl })
      | no h ↦
          let (q, e, p) = push_one_enough r v x (omega arith) in
          let f : leb (length (contents r) + 1) (r.ring_size - 1) ≡ true =
            ground (arith, length-contents r v, available_lem r v) in
          rw (e, f)
            (record {
              valid = Appended-IsValid r v (x ∷ []) (omega arith) q p;
              size = p.size;
              queue = contents-appended r v (x ∷ []) (omega arith) q p;
              reply = refl;
            })
    ]

    pops-Refines :
        (n : ℕ) → Refines r (call r (pops n)) (spec (r.ring_size - 1) (contents r) (pops n))
    unfolding call spec
    pops-Refines n = elim (dec_lt (used r) n) [
      | yes h ↦
          let f : leb n (used r) ≡ false = ground arith in
          rw (pop_lem r v n, length-contents r v, f)
            (record { valid = v; size = refl; queue = refl; reply = refl })
      | no h ↦
          let f : leb n (used r) ≡ true = ground arith in
          rw (pop_lem r v n, length-contents r v, f)
            (record {
              valid = advanced-IsValid r v n (omega arith);
              size = refl;
              queue = contents-advanced r v n (omega arith);
              reply = refl;
            })
    ]

    peeks-Refines :
        (n : ℕ) → Refines r (call r (peeks n)) (spec (r.ring_size - 1) (contents r) (peeks n))
    unfolding call spec
    peeks-Refines n =
        rw (peek_lem r v n, length-contents r v)
          (record { valid = v; size = refl; queue = refl; reply = refl })

    discards-Refines :
        (n : ℕ) → Refines r (call r (discards n)) (spec (r.ring_size - 1) (contents r) (discards n))
    unfolding call spec
    discards-Refines n =
        rw (discard_lem r v n, length-contents r v)
          (record {
            valid = advanced-IsValid r v (min n (used r)) (omega arith);
            size = refl;
            queue =
                contents-advanced r v (min n (used r)) (omega arith)
                ∙ drop-min n (used r) (contents r) (length-contents r v);
            reply = ground arith;
          })

    pops_one-Refines :
        (c : List A)
        → contents r ≡ c
        → Refines r (call r pops_one) (spec (r.ring_size - 1) c pops_one)
    unfolding call spec
    pops_one-Refines [] e =
        let f : used r ≡ 0 = omega (arith, length-contents r v, ap length e) in
        rw (pop_one_lem r v, f) (record { valid = v; size = refl; queue = e; reply = refl })
    pops_one-Refines (x ∷ c) e =
        let u : used r ≡ suc (length c) = omega (arith, length-contents r v, ap length e) in
        let f : nat_beq (used r) 0 ≡ false = ground arith in
        rw (pop_one_lem r v, f)
          (record {
            valid = advanced-IsValid r v 1 (omega arith);
            size = refl;
            queue = contents-advanced r v 1 (omega arith) ∙ ap (drop 1) e;
            reply = ap (λ (q : List A). read (one (get_elem? q 0))) e;
          })

    resets-Refines : Refines r (call r resets) (spec (r.ring_size - 1) (contents r) resets)
    unfolding call spec reset used
    resets-Refines = record {
      valid = ground (arith, v.head_in, v.whole, v.fits);
      size = refl;
      queue = refl;
      reply = refl;
    }

    -- On a valid buffer every call keeps the buffer valid and its size, and has the effect on the
    -- queue of the elements and the reply that the call has on a queue of at most `ring_size - 1`
    -- elements.
    pub call-Refines : (c : Call A) → Refines r (call r c) (spec (r.ring_size - 1) (contents r) c)
    call-Refines (pushes xs) = pushes-Refines xs
    call-Refines (pushes_front xs) = pushes_front-Refines xs
    call-Refines (pushes_one x) = pushes_one-Refines x
    call-Refines (pops n) = pops-Refines n
    call-Refines (peeks n) = peeks-Refines n
    call-Refines (discards n) = discards-Refines n
    call-Refines pops_one = pops_one-Refines (contents r) refl
    call-Refines resets = resets-Refines

  calls-Refines :
      (r : Ring A) (cs : List (Call A)) (cap : ℕ) (q : List A)
      → IsValid r
      → r.ring_size ≡ suc cap
      → contents r ≡ q
      → ((calls r cs).1 ≡ (specs cap q cs).1) × (contents (calls r cs).0 ≡ (specs cap q cs).0)
  unfolding calls specs
  calls-Refines r [] cap q v n e = (refl, e)
  calls-Refines r (c ∷ cs) cap q v n e =
      let p = call-Refines r v c in
      let k : r.ring_size - 1 ≡ cap = omega arith in
      let step = rw (k, e) at p in
      let rest =
        calls-Refines (call r c).0 cs cap (spec cap q c).0 step.valid (step.size ∙ n) step.queue in
      (ap₂ ◌∷◌ step.reply rest.0, rest.1)

  -- From a fresh buffer of `cap + 1` slots, over memory with any contents, any sequence of calls
  -- gets the replies that it gets from an empty queue of at most `cap` elements, and leaves the
  -- same elements.
  pub calls-init_shm :
      (cap : ℕ) (memory : List A) (cs : List (Call A))
      → cap < 2 ^ 62
      → length memory ≡ cap + 1
      → let r = init_shm (cap + 1) memory in
        ((calls r cs).1 ≡ (specs cap [] cs).1) × (contents (calls r cs).0 ≡ (specs cap [] cs).0)
  calls-init_shm cap memory cs h e =
      calls-Refines (init_shm (cap + 1) memory) cs cap []
        (init_shm-IsValid (cap + 1) memory (omega arith) (omega arith) e)
        (unfold init_shm in omega arith) (unfold init_shm used in refl)
