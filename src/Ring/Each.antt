-- ===== src/Ring/Each.antt =====
-- The batch methods of a ring buffer whose elements are no bytes: `Push(const T *, size_t)` and
-- `Pop(T *, size_t)` of shm_ringbuffer.h go element by element, and stop at the first that fails.
use native.Mathlib.Decide.{dec_lt}
use tg_chat_server.Prelude.{
  ℕ, zero, suc, ◌≡◌, refl, sym, ap, ◌∙◌, arith, none, some, Bool, true, false, List, [], ◌∷◌, ◌++◌,
  length, get_elem?, take, drop, take_nil, List-cases, inl, inr, length-append, leb, nat_beq,
  if◌then◌else◌,
}
use mathlib.Core.List.{append-nil, append_assoc}
use tg_chat_server.Ring.Bounds.{IsValid, add64-wrap, used_lem, available_lem}
use tg_chat_server.Ring.Contents.{contents, length-contents}
use tg_chat_server.Ring.Writing.{Appended-IsValid, contents-appended, push_one_enough}
use tg_chat_server.Ring.Reading.{advanced, advanced-IsValid, contents-advanced, pop_one_lem}
use tg_chat_server.Ring.{Ring, used, available, push_one, pop_one}

module _ {A : Type 0} where
  pub push_each : Ring A → List A → Ring A × Bool
  push_each r [] = (r, true)
  push_each r (x ∷ xs) =
      let q = push_one r x in let rest = push_each q.0 xs in if q.1 then rest else (q.0, false)

  -- The elements that were read, and whether all were.
  pub pop_each : Ring A → ℕ → Ring A × List A × Bool
  pop_each r zero = (r, [], true)
  pop_each r (suc n) =
      let q = pop_one r in
      let rest = pop_each q.0 n in
      elim q.1 [ none ↦ (q.0, [], false) | some x ↦ (rest.0, x ∷ rest.1, rest.2) ]

  module _ (r : Ring A) (v : IsValid r) where
    push_one_full : (x : A) → available r ≡ 0 → push_one r x ≡ (r, false)
    unfolding push_one
    push_one_full x h =
        ground (arith, used_lem r v, available_lem r v, add64-wrap r.tail 1 r.ring_size)

  -- On a valid buffer a batch write stores as many elements as there is room for, in order, and
  -- succeeds exactly if all fit; the buffer stays valid.
  pub push_each_lem :
      (r : Ring A) (xs : List A)
      → IsValid r
      → IsValid (push_each r xs).0
        × (contents (push_each r xs).0 ≡ contents r ++ take (available r) xs)
        × ((push_each r xs).1 ≡ leb (length xs) (available r))
  unfolding push_each
  push_each_lem r [] v = (v, rw (take_nil (available r)) (sym (append-nil _)), ground arith)
  push_each_lem r (x ∷ xs) v = elim (dec_lt (available r) 1) [
    | yes h ↦
        let e : available r ≡ 0 = omega arith in
        rw (push_one_full r v x e, e) (v, sym (append-nil _), ground arith)
    | no h ↦
        let (q, e, p) = push_one_enough r v x (omega arith) in
        let w = Appended-IsValid r v (x ∷ []) (omega arith) q p in
        let c = contents-appended r v (x ∷ []) (omega arith) q p in
        let a : available r ≡ suc (available q) = omega (
          arith,
          available_lem r v,
          available_lem q w,
          p.size,
          length-contents r v,
          length-contents q w,
          ap length c,
          length-append (contents r) (x ∷ []),
        ) in
        let (w', c', f) = push_each_lem q xs w in
        rw (e, a) (w', c' ∙ rw (c, append_assoc), f ∙ ground arith)
  ]

  pop_each-none : (n : ℕ) (r : Ring A) → pop_one r ≡ (r, none) → pop_each r (suc n) ≡ (r, [], false)
  unfolding pop_each
  pop_each-none n r e = ground arith

  pop_each-some :
      (n : ℕ) (r q : Ring A) (x : A)
      → pop_one r ≡ (q, some x)
      → pop_each r (suc n) ≡ (let rest = pop_each q n in (rest.0, x ∷ rest.1, rest.2))
  unfolding pop_each
  pop_each-some n r q x e = ground arith

  -- On a valid buffer a batch read takes as many elements as there are off the front, in order,
  -- and succeeds exactly if there are enough; the buffer stays valid and keeps the rest.
  pub pop_each_lem :
      (n : ℕ) (r : Ring A)
      → IsValid r
      → IsValid (pop_each r n).0
        × (contents (pop_each r n).0 ≡ drop n (contents r))
        × ((pop_each r n).1 ≡ take n (contents r))
        × ((pop_each r n).2 ≡ leb n (used r))
  unfolding pop_each
  pop_each_lem zero r v = (v, refl, refl, ground arith)
  pop_each_lem (suc n) r v = elim (List-cases (contents r)) [
    | inl e ↦
        let u : used r ≡ 0 = omega (arith, length-contents r v, ap length e) in
        let p : pop_one r ≡ (r, none) = rw (pop_one_lem r v, u) refl in
        rw (pop_each-none n r p, e) (v, refl, refl, ground (arith, u))
    | inr (x, c, e) ↦
        let u : used r ≡ suc (length c) = omega (arith, length-contents r v, ap length e) in
        let f : nat_beq (used r) 0 ≡ false = ground arith in
        let g : get_elem? (contents r) 0 ≡ some x = ap (λ (l : List A). get_elem? l 0) e in
        let p : pop_one r ≡ (advanced r 1, some x) = rw (pop_one_lem r v, f, g) refl in
        let w = advanced-IsValid r v 1 (omega arith) in
        let d : contents (advanced r 1) ≡ c =
          contents-advanced r v 1 (omega arith) ∙ ap (drop 1) e in
        let (w', c', t, b) = pop_each_lem n (advanced r 1) w in
        let u' : used (advanced r 1) ≡ length c =
          omega (arith, length-contents (advanced r 1) w, ap length d) in
        rw (pop_each-some n r (advanced r 1) x p, e)
          (w', c' ∙ ap (drop n) d, ap (◌∷◌ x) (t ∙ ap (take n) d), b ∙ ground (arith, u', u))
  ]
