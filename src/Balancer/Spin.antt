-- ===== src/Balancer/Spin.antt =====
-- The random choice by load: each instance has as many of the equally likely numbers as its load.
use mathlib.Core.List.{flatten}
use tg_chat_server.Prelude.{
  ℕ, zero, suc, ◌+◌, ◌-◌, ◌^◌, ◌≤◌, ◌<◌, ◌≡◌, ◌≢◌, refl, sym, ap, ◌∙◌, arith, false, inl, inr,
  Option, none, some, List, [], ◌∷◌, map, length, get_elem?, replicate, String, add64, ltb, nat_beq,
  if◌then◌else◌, Bool-cases, length-append, length-replicate, get_elem?-append,
}
use tg_chat_server.Service.{ServiceInstance, ServiceInstances}
use tg_chat_server.Balancer.{load_weight, spin, total_load, weighted_load}

-- Every instance as often as its load says, one without load once.
abbrev pub load_wheel : ServiceInstances → List ServiceInstance
load_wheel m = flatten (map (λ kv. replicate (load_weight kv.1) kv.1) m)

length-load_wheel :
    (k : String) (i : ServiceInstance) (rest : ServiceInstances)
    → length (load_wheel ((k, i) ∷ rest)) ≡ load_weight i + length (load_wheel rest)
unfolding flatten
length-load_wheel k i rest = omega (
  arith,
  length-append (replicate (load_weight i) i) (load_wheel rest),
  length-replicate (load_weight i) i,
)

total_load_lem :
    (m : ServiceInstances) (total : ℕ)
    → total + length (load_wheel m) < 2 ^ 64
    → total_load m total ≡ total + length (load_wheel m)
unfolding total_load
total_load_lem [] total h = unfold flatten in omega arith
total_load_lem ((k, i) ∷ rest) total h =
    let n = length-load_wheel k i rest in
    let e : add64 total (load_weight i) ≡ total + load_weight i = omega (arith, n) in
    rw e (total_load_lem rest (total + load_weight i) (omega (arith, n)) ∙ omega (arith, n))

get_elem?-replicate :
    (n : ℕ) (i : ServiceInstance) (k : ℕ) → k < n → get_elem? (replicate n i) k ≡ some i
get_elem?-replicate zero i k h = absurd (omega arith)
get_elem?-replicate (suc n) i zero h = refl
get_elem?-replicate (suc n) i (suc k) h = get_elem?-replicate n i k (omega arith)

get_elem?-load_wheel :
    (k : String) (i : ServiceInstance) (rest : ServiceInstances) (n : ℕ)
    → get_elem? (load_wheel ((k, i) ∷ rest)) n
      ≡ (if ltb n (load_weight i) then some i else get_elem? (load_wheel rest) (n - load_weight i))
unfolding flatten
get_elem?-load_wheel k i rest n = ground (
  arith,
  get_elem?-append (replicate (load_weight i) i) (load_wheel rest) n,
  length-replicate (load_weight i) i,
  get_elem?-replicate (load_weight i) i n,
)

spin_lem :
    (roll acc : ℕ) (last : Option ServiceInstance) (m : ServiceInstances)
    → acc ≤ roll
    → roll < acc + length (load_wheel m)
    → acc + length (load_wheel m) < 2 ^ 64
    → spin roll acc last m ≡ get_elem? (load_wheel m) (roll - acc)
unfolding spin
spin_lem roll acc last [] l h b = absurd (unfold flatten in omega arith)
spin_lem roll acc last ((k, i) ∷ rest) l h b =
    let n = length-load_wheel k i rest in
    let e : add64 acc (load_weight i) ≡ acc + load_weight i = omega (arith, n) in
    let g = get_elem?-load_wheel k i rest (roll - acc) in
    elim (Bool-cases (ltb roll (acc + load_weight i))) [
      | inl q ↦ rw (e, q) (sym (g ∙ ground arith))
      | inr q ↦
          let d : ltb (roll - acc) (load_weight i) ≡ false = ground arith in
          let t : roll - acc - load_weight i ≡ roll - (acc + load_weight i) = omega arith in
          rw (e, q)
            (spin_lem roll (acc + load_weight i) (some i) rest (ground arith) (omega (arith, n))
                (omega (arith, n))
              ∙ sym (g ∙ rw (d, t) refl))
    ]

-- With a random source that gives a number below its bound, and a total weight that fits in 64 bits,
-- the choice is the place of the wheel that the number names: an instance is chosen for as many of
-- the numbers as its load score says, and for one if it has none.
pub weighted_load_lem :
    (dist : ℕ → ℕ) (m : ServiceInstances)
    → ((n : ℕ) → 0 < n → dist n < n)
    → m ≢ []
    → length (load_wheel m) < 2 ^ 64
    → weighted_load dist m ≡ get_elem? (load_wheel m) (dist (length (load_wheel m)))
unfolding weighted_load
weighted_load_lem dist [] d h b = absurd (h refl)
weighted_load_lem dist ((k, i) ∷ rest) d h b =
    let n = length-load_wheel k i rest in
    let m = (k, i) ∷ rest in
    let some_weight : 0 < length (load_wheel m) = ground (arith, n) in
    let t = total_load_lem m 0 (omega arith) in
    let z : nat_beq (length (load_wheel m)) 0 ≡ false = ground arith in
    let roll = d (length (load_wheel m)) some_weight in
    let e : total_load m 0 ≡ length (load_wheel m) = t ∙ omega arith in
    rw (e, z)
      (spin_lem (dist (length (load_wheel m))) 0 none m (omega arith) (omega arith) (omega arith)
        ∙ ap (get_elem? (load_wheel m)) (omega arith))
