-- ===== src/Balancer/Turn.antt =====
-- One turn of the strategies that count takes every place of their wheel once, in order.
use native.Mathlib.Nat.{suc-mod, mod-eq_of_lt, mod-lt, mod_self, mod-add-mod}
use mathlib.Core.List.{append-nil, flatten}
use tg_chat_server.Prelude.{
  ℕ, zero, suc, ◌+◌, ◌-◌, ◌%◌, ◌^◌, ◌≤◌, ◌<◌, ◌≡◌, ◌≢◌, refl, sym, ap, ap₂, ◌∙◌, arith, Option,
  some, List, [], ◌∷◌, ◌++◌, map, length, get_elem?, take, drop, replicate, max, String, add64,
  take-drop, drop_past, length-drop, length-append, length-replicate,
}
use tg_chat_server.Service.{ServiceInstance, ServiceInstances}
use tg_chat_server.Balancer.{instances_of, round_robin, weighted_rr, weight_wheel}

-- The choices of `n` calls, one after another.
abbrev pub picks : (ℕ → ℕ × Option ServiceInstance) → ℕ → ℕ → List (Option ServiceInstance)
picks select zero idx = []
picks select (suc n) idx = (select idx).1 ∷ picks select n (select idx).0

-- The wheel turned so that the place of the counter comes first.
abbrev pub turned : ℕ → List ServiceInstance → List ServiceInstance
turned idx xs = drop (idx % length xs) xs ++ take (idx % length xs) xs

drop_step :
    (xs : List ServiceInstance) (n r : ℕ)
    → r < length xs
    → map some (take (suc n) (drop r xs)) ≡ get_elem? xs r ∷ map some (take n (drop (r + 1) xs))
drop_step [] n r k = absurd (omega arith)
drop_step (x ∷ xs) n zero k = refl
drop_step (x ∷ xs) n (suc r) k =
    let e : suc r + 1 ≡ suc (r + 1) = omega arith in rw e (drop_step xs n r (omega arith))

take_all : {A : Type 0} (n : ℕ) (xs : List A) → length xs ≤ n → take n xs ≡ xs
take_all n xs h = sym (append-nil (take n xs)) ∙ (rw (drop_past n xs h) at (take-drop n xs))

add_one : (n : ℕ) → n + 1 ≡ suc n
add_one n = omega arith

map-append : (xs ys : List ServiceInstance) → map some (xs ++ ys) ≡ map some xs ++ map some ys
map-append [] ys = refl
map-append (x ∷ xs) ys = ap (◌∷◌ (some x)) (map-append xs ys)

module _ (xs : List ServiceInstance) (select : ℕ → ℕ × Option ServiceInstance)
    (e : (idx : ℕ) → select idx ≡ (add64 idx 1, get_elem? xs (idx % length xs)))
    (h : 0 < length xs) where
  pick_one :
      (n idx : ℕ)
      → idx + 1 < 2 ^ 64
      → picks select (suc n) idx ≡ get_elem? xs (idx % length xs) ∷ picks select n (idx + 1)
  pick_one n idx l =
      rw (e idx) (ap (λ k. get_elem? xs (idx % length xs) ∷ picks select n k) (omega arith))

  straight :
      (n idx : ℕ)
      → idx % length xs + n ≤ length xs
      → idx + n < 2 ^ 64
      → picks select n idx ≡ map some (take n (drop (idx % length xs) xs))
  straight zero idx k l = refl
  straight (suc zero) idx k l =
      pick_one 0 idx (omega arith) ∙ sym (drop_step xs 0 (idx % length xs) (omega arith))
  straight (suc (suc n)) idx k l =
      let next : (idx + 1) % length xs ≡ idx % length xs + 1 =
        ap (λ k. k % length xs) (add_one idx)
        ∙ suc-mod idx (length xs)
        ∙ mod-eq_of_lt (omega arith)
        ∙ sym (add_one _) in
      pick_one (suc n) idx (omega arith)
      ∙ rw (straight (suc n) (idx + 1) (omega (arith, next)) (omega arith), next)
          (sym (drop_step xs (suc n) (idx % length xs) (omega arith)))

  picks-add :
      (a b idx : ℕ)
      → idx + a < 2 ^ 64
      → picks select (a + b) idx ≡ picks select a idx ++ picks select b (idx + a)
  picks-add zero b idx l = ap₂ (picks select) (omega arith) (omega arith)
  picks-add (suc a) b idx l =
      let n : suc a + b ≡ suc (a + b) = omega arith in
      let m : idx + suc a ≡ idx + 1 + a = omega arith in
      rw (n, m)
        (pick_one (a + b) idx (omega arith)
          ∙ ap (◌∷◌ (get_elem? xs (idx % length xs))) (picks-add a b (idx + 1) (omega arith))
          ∙ ap (λ z. z ++ picks select b (idx + 1 + a)) (sym (pick_one a idx (omega arith))))

  turn :
      (idx : ℕ) → idx + length xs < 2 ^ 64 → picks select (length xs) idx ≡ map some (turned idx xs)
  turn idx l =
      let r = idx % length xs in
      let below : r < length xs = mod-lt idx h in
      let a = length xs - r in
      let size : length xs ≡ a + r = omega arith in
      let zero_there : (idx + a) % length xs ≡ 0 =
        sym (mod-add-mod idx (length xs) a)
        ∙ ap (λ k. k % length xs) (the_sum below)
        ∙ mod_self (length xs) in
      ap (λ n. picks select n idx) size
      ∙ picks-add a r idx (omega arith)
      ∙ ap₂ (◌++◌)
          (straight a idx (omega arith) (omega arith)
            ∙ ap (map some) (take_all a (drop r xs) (omega (arith, length-drop r xs))))
          (straight r (idx + a) (omega (arith, zero_there)) (omega arith) ∙ rw zero_there refl)
      ∙ sym (map-append (drop r xs) (take r xs))
    where
      the_sum : {r n : ℕ} → r < n → r + (n - r) ≡ n
      the_sum h = omega arith

length-instances_of : (m : ServiceInstances) → length (instances_of m) ≡ length m
length-instances_of [] = refl
length-instances_of (kv ∷ m) = ap suc (length-instances_of m)

round_robin_step :
    (kv : String × ServiceInstance) (rest : ServiceInstances) (idx : ℕ)
    → let xs = instances_of (kv ∷ rest) in
      round_robin idx (kv ∷ rest) "" ≡ (add64 idx 1, get_elem? xs (idx % length xs))
unfolding round_robin
round_robin_step kv rest idx =
    ap (λ k. (add64 idx 1, get_elem? (instances_of (kv ∷ rest)) (idx % k)))
      (sym (length-instances_of (kv ∷ rest)))

weight_wheel_some :
    (kv : String × ServiceInstance) (rest : ServiceInstances)
    → 0 < length (weight_wheel (kv ∷ rest))
unfolding weight_wheel flatten
weight_wheel_some (k, i) rest = omega (
  arith,
  length-append (replicate (max 1 i.weight) i) (weight_wheel rest),
  length-replicate (max 1 i.weight) i,
)

-- From any value of its counter that does not wrap around meanwhile, as many selections without a
-- key as there are instances choose every instance once, in the order of the map and starting
-- where the counter stands.
pub round_robin_turn :
    (m : ServiceInstances) (idx : ℕ)
    → m ≢ []
    → idx + length m < 2 ^ 64
    → picks (λ i. round_robin i m "") (length m) idx ≡ map some (turned idx (instances_of m))
round_robin_turn [] idx h l = absurd (h refl)
round_robin_turn (kv ∷ rest) idx h l =
    let n = length-instances_of (kv ∷ rest) in
    ap (λ k. picks (λ i. round_robin i (kv ∷ rest) "") k idx) (sym n)
    ∙ turn (instances_of (kv ∷ rest)) (λ i. round_robin i (kv ∷ rest) "") (round_robin_step kv rest)
        (omega (arith, n)) idx (omega (arith, n))

-- From any value of its counter that does not wrap around meanwhile, as many weighted selections as
-- the wheel has places choose the places of the wheel in order, so that each instance is chosen as
-- often as its weight says and at least once.
pub weighted_rr_turn :
    (m : ServiceInstances) (idx : ℕ)
    → m ≢ []
    → idx + length (weight_wheel m) < 2 ^ 64
    → picks (λ i. weighted_rr i m) (length (weight_wheel m)) idx
      ≡ map some (turned idx (weight_wheel m))
weighted_rr_turn [] idx h l = absurd (h refl)
weighted_rr_turn (kv ∷ rest) idx h l =
    turn (weight_wheel (kv ∷ rest)) (λ i. weighted_rr i (kv ∷ rest))
      (λ i. unfold weighted_rr in refl) (weight_wheel_some kv rest) idx l
