-- ===== src/Balancer/Best.antt =====
-- The strategies that look for the best instance find one that is at least as good as every other.
use mathlib.Core.List.{Memᴰ}
use mathlib.Core.List.Memᴰ
use tg_chat_server.Prelude.{
  ℕ, ◌-◌, ◌^◌, ◌≤◌, ◌≡◌, ◌≢◌, refl, arith, Bool, true, false, ◌⊎◌, inl, inr, Option, none, some,
  List, [], ◌∷◌, ltb, Bool-cases, String,
}
use tg_chat_server.Service.{ServiceInstance, ServiceInstances}
use tg_chat_server.Balancer.{
  instances_of, scan, least_conn, latency, latency_aware, least_load, most_load,
}

-- `i` is one of the instances, and no other has a value that is further in the order `le`.
pub record IsBest (le : ℕ → ℕ → Type 0) (value : ServiceInstance → ℕ) (xs : List ServiceInstance)
    (i : ServiceInstance) : Type 0 where
  pub listed : Memᴰ i xs
  pub first : (x : ServiceInstance) → Memᴰ x xs → le (value i) (value x)

abbrev pub Finds :
    (ℕ → ℕ → Type 0)
    → (ServiceInstance → ℕ)
    → Option ServiceInstance
    → List ServiceInstance
    → Type 0
Finds le value o xs = (i : ServiceInstance) × (o ≡ some i) × IsBest le value xs i

module _ (le : ℕ → ℕ → Type 0) (better : ℕ → ℕ → Bool)
    (yes : (a b : ℕ) → better a b ≡ true → le a b) (no : (a b : ℕ) → better a b ≡ false → le b a)
    (same : (a : ℕ) → le a a) (le-trans : (a b c : ℕ) → le a b → le b c → le a c)
    (value : ServiceInstance → ℕ) where
  one-IsBest : (b : ServiceInstance) → IsBest le value (b ∷ []) b
  one-IsBest b = record { listed = Memᴰ.head refl; first = λ x m. only x (Memᴰ.cases_cons m) }
    where
      only : (x : ServiceInstance) → (x ≡ b) ⊎ Memᴰ x [] → le (value b) (value x)
      only x (inl e) = rw e (same (value b))
      only x (inr m) = elim m [ ]

  -- One more instance that does not beat the best one.
  IsBest-over :
      (a b i : ServiceInstance) (xs : List ServiceInstance)
      → le (value b) (value a)
      → IsBest le value (b ∷ xs) i
      → IsBest le value (b ∷ a ∷ xs) i
  IsBest-over a b i xs h m = record {
    listed = elim (Memᴰ.cases_cons m.listed) [
      | inl e ↦ Memᴰ.head e
      | inr d ↦ Memᴰ.tail (Memᴰ.tail d)
    ];
    first = λ x d. elim (Memᴰ.cases_cons d) [
      | inl e ↦ m.first x (Memᴰ.head e)
      | inr d' ↦ elim (Memᴰ.cases_cons d') [
        | inl e ↦ le-trans (value i) (value b) (value x) (m.first b (Memᴰ.head refl)) (rw e h)
        | inr d'' ↦ m.first x (Memᴰ.tail d'')
      ]
    ];
  }

  -- The best one so far is beaten.
  IsBest-under :
      (a b i : ServiceInstance) (xs : List ServiceInstance)
      → le (value a) (value b)
      → IsBest le value (a ∷ xs) i
      → IsBest le value (b ∷ a ∷ xs) i
  IsBest-under a b i xs h m = record {
    listed = Memᴰ.tail m.listed;
    first = λ x d. elim (Memᴰ.cases_cons d) [
      | inl e ↦ le-trans (value i) (value a) (value x) (m.first a (Memᴰ.head refl)) (rw e h)
      | inr d' ↦ m.first x d'
    ];
  }

  scan_from :
      (b : ServiceInstance) (m : ServiceInstances)
      → Finds le value (scan value better (some b) (value b) m) (b ∷ instances_of m)
  unfolding scan
  scan_from b [] = (b, refl, one-IsBest b)
  scan_from b ((k, a) ∷ rest) = elim (Bool-cases (better (value a) (value b))) [
    | inl e ↦
        let (i, q, w) = scan_from a rest in
        rw e (i, q, IsBest-under a b i (instances_of rest) (yes (value a) (value b) e) w)
    | inr e ↦
        let (i, q, w) = scan_from b rest in
        rw e (i, q, IsBest-over a b i (instances_of rest) (no (value a) (value b) e) w)
  ]

  scan_lem :
      (best_value : ℕ) (kv : String × ServiceInstance) (rest : ServiceInstances)
      → Finds le value (scan value better none best_value (kv ∷ rest)) (instances_of (kv ∷ rest))
  unfolding scan
  scan_lem best_value (k, a) rest = scan_from a rest

least :
    (value : ServiceInstance → ℕ) (best_value : ℕ) (kv : String × ServiceInstance)
    (rest : ServiceInstances)
    → Finds (◌≤◌) value (scan value ltb none best_value (kv ∷ rest)) (instances_of (kv ∷ rest))
least =
    scan_lem (◌≤◌) ltb (λ a b e. ground arith) (λ a b e. ground arith) (λ a. omega arith)
      (λ a b c h k. omega arith)

-- When there are instances, `LeastConnLB` gives one with the least number of connections,
-- `LatencyAwareLB` one with the least latency, an unknown one counting as high, `LeastLoadLB` one
-- with the least load score, and `MostLoadLB` one with the greatest.
pub best_choices :
    (m : ServiceInstances)
    → m ≢ []
    → Finds (◌≤◌) (λ i. i.connections) (least_conn m) (instances_of m)
      × Finds (◌≤◌) latency (latency_aware m) (instances_of m)
      × Finds (◌≤◌) (λ i. i.load_score) (least_load m) (instances_of m)
      × Finds (λ a b. b ≤ a) (λ i. i.load_score) (most_load m) (instances_of m)
unfolding least_conn latency_aware least_load most_load
best_choices [] h = absurd (h refl)
best_choices (kv ∷ rest) h = (
  least (λ i. i.connections) (2 ^ 64 - 1) kv rest,
  least latency (2 ^ 64 - 1) kv rest,
  least (λ i. i.load_score) (2 ^ 32 - 1) kv rest,
  scan_lem (λ a b. b ≤ a) (λ a b. ltb b a) (λ a b e. ground arith) (λ a b e. ground arith)
      (λ a. omega arith) (λ a b c x y. omega arith) (λ i. i.load_score) 0 kv rest,
)
