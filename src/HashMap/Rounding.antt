-- ===== src/HashMap/Rounding.antt =====
-- The loop that rounds a bucket count of the hash map up to a power of two.
use tg_chat_server.Prelude.{
  ℕ, zero, suc, ◌*◌, ◌^◌, ◌≤◌, ◌<◌, ◌≡◌, inl, inr, arith, false, none, some, ltb, mul32, Bool-cases,
}
use tg_chat_server.HashMap.{is_pow2, double_until, round_buckets}

doubled : ℕ → ℕ → ℕ
doubled zero x = x
doubled (suc k) x = doubled k (x * 2)

doubled_le : (k x : ℕ) → x ≤ doubled k x
unfolding doubled
doubled_le zero x = omega arith
doubled_le (suc k) x = omega (arith, doubled_le k (x * 2))

doubled-mul32 : (k x : ℕ) → doubled (suc k) x ≡ 2 ^ 31 → mul32 x 2 ≡ x * 2
unfolding doubled
doubled-mul32 k x e = omega (arith, doubled_le k (x * 2))

double_until_lem :
    (k fuel x n : ℕ)
    → doubled k x ≡ 2 ^ 31
    → k < fuel
    → n ≤ 2 ^ 31
    → (y : ℕ) × (double_until fuel x n ≡ some y) × (n ≤ y) × (y ≤ 2 ^ 31)
unfolding double_until doubled
double_until_lem k zero x n e l b = absurd (omega arith)
double_until_lem zero (suc fuel) x n e l b = (x, ground arith, omega arith, omega arith)
double_until_lem (suc k) (suc fuel) x n e l b = elim (Bool-cases (ltb x n)) [
  | inr t ↦ (x, ground arith, ground arith, omega (arith, doubled_le (suc k) x))
  | inl t ↦
      let (y, q, p, r) = double_until_lem k fuel (x * 2) n e (omega arith) b in
      (y, ground (arith, doubled-mul32 k x e, q), p, r)
]

double_until-zero : (fuel n : ℕ) → 0 < n → double_until fuel 0 n ≡ none
unfolding double_until
double_until-zero zero n p = ground arith
double_until-zero (suc fuel) n p = ground (arith, double_until-zero fuel n p)

double_until-none :
    (k fuel x n : ℕ) → doubled k x ≡ 2 ^ 31 → 2 ^ 31 < n → double_until fuel x n ≡ none
unfolding double_until doubled
double_until-none k zero x n e b = ground arith
double_until-none zero (suc fuel) x n e b = ground (arith, double_until-zero fuel n (omega arith))
double_until-none (suc k) (suc fuel) x n e b =
    ground
      (arith, doubled-mul32 k x e, doubled_le (suc k) x, double_until-none k fuel (x * 2) n e b)

-- For a count of at most 2^31 the loop ends within 29 rounds, with a count that is not less and at
-- most 2^31.
pub round_buckets-ends :
    (n : ℕ) → n ≤ 2 ^ 31 → (y : ℕ) × (round_buckets 29 n ≡ some y) × (n ≤ y) × (y ≤ 2 ^ 31)
unfolding round_buckets
round_buckets-ends n b = elim (Bool-cases (is_pow2 n)) [
  | inl t ↦ (n, ground arith, omega arith, b)
  | inr t ↦
      let (y, q, p, r) =
        double_until_lem 28 29 8 n (unfold doubled in omega arith) (omega arith) b in
      (y, ground (arith, q), p, r)
]

-- For a count above 2^31 that is no power of two the loop never ends, however many rounds it is
-- given: the count that it doubles wraps around to 0.
pub round_buckets-none : (n fuel : ℕ) → 2 ^ 31 < n → is_pow2 n ≡ false → round_buckets fuel n ≡ none
unfolding round_buckets
round_buckets-none n fuel b e =
    ground (arith, double_until-none 28 fuel 8 n (unfold doubled in omega arith) b)
