-- ===== src/Ring/Bounds.antt =====
-- The offsets of a ring buffer: where the header's arithmetic stays in range, and what `Used` and
-- `Available` count.
use mathlib.Core.Path.{subst}
use tg_chat_server.Prelude.{
  ℕ, ◌+◌, ◌-◌, ◌%◌, ◌^◌, ◌≤◌, ◌<◌, ◌≡◌, inl, inr, arith, List, length, ltb, leb, ltb→lt, ◌∙◌,
  if◌then◌else◌, Bool-cases, add64,
}
use tg_chat_server.Ring.{Ring, used, available, init_shm}
use native.Mathlib.Nat.{mod-eq_of_lt, mod-eq-sub-mod}

-- The offsets lie in the array, which has `ring_size` elements and fits in memory.
pub record IsValid {A : Type 0} (r : Ring A) : Type 0 where
  pub head_in : r.head < r.ring_size
  pub tail_in : r.tail < r.ring_size
  pub whole : length r.buffer ≡ r.ring_size
  pub fits : r.ring_size ≤ 2 ^ 62

-- An offset that has run past the end once.
abbrev pub wrap : ℕ → ℕ → ℕ
wrap n x = if ltb x n then x else x - n

mod_wrap : (x n : ℕ) → x < n + n → x % n ≡ wrap n x
mod_wrap x n h = elim (Bool-cases (ltb x n)) [
  | inl e ↦ rw e (mod-eq_of_lt (ltb→lt x n e))
  | inr e ↦ rw e (mod-eq-sub-mod (ground arith) ∙ mod-eq_of_lt (ground arith))
]

pub add64-wrap : (a c n : ℕ) → a < n → c ≤ n → n ≤ 2 ^ 62 → add64 a c % n ≡ wrap n (a + c)
add64-wrap a c n ha hc hn =
    let e : add64 a c ≡ a + c = omega arith in
    subst (λ (s : ℕ). add64 a c % n ≡ wrap n s) e (mod_wrap (add64 a c) n (omega arith))

module _ {A : Type 0} (r : Ring A) (v : IsValid r) where
  pub used_lem :
      used r ≡ (if leb r.head r.tail then r.tail - r.head else r.ring_size - (r.head - r.tail))
  unfolding used
  used_lem = ground arith

  -- One slot stays free, so that a full buffer differs from an empty one.
  pub available_lem : available r + used r + 1 ≡ r.ring_size
  unfolding available used
  available_lem = ground arith

  pub used-lt : used r < r.ring_size
  used-lt = omega (arith, available_lem)

pub init_shm-IsValid :
    {A : Type 0} (n : ℕ) (memory : List A)
    → 0 < n
    → n ≤ 2 ^ 62
    → length memory ≡ n
    → IsValid (init_shm n memory)
unfolding init_shm
init_shm-IsValid n memory h k e = record { head_in = h; tail_in = h; whole = e; fits = k }
