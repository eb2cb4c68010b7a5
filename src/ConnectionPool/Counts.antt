-- ===== src/ConnectionPool/Counts.antt =====
-- How often a connection stands in a list.
use tg_chat_server.Prelude.{
  ℕ, ◌+◌, ◌<◌, ◌≡◌, arith, List, [], ◌∷◌, ◌++◌, length, nat_beq, if◌then◌else◌,
}
use tg_chat_server.ConnectionPool.{remove_first}

abbrev pub count : ℕ → List ℕ → ℕ
count c [] = 0
count c (x ∷ xs) = (if nat_beq x c then 1 else 0) + count c xs

pub count-append : (c : ℕ) (xs ys : List ℕ) → count c (xs ++ ys) ≡ count c xs + count c ys
count-append c [] ys = omega arith
count-append c (x ∷ xs) ys = omega (arith, count-append c xs ys)

pub count-remove_first :
    (c d : ℕ) (xs : List ℕ)
    → 0 < count d xs
    → count c (remove_first d xs) + (if nat_beq d c then 1 else 0) ≡ count c xs
unfolding remove_first
count-remove_first c d [] h = absurd (omega arith)
count-remove_first c d (x ∷ xs) h = ground (arith, count-remove_first c d xs)

pub length-remove_first :
    (d : ℕ) (xs : List ℕ) → 0 < count d xs → length (remove_first d xs) + 1 ≡ length xs
unfolding remove_first
length-remove_first d [] h = absurd (omega arith)
length-remove_first d (x ∷ xs) h = ground (arith, length-remove_first d xs)
