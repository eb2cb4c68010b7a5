-- ===== src/Slab/Classes.antt =====
-- Every size up to 8192 bytes has a class whose items are large enough.
use tg_chat_server.Prelude.{
  ℕ, zero, suc, ◌+◌, ◌*◌, ◌/◌, ◌≤◌, ◌<◌, ◌≡◌, refl, ap, ◌∙◌, arith, Bool, true, false, ◌&&◌, inl,
  inr, none, some, List, ltb, leb, nat_beq, get_or, Bool-cases, Option-cases,
}
use tg_chat_server.Slab.{align8, pow2ceil, class_from, size_class_index, max_classes, new_slab}

abbrev sizes : List ℕ
sizes = (new_slab 0 0 0 (λ at. 0)).item_sizes

-- The class of `n` bytes is there and its items have `n` bytes at least.
abbrev suits : ℕ → Bool
suits n = elim (size_class_index n) [
  | none ↦ false
  | some c ↦ leb n (get_or sizes c 0) && ltb c max_classes
]

abbrev all_suit : ℕ → Bool
all_suit zero = true
all_suit (suc n) = let rest = all_suit n in suits (8 * n) && rest

all_suit_below : (n k : ℕ) → all_suit n ≡ true → k < n → suits (8 * k) ≡ true
all_suit_below zero k e h = absurd (omega arith)
all_suit_below (suc n) k e h = elim (Bool-cases (suits (8 * n))) [
  | inr q ↦ absurd (ground arith)
  | inl q ↦
      let rest : all_suit n ≡ true = ground arith in
      elim (Bool-cases (nat_beq n k)) [
        | inl z ↦ let m : n ≡ k = ground arith in rw m at q
        | inr z ↦ all_suit_below n k rest (ground arith)
      ]
]

all_sizes_suit : all_suit 1025 ≡ true
unfolding size_class_index pow2ceil class_from
all_sizes_suit = refl

suits_lem :
    (n : ℕ)
    → suits n ≡ true
    → (c : ℕ) × (size_class_index n ≡ some c) × (c < max_classes) × (n ≤ get_or sizes c 0)
suits_lem n e = elim (Option-cases (size_class_index n)) [
  | inl q ↦ absurd (ground arith)
  | inr (c, q) ↦
      let t : (leb n (get_or sizes c 0) && ltb c max_classes) ≡ true = rw (suits, q) at e in
      (c, q, ground arith, ground arith)
]

-- For every size up to 8192 bytes there is one of the ten classes that an allocation of that size is
-- taken from, and its items are at least that large.
pub size_class_index_lem :
    (bytes : ℕ)
    → bytes ≤ 8192
    → (c : ℕ) × (size_class_index (align8 bytes) ≡ some c)
      × (c < max_classes)
      × (bytes ≤ get_or (new_slab 0 0 0 (λ at. 0)).item_sizes c 0)
size_class_index_lem bytes h =
    let k = (bytes + 7) / 8 in
    let a : align8 bytes ≡ 8 * k = unfold align8 in omega arith in
    let (c, q, d, l) = suits_lem (8 * k) (all_suit_below 1025 k all_sizes_suit (omega arith)) in
    (c, ap size_class_index a ∙ q, d, omega arith)
