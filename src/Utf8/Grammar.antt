-- ===== src/Utf8/Grammar.antt =====
-- The texts that `IsTextUTF8` takes, as a grammar.
use mathlib.Core.Path.{subst}
use tg_chat_server.Prelude.{
  ℕ, zero, suc, ◌≤◌, ◌<◌, ◌≡◌, ◌↔◌, ◌⊎◌, inl, inr, refl, ap, sym, ◌∙◌, Bool, true, false, not, List,
  [], ◌∷◌, ◌++◌, ltb, ◌&&◌, some, length, arith, Option-cases,
}
use tg_chat_server.Utf8.{rest_of_char, continues, scan, is_text_utf8}

-- A first byte and the number of bytes that follow it; 0xFE and 0xFF are taken for the first of five.
abbrev pub IsFirst : ℕ → ℕ → Type 0
IsFirst chr n =
    ((n ≡ 0) × (chr < 0x80))
    ⊎ (((n ≡ 1) × (0xC0 ≤ chr) × (chr < 0xE0))
        ⊎ (((n ≡ 2) × (0xE0 ≤ chr) × (chr < 0xF0))
            ⊎ (((n ≡ 3) × (0xF0 ≤ chr) × (chr < 0xF8))
                ⊎ (((n ≡ 4) × (((0xF8 ≤ chr) × (chr < 0xFC)) ⊎ (0xFE ≤ chr)))
                    ⊎ ((n ≡ 5) × (0xFC ≤ chr) × (chr < 0xFE))))))

-- The bytes 10xxxxxx.
abbrev pub AreContinuations : List ℕ → Type 0
AreContinuations [] = Unit {0}
AreContinuations (chr ∷ rest) = (0x80 ≤ chr) × (chr < 0xC0) × AreContinuations rest

-- A sequence of characters.
pub data IsText : List ℕ → Type 0 where
  empty : IsText []
  next :
      (chr : ℕ) (tail rest : List ℕ)
      → IsFirst chr (length tail)
      → AreContinuations tail
      → IsText rest
      → IsText (chr ∷ tail ++ rest)

abbrev pub all_ascii : List ℕ → Bool
all_ascii [] = true
all_ascii (chr ∷ rest) = ltb chr 0x80 && all_ascii rest

rest_of_char-IsFirst : (chr n : ℕ) → rest_of_char chr ≡ some n → IsFirst chr n
unfolding rest_of_char
rest_of_char-IsFirst chr n e = ground arith

IsFirst-rest_of_char : (chr n : ℕ) → IsFirst chr n → rest_of_char chr ≡ some n
unfolding rest_of_char
IsFirst-rest_of_char chr n h = ground arith

-- The rest of a character, and the text after it.
abbrev Splits : List ℕ → ℕ → Type 0
Splits s n =
    (tail : List ℕ) × (rest : List ℕ) × (s ≡ tail ++ rest)
    × (length tail ≡ n)
    × AreContinuations tail
    × IsText rest

scan-Splits : (s : List ℕ) (n : ℕ) (b : Bool) → scan s n b ≡ true → Splits s n
unfolding scan
scan-Splits [] zero b e = ([], [], refl, refl, tt, empty)
scan-Splits [] (suc n) b e = absurd cc
scan-Splits (chr ∷ s) zero b e =
    let ih =
      λ (n : ℕ) (f : scan s n (b && ltb chr 0x80) ≡ true). scan-Splits s n (b && ltb chr 0x80) f in
    elim (Option-cases (rest_of_char chr)) [
      | inl f ↦ absurd ground (arith, f)
      | inr (n, f) ↦
          let (tail, rest, p, q, c, t) = ih n (ground (arith, f)) in
          let h : IsText (chr ∷ tail ++ rest) =
            next chr tail rest (rw (q) (rest_of_char-IsFirst chr n f)) c t in
          ([], chr ∷ s, refl, refl, tt, subst (λ u. IsText (chr ∷ u)) (sym p) h)
    ]
scan-Splits (chr ∷ s) (suc n) b e =
    let (tail, rest, p, q, c, t) = scan-Splits s n (b && ltb chr 0x80) (ground arith) in
    (chr ∷ tail, rest, ap (λ u. chr ∷ u) p, ap suc q, (ground arith, ground arith, c), t)

and_assoc : (a b c : Bool) → ((a && b) && c) ≡ (a && (b && c))
and_assoc true b c = refl
and_assoc false b c = refl

and_true : (b : Bool) → (b && true) ≡ b
and_true true = refl
and_true false = refl

all_ascii-append : (s t : List ℕ) → all_ascii (s ++ t) ≡ (all_ascii s && all_ascii t)
all_ascii-append [] t = refl
all_ascii-append (chr ∷ s) t =
    ap (λ r. ltb chr 0x80 && r) (all_ascii-append s t)
    ∙ sym (and_assoc (ltb chr 0x80) (all_ascii s) (all_ascii t))

scan_tail :
    (tail rest : List ℕ) (b : Bool)
    → AreContinuations tail
    → scan (tail ++ rest) (length tail) b ≡ scan rest 0 (b && all_ascii tail)
unfolding scan
scan_tail [] rest b c = ap (scan rest 0) (sym (and_true b))
scan_tail (chr ∷ tail) rest b (p, q, c) =
    let inside : continues chr ≡ true = ground arith in
    let ih = scan_tail tail rest (b && ltb chr 0x80) c in
    rw (inside) (ih ∙ ap (scan rest 0) (and_assoc b (ltb chr 0x80) (all_ascii tail)))

scan_first :
    (chr n : ℕ) (s : List ℕ) (b : Bool)
    → rest_of_char chr ≡ some n
    → scan (chr ∷ s) 0 b ≡ scan s n (b && ltb chr 0x80)
scan_first chr n s b e = unfold scan in rw (scan, e) refl

scan_text : (s : List ℕ) (b : Bool) → IsText s → scan s 0 b ≡ not (b && all_ascii s)
scan_text [] b h = unfold scan in ap not (sym (and_true b))
scan_text s b (next chr tail rest f c t) =
    let l = ltb chr 0x80 in
    scan_first chr (length tail) (tail ++ rest) b (IsFirst-rest_of_char chr (length tail) f)
    ∙ scan_tail tail rest (b && l) c
    ∙ scan_text rest ((b && l) && all_ascii tail) t
    ∙ ap not (
        and_assoc (b && l) (all_ascii tail) (all_ascii rest)
        ∙ and_assoc b l (all_ascii tail && all_ascii rest)
        ∙ ap (λ r. b && (l && r)) (sym (all_ascii-append tail rest)))

not_is_true : (b : Bool) → not b ≡ true → b ≡ false
not_is_true true e = absurd cc
not_is_true false e = refl

whole : (tail rest : List ℕ) → length tail ≡ 0 → IsText rest → IsText (tail ++ rest)
whole [] rest e t = t
whole (chr ∷ tail) rest e t = absurd (omega arith)

scan-IsText : (s : List ℕ) → scan s 0 true ≡ true → IsText s
scan-IsText s e =
    let (tail, rest, p, q, c, t) = scan-Splits s 0 true e in
    subst IsText (sym p) (whole tail rest q t)

-- The test passes exactly the sequences of UTF-8 characters of one to six bytes that are not all
-- ASCII, where 0xFE and 0xFF count as the first of five bytes.
pub is_text_utf8_lem : (s : List ℕ) → (is_text_utf8 s ≡ true) ↔ (IsText s × (all_ascii s ≡ false))
unfolding is_text_utf8
is_text_utf8_lem s = (
  (λ e.
      (scan-IsText s e, not_is_true (all_ascii s) (sym (scan_text s true (scan-IsText s e)) ∙ e))),
  (λ (t, m). scan_text s true t ∙ ap not m),
)
