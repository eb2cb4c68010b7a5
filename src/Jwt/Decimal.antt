-- ===== src/Jwt/Decimal.antt =====
-- `std::to_string` of an `int64_t`, for the payload of a token.
use tg_chat_server.Prelude.{
  ℕ, zero, suc, ◌+◌, ◌-◌, ◌*◌, ◌/◌, ◌%◌, ◌^◌, ◌<◌, ◌≡◌, refl, arith, Bool, true, false, [], ◌∷◌,
  ◌++◌, ltb, if◌then◌else◌, ltb→lt,
}
use tg_chat_server.Base64.{Bytes}
use tg_chat_server.Base64.RoundTrip.{IsBytes}

-- The digits of a number below 10 ^ fuel.
unfoldable pub decimal : ℕ → ℕ → Bytes
decimal zero n = []
decimal (suc fuel) n =
    let front = decimal fuel (n / 10) in
    if ltb n 10 then (b'0' + n) ∷ [] else front ++ ((b'0' + n % 10) ∷ [])

-- A number of 64 bits has at most 20 digits.
unfoldable pub to_string : ℕ → Bytes
unfolding decimal
to_string bits = if ltb bits (2 ^ 63) then decimal 20 bits else b'-' ∷ decimal 20 (2 ^ 64 - bits)

-- Reading digits, from the value so far.
abbrev pub digits_value : ℕ → Bytes → ℕ
digits_value v [] = v
digits_value v (ch ∷ rest) = digits_value (v * 10 + (ch - b'0')) rest

digits_value-append :
    (v : ℕ) (s t : Bytes) → digits_value v (s ++ t) ≡ digits_value (digits_value v s) t
digits_value-append v [] t = refl
digits_value-append v (x ∷ s) t = digits_value-append (v * 10 + (x - b'0')) s t

pub digits_value-decimal : (fuel n : ℕ) → n < 10 ^ fuel → digits_value 0 (decimal fuel n) ≡ n
unfolding decimal
digits_value-decimal zero n h = omega arith
digits_value-decimal (suc fuel) n h =
    let ih = digits_value-decimal fuel (n / 10) in
    let a = digits_value-append 0 (decimal fuel (n / 10)) ((b'0' + n % 10) ∷ []) in
    ground (arith, ih, a)

pub append-IsBytes : (s t : Bytes) → IsBytes s → IsBytes t → IsBytes (s ++ t)
append-IsBytes [] t h k = k
append-IsBytes (x ∷ s) t (p, h) k = (p, append-IsBytes s t h k)

if-IsBytes :
    (b : Bool) (s t : Bytes) → (b ≡ true → IsBytes s) → IsBytes t → IsBytes (if b then s else t)
if-IsBytes true s t h k = h refl
if-IsBytes false s t h k = k

decimal-IsBytes : (fuel n : ℕ) → IsBytes (decimal fuel n)
unfolding decimal
decimal-IsBytes zero n = tt
decimal-IsBytes (suc fuel) n =
    let front = decimal fuel (n / 10) in
    let later : IsBytes (front ++ ((b'0' + n % 10) ∷ [])) =
      append-IsBytes front ((b'0' + n % 10) ∷ []) (decimal-IsBytes fuel (n / 10))
        (omega arith, tt) in
    if-IsBytes (ltb n 10) ((b'0' + n) ∷ []) (front ++ ((b'0' + n % 10) ∷ []))
      (λ e. (omega (arith, ltb→lt n 10 e), tt)) later

pub to_string-IsBytes : (bits : ℕ) → IsBytes (to_string bits)
to_string-IsBytes bits =
    unfold to_string in
    if-IsBytes (ltb bits (2 ^ 63)) (decimal 20 bits) (b'-' ∷ decimal 20 (2 ^ 64 - bits))
      (λ e. decimal-IsBytes 20 bits) (omega arith, decimal-IsBytes 20 (2 ^ 64 - bits))
