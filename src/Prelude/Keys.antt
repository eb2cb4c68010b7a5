-- ===== src/Prelude/Keys.antt =====
-- Types whose values can be compared: the numbers of connections and messages, and the texts that
-- name users and services.
use Prim.Native.Nat.{ℕ}
use Prim.Native.String.{String}
use mathlib.Core.Bool.{Bool, true}
use mathlib.Core.Logic.{◌↔◌}
use mathlib.Core.Path.{◌≡◌, refl}
use text.Mathlib.Text
use text.Mathlib.TextEquality.{eq_iff}
use tg_chat_server.Prelude.Tests.{nat_beq, nat_beq_iff}

pub record Comparable {ℓ} (K : Type ℓ) : Type ℓ where
  pub same : K → K → Bool
  pub same_iff : (j k : K) → (same j k ≡ true) ↔ (j ≡ k)

module _ {ℓ} {K : Type ℓ} ⦃c : Comparable K⦄ where
  infix 50 ◌==◌
  abbrev pub ◌==◌ : K → K → Bool
  j == k = c.same j k

  pub same_refl : (k : K) → (k == k) ≡ true
  same_refl k = (c.same_iff k k).1 refl

instance abbrev pub string_key : Comparable String
string_key = record { same_iff = eq_iff; same = Text.◌==◌ }

instance abbrev pub nat_key : Comparable ℕ
nat_key = record { same_iff = nat_beq_iff; same = nat_beq }
