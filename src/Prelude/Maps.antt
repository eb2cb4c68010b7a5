-- ===== src/Prelude/Maps.antt =====
-- `std::unordered_map` as an association list in the order of its iteration. The order is that of
-- insertion here; no statement about a map as a whole depends on it unless it says so.
use mathlib.Core.Path.{◌≡◌, refl}
use mathlib.Core.List.{List, [], ◌∷◌}
use mathlib.Core.Option.{Option, none, some}
use native.Mathlib.Omega.{arith}
use tg_chat_server.Prelude.Keys.{Comparable, ◌==◌}
use tg_chat_server.Prelude.Tests.{if◌then◌else◌}

module _ {ℓ κ} {K : Type ℓ} {V : Type κ} ⦃c : Comparable K⦄ where
  -- `find`, as the value behind the iterator.
  unfoldable pub find : K → List (K × V) → Option V
  find k [] = none
  find k ((j, held) ∷ rest) = if j == k then some held else find k rest

  -- `m[k] = v`
  unfoldable pub insert : K → V → List (K × V) → List (K × V)
  insert k v [] = (k, v) ∷ []
  insert k v ((j, held) ∷ rest) = if j == k then (j, v) ∷ rest else (j, held) ∷ insert k v rest

  -- `m.erase(k)`; a map has one entry for a key at most.
  unfoldable pub erase : K → List (K × V) → List (K × V)
  erase k [] = []
  erase k ((j, held) ∷ rest) = if j == k then erase k rest else (j, held) ∷ erase k rest

  pub find-insert :
      (k j : K) (v : V) (m : List (K × V))
      → find j (insert k v m) ≡ (if k == j then some v else find j m)
  unfolding find insert
  find-insert k j v [] = refl
  find-insert k j v ((i, w) ∷ m) =
      ground (arith, c.same_iff k j, c.same_iff i k, c.same_iff i j, find-insert k j v m)

  pub find-erase :
      (k j : K) (m : List (K × V)) → find j (erase k m) ≡ (if k == j then none else find j m)
  unfolding find erase
  find-erase k j [] = ground arith
  find-erase k j ((i, w) ∷ m) =
      ground (arith, c.same_iff k j, c.same_iff i k, c.same_iff i j, find-erase k j m)
