-- ===== src/BusNet/Tables.antt =====
-- What the table of ids has after a response.
use tg_chat_server.Prelude.{
  ◌≡◌, inl, inr, refl, sym, ap, ◌∙◌, Bool, true, false, not, ◌&&◌, some, List, [], ◌∷◌, ◌++◌,
  String, if◌then◌else◌, Bool-cases, ◌==◌, string_key, find, insert, find-insert,
}
use mathlib.Core.List.{append_assoc, append-nil}
use tg_chat_server.Service.{ServiceInfo}
use tg_chat_server.BusNet.{ServiceMap, or_empty, infos_at, fill_map}

-- The services of a response that have the id and are up, in their order.
abbrev pub online : String → List ServiceInfo → List ServiceInfo
online id [] = []
online id (s ∷ rest) =
    if not s.is_offline && (s.id == id) then s ∷ online id rest else online id rest

infos_at-insert :
    (k id : String) (xs : List ServiceInfo) (m : ServiceMap)
    → infos_at id (insert k xs m) ≡ (if k == id then xs else infos_at id m)
infos_at-insert k id xs m = ap or_empty (find-insert k id xs m) ∙ branches (k == id)
  where
    branches :
        (b : Bool) → or_empty (if b then some xs else find id m) ≡ (if b then xs else infos_at id m)
    branches true = refl
    branches false = refl

online-skip :
    (id : String) (s : ServiceInfo) (rest : List ServiceInfo)
    → s.is_offline ≡ true
    → online id (s ∷ rest) ≡ online id rest
online-skip id s rest e =
    ap (λ b. if not b && (s.id == id) then s ∷ online id rest else online id rest) e

online-test :
    (id : String) (s : ServiceInfo) (rest : List ServiceInfo)
    → s.is_offline ≡ false
    → online id (s ∷ rest) ≡ (if s.id == id then s ∷ online id rest else online id rest)
online-test id s rest e =
    ap (λ b. if not b && (s.id == id) then s ∷ online id rest else online id rest) e

added :
    (id : String) (s : ServiceInfo) (rest : List ServiceInfo) (m : ServiceMap)
    → (if s.id == id then infos_at s.id m ++ s ∷ [] else infos_at id m) ++ online id rest
      ≡ infos_at id m ++ (if s.id == id then s ∷ online id rest else online id rest)
added id s rest m = elim (Bool-cases (s.id == id)) [
  | inl q ↦
      let same : s.id ≡ id = (string_key.same_iff s.id id).0 q in
      rw q (
        ap (λ k. (infos_at k m ++ s ∷ []) ++ online id rest) same
        ∙ append_assoc (infos_at id m) (s ∷ []) (online id rest))
  | inr q ↦ rw q refl
]

pub infos_at-fill_map :
    (id : String) (infos : List ServiceInfo) (m : ServiceMap)
    → infos_at id (fill_map infos m) ≡ infos_at id m ++ online id infos
unfolding fill_map
infos_at-fill_map id [] m = sym (append-nil (infos_at id m))
infos_at-fill_map id (s ∷ rest) m =
    let more = insert s.id (infos_at s.id m ++ s ∷ []) m in
    let step : (b : Bool)
        → s.is_offline ≡ b
        → fill_map (s ∷ rest) m ≡ fill_map rest (if b then m else more) =
      λ b e. ap (λ b. fill_map rest (if b then m else more)) e in
    elim (Bool-cases s.is_offline) [
      | inl e ↦
          ap (infos_at id) (step true e)
          ∙ infos_at-fill_map id rest m
          ∙ ap (λ z. infos_at id m ++ z) (sym (online-skip id s rest e))
      | inr e ↦
          ap (infos_at id) (step false e)
          ∙ infos_at-fill_map id rest more
          ∙ ap (λ z. z ++ online id rest) (infos_at-insert s.id id (infos_at s.id m ++ s ∷ []) m)
          ∙ added id s rest m
          ∙ ap (λ z. infos_at id m ++ z) (sym (online-test id s rest e))
    ]
