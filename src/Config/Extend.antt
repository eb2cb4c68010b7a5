-- ===== src/Config/Extend.antt =====
-- An array of server/core/app/JsonParser.cpp that grows for an index.
use tg_chat_server.Prelude.{
  ℕ, zero, suc, ◌+◌, ◌-◌, ◌<◌, ◌≤◌, ◌≡◌, ◌⊎◌, inl, inr, refl, ap, ◌∙◌, arith, Option, some, ltb,
  Bool-cases,
}
use tg_chat_server.Base64.{Bytes}
use tg_chat_server.Config.{Kind, JsonTree, IsTree, extend}

module _ (j : JsonTree) (l : IsTree j) (stoul : Bytes → Option ℕ) where
  -- An array that was extended.
  pub record IsExtended (n : ℕ) (v w : j.Value) : Type 0 where
    pub still_array : j.kind w ≡ Kind.array
    pub size_lem : j.size w ≡ j.size v + n
    pub before : (i : ℕ) → i < j.size v → j.element w i ≡ j.element v i
    pub after : (i : ℕ) → j.size v ≤ i → i < j.size v + n → j.element w i ≡ some j.empty_object

  pub extend-IsExtended :
      (n : ℕ) (v : j.Value) → j.kind v ≡ Kind.array → IsExtended n v (extend j stoul n v)
  extend-IsExtended zero v k =
      unfold extend in
      record {
        still_array = k;
        size_lem = omega arith;
        before = λ i h. refl;
        after = λ i h q. absurd (omega arith);
      }
  extend-IsExtended (suc n) v k =
      grown n v k
        (extend-IsExtended n (j.push_back v j.empty_object) (l.kind_push_back v j.empty_object k))
    where
      grown :
          (n : ℕ) (v : j.Value)
          → j.kind v ≡ Kind.array
          → IsExtended n
              (j.push_back v j.empty_object)
              (extend j stoul n (j.push_back v j.empty_object))
          → IsExtended (suc n) v (extend j stoul (suc n) v)
      grown n v k e =
          let s = l.size_push_back v j.empty_object k in
          let p = λ (i : ℕ). l.element_push_back v j.empty_object i k in
          unfold extend in
          record {
            still_array = e.still_array;
            size_lem = omega (arith, e.size_lem, s);
            before = λ i h. e.before i (omega (arith, s)) ∙ p i ∙ ground arith;
            after = λ i h q. elim (Bool-cases (ltb i (j.size v + 1))) [
              | inl b ↦ e.before i (ground (arith, s)) ∙ p i ∙ ground arith
              | inr b ↦ e.after i (ground (arith, s)) (ground (arith, s))
            ];
          }

  -- The element that a path goes through, after the array was extended for it.
  pub reach :
      (v : j.Value) (i : ℕ)
      → j.kind v ≡ Kind.array
      → (child : j.Value) × (j.element (extend j stoul (i + 1 - j.size v) v) i ≡ some child)
        × (((j.element v i ≡ some child) × (extend j stoul (i + 1 - j.size v) v ≡ v))
            ⊎ (child ≡ j.empty_object))
  reach v i k =
      let e = extend-IsExtended (i + 1 - j.size v) v k in
      elim (Bool-cases (ltb i (j.size v))) [
        | inl b ↦
            let (child, c) = l.element_some v i k (ground arith) in
            let no_growth : extend j stoul 0 v ≡ v = unfold extend in refl in
            let same : extend j stoul (i + 1 - j.size v) v ≡ v =
              ap (λ n. extend j stoul n v) (ground arith) ∙ no_growth in
            (child, ap (λ w. j.element w i) same ∙ c, inl (c, same))
        | inr b ↦ (j.empty_object, e.after i (ground arith) (ground arith), inr refl)
      ]
