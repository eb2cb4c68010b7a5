-- ===== src/Config/Path.antt =====
-- What is set at a path is read there.
use tg_chat_server.Prelude.{
  ℕ, ◌+◌, ◌-◌, ◌<◌, ◌≡◌, ◌⊎◌, inl, inr, refl, sym, ap, ◌∙◌, arith, true, false, Option, none, some,
  List, [], ◌∷◌, ltb, Option-cases,
}
use tg_chat_server.Base64.{Bytes}
use tg_chat_server.Config.{Kind, JsonTree, IsTree, extend, set_at, get_at}
use tg_chat_server.Config.Extend.{extend-IsExtended, reach}

Kind-cases :
    (k : Kind) → ((k ≡ Kind.object) ⊎ (k ≡ Kind.array)) ⊎ ((k ≡ Kind.null) ⊎ (k ≡ Kind.other))
Kind-cases Kind.null = inr (inl refl)
Kind-cases Kind.object = inl (inl refl)
Kind-cases Kind.array = inl (inr refl)
Kind-cases Kind.other = inr (inr refl)

module _ (j : JsonTree) (l : IsTree j) (stoul : Bytes → Option ℕ) where
  module _ (v : j.Value) (token : Bytes) (rest : List Bytes) (x : j.Value) where
    set_found :
        (child : j.Value)
        → j.kind v ≡ Kind.object
        → j.member v token ≡ some child
        → set_at j stoul v (token ∷ rest) x
          ≡ (j.put v token (set_at j stoul child rest x).0, (set_at j stoul child rest x).1)
    set_found child k m = unfold set_at in rw (set_at, k, m) refl

    set_missing :
        j.kind v ≡ Kind.object
        → j.member v token ≡ none
        → set_at j stoul v (token ∷ rest) x ≡ (
          j.put v token (set_at j stoul j.empty_object rest x).0,
          (set_at j stoul j.empty_object rest x).1,
        )
    set_missing k m = unfold set_at in rw (set_at, k, m) refl

    set_null :
        j.kind v ≡ Kind.null
        → set_at j stoul v (token ∷ rest) x ≡ (
          j.put j.empty_object token (set_at j stoul j.empty_object rest x).0,
          (set_at j stoul j.empty_object rest x).1,
        )
    set_null k = unfold set_at in rw (set_at, k) refl

    set_other : j.kind v ≡ Kind.other → set_at j stoul v (token ∷ rest) x ≡ (v, false)
    set_other k = unfold set_at in rw (set_at, k) refl

    set_no_index :
        j.kind v ≡ Kind.array → stoul token ≡ none → set_at j stoul v (token ∷ rest) x ≡ (v, false)
    set_no_index k s = unfold set_at in rw (set_at, k, s) refl

    set_index :
        (i : ℕ) (child : j.Value)
        → j.kind v ≡ Kind.array
        → stoul token ≡ some i
        → j.element (extend j stoul (i + 1 - j.size v) v) i ≡ some child
        → set_at j stoul v (token ∷ rest) x ≡ (
          j.put_element (extend j stoul (i + 1 - j.size v) v) i (set_at j stoul child rest x).0,
          (set_at j stoul child rest x).1,
        )
    set_index i child k s e = unfold set_at in rw (set_at, k, s, e) refl

    get_member :
        (child : j.Value)
        → j.kind v ≡ Kind.object
        → j.member v token ≡ some child
        → get_at j stoul v (token ∷ rest) ≡ get_at j stoul child rest
    get_member child k m = unfold get_at in rw (get_at, k, m) refl

    get_element :
        (i : ℕ) (child : j.Value)
        → j.kind v ≡ Kind.array
        → stoul token ≡ some i
        → i < j.size v
        → j.element v i ≡ some child
        → get_at j stoul v (token ∷ rest) ≡ get_at j stoul child rest
    get_element i child k s h e =
        let b : ltb i (j.size v) ≡ true = ground arith in
        unfold get_at in rw (get_at, k, s, b, e) refl

  -- In an empty object, something can be set at every path.
  set_empty : (path : List Bytes) (x : j.Value) → (set_at j stoul j.empty_object path x).1 ≡ true
  set_empty [] x = unfold set_at in refl
  set_empty (token ∷ rest) x =
      ap (λ q. q.1) (set_missing j.empty_object token rest x l.kind_empty (l.member_empty token))
      ∙ set_empty rest x

  -- Where there is no place for a value at a path, the tree stays as it is.
  pub set_at_refused :
      (v : j.Value) (path : List Bytes) (x : j.Value)
      → (set_at j stoul v path x).1 ≡ false
      → (set_at j stoul v path x).0 ≡ v
  set_at_refused v [] x e =
      let t : (set_at j stoul v [] x).1 ≡ true = unfold set_at in refl in absurd ground (arith, t)
  set_at_refused v (token ∷ rest) x e =
      let absent = set_empty rest x in
      let ih = λ (child : j.Value) (f : (set_at j stoul child rest x).1 ≡ false).
        set_at_refused child rest x f in
      elim (Kind-cases (j.kind v)) [
        | inl (inl k) ↦ elim (Option-cases (j.member v token)) [
          | inl m ↦ let s = set_missing v token rest x k m in absurd ground (arith, absent, s)
          | inr (child, m) ↦
              let s = set_found v token rest x child k m in
              let f = ih child (ap (λ q. q.1) (sym s) ∙ e) in
              ap (λ q. q.0) s ∙ ap (j.put v token) f ∙ l.put_same v child token m
        ]
        | inl (inr k) ↦ elim (Option-cases (stoul token)) [
          | inl n ↦ ap (λ q. q.0) (set_no_index v token rest x k n)
          | inr (i, n) ↦
              let (child, c, known) = reach j l stoul v i k in
              let s = set_index v token rest x i child k n c in
              elim known [
                | inl (old, same) ↦
                    let f = ih child (ap (λ q. q.1) (sym s) ∙ e) in
                    ap (λ q. q.0) s
                    ∙ ap (λ w. j.put_element w i (set_at j stoul child rest x).0) same
                    ∙ ap (j.put_element v i) f
                    ∙ l.put_element_same v child i old
                | inr new ↦
                    let g : (set_at j stoul child rest x).1 ≡ true =
                      ap (λ o. (set_at j stoul o rest x).1) new ∙ absent in
                    absurd ground (arith, g, s)
              ]
        ]
        | inr (inl k) ↦ let s = set_null v token rest x k in absurd ground (arith, absent, s)
        | inr (inr k) ↦ ap (λ q. q.0) (set_other v token rest x k)
      ]

  set_index_read :
      (v : j.Value) (token : Bytes) (rest : List Bytes) (x : j.Value) (i : ℕ) (child : j.Value)
      → j.kind v ≡ Kind.array
      → stoul token ≡ some i
      → get_at j stoul (j.put_element (extend j stoul (i + 1 - j.size v) v) i x) (token ∷ rest)
        ≡ get_at j stoul x rest
  set_index_read v token rest x i child k n =
      let w = extend j stoul (i + 1 - j.size v) v in
      let e = extend-IsExtended j l stoul (i + 1 - j.size v) v k in
      let below : i < j.size w = omega (arith, e.size_lem) in
      let c = l.element_put w x i e.still_array below in
      get_element (j.put_element w i x) token rest x i x
        (l.kind_put_element w x i e.still_array below) n
        (omega (arith, below, l.size_put_element w x i e.still_array below)) c

  -- What could be set at a path is what is then read there.
  pub get_at-set_at :
      (v : j.Value) (path : List Bytes) (x : j.Value)
      → (set_at j stoul v path x).1 ≡ true
      → get_at j stoul (set_at j stoul v path x).0 path ≡ some x
  get_at-set_at v [] x e = unfold set_at get_at in refl
  get_at-set_at v (token ∷ rest) x e =
      let ih = λ (child : j.Value) (f : (set_at j stoul child rest x).1 ≡ true).
        get_at-set_at child rest x f in
      let made = λ (w child : j.Value) (k : j.kind w ≡ Kind.object).
        get_member (j.put w token child) token rest x child (l.kind_put w child token k)
          (l.member_put w child token k) in
      elim (Kind-cases (j.kind v)) [
        | inl (inl k) ↦ elim (Option-cases (j.member v token)) [
          | inl m ↦
              let s = set_missing v token rest x k m in
              let c = (set_at j stoul j.empty_object rest x).0 in
              ap (λ q. get_at j stoul q.0 (token ∷ rest)) s
              ∙ made v c k
              ∙ ih j.empty_object (set_empty rest x)
          | inr (child, m) ↦
              let s = set_found v token rest x child k m in
              ap (λ q. get_at j stoul q.0 (token ∷ rest)) s
              ∙ made v (set_at j stoul child rest x).0 k
              ∙ ih child (ap (λ q. q.1) (sym s) ∙ e)
        ]
        | inl (inr k) ↦ elim (Option-cases (stoul token)) [
          | inl n ↦ let s = set_no_index v token rest x k n in absurd ground (arith, s)
          | inr (i, n) ↦
              let (child, c, known) = reach j l stoul v i k in
              let s = set_index v token rest x i child k n c in
              ap (λ q. get_at j stoul q.0 (token ∷ rest)) s
              ∙ set_index_read v token rest (set_at j stoul child rest x).0 i child k n
              ∙ ih child (ap (λ q. q.1) (sym s) ∙ e)
        ]
        | inr (inl k) ↦
            let s = set_null v token rest x k in
            let c = (set_at j stoul j.empty_object rest x).0 in
            ap (λ q. get_at j stoul q.0 (token ∷ rest)) s
            ∙ made j.empty_object c l.kind_empty
            ∙ ih j.empty_object (set_empty rest x)
        | inr (inr k) ↦ let s = set_other v token rest x k in absurd ground (arith, s)
      ]
