-- ===== src/Registry/Deltas.antt =====
-- What a subscriber fetches: the changes of the other instances, in their order.
use tg_chat_server.Prelude.{
  ℕ, ◌≡◌, refl, sym, ap, ◌∙◌, arith, Bool, true, false, inl, inr, Option, none, some, List, [], ◌∷◌,
  ◌++◌, String, if◌then◌else◌, Bool-cases, Option-cases, ◌==◌, string_key, find, find-insert,
  same_refl,
}
use mathlib.Core.List.{append_assoc, append-nil}
use tg_chat_server.Service.{ServiceInstance, ServiceInstances}
use tg_chat_server.Registry.{
  Op, DeltaEntry, ServiceRegistry, push_delta_to_others, register_instance, gone,
  deregister_instance, take_out, keep_service, take_out_everywhere, expire, expire_all, expired_ids,
  cleanup_expired, pop_deltas,
}

-- A call that can change what is registered.
pub data Change : Type 0 where
  registers : ServiceInstance → (ttl : ℕ) → (is_new : Bool) → (now : ℕ) → Change
  deregisters : (svc id : String) → Change
  cleans_up : (now : ℕ) → Change

abbrev pub change : ServiceRegistry → Change → ServiceRegistry
change r (registers i ttl is_new now) = register_instance r i ttl is_new now
change r (deregisters svc id) = deregister_instance r svc id
change r (cleans_up now) = cleanup_expired r now

abbrev pub changes : ServiceRegistry → List Change → ServiceRegistry
changes r [] = r
changes r (c ∷ cs) = changes (change r c) cs

-- A piece of news about the instance `id`, for a subscriber that is not that instance.
abbrev pub for_others : String → String → DeltaEntry → List DeltaEntry
for_others s id d = if id == s then [] else d ∷ []

abbrev pub lost : String → String → Option ServiceInstance → List DeltaEntry
lost s id none = []
lost s id (some i) = for_others s id (gone i)

-- All instances of a service, and of all services, one after another.
abbrev pub members : ServiceInstances → List ServiceInstance
members [] = []
members ((k, i) ∷ rest) = i ∷ members rest

abbrev pub everyone : List (String × ServiceInstances) → List ServiceInstance
everyone [] = []
everyone ((svc, m) ∷ rest) = members m ++ everyone rest

-- The last instance with an id, if any, and the others.
abbrev pub last_with :
    String → List ServiceInstance → Option ServiceInstance → Option ServiceInstance
last_with id [] out = out
last_with id (i ∷ rest) out = last_with id rest (if i.id == id then some i else out)

abbrev pub others : String → List ServiceInstance → List ServiceInstance
others id [] = []
others id (i ∷ rest) = if i.id == id then others id rest else i ∷ others id rest

-- What the subscriber `s` is told when the ids leave one after another.
abbrev pub lost_all : String → List ServiceInstance → List String → List DeltaEntry
lost_all s up [] = []
lost_all s up (id ∷ ids) = lost s id (last_with id up none) ++ lost_all s (others id up) ids

abbrev pub registered : ServiceRegistry → String → String → Option ServiceInstance
registered r svc id = elim (find svc r.registry) [ none ↦ none | some m ↦ find id m ]

-- What a call is news of, to the subscriber `s`: a new registration, an instance that was there and
-- leaves, and those that a clean-up finds.
abbrev pub news : String → ServiceRegistry → Change → List DeltaEntry
news s r (registers i ttl is_new now) =
    if is_new
    then for_others s i.id (record { op = Op.upsert; inst = record i { last_seen = now } })
    else []
news s r (deregisters svc id) = lost s id (registered r svc id)
news s r (cleans_up now) = lost_all s (everyone r.registry) (expired_ids now r.expirations)

abbrev pub all_news : String → ServiceRegistry → List Change → List DeltaEntry
all_news s r [] = []
all_news s r (c ∷ cs) = news s r c ++ all_news s (change r c) cs

push_lem :
    (s id : String) (d : DeltaEntry) (m : List (String × List DeltaEntry)) (ds : List DeltaEntry)
    → find s m ≡ some ds
    → find s (push_delta_to_others id d m) ≡ some (ds ++ for_others s id d)
unfolding push_delta_to_others find
push_lem s id d [] ds e = absurd (ground arith)
push_lem s id d ((k, xs) ∷ rest) ds e = ground (
  arith,
  string_key.same_iff k s,
  string_key.same_iff k id,
  string_key.same_iff id s,
  append-nil xs,
  append-nil ds,
  push_lem s id d rest ds,
)

last_with-append :
    (id : String) (xs ys : List ServiceInstance) (out : Option ServiceInstance)
    → last_with id (xs ++ ys) out ≡ last_with id ys (last_with id xs out)
last_with-append id [] ys out = refl
last_with-append id (x ∷ xs) ys out = last_with-append id xs ys (if x.id == id then some x else out)

others-append :
    (id : String) (xs ys : List ServiceInstance)
    → others id (xs ++ ys) ≡ others id xs ++ others id ys
others-append id [] ys = refl
others-append id (x ∷ xs) ys = ground (arith, others-append id xs ys)

take_out_lem :
    (id : String) (m : ServiceInstances) (out : Option ServiceInstance)
    → (members (take_out id m out).0 ≡ others id (members m))
      × ((take_out id m out).1 ≡ last_with id (members m) out)
unfolding take_out
take_out_lem id [] out = (refl, refl)
take_out_lem id ((k, i) ∷ rest) out = elim (Bool-cases (i.id == id)) [
  | inl q ↦
      let (a, b) = take_out_lem id rest (some i) in
      let n : (if i.id == id then some i else out) ≡ some i = rw q refl in
      let c : (take_out id ((k, i) ∷ rest) out).1 ≡ last_with id (members rest) (some i) =
        rw (take_out, q) b in
      (rw (take_out, q) a, c ∙ ap (last_with id (members rest)) (sym n))
  | inr q ↦
      let (a, b) = take_out_lem id rest out in
      let n : (if i.id == id then some i else out) ≡ out = rw q refl in
      let c : (take_out id ((k, i) ∷ rest) out).1 ≡ last_with id (members rest) out =
        rw (take_out, q) b in
      (rw (take_out, q) (ap (◌∷◌ i) a), c ∙ ap (last_with id (members rest)) (sym n))
]

everyone-keep_service :
    (svc : String) (m : ServiceInstances) (rest : List (String × ServiceInstances))
    → everyone (keep_service svc m rest) ≡ members m ++ everyone rest
unfolding keep_service
everyone-keep_service svc [] rest = refl
everyone-keep_service svc (kv ∷ m) rest = refl

-- The loops of a clean-up leave the other instances and find the last one with the id.
take_out_everywhere_lem :
    (id : String) (m : List (String × ServiceInstances)) (out : Option ServiceInstance)
    → (everyone (take_out_everywhere id m out).0 ≡ others id (everyone m))
      × ((take_out_everywhere id m out).1 ≡ last_with id (everyone m) out)
unfolding take_out_everywhere
take_out_everywhere_lem id [] out = (refl, refl)
take_out_everywhere_lem id ((svc, m) ∷ rest) out =
    let q = take_out id m out in
    let (a, b) = take_out_lem id m out in
    let (c, d) = take_out_everywhere_lem id rest q.1 in
    (
      everyone-keep_service svc q.0 (take_out_everywhere id rest q.1).0
          ∙ ap (λ x. x ++ everyone (take_out_everywhere id rest q.1).0) a
          ∙ ap (λ x. others id (members m) ++ x) c
          ∙ sym (others-append id (members m) (everyone rest)),
      d
          ∙ ap (last_with id (everyone rest)) b
          ∙ sym (last_with-append id (members m) (everyone rest) out),
    )

expire_lem :
    (s id : String) (r : ServiceRegistry) (ds : List DeltaEntry)
    → find s r.delta_map ≡ some ds
    → find s (expire r id).delta_map
      ≡ some (ds ++ lost s id (last_with id (everyone r.registry) none))
unfolding expire
expire_lem s id r ds e =
    let l = (take_out_everywhere_lem id r.registry none).1 in
    elim (Option-cases (take_out_everywhere id r.registry none).1) [
      | inl q ↦ rw (expire, q, sym l ∙ q, append-nil ds) e
      | inr (i, q) ↦ rw (expire, q, sym l ∙ q) (push_lem s id (gone i) r.delta_map ds e)
    ]

expire_all_lem :
    (s : String) (ids : List String) (r : ServiceRegistry) (ds : List DeltaEntry)
    → find s r.delta_map ≡ some ds
    → find s (expire_all r ids).delta_map ≡ some (ds ++ lost_all s (everyone r.registry) ids)
unfolding expire_all
expire_all_lem s [] r ds e = rw (append-nil ds) e
expire_all_lem s (id ∷ ids) r ds e =
    let up = everyone r.registry in
    let x = lost s id (last_with id up none) in
    let left : everyone (expire r id).registry ≡ others id up =
      unfold expire in (take_out_everywhere_lem id r.registry none).0 in
    expire_all_lem s ids (expire r id) (ds ++ x) (expire_lem s id r ds e)
    ∙ ap (λ u. some ((ds ++ x) ++ lost_all s u ids)) left
    ∙ ap some (append_assoc ds x (lost_all s (others id up) ids))

lost_none :
    (s : String) (r : ServiceRegistry) (svc id : String)
    → registered r svc id ≡ none
    → news s r (deregisters svc id) ≡ []
lost_none s r svc id e = ap (lost s id) e

unchanged_lem :
    (s : String) (r q : ServiceRegistry) (ds ns : List DeltaEntry)
    → find s r.delta_map ≡ some ds
    → q ≡ r
    → ns ≡ []
    → find s q.delta_map ≡ some (ds ++ ns)
unchanged_lem s r q ds ns e d n = rw (d, n, append-nil ds) e

change_lem :
    (s : String) (c : Change) (r : ServiceRegistry) (ds : List DeltaEntry)
    → find s r.delta_map ≡ some ds
    → find s (change r c).delta_map ≡ some (ds ++ news s r c)
unfolding register_instance deregister_instance cleanup_expired
change_lem s (registers i ttl true now) r ds e = push_lem s i.id _ r.delta_map ds e
change_lem s (registers i ttl false now) r ds e = rw (append-nil ds) e
change_lem s (deregisters svc id) r ds e = elim (Option-cases (find svc r.registry)) [
  | inl q ↦
      unchanged_lem s r (deregister_instance r svc id) ds (news s r (deregisters svc id)) e
        (rw (deregister_instance, q) refl) (lost_none s r svc id (rw (registered, q) refl))
  | inr (m, q) ↦ elim (Option-cases (find id m)) [
    | inl p ↦
        unchanged_lem s r (deregister_instance r svc id) ds (news s r (deregisters svc id)) e
          (rw (deregister_instance, q, p) refl) (lost_none s r svc id (rw (registered, q, p) refl))
    | inr (i, p) ↦
        let h : registered r svc id ≡ some i = rw (registered, q, p) refl in
        rw (deregister_instance, q, p)
          (push_lem s id (gone i) r.delta_map ds e ∙ ap (λ o. some (ds ++ lost s id o)) (sym h))
  ]
]
change_lem s (cleans_up now) r ds e = expire_all_lem s (expired_ids now r.expirations) r ds e

changes_lem :
    (s : String) (cs : List Change) (r : ServiceRegistry) (ds : List DeltaEntry)
    → find s r.delta_map ≡ some ds
    → find s (changes r cs).delta_map ≡ some (ds ++ all_news s r cs)
changes_lem s [] r ds e = rw (append-nil ds) e
changes_lem s (c ∷ cs) r ds e =
    changes_lem s cs (change r c) (ds ++ news s r c) (change_lem s c r ds e)
    ∙ ap some (append_assoc ds (news s r c) (all_news s (change r c) cs))

pub pop_deltas-changes :
    (s : String) (cs : List Change) (r : ServiceRegistry)
    → find s r.delta_map ≡ some []
    → let q = pop_deltas (changes r cs) s in
      (q.1 ≡ all_news s r cs)
      × (find s q.0.delta_map ≡ some [])
      × (q.0.registry ≡ (changes r cs).registry)
unfolding pop_deltas
pop_deltas-changes s cs r e =
    let d = changes_lem s cs r [] e in
    rw (pop_deltas, d)
      (refl, find-insert s s [] (changes r cs).delta_map ∙ rw (same_refl s) refl, refl)
