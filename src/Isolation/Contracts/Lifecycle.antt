-- ===== src/Isolation/Contracts/Lifecycle.antt =====
-- The life of a lease as a graph, and `transition_lease` of isolation/contracts.py as its moves.
use chaos_atlas.Prelude.{
  String, ◌≡◌, refl, ◌∙◌, ◌↔◌, ◌⊎◌, inl, inr, true, false, List, [], ◌∷◌, arith, ◌==◌, eq_iff,
  Bool-cases, member,
}
use chaos_atlas.Result.{ok}
use chaos_atlas.Value.{str, Dict, get, put, text_of, get-put, text_of-put_self}
use chaos_atlas.Isolation.Contracts.{Hasher, with_hash, verify_hash, transitions, transition_lease}
use chaos_atlas.Isolation.Contracts.Hashing.{
  verify_hash-with_hash, get-with_hash, text_of-with_hash_ne,
}

pub data LeaseState : Type 0 where
  planned preparing ready prepare_failed releasing cleanup_failed expired released : LeaseState

abbrev pub name : LeaseState → String
name planned = "planned"
name preparing = "preparing"
name ready = "ready"
name prepare_failed = "prepare_failed"
name releasing = "releasing"
name cleanup_failed = "cleanup_failed"
name expired = "expired"
name released = "released"

-- A state that still holds its resources, so that a release may begin.
pub data Open : LeaseState → Type 0 where
  planned_open : Open planned
  preparing_open : Open preparing
  ready_open : Open ready

infix 40 ◌⟶◌ ◌⟶*◌
pub data ◌⟶◌ : LeaseState → LeaseState → Type 0 where
  prepare : planned ⟶ preparing
  verify : preparing ⟶ ready
  fail : preparing ⟶ prepare_failed
  expire : {a : LeaseState} → Open a → a ⟶ expired
  release : {a : LeaseState} → Open a → a ⟶ releasing
  release_failed : prepare_failed ⟶ releasing
  release_expired : expired ⟶ releasing
  retry : cleanup_failed ⟶ releasing
  clean : releasing ⟶ released
  stuck : releasing ⟶ cleanup_failed

pub data ◌⟶*◌ : LeaseState → LeaseState → Type 0 where
  here : {a : LeaseState} → a ⟶* a
  next : {a b c : LeaseState} → a ⟶ b → b ⟶* c → a ⟶* c

ruleset edges = (
  prepare, verify, fail, expire, release, release_failed, release_expired, retry, clean, stuck,
  planned_open, preparing_open, ready_open,
)

abbrev Target : LeaseState → String → Type 0
Target a t = (b : LeaseState) × (t ≡ name b) × (a ⟶ b)

member-cases :
    (t x : String) (xs : List String) → member t (x ∷ xs) ≡ true → (t ≡ x) ⊎ (member t xs ≡ true)
member-cases t x xs h = ground (arith, eq_iff t x)

abbrev names : {a : LeaseState} → List ((b : LeaseState) × (a ⟶ b)) → List String
names [] = []
names ((b, e) ∷ es) = name b ∷ names es

pick :
    {a : LeaseState} (t : String) (es : List ((b : LeaseState) × (a ⟶ b)))
    → member t (names es) ≡ true
    → Target a t
pick t [] h = cc
pick t ((b, e) ∷ es) h = elim (member-cases t (name b) (names es) h) [
  | inl p ↦ (b, p, e)
  | inr q ↦ pick t es q
]

edge_of : (a : LeaseState) (t : String) → member t (transitions (name a)) ≡ true → Target a t
unfolding transitions
edge_of planned t =
    pick t (
      (preparing, prepare)
      ∷ (expired, expire planned_open)
      ∷ (releasing, release planned_open)
      ∷ [])
edge_of preparing t = pick t (
    (ready, verify)
    ∷ (prepare_failed, fail)
    ∷ (expired, expire preparing_open)
    ∷ (releasing, release preparing_open)
    ∷ [])
edge_of ready t = pick t ((expired, expire ready_open) ∷ (releasing, release ready_open) ∷ [])
edge_of prepare_failed t = pick t ((releasing, release_failed) ∷ [])
edge_of releasing t = pick t ((released, clean) ∷ (cleanup_failed, stuck) ∷ [])
edge_of cleanup_failed t = pick t ((releasing, retry) ∷ [])
edge_of expired t = pick t ((releasing, release_expired) ∷ [])
edge_of released t = pick t []

edge_listed : {a b : LeaseState} → a ⟶ b → member (name b) (transitions (name a)) ≡ true
unfolding transitions
edge_listed prepare = refl
edge_listed verify = refl
edge_listed fail = refl
edge_listed (expire planned_open) = refl
edge_listed (expire preparing_open) = refl
edge_listed (expire ready_open) = refl
edge_listed (release planned_open) = refl
edge_listed (release preparing_open) = refl
edge_listed (release ready_open) = refl
edge_listed release_failed = refl
edge_listed release_expired = refl
edge_listed retry = refl
edge_listed clean = refl
edge_listed stuck = refl

abbrev Known : String → Type 0
Known s = (a : LeaseState) × (s ≡ name a)

known : (s t : String) → member t (transitions s) ≡ true → Known s
unfolding transitions
known s t h = elim (Bool-cases (s == "planned")) [
  | inl e ↦ (planned, (eq_iff s _).0 e)
  | inr n1 ↦ elim (Bool-cases (s == "preparing")) [
    | inl e ↦ (preparing, (eq_iff s _).0 e)
    | inr n2 ↦ elim (Bool-cases (s == "ready")) [
      | inl e ↦ (ready, (eq_iff s _).0 e)
      | inr n3 ↦ elim (Bool-cases (s == "prepare_failed")) [
        | inl e ↦ (prepare_failed, (eq_iff s _).0 e)
        | inr n4 ↦ elim (Bool-cases (s == "releasing")) [
          | inl e ↦ (releasing, (eq_iff s _).0 e)
          | inr n5 ↦ elim (Bool-cases (s == "cleanup_failed")) [
            | inl e ↦ (cleanup_failed, (eq_iff s _).0 e)
            | inr n6 ↦ elim (Bool-cases (s == "expired")) [
              | inl e ↦ (expired, (eq_iff s _).0 e)
              | inr n7 ↦ absurd (cc (rw (n1, n2, n3, n4, n5, n6, n7) at h))
            ]
          ]
        ]
      ]
    ]
  ]
]

abbrev pub Refines : String → String → Type 0
Refines s t = (a : LeaseState) × (b : LeaseState) × (s ≡ name a) × (t ≡ name b) × (a ⟶ b)

table_edge : (s t : String) → member t (transitions s) ≡ true → Refines s t
table_edge s t h =
    let (a, p) = known s t h in let (b, q, e) = edge_of a t (rw p at h) in (a, b, p, q, e)

edge_table : (s t : String) → Refines s t → member t (transitions s) ≡ true
edge_table s t (a, b, p, q, e) = rw (p, q) (edge_listed e)

-- The table TRANSITIONS is the graph of the lease states.
pub transitions-Refines : (s t : String) → (member t (transitions s) ≡ true) ↔ Refines s t
transitions-Refines s t = (table_edge s t, edge_table s t)

-- The states after which an environment is only ever torn down.
abbrev pub cleaning_states : List String
cleaning_states = "prepare_failed" ∷ "releasing" ∷ "cleanup_failed" ∷ "expired" ∷ "released" ∷ []

cleaning_edge :
    {a b : LeaseState}
    → a ⟶ b
    → member (name a) cleaning_states ≡ true
    → member (name b) cleaning_states ≡ true
cleaning_edge prepare c = cc
cleaning_edge verify c = cc
cleaning_edge _ c = refl

cleaning_kept :
    (s t : String) → Refines s t → member s cleaning_states ≡ true → member t cleaning_states ≡ true
cleaning_kept s t (a, b, p, q, e) c = rw q (cleaning_edge e (rw p at c))

module _ (h : Hasher) where
  abbrev pub moved : Dict → String → Dict
  moved lease t = with_hash h (put "state" (str t) lease) "lease_sha256"

  pub transition_lease-ok :
      (lease lease' : Dict) (t : String)
      → transition_lease h lease t ≡ ok lease'
      → (member t (transitions (text_of "state" lease)) ≡ true) × (lease' ≡ moved lease t)
  unfolding transition_lease
  transition_lease-ok lease lease' t p = ground arith

  transition_lease_of :
      (lease : Dict) (t : String)
      → member t (transitions (text_of "state" lease)) ≡ true
      → transition_lease h lease t ≡ ok (moved lease t)
  unfolding transition_lease
  transition_lease_of lease t e = rw e

  transition_lease_along :
      (lease lease' : Dict) (t : String)
      → transition_lease h lease t ≡ ok lease'
      → Refines (text_of "state" lease) t × (lease' ≡ moved lease t)
  transition_lease_along lease lease' t p =
      let (listed, same) = transition_lease-ok lease lease' t p in
      (table_edge (text_of "state" lease) t listed, same)

  -- `transition_lease` succeeds exactly along an edge of the lease graph, which is that of the code's
  -- table TRANSITIONS; then it returns the lease with the new state and a fresh hash.
  pub transition_lease-Refines :
      (lease lease' : Dict) (t : String)
      → (transition_lease h lease t ≡ ok lease')
        ↔ (Refines (text_of "state" lease) t × (lease' ≡ moved lease t))
  transition_lease-Refines lease lease' t = (
    transition_lease_along lease lease' t,
    λ p. rw p.1 (transition_lease_of lease t (edge_table (text_of "state" lease) t p.0)),
  )

  state-moved : (lease : Dict) (t : String) → text_of "state" (moved lease t) ≡ t
  state-moved lease t =
      text_of-with_hash_ne h (put "state" (str t) lease) "lease_sha256" "state" refl
      ∙ text_of-put_self "state" t lease

  pub get-state_moved : (lease : Dict) (t : String) → get "state" (moved lease t) ≡ str t
  get-state_moved lease t =
      get-with_hash h (put "state" (str t) lease) "lease_sha256" "state" refl ∙ simp get-put

  -- A successful transition changes the state, leaves every other key but the hash alone, and its
  -- result passes the hash check of `validate_lease`.
  transition_lease_keeps :
      (lease lease' : Dict) (t key : String)
      → transition_lease h lease t ≡ ok lease'
      → ("state" == key) ≡ false
      → ("lease_sha256" == key) ≡ false
      → (text_of "state" lease' ≡ t)
        × (get key lease' ≡ get key lease)
        × (verify_hash h lease' "lease_sha256" ≡ true)
  transition_lease_keeps lease lease' t key p n1 n2 =
      let (_, same) = transition_lease-ok lease lease' t p in
      rw same (
        state-moved lease t,
        get-with_hash h _ "lease_sha256" key n2 ∙ simp (get-put, n1),
        verify_hash-with_hash h _ _,
      )

  -- A chain of successful transitions.
  pub data Moves : Dict → Dict → Type 0 where
    stay : {l : Dict} → Moves l l
    move : {l m n : Dict} (t : String) → transition_lease h l t ≡ ok m → Moves m n → Moves l n

  -- Once preparing failed, the lease expired or its release began, no chain of transitions brings
  -- the lease back to a state in which the environment is usable.
  pub Moves-cleaning :
      {l m : Dict}
      → Moves l m
      → member (text_of "state" l) cleaning_states ≡ true
      → member (text_of "state" m) cleaning_states ≡ true
  Moves-cleaning stay c = c
  Moves-cleaning (move {l} {m} t p rest) c =
      let (refines, same) = transition_lease_along l m t p in
      Moves-cleaning rest
        (rw (same, state-moved l t) (cleaning_kept (text_of "state" l) t refines c))

-- From every state a lease can still be driven to `released`.
pub ⟶*-released : (a : LeaseState) → a ⟶* released
⟶*-released released = here
⟶*-released _ = search (here, next, edges)

module _ (h : Hasher) where
  driven :
      (a b : LeaseState) (lease : Dict)
      → a ⟶* b
      → text_of "state" lease ≡ name a
      → (last : Dict) × Moves h lease last × (text_of "state" last ≡ name b)
  driven a b lease here e = (lease, stay, e)
  driven a c lease (next {b} step rest) e =
      let m = moved h lease (name b) in
      let ok_m = (transition_lease-Refines h lease m (name b)).1 ((a, b, e, refl, step), refl) in
      let (last, moves, at_last) = driven b c m rest (state-moved h lease (name b)) in
      (last, move (name b) ok_m moves, at_last)

  -- Every lease in one of the lease states can be driven to `released` by transitions that succeed.
  pub Moves-released :
      (a : LeaseState) (lease : Dict)
      → text_of "state" lease ≡ name a
      → (last : Dict) × Moves h lease last × (text_of "state" last ≡ "released")
  Moves-released a lease e = driven a released lease (⟶*-released a) e
