-- ===== src/Isolation/Planner/Floor.antt =====
-- The isolation floor of the planner (isolation/planner.py) against `validate_plan`.
use Prim.Native.Nat.{max}
use mathlib.Core.Path.{subst}
use chaos_atlas.Prelude.{
  pos, ℕ, zero, suc, eqb, ◌<◌, ◌≤◌, String, ◌≡◌, refl, sym, ap, ◌∙◌, Bool, true, false, some, [],
  arith, ◌==◌, if◌then◌else◌, ltb, member, All-member, Bool-cases, inl, inr, ◌⊎◌,
}
use chaos_atlas.Result.{ok, ok-inj, >>=-eq-ok}
use chaos_atlas.Value.{
  Value, int, str, obj, Dict, end, get, has, either, truthy, is_str, text, text_of, item, as_dict,
  to_int, has-put, has-without,
}
use chaos_atlas.Isolation.Contracts.{Hasher, with_hash, verify_hash, isolation_levels}
use chaos_atlas.Isolation.Contracts.Hashing.{get-with_hash, verify_hash-with_hash}
use chaos_atlas.Isolation.Contracts.Plan.{level_of, level_index, level_errors, floor_errors}
use chaos_atlas.Isolation.Planner.{
  place, level_at, Levels, Minimum, mechanism_minimum, memory_minimum, sub_dict, choose_levels,
  Facts, plan_facts, plan_document, plan, choose_route, blueprint_valid,
}

abbrev pub IsLevel : String → Type 0
IsLevel level = member level isolation_levels ≡ true

abbrev highest : String → String → String → String
highest r p m = level_at (max (max (place r) (place p)) (place m))

abbrev Index : String → ℕ → Type 0
Index s n = level_of (str s) ≡ some n

-- The place of a level is its index.
level_place : (s : String) → IsLevel s → level_of (str s) ≡ some (place s)
unfolding level_of
level_place s m =
    All-member (λ t. level_of (str t) ≡ some (place t)) s isolation_levels
      (refl, (refl, (refl, tt))) m

place_level : (s : String) → IsLevel s → place s < 3
place_level s m = ground arith

chosen-IsLevel : (a b : Bool) → IsLevel (if a then "L1" else if b then "L2" else "L3")
chosen-IsLevel true b = refl
chosen-IsLevel false true = refl
chosen-IsLevel false false = refl

level_at-IsLevel : (n : ℕ) → IsLevel (level_at n)
level_at-IsLevel n = chosen-IsLevel (eqb n 0) (eqb n 1)

place-level_at : (n : ℕ) → n < 3 → place (level_at n) ≡ n
place-level_at zero b = refl
place-level_at (suc zero) b = refl
place-level_at (suc (suc zero)) b = refl
place-level_at (suc (suc (suc n))) b = absurd (omega arith)

max_below : (a b : ℕ) → a < 3 → b < 3 → max a b < 3
max_below a b p q = omega arith

-- Four levels of isolation, the last of which is the highest.
abbrev pub LevelsHold : Levels → Type 0
LevelsHold l =
    (IsLevel l.requested)
    × (IsLevel l.proposed)
    × (IsLevel l.minimum)
    × (IsLevel l.effective)
    × (place l.effective ≡ max (max (place l.requested) (place l.proposed)) (place l.minimum))

kept-IsLevel :
    (wanted other : String)
    → IsLevel other
    → IsLevel (if member wanted isolation_levels then wanted else other)
kept-IsLevel wanted other o = elim (Bool-cases (member wanted isolation_levels)) [
  | inl e ↦ rw e e
  | inr e ↦ rw e o
]

highest-IsLevel :
    (r p m : String)
    → IsLevel r
    → IsLevel p
    → IsLevel m
    → (IsLevel r)
      × (IsLevel p)
      × (IsLevel m)
      × (IsLevel (highest r p m))
      × (place (highest r p m) ≡ max (max (place r) (place p)) (place m))
highest-IsLevel r p m lr lp lm =
    let bound =
      max_below _ _ (max_below _ _ (place_level r lr) (place_level p lp)) (place_level m lm) in
    (
      lr,
      lp,
      lm,
      level_at-IsLevel (max (max (place r) (place p)) (place m)),
      place-level_at (max (max (place r) (place p)) (place m)) bound,
    )

choose_levels-LevelsHold :
    (required : String) (proposed_isolation : Value) (minimum : Minimum)
    → IsLevel minimum.level
    → LevelsHold (choose_levels required proposed_isolation minimum)
unfolding choose_levels
choose_levels-LevelsHold required proposed_isolation minimum m =
    let requested = if member required isolation_levels then required else "L3" in
    let wanted = text (either proposed_isolation (str requested)) in
    let proposed = if member wanted isolation_levels then wanted else requested in
    let r : IsLevel requested = kept-IsLevel required "L3" refl in
    let p : IsLevel proposed = kept-IsLevel wanted requested r in
    highest-IsLevel requested proposed minimum.level r p m

memory_minimum-IsLevel : (limits : Dict) → IsLevel (memory_minimum limits).level
memory_minimum-IsLevel limits = elim (Bool-cases (truthy (get "memory" limits))) [
  | inl e ↦ rw e refl
  | inr e ↦ rw e refl
]

mechanism_minimum-IsLevel :
    (fault_id target : Value) (minimum : Minimum)
    → mechanism_minimum fault_id target ≡ ok minimum
    → IsLevel minimum.level
unfolding mechanism_minimum
mechanism_minimum-IsLevel fault_id target minimum e =
    elim (Bool-cases (is_str "api_server_delay" fault_id)) [
      | inl a ↦ rw (← ok-inj (rw a at e)) refl
      | inr a ↦ elim (Bool-cases (is_str "stress_memory" fault_id)) [
        | inl b ↦
            let (facts, f, e1) = >>=-eq-ok (as_dict (either target (obj end))) _ (rw (a, b) at e) in
            let (deployment, d, e2) = >>=-eq-ok (sub_dict "deployment" facts) _ e1 in
            let (resources, r, e3) = >>=-eq-ok (sub_dict "resources" deployment) _ e2 in
            let (limits, l, e4) = >>=-eq-ok (sub_dict "limits" resources) _ e3 in
            rw (← ok-inj e4) (memory_minimum-IsLevel limits)
        | inr b ↦ rw (← ok-inj (rw (a, b) at e)) refl
      ]
    ]

-- The limits of a target's containers.
abbrev pub LimitsOf : Value → Dict → Type 0
LimitsOf target limits =
    (facts deployment resources : Dict) × (as_dict (either target (obj end)) ≡ ok facts)
    × (sub_dict "deployment" facts ≡ ok deployment)
    × (sub_dict "resources" deployment ≡ ok resources)
    × (sub_dict "limits" resources ≡ ok limits)

-- The least isolation of a fault: a whole cluster for a delay of the API server, an ephemeral target
-- for memory stress without a memory limit, and none of its own for the other faults.
abbrev pub MinimumOf : Value → Value → String → Type 0
MinimumOf fault_id target level =
    ((is_str "api_server_delay" fault_id ≡ true) × (level ≡ "L3"))
    ⊎ (((is_str "api_server_delay" fault_id ≡ false)
          × (is_str "stress_memory" fault_id ≡ true)
          × (limits : Dict) × LimitsOf target limits
          × (level ≡ (if truthy (get "memory" limits) then "L1" else "L2")))
        ⊎ ((is_str "api_server_delay" fault_id ≡ false)
            × (is_str "stress_memory" fault_id ≡ false)
            × (level ≡ "L1")))

memory_minimum-level :
    (limits : Dict)
    → (memory_minimum limits).level ≡ (if truthy (get "memory" limits) then "L1" else "L2")
memory_minimum-level limits = elim (Bool-cases (truthy (get "memory" limits))) [
  | inl e ↦ rw e refl
  | inr e ↦ rw e refl
]

mechanism_minimum-MinimumOf :
    (fault_id target : Value) (minimum : Minimum)
    → mechanism_minimum fault_id target ≡ ok minimum
    → MinimumOf fault_id target minimum.level
unfolding mechanism_minimum
mechanism_minimum-MinimumOf fault_id target minimum e =
    elim (Bool-cases (is_str "api_server_delay" fault_id)) [
      | inl a ↦ inl (a, rw (← ok-inj (rw a at e)) refl)
      | inr a ↦ elim (Bool-cases (is_str "stress_memory" fault_id)) [
        | inl b ↦
            let (facts, f, e1) = >>=-eq-ok (as_dict (either target (obj end))) _ (rw (a, b) at e) in
            let (deployment, d, e2) = >>=-eq-ok (sub_dict "deployment" facts) _ e1 in
            let (resources, r, e3) = >>=-eq-ok (sub_dict "resources" deployment) _ e2 in
            let (limits, l, e4) = >>=-eq-ok (sub_dict "limits" resources) _ e3 in
            inr (
              inl (
                a,
                b,
                limits,
                (facts, deployment, resources, f, d, r, l),
                ap (λ (x : Minimum). x.level) (sym (ok-inj e4)) ∙ memory_minimum-level limits,
              ))
        | inr b ↦ inr (inr (a, b, rw (← ok-inj (rw (a, b) at e)) refl))
      ]
    ]

-- The level that the capability requires, where it is known.
abbrev required_level : Dict → String
required_level capability =
    if member (text_of "required_isolation" capability) isolation_levels
    then text_of "required_isolation" capability
    else "L3"

-- The proposal, where there is a known one, or else the required level.
abbrev proposed_level : Dict → Value → String
proposed_level capability proposed_isolation =
    if member (text (either proposed_isolation (str (required_level capability)))) isolation_levels
    then text (either proposed_isolation (str (required_level capability)))
    else required_level capability

-- The levels are those that were asked for, and the effective one is the highest of them.
pub record Chosen (capability : Dict) (target proposed_isolation : Value) (l : Levels)
    : Type 0 where
  pub required : l.requested ≡ required_level capability
  pub proposed : l.proposed ≡ proposed_level capability proposed_isolation
  pub minimum : MinimumOf (get "fault_id" capability) target l.minimum
  pub hold : LevelsHold l

chosen :
    (capability : Dict) (target proposed_isolation : Value) (minimum : Minimum)
    → mechanism_minimum (get "fault_id" capability) target ≡ ok minimum
    → Chosen capability target proposed_isolation
        (choose_levels (text_of "required_isolation" capability) proposed_isolation minimum)
unfolding choose_levels
chosen capability target proposed_isolation minimum m = record {
  required = refl;
  proposed = refl;
  minimum = mechanism_minimum-MinimumOf (get "fault_id" capability) target minimum m;
  hold =
      choose_levels-LevelsHold (text_of "required_isolation" capability) proposed_isolation minimum
        (mechanism_minimum-IsLevel (get "fault_id" capability) target minimum m);
}

plan_facts-Chosen :
    (profile capability : Dict) (target proposed_isolation : Value) (facts : Facts)
    → plan_facts profile capability target proposed_isolation ≡ ok facts
    → Chosen capability target proposed_isolation facts.levels
unfolding plan_facts
plan_facts-Chosen profile capability target proposed_isolation facts e =
    let (minimum, m, e1) = >>=-eq-ok (mechanism_minimum (get "fault_id" capability) target) _ e in
    let levels =
      choose_levels (text_of "required_isolation" capability) proposed_isolation minimum in
    let (route, r, e2) = >>=-eq-ok (choose_route profile levels.effective target) _ e1 in
    let (valid, v, e3) = >>=-eq-ok (blueprint_valid (get "blueprint" route.config)) _ e2 in
    let (contract, c, e4) = >>=-eq-ok (sub_dict "runtime_contract" profile) _ e3 in
    let (ready, t, e5) =
      >>=-eq-ok (to_int (either (get "ready_timeout_s" route.config) (int (pos 180)))) _ e4 in
    let (cleanup, k, e6) =
      >>=-eq-ok (to_int (either (get "cleanup_timeout_s" route.config) (int (pos 90)))) _ e5 in
    let same : levels ≡ facts.levels = ap (λ (f : Facts). f.levels) (ok-inj e6) in
    subst (λ (l : Levels). Chosen capability target proposed_isolation l) same
      (chosen capability target proposed_isolation minimum m)

not_below : (a b : ℕ) → b ≤ a → ltb a b ≡ false
not_below a b le = ground arith

module _ (h : Hasher) where
  has-with_hash :
      (value : Dict) (key j : String)
      → (key == j) ≡ false
      → has j (with_hash h value key) ≡ has j value
  unfolding with_hash
  has-with_hash value key j apart = simp (has-put, has-without, apart)

  -- A document with a level under a key, read as `validate_plan` reads it.
  level_index-level :
      (key level : String) (document : Dict)
      → has key document ≡ true
      → get key document ≡ str level
      → IsLevel level
      → level_index key document ≡ ok (place level)
  unfolding level_index item
  level_index-level key level document p g l = rw (p, g) (ground (arith, level_place level l))

  no_complaint :
      (r p m e : ℕ) → e ≡ max (max r p) m → (ltb e (max r (max p m)) ≡ false) × (ltb e r ≡ false)
  no_complaint r p m e q =
      (not_below e (max r (max p m)) (omega arith), not_below e r (omega arith))

  -- The level checks on a document that has the four levels.
  levels_pass :
      (l : Levels) (document : Dict)
      → LevelsHold l
      → has "requested_isolation" document ≡ true
      → has "effective_isolation" document ≡ true
      → get "requested_isolation" document ≡ str l.requested
      → get "proposed_isolation" document ≡ str l.proposed
      → get "mechanism_minimum_isolation" document ≡ str l.minimum
      → get "effective_isolation" document ≡ str l.effective
      → (level_errors
            (level_of (get "requested_isolation" document))
            (level_of (get "effective_isolation" document))
          ≡ [])
        × (floor_errors
              (level_of (get "proposed_isolation" document))
              (level_of (get "mechanism_minimum_isolation" document))
              document
            ≡ ok [])
  unfolding level_errors floor_errors
  levels_pass l document (lr, lp, lm, le, top) hr he gr gp gm ge =
      let (floor, asked) =
        no_complaint (place l.requested) (place l.proposed) (place l.minimum) (place l.effective)
          top in
      (
        rw (gr, ge, level_place l.requested lr, level_place l.effective le, asked) refl,
        rw
            (
              gp,
              gm,
              level_place l.proposed lp,
              level_place l.minimum lm,
              level_index-level "requested_isolation" l.requested document hr gr lr,
              level_index-level "effective_isolation" l.effective document he ge le,
              floor,
            )
            refl,
      )

  -- What the document of a plan says of its levels, and what `validate_plan` makes of them.
  pub record Floored (capability : Dict) (target proposed_isolation : Value) (document : Dict)
      : Type 0 where
    pub levels : Levels
    pub chosen_levels : Chosen capability target proposed_isolation levels
    pub requested : get "requested_isolation" document ≡ str levels.requested
    pub proposed : get "proposed_isolation" document ≡ str levels.proposed
    pub minimum : get "mechanism_minimum_isolation" document ≡ str levels.minimum
    pub effective : get "effective_isolation" document ≡ str levels.effective
    pub asked :
        level_errors
          (level_of (get "requested_isolation" document))
          (level_of (get "effective_isolation" document))
        ≡ []
    pub floor :
        floor_errors
          (level_of (get "proposed_isolation" document))
          (level_of (get "mechanism_minimum_isolation" document))
          document
        ≡ ok []
    pub hashed : verify_hash h document "plan_sha256" ≡ true

  document-Floored :
      (capability : Dict) (target proposed_isolation : Value) (f : Facts)
      → Chosen capability target proposed_isolation f.levels
      → Floored capability target proposed_isolation (with_hash h (plan_document h f) "plan_sha256")
  unfolding plan_document get has
  document-Floored capability target proposed_isolation f l =
      let document = plan_document h f in
      let r = get-with_hash h document "plan_sha256" "requested_isolation" refl in
      let p = get-with_hash h document "plan_sha256" "proposed_isolation" refl in
      let m = get-with_hash h document "plan_sha256" "mechanism_minimum_isolation" refl in
      let e = get-with_hash h document "plan_sha256" "effective_isolation" refl in
      let (asked, floor) =
        levels_pass f.levels (with_hash h document "plan_sha256") l.hold
          (has-with_hash document "plan_sha256" "requested_isolation" refl)
          (has-with_hash document "plan_sha256" "effective_isolation" refl) r p m e in
      record {
        levels = f.levels;
        chosen_levels = l;
        requested = r;
        proposed = p;
        minimum = m;
        effective = e;
        asked = asked;
        floor = floor;
        hashed = verify_hash-with_hash h document "plan_sha256";
      }

  -- A plan of the planner names four isolation levels: what the capability requires, what was
  -- proposed, the least level of the fault's mechanism on the target, and, as the effective one, the
  -- highest of the three, so that the level checks of `validate_plan` have no complaint; and its
  -- hash verifies.
  pub plan-Floored :
      (profile capability : Dict) (target proposed_isolation : Value) (document : Dict)
      → plan h profile capability target proposed_isolation ≡ ok document
      → Floored capability target proposed_isolation document
  unfolding plan
  plan-Floored profile capability target proposed_isolation document e =
      let (facts, f, done) =
        >>=-eq-ok (plan_facts profile capability target proposed_isolation) _ e in
      subst (λ (d : Dict). Floored capability target proposed_isolation d) (ok-inj done)
        (document-Floored capability target proposed_isolation facts
          (plan_facts-Chosen profile capability target proposed_isolation facts f))
