-- ===== src/Isolation/Planner/Ready.antt =====
-- What a plan rests on that the planner calls ready (isolation/planner.py).
use mathlib.Core.Path.{subst}
use chaos_atlas.Prelude.{
  String, ◌≡◌, refl, sym, ap, ◌∙◌, Bool, true, false, not, ◌&&◌, List, [], ◌∷◌, ◌++◌, map, arith,
  ◌==◌, if◌then◌else◌, member, nonempty, lowercase, pos, Bool-cases, inl, inr,
}
use chaos_atlas.Result.{Result, ok, err, value_error, ok-inj, >>=-eq-ok}
use chaos_atlas.Value.{
  Value, int, str, arr, obj, nil, Dict, end, field, put, get, either, is_true, is_dict, text_of,
  to_int, as_list, text,
}
use chaos_atlas.Isolation.Contracts.{Hasher, with_hash, isolation_levels, failures}
use chaos_atlas.Isolation.Contracts.Hashing.{get-with_hash}
use chaos_atlas.Isolation.Contracts.Report.{failures-nil, append-nil}
use chaos_atlas.Isolation.Blueprint.Resource.{dict_in}
use chaos_atlas.Isolation.Blueprint.{compile_blueprint}
use chaos_atlas.Isolation.Secrets.{sensitive_paths}
use chaos_atlas.Isolation.Planner.{
  Levels, mechanism_minimum, sub_dict, choose_levels, Minimum, Route, choose_route, route_blockers,
  default_mode, only_namespace, blueprint_valid, compiles, scan_config, exposed_paths,
  capability_blockers, plan_blockers, Facts, plan_facts, plan_document, plan,
}

abbrev pub Compiles : Dict → Type 0
Compiles blueprint =
    (compiled : List Dict) × (compile_blueprint blueprint "ca-l2-blueprint-validation"
        (put "chaosatlas.dev/managed" (str "true") end)
      ≡ ok compiled)

-- What the planner asks of a plan that is ready.
pub record ReadyGrounds (profile capability : Dict) (target : Value) (effective : String)
    : Type 0 where
  pub project : (text_of "project_id" profile == "") ≡ false
  pub synthetic : is_true (get "synthetic_data_only" (dict_in "isolation" profile)) ≡ true
  pub supported :
      member (text_of "capability_status" capability) ("inapplicable" ∷ "unsupported" ∷ []) ≡ false
  pub level : member (text_of "required_isolation" capability) ("L1" ∷ "L2" ∷ "L3" ∷ []) ≡ true
  pub route : Route
  pub is_route : choose_route profile effective target ≡ ok route
  pub is_config : route.config ≡ dict_in (lowercase effective) (dict_in "isolation" profile)
  pub valid : Bool
  pub is_valid : blueprint_valid (get "blueprint" route.config) ≡ ok valid
  pub compiled :
      (blueprint : Dict) → get "blueprint" route.config ≡ obj blueprint → Compiles blueprint
  pub unblocked : route.blockers ≡ []
  pub clean :
      sensitive_paths
        (obj (field "config" (obj (scan_config valid route.config)) (field "target" target end)))
        "$"
      ≡ []

compiles-true : (r : Result (List Dict)) → compiles r ≡ ok true → (rs : List Dict) × (r ≡ ok rs)
compiles-true (ok rs) e = (rs, refl)
compiles-true (err value_error m) e = absurd (cc)
compiles-true (err _ m) e = absurd (cc)

blueprint_valid-Compiles :
    (v : Value) (valid : Bool)
    → blueprint_valid v ≡ ok valid
    → (is_dict v && not valid) ≡ false
    → (blueprint : Dict) → v ≡ obj blueprint
    → Compiles blueprint
unfolding blueprint_valid is_dict
blueprint_valid-Compiles v true e t blueprint same = compiles-true _ (rw same at e)
blueprint_valid-Compiles v false e t blueprint same = absurd (cc (rw same at t))

exposed-nil :
    (valid : Bool) (config : Dict) (target : Value)
    → exposed_paths valid config target ≡ []
    → sensitive_paths
        (obj (field "config" (obj (scan_config valid config)) (field "target" target end)))
        "$"
      ≡ []
unfolding exposed_paths
exposed-nil valid config target e = e

choose_route-config :
    (profile : Dict) (effective : String) (target : Value) (route : Route)
    → choose_route profile effective target ≡ ok route
    → route.config ≡ dict_in (lowercase effective) (dict_in "isolation" profile)
unfolding choose_route
choose_route-config profile effective target route e =
    let (policy, p, e1) = >>=-eq-ok (sub_dict "namespace_policy" profile) _ e in
    let (namespaces, n, e2) =
      >>=-eq-ok (as_list (either (get "allowed_namespaces" policy) (arr nil))) _ e1 in
    let (bs, q, e3) = >>=-eq-ok (route_blockers effective _ _ _ namespaces target) _ e2 in
    ap (λ (r : Route). r.config) (sym (ok-inj e3))

map-nil : (f : String → String) (xs : List String) → map f xs ≡ [] → xs ≡ []
map-nil f [] e = refl
map-nil f (x ∷ xs) e = cc

negated : {b : Bool} → not b ≡ false → b ≡ true
negated e = ground arith

capability_blockers-nil :
    (status : String)
    → capability_blockers status ≡ []
    → member status ("inapplicable" ∷ "unsupported" ∷ []) ≡ false
capability_blockers-nil status e =
    elim (Bool-cases (member status ("inapplicable" ∷ "unsupported" ∷ []))) [
      | inl m ↦ cc (rw m at e)
      | inr m ↦ m
    ]

choose_levels-nil :
    (required : String) (proposed : Value) (minimum : Minimum)
    → (choose_levels required proposed minimum).blockers ≡ []
    → member required isolation_levels ≡ true
unfolding choose_levels
choose_levels-nil required proposed minimum e = ground arith

choose_route-synthetic :
    (profile : Dict) (effective : String) (target : Value) (route : Route)
    → choose_route profile effective target ≡ ok route
    → route.blockers ≡ []
    → is_true (get "synthetic_data_only" (dict_in "isolation" profile)) ≡ true
unfolding choose_route
choose_route-synthetic profile effective target route e b =
    let (policy, p, e1) = >>=-eq-ok (sub_dict "namespace_policy" profile) _ e in
    let (namespaces, n, e2) =
      >>=-eq-ok (as_list (either (get "allowed_namespaces" policy) (arr nil))) _ e1 in
    let isolation = dict_in "isolation" profile in
    let config = dict_in (lowercase effective) isolation in
    let mode = text (either (get "mode" config) (str (default_mode effective))) in
    let namespace = text (either (get "namespace" config) (only_namespace namespaces)) in
    let (bs, q, e3) =
      >>=-eq-ok (route_blockers effective config mode namespace namespaces target) _ e2 in
    let tests : List (Bool × String) =
      (
        not (is_true (get "synthetic_data_only" isolation)),
        "synthetic_data_only_declaration_required",
      )
      ∷ [] in
    let all : failures tests ++ bs ≡ route.blockers = ap (λ (r : Route). r.blockers) (ok-inj e3) in
    negated (failures-nil tests (append-nil (failures tests) bs (all ∙ b)).0).0

module _ (profile capability : Dict) (target : Value) where
  blockers-nil :
      (levels : Levels) (route : Route) (valid : Bool)
      → plan_blockers profile capability target levels route valid ≡ []
      → (levels.blockers ≡ [])
        × (member (text_of "capability_status" capability) ("inapplicable" ∷ "unsupported" ∷ [])
            ≡ false)
        × (route.blockers ≡ [])
        × ((text_of "project_id" profile == "") ≡ false)
        × ((is_dict (get "blueprint" route.config) && not valid) ≡ false)
        × (exposed_paths valid route.config target ≡ [])
  unfolding plan_blockers
  blockers-nil levels route valid e =
      let status = text_of "capability_status" capability in
      let (l, e1) = append-nil levels.blockers _ e in
      let (c, e2) = append-nil (capability_blockers status) _ e1 in
      let (r, e3) = append-nil route.blockers _ e2 in
      let tests : List (Bool × String) =
        (text_of "project_id" profile == "", "project_id_required")
        ∷ (is_dict (get "blueprint" route.config) && not valid, "invalid_sandbox_blueprint")
        ∷ [] in
      let (t, x) = append-nil (failures tests) _ e3 in
      let (project, (blueprint, _)) = failures-nil tests t in
      (
        l,
        capability_blockers-nil status c,
        r,
        project,
        blueprint,
        map-nil _ (exposed_paths valid route.config target) x,
      )

  plan_facts-ReadyGrounds :
      (proposed_isolation : Value) (facts : Facts)
      → plan_facts profile capability target proposed_isolation ≡ ok facts
      → facts.blockers ≡ []
      → ReadyGrounds profile capability target facts.levels.effective
  unfolding plan_facts
  plan_facts-ReadyGrounds proposed_isolation facts e b =
      let (minimum, m, e1) = >>=-eq-ok (mechanism_minimum (get "fault_id" capability) target) _ e in
      let required = text_of "required_isolation" capability in
      let levels = choose_levels required proposed_isolation minimum in
      let (route, r, e2) = >>=-eq-ok (choose_route profile levels.effective target) _ e1 in
      let (valid, v, e3) = >>=-eq-ok (blueprint_valid (get "blueprint" route.config)) _ e2 in
      let (contract, c, e4) = >>=-eq-ok (sub_dict "runtime_contract" profile) _ e3 in
      let (ready, t, e5) =
        >>=-eq-ok (to_int (either (get "ready_timeout_s" route.config) (int (pos 180)))) _ e4 in
      let (cleanup, k, e6) =
        >>=-eq-ok (to_int (either (get "cleanup_timeout_s" route.config) (int (pos 90)))) _ e5 in
      let same : plan_blockers profile capability target levels route valid ≡ facts.blockers =
        ap (λ (f : Facts). f.blockers) (ok-inj e6) in
      let (l, supported, unblocked, project, compiles, clean) =
        blockers-nil levels route valid (same ∙ b) in
      let at_level : levels.effective ≡ facts.levels.effective =
        ap (λ (f : Facts). f.levels.effective) (ok-inj e6) in
      subst (λ (level : String). ReadyGrounds profile capability target level) at_level
        (record {
          project = project;
          synthetic = choose_route-synthetic profile levels.effective target route r unblocked;
          supported = supported;
          level = choose_levels-nil required proposed_isolation minimum l;
          route = route;
          is_route = r;
          is_config = choose_route-config profile levels.effective target route r;
          valid = valid;
          is_valid = v;
          compiled = blueprint_valid-Compiles (get "blueprint" route.config) valid v compiles;
          unblocked = unblocked;
          clean = exposed-nil valid route.config target clean;
        })

  module _ (h : Hasher) where
    document_status :
        (facts : Facts)
        → get "status" (with_hash h (plan_document h facts) "plan_sha256")
          ≡ str (if nonempty facts.blockers then "blocked" else "ready")
    unfolding plan_document get
    document_status facts = get-with_hash h (plan_document h facts) "plan_sha256" "status" refl

    document_effective :
        (facts : Facts)
        → get "effective_isolation" (with_hash h (plan_document h facts) "plan_sha256")
          ≡ str facts.levels.effective
    unfolding plan_document get
    document_effective facts =
        get-with_hash h (plan_document h facts) "plan_sha256" "effective_isolation" refl

    status_blockers :
        (bs : List String)
        → str (if nonempty bs then "blocked" else "ready") ≡ str "ready"
        → bs ≡ []
    status_blockers [] e = refl
    status_blockers (b ∷ bs) e = cc

    -- A plan that the planner calls ready is of a named project with synthetic data only and a
    -- capability that is not ruled out and requires a known level; nothing blocks the route of its
    -- effective level, whose configuration is the profile's; its blueprint, if there is one,
    -- compiles, and neither its configuration, the declarations of generated Secrets in that
    -- blueprint aside, nor its target holds credential material.
    pub plan-ReadyGrounds :
        (proposed_isolation : Value) (document : Dict)
        → plan h profile capability target proposed_isolation ≡ ok document
        → get "status" document ≡ str "ready"
        → (effective : String) × (get "effective_isolation" document ≡ str effective)
          × ReadyGrounds profile capability target effective
    unfolding plan
    plan-ReadyGrounds proposed_isolation document e s =
        let (facts, f, done) =
          >>=-eq-ok (plan_facts profile capability target proposed_isolation) _ e in
        let status = ap (λ (d : Dict). get "status" d) (ok-inj done) ∙ s in
        (
          facts.levels.effective,
          sym (ap (λ (d : Dict). get "effective_isolation" d) (ok-inj done))
              ∙ document_effective facts,
          plan_facts-ReadyGrounds proposed_isolation facts f
              (status_blockers facts.blockers (sym (document_status facts) ∙ status)),
        )
