-- ===== src/Isolation/Planner.antt =====
-- isolation/planner.py: from the capability and the target to an isolation plan.
pub mod Floor
pub mod Ready
use Prim.Native.Nat.{max}
use chaos_atlas.Prelude.{
  ℕ, String, Bool, true, false, not, ◌&&◌, ◌||◌, List, [], ◌∷◌, ◌++◌, map, ◌==◌, if◌then◌else◌, leb,
  eqb, member, length, nonempty, format, pos, lowercase, starts_with, dash_runs, strip_dashes,
  take_text, codes, all,
}
use chaos_atlas.Result.{Result, ok, err, value_error, ◌>>=◌}
use chaos_atlas.Value.{
  Value, null, bool, int, str, arr, obj, Items, nil, cons, Dict, end, field, get, put, without,
  either, truthy, present, is_true, is_dict, is_list, is_str, text, text_of, as_dict, as_list,
  to_int, str_list, dict_of, of_list, items, value_eq,
}
use chaos_atlas.Isolation.Secrets.{sensitive_paths, redact_sensitive, redact_entries, sorted_set}
use chaos_atlas.Isolation.Contracts.{Hasher, with_hash, isolation_levels, failures}
use chaos_atlas.Isolation.Contracts.Plan.{strip_generated}
use chaos_atlas.Isolation.Blueprint.{compile_blueprint}
use chaos_atlas.Isolation.Blueprint.Resource.{dict_in}

-- [a-z0-9-]
abbrev fragment_char : ℕ → Bool
fragment_char c = (leb 97 c && leb c 122) || ((leb 48 c && leb c 57) || eqb c 45)

unfoldable pub safe_fragment : String → String
safe_fragment s =
    let result = take_text 32 (strip_dashes (dash_runs fragment_char false (lowercase s))) in
    if result == "" then "project" else result

-- `ISOLATION_LEVELS.index(level)` and back
abbrev pub place : String → ℕ
place level = if level == "L1" then 0 else if level == "L2" then 1 else 2

abbrev pub level_at : ℕ → String
level_at n = if eqb n 0 then "L1" else if eqb n 1 then "L2" else "L3"

pub record Levels : Type 0 where
  pub requested : String
  pub proposed : String
  pub minimum : String
  pub effective : String
  pub reasons : List String
  pub blockers : List String

-- the least isolation that the fault's mechanism needs, with its reason
pub record Minimum : Type 0 where
  pub level : String
  pub reasons : List String

abbrev no_minimum : Minimum
no_minimum = record { level = "L1"; reasons = [] }

abbrev memory_minimum : Dict → Minimum
memory_minimum limits =
    if truthy (get "memory" limits)
    then no_minimum
    else record { level = "L2"; reasons = "unbounded_memory_target_requires_ephemeral_target" ∷ [] }

-- `d.get(key) or {}`, of which `get` is called
abbrev pub sub_dict : String → Dict → Result Dict
sub_dict key d = as_dict (either (get key d) (obj end))

unfoldable pub mechanism_minimum : Value → Value → Result Minimum
mechanism_minimum fault_id target =
    if is_str "api_server_delay" fault_id
    then ok
        (record { level = "L3"; reasons = "control_plane_fault_requires_disposable_cluster" ∷ [] })
    else if is_str "stress_memory" fault_id
    then (do
      facts ← as_dict (either target (obj end))
      deployment ← sub_dict "deployment" facts
      resources ← sub_dict "resources" deployment
      limits ← sub_dict "limits" resources
      ok (memory_minimum limits))
    else ok no_minimum

-- `proposed_isolation` is null where none is proposed.
unfoldable pub choose_levels : String → Value → Minimum → Levels
choose_levels required proposed_isolation minimum =
    let known = member required isolation_levels in
    let requested = if known then required else "L3" in
    let wanted = text (either proposed_isolation (str requested)) in
    let proposed = if member wanted isolation_levels then wanted else requested in
    record {
      requested = requested;
      proposed = proposed;
      minimum = minimum.level;
      effective = level_at (max (max (place requested) (place proposed)) (place minimum.level));
      reasons =
          format ("capability_required:" ∷ requested ∷ [])
          ∷ format ("proposed:" ∷ proposed ∷ [])
          ∷ minimum.reasons;
      blockers = failures (
          (not known, "invalid_required_isolation")
          ∷ (not (member wanted isolation_levels), "invalid_proposed_isolation")
          ∷ []);
    }

abbrev pub provider_of : String → String
provider_of level =
    if level == "L1"
    then "kubernetes-l1"
    else if level == "L2"
    then "kubernetes-l2"
    else "minikube-l3"

abbrev default_mode : String → String
default_mode level =
    if level == "L1"
    then "adopted-test-replica"
    else if level == "L2"
    then "ephemeral-target"
    else "ephemeral-cluster"

-- [a-z0-9]
abbrev name_char : ℕ → Bool
name_char c = (leb 97 c && leb c 122) || (leb 48 c && leb c 57)

abbrev last_named : List ℕ → Bool
last_named [] = false
last_named (c ∷ []) = name_char c
last_named (c ∷ d ∷ cs) = last_named (d ∷ cs)

abbrev first_named : List ℕ → Bool
first_named [] = false
first_named (c ∷ cs) = name_char c

-- re.fullmatch(r"[a-z0-9]([-a-z0-9]*[a-z0-9])?", name)
unfoldable pub is_namespace : String → Bool
is_namespace name =
    let cs = codes name in
    first_named cs && (last_named cs && all (λ c. name_char c || eqb c 45) cs)

-- `v not in (None, [])`
abbrev pub endpoints_given : Value → Bool
endpoints_given null = false
endpoints_given (arr nil) = false
endpoints_given _ = true

-- `namespace in namespaces`
abbrev pub listed : String → List Value → Bool
listed namespace [] = false
listed namespace (v ∷ vs) = is_str namespace v || listed namespace vs

-- the blockers of an L1 plan
unfoldable pub l1_blockers : Dict → String → String → List Value → List String
l1_blockers config mode namespace namespaces =
    if mode == "adopted-test-replica"
    then failures (
        (
          not (is_true (get "dedicated_test_replica" config)) || namespace == "",
          "dedicated_test_replica_declaration_required",
        )
        ∷ (not (listed namespace namespaces), "source_namespace_not_allowlisted")
        ∷ (
          not (is_namespace namespace) || (namespace == "default" || starts_with "kube-" namespace),
          "unsafe_source_namespace",
        )
        ∷ (
          endpoints_given (get "external_data_endpoints" config),
          "external_data_endpoints_forbidden",
        )
        ∷ [])
    else if mode == "ephemeral-app-clone"
    then failures ((not (is_dict (get "blueprint" config)), "l1_blueprint_required") ∷ [])
    else "unsupported_l1_mode" ∷ []

-- `isinstance(v, list) and v`
abbrev filled_list : Value → Bool
filled_list (arr (cons v vs)) = true
filled_list _ = false

unfoldable pub l2_blockers : Dict → Value → Result (List String)
l2_blockers config target = do
  facts ← as_dict (either target (obj end))
  ok (
      failures (
        (
          not (is_dict (get "blueprint" config))
              && not (filled_list (get "container_blueprints" (dict_in "extensions" facts))),
          "sandbox_blueprint_or_container_facts_required",
        )
        ∷ []))

unfoldable pub route_blockers :
    String → Dict → String → String → List Value → Value → Result (List String)
route_blockers effective config mode namespace namespaces target =
    if effective == "L1"
    then ok (l1_blockers config mode namespace namespaces)
    else if effective == "L2"
    then l2_blockers config target
    else ok (failures ((not (mode == "ephemeral-cluster"), "unsupported_l3_mode") ∷ []))

-- where the plan runs, and what stands against it; `allowed_namespaces` is a list
pub record Route : Type 0 where
  pub config : Dict
  pub mode : String
  pub namespace : String
  pub blockers : List String

abbrev only_namespace : List Value → Value
only_namespace (v ∷ []) = v
only_namespace _ = str ""

unfoldable pub choose_route : Dict → String → Value → Result Route
choose_route profile effective target = do
  let isolation = dict_in "isolation" profile
  let config = dict_in (lowercase effective) isolation
  let mode = text (either (get "mode" config) (str (default_mode effective)))
  policy ← sub_dict "namespace_policy" profile
  namespaces ← as_list (either (get "allowed_namespaces" policy) (arr nil))
  let namespace = text (either (get "namespace" config) (only_namespace namespaces))
  blockers ← route_blockers effective config mode namespace namespaces target
  ok (record {
    config = config;
    mode = mode;
    namespace = namespace;
    blockers =
        failures (
          (
            not (is_true (get "synthetic_data_only" isolation)),
            "synthetic_data_only_declaration_required",
          )
          ∷ [])
        ++ blockers;
  })

-- `try: compile_blueprint(…) except ValueError`
abbrev pub compiles : Result (List Dict) → Result Bool
compiles (ok resources) = ok true
compiles (err value_error m) = ok false
compiles (err e m) = err e m

unfoldable pub blueprint_valid : Value → Result Bool
blueprint_valid (obj blueprint) = compiles (
    compile_blueprint blueprint "ca-l2-blueprint-validation"
      (put "chaosatlas.dev/managed" (str "true") end))
blueprint_valid _ = ok false

-- the blueprint without the declarations of generated Secrets
abbrev strip_blueprint : Value → Value
strip_blueprint (obj blueprint) = elim (get "resources" blueprint) [
  | arr rs ↦ obj (put "resources" (arr (strip_generated rs)) blueprint)
  | _ ↦ obj blueprint
]
strip_blueprint v = v

-- `safe_resources[index]["runtimeGenerate"] = resource["runtimeGenerate"]`
unfoldable pub restore_generated : Items → Items → Items
restore_generated (cons (obj safe) ss) (cons (obj source) rs) =
    let rest = restore_generated ss rs in
    cons
      (obj (
        if is_str "Secret" (get "kind" source)
        then put "runtimeGenerate" (get "runtimeGenerate" source) safe
        else safe))
      rest
restore_generated (cons s ss) (cons r rs) = cons s (restore_generated ss rs)
restore_generated ss rs = ss

abbrev restored : Value → Value → Dict → Dict
restored (arr safe) (arr source) blueprint =
    put "resources" (arr (restore_generated safe source)) blueprint
restored _ _ blueprint = blueprint

abbrev restore_blueprint : Value → Value → Value
restore_blueprint (obj safe) (obj source) =
    obj (restored (get "resources" safe) (get "resources" source) safe)
restore_blueprint safe source = safe

unfoldable pub scan_config : Bool → Dict → Dict
scan_config valid config =
    if valid then put "blueprint" (strip_blueprint (get "blueprint" config)) config else config

unfoldable pub safe_config : Bool → Dict → Dict
safe_config valid config =
    let safe = redact_entries config in
    if valid
    then put "blueprint" (restore_blueprint (get "blueprint" safe) (get "blueprint" config)) safe
    else safe

unfoldable pub exposed_paths : Bool → Dict → Value → List String
exposed_paths valid config target =
    sensitive_paths
      (obj (field "config" (obj (scan_config valid config)) (field "target" target end))) "$"

abbrev pub exposure_blockers : List String → List String
exposure_blockers paths = map (λ path. format ("sensitive_material_detected:" ∷ path ∷ [])) paths

abbrev capability_blockers : String → List String
capability_blockers status =
    if member status ("inapplicable" ∷ "unsupported" ∷ [])
    then format ("capability_" ∷ status ∷ []) ∷ []
    else []

abbrev optional : String → Value
optional s = if s == "" then null else str s

abbrev default_budget : Dict
default_budget = dict_of (("cpu", str "2") ∷ ("memory", str "2Gi") ∷ ("pods", int (pos 20)) ∷ [])

abbrev texts : List String → Value
texts ss = arr (str_list ss)

abbrev dict_or_null : Value → Value
dict_or_null (obj d) = obj d
dict_or_null _ = null

pub record Facts : Type 0 where
  pub profile : Dict
  pub capability : Dict
  pub target : Value
  pub levels : Levels
  pub route : Route
  pub config : Dict  -- redacted
  pub runtime_contract : Dict
  pub blockers : List String
  pub ready_timeout_s : Value
  pub cleanup_timeout_s : Value

unfoldable pub plan_blockers : Dict → Dict → Value → Levels → Route → Bool → List String
plan_blockers profile capability target levels route valid =
    levels.blockers
    ++ (capability_blockers (text_of "capability_status" capability)
        ++ (route.blockers
            ++ (failures (
                  (text_of "project_id" profile == "", "project_id_required")
                  ∷ (
                    is_dict (get "blueprint" route.config) && not valid,
                    "invalid_sandbox_blueprint",
                  )
                  ∷ [])
                ++ exposure_blockers (exposed_paths valid route.config target))))

unfoldable pub plan_facts : Dict → Dict → Value → Value → Result Facts
plan_facts profile capability target proposed_isolation = do
  minimum ← mechanism_minimum (get "fault_id" capability) target
  let levels = choose_levels (text_of "required_isolation" capability) proposed_isolation minimum
  route ← choose_route profile levels.effective target
  valid ← blueprint_valid (get "blueprint" route.config)
  runtime_contract ← sub_dict "runtime_contract" profile
  ready ← to_int (either (get "ready_timeout_s" route.config) (int (pos 180)))
  cleanup ← to_int (either (get "cleanup_timeout_s" route.config) (int (pos 90)))
  ok (record {
    profile = profile;
    capability = capability;
    target = target;
    levels = levels;
    route = route;
    config = safe_config valid route.config;
    runtime_contract = runtime_contract;
    blockers = plan_blockers profile capability target levels route valid;
    ready_timeout_s = int ready;
    cleanup_timeout_s = int cleanup;
  })

module _ (h : Hasher) where
  abbrev identity : Facts → Dict
  identity f = dict_of (
      ("project_id", str (text_of "project_id" f.profile))
      ∷ ("project_revision", str (text_of "project_commit" f.profile))
      ∷ ("capability_id", str (text_of "fault_id" f.capability))
      ∷ ("target_id", get "target_id" f.capability)
      ∷ ("requested_isolation", str f.levels.requested)
      ∷ ("proposed_isolation", str f.levels.proposed)
      ∷ ("mechanism_minimum_isolation", str f.levels.minimum)
      ∷ ("effective_isolation", str f.levels.effective)
      ∷ ("provider", str (provider_of f.levels.effective))
      ∷ ("mode", str f.route.mode)
      ∷ ("source_namespace", str f.route.namespace)
      ∷ ("config", obj f.config)
      ∷ ("target_sha256", str (h.canonical_hash (either (redact_sensitive f.target) (obj end))))
      ∷ ("parent_lease_id", get "parent_isolation_lease_id" f.runtime_contract)
      ∷ [])

  unfoldable pub plan_document : Facts → Dict
  plan_document f = dict_of (
      ("schema_version", str "chaosatlas-isolation-plan-v2")
      ∷ (
        "plan_id",
        str (format ("plan-" ∷ take_text 20 (h.canonical_hash (obj (identity f))) ∷ [])),
      )
      ∷ ("project_id", str (text_of "project_id" f.profile))
      ∷ ("project_revision", str (text_of "project_commit" f.profile))
      ∷ ("capability_id", str (text_of "fault_id" f.capability))
      ∷ ("target_id", get "target_id" f.capability)
      ∷ ("requested_isolation", str f.levels.requested)
      ∷ ("proposed_isolation", str f.levels.proposed)
      ∷ ("mechanism_minimum_isolation", str f.levels.minimum)
      ∷ ("effective_isolation", str f.levels.effective)
      ∷ ("isolation_reasons", texts f.levels.reasons)
      ∷ ("provider", str (provider_of f.levels.effective))
      ∷ ("mode", str f.route.mode)
      ∷ ("source_namespace", optional f.route.namespace)
      ∷ (
        "target_namespace_or_profile",
        str (
            format (
              "ca-"
              ∷ lowercase f.levels.effective
              ∷ "-"
              ∷ safe_fragment (text_of "project_id" f.profile)
              ∷ "-<lease>"
              ∷ [])),
      )
      ∷ ("resource_budget", either (get "resource_budget" f.route.config) (obj default_budget))
      ∷ ("ready_timeout_s", f.ready_timeout_s)
      ∷ ("cleanup_timeout_s", f.cleanup_timeout_s)
      ∷ ("expected_workloads", either (get "expected_workloads" f.route.config) (arr nil))
      ∷ ("blueprint", dict_or_null (get "blueprint" f.config))
      ∷ ("target", redact_sensitive f.target)
      ∷ (
        "kube_context",
        optional (
            text (
              either
                (either (get "kube_context" f.route.config) (get "kube_context" f.runtime_contract))
                (str ""))),
      )
      ∷ ("parent_lease_id", get "parent_isolation_lease_id" f.runtime_contract)
      ∷ ("synthetic_data_only", bool true)
      ∷ (
        "forbidden_source_kinds",
        texts ("Secret" ∷ "PersistentVolume" ∷ "PersistentVolumeClaim" ∷ []),
      )
      ∷ (
        "required_checks",
        texts ("ownership" ∷ "ready" ∷ "cleanup" ∷ "absence" ∷ "sensitive_scan" ∷ []),
      )
      ∷ ("status", str (if nonempty f.blockers then "blocked" else "ready"))
      ∷ ("blockers", texts (sorted_set f.blockers))
      ∷ [])

  unfoldable pub plan : Dict → Dict → Value → Value → Result Dict
  plan profile capability target proposed_isolation = do
    facts ← plan_facts profile capability target proposed_isolation
    ok (with_hash h (plan_document facts) "plan_sha256")
