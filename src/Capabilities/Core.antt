-- ===== src/Capabilities/Core.antt =====
-- capabilities/core_assessment.py: the faults of the catalogue against the targets of a project.
use chaos_atlas.Prelude.{
  String, Bool, false, not, ◌&&◌, ◌||◌, Option, none, some, List, [], ◌∷◌, ◌++◌, ◌==◌,
  if◌then◌else◌, member, nonempty, lowercase, strip,
}
use chaos_atlas.Result.{Result, ok, ◌>>=◌}
use chaos_atlas.Value.{
  Value, null, bool, int, str, arr, obj, Dict, end, get, either, truthy, present, is_true, is_dict,
  text, text_of, as_dict, as_list, to_int, str_list, dict_of,
}
use chaos_atlas.Isolation.Secrets.{sorted_set}
use chaos_atlas.Capabilities.Contracts.{normalize_capability_status}
use chaos_atlas.Capabilities.Catalog.{Fault}

abbrev pub pod_backends : List String
pod_backends = "pod_kill" ∷ "container_kill" ∷ []

abbrev pub stress_backends : List String
stress_backends = "stress_cpu" ∷ "stress_memory" ∷ []

abbrev pub network_backends : List String
network_backends =
    "network_loss" ∷ "network_partition" ∷ "network_delay" ∷ "network_bandwidth"
    ∷ "network_duplicate" ∷ "network_corrupt" ∷ []

abbrev pub dns_backends : List String
dns_backends = "dns_failure" ∷ "dns_delay" ∷ []

abbrev pub http_chaos_backends : List String
http_chaos_backends =
    "http_delay" ∷ "http_abort" ∷ "http_status_error" ∷ "http_response_corrupt" ∷ "dependency_error"
    ∷ "connection_reset" ∷ []

abbrev pub native_http_backends : List String
native_http_backends = "http_rate_limit" ∷ "business_dependency_unreachable" ∷ []

abbrev pub native_resource_backends : List String
native_resource_backends =
    "disk_pressure" ∷ "file_descriptor_exhaustion" ∷ "process_exhaustion" ∷ []

abbrev pub kubernetes_api_l2 : List String
kubernetes_api_l2 = "secret_rotation" ∷ "image_pull_failure" ∷ "pod_unschedulable" ∷ []

unfoldable pub isolation_for_core_fault : String → String
isolation_for_core_fault fault_id =
    if fault_id == "api_server_delay"
    then "L3"
    else if member fault_id
        (native_resource_backends ++ (native_http_backends ++ kubernetes_api_l2))
    then "L2"
    else "L1"

-- `v if isinstance(v, dict) else {}`
unfoldable pub dict_or_end : Value → Dict
dict_or_end (obj d) = d
dict_or_end _ = end

-- a boundary that the profile declares: the status, the text it was given as, and the reason
pub record Boundary : Type 0 where
  pub status : String
  pub raw : String
  pub reason : String

abbrev boundary_of : Value → Result (Option Boundary)
boundary_of (obj override) =
    if truthy (obj override)
    then (normalize_capability_status (get "status" override) >>= λ s. ok (
        some (record {
          status = s.0;
          raw = s.1;
          reason = text (either (get "reason" override) (str "profile capability declaration"));
        })))
    else ok none
boundary_of _ = ok none

unfoldable pub profile_boundary : Dict → String → Result (Option Boundary)
profile_boundary profile fault_id =
    boundary_of (get fault_id (dict_or_end (get "fault_support" profile)))

-- `str(v or "") or None`
abbrev pub optional_text : String → Dict → Value
optional_text key d = let s = text_of key d in if s == "" then null else str s

-- `[str(item.get("id")) for item in … if isinstance(item, dict) and item.get("id")]`
abbrev pub ids_of : List Value → List String
ids_of [] = []
ids_of (obj d ∷ rest) =
    let ids = ids_of rest in if truthy (get "id" d) then text (get "id" d) ∷ ids else ids
ids_of (_ ∷ rest) = ids_of rest

-- `d.get(key) or []` as the source of a loop
abbrev pub entries : String → Dict → Result (List Value)
entries key d = as_list (either (get key d) (arr chaos_atlas.Value.nil))

-- what `_record` is told of an assessment
pub record Verdict : Type 0 where
  pub status : String
  pub reason_code : String
  pub reason : String
  pub prerequisites : List String
  pub evidence_grade : String
  pub original_status : Value

abbrev pub refused : String → String → String → Verdict
refused status reason_code reason = record {
  status = status;
  reason_code = reason_code;
  reason = reason;
  prerequisites = [];
  evidence_grade = "E0";
  original_status = null;
}

-- the dictionary of `_record`, its identifiers given; `node` is empty where there is no target
unfoldable pub capability : Dict → Fault → Dict → List String → Verdict → Dict
capability profile fault node oracle_ids verdict =
    let deployment = dict_or_end (get "deployment" node) in
    dict_of (
      ("project_id", str (text_of "project_id" profile))
      ∷ ("project_revision", str (text_of "project_commit" profile))
      ∷ ("target_id", optional_text "node_id" node)
      ∷ ("target", optional_text "name" deployment)
      ∷ ("target_kind", optional_text "workload_kind" deployment)
      ∷ ("fault_id", str fault.fault_id)
      ∷ ("catalog_scope", str "core")
      ∷ ("category", str (text_of "category" fault.spec))
      ∷ ("backend", str (text_of "backend" fault.spec))
      ∷ ("risk_level", str (text_of "risk_level" fault.spec))
      ∷ ("required_isolation", str (isolation_for_core_fault fault.fault_id))
      ∷ ("capability_status", str verdict.status)
      ∷ ("original_status", verdict.original_status)
      ∷ ("evidence_grade", str verdict.evidence_grade)
      ∷ ("reason_code", str verdict.reason_code)
      ∷ ("reason", str verdict.reason)
      ∷ ("candidate_eligible", bool (member verdict.status ("canary_required" ∷ "supported" ∷ [])))
      ∷ ("prerequisites", arr (str_list (sorted_set verdict.prerequisites)))
      ∷ ("oracle_ids", arr (str_list oracle_ids))
      ∷ (
        "recovery_contract_id",
        if truthy (get "recovery" profile) then str "project-default" else null,
      )
      ∷ ("evidence_refs", arr chaos_atlas.Value.nil)
      ∷ [])

unfoldable pub record_of : Dict → Fault → Dict → Verdict → Result Dict
record_of profile fault node verdict = do
  oracles ← entries "business_oracles" profile
  ok (capability profile fault node (ids_of oracles) verdict)

unfoldable pub backend_available : Dict → String → Bool
backend_available runtime backend =
    let mesh = dict_or_end (get "chaos_mesh" runtime) in
    let crd = dict_or_end (get backend (dict_or_end (get "crds" runtime))) in
    truthy (get "ready" mesh) && is_true (get "available" crd)

-- the level that a route declares
abbrev pub route_level : Value → Value
route_level (str level) = str level
route_level (obj route) = get "level" route
route_level _ = null

-- `isinstance(v, str) and bool(v.strip())`
abbrev pub filled_text : Value → Bool
filled_text (str s) = not (strip s == "")
filled_text _ = false

unfoldable pub declared_isolation_route : Dict → String → String → Bool
declared_isolation_route profile fault_id level =
    let isolation = dict_or_end (get "isolation" profile) in
    let routes = dict_or_end (get "fault_routes" isolation) in
    let config = dict_or_end (get (lowercase level) isolation) in
    chaos_atlas.Value.is_str level (route_level (get fault_id routes))
    && ((is_dict (get "blueprint" config) || filled_text (get "blueprint_ref" config))
        && is_true (get "synthetic_data_only" isolation))

-- what `_assess_target` reads off a target before it asks for prerequisites
pub record Target : Type 0 where
  pub workload_kind : String
  pub has_service : Bool
  pub containers : List String
  pub has_oracle : Bool
  pub has_recovery : Bool
  pub disposable : Bool
  pub disposable_route : Bool
  pub native_resource : Bool
  pub native_http : Bool
  pub resources : Dict

abbrev pub container_names : List Value → List String
container_names [] = []
container_names (v ∷ vs) =
    let rest = container_names vs in if text v == "" then rest else text v ∷ rest

unfoldable pub read_target : Dict → String → Dict → Result Target
read_target profile fault_id node = do
  let deployment = dict_or_end (get "deployment" node)
  let extensions = dict_or_end (get "extensions" node)
  let capabilities = dict_or_end (get "capabilities" extensions)
  let resources = dict_or_end (get "resource_facts" extensions)
  containers ← entries "containers" deployment
  oracles ← entries "business_oracles" profile
  ok (record {
    workload_kind = text (either (get "workload_kind" deployment) (str "Deployment"));
    has_service = truthy (get "service" node);
    containers = container_names containers;
    has_oracle = nonempty (ids_of oracles);
    has_recovery = is_dict (get "recovery" profile) && truthy (get "cleanup" profile);
    disposable =
        truthy (get "disposable_target" resources) || truthy (get "disposable_target" capabilities);
    disposable_route =
        declared_isolation_route profile fault_id (isolation_for_core_fault fault_id);
    native_resource = is_true (get "native_resource" capabilities);
    native_http = is_true (get "native_http" capabilities);
    resources = resources;
  })
