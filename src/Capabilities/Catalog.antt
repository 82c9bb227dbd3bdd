-- ===== src/Capabilities/Catalog.antt =====
-- tools/fault_catalog.py: the 32 faults of the product, and the names that stand for them.
use chaos_atlas.Prelude.{
  String, List, [], ◌∷◌, ◌++◌, ◌==◌, if◌then◌else◌, Option, none, some, member, format, strip,
}
use chaos_atlas.Result.{Result, ok, err, key_error}
use chaos_atlas.Value.{Value, str, Dict, end, get, put, is_str, update, dict_of, either, text}

pub record Fault : Type 0 where
  pub fault_id : String
  pub spec : Dict

abbrev fault : String → String → String → String → Fault
fault id backend category risk_level = record {
  fault_id = id;
  spec = dict_of (
      ("status", str "implemented")
      ∷ ("backend", str backend)
      ∷ ("category", str category)
      ∷ ("risk_level", str risk_level)
      ∷ []);
}

-- _CATALOG
abbrev pub fault_catalog : List Fault
fault_catalog =
    fault "pod_kill" "PodChaos" "workload" "medium"
    ∷ fault "container_kill" "PodChaos" "workload" "medium"
    ∷ fault "stress_cpu" "StressChaos" "resource" "medium"
    ∷ fault "stress_memory" "StressChaos" "resource" "high"
    ∷ fault "disk_pressure" "NativeExecutor" "resource" "high"
    ∷ fault "file_descriptor_exhaustion" "NativeExecutor" "resource" "high"
    ∷ fault "process_exhaustion" "NativeExecutor" "resource" "high"
    ∷ fault "replica_reduction" "KubernetesAPI" "scaling" "high"
    ∷ fault "network_loss" "NetworkChaos" "network" "high"
    ∷ fault "network_partition" "NetworkChaos" "network" "high"
    ∷ fault "network_delay" "NetworkChaos" "network" "medium"
    ∷ fault "network_bandwidth" "NetworkChaos" "network" "medium"
    ∷ fault "network_duplicate" "NetworkChaos" "network" "medium"
    ∷ fault "network_corrupt" "NetworkChaos" "network" "medium"
    ∷ fault "dns_failure" "DNSChaos" "network" "high"
    ∷ fault "dns_delay" "DNSChaos" "network" "medium"
    ∷ fault "http_delay" "HTTPChaos" "http_business" "medium"
    ∷ fault "http_abort" "HTTPChaos" "http_business" "high"
    ∷ fault "http_status_error" "HTTPChaos" "http_business" "medium"
    ∷ fault "http_response_corrupt" "HTTPChaos" "http_business" "medium"
    ∷ fault "http_rate_limit" "NativeExecutor" "http_business" "medium"
    ∷ fault "dependency_error" "HTTPChaos" "http_business" "high"
    ∷ fault "connection_reset" "HTTPChaos" "http_business" "high"
    ∷ fault "business_dependency_unreachable" "NativeExecutor" "http_business" "high"
    ∷ fault "config_reload" "KubernetesAPI" "configuration" "medium"
    ∷ fault "config_drift" "KubernetesAPI" "configuration" "high"
    ∷ fault "env_misconfiguration" "KubernetesAPI" "configuration" "high"
    ∷ fault "secret_rotation" "KubernetesAPI" "configuration" "high"
    ∷ fault "rollout_pause" "KubernetesAPI" "release" "medium"
    ∷ fault "image_pull_failure" "KubernetesAPI" "release" "high"
    ∷ fault "pod_unschedulable" "KubernetesAPI" "platform" "high"
    ∷ fault "api_server_delay" "NativeExecutor" "platform" "critical"
    ∷ []

-- `_ALIASES.get(key, key)`
abbrev pub canonical_fault : String → String
canonical_fault key = if key == "backend_pod_kill" then "pod_kill" else key

unfoldable pub find_fault : String → List Fault → Option Dict
find_fault id [] = none
find_fault id (f ∷ fs) = if f.fault_id == id then some f.spec else find_fault id fs

abbrev spec_of : String → Option Dict → Result Dict
spec_of key none = err key_error (format ("unknown fault family: " ∷ key ∷ []))
spec_of key (some spec) =
    let result = update (put "fault_family" (str key) end) spec in
    ok (
      if key == canonical_fault key
      then result
      else put "category" (str "dependency")
          (put "semantic_alias" (str (canonical_fault key)) result))

unfoldable pub get_fault_spec : Value → Result Dict
get_fault_spec fault_family =
    let key = strip (text (either fault_family (str ""))) in
    spec_of key (find_fault (canonical_fault key) fault_catalog)

abbrev implemented : List Fault → List String
implemented [] = []
implemented (f ∷ fs) =
    let rest = implemented fs in
    if is_str "implemented" (get "status" f.spec) then f.fault_id ∷ rest else rest

unfoldable pub implemented_fault_families : List String
implemented_fault_families =
    implemented fault_catalog
    ++ (if member "pod_kill" (implemented fault_catalog) then "backend_pod_kill" ∷ [] else [])
