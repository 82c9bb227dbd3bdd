-- ===== src/Capabilities/Assessment.antt =====
-- `_assess_target` and `assess_core_capabilities` of capabilities/core_assessment.py.
use chaos_atlas.Prelude.{
  String, Bool, false, not, ◌&&◌, ◌||◌, Option, none, some, List, [], ◌∷◌, ◌++◌, ◌==◌,
  if◌then◌else◌, member, nonempty, pos, ltb_ℤ, ends_with, text_leb,
}
use chaos_atlas.Result.{Result, ok, ◌>>=◌}
use chaos_atlas.Value.{
  Value, null, int, str, obj, Dict, end, get, either, truthy, is_true, text_of, as_dict, to_int,
}
use chaos_atlas.Isolation.Contracts.{failures}
use chaos_atlas.Capabilities.Catalog.{Fault, fault_catalog}
use chaos_atlas.Capabilities.Core.{
  pod_backends, stress_backends, network_backends, dns_backends, http_chaos_backends,
  native_http_backends, native_resource_backends, kubernetes_api_l2, Boundary, profile_boundary,
  Verdict, refused, record_of, backend_available, Target, read_target,
}

abbrev pub mesh_faults : List String
mesh_faults =
    pod_backends ++ (stress_backends ++ (network_backends ++ (dns_backends ++ http_chaos_backends)))

abbrev pub patching_faults : List String
patching_faults =
    "replica_reduction" ∷ "config_reload" ∷ "config_drift" ∷ "env_misconfiguration"
    ∷ "image_pull_failure" ∷ "pod_unschedulable" ∷ []

-- a secret to rotate is asked for, and there is none
unfoldable pub secret_missing : String → Dict → Result Bool
secret_missing fault_id resources =
    if member fault_id kubernetes_api_l2 && fault_id == "secret_rotation"
    then (to_int (either (get "secret_count" resources) (int (pos 0))) >>= λ n.
        ok (ltb_ℤ n (pos 1)))
    else ok false

-- each prerequisite with the test that it is not met
abbrev pub prerequisite_tests : Dict → Fault → Target → Bool → List (Bool × String)
prerequisite_tests runtime fault target no_secret =
    let id = fault.fault_id in
    let backend = text_of "backend" fault.spec in
    (not target.has_oracle, "business_oracle")
    ∷ (not target.has_recovery, "recovery_contract")
    ∷ (member id mesh_faults && not (backend_available runtime backend), backend)
    ∷ (
      member id http_chaos_backends && not (is_true (get "httpchaos_runtime_verified" runtime)),
      "httpchaos_tproxy_positive_evidence",
    )
    ∷ (member id native_resource_backends && not target.disposable, "disposable_target")
    ∷ (
      member id native_resource_backends && not target.native_resource,
      "native_resource_capability",
    )
    ∷ (member id native_http_backends && not target.disposable, "disposable_target")
    ∷ (member id native_http_backends && not target.native_http, "native_http_control_contract")
    ∷ (
      member id kubernetes_api_l2 && (not target.disposable && not target.disposable_route),
      "disposable_target",
    )
    ∷ (no_secret, "test_secret")
    ∷ (
      member id patching_faults
          && not (member target.workload_kind ("Deployment" ∷ "StatefulSet" ∷ [])),
      "patchable_workload",
    )
    ∷ []

abbrev pub blocked_code : String → List String → String
blocked_code backend prerequisites =
    if member "httpchaos_tproxy_positive_evidence" prerequisites
    then "http_runtime_prerequisite_unverified"
    else if ends_with "Chaos" backend
    then "runtime_backend_unavailable"
    else "safety_prerequisite_missing"

-- `original or None`
abbrev pub original_of : Option Boundary → Value
original_of none = null
original_of (some boundary) = if boundary.raw == "" then null else str boundary.raw

abbrev pub blocked_verdict : Fault → Value → List String → Verdict
blocked_verdict fault original prerequisites = record {
  status = "blocked";
  reason_code = blocked_code (text_of "backend" fault.spec) prerequisites;
  reason = "required runtime, Oracle, recovery or isolation prerequisites are not confirmed";
  prerequisites = prerequisites;
  evidence_grade = "E0";
  original_status = original;
}

abbrev pub canary_verdict : Value → Verdict
canary_verdict original = record {
  status = "canary_required";
  reason_code = "live_canary_required";
  reason =
      "target and read-only runtime prerequisites are available; live lifecycle evidence is required";
  prerequisites = [];
  evidence_grade = "E1";
  original_status = original;
}

-- the reasons for which the fault does not apply to the target
unfoldable pub inapplicable : String → Target → Option Verdict
inapplicable id target =
    if not (nonempty target.containers)
    then some
        (refused "inapplicable" "container_target_missing" "workload has no discoverable container")
    else if id == "rollout_pause" && not (target.workload_kind == "Deployment")
    then some (
        refused "inapplicable" "target_kind_inapplicable"
          "rollout pause requires a Deployment target")
    else if member id (http_chaos_backends ++ native_http_backends) && not target.has_service
    then some (
        refused "inapplicable" "service_target_missing"
          "HTTP boundary fault requires a selected Service")
    else none

unfoldable pub judge_prerequisites : Fault → Value → List String → Verdict
judge_prerequisites fault original prerequisites =
    if nonempty prerequisites
    then blocked_verdict fault original prerequisites
    else canary_verdict original

abbrev pub judge_applicable : Dict → Fault → Target → Value → Option Verdict → Result Verdict
judge_applicable runtime fault target original (some verdict) = ok verdict
judge_applicable runtime fault target original none = do
  no_secret ← secret_missing fault.fault_id target.resources
  ok (
      judge_prerequisites fault original
        (failures (prerequisite_tests runtime fault target no_secret)))

-- a declared boundary that ends the assessment
abbrev pub closed_boundary : Option Boundary → Option Verdict
closed_boundary none = none
closed_boundary (some boundary) =
    if member boundary.status ("inapplicable" ∷ "blocked" ∷ "unsupported" ∷ [])
    then some (record {
      status = boundary.status;
      reason_code = "profile_boundary";
      reason = boundary.reason;
      prerequisites = [];
      evidence_grade = "E0";
      original_status = str boundary.raw;
    })
    else none

abbrev pub judge_open : Dict → Fault → Dict → Dict → Value → Option Verdict → Result Verdict
judge_open profile fault node runtime original (some verdict) = ok verdict
judge_open profile fault node runtime original none = do
  target ← read_target profile fault.fault_id node
  judge_applicable runtime fault target original (inapplicable fault.fault_id target)

unfoldable pub judge_target : Dict → Fault → Dict → Dict → Result Verdict
judge_target profile fault node runtime = do
  boundary ← profile_boundary profile fault.fault_id
  judge_open profile fault node runtime (original_of boundary) (closed_boundary boundary)

unfoldable pub assess_target : Dict → Fault → Dict → Dict → Result Dict
assess_target profile fault node runtime = do
  verdict ← judge_target profile fault node runtime
  record_of profile fault node verdict

abbrev pub delay_verdict : Bool → Bool → Verdict
delay_verdict disposable_cluster runtime_verified =
    let open_route = disposable_cluster || runtime_verified in
    record {
      status = if open_route then "canary_required" else "blocked";
      reason_code = if open_route then "live_canary_required" else "disposable_cluster_required";
      reason =
          if runtime_verified && not disposable_cluster
          then "verified disposable control-plane canary is available; project-specific canary is still required"
          else if disposable_cluster
          then "disposable control-plane environment is available"
          else "API-server delay requires a disposable cluster";
      prerequisites = if open_route then [] else "disposable_cluster" ∷ [];
      evidence_grade = if open_route then "E1" else "E0";
      original_status = null;
    }

unfoldable pub assess_api_server_delay : Dict → Fault → Dict → Result Dict
assess_api_server_delay profile fault runtime = do
  isolation ← as_dict (either (get "isolation" profile) (obj end))
  record_of profile fault end (
      delay_verdict (truthy (get "disposable_cluster" isolation))
        (is_true (get "api_server_delay_runtime_verified" runtime)))

unfoldable pub assess_targets : Dict → Fault → Dict → List Dict → Result (List Dict)
assess_targets profile fault runtime [] = ok []
assess_targets profile fault runtime (node ∷ nodes) = do
  first ← assess_target profile fault node runtime
  rest ← assess_targets profile fault runtime nodes
  ok (first ∷ rest)

abbrev pub missing_target : Verdict
missing_target = refused "inapplicable" "target_missing" "no workload target was discovered"

unfoldable pub assess_fault : Dict → List Dict → Dict → Fault → Result (List Dict)
assess_fault profile nodes runtime fault =
    if fault.fault_id == "api_server_delay"
    then (assess_api_server_delay profile fault runtime >>= λ r. ok (r ∷ []))
    else if nonempty nodes
    then assess_targets profile fault runtime nodes
    else record_of profile fault end missing_target >>= λ r. ok (r ∷ [])

unfoldable pub assess_faults : Dict → List Dict → Dict → List Fault → Result (List Dict)
assess_faults profile nodes runtime [] = ok []
assess_faults profile nodes runtime (fault ∷ faults) = do
  first ← assess_fault profile nodes runtime fault
  rest ← assess_faults profile nodes runtime faults
  ok (first ++ rest)

-- the order of the keys (fault_id, target, target_id)
unfoldable pub capability_leb : Dict → Dict → Bool
capability_leb a b =
    if text_of "fault_id" a == text_of "fault_id" b
    then (if text_of "target" a == text_of "target" b
        then text_leb (text_of "target_id" a) (text_of "target_id" b)
        else text_leb (text_of "target" a) (text_of "target" b))
    else text_leb (text_of "fault_id" a) (text_of "fault_id" b)

unfoldable pub insert_capability : Dict → List Dict → List Dict
insert_capability r [] = r ∷ []
insert_capability r (s ∷ ss) =
    let rest = insert_capability r ss in if capability_leb r s then r ∷ s ∷ ss else s ∷ rest

unfoldable pub sort_capabilities : List Dict → List Dict
sort_capabilities [] = []
sort_capabilities (r ∷ rs) = insert_capability r (sort_capabilities rs)

unfoldable pub assess_core_capabilities : Dict → List Dict → Dict → Result (List Dict)
assess_core_capabilities profile nodes runtime = do
  records ← assess_faults profile nodes runtime fault_catalog
  ok (sort_capabilities records)
