-- ===== src/Capabilities/Tests.antt =====
-- The capability contracts and an assessment of one Deployment on a cluster with PodChaos only.
use chaos_atlas.Prelude.{
  map, ℕ, ◌≤◌, ◌<◌, String, ◌≡◌, refl, ◌⊎◌, Bool, true, false, List, [], ◌∷◌, ◌++◌, if◌then◌else◌,
  length, member, All, strip, uppercase, lowercase, ends_with, decimal,
}
use chaos_atlas.Result.{Result, ok, err}
use chaos_atlas.Value.{Value, bool, str, arr, obj, Dict, end, get, str_list, dict_of, text_of}
use chaos_atlas.Capabilities.Contracts.{
  capability_statuses, evidence_grade_rank, strongest_evidence_grade, aggregate_capability_status,
  validate_capability_record, count, fault_ids, validate_catalog_coverage, grade_text,
}
use chaos_atlas.Capabilities.Catalog.{
  Fault, fault_catalog, get_fault_spec, implemented_fault_families,
}
use chaos_atlas.Capabilities.Assessment.{assess_core_capabilities}
use chaos_atlas.Capabilities.Sound.{
  Explained, assess_core_capabilities-validate_capability_record,
  assess_core_capabilities-Explained,
}
use chaos_atlas.Capabilities.Grades.{
  RankAtMost, Strongest, Aggregated, strongest_evidence_grade-bounds, NotBefore,
  aggregate_capability_status-NotBefore,
}
use chaos_atlas.Capabilities.Coverage.{validate_catalog_coverage-once}

abbrev profile : Dict
profile = dict_of (
    ("project_id", str "shop")
    ∷ (
      "business_oracles",
      arr (chaos_atlas.Value.cons (obj (dict_of (("id", str "order") ∷ []))) chaos_atlas.Value.nil),
    )
    ∷ ("recovery", obj end)
    ∷ ("cleanup", str "delete")
    ∷ [])

abbrev node : Dict
node = dict_of (
    ("node_id", str "n1")
    ∷ (
      "deployment",
      obj (dict_of (("name", str "web") ∷ ("containers", arr (str_list ("app" ∷ []))) ∷ [])),
    )
    ∷ [])

abbrev runtime : Dict
runtime = dict_of (
    ("chaos_mesh", obj (dict_of (("ready", bool true) ∷ [])))
    ∷ ("crds", obj (dict_of (("PodChaos", obj (dict_of (("available", bool true) ∷ []))) ∷ [])))
    ∷ [])

abbrev returned : Result (List Dict) → List Dict
returned (ok records) = records
returned (err e m) = []

assessed : List Dict
assessed = returned (assess_core_capabilities profile (node ∷ []) runtime)

abbrev eligible : List Dict → List String
eligible [] = []
eligible (r ∷ rs) =
    let rest = eligible rs in
    if chaos_atlas.Value.is_true (get "candidate_eligible" r)
    then text_of "fault_id" r ∷ rest
    else rest

-- a Pod may be killed, and the faults that need only the Kubernetes API may be tried
assessed_test :
    eligible assessed
    ≡ "config_drift" ∷ "config_reload" ∷ "container_kill" ∷ "env_misconfiguration" ∷ "pod_kill"
      ∷ "replica_reduction" ∷ "rollout_pause" ∷ []
unfolding assessed assess_core_capabilities chaos_atlas.Capabilities.Assessment.assess_faults
    chaos_atlas.Capabilities.Assessment.assess_fault
    chaos_atlas.Capabilities.Assessment.assess_targets
    chaos_atlas.Capabilities.Assessment.assess_target
    chaos_atlas.Capabilities.Assessment.judge_target
    chaos_atlas.Capabilities.Assessment.inapplicable
    chaos_atlas.Capabilities.Assessment.secret_missing
    chaos_atlas.Capabilities.Assessment.assess_api_server_delay
    chaos_atlas.Capabilities.Assessment.capability_leb
    chaos_atlas.Capabilities.Assessment.insert_capability
    chaos_atlas.Capabilities.Assessment.judge_prerequisites
    chaos_atlas.Capabilities.Assessment.sort_capabilities
    chaos_atlas.Capabilities.Core.profile_boundary chaos_atlas.Capabilities.Core.dict_or_end
    chaos_atlas.Capabilities.Core.read_target chaos_atlas.Capabilities.Core.record_of
    chaos_atlas.Capabilities.Core.backend_available chaos_atlas.Capabilities.Core.capability
    chaos_atlas.Capabilities.Core.declared_isolation_route
    chaos_atlas.Capabilities.Core.isolation_for_core_fault chaos_atlas.Value.get
    chaos_atlas.Value.as_list chaos_atlas.Value.either chaos_atlas.Value.text
    chaos_atlas.Value.to_int chaos_atlas.Value.as_dict chaos_atlas.Value.is_dict
    chaos_atlas.Value.is_str chaos_atlas.Value.is_true chaos_atlas.Value.text_of
    chaos_atlas.Value.truthy chaos_atlas.Isolation.Secrets.sorted_set lowercase ends_with strip
    decimal
assessed_test = refl

runs : assess_core_capabilities profile (node ∷ []) runtime ≡ ok assessed
unfolding assessed assess_core_capabilities chaos_atlas.Capabilities.Assessment.assess_faults
    chaos_atlas.Capabilities.Assessment.assess_fault
    chaos_atlas.Capabilities.Assessment.assess_targets
    chaos_atlas.Capabilities.Assessment.assess_target
    chaos_atlas.Capabilities.Assessment.judge_target
    chaos_atlas.Capabilities.Assessment.inapplicable
    chaos_atlas.Capabilities.Assessment.secret_missing
    chaos_atlas.Capabilities.Assessment.assess_api_server_delay
    chaos_atlas.Capabilities.Assessment.capability_leb
    chaos_atlas.Capabilities.Assessment.insert_capability
    chaos_atlas.Capabilities.Assessment.judge_prerequisites
    chaos_atlas.Capabilities.Assessment.sort_capabilities
    chaos_atlas.Capabilities.Core.profile_boundary chaos_atlas.Capabilities.Core.dict_or_end
    chaos_atlas.Capabilities.Core.read_target chaos_atlas.Capabilities.Core.record_of
    chaos_atlas.Capabilities.Core.backend_available chaos_atlas.Capabilities.Core.capability
    chaos_atlas.Capabilities.Core.declared_isolation_route
    chaos_atlas.Capabilities.Core.isolation_for_core_fault chaos_atlas.Value.get
    chaos_atlas.Value.as_list chaos_atlas.Value.either chaos_atlas.Value.text
    chaos_atlas.Value.to_int chaos_atlas.Value.as_dict chaos_atlas.Value.is_dict
    chaos_atlas.Value.is_str chaos_atlas.Value.is_true chaos_atlas.Value.text_of
    chaos_atlas.Value.truthy chaos_atlas.Isolation.Secrets.sorted_set lowercase ends_with strip
    decimal
runs = refl

assess_core_capabilities-validate_capability_record_example :
    All (λ r. validate_capability_record r ≡ ok []) assessed
assess_core_capabilities-validate_capability_record_example =
    assess_core_capabilities-validate_capability_record profile (node ∷ []) runtime assessed runs

assess_core_capabilities-Explained_example : All (Explained profile (node ∷ []) runtime) assessed
assess_core_capabilities-Explained_example =
    assess_core_capabilities-Explained profile (node ∷ []) runtime assessed runs

abbrev grades : List Value
grades = str "e1 " ∷ chaos_atlas.Value.null ∷ []

strongest : strongest_evidence_grade grades true ≡ ok "E1"
unfolding strongest_evidence_grade chaos_atlas.Capabilities.Contracts.max_of_grades
    chaos_atlas.Capabilities.Contracts.max_grade chaos_atlas.Capabilities.Contracts.grade_rank
    grade_text chaos_atlas.Value.either chaos_atlas.Value.truthy chaos_atlas.Value.text strip
    uppercase
strongest = refl

strongest_evidence_grade-bounds_example :
    (Strongest "E1" (map grade_text grades))
    × (n : ℕ) × (evidence_grade_rank (str "E1") ≡ ok n)
    × (n < 5)
    × (All (λ grade. RankAtMost n (grade_text grade)) grades)
    × ((◌≡◌ {A = Bool} true false) ⊎ (n ≤ 1))
strongest_evidence_grade-bounds_example = strongest_evidence_grade-bounds grades true "E1" strongest

abbrev statuses : List Value
statuses = str "unsupported" ∷ str " planned" ∷ str "not_reachable" ∷ []

aggregated : aggregate_capability_status statuses ≡ ok "canary_required"
unfolding aggregate_capability_status chaos_atlas.Capabilities.Contracts.normalized_statuses
    chaos_atlas.Capabilities.Contracts.normalize_capability_status
    chaos_atlas.Capabilities.Contracts.min_status chaos_atlas.Value.either chaos_atlas.Value.truthy
    chaos_atlas.Value.text strip
aggregated = refl

aggregate_capability_status-NotBefore_example :
    (Aggregated "canary_required" statuses)
    × (member "canary_required" capability_statuses ≡ true)
    × (All (NotBefore "canary_required") statuses)
aggregate_capability_status-NotBefore_example =
    aggregate_capability_status-NotBefore statuses "canary_required" aggregated

abbrev aggregates : List Dict
aggregates =
    dict_of (("fault_id", str "pod_kill") ∷ []) ∷ dict_of (("fault_id", str "node_drain") ∷ []) ∷ []

covered : validate_catalog_coverage ("pod_kill" ∷ []) ("node_drain" ∷ []) aggregates ≡ []
unfolding validate_catalog_coverage chaos_atlas.Isolation.Secrets.sorted_set text_of
    chaos_atlas.Value.get chaos_atlas.Value.truthy chaos_atlas.Value.text decimal
covered = refl

validate_catalog_coverage-once_example :
    count "pod_kill" (fault_ids aggregates)
    ≡ (if member "pod_kill" (("pod_kill" ∷ []) ++ "node_drain" ∷ []) then 1 else 0)
validate_catalog_coverage-once_example =
    validate_catalog_coverage-once ("pod_kill" ∷ []) ("node_drain" ∷ []) aggregates "pod_kill"
      covered refl

catalog_size : length fault_catalog ≡ 32
catalog_size = refl

alias :
    get_fault_spec (str "backend_pod_kill")
    ≡ ok (
        dict_of (
          ("fault_family", str "backend_pod_kill")
          ∷ ("status", str "implemented")
          ∷ ("backend", str "PodChaos")
          ∷ ("category", str "dependency")
          ∷ ("risk_level", str "medium")
          ∷ ("semantic_alias", str "pod_kill")
          ∷ []))
unfolding get_fault_spec chaos_atlas.Capabilities.Catalog.find_fault chaos_atlas.Value.either
    chaos_atlas.Value.truthy chaos_atlas.Value.text strip chaos_atlas.Value.put
    chaos_atlas.Value.update
alias = refl

families : length implemented_fault_families ≡ 33
unfolding implemented_fault_families chaos_atlas.Value.is_str chaos_atlas.Value.get
families = refl
