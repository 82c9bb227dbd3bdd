-- ===== src/Isolation/Tests/Planner.antt =====
-- A ready L1 plan, and one that the mechanism raises to L3.
use chaos_atlas.Prelude.{
  String, ◌≡◌, refl, true, [], ◌∷◌, decimal, take_text, lowercase, starts_with, dash_runs,
  strip_dashes,
}
use chaos_atlas.Result.{Result, ok, err}
use chaos_atlas.Value.{Value, null, bool, str, arr, obj, Dict, end, get, put, str_list, dict_of}
use chaos_atlas.Isolation.Contracts.{Hasher, verify_hash}
use chaos_atlas.Isolation.Planner.{safe_fragment, plan}
use chaos_atlas.Isolation.Planner.Floor.{Floored, plan-Floored}
use chaos_atlas.Isolation.Planner.Ready.{ReadyGrounds, plan-ReadyGrounds}
use chaos_atlas.Isolation.Tests.Fixtures.{toy}

fragment_test : safe_fragment "My Shop/2!" ≡ "my-shop-2"
unfolding safe_fragment lowercase take_text dash_runs strip_dashes
fragment_test = refl

abbrev profile : Dict
profile = dict_of (
    ("project_id", str "shop")
    ∷ (
      "isolation",
      obj (
          dict_of (
            ("synthetic_data_only", bool true)
            ∷ (
              "l1",
              obj (
                  dict_of
                    (("namespace", str "shop-test") ∷ ("dedicated_test_replica", bool true) ∷ [])),
            )
            ∷ [])),
    )
    ∷ ("namespace_policy", obj (put "allowed_namespaces" (arr (str_list ("shop-test" ∷ []))) end))
    ∷ [])

abbrev capability : String → Dict
capability fault = dict_of (
    ("fault_id", str fault)
    ∷ ("required_isolation", str "L1")
    ∷ ("capability_status", str "canary_required")
    ∷ [])

abbrev returned : Result Dict → Dict
returned (ok d) = d
returned (err e m) = end

document : String → Dict
document fault = returned (plan toy profile (capability fault) null null)

planned : plan toy profile (capability "pod_kill") null null ≡ ok (document "pod_kill")
unfolding document plan safe_fragment chaos_atlas.Isolation.Planner.mechanism_minimum
    chaos_atlas.Isolation.Planner.choose_levels chaos_atlas.Isolation.Planner.is_namespace
    chaos_atlas.Isolation.Planner.l1_blockers chaos_atlas.Isolation.Planner.l2_blockers
    chaos_atlas.Isolation.Planner.route_blockers chaos_atlas.Isolation.Planner.choose_route
    chaos_atlas.Isolation.Planner.blueprint_valid chaos_atlas.Isolation.Planner.restore_generated
    chaos_atlas.Isolation.Planner.scan_config chaos_atlas.Isolation.Planner.safe_config
    chaos_atlas.Isolation.Planner.exposed_paths chaos_atlas.Isolation.Planner.plan_blockers
    chaos_atlas.Isolation.Planner.plan_facts chaos_atlas.Isolation.Planner.plan_document
    chaos_atlas.Value.get chaos_atlas.Value.has chaos_atlas.Value.put chaos_atlas.Value.without
    chaos_atlas.Value.either chaos_atlas.Value.truthy chaos_atlas.Value.is_true
    chaos_atlas.Value.is_dict chaos_atlas.Value.is_str chaos_atlas.Value.text
    chaos_atlas.Value.text_of chaos_atlas.Value.as_dict chaos_atlas.Value.as_list
    chaos_atlas.Value.to_int chaos_atlas.Isolation.Secrets.sensitive_paths
    chaos_atlas.Isolation.Secrets.sensitive_items chaos_atlas.Isolation.Secrets.sensitive_entries
    chaos_atlas.Isolation.Secrets.redact_sensitive chaos_atlas.Isolation.Secrets.redact_entries
    chaos_atlas.Isolation.Secrets.redact_items chaos_atlas.Isolation.Secrets.sorted_set
    chaos_atlas.Isolation.Secrets.sensitive_key chaos_atlas.Isolation.Secrets.sensitive_value
    chaos_atlas.Isolation.Secrets.flagged chaos_atlas.Isolation.Secrets.is_blank
    chaos_atlas.Isolation.Contracts.Hashing.with_hash lowercase starts_with dash_runs strip_dashes
    take_text decimal
planned = refl

ready : get "status" (document "pod_kill") ≡ str "ready"
unfolding document plan safe_fragment chaos_atlas.Isolation.Planner.mechanism_minimum
    chaos_atlas.Isolation.Planner.choose_levels chaos_atlas.Isolation.Planner.is_namespace
    chaos_atlas.Isolation.Planner.l1_blockers chaos_atlas.Isolation.Planner.l2_blockers
    chaos_atlas.Isolation.Planner.route_blockers chaos_atlas.Isolation.Planner.choose_route
    chaos_atlas.Isolation.Planner.blueprint_valid chaos_atlas.Isolation.Planner.restore_generated
    chaos_atlas.Isolation.Planner.scan_config chaos_atlas.Isolation.Planner.safe_config
    chaos_atlas.Isolation.Planner.exposed_paths chaos_atlas.Isolation.Planner.plan_blockers
    chaos_atlas.Isolation.Planner.plan_facts chaos_atlas.Isolation.Planner.plan_document
    chaos_atlas.Value.get chaos_atlas.Value.has chaos_atlas.Value.put chaos_atlas.Value.without
    chaos_atlas.Value.either chaos_atlas.Value.truthy chaos_atlas.Value.is_true
    chaos_atlas.Value.is_dict chaos_atlas.Value.is_str chaos_atlas.Value.text
    chaos_atlas.Value.text_of chaos_atlas.Value.as_dict chaos_atlas.Value.as_list
    chaos_atlas.Value.to_int chaos_atlas.Isolation.Secrets.sensitive_paths
    chaos_atlas.Isolation.Secrets.sensitive_items chaos_atlas.Isolation.Secrets.sensitive_entries
    chaos_atlas.Isolation.Secrets.redact_sensitive chaos_atlas.Isolation.Secrets.redact_entries
    chaos_atlas.Isolation.Secrets.redact_items chaos_atlas.Isolation.Secrets.sorted_set
    chaos_atlas.Isolation.Secrets.sensitive_key chaos_atlas.Isolation.Secrets.sensitive_value
    chaos_atlas.Isolation.Secrets.flagged chaos_atlas.Isolation.Secrets.is_blank
    chaos_atlas.Isolation.Contracts.Hashing.with_hash lowercase starts_with dash_runs strip_dashes
    take_text decimal
ready = refl

-- the fault needs a disposable cluster, whatever was asked for
raised :
    (get "effective_isolation" (document "api_server_delay") ≡ str "L3")
    × (get "mode" (document "api_server_delay") ≡ str "ephemeral-cluster")
unfolding document plan safe_fragment chaos_atlas.Isolation.Planner.mechanism_minimum
    chaos_atlas.Isolation.Planner.choose_levels chaos_atlas.Isolation.Planner.is_namespace
    chaos_atlas.Isolation.Planner.l1_blockers chaos_atlas.Isolation.Planner.l2_blockers
    chaos_atlas.Isolation.Planner.route_blockers chaos_atlas.Isolation.Planner.choose_route
    chaos_atlas.Isolation.Planner.blueprint_valid chaos_atlas.Isolation.Planner.restore_generated
    chaos_atlas.Isolation.Planner.scan_config chaos_atlas.Isolation.Planner.safe_config
    chaos_atlas.Isolation.Planner.exposed_paths chaos_atlas.Isolation.Planner.plan_blockers
    chaos_atlas.Isolation.Planner.plan_facts chaos_atlas.Isolation.Planner.plan_document
    chaos_atlas.Value.get chaos_atlas.Value.has chaos_atlas.Value.put chaos_atlas.Value.without
    chaos_atlas.Value.either chaos_atlas.Value.truthy chaos_atlas.Value.is_true
    chaos_atlas.Value.is_dict chaos_atlas.Value.is_str chaos_atlas.Value.text
    chaos_atlas.Value.text_of chaos_atlas.Value.as_dict chaos_atlas.Value.as_list
    chaos_atlas.Value.to_int chaos_atlas.Isolation.Secrets.sensitive_paths
    chaos_atlas.Isolation.Secrets.sensitive_items chaos_atlas.Isolation.Secrets.sensitive_entries
    chaos_atlas.Isolation.Secrets.redact_sensitive chaos_atlas.Isolation.Secrets.redact_entries
    chaos_atlas.Isolation.Secrets.redact_items chaos_atlas.Isolation.Secrets.sorted_set
    chaos_atlas.Isolation.Secrets.sensitive_key chaos_atlas.Isolation.Secrets.sensitive_value
    chaos_atlas.Isolation.Secrets.flagged chaos_atlas.Isolation.Secrets.is_blank
    chaos_atlas.Isolation.Contracts.Hashing.with_hash lowercase starts_with dash_runs strip_dashes
    take_text decimal
raised = (refl, refl)

plan-Floored_example : Floored toy (capability "pod_kill") null null (document "pod_kill")
plan-Floored_example =
    plan-Floored toy profile (capability "pod_kill") null null (document "pod_kill") planned

plan-ReadyGrounds_example :
    (effective : String) × (get "effective_isolation" (document "pod_kill") ≡ str effective)
    × ReadyGrounds profile (capability "pod_kill") null effective
plan-ReadyGrounds_example =
    plan-ReadyGrounds profile (capability "pod_kill") null toy null (document "pod_kill") planned
      ready
