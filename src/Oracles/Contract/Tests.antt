-- ===== src/Oracles/Contract/Tests.antt =====
-- A contract from its draft to its frozen form.
use chaos_atlas.Prelude.{
  String, ◌≡◌, refl, Bool, true, List, [], ◌∷◌, decimal, starts_with, contains_text,
}
use chaos_atlas.Result.{Result, ok, err, value_error}
use chaos_atlas.Value.{
  Value, null, bool, int, str, arr, obj, nil, cons, Dict, end, get, put, str_list, dict_of,
}
use chaos_atlas.Isolation.Contracts.{Hasher}
use chaos_atlas.Isolation.Blueprint.Resource.{dict_in}
use chaos_atlas.Oracles.Contract.Validate.{
  without_approval, approval_subject_sha256, approved_by_human, validate_transaction_contract,
}
use chaos_atlas.Oracles.Contract.{
  validate_draft, record_human_approval, freeze_approved_contract, make_draft,
}
use chaos_atlas.Oracles.Contract.Approval.{
  freeze_approved_contract-approved, freeze_approved_contract-record_human_approval,
}

abbrev toy : Hasher
toy = record { canonical_hash = λ v. "0"; hex = λ v. refl }

abbrev no_v3 : Dict → List String
no_v3 d = []

abbrev any_time : String → Bool
any_time s = true

abbrev one : List Value → Value
one [] = arr nil
one (v ∷ vs) = arr (cons v nil)

abbrev payload : Value → Dict
payload path = dict_of (
    ("oracle_id", str "order-1")
    ∷ ("project_id", str "shop")
    ∷ ("project_revision", str "r1")
    ∷ ("evidence_sources", arr nil)
    ∷ ("credential_refs", arr nil)
    ∷ (
      "allowed_requests",
      one (obj (dict_of (("id", str "read") ∷ ("method", str "GET") ∷ ("path", path) ∷ [])) ∷ []),
    )
    ∷ ("steps", one (obj (dict_of (("id", str "s1") ∷ ("request_id", str "read") ∷ [])) ∷ []))
    ∷ ("probe_steps", arr (str_list ("s1" ∷ [])))
    ∷ (
      "assertions",
      one (
          obj (
            dict_of (
              ("id", str "a1")
              ∷ ("operator", str "json_path_exists")
              ∷ ("step_id", str "s1")
              ∷ ("path", str "$.order[0].id")
              ∷ []))
          ∷ []),
    )
    ∷ ("ownership", obj end)
    ∷ (
      "cleanup",
      obj (
          dict_of (
            ("strategy", str "disposable_environment")
            ∷ ("on_every_exit", bool true)
            ∷ ("environment_release_required", bool true)
            ∷ [])),
    )
    ∷ [])

abbrev decision : Dict
decision = dict_of (
    ("decision", str "approved")
    ∷ ("reviewer", str "mila")
    ∷ ("reviewed_at", str "2025-01-01")
    ∷ [])

abbrev returned : Result Dict → Dict
returned (ok d) = d
returned (err e m) = end

validated : Dict
validated =
    returned
      (validate_draft toy no_v3 any_time (make_draft toy no_v3 any_time (payload (str "/orders"))))

approved : Dict
approved = returned (record_human_approval toy no_v3 any_time validated decision)

frozen : Dict
frozen = returned (freeze_approved_contract toy no_v3 any_time approved)

-- the life of a contract, and a request that would leave the origin
lifecycle :
    (record_human_approval toy no_v3 any_time validated decision ≡ ok approved)
    × (freeze_approved_contract toy no_v3 any_time approved ≡ ok frozen)
    × (validate_draft toy no_v3 any_time (make_draft toy no_v3 any_time (payload (str "/orders")))
        ≡ ok validated)
    × (validate_draft toy no_v3 any_time (make_draft toy no_v3 any_time (payload (str "//evil/x")))
        ≡ err value_error
            "invalid transaction Oracle: absolute or host-changing request path is forbidden")
unfolding validated approved frozen validate_draft record_human_approval freeze_approved_contract
    make_draft chaos_atlas.Oracles.Contract.draft_of
    chaos_atlas.Oracles.Contract.Validate.without_approval
    chaos_atlas.Oracles.Contract.Validate.approval_subject_sha256
    chaos_atlas.Oracles.Contract.Steps.read_requests chaos_atlas.Oracles.Contract.Steps.path_errors
    chaos_atlas.Oracles.Contract.Steps.field_of
    chaos_atlas.Oracles.Contract.Steps.v2_contract_errors
    chaos_atlas.Oracles.Contract.Steps.cleanup_step_errors
    chaos_atlas.Oracles.Contract.Validate.body_errors
    chaos_atlas.Oracles.Contract.Validate.contract_errors
    chaos_atlas.Oracles.Contract.Validate.validate_transaction_contract
    chaos_atlas.Oracles.Contract.JsonPath.segments
    chaos_atlas.Oracles.Contract.JsonPath.is_json_path chaos_atlas.Feedback.Card.set_default
    chaos_atlas.Isolation.Identity.is_safe_id chaos_atlas.Value.get chaos_atlas.Value.has
    chaos_atlas.Value.item chaos_atlas.Value.put chaos_atlas.Value.without chaos_atlas.Value.update
    chaos_atlas.Value.either chaos_atlas.Value.truthy chaos_atlas.Value.is_true
    chaos_atlas.Value.is_dict chaos_atlas.Value.is_str chaos_atlas.Value.one_of
    chaos_atlas.Value.text chaos_atlas.Value.text_of chaos_atlas.Value.value_eq
    chaos_atlas.Isolation.Secrets.sensitive_paths chaos_atlas.Isolation.Secrets.sensitive_items
    chaos_atlas.Isolation.Secrets.sensitive_entries chaos_atlas.Isolation.Secrets.sorted_set
    chaos_atlas.Isolation.Secrets.sensitive_key chaos_atlas.Isolation.Secrets.sensitive_value
    chaos_atlas.Isolation.Secrets.flagged chaos_atlas.Isolation.Secrets.is_blank
    chaos_atlas.Isolation.Contracts.Hashing.with_hash
    chaos_atlas.Isolation.Contracts.Hashing.verify_hash starts_with contains_text decimal
lifecycle = (refl, refl, refl, refl)

freeze_approved_contract-approved_example :
    (validate_transaction_contract toy no_v3 frozen ≡ ok [])
    × (approved_by_human toy frozen (dict_in "approval" frozen) ≡ true)
    × (without_approval frozen ≡ without_approval approved)
    × (get "approval" frozen ≡ get "approval" approved)
    × (get "status" frozen ≡ str "frozen")
freeze_approved_contract-approved_example =
    freeze_approved_contract-approved toy no_v3 any_time approved frozen lifecycle.1

freeze_approved_contract-record_human_approval_example :
    (without_approval frozen ≡ without_approval validated)
    × (get "status" validated ≡ str "validated")
    × (approval : Dict) × (get "approval" frozen ≡ obj approval)
    × (get "record" approval
        ≡ obj
            (put "approved_subject_sha256" (str (approval_subject_sha256 toy validated)) decision))
freeze_approved_contract-record_human_approval_example =
    freeze_approved_contract-record_human_approval toy no_v3 any_time validated decision approved
      frozen lifecycle.0 lifecycle.1
