-- ===== src/Oracles/Contract/Validate.antt =====
-- `validate_transaction_contract` of oracles/transaction_contracts.py. The checks of a version 3
-- contract, `validate_v3` of oracles/replay_validation.py, are an argument.
use chaos_atlas.Prelude.{
  String, Bool, not, ◌&&◌, ◌||◌, List, [], ◌∷◌, ◌++◌, if◌then◌else◌, nonempty,
}
use chaos_atlas.Result.{Result, ok, ◌>>=◌, any_ok}
use chaos_atlas.Value.{
  Value, arr, obj, nil, Dict, get, put, without, truthy, is_true, is_str, one_of, text_of,
}
use chaos_atlas.Isolation.Identity.{is_safe_id}
use chaos_atlas.Isolation.Secrets.{sensitive_paths, sorted_set}
use chaos_atlas.Isolation.Contracts.{Hasher, verify_hash, failures, missing}
use chaos_atlas.Isolation.Blueprint.Resource.{dict_in}
use chaos_atlas.Oracles.Contract.Steps.{
  invalid_assertion, list_of, path_errors, read_requests, step_ids_of, unknown_reference,
  v2_contract_errors,
}

abbrev pub schema_v2 : String
schema_v2 = "chaosatlas-transaction-oracle-v2"

abbrev pub schema_v3 : String
schema_v3 = "chaosatlas-transaction-oracle-v3"

abbrev pub contract_schemas : List String
contract_schemas = "chaosatlas-transaction-oracle-v1" ∷ schema_v2 ∷ schema_v3 ∷ []

abbrev pub contract_states : List String
contract_states = "draft" ∷ "validated" ∷ "approved" ∷ "frozen" ∷ []

abbrev pub contract_required : List String
contract_required =
    "schema_version" ∷ "oracle_id" ∷ "project_id" ∷ "project_revision" ∷ "status"
    ∷ "evidence_sources" ∷ "credential_refs" ∷ "allowed_requests" ∷ "steps" ∷ "assertions"
    ∷ "ownership" ∷ "cleanup" ∷ "approval" ∷ "contract_sha256" ∷ []

unfoldable pub without_approval : Dict → Dict
without_approval contract =
    without "contract_sha256" (without "approval" (without "status" contract))

unfoldable pub approval_subject_sha256 : Hasher → Dict → String
approval_subject_sha256 h contract = h.canonical_hash (obj (without_approval contract))

abbrev sensitive_view : Dict → Dict
sensitive_view contract =
    if is_str schema_v3 (get "schema_version" contract)
    then put "credential_refs" (arr nil) contract
    else contract

-- the record of a human's approval of this contract
abbrev pub approved_by_human : Hasher → Dict → Dict → Bool
approved_by_human h contract approval =
    let decided = dict_in "record" approval in
    is_str "approved" (get "decision" decided)
    && (truthy (get "reviewer" decided)
        && (truthy (get "reviewed_at" decided)
            && is_str (approval_subject_sha256 h contract) (get "approved_subject_sha256" decided)))

module _ (h : Hasher) (validate_v3 : Dict → List String) where
  -- the tests that stand before and behind the others
  abbrev pub head_tests : Dict → Bool → Bool → List (Bool × String)
  head_tests contract schema status =
      (not schema, "unknown transaction Oracle schema")
      ∷ (not (is_safe_id (text_of "oracle_id" contract)), "unsafe oracle_id")
      ∷ (not status, "invalid Oracle status")
      ∷ (
        nonempty (sensitive_paths (obj (sensitive_view contract)) "$"),
        "credential material is forbidden; use credential_refs",
      )
      ∷ []

  abbrev pub tail_tests : Dict → Bool → List (Bool × String)
  tail_tests contract final =
      (
        not (is_true (get "required" (dict_in "approval" contract))),
        "human approval must be required",
      )
      ∷ (
        final && not (approved_by_human h contract (dict_in "approval" contract)),
        "approved/frozen Oracle requires a matching human approval record",
      )
      ∷ (not (verify_hash h contract "contract_sha256"), "contract hash mismatch")
      ∷ []

  abbrev pub cleanup_errors : Dict → Result (List String)
  cleanup_errors cleanup = do
    strategy ← one_of ("exact_owned_ids" ∷ "disposable_environment" ∷ []) (get "strategy" cleanup)
    ok (
        failures (
          (
            not strategy || not (truthy (get "on_every_exit" cleanup)),
            "cleanup must be exact_owned_ids or disposable_environment on every exit",
          )
          ∷ []))

  abbrev pub step_errors : Bool → List Value → List String
  step_errors stray steps =
      failures
        ((not (nonempty steps) || stray, "every step must reference an allowed request") ∷ [])

  -- what concerns the requests, the steps, the assertions and the cleanup
  unfoldable pub body_errors : Dict → Result (List String)
  body_errors contract = do
    let requests = list_of "allowed_requests" contract
    let steps = list_of "steps" contract
    let assertions = list_of "assertions" contract
    let cleanup = dict_in "cleanup" contract
    read ← read_requests requests
    stray ← any_ok (unknown_reference "request_id" read.ids) steps
    let step_ids = step_ids_of steps
    wrong ← any_ok (invalid_assertion step_ids) assertions
    paths ← path_errors assertions
    cleaning ← cleanup_errors cleanup
    v2 ←
        if is_str schema_v2 (get "schema_version" contract)
        then v2_contract_errors contract requests read.ids steps step_ids cleanup
        else ok []
    ok (
        read.errors
        ++ (step_errors stray steps
            ++ (failures
                  ((not (nonempty assertions) || wrong, "invalid or missing assertions") ∷ [])
                ++ (paths ++ (cleaning ++ v2)))))

  abbrev v3_checks : Dict → List String
  v3_checks contract =
      if is_str schema_v3 (get "schema_version" contract) then validate_v3 contract else []

  unfoldable pub contract_errors : Dict → Result (List String)
  contract_errors contract = do
    schema ← one_of contract_schemas (get "schema_version" contract)
    status ← one_of contract_states (get "status" contract)
    body ← body_errors contract
    final ← one_of ("approved" ∷ "frozen" ∷ []) (get "status" contract)
    ok (
        missing contract_required contract
        ++ (failures (head_tests contract schema status)
            ++ (body ++ (failures (tail_tests contract final) ++ v3_checks contract))))

  unfoldable pub validate_transaction_contract : Dict → Result (List String)
  validate_transaction_contract contract = do
    errors ← contract_errors contract
    ok (sorted_set errors)
