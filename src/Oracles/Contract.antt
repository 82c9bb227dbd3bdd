-- ===== src/Oracles/Contract.antt =====
-- oracles/transaction_contracts.py: the life of a transaction Oracle's contract, from the draft to
-- the frozen contract that a human approved. `is_iso` tells the texts that
-- `datetime.fromisoformat` reads.
pub mod JsonPath
pub mod Steps
pub mod Validate
pub mod Render
pub mod Assertions
pub mod Approval
mod Tests
use chaos_atlas.Prelude.{
  String, Bool, true, false, not, ◌&&◌, ◌||◌, List, [], ◌∷◌, nonempty, format, join,
}
use chaos_atlas.Result.{Result, ok, err, value_error, type_error, ◌>>=◌, ◌>>◌, raise_if}
use chaos_atlas.Value.{
  Value, null, bool, str, arr, obj, nil, Dict, end, get, item, put, update, truthy, is_str, text,
  dict_of,
}
use chaos_atlas.Isolation.Contracts.{Hasher, with_hash}
use chaos_atlas.Feedback.Card.{set_default}
use chaos_atlas.Oracles.Contract.Validate.{
  schema_v2, schema_v3, approval_subject_sha256, validate_transaction_contract,
}

-- `approval[key] = v` of what stands under `approval`
abbrev pub assign : String → Value → Value → Result Value
assign key v (obj d) = ok (obj (put key v d))
assign key v _ = err type_error "object does not support item assignment"

abbrev required_approval : Value
required_approval = obj (dict_of (("required", bool true) ∷ ("record", null) ∷ []))

module _ (h : Hasher) (validate_v3 : Dict → List String) (is_iso : String → Bool) where
  abbrev checked : String → Dict → Result Dict
  checked message contract = do
    errors ← validate_transaction_contract h validate_v3 contract
    raise_if (nonempty errors) value_error (format (message ∷ join "; " errors ∷ []))
    ok contract

  unfoldable pub validate_draft : Dict → Result Dict
  validate_draft contract = do
    raise_if (not (is_str "draft" (get "status" contract))) value_error
        "only a draft can enter validation"
    checked "invalid transaction Oracle: "
        (with_hash h (put "status" (str "validated") contract) "contract_sha256")

  unfoldable pub record_human_approval : Dict → Dict → Result Dict
  record_human_approval contract decision = do
    raise_if (not (is_str "validated" (get "status" contract))) value_error
        "only a validated Oracle can be approved"
    raise_if
        (not (is_str "approved" (get "decision" decision))
          || (not (truthy (get "reviewer" decision)) || not (truthy (get "reviewed_at" decision))))
        value_error "a concrete human approval record is required"
    raise_if (not (is_iso (text (get "reviewed_at" decision)))) value_error
        "Invalid isoformat string"
    approval ← item "approval" contract
    let subject = str (approval_subject_sha256 h contract)
    recorded ← assign "record" (obj (put "approved_subject_sha256" subject decision)) approval
    ok (
        with_hash h (put "status" (str "approved") (put "approval" recorded contract))
          "contract_sha256")

  unfoldable pub freeze_approved_contract : Dict → Result Dict
  freeze_approved_contract contract = do
    raise_if (not (is_str "approved" (get "status" contract))) value_error
        "only an approved Oracle can be frozen"
    approved ← checked "invalid approved transaction Oracle: " contract
    checked "invalid frozen transaction Oracle: "
        (with_hash h (put "status" (str "frozen") approved) "contract_sha256")

  -- `make_draft` and, with the schema of version 3, `make_v3_draft` of a dictionary
  unfoldable pub draft_of : String → Dict → Dict
  draft_of schema payload =
      let value =
        put "status" (str "draft") (update (put "schema_version" (str schema) end) payload) in
      with_hash h (set_default "approval" required_approval value) "contract_sha256"

  unfoldable pub make_draft : Dict → Dict
  make_draft payload = draft_of schema_v2 payload

  unfoldable pub make_v3_draft : Value → Result Dict
  make_v3_draft (obj payload) = ok (draft_of schema_v3 payload)
  make_v3_draft _ = err value_error "v3 draft payload must be an object"
