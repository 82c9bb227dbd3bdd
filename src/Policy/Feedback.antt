-- ===== src/Policy/Feedback.antt =====
-- `normalize_runtime_feedback` of tools/policy_controller.py, with `_read_json`, `_artifact_payload`
-- and `_artifact_value`. A run's directory is its files by name.
use chaos_atlas.Prelude.{
  String, Bool, true, false, not, ◌&&◌, ◌||◌, Option, none, some, List, [], ◌∷◌, ◌==◌,
  if◌then◌else◌, all, member, pos, leb_ℤ,
}
use chaos_atlas.Result.{Result, ok, err, value_error, ◌>>=◌, and_then, or_else}
use chaos_atlas.Table.{lookup}
use chaos_atlas.Value.{
  Value, bool, int, str, obj, Dict, end, get, get_or, has, put, update, without, either, truthy,
  present, is_str, is_true, is_dict, text, text_of, to_int, dict_of,
}
use chaos_atlas.Isolation.Contracts.{Hasher}
use chaos_atlas.Feedback.Card.{set_default}
use chaos_atlas.Feedback.Classify.{
  Classification, confirmed_weakness, protected, latent_risk, unsupported, environment_blocked,
  method_invalid, label, classify_outcome,
}

-- A file of a run: its bytes are no UTF-8 text, the text is no JSON, or it is a document.
pub data Artifact : Type 0 where
  undecodable unparsed : Artifact
  parsed : Value → Artifact

abbrev pub Directory : Type 0
Directory = List (String × Artifact)

-- `_read_json`: no file, no JSON or no object in it is an empty dictionary. UnicodeDecodeError is a
-- ValueError, and `_read_json` does not catch it.
abbrev pub document_of : Option Artifact → Result Dict
document_of (some (parsed (obj d))) = ok d
document_of (some undecodable) = err value_error "can't decode byte: invalid start byte"
document_of _ = ok end

unfoldable pub read_json : Directory → String → Result Dict
read_json root filename = document_of (lookup filename root)

abbrev payload_of : Value → Dict → Dict
payload_of (obj payload) document = payload
payload_of _ document = document

unfoldable pub artifact_payload : Directory → String → Result Dict
artifact_payload root filename = do
  document ← read_json root filename
  ok (payload_of (get "payload" document) document)

-- `if key not in normalized` and the value is wanted: take it.
unfoldable pub adopt : String → Bool → Value → Dict → Dict
adopt key wanted value normalized =
    if not (has key normalized) && wanted then put key value normalized else normalized

-- the file is read only where the key is missing
unfoldable pub adopt_payload : Directory → String → String → Dict → Result Dict
unfolding artifact_payload
adopt_payload root filename key normalized = if has key normalized then ok normalized else do
  payload ← artifact_payload root filename
  ok (adopt key (present (get key payload)) (get key payload) normalized)

unfoldable pub adopt_attestation : Directory → Dict → Result Dict
unfolding artifact_payload
adopt_attestation root normalized = do
  finding ← artifact_payload root "finding_report.json"
  rca ← artifact_payload root "rca_report.json"
  let attestation = either (get "attestation" finding) (get "attestation" rca)
  ok (adopt "attestation" (is_dict attestation) attestation normalized)

unfoldable pub adopt_reports : Directory → Dict → Result Dict
unfolding read_json
adopt_reports root normalized = do
  cleanup ← read_json root "cleanup_report.json"
  evidence ← read_json root "evidence_refs.json"
  let status = get "status" cleanup
  let records = get "records" evidence
  let count = get "available_count" evidence
  ok (
      adopt "evidence_available_count" (present count) count (
        adopt "evidence_refs" (truthy records) records
          (adopt "cleanup_status" (present status) status normalized)))

unfoldable pub merge_artifacts : Option Directory → Dict → Result Dict
unfolding adopt_payload adopt_attestation adopt_reports
merge_artifacts none result = ok result
merge_artifacts (some root) result = do
  found ← adopt_payload root "finding_report.json" "classification" result
  analysed ← adopt_payload root "rca_report.json" "rca_status" found
  drafted ← adopt_payload root "knowledge_draft.json" "knowledge_status" analysed
  attested ← adopt_attestation root drafted
  adopt_reports root attested

abbrev pub weakness_labels : List String
weakness_labels =
    "confirmed_weakness" ∷ "availability_degraded" ∷ "functional_degraded" ∷ "data_integrity_risk"
    ∷ "recovery_timeout" ∷ "no_readiness_false_recovery" ∷ []

abbrev pub protected_labels : List String
protected_labels = "protected" ∷ "availability_defended" ∷ []

abbrev pub observation_labels : List String
observation_labels = "response_observed" ∷ "response_preserved" ∷ []

-- `int(normalized.get("valid_reproductions", 0) or 0) >= MIN_STABLE_REPRODUCTIONS`
unfoldable pub enough_reproductions : Dict → Result Bool
enough_reproductions normalized = do
  n ← to_int (either (get_or "valid_reproductions" normalized (int (pos 0))) (int (pos 0)))
  ok (leb_ℤ (pos 3) n)

-- `str(policy_classification or classification or "")`
unfoldable pub policy_label : Dict → String
policy_label normalized = text (
    either (either (get "policy_classification" normalized) (get "classification" normalized))
      (str ""))

unfoldable pub policy_classification : Dict → String → Result Classification
policy_classification normalized name = do
  stable ← and_then (member name weakness_labels) (enough_reproductions normalized)
  if stable
      then ok confirmed_weakness
      else if member name protected_labels
      then ok protected
      else if member name observation_labels
      then ok latent_risk
      else classify_outcome normalized

unfoldable pub has_evidence : Dict → Result Bool
has_evidence normalized = do
  n ← to_int (either (get_or "evidence_available_count" normalized (int (pos 1))) (int (pos 0)))
  ok (leb_ℤ (pos 1) n)

unfoldable pub evidence_complete : Dict → Result Bool
evidence_complete normalized =
    or_else (is_str "complete" (get "evidence_quality" normalized))
      (and_then (truthy (get "evidence_refs" normalized)) (has_evidence normalized))

abbrev pub lifecycle_steps : List String
lifecycle_steps = "baseline" ∷ "injection" ∷ "observation" ∷ "recovery" ∷ "cleanup" ∷ []

unfoldable pub lifecycle_complete : Value → Bool
lifecycle_complete (obj attestation) =
    is_true (get "valid" attestation)
    && (is_true (get "comparison_eligible" attestation)
        && all (λ step. is_true (get step attestation)) lifecycle_steps)
lifecycle_complete _ = false

abbrev independent : Value → Bool
independent (obj attestation) =
    is_true (get "valid" attestation) && is_true (get "independent_oracle" attestation)
independent _ = false

unfoldable pub oracle_valid : Dict → Bool
oracle_valid normalized =
    is_true (get "oracle_valid" normalized) || independent (get "attestation" normalized)

-- `classification in {"confirmed_weakness", "protected", "latent_risk"}`
abbrev pub observable : Classification → Bool
observable confirmed_weakness = true
observable protected = true
observable latent_risk = true
observable _ = false

-- the classification of a run that is not eligible
abbrev pub demote : Classification → Classification
demote environment_blocked = environment_blocked
demote method_invalid = method_invalid
demote _ = unsupported

pub record Ruling : Type 0 where
  pub classification : Classification
  pub eligible : Bool
  pub reason : String

abbrev pub bounded_causes : List String
bounded_causes = "bounded" ∷ "confirmed" ∷ []

unfoldable pub is_eligible : Dict → Classification → Bool → Bool
is_eligible normalized classification evidence =
    text_of "status" normalized == "live_completed"
    && (member (text_of "rca_status" normalized) bounded_causes
        && (lifecycle_complete (get "attestation" normalized)
            && (oracle_valid normalized && (evidence && observable classification))))

unfoldable pub refusal : Dict → Bool → Bool → String
refusal normalized unstable evidence =
    if not (text_of "status" normalized == "live_completed")
    then "runtime_not_completed"
    else if not (member (text_of "rca_status" normalized) bounded_causes)
    then "rca_not_bounded"
    else if unstable
    then "reproduction_gate_incomplete"
    else if not (lifecycle_complete (get "attestation" normalized))
    then "lifecycle_incomplete"
    else if not (oracle_valid normalized)
    then "oracle_not_valid"
    else if not evidence
    then "incomplete_evidence"
    else "classification_not_policy_observable"

abbrev pub decide : Bool → Classification → String → Ruling
decide true classification reason = record {
  classification = classification;
  eligible = true;
  reason = "eligible";
}
decide false classification reason = record {
  classification = demote classification;
  eligible = false;
  reason = reason;
}

-- the last branch, for a run whose cleanup was verified
unfoldable pub rule_completed : Dict → Result Ruling
rule_completed normalized = do
  let name = policy_label normalized
  classification ← policy_classification normalized name
  evidence ← evidence_complete normalized
  stable ← and_then (member name weakness_labels) (enough_reproductions normalized)
  let unstable = member name weakness_labels && not stable
  ok (
      decide (is_eligible normalized classification evidence) classification
        (refusal normalized unstable evidence))

abbrev pub refuse : Classification → String → Ruling
refuse classification reason = record {
  classification = classification;
  eligible = false;
  reason = reason;
}

unfoldable pub rule : Dict → Result Ruling
rule normalized =
    if text_of "status" normalized == "environment_blocked"
      || truthy (get "environment_blocked" normalized)
    then ok (refuse environment_blocked "environment_blocked")
    else if text_of "status" normalized == "method_invalid"
        || truthy (get "method_invalid" normalized)
    then ok (refuse method_invalid "method_invalid")
    else if not (text_of "cleanup_status" normalized == "verified")
    then ok (refuse unsupported "cleanup_not_verified")
    else rule_completed normalized

module _ (h : Hasher) where
  unfoldable pub feedback_row : Dict → Ruling → Dict
  feedback_row normalized ruling =
      let feedback = update normalized (
        dict_of (
          ("schema_version", str "chaosatlas-policy-runtime-feedback-v1")
          ∷ ("classification", str (label ruling.classification))
          ∷ ("eligible", bool ruling.eligible)
          ∷ ("eligibility_reason", str ruling.reason)
          ∷ [])) in
      set_default "result_sha256" (str (h.canonical_hash (obj (without "result_sha256" feedback))))
        feedback

  unfoldable pub normalize_runtime_feedback : Dict → Option Directory → Result Dict
  normalize_runtime_feedback result child_root = do
    normalized ← merge_artifacts child_root result
    ruling ← rule normalized
    ok (feedback_row normalized ruling)
