-- ===== src/Feedback/Boundary.antt =====
-- `_walk_strings`, `validate_knowledge_card_boundary`, `validate_improvement_evidence` and
-- `knowledge_projection` of tools/feedback_protocol.py.
use chaos_atlas.Prelude.{
  ℕ, ◌+◌, String, Bool, true, false, not, ◌&&◌, List, [], ◌∷◌, ◌++◌, any, select, ◌==◌,
  if◌then◌else◌, nonempty, format, join, member, pos, decimal, lowercase, contains_text, sorted,
}
use chaos_atlas.Result.{Result, ok, value_error, ◌>>=◌, ◌>>◌, raise_if}
use chaos_atlas.Value.{
  Value, null, bool, int, str, arr, obj, Items, nil, cons, Dict, end, field, get, get_or, keys,
  either, truthy, present, is_str, is_true, one_of, as_dict, to_dict, dict_of,
}
use chaos_atlas.Isolation.Contracts.Report.{failures}

abbrev pub forbidden_markers : List String
forbidden_markers =
    "oracle_label" ∷ "oracle_verdict" ∷ "runtime_observation" ∷ "post_run_rca" ∷ "mutation_path"
    ∷ "candidate_mutation_path" ∷ "final_verdict" ∷ "confirmed_weakness" ∷ "protected"
    ∷ "selected_by_" ∷ "prior_method" ∷ "issue_ledger" ∷ []

abbrev pub forbidden_fields : List String
forbidden_fields =
    "target" ∷ "evidence" ∷ "oracle_label" ∷ "classification" ∷ "runtime_observation"
    ∷ "post_run_rca" ∷ "mutation_path" ∷ "candidate_mutation_path" ∷ "final_verdict"
    ∷ "runtime_verdict" ∷ "pod_uid" ∷ "pod_uids" ∷ "availableReplicas" ∷ "samples" ∷ []

-- the keys and texts of a document, with their paths
unfoldable mutual
  pub walk_strings : Value → String → List (String × String)
  walk_strings null path = []
  walk_strings (bool b) path = []
  walk_strings (int n) path = []
  walk_strings (str s) path = (path, s) ∷ []
  walk_strings (arr vs) path = walk_items vs path 0
  walk_strings (obj d) path = walk_entries d path

  pub walk_items : Items → String → ℕ → List (String × String)
  walk_items nil path index = []
  walk_items (cons v vs) path index =
      walk_strings v (format (path ∷ "[" ∷ decimal (pos index) ∷ "]" ∷ []))
      ++ walk_items vs path (index + 1)

  pub walk_entries : Dict → String → List (String × String)
  walk_entries end path = []
  walk_entries (field key v d) path =
      let child = if path == "" then key else format (path ∷ "." ∷ key ∷ []) in
      (child, key) ∷ (walk_strings v child ++ walk_entries d path)

unfoldable pub has_marker : String → Bool
has_marker s = any (λ marker. contains_text (lowercase marker) (lowercase s)) forbidden_markers

abbrev pub marker_errors : List (String × String) → List String
marker_errors [] = []
marker_errors ((path, s) ∷ rest) =
    if has_marker s
    then format ("forbidden_marker:abstraction." ∷ path ∷ []) ∷ marker_errors rest
    else marker_errors rest

abbrev pub seconds : List (String × String) → List String
seconds [] = []
seconds ((path, s) ∷ rest) = lowercase s ∷ seconds rest

abbrev pub repeat_errors : List String → List (String × String) → List String
repeat_errors common [] = []
repeat_errors common ((path, s) ∷ rest) =
    if member (lowercase s) common
    then format ("abstraction_repeats_common:" ∷ path ∷ []) ∷ repeat_errors common rest
    else repeat_errors common rest

abbrev pub abstraction_of : Dict → Value
abstraction_of card = either (get "abstraction" card) (obj end)

abbrev pub boundary_tests : Dict → Bool → List (Bool × String)
boundary_tests review eligible =
    (not (is_str "human_reviewed" (get "status" review)), "human_review_required")
    ∷ (not eligible, "classification_not_feedback_eligible")
    ∷ []

abbrev pub repeats : Dict → Value → List String
repeats card common_input =
    if truthy common_input
    then repeat_errors (seconds (walk_strings common_input ""))
        (walk_strings (abstraction_of card) "")
    else []

unfoldable pub boundary_report : Dict → Value → Dict → Bool → List String
boundary_report card common_input review eligible =
    marker_errors (walk_strings (abstraction_of card) "")
    ++ (repeats card common_input ++ failures (boundary_tests review eligible))

-- The error list of `validate_knowledge_card_boundary`; the card is valid if that is empty.
unfoldable pub boundary_errors : Dict → Value → Result (List String)
boundary_errors card common_input = do
  review ← as_dict (get_or "review" card (obj end))
  eligible ← one_of ("confirmed_weakness" ∷ "protected" ∷ []) (get "classification" card)
  ok (boundary_report card common_input review eligible)

-- `eligible` of `validate_improvement_evidence`
unfoldable pub improvement_eligible : Dict → Bool
improvement_eligible evidence =
    is_str "improvement_verified" (get "status" evidence)
    && (is_true (get "same_scenario_contract" evidence)
        && is_true (get "cleanup_verified" evidence))

-- `v is b` for a truth value
abbrev is_bool : Bool → Value → Bool
is_bool true (bool true) = true
is_bool false (bool false) = true
is_bool _ _ = false

unfoldable pub improvement_errors : Dict → Result (List String)
unfolding improvement_eligible
improvement_errors evidence = do
  known ←
      one_of ("improvement_verified" ∷ "regression" ∷ "deployment_blocked" ∷ "not_run" ∷ [])
        (get "status" evidence)
  let eligible = improvement_eligible evidence
  ok (
      failures (
        (
          not (is_str "chaosatlas-improvement-evidence-v1" (get "schema_version" evidence)),
          "schema_version_required",
        )
        ∷ (not known, "unsupported_status")
        ∷ (
          not (is_bool eligible (get "knowledge_update_allowed" evidence)),
          "knowledge_update_gate_mismatch",
        )
        ∷ (
          not eligible && present (get "defense_claim" evidence),
          "defense_claim_without_verified_improvement",
        )
        ∷ []))

unfoldable pub knowledge_projection : Dict → Result Dict
knowledge_projection card = do
  abstraction ← to_dict (abstraction_of card)
  let forbidden = sorted (select (λ key. member key forbidden_fields) (keys abstraction))
  raise_if (nonempty forbidden) value_error (
      format
        ("knowledge abstraction contains forbidden fields: ['" ∷ join "', '" forbidden ∷ "']" ∷ []))
  raise_if (not (truthy (obj abstraction))) value_error "knowledge abstraction is required"
  ok (
      dict_of (
        ("card_id", get "card_id" card)
        ∷ ("source_project_id", get "project_id" card)
        ∷ ("source_project_commit", get "project_commit" card)
        ∷ ("source_round_id", get "source_round_id" card)
        ∷ ("abstraction", obj abstraction)
        ∷ []))
