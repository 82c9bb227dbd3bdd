-- ===== src/Policy/Tests.antt =====
-- The feedback normaliser and the controller on concrete runs and candidates.
use chaos_atlas.Prelude.{
  String, ◌≡◌, ◌⊎◌, refl, ◌++◌, member, Bool, true, false, Option, some, none, List, [], ◌∷◌, pos,
}
use chaos_atlas.Result.{ok}
use chaos_atlas.Value.{
  Value, null, bool, int, str, obj, arr, cons, nil, Dict, end, get, dict_of, is_true, is_str, put,
}
use chaos_atlas.Isolation.Contracts.{Hasher}
use chaos_atlas.Feedback.Classify.{Classification, confirmed_weakness, label}
use chaos_atlas.Policy.Feedback.{
  Directory, parsed, demote, enough_reproductions, merge_artifacts, normalize_runtime_feedback,
}
use chaos_atlas.Policy.Gate.{
  Scoring, Selection, candidate_ids, scored_selection, legacy_selection,
  select_candidates_with_policy,
}
use chaos_atlas.Policy.Gate.Frozen.{InFrozen, select_candidates_with_policy-InFrozen}
use chaos_atlas.Policy.Controller.{Controller, as_values, decision_of, next_decision}
use chaos_atlas.Policy.Controller.Fresh.{next_decision-New}
use chaos_atlas.Policy.Ruling.{Grounds}
use chaos_atlas.Feedback.Classify.{unsupported, environment_blocked, method_invalid}
use chaos_atlas.Policy.Eligibility.{normalize-Grounds, normalize-refused}

abbrev toy : Hasher
toy = record { canonical_hash = λ v. "0"; hex = λ v. refl }

abbrev attestation : Dict
attestation = dict_of (
    ("valid", bool true)
    ∷ ("comparison_eligible", bool true)
    ∷ ("baseline", bool true)
    ∷ ("injection", bool true)
    ∷ ("observation", bool true)
    ∷ ("recovery", bool true)
    ∷ ("cleanup", bool true)
    ∷ ("independent_oracle", bool true)
    ∷ [])

abbrev child : Directory
child =
    (
      "finding_report.json",
      parsed (
          obj (
            dict_of (
              ("classification", str "availability_degraded")
              ∷ ("attestation", obj attestation)
              ∷ []))),
    )
    ∷ ("cleanup_report.json", parsed (obj (dict_of (("status", str "verified") ∷ []))))
    ∷ ("evidence_refs.json", parsed (obj (dict_of (("records", arr (cons (str "log") nil)) ∷ []))))
    ∷ []

abbrev completed : Dict
completed = dict_of (
    ("status", str "live_completed")
    ∷ ("rca_status", str "bounded")
    ∷ ("valid_reproductions", int (pos 3))
    ∷ [])

abbrev completed_row : Dict
completed_row = dict_of (
    ("status", str "live_completed")
    ∷ ("rca_status", str "bounded")
    ∷ ("valid_reproductions", int (pos 3))
    ∷ ("classification", str "confirmed_weakness")
    ∷ ("attestation", obj attestation)
    ∷ ("cleanup_status", str "verified")
    ∷ ("evidence_refs", arr (cons (str "log") nil))
    ∷ ("schema_version", str "chaosatlas-policy-runtime-feedback-v1")
    ∷ ("eligible", bool true)
    ∷ ("eligibility_reason", str "eligible")
    ∷ ("result_sha256", str "0")
    ∷ [])

completes : normalize_runtime_feedback toy completed (some child) ≡ ok completed_row
unfolding normalize_runtime_feedback merge_artifacts put get is_str is_true enough_reproductions
    chaos_atlas.Feedback.Card.set_default chaos_atlas.Table.lookup chaos_atlas.Prelude.decimal
    chaos_atlas.Prelude.parse_int chaos_atlas.Policy.Feedback.rule chaos_atlas.Policy.Feedback.adopt
    chaos_atlas.Policy.Feedback.artifact_payload chaos_atlas.Policy.Feedback.read_json
    chaos_atlas.Policy.Feedback.adopt_payload chaos_atlas.Policy.Feedback.adopt_attestation
    chaos_atlas.Policy.Feedback.adopt_reports chaos_atlas.Policy.Feedback.rule_completed
    chaos_atlas.Policy.Feedback.policy_classification chaos_atlas.Policy.Feedback.policy_label
    chaos_atlas.Policy.Feedback.evidence_complete chaos_atlas.Policy.Feedback.feedback_row
    chaos_atlas.Policy.Feedback.has_evidence chaos_atlas.Policy.Feedback.is_eligible
    chaos_atlas.Policy.Feedback.lifecycle_complete chaos_atlas.Policy.Feedback.oracle_valid
    chaos_atlas.Policy.Feedback.refusal chaos_atlas.Value.text_of chaos_atlas.Value.has
    chaos_atlas.Value.present chaos_atlas.Value.is_dict chaos_atlas.Value.either
    chaos_atlas.Value.get_or chaos_atlas.Value.text chaos_atlas.Value.to_int
    chaos_atlas.Value.truthy chaos_atlas.Value.update chaos_atlas.Value.without
completes = refl

flagged : is_true (get "eligible" completed_row) ≡ true
unfolding is_true get
flagged = refl

normalize-Grounds_example :
    (c : Classification) × (get "classification" completed_row ≡ str (label c))
    × (get "eligibility_reason" completed_row ≡ str "eligible")
    × ((run : Dict) × (merge_artifacts (some child) completed ≡ ok run)
        × Grounds run c
        × (c ≡ confirmed_weakness → enough_reproductions run ≡ ok true))
normalize-Grounds_example =
    normalize-Grounds toy completed (some child) completed_row completes flagged

-- without the reports of the run nothing says that its cleanup was verified
abbrev unclean_row : Dict
unclean_row = dict_of (
    ("status", str "live_completed")
    ∷ ("rca_status", str "bounded")
    ∷ ("valid_reproductions", int (pos 3))
    ∷ ("schema_version", str "chaosatlas-policy-runtime-feedback-v1")
    ∷ ("classification", str "unsupported")
    ∷ ("eligible", bool false)
    ∷ ("eligibility_reason", str "cleanup_not_verified")
    ∷ ("result_sha256", str "0")
    ∷ [])

refuses : normalize_runtime_feedback toy completed none ≡ ok unclean_row
unfolding normalize_runtime_feedback merge_artifacts put get is_str is_true enough_reproductions
    chaos_atlas.Feedback.Card.set_default chaos_atlas.Table.lookup chaos_atlas.Prelude.decimal
    chaos_atlas.Prelude.parse_int chaos_atlas.Policy.Feedback.rule chaos_atlas.Policy.Feedback.adopt
    chaos_atlas.Policy.Feedback.artifact_payload chaos_atlas.Policy.Feedback.read_json
    chaos_atlas.Policy.Feedback.adopt_payload chaos_atlas.Policy.Feedback.adopt_attestation
    chaos_atlas.Policy.Feedback.adopt_reports chaos_atlas.Policy.Feedback.rule_completed
    chaos_atlas.Policy.Feedback.policy_classification chaos_atlas.Policy.Feedback.policy_label
    chaos_atlas.Policy.Feedback.evidence_complete chaos_atlas.Policy.Feedback.feedback_row
    chaos_atlas.Policy.Feedback.has_evidence chaos_atlas.Policy.Feedback.is_eligible
    chaos_atlas.Policy.Feedback.lifecycle_complete chaos_atlas.Policy.Feedback.oracle_valid
    chaos_atlas.Policy.Feedback.refusal chaos_atlas.Value.text_of chaos_atlas.Value.has
    chaos_atlas.Value.present chaos_atlas.Value.is_dict chaos_atlas.Value.either
    chaos_atlas.Value.get_or chaos_atlas.Value.text chaos_atlas.Value.to_int
    chaos_atlas.Value.truthy chaos_atlas.Value.update chaos_atlas.Value.without
refuses = refl

unflagged : is_true (get "eligible" unclean_row) ≡ false
unfolding is_true get
unflagged = refl

normalize-refused_example :
    (c : Classification) × (get "classification" unclean_row ≡ str (label c))
    × ((c ≡ unsupported) ⊎ ((c ≡ environment_blocked) ⊎ (c ≡ method_invalid)))
    × (is_str "eligible" (get "eligibility_reason" unclean_row) ≡ false)
normalize-refused_example = normalize-refused toy completed none unclean_row refuses unflagged

abbrev candidate : String → Dict
candidate id = dict_of (("candidate_id", str id) ∷ [])

-- a policy that prefers the second candidate, and one that fails
abbrev steady : Scoring
steady = record {
  validate_state = λ s. ok (true, []);
  evaluate_stop = λ cs states context. ok null;
  policy_scores = λ cs s context n. ok (candidate "c" ∷ []);
}

abbrev broken : Scoring
broken = record {
  validate_state = λ s. ok (false, "seed_required" ∷ []);
  evaluate_stop = λ cs states context. ok null;
  policy_scores = λ cs s context n. ok [];
}

abbrev policy_state : Dict
policy_state = dict_of (
    ("candidate_states", obj (dict_of (("a", obj end) ∷ ("b", obj end) ∷ ("c", obj end) ∷ [])))
    ∷ [])

abbrev controller : Controller
controller = record {
  candidates = candidate "a" ∷ candidate "b" ∷ candidate "c" ∷ [];
  policy_state = policy_state;
  mode = "guarded";
  budget = pos 1;
  context = end;
}

abbrev chosen : Selection
chosen = scored_selection "guarded" ("b" ∷ []) (candidate "c" ∷ [])

selects :
    select_candidates_with_policy steady "guarded" policy_state end
      (as_values (candidate "b" ∷ candidate "c" ∷ []))
      (pos 1)
      (pos 1)
    ≡ ok chosen
unfolding select_candidates_with_policy next_decision candidate_ids
    chaos_atlas.Policy.Gate.apply_policy chaos_atlas.Policy.Gate.score_candidates
    chaos_atlas.Policy.Controller.decide_among chaos_atlas.Value.as_dict chaos_atlas.Value.either
    chaos_atlas.Value.get chaos_atlas.Value.has chaos_atlas.Value.present chaos_atlas.Value.truthy
    chaos_atlas.Value.text chaos_atlas.Value.text_of
selects = refl

decides : next_decision steady controller ("a" ∷ []) ≡ ok (decision_of "guarded" chosen)
unfolding select_candidates_with_policy next_decision candidate_ids
    chaos_atlas.Policy.Gate.apply_policy chaos_atlas.Policy.Gate.score_candidates
    chaos_atlas.Policy.Controller.decide_among chaos_atlas.Value.as_dict chaos_atlas.Value.either
    chaos_atlas.Value.get chaos_atlas.Value.has chaos_atlas.Value.present chaos_atlas.Value.truthy
    chaos_atlas.Value.text chaos_atlas.Value.text_of
decides = refl

-- where the policy fails, the first candidate that is left is run
falls_back :
    next_decision broken controller ("a" ∷ [])
    ≡ ok (
        decision_of "guarded"
          (legacy_selection ("b" ∷ []) (some "ValueError: invalid policy state: seed_required")))
unfolding select_candidates_with_policy next_decision candidate_ids
    chaos_atlas.Policy.Gate.apply_policy chaos_atlas.Policy.Gate.score_candidates
    chaos_atlas.Policy.Controller.decide_among chaos_atlas.Value.as_dict chaos_atlas.Value.either
    chaos_atlas.Value.get chaos_atlas.Value.has chaos_atlas.Value.present chaos_atlas.Value.truthy
    chaos_atlas.Value.text chaos_atlas.Value.text_of
falls_back = refl

select_candidates_with_policy-InFrozen_example :
    (ids : List String) × (candidate_ids [] (as_values (candidate "b" ∷ candidate "c" ∷ []))
      ≡ ok ids)
    × InFrozen ids chosen
select_candidates_with_policy-InFrozen_example =
    select_candidates_with_policy-InFrozen steady "guarded" policy_state end
      (as_values (candidate "b" ∷ candidate "c" ∷ [])) (pos 1) (pos 1) chosen selects

next_decision-New_example : member "c" ("a" ∷ []) ≡ false
unfolding chaos_atlas.Value.truthy chaos_atlas.Value.text chaos_atlas.Value.get
next_decision-New_example =
    next_decision-New steady controller ("a" ∷ []) (decision_of "guarded" chosen) "c" decides refl
