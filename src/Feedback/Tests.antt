-- ===== src/Feedback/Tests.antt =====
-- Runs of the feedback protocol on concrete results and cards.
use chaos_atlas.Prelude.{
  String, ◌≡◌, refl, Bool, true, false, ℕ, ◌<◌, ◌⊎◌, inl, inr, some, List, [], ◌∷◌, ◌++◌, pos,
  member, decimal, All, select, arith,
}
use chaos_atlas.Result.{ok}
use chaos_atlas.Value.{
  Value, null, bool, int, str, arr, obj, cons, nil, end, Dict, dict_of, get, get_or, truthy, is_str,
  as_list, of_list, text_of,
}
use chaos_atlas.Feedback.Classify.{
  Classification, confirmed_weakness, protected, environment_blocked, method_invalid, latent_risk,
  classify_outcome, reproduced, weakness_evidence, defense_evidence, defense_claim_types,
}
use chaos_atlas.Feedback.Verdicts.{
  Attests, evidence_of, Admissible, confirmed_weakness_grounds, protected_grounds,
}
use chaos_atlas.Isolation.Contracts.{Hasher}
use chaos_atlas.Feedback.NextKb.{rows, build_next_kb}
use chaos_atlas.Feedback.Isolation.{Justified, build_next_kb-isolated}

abbrev toy : Hasher
toy = record { canonical_hash = λ v. "0"; hex = λ v. refl }

abbrev evidence : Value
evidence = obj (
    dict_of (
      ("baseline", bool true)
      ∷ ("injection", obj (dict_of (("status", str "valid") ∷ [])))
      ∷ ("observation", bool true)
      ∷ ("recovery", bool true)
      ∷ ("cleanup", bool true)
      ∷ ("independent_oracle", bool true)
      ∷ ("observation_window", bool true)
      ∷ ("mechanism_evidence", bool true)
      ∷ []))

abbrev weak_run : Dict
weak_run = dict_of (
    ("oracle_label", str "weakness")
    ∷ ("valid_reproductions", int (pos 3))
    ∷ ("evidence", evidence)
    ∷ [])

abbrev defended_run : Dict
defended_run = dict_of (
    ("oracle_label", str "protected")
    ∷ ("defense_claim_type", str "retry")
    ∷ ("evidence", evidence)
    ∷ [])

abbrev blocked_run : Dict
blocked_run = dict_of (
    ("oracle_label", str "weakness")
    ∷ ("runner_status", str "environment_blocked")
    ∷ ("evidence", evidence)
    ∷ [])

weak : classify_outcome weak_run ≡ ok confirmed_weakness
unfolding classify_outcome truthy get is_str chaos_atlas.Feedback.Classify.classify_runnable
    chaos_atlas.Feedback.Classify.is_blocked chaos_atlas.Value.one_of
    chaos_atlas.Feedback.Classify.classify_supported chaos_atlas.Feedback.Classify.is_unsupported
    chaos_atlas.Feedback.Classify.classify_evidence chaos_atlas.Value.as_dict
    chaos_atlas.Value.either chaos_atlas.Feedback.Classify.classify_weakness
    chaos_atlas.Feedback.Classify.attested chaos_atlas.Value.is_true reproduced
    chaos_atlas.Value.to_int chaos_atlas.Feedback.Classify.classify_defense
    chaos_atlas.Feedback.Classify.classify_risk chaos_atlas.Feedback.Classify.defense_complete
    decimal chaos_atlas.Prelude.parse_int get_or chaos_atlas.Value.has chaos_atlas.Value.text
    chaos_atlas.Value.text_of
weak = refl

defended : classify_outcome defended_run ≡ ok protected
unfolding classify_outcome truthy get is_str chaos_atlas.Feedback.Classify.classify_runnable
    chaos_atlas.Feedback.Classify.is_blocked chaos_atlas.Value.one_of
    chaos_atlas.Feedback.Classify.classify_supported chaos_atlas.Feedback.Classify.is_unsupported
    chaos_atlas.Feedback.Classify.classify_evidence chaos_atlas.Value.as_dict
    chaos_atlas.Value.either chaos_atlas.Feedback.Classify.classify_weakness
    chaos_atlas.Feedback.Classify.attested chaos_atlas.Value.is_true reproduced
    chaos_atlas.Value.to_int chaos_atlas.Feedback.Classify.classify_defense
    chaos_atlas.Feedback.Classify.classify_risk chaos_atlas.Feedback.Classify.defense_complete
    decimal chaos_atlas.Prelude.parse_int get_or chaos_atlas.Value.has chaos_atlas.Value.text
    chaos_atlas.Value.text_of
defended = refl

-- two reproductions are not enough
unstable :
    classify_outcome (
      dict_of (
        ("oracle_label", str "weakness")
        ∷ ("valid_reproductions", int (pos 2))
        ∷ ("static_risk", bool true)
        ∷ ("evidence", evidence)
        ∷ []))
    ≡ ok latent_risk
unfolding classify_outcome truthy get is_str chaos_atlas.Feedback.Classify.classify_runnable
    chaos_atlas.Feedback.Classify.is_blocked chaos_atlas.Value.one_of
    chaos_atlas.Feedback.Classify.classify_supported chaos_atlas.Feedback.Classify.is_unsupported
    chaos_atlas.Feedback.Classify.classify_evidence chaos_atlas.Value.as_dict
    chaos_atlas.Value.either chaos_atlas.Feedback.Classify.classify_weakness
    chaos_atlas.Feedback.Classify.attested chaos_atlas.Value.is_true reproduced
    chaos_atlas.Value.to_int chaos_atlas.Feedback.Classify.classify_defense
    chaos_atlas.Feedback.Classify.classify_risk chaos_atlas.Feedback.Classify.defense_complete
    decimal chaos_atlas.Prelude.parse_int get_or chaos_atlas.Value.has chaos_atlas.Value.text
    chaos_atlas.Value.text_of
unstable = refl

confirmed_weakness_grounds_example :
    Admissible weak_run
    × (reproduced weak_run ≡ ok true)
    × ((e : Dict) × (evidence_of weak_run ≡ ok e) × Attests e weakness_evidence)
confirmed_weakness_grounds_example = confirmed_weakness_grounds weak_run weak

protected_grounds_example :
    Admissible defended_run
    × (member (text_of "defense_claim_type" defended_run) defense_claim_types ≡ true)
    × ((e : Dict) × (evidence_of defended_run ≡ ok e) × Attests e defense_evidence)
protected_grounds_example = protected_grounds defended_run defended

abbrev card : String → Dict
card project = dict_of (
    ("card_id", str "card-1")
    ∷ ("project_id", str project)
    ∷ ("source_round_id", str "round-1")
    ∷ ("feedback_eligible", bool true)
    ∷ ("classification", str "protected")
    ∷ ("review", obj (dict_of (("status", str "human_reviewed") ∷ [])))
    ∷ ("abstraction", obj (dict_of (("mechanism", str "retry with backoff") ∷ [])))
    ∷ [])

abbrev projects : List String
projects = "cart" ∷ "shop" ∷ "bank" ∷ []

abbrev base : Dict
base = dict_of (("kb_version", str "v1") ∷ ("cards", arr nil) ∷ [])

abbrev round_cards : List Dict
round_cards = card "cart" ∷ card "shop" ∷ card "bank" ∷ []

abbrev rejection : String → Dict
rejection reason = dict_of (("card_id", str "card-1") ∷ ("reason", str reason) ∷ [])

abbrev shop_kb : Dict
shop_kb = dict_of (
    ("schema_version", str "1.0")
    ∷ ("kb_version", str "v1-after-round-1")
    ∷ ("round_id", str "round-1")
    ∷ (
      "cards",
      arr (
          cons
            (obj (
              dict_of (
                ("card_id", str "card-1")
                ∷ ("source_project_id", str "cart")
                ∷ ("source_project_commit", null)
                ∷ ("source_round_id", str "round-1")
                ∷ ("abstraction", obj (dict_of (("mechanism", str "retry with backoff") ∷ [])))
                ∷ [])))
            nil),
    )
    ∷ (
      "provenance",
      obj (
          dict_of (
            ("current_project", str "shop")
            ∷ ("target_projects", arr nil)
            ∷ ("accepted_card_ids", arr (cons (str "card-1") nil))
            ∷ (
              "rejected",
              arr (
                  cons (obj (rejection "same_project_feedback_forbidden"))
                    (cons (obj (rejection "future_project_feedback_forbidden")) nil)),
            )
            ∷ ("same_round_leakage", bool true)
            ∷ [])),
    )
    ∷ ("snapshot_sha256", str "0")
    ∷ [])

shop_run : build_next_kb toy base round_cards "shop" [] "round-1" projects ≡ ok shop_kb
unfolding build_next_kb is_str get get_or truthy decimal as_list
    chaos_atlas.Feedback.NextKb.judge_card chaos_atlas.Feedback.NextKb.judge_all
    chaos_atlas.Feedback.NextKb.compare_places chaos_atlas.Feedback.NextKb.place
    chaos_atlas.Feedback.NextKb.place_from chaos_atlas.Feedback.NextKb.judge_content
    chaos_atlas.Feedback.NextKb.card_ids chaos_atlas.Value.hashable
    chaos_atlas.Feedback.NextKb.merge_cards chaos_atlas.Feedback.NextKb.next_kb_payload
    chaos_atlas.Feedback.Boundary.boundary_errors chaos_atlas.Feedback.Boundary.boundary_report
    chaos_atlas.Feedback.Boundary.walk_strings chaos_atlas.Feedback.Boundary.has_marker
    chaos_atlas.Feedback.Boundary.knowledge_projection chaos_atlas.Value.text
    chaos_atlas.Value.as_dict chaos_atlas.Value.one_of chaos_atlas.Value.either
    chaos_atlas.Value.has chaos_atlas.Value.present chaos_atlas.Value.put chaos_atlas.Value.to_dict
    chaos_atlas.Value.value_eq chaos_atlas.Isolation.Secrets.sorted_set
    chaos_atlas.Prelude.contains_text chaos_atlas.Prelude.lowercase chaos_atlas.Prelude.sorted
shop_run = refl

build_next_kb-isolated_example :
    (previous : List Value) × (fresh : List Dict) × (as_list (get_or "cards" base (arr nil))
      ≡ ok previous)
    × (get "cards" shop_kb ≡ arr (of_list (previous ++ rows fresh)))
    × All (Justified "shop" [] "round-1" projects round_cards) fresh
build_next_kb-isolated_example =
    build_next_kb-isolated toy base round_cards "shop" [] "round-1" projects shop_kb shop_run
