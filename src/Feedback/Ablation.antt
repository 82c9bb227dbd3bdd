-- ===== src/Feedback/Ablation.antt =====
-- `validate_ablation_pair` of tools/feedback_protocol.py. `canonical` is the canonical JSON text of
-- a value.
use chaos_atlas.Prelude.{String, Bool, not, ◌||◌, List, [], ◌∷◌, ◌++◌, ◌==◌, format}
use chaos_atlas.Value.{Value, Dict, get, truthy, present, value_eq}
use chaos_atlas.Isolation.Contracts.Report.{failures}

abbrev pub shared_fields : List String
shared_fields =
    "common_input" ∷ "topology_evidence" ∷ "runtime_contract" ∷ "output_schema"
    ∷ "prompt_module_sha256" ∷ "source_evidence_sha256" ∷ "topology_evidence_sha256" ∷ []

module _ (canonical : Value → String) where
  abbrev pub shared_tests : List String → Dict → Dict → List (Bool × String)
  shared_tests [] kb nokb = []
  shared_tests (key ∷ keys) kb nokb =
      (
        not (canonical (get key kb) == canonical (get key nokb)),
        format ("non_identical_shared_field:" ∷ key ∷ []),
      )
      ∷ shared_tests keys kb nokb

  -- The error list; the pair is valid if it is empty.
  unfoldable pub ablation_errors : Dict → Dict → List String
  ablation_errors kb nokb =
      failures (
        (
          not (value_eq (get "project_id" kb) (get "project_id" nokb))
              || not (value_eq (get "seed" kb) (get "seed" nokb)),
          "project_or_seed_mismatch",
        )
        ∷ shared_tests shared_fields kb nokb)
      ++ failures (
          (not (truthy (get "knowledge_view" kb)), "kb_knowledge_view_missing")
          ∷ (present (get "knowledge_view" nokb), "nokb_knowledge_view_present")
          ∷ [])
