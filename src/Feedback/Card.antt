-- ===== src/Feedback/Card.antt =====
-- `build_feedback_card` of tools/feedback_protocol.py. `digest` is the hex SHA-256 of a text, and
-- `created_at` the clock's time stamp.
use chaos_atlas.Prelude.{
  String, Bool, true, false, ◌&&◌, ◌||◌, [], ◌∷◌, ◌==◌, if◌then◌else◌, format, member, take_text,
}
use chaos_atlas.Result.{Result, ok, value_error, ◌>>=◌, ◌>>◌, raise_if}
use chaos_atlas.Value.{
  Value, bool, str, obj, Dict, end, get, get_or, has, put, either, text, text_of, to_dict, dict_of,
}
use chaos_atlas.Feedback.Classify.{
  Classification, confirmed_weakness, protected, label, defense_claim_types, classify_outcome,
}

-- `d.setdefault(key, value)`
unfoldable pub set_default : String → Value → Dict → Dict
set_default key v d = if has key d then d else put key v d

abbrev pub feeds_back : Classification → Bool
feeds_back confirmed_weakness = true
feeds_back protected = true
feeds_back _ = false

abbrev is_protected : Classification → Bool
is_protected protected = true
is_protected _ = false

-- the abstraction of a card
unfoldable pub card_abstraction : Dict → Classification → Dict → Dict
unfolding set_default
card_abstraction result c given =
    let claim = text_of "defense_claim_type" result in
    let family =
      set_default "weakness_family" (get_or "fault_family" result (str "unknown")) given in
    let role = set_default "target_role" (get_or "target_kind" result (str "unknown")) family in
    if is_protected c && member claim defense_claim_types
    then set_default "defense_claim_type" (str claim) role
    else role

module _ (digest : String → String) (created_at : String) where
  unfoldable pub build_feedback_card : Dict → String → Result Dict
  unfolding card_abstraction
  build_feedback_card result review_status = do
    let project = text (get_or "project_id" result (str ""))
    let commit = text (get_or "project_commit" result (str ""))
    let signature = text (get_or "canonical_signature" result (str ""))
    let round = text (get_or "round_id" result (str ""))
    raise_if (project == "" || (commit == "" || (signature == "" || round == ""))) value_error
        "project_id, project_commit, canonical_signature, and round_id are required"
    c ← classify_outcome result
    evidence ← to_dict (either (get "evidence" result) (obj end))
    given ← to_dict (either (get "abstraction" result) (obj end))
    ok (
        dict_of (
          ("schema_version", str "1.0")
          ∷ (
            "card_id",
            str (
                format (
                  "FA-"
                  ∷ take_text 16 (digest (format (project ∷ ":" ∷ commit ∷ ":" ∷ signature ∷ [])))
                  ∷ [])),
          )
          ∷ ("project_id", str project)
          ∷ ("project_commit", str commit)
          ∷ ("source_round_id", str round)
          ∷ ("canonical_signature", str signature)
          ∷ ("target", get "target" result)
          ∷ ("fault_family", get "fault_family" result)
          ∷ ("classification", str (label c))
          ∷ ("evidence", obj evidence)
          ∷ ("abstraction", obj (card_abstraction result c given))
          ∷ (
            "review",
            obj (
                dict_of (
                  ("status", str review_status)
                  ∷ ("reviewer", get "reviewer" result)
                  ∷ ("note", get_or "review_note" result (str ""))
                  ∷ [])),
          )
          ∷ ("feedback_eligible", bool (feeds_back c && review_status == "human_reviewed"))
          ∷ ("created_at", str created_at)
          ∷ []))
