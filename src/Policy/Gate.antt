-- ===== src/Policy/Gate.antt =====
-- `select_candidates_with_policy` of tools/policy_selection_gate.py. The validation of the policy's
-- state, the stop rule and the scores stand in other files of tools/ and are a Scoring here.
pub mod Frozen
use chaos_atlas.Prelude.{
  ℕ, zero, suc, String, Bool, true, false, not, ◌&&◌, ◌||◌, Option, none, some, List, [], ◌∷◌, ◌==◌,
  if◌then◌else◌, map, any, select, member, nonempty, format, join, ℤ, pos, ltb_ℤ, pos_part,
}
use chaos_atlas.Result.{
  Exc, Result, ok, err, value_error, interrupt, exc_name, is_interrupt, ◌>>=◌, ◌>>◌, raise_if,
}
use chaos_atlas.Value.{
  Value, null, str, obj, Dict, end, get, has, either, present, text, text_of, as_dict,
}

pub record Scoring : Type 0 where
  pub validate_state : Dict → Result (Bool × List String)
  pub evaluate_stop : List Value → Dict → Dict → Result Value
  pub policy_scores : List Value → Dict → Dict → ℕ → Result (List Dict)

abbrev pub modes : List String
modes = "legacy" ∷ "observe" ∷ "shadow" ∷ "guarded" ∷ "default" ∷ []

abbrev pub deciding_modes : List String
deciding_modes = "guarded" ∷ "default" ∷ []

-- `_candidate_ids`, with the identifiers seen so far
unfoldable pub candidate_ids : List String → List Value → Result (List String)
candidate_ids seen [] = ok []
candidate_ids seen (obj candidate ∷ rest) =
    let id = text_of "candidate_id" candidate in
    let ids = candidate_ids (id ∷ seen) rest in
    if id == ""
    then err value_error "candidate_id is required"
    else if member id seen
    then err value_error (format ("duplicate candidate_id: " ∷ id ∷ []))
    else ids >>= λ others. ok (id ∷ others)
candidate_ids seen (_ ∷ rest) = err value_error "candidate must be an object"

-- `ids[:n]`
abbrev pub take_ids : ℕ → List String → List String
take_ids zero ids = []
take_ids (suc n) [] = []
take_ids (suc n) (id ∷ ids) = id ∷ take_ids n ids

abbrev pub same_ids : List String → List String → Bool
same_ids [] [] = true
same_ids (i ∷ is) (j ∷ js) = i == j && same_ids is js
same_ids _ _ = false

pub record Selection : Type 0 where
  pub legacy_ids : List String
  pub selected_ids : List String
  pub execution_ids : List String
  pub changed : Bool
  pub stop_reason : Value
  pub scores : List Dict
  pub policy_error : Option String  -- none: no fallback was used

abbrev pub legacy_selection : List String → Option String → Selection
legacy_selection ids problem = record {
  legacy_ids = ids;
  selected_ids = [];
  execution_ids = ids;
  changed = false;
  stop_reason = null;
  scores = [];
  policy_error = problem;
}

abbrev pub stopped_selection : List String → Value → Selection
stopped_selection ids reason = record {
  legacy_ids = ids;
  selected_ids = [];
  execution_ids = ids;
  changed = not (same_ids [] ids);
  stop_reason = reason;
  scores = [];
  policy_error = none;
}

abbrev pub scored_ids : List Dict → List String
scored_ids [] = []
scored_ids (d ∷ ds) = text (get "candidate_id" d) ∷ scored_ids ds

abbrev pub scored_selection : String → List String → List Dict → Selection
scored_selection mode ids scores = record {
  legacy_ids = ids;
  selected_ids = scored_ids scores;
  execution_ids = if member mode deciding_modes then scored_ids scores else ids;
  changed = not (same_ids (scored_ids scores) ids);
  stop_reason = null;
  scores = scores;
  policy_error = none;
}

abbrev pub handle : List String → Result Selection → Result Selection
handle ids (ok selection) = ok selection
handle ids (err e m) =
    if is_interrupt e
    then err e m
    else ok (legacy_selection ids (some (format (exc_name e ∷ ": " ∷ m ∷ []))))

module _ (scoring : Scoring) (mode : String) (state context : Dict) where
  -- the part after the stop rule let the policy go on
  unfoldable pub score_candidates : List Value → List String → List String → ℕ → Result Selection
  score_candidates candidates ids legacy budget = do
    scores ← scoring.policy_scores candidates state context budget
    raise_if (any (λ id. not (member id ids)) (scored_ids scores)) value_error
        "policy selected candidate outside frozen candidate list"
    ok (scored_selection mode legacy scores)

  -- the `try` block
  unfoldable pub apply_policy : List Value → List String → List String → ℕ → Result Selection
  apply_policy candidates ids legacy budget = do
    validation ← scoring.validate_state state
    raise_if (not validation.0) value_error
        (format ("invalid policy state: " ∷ join "," validation.1 ∷ []))
    states ← as_dict (either (get "candidate_states" state) (obj end))
    let missing = select (λ id. not (has id states)) ids
    raise_if (nonempty missing) value_error
        (format ("policy state missing candidates: " ∷ join "," missing ∷ []))
    stop ← scoring.evaluate_stop candidates states context
    if present stop
        then ok (stopped_selection legacy stop)
        else score_candidates candidates ids legacy budget

  unfoldable pub select_candidates_with_policy : List Value → ℤ → ℤ → Result Selection
  select_candidates_with_policy candidates budget legacy_budget = do
    raise_if (not (member mode modes)) value_error
        (format ("unsupported policy mode: " ∷ mode ∷ []))
    raise_if (ltb_ℤ budget (pos 1)) value_error "policy budget must be a positive integer"
    raise_if (ltb_ℤ legacy_budget (pos 1)) value_error "legacy budget must be a positive integer"
    ids ← candidate_ids [] candidates
    let legacy = take_ids (pos_part legacy_budget) ids
    if mode == "legacy"
        then ok (legacy_selection legacy none)
        else handle legacy (apply_policy candidates ids legacy (pos_part budget))
