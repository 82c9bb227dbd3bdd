-- ===== src/Feedback/NextKb.antt =====
-- `build_next_kb` of tools/feedback_protocol.py: which cards a later project's knowledge base takes.
use chaos_atlas.Prelude.{
  ℕ, suc, String, Bool, not, ◌||◌, Option, none, some, List, [], ◌∷◌, ◌++◌, any, select, ◌==◌,
  if◌then◌else◌, nonempty, format, member, leb,
}
use chaos_atlas.Result.{Result, ok, err, value_error, ◌>>=◌}
use chaos_atlas.Value.{
  Value, null, bool, str, arr, obj, nil, Dict, get, get_or, put, truthy, is_str, value_eq, as_dict,
  as_list, of_list, str_list, text, dict_of, hashable,
}
use chaos_atlas.Isolation.Contracts.{Hasher}
use chaos_atlas.Isolation.Secrets.{sorted_set}
use chaos_atlas.Feedback.Boundary.{boundary_errors, knowledge_projection}

-- `{project: index for index, project in enumerate(order)}`: the last place counts.
unfoldable pub place_from : ℕ → String → List String → Option ℕ
place_from n project [] = none
place_from n project (p ∷ ps) = elim (place_from (suc n) project ps) [
  | some k ↦ some k
  | none ↦ if p == project then some n else none
]

unfoldable pub place : String → List String → Option ℕ
unfolding place_from
place project order = place_from 0 project order

pub data Verdict : Type 0 where
  accept : Dict → Verdict
  reject : String → List String → Verdict

-- `order[card_project] >= order[current_project]`, or one of them is missing
pub data Precedence : Type 0 where
  unordered future earlier : Precedence

unfoldable pub compare_places : Option ℕ → Option ℕ → Precedence
compare_places (some current) (some card) = if leb current card then future else earlier
compare_places _ _ = unordered

-- `accepted.append(knowledge_projection(card))` in its `try` block
abbrev pub project_card : Result Dict → Result Verdict
project_card (ok projection) = ok (accept projection)
project_card (err value_error m) = ok (reject m [])
project_card (err e m) = err e m

-- the checks behind the provenance of a card
unfoldable pub judge_content : Dict → Result Verdict
judge_content card =
    if not (truthy (get "feedback_eligible" card))
    then ok (reject "human_review_required" [])
    else do
      errors ← boundary_errors card null
      if nonempty errors
          then ok (reject "knowledge_boundary_failed" errors)
          else project_card (knowledge_projection card)

abbrev pub judge_order : Precedence → Dict → Result Verdict
judge_order unordered card = ok (reject "project_order_required" [])
judge_order future card = ok (reject "future_project_feedback_forbidden" [])
judge_order earlier card = judge_content card

module _ (current : String) (targets : List String) (round_id : String) (order : List String) where
  -- one round of the loop over the cards
  unfoldable pub judge_card : Dict → Result Verdict
  judge_card card =
      let project = text (get_or "project_id" card (str "")) in
      if not (is_str round_id (get "source_round_id" card))
      then ok (reject "round_mismatch" [])
      else if member project targets || project == current
      then ok (reject "same_project_feedback_forbidden" [])
      else judge_order (compare_places (place current order) (place project order)) card

  unfoldable pub judge_all : List Dict → Result (List (Dict × Verdict))
  judge_all [] = ok []
  judge_all (card ∷ cards) = do
    verdict ← judge_card card
    rest ← judge_all cards
    ok ((card, verdict) ∷ rest)

abbrev pub accepted_of : List (Dict × Verdict) → List Dict
accepted_of [] = []
accepted_of ((card, accept projection) ∷ rest) = projection ∷ accepted_of rest
accepted_of ((card, reject reason errors) ∷ rest) = accepted_of rest

abbrev rejection : Dict → String → List String → Dict
rejection card reason [] = dict_of (("card_id", get "card_id" card) ∷ ("reason", str reason) ∷ [])
rejection card reason errors = dict_of (
    ("card_id", get "card_id" card)
    ∷ ("reason", str reason)
    ∷ ("errors", arr (str_list errors))
    ∷ [])

abbrev pub rejected_of : List (Dict × Verdict) → List Dict
rejected_of [] = []
rejected_of ((card, accept projection) ∷ rest) = rejected_of rest
rejected_of ((card, reject reason errors) ∷ rest) = rejection card reason errors ∷ rejected_of rest

abbrev leaks : Dict → Bool
leaks row =
    is_str "same_project_feedback_forbidden" (get "reason" row)
    || is_str "future_project_feedback_forbidden" (get "reason" row)

abbrev pub rows : List Dict → List Value
rows [] = []
rows (d ∷ ds) = obj d ∷ rows ds

abbrev ids : List Dict → List Value
ids [] = []
ids (d ∷ ds) = get "card_id" d ∷ ids ds

-- `{item.get("card_id") for item in cards}`: a list or a dictionary cannot be hashed.
unfoldable pub card_ids : List Value → Result (List Value)
card_ids [] = ok []
card_ids (v ∷ vs) = do
  d ← as_dict v
  id ← hashable (get "card_id" d)
  rest ← card_ids vs
  ok (id ∷ rest)

abbrev pub seen_in : List Value → Dict → Bool
seen_in seen card = any (λ id. value_eq id (get "card_id" card)) seen

-- `previous_cards + [item for item in accepted if item.get("card_id") not in seen]`; `not in`
-- hashes the identifier of each card
unfoldable pub merge_cards : List Value → List Dict → Result (List Value)
unfolding card_ids
merge_cards previous accepted = do
  seen ← card_ids previous
  asked ← card_ids (rows accepted)
  ok (previous ++ rows (select (λ card. not (seen_in seen card)) accepted))

-- the snapshot before its hash
unfoldable pub next_kb_payload :
    Dict → String → List String → String → List (Dict × Verdict) → List Value → Dict
next_kb_payload base current targets round_id verdicts merged =
    let rejected = rejected_of verdicts in
    dict_of (
      ("schema_version", str "1.0")
      ∷ (
        "kb_version",
        str (format (text (get_or "kb_version" base (str "v1")) ∷ "-after-" ∷ round_id ∷ [])),
      )
      ∷ ("round_id", str round_id)
      ∷ ("cards", arr (of_list merged))
      ∷ (
        "provenance",
        obj (
            dict_of (
              ("current_project", str current)
              ∷ ("target_projects", arr (str_list (sorted_set targets)))
              ∷ ("accepted_card_ids", arr (of_list (ids (accepted_of verdicts))))
              ∷ ("rejected", arr (of_list (rows rejected)))
              ∷ ("same_round_leakage", bool (any leaks rejected))
              ∷ [])),
      )
      ∷ [])

module _ (h : Hasher) where
  unfoldable pub build_next_kb :
      Dict → List Dict → String → List String → String → List String → Result Dict
  unfolding judge_all merge_cards
  build_next_kb base cards current targets round_id order = do
    verdicts ← judge_all current targets round_id order cards
    previous ← as_list (get_or "cards" base (arr nil))
    merged ← merge_cards previous (accepted_of verdicts)
    let payload = next_kb_payload base current targets round_id verdicts merged
    ok (put "snapshot_sha256" (str (h.canonical_hash (obj payload))) payload)
