-- ===== src/Capabilities/Contracts.antt =====
-- capabilities/contracts.py: statuses, evidence grades and the two validators. The identifiers of
-- the two catalogues are arguments of `validate_catalog_coverage`.
use chaos_atlas.Prelude.{
  ℕ, suc, String, Bool, true, false, not, ◌&&◌, ◌||◌, List, [], ◌∷◌, ◌++◌, map, ◌==◌, if◌then◌else◌,
  ltb, eqb, member, format, join, select, nonempty, length, strip, uppercase, decimal, pos,
}
use chaos_atlas.Result.{Result, ok, err, value_error, ◌>>=◌, ◌>>◌, raise_if}
use chaos_atlas.Value.{
  Value, bool, str, Dict, get, has, either, text, text_of, one_of, in_tuple, is_list,
}
use chaos_atlas.Isolation.Secrets.{sorted_set}
use chaos_atlas.Isolation.Contracts.{isolation_levels, failures, missing}

abbrev pub capability_statuses : List String
capability_statuses =
    "supported" ∷ "canary_required" ∷ "blocked" ∷ "unsupported" ∷ "inapplicable" ∷ []

-- `LEGACY_STATUS_MAP.get(raw, raw)`
abbrev pub legacy_status : String → String
legacy_status raw =
    if raw == "blocked_by_platform_prerequisite" || raw == "not_reachable"
    then "blocked"
    else if raw == "planned"
    then "canary_required"
    else raw

-- `items.index(item)`
abbrev pub index_of : String → List String → ℕ
index_of s [] = 0
index_of s (t ∷ ts) = if s == t then 0 else suc (index_of s ts)

-- STATUS_PRIORITY
abbrev pub priority : String → ℕ
priority status = index_of status capability_statuses

abbrev pub evidence_grades : List String
evidence_grades = "E0" ∷ "E1" ∷ "E2" ∷ "E3" ∷ "E4" ∷ []

-- the status, and the text it was given as
unfoldable pub normalize_capability_status : Value → Result (String × String)
normalize_capability_status status = do
  let raw = strip (text (either status (str "inapplicable")))
  raise_if (not (member (legacy_status raw) capability_statuses)) value_error
      (format ("unknown capability status: " ∷ raw ∷ []))
  ok (legacy_status raw, raw)

-- `str(grade or "E0").strip().upper()`
unfoldable pub grade_text : Value → String
grade_text grade = uppercase (strip (text (either grade (str "E0"))))

unfoldable pub grade_rank : String → String → Result ℕ
grade_rank value shown =
    if member value evidence_grades
    then ok (index_of value evidence_grades)
    else err value_error (format ("unknown evidence grade: " ∷ shown ∷ []))

abbrev pub evidence_grade_rank : Value → Result ℕ
evidence_grade_rank grade = grade_rank (grade_text grade) (text grade)

-- `max(…, key=evidence_grade_rank)`: the first of the greatest. `best` is the greatest so far.
unfoldable pub max_grade : String → ℕ → List String → Result String
max_grade best rank [] = ok best
max_grade best rank (value ∷ values) = do
  next ← evidence_grade_rank (str value)
  max_grade (if ltb rank next then value else best) (if ltb rank next then next else rank) values

unfoldable pub max_of_grades : List String → Result String
max_of_grades [] = ok "E0"
max_of_grades (value ∷ values) = do
  rank ← evidence_grade_rank (str value)
  max_grade value rank values

unfoldable pub strongest_evidence_grade : List Value → Bool → Result String
strongest_evidence_grade grades discovery_only = do
  strongest ← max_of_grades (map grade_text grades)
  rank ← evidence_grade_rank (str strongest)
  raise_if (discovery_only && ltb 1 rank) value_error
      "read-only discovery cannot originate evidence above E1"
  ok strongest

unfoldable pub normalized_statuses : List Value → Result (List String)
normalized_statuses [] = ok []
normalized_statuses (status ∷ statuses) = do
  (normalized, raw) ← normalize_capability_status status
  rest ← normalized_statuses statuses
  ok (normalized ∷ rest)

-- `min(normalized, key=STATUS_PRIORITY.__getitem__)`; `best` is the least so far.
unfoldable pub min_status : String → List String → String
min_status best [] = best
min_status best (status ∷ statuses) =
    min_status (if ltb (priority status) (priority best) then status else best) statuses

abbrev pub min_of_statuses : List String → String
min_of_statuses [] = "inapplicable"
min_of_statuses (status ∷ statuses) = min_status status statuses

unfoldable pub aggregate_capability_status : List Value → Result String
aggregate_capability_status statuses = do
  normalized ← normalized_statuses statuses
  ok (min_of_statuses normalized)

abbrev pub record_required : List String
record_required =
    "project_id" ∷ "project_revision" ∷ "fault_id" ∷ "catalog_scope" ∷ "capability_status"
    ∷ "evidence_grade" ∷ "risk_level" ∷ "required_isolation" ∷ "reason_code" ∷ "reason"
    ∷ "candidate_eligible" ∷ "prerequisites" ∷ "oracle_ids" ∷ "evidence_refs" ∷ []

-- `try: … except ValueError as exc: errors.append(str(exc))`
abbrev pub complaint {ℓ} : {A : Type ℓ} → Result A → Result (List String)
complaint (ok a) = ok []
complaint (err value_error m) = ok (m ∷ [])
complaint (err e m) = err e m

-- `isinstance(v, bool)`
abbrev pub is_bool : Value → Bool
is_bool (bool b) = true
is_bool _ = false

abbrev pub list_tests : Dict → List String → List (Bool × String)
list_tests capability [] = []
list_tests capability (key ∷ keys) =
    (
      has key capability && not (is_list (get key capability)),
      format (key ∷ " must be a list" ∷ []),
    )
    ∷ list_tests capability keys

unfoldable pub validate_capability_record : Dict → Result (List String)
validate_capability_record capability = do
  scope ← one_of ("core" ∷ "extension" ∷ []) (get "catalog_scope" capability)
  status ← complaint (normalize_capability_status (get "capability_status" capability))
  grade ← complaint (evidence_grade_rank (get "evidence_grade" capability))
  ok (
      missing record_required capability
      ++ (failures ((not scope, "catalog_scope must be core or extension") ∷ [])
          ++ (status
              ++ (grade
                  ++ (failures (
                        (
                          not (in_tuple isolation_levels (get "required_isolation" capability)),
                          "required_isolation must be L1, L2 or L3",
                        )
                        ∷ [])
                      ++ (failures (
                            list_tests capability
                              ("prerequisites" ∷ "oracle_ids" ∷ "evidence_refs" ∷ []))
                          ++ failures (
                              (
                                has "candidate_eligible" capability
                                    && not (is_bool (get "candidate_eligible" capability)),
                                "candidate_eligible must be a boolean",
                              )
                              ∷ [])))))))

-- `Counter(items)[item]`
abbrev pub count : String → List String → ℕ
count s [] = 0
count s (t ∷ ts) = if s == t then suc (count s ts) else count s ts

abbrev pub fault_ids : List Dict → List String
fault_ids [] = []
fault_ids (c ∷ cs) = text_of "fault_id" c ∷ fault_ids cs

abbrev pub duplicated : List String → List String
duplicated actual =
    select (λ key. not (key == "") && not (eqb (count key actual) 1)) (sorted_set actual)

-- `sorted(set(left) - set(right))`
abbrev pub set_minus : List String → List String → List String
set_minus left right = select (λ s. not (member s right)) (sorted_set left)

unfoldable pub validate_catalog_coverage : List String → List String → List Dict → List String
validate_catalog_coverage core_ids extension_ids project_capabilities =
    let expected = core_ids ++ extension_ids in
    let actual = fault_ids project_capabilities in
    let absent = set_minus expected actual in
    let unexpected = set_minus actual expected in
    let wanted = length (sorted_set expected) in
    map (λ key. format ("duplicate aggregate capability: " ∷ key ∷ [])) (duplicated actual)
    ++ failures (
        (nonempty absent, format ("missing capabilities: " ∷ join "," absent ∷ []))
        ∷ (nonempty unexpected, format ("unexpected capabilities: " ∷ join "," unexpected ∷ []))
        ∷ (
          not (eqb (length actual) wanted),
          format (
              "aggregate capability count must be "
              ∷ decimal (pos wanted)
              ∷ ", got "
              ∷ decimal (pos (length actual))
              ∷ []),
        )
        ∷ [])
