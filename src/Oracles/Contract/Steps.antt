-- ===== src/Oracles/Contract/Steps.antt =====
-- The requests, steps, assertions and cleanup that `validate_transaction_contract`
-- (oracles/transaction_contracts.py) looks at, and the checks of a version 2 contract.
use chaos_atlas.Prelude.{
  String, Bool, true, false, not, ◌&&◌, ◌||◌, Option, none, some, List, [], ◌∷◌, ◌++◌, ◌==◌,
  if◌then◌else◌, member, any, nonempty, starts_with, contains_text, pos,
}
use chaos_atlas.Result.{Result, ok, ◌>>=◌, any_ok}
use chaos_atlas.Value.{
  Value, bool, int, str, arr, obj, nil, Dict, end, get, put, without, truthy, is_true, is_dict,
  is_str, one_of, text, text_of, value_eq, items,
}
use chaos_atlas.Isolation.Identity.{is_safe_id}
use chaos_atlas.Isolation.Contracts.{failures}
use chaos_atlas.Isolation.Blueprint.Resource.{dict_in}
use chaos_atlas.Oracles.Contract.JsonPath.{is_json_path}

abbrev pub methods : List String
methods = "GET" ∷ "POST" ∷ "PUT" ∷ "PATCH" ∷ "DELETE" ∷ []

abbrev pub assertion_operators : List String
assertion_operators =
    "status_equals" ∷ "status_in" ∷ "json_path_equals" ∷ "json_path_exists" ∷ "sha256_equals"
    ∷ "count_equals" ∷ "eventually" ∷ "body_contains" ∷ "array_exactly_one_matches" ∷ []

-- `d.get(key) if isinstance(d.get(key), list) else []`
abbrev pub list_of : String → Dict → List Value
list_of key d = elim (get key d) [ arr vs ↦ items vs | _ ↦ [] ]

-- a path that leaves the origin
abbrev foreign_path : String → Bool
foreign_path path = starts_with "//" path || contains_text "://" path

-- the requests' identifiers, with the complaints
pub record Requests : Type 0 where
  pub ids : List String
  pub errors : List String

abbrev allowed_request : Dict → Result Bool
allowed_request item = do
  known ← one_of methods (get "method" item)
  ok (known && (starts_with "/" (text_of "path" item) && is_safe_id (text_of "id" item)))

unfoldable pub read_requests : List Value → Result Requests
read_requests [] = ok (record { ids = []; errors = [] })
read_requests (obj item ∷ rest) = do
  allowed ← allowed_request item
  others ← read_requests rest
  let host = failures (
      (foreign_path (text_of "path" item), "absolute or host-changing request path is forbidden")
      ∷ (not allowed, "invalid allowed request")
      ∷ [])
  ok (record {
    ids = if allowed then text (get "id" item) ∷ others.ids else others.ids;
    errors = host ++ others.errors;
  })
read_requests (_ ∷ rest) = do
  others ← read_requests rest
  ok (record { ids = others.ids; errors = "invalid allowed request" ∷ others.errors })

-- `not isinstance(v, dict) or v.get(key) not in ids`
abbrev pub unknown_reference : String → List String → Value → Result Bool
unknown_reference key ids (obj d) = one_of ids (get key d) >>= λ known. ok (not known)
unknown_reference key ids _ = ok true

-- {str(step.get("id")) for step in steps if isinstance(step, dict) and step.get("id")}
abbrev pub step_ids_of : List Value → List String
step_ids_of [] = []
step_ids_of (obj d ∷ rest) =
    let ids = step_ids_of rest in if truthy (get "id" d) then text (get "id" d) ∷ ids else ids
step_ids_of (_ ∷ rest) = step_ids_of rest

abbrev pub invalid_assertion : List String → Value → Result Bool
invalid_assertion step_ids (obj item) = do
  operator ← one_of assertion_operators (get "operator" item)
  if operator then unknown_reference "step_id" step_ids (obj item) else ok true
invalid_assertion step_ids _ = ok true

abbrev bad_path : Value → Bool
bad_path (str path) = not (is_json_path path)
bad_path _ = true

abbrev path_operators : List String
path_operators =
    "json_path_equals" ∷ "json_path_exists" ∷ "count_equals" ∷ "array_exactly_one_matches" ∷ []

unfoldable pub path_errors : List Value → Result (List String)
path_errors [] = ok []
path_errors (obj item ∷ rest) = do
  reads ← one_of path_operators (get "operator" item)
  others ← path_errors rest
  ok (
      failures ((reads && bad_path (get "path" item), "invalid JSON path in assertion") ∷ [])
      ++ others)
path_errors (_ ∷ rest) = path_errors rest

-- `{str(item.get("id")): str(item.get(key)) for item in …}.get(id)`: the last one counts
unfoldable pub field_of : String → String → List Value → Option String
field_of key id [] = none
field_of key id (obj item ∷ rest) = elim (field_of key id rest) [
  | some found ↦ some found
  | none ↦ if text (get "id" item) == id then some (text (get key item)) else none
]
field_of key id (_ ∷ rest) = field_of key id rest

abbrev is_get : Option String → Bool
is_get (some method) = method == "GET"
is_get none = false

-- whether the request of an identifier is a GET
abbrev pub reads_only : List Value → Option String → Bool
reads_only requests (some id) = is_get (field_of "method" id requests)
reads_only requests none = false

abbrev pub writing_steps : List Value → List Value → List Dict
writing_steps requests [] = []
writing_steps requests (obj step ∷ rest) =
    let others = writing_steps requests rest in
    if reads_only requests (some (text (get "request_id" step))) then others else step ∷ others
writing_steps requests (_ ∷ rest) = writing_steps requests rest

abbrev recovery_strategies : List String
recovery_strategies = "retry_same_request" ∷ "exact_lookup" ∷ "disposable_environment" ∷ []

abbrev unrecovered : Value → Result Bool
unrecovered (obj recovery) =
    one_of recovery_strategies (get "strategy" recovery) >>= λ known. ok (not known)
unrecovered _ = ok true

abbrev recovery_errors : List Value → List String → List Dict → List String
recovery_errors requests ids [] = []
recovery_errors requests ids (step ∷ steps) =
    let recovery = dict_in "on_response_loss" step in
    let lookup = text_of "request_id" recovery in
    failures (
      (
        is_str "retry_same_request" (get "strategy" recovery)
            && not (value_eq (get "max_attempts" recovery) (int (pos 1))),
        "v2 response-loss retry must be bounded to one attempt",
      )
      ∷ (
        is_str "exact_lookup" (get "strategy" recovery)
            && (not (member lookup ids)
                || (not (reads_only requests (some lookup))
                    || not (is_dict (get "capture" recovery)))),
        "v2 response-loss lookup must be an allowed GET with capture",
      )
      ∷ [])
    ++ recovery_errors requests ids steps

abbrev is_number : Value → Bool
is_number (int n) = true
is_number (bool b) = true
is_number _ = false

-- `isinstance(v, list) and v` with integers only
abbrev acceptable : Value → Bool
acceptable (arr vs) = nonempty (items vs) && not (any (λ v. not (is_number v)) (items vs))
acceptable _ = false

abbrev statuses_of : Value → Value
statuses_of (obj item) = get "acceptable_statuses" item
statuses_of _ = chaos_atlas.Value.null

unfoldable pub cleanup_step_errors : List String → List Value → Result (List String)
cleanup_step_errors ids [] = ok []
cleanup_step_errors ids (item ∷ rest) = do
  unknown ← unknown_reference "request_id" ids item
  others ← cleanup_step_errors ids rest
  ok (
      failures (
        (unknown, "invalid v2 cleanup request step")
        ∷ (not (acceptable (statuses_of item)), "v2 cleanup steps require acceptable_statuses")
        ∷ [])
      ++ others)

-- the checks of a version 2 contract
unfoldable pub v2_contract_errors :
    Dict → List Value → List String → List Value → List String → Dict → Result (List String)
v2_contract_errors contract requests ids steps step_ids cleanup = do
  let probes = list_of "probe_steps" contract
  stray ← any_ok (λ item. one_of step_ids item >>= λ known. ok (not known)) probes
  let writes = writing_steps requests steps
  lost ← any_ok (λ step. unrecovered (get "on_response_loss" step)) writes
  let cleanup_steps = list_of "steps" cleanup
  cleaned ← cleanup_step_errors ids cleanup_steps
  ok (
      failures (
        (not (nonempty probes) || stray, "v2 probe_steps must reference transaction steps")
        ∷ (
          any (λ item. not (reads_only requests (field_of "request_id" (text item) steps))) probes,
          "v2 probe_steps must be read-only GET requests",
        )
        ∷ (lost, "every v2 write step requires bounded response-loss recovery")
        ∷ [])
      ++ (recovery_errors requests ids writes
          ++ (failures (
                (
                  is_str "exact_owned_ids" (get "strategy" cleanup) && not (nonempty cleanup_steps),
                  "v2 exact cleanup requires explicit request steps",
                )
                ∷ (
                  is_str "disposable_environment" (get "strategy" cleanup)
                      && not (is_true (get "environment_release_required" cleanup)),
                  "v2 disposable cleanup requires environment release",
                )
                ∷ [])
              ++ cleaned)))
