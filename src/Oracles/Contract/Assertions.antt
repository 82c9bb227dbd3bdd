-- ===== src/Oracles/Contract/Assertions.antt =====
-- `evaluate_assertions` of oracles/transaction_contracts.py.
pub mod Total
pub mod Verdict
mod Tests
use Prim.Native.Char.{code}
use chaos_atlas.Prelude.{
  ℕ, zero, suc, ◌+◌, String, Bool, true, false, not, ◌&&◌, ◌||◌, Option, none, some, List, [], ◌∷◌,
  ◌++◌, ◌==◌, if◌then◌else◌, leb, eqb, length, all, any, member, nonempty, format, contains_text,
  codes, pos,
}
use chaos_atlas.Result.{
  Exc, Result, ok, err, value_error, type_error, key_error, index_error, ◌>>=◌, ◌>>◌, raise_if,
  and_then,
}
use chaos_atlas.Value.{
  Value, null, bool, int, str, arr, obj, Items, nil, cons, Dict, end, field, get, has, either,
  present, text, text_of, value_eq, one_of, keys, as_dict, as_list, to_int, items,
}
use chaos_atlas.Oracles.Contract.JsonPath.{key_char, letter, json_path}
use chaos_atlas.Oracles.Contract.Render.{has_place, render}

-- `v in expected`
unfoldable pub occurs_in : Value → Value → Result Bool
occurs_in v (arr vs) = ok (any (value_eq v) (items vs))
occurs_in (str part) (str s) = ok (contains_text part s)
occurs_in v (obj d) = one_of (keys d) v
occurs_in v expected = err type_error "argument is not iterable"

-- `len(v)`
unfoldable pub len : Value → Result ℕ
len (arr vs) = ok (length (items vs))
len (str s) = ok (length (codes s))
len (obj d) = ok (length (keys d))
len _ = err type_error "object has no len()"

-- `all(_json_path(item, path) == v for path, v in expected.items())`
unfoldable pub matches : Value → Dict → Result Bool
matches item end = ok true
matches item (field path v d) = do
  let rest = matches item d
  actual ← json_path item (str path)
  and_then (value_eq actual v) rest

unfoldable pub count_matches : List Value → Dict → Result ℕ
count_matches [] expected = ok 0
count_matches (item ∷ rest) expected = do
  first ← matches item expected
  others ← count_matches rest expected
  ok (if first then suc others else others)

abbrev pub exactly_one : Value → Value → Result Bool
exactly_one (arr vs) (obj expected) = count_matches (items vs) expected >>= λ n. ok (eqb n 1)
exactly_one _ _ = err value_error "exact array match requires an array and a field map"

abbrev pub Outcomes : Type 0
Outcomes = List (String × Bool)

-- `results.get(id, False)`
unfoldable pub outcome_of : String → Outcomes → Bool
outcome_of id [] = false
outcome_of id ((j, b) ∷ rest) = if id == j then b else outcome_of id rest

-- `results[id] = passed`
unfoldable pub set_outcome : String → Bool → Outcomes → Outcomes
set_outcome id passed [] = (id, passed) ∷ []
set_outcome id passed ((j, b) ∷ rest) =
    let others = set_outcome id passed rest in
    if id == j then (j, passed) ∷ rest else (j, b) ∷ others

module _ (assertion observation : Dict) (expected : Value) (results : Outcomes) where
  abbrev pub actual : Result Value
  actual = json_path (get "json" observation) (str (text_of "path" assertion))

  abbrev pub apply_operator : String → Result Bool
  apply_operator operator =
      if operator == "status_equals"
      then ok (value_eq (get "status" observation) expected)
      else if operator == "status_in"
      then occurs_in (get "status" observation) expected
      else if operator == "json_path_equals"
      then (actual >>= λ v. ok (value_eq v expected))
      else if operator == "json_path_exists"
      then (actual >>= λ v. ok (present v))
      else if operator == "sha256_equals"
      then ok (value_eq (get "body_sha256" observation) expected)
      else if operator == "body_contains"
      then ok (contains_text (text expected) (text_of "body" observation))
      else if operator == "count_equals"
      then (actual >>= λ v.
          len v >>= λ n. to_int expected >>= λ wanted. ok (value_eq (int (pos n)) (int wanted)))
      else if operator == "array_exactly_one_matches"
      then (actual >>= λ v. exactly_one v expected)
      else if operator == "eventually"
      then ok (outcome_of (text_of "assertion_ref" assertion) results)
      else ok false

  unfoldable pub operate : Value → Result Bool
  operate (str operator) = apply_operator operator
  operate _ = ok false

-- `"expected_from" in assertion and assertion["expected_from"] not in variables`
abbrev pub unbound : Dict → Dict → Result Bool
unbound assertion variables =
    if has "expected_from" assertion
    then (one_of (keys variables) (get "expected_from" assertion) >>= λ known. ok (not known))
    else ok false

abbrev pub unresolved : Value → Bool
unresolved (str s) = has_place s
unresolved _ = false

unfoldable pub expected_of : Dict → Dict → Value
expected_of assertion variables = render variables (
    if has "expected" assertion
    then get "expected" assertion
    else get (text_of "expected_from" assertion) variables)

-- the operators that ask the observation for a field
abbrev pub observing : List String
observing =
    "status_equals" ∷ "status_in" ∷ "json_path_equals" ∷ "json_path_exists" ∷ "sha256_equals"
    ∷ "body_contains" ∷ "count_equals" ∷ "array_exactly_one_matches" ∷ []

abbrev pub fields_of : Value → Value → Result Dict
fields_of (str operator) observation =
    if member operator observing then as_dict observation else ok end
fields_of _ observation = ok end

-- the body of the `try` block
unfoldable pub attempt : Dict → Value → Dict → Outcomes → Result Bool
attempt assertion observation variables results = do
  missing ← unbound assertion variables
  raise_if missing value_error "missing expected variable"
  let expected = expected_of assertion variables
  raise_if (unresolved expected) value_error "unresolved expected variable"
  seen ← fields_of (get "operator" assertion) observation
  operate assertion seen expected results (get "operator" assertion)

-- (KeyError, IndexError, TypeError, ValueError)
abbrev pub is_caught : Exc → Bool
is_caught key_error = true
is_caught index_error = true
is_caught type_error = true
is_caught value_error = true
is_caught _ = false

-- `except …: passed = False`
abbrev pub settle : Result Bool → Result Bool
settle (ok b) = ok b
settle (err e m) = if is_caught e then ok false else err e m

-- `observations.get(str(step_id or ""), {})`
abbrev pub observed : Dict → String → Value
observed observations step = if has step observations then get step observations else obj end

unfoldable pub evaluate_one : Dict → Dict → Dict → Outcomes → Result Bool
evaluate_one assertion observations variables results =
    settle
      (attempt assertion (observed observations (text_of "step_id" assertion)) variables results)

pub record Evaluation : Type 0 where
  pub results : Outcomes
  pub failed : List String

unfoldable pub evaluate_from : Dict → Dict → Outcomes → List String → List Value → Result Evaluation
evaluate_from observations variables results failed [] =
    ok (record { results = results; failed = failed })
evaluate_from observations variables results failed (v ∷ rest) = do
  assertion ← as_dict v
  let id = text_of "id" assertion
  passed ← evaluate_one assertion observations variables results
  evaluate_from observations variables (set_outcome id passed results)
      (if passed then failed else failed ++ id ∷ []) rest

-- `results and all(results.values())`
abbrev pub all_passed : Outcomes → Bool
all_passed [] = true
all_passed ((id, b) ∷ rest) = b && all_passed rest

abbrev pub passes : Evaluation → Bool
passes evaluation = nonempty evaluation.results && all_passed evaluation.results

unfoldable pub evaluate_assertions : Dict → Dict → Dict → Result Evaluation
evaluate_assertions contract observations variables = do
  assertions ← as_list (either (get "assertions" contract) (arr nil))
  evaluate_from observations variables [] [] assertions
