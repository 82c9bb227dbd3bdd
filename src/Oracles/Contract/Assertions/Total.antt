-- ===== src/Oracles/Contract/Assertions/Total.antt =====
-- The evaluation of assertions (oracles/transaction_contracts.py) catches what they raise.
use chaos_atlas.Prelude.{
  ℕ, zero, suc, ℤ, String, ◌≡◌, refl, Bool, true, false, Option, none, some, List, [], ◌∷◌, ◌==◌,
  if◌then◌else◌, member, arith, Bool-cases, inl, inr, all,
}
use chaos_atlas.Result.{Result, ok, err, value_error, ◌>>=◌, ◌>>◌, raise_if, and_then}
use chaos_atlas.Value.{
  Value, bool, str, arr, obj, Items, nil, cons, Dict, end, field, get, has, item, parsed, text_of,
  value_eq, one_of, keys, values, as_dict, to_int, items, is_dict,
}
use chaos_atlas.Oracles.Contract.JsonPath.{
  Segment, key, index, segments, element, follow, walk_path, walk_segments, json_path,
}
use chaos_atlas.Oracles.Contract.Assertions.{
  Outcomes, occurs_in, len, matches, count_matches, exactly_one, actual, apply_operator, operate,
  unbound, unresolved, expected_of, attempt, is_caught, settle, fields_of, observed, observing,
  evaluate_one,
}

-- a result, or an exception that the evaluation catches
abbrev pub caught {ℓ} : {A : Type ℓ} → Result A → Bool
caught (ok v) = true
caught (err e m) = is_caught e

caught->>= {ℓ κ} :
    {A : Type ℓ} {B : Type κ} (first : Result A) (rest : A → Result B)
    → caught first ≡ true
    → ((v : A) → caught (rest v) ≡ true)
    → caught (first >>= rest) ≡ true
caught->>= (ok v) rest c d = d v
caught->>= (err e m) rest c d = c

caught->> {κ} :
    {B : Type κ} (first : Result (Unit {0})) (rest : Result B)
    → caught first ≡ true
    → caught rest ≡ true
    → caught (first >> rest) ≡ true
caught->> (ok v) rest c d = d
caught->> (err e m) rest c d = c

caught-raise_if : (b : Bool) (m : String) → caught (raise_if b value_error m) ≡ true
caught-raise_if true m = refl
caught-raise_if false m = refl

caught-if {ℓ} :
    {A : Type ℓ} (b : Bool) (x y : Result A)
    → caught x ≡ true
    → caught y ≡ true
    → caught (if b then x else y) ≡ true
caught-if true x y c d = c
caught-if false x y c d = d

caught-settle : (r : Result Bool) → caught r ≡ true → (b : Bool) × (settle r ≡ ok b)
caught-settle (ok b) c = (b, refl)
caught-settle (err e m) c = (false, rw c refl)

caught-item : (k : String) (d : Dict) → caught (item k d) ≡ true
unfolding item
caught-item k d = caught-if (has k d) _ _ refl refl

caught-element : (vs : Items) (n : ℕ) → caught (element vs n) ≡ true
unfolding element
caught-element nil n = refl
caught-element (cons v vs) zero = refl
caught-element (cons v vs) (suc n) = caught-element vs n

caught-follow : (s : Segment) (v : Value) → caught (follow s v) ≡ true
caught-follow (key k) (obj d) = caught-item k d
caught-follow (index n) (arr vs) = caught-element vs n
caught-follow (key k) v = refl
caught-follow (index n) v = refl

caught-walk_path : (ss : List Segment) (v : Value) → caught (walk_path ss v) ≡ true
unfolding walk_path
caught-walk_path [] v = refl
caught-walk_path (s ∷ ss) v = caught->>= (follow s v) _ (caught-follow s v) (caught-walk_path ss)

caught-walk_segments : (ss : Option (List Segment)) (v : Value) → caught (walk_segments ss v) ≡ true
caught-walk_segments none v = refl
caught-walk_segments (some ss) v = caught-walk_path ss v

caught-json_path : (v : Value) (path : String) → caught (json_path v (str path)) ≡ true
unfolding json_path
caught-json_path v path = caught-walk_segments (segments path) v

caught-one_of : (ss : List String) (v : Value) → caught (one_of ss v) ≡ true
unfolding one_of
caught-one_of ss (str s) = refl
caught-one_of ss v = refl

caught-parsed : (n : Option ℤ) → caught (parsed n) ≡ true
caught-parsed none = refl
caught-parsed (some n) = refl

caught-to_int : (v : Value) → caught (to_int v) ≡ true
unfolding to_int
caught-to_int (str s) = caught-parsed _
caught-to_int (bool true) = refl
caught-to_int (bool false) = refl
caught-to_int v = refl

caught-len : (v : Value) → caught (len v) ≡ true
unfolding len
caught-len (str s) = refl
caught-len v = refl

caught-occurs_in : (v expected : Value) → caught (occurs_in v expected) ≡ true
unfolding occurs_in
caught-occurs_in v (arr vs) = refl
caught-occurs_in v (obj d) = caught-one_of (keys d) v
caught-occurs_in (str s) (str t) = refl
caught-occurs_in v (str t) = refl
caught-occurs_in v expected = refl

caught-and_then : (b : Bool) (r : Result Bool) → caught r ≡ true → caught (and_then b r) ≡ true
caught-and_then true r c = c
caught-and_then false r c = refl

caught-matches : (v : Value) (expected : Dict) → caught (matches v expected) ≡ true
unfolding matches
caught-matches v end = refl
caught-matches v (field path w d) =
    caught->>= (json_path v (str path)) _ (caught-json_path v path)
      (λ found. caught-and_then (value_eq found w) _ (caught-matches v d))

caught-count_matches :
    (vs : List Value) (expected : Dict) → caught (count_matches vs expected) ≡ true
unfolding count_matches
caught-count_matches [] expected = refl
caught-count_matches (v ∷ vs) expected =
    caught->>= (matches v expected) _ (caught-matches v expected) (λ first.
      caught->>= (count_matches vs expected) _ (caught-count_matches vs expected) (λ others. refl))

caught-exactly_one : (v expected : Value) → caught (exactly_one v expected) ≡ true
caught-exactly_one (arr vs) (obj d) =
    caught->>= (count_matches (items vs) d) _ (caught-count_matches (items vs) d) (λ n. refl)
caught-exactly_one v expected = refl

module _ (assertion observation : Dict) (expected : Value) (results : Outcomes) where
  -- what an operator does with the value at the assertion's path
  reading :
      (use_value : Value → Result Bool)
      → ((v : Value) → caught (use_value v) ≡ true)
      → caught (actual assertion observation expected results >>= use_value) ≡ true
  reading use_value c =
      caught->>= (actual assertion observation expected results) use_value
        (caught-json_path (get "json" observation) (text_of "path" assertion)) c

  caught-apply_operator :
      (operator : String)
      → caught (apply_operator assertion observation expected results operator) ≡ true
  caught-apply_operator operator = caught-if (operator == "status_equals") _ _ refl (
      caught-if (operator == "status_in") _ _ (caught-occurs_in (get "status" observation) expected)
        (caught-if (operator == "json_path_equals") _ _ (reading _ (λ v. refl)) (
          caught-if (operator == "json_path_exists") _ _ (reading _ (λ v. refl)) (
            caught-if (operator == "sha256_equals") _ _ refl (
              caught-if (operator == "body_contains") _ _ refl (
                caught-if (operator == "count_equals") _ _
                  (reading _ (λ v.
                    caught->>= (len v) _ (caught-len v)
                      (λ n. caught->>= (to_int expected) _ (caught-to_int expected) (λ m. refl))))
                  (caught-if (operator == "array_exactly_one_matches") _ _
                    (reading _ (λ v. caught-exactly_one v expected))
                    (caught-if (operator == "eventually") _ _ refl refl))))))))

  caught-operate : (v : Value) → caught (operate assertion observation expected results v) ≡ true
  unfolding operate
  caught-operate (str operator) = caught-apply_operator operator
  caught-operate v = refl

caught-unbound : (assertion variables : Dict) → caught (unbound assertion variables) ≡ true
caught-unbound assertion variables =
    caught-if (has "expected_from" assertion) _ _
      (caught->>= (one_of (keys variables) (get "expected_from" assertion)) _ (caught-one_of _ _)
        (λ known. refl))
      refl

caught-fields_of : (operator : Value) (seen : Dict) → caught (fields_of operator (obj seen)) ≡ true
unfolding as_dict
caught-fields_of (str operator) seen = caught-if (member operator observing) _ _ refl refl
caught-fields_of operator seen = refl

caught-attempt :
    (assertion seen variables : Dict) (results : Outcomes)
    → caught (attempt assertion (obj seen) variables results) ≡ true
unfolding attempt
caught-attempt assertion seen variables results =
    caught->>= (unbound assertion variables) _ (caught-unbound assertion variables) (λ missing.
      caught->> (raise_if missing value_error _) _ (caught-raise_if missing _) (
        caught->> (raise_if (unresolved (expected_of assertion variables)) value_error _) _
          (caught-raise_if _ _)
          (caught->>= (fields_of (get "operator" assertion) (obj seen)) _
            (caught-fields_of (get "operator" assertion) seen)
            (λ fields. caught-operate assertion fields _ results (get "operator" assertion)))))

-- A single assertion on an observation that is an object has an outcome.
pub evaluate_one-returns :
    (assertion observations variables : Dict) (results : Outcomes) (seen : Dict)
    → observed observations (text_of "step_id" assertion) ≡ obj seen
    → (b : Bool) × (evaluate_one assertion observations variables results ≡ ok b)
unfolding evaluate_one
evaluate_one-returns assertion observations variables results seen e =
    rw e (caught-settle _ (caught-attempt assertion seen variables results))

is_dict-obj : (v : Value) → is_dict v ≡ true → (d : Dict) × (v ≡ obj d)
unfolding is_dict
is_dict-obj (obj d) e = (d, refl)
is_dict-obj v e = absurd (cc)

get-object :
    (k : String) (d : Dict)
    → all is_dict (values d) ≡ true
    → has k d ≡ true
    → is_dict (get k d) ≡ true
unfolding get has
get-object k end e h = absurd (cc)
get-object k (field j v d) e h = ground (arith, get-object k d)

-- Where all observations are objects, so is that of a step.
pub observed-object :
    (observations : Dict) (step : String)
    → all is_dict (values observations) ≡ true
    → (seen : Dict) × (observed observations step ≡ obj seen)
observed-object observations step e = elim (Bool-cases (has step observations)) [
  | inl h ↦ is_dict-obj _ (rw h (get-object step observations e h))
  | inr h ↦ (end, rw h refl)
]
