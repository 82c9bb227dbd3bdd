-- ===== src/Oracles/Ownership.antt =====
-- oracles/ownership.py: which object of a response belongs to a transaction.
pub mod Exact
mod Tests
use chaos_atlas.Prelude.{
  ℕ, suc, ◌+◌, ℤ, String, Bool, true, false, not, ◌&&◌, ◌||◌, List, [], ◌∷◌, ◌++◌, ◌==◌,
  if◌then◌else◌, leb, any, nonempty, length, codes, pos, negsuc,
}
use chaos_atlas.Result.{
  Exc, Result, ok, err, key_error, type_error, index_error, ownership_uncertain, ◌>>=◌, ◌>>◌,
  raise_if, and_then,
}
use chaos_atlas.Value.{
  Value, null, bool, int, str, arr, obj, Items, nil, cons, Dict, end, field, get, item, present,
  truthy, is_str, as_dict, value_eq, values, items, dict_of,
}
use chaos_atlas.Isolation.Contracts.{Hasher}
use chaos_atlas.Oracles.Contract.JsonPath.{json_path}

-- `v[key]` of any value
abbrev pub entry : String → Value → Result Value
entry key (obj d) = item key d
entry key _ = err type_error "object is not subscriptable"

-- `type(v) is type(w)`
abbrev pub same_type : Value → Value → Bool
same_type null null = true
same_type (bool _) (bool _) = true
same_type (int _) (int _) = true
same_type (str _) (str _) = true
same_type (arr _) (arr _) = true
same_type (obj _) (obj _) = true
same_type _ _ = false

-- `count > v`
abbrev above : ℕ → Value → Result Bool
above count (int (pos n)) = ok (not (leb count n))
above count (int (negsuc n)) = ok true
above count (bool true) = ok (not (leb count 1))
above count (bool false) = ok (not (leb count 0))
above count _ = err type_error "'>' not supported"

-- `[found] if spec.get("single_object") else found`
abbrev pub collection_of : Value → Dict → Result Value
collection_of payload spec = do
  path ← item "collection_path" spec
  found ← json_path payload path
  ok (if truthy (get "single_object" spec) then arr (cons found nil) else found)

abbrev pub bounded : Value → Dict → Result (List Value)
bounded (arr vs) spec = do
  most ← item "max_items" spec
  beyond ← above (length (items vs)) most
  raise_if beyond ownership_uncertain "ownership collection is not bounded"
  ok (items vs)
bounded _ spec = err ownership_uncertain "ownership collection is not bounded"

-- `type(v) is int and v == count`
abbrev counts : Value → ℕ → Bool
counts (int n) count = value_eq (int n) (int (pos count))
counts _ count = false

abbrev complete_by : Value → Value → Value → ℕ → Result (Unit {0})
complete_by operator complete value count =
    if is_str "total_equals_length" operator
    then raise_if (not (counts value count)) ownership_uncertain "ownership pagination incomplete"
    else if is_str "equals" operator
    then (entry "expected" complete >>= λ wanted.
        raise_if (not (same_type value wanted) || not (value_eq value wanted)) ownership_uncertain
          "ownership pagination incomplete")
    else err ownership_uncertain "unknown pagination contract"

-- the response holds the whole collection
unfoldable pub complete_response : Value → Dict → ℕ → Result (Unit {0})
complete_response payload spec count =
    if truthy (get "single_object" spec)
    then ok tt
    else (item "complete" spec >>= λ complete. entry "path" complete >>= λ path.
        json_path payload path >>= λ value.
        entry "operator" complete >>= λ operator. complete_by operator complete value count)

-- whether an object has the values that are expected of it, and their types
unfoldable pub owns : Dict → Value → Result Bool
owns end v = ok true
owns (field path wanted expected) v = do
  let rest = owns expected v
  found ← json_path v (str path)
  and_then (value_eq found wanted && same_type found wanted) rest

-- whether an object has the identity that was recorded
unfoldable pub identified : Dict → Dict → Value → Result Bool
identified spec end v = ok true
identified spec (field name wanted expected) v = do
  let rest = identified spec expected v
  identity ← item "identity" spec
  path ← entry name identity
  found ← json_path v path
  and_then (value_eq found wanted) rest

abbrev pub has_identity : Dict → Dict → Value → Result Bool
has_identity spec end v = ok false
has_identity spec (field name wanted expected) v = identified spec (field name wanted expected) v

-- the objects of a collection that are owned
unfoldable pub owned_in : Dict → Dict → Dict → List Value → Result (List Value)
owned_in spec expected identity [] = ok []
owned_in spec expected identity (obj d ∷ rest) = do
  owned ← owns expected (obj d)
  same ← has_identity spec identity (obj d)
  raise_if (same && not owned) ownership_uncertain "persisted identity has different ownership"
  others ← owned_in spec expected identity rest
  ok (if owned then obj d ∷ others else others)
owned_in spec expected identity (_ ∷ rest) = err ownership_uncertain "malformed ownership object"

-- `{name: _json_path(v, path) for name, path in paths.items()}`
unfoldable pub identity_of : Value → Dict → Result Dict
identity_of v end = ok end
identity_of v (field name path paths) = do
  found ← json_path v path
  rest ← identity_of v paths
  ok (field name found rest)

abbrev pub identity_text : Value → Bool
identity_text (str s) = not (s == "") && leb (length (codes s)) 256
identity_text _ = false

abbrev pub Selection : Type 0
Selection = Dict

abbrev evidence : Hasher → List (String × Value) → Value
evidence h facts = str (h.canonical_hash (obj (dict_of facts)))

abbrev pub not_found : Hasher → Dict → Selection
not_found h expected = dict_of (
    ("status", str "not_found")
    ∷ ("identity", obj end)
    ∷ (
      "evidence_sha256",
      evidence h
          (("expected", obj expected) ∷ ("count", int (pos 0)) ∷ ("complete", bool true) ∷ []),
    )
    ∷ [])

abbrev pub found_owned : Hasher → Dict → Dict → Selection
found_owned h expected identity = dict_of (
    ("status", str "owned")
    ∷ ("identity", obj identity)
    ∷ (
      "evidence_sha256",
      evidence h (
          ("expected", obj expected)
          ∷ ("identity", obj identity)
          ∷ ("count", int (pos 1))
          ∷ ("complete", bool true)
          ∷ []),
    )
    ∷ [])

-- what the owned objects say: none, one, or too many
unfoldable pub settle_matches : Hasher → Dict → Dict → Dict → List Value → Result Selection
settle_matches h spec expected wanted [] = ok (not_found h expected)
settle_matches h spec expected wanted (v ∷ []) = do
  identity ← item "identity" spec
  paths ← as_dict identity
  found ← identity_of v paths
  raise_if (not (nonempty (values found)) || any (λ w. not (identity_text w)) (values found))
      ownership_uncertain "invalid owned identity"
  raise_if (nonempty (values wanted) && not (value_eq (obj found) (obj wanted))) ownership_uncertain
      "same marker points to a replacement identity"
  ok (found_owned h expected found)
settle_matches h spec expected wanted (v ∷ w ∷ vs) =
    err ownership_uncertain "ambiguous ownership: multiple exact matches"

-- the body of the `try` block
unfoldable pub select_in : Hasher → Value → Dict → Dict → Dict → Result Selection
select_in h payload spec expected wanted = do
  collection ← collection_of payload spec
  objects ← bounded collection spec
  complete_response payload spec (length objects)
  owned ← owned_in spec expected wanted objects
  settle_matches h spec expected wanted owned

-- (KeyError, TypeError, IndexError)
abbrev pub missing_evidence : Exc → Bool
missing_evidence key_error = true
missing_evidence type_error = true
missing_evidence index_error = true
missing_evidence _ = false

abbrev pub uncertain : Result Selection → Result Selection
uncertain (ok selection) = ok selection
uncertain (err e m) =
    if missing_evidence e
    then err ownership_uncertain "ownership evidence missing or malformed"
    else err e m

-- `wanted` is the expected identity, empty where there is none
unfoldable pub select_owned : Hasher → Value → Dict → Dict → Dict → Result Selection
select_owned h payload spec expected wanted = do
  raise_if (not (nonempty (values expected)) || any (λ v. not (present v)) (values expected))
      ownership_uncertain "ownership requires nonempty explicit evidence"
  uncertain (select_in h payload spec expected wanted)
