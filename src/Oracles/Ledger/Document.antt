-- ===== src/Oracles/Ledger/Document.antt =====
-- oracles/recovery_ledger.py: the ledger of a transaction as a document, its validation, and the
-- change that each operation makes to it.
use chaos_atlas.Prelude.{
  ℕ, String, Bool, true, false, not, ◌&&◌, ◌||◌, Option, none, some, List, [], ◌∷◌, ◌==◌,
  if◌then◌else◌, length, all, nonempty, member, leb, eqb, pos, ◌+ℤ◌, codes,
}
use chaos_atlas.Result.{Result, ok, err, value_error, type_error, ◌>>=◌, ◌>>◌, raise_if, and_then}
use chaos_atlas.Value.{
  Value, bool, int, str, obj, Dict, end, field, get, get_or, has, item, keys, put, without, update,
  truthy, is_str, one_of, in_tuple, as_dict, text, value_eq, dict_of,
}
use chaos_atlas.Isolation.Identity.{is_safe_id}
use chaos_atlas.Isolation.Secrets.{sensitive_paths}
use chaos_atlas.Isolation.Contracts.{Hasher, verify_hash}

abbrev pub ledger_schema : String
ledger_schema = "chaosatlas-transaction-recovery-v2"

abbrev pub recovery_states : List String
recovery_states =
    "not_sent" ∷ "intent_persisted" ∷ "outcome_unknown" ∷ "owned_confirmed" ∷ "cleanup_pending"
    ∷ "cleanup_blocked" ∷ "absent_confirmed" ∷ []

-- `TRANSITIONS.get(state, set())`
unfoldable pub recovery_moves : String → List String
recovery_moves state =
    if state == "not_sent"
    then "intent_persisted" ∷ []
    else if state == "intent_persisted"
    then "outcome_unknown" ∷ "not_sent" ∷ []
    else if state == "outcome_unknown"
    then "owned_confirmed" ∷ "absent_confirmed" ∷ "cleanup_blocked" ∷ []
    else if state == "owned_confirmed"
    then "cleanup_pending" ∷ "cleanup_blocked" ∷ "absent_confirmed" ∷ []
    else if state == "cleanup_pending"
    then "absent_confirmed" ∷ "cleanup_blocked" ∷ []
    else if state == "cleanup_blocked"
    then "owned_confirmed" ∷ "absent_confirmed" ∷ "cleanup_pending" ∷ []
    else []

abbrev pub resolved_states : List String
resolved_states = "not_sent" ∷ "absent_confirmed" ∷ []

abbrev pub owned_states : List String
owned_states = "owned_confirmed" ∷ "cleanup_pending" ∷ []

abbrev pub binding_keys : List String
binding_keys =
    "lease_id" ∷ "cluster_uid" ∷ "namespace_uid" ∷ "namespace" ∷ "context" ∷ "service_uid"
    ∷ "service" ∷ "origin" ∷ "principal_id" ∷ "project_revision" ∷ "service_spec_sha256" ∷ []

-- ENTRY_KEYS without the three that no evidence may carry
abbrev pub evidence_keys : List String
evidence_keys = "identity" ∷ "ownership_sha256" ∷ "absence_sha256" ∷ "reason_code" ∷ []

abbrev pub entry_keys : List String
entry_keys = "state" ∷ "object_type" ∷ "marker_sha256" ∷ evidence_keys

abbrev pub ledger_keys : List String
ledger_keys =
    "schema_version" ∷ "run_id" ∷ "attempt_id" ∷ "project_id" ∷ "lifecycle" ∷ "contract_sha256"
    ∷ "binding" ∷ "operations" ∷ "sequence" ∷ "ledger_sha256" ∷ []

abbrev only_keys : List String → Dict → Bool
only_keys allowed d = all (λ key. member key allowed) (keys d)

-- `set(d) == {…}`
abbrev pub exact_keys : List String → Dict → Bool
exact_keys wanted d = only_keys wanted d && all (λ key. has key d) wanted

-- a text that is not empty and no longer than `limit`
abbrev bounded_text : ℕ → Value → Bool
bounded_text limit (str s) = not (s == "") && leb (length (codes s)) limit
bounded_text limit _ = false

abbrev bounded_texts : ℕ → Dict → Bool
bounded_texts limit end = true
bounded_texts limit (field k v d) = bounded_text limit v && bounded_texts limit d

abbrev pub bounded_dict : ℕ → Value → Bool
bounded_dict limit (obj d) = bounded_texts limit d
bounded_dict limit _ = false

abbrev pub bound_exactly : Value → Bool
bound_exactly (obj d) = exact_keys binding_keys d && bounded_texts 1024 d
bound_exactly _ = false

-- `isinstance(v, str) and SAFE_ID.fullmatch(v)`
abbrev pub safe_text : Value → Bool
safe_text (str s) = is_safe_id s
safe_text _ = false

-- one round of the loop over the operations in `_validate`
unfoldable pub validate_fields : Value → Dict → Result (Unit {0})
validate_fields lifecycle entry = do
  let state = get "state" entry
  let identity = get_or "identity" entry (obj end)
  known ← one_of recovery_states state
  raise_if (not known) value_error "invalid recovery state"
  raise_if (not (bounded_dict 256 identity)) value_error "invalid owned identity"
  raise_if
      (in_tuple owned_states state
        && (not (truthy identity) || not (truthy (get "ownership_sha256" entry))))
      value_error "owned state requires identity and ownership evidence"
  raise_if (is_str "absent_confirmed" state && not (truthy (get "absence_sha256" entry)))
      value_error "absent state requires absence evidence"
  raise_if (is_str "closed" lifecycle && not (in_tuple resolved_states state)) value_error
      "closed transaction cannot contain unresolved operations"

abbrev pub validate_entry : Value → String → Value → Result (Unit {0})
validate_entry lifecycle id (obj entry) =
    raise_if (not (is_safe_id id) || not (only_keys entry_keys entry)) value_error
      "invalid recovery operation"
    >> validate_fields lifecycle entry
validate_entry lifecycle id _ = err value_error "invalid recovery operation"

abbrev pub validate_entries : Value → Dict → Result (Unit {0})
validate_entries lifecycle end = ok tt
validate_entries lifecycle (field id v d) =
    validate_entry lifecycle id v >> validate_entries lifecycle d

abbrev pub validate_operations : Value → Value → Result (Unit {0})
validate_operations lifecycle (obj operations) = validate_entries lifecycle operations
validate_operations lifecycle _ = err value_error "invalid operations"

module _ (h : Hasher) where
  -- `_validate` of a document
  unfoldable pub validate_ledger : Dict → Result (Unit {0})
  validate_ledger value = do
    raise_if
        (not (is_str ledger_schema (get "schema_version" value))
          || not (verify_hash h value "ledger_sha256"))
        value_error "transaction ledger integrity failure"
    raise_if (not (exact_keys ledger_keys value)) value_error
        "transaction ledger unknown or missing fields"
    raise_if (not (safe_text (get "project_id" value))) value_error
        "invalid project recovery lifecycle"
    known ← one_of ("active" ∷ "closed" ∷ []) (get "lifecycle" value)
    raise_if (not known) value_error "invalid project recovery lifecycle"
    raise_if (nonempty (sensitive_paths (obj value) "$")) value_error
        "credential material forbidden in recovery ledger"
    raise_if (not (bound_exactly (get "binding" value))) value_error
        "transaction ledger requires exact runtime binding"
    validate_operations (get "lifecycle" value) (get "operations" value)

-- `value['sequence'] += 1`
abbrev pub add_one : Value → Result Value
add_one (int n) = ok (int (n +ℤ pos 1))
add_one (bool true) = ok (int (pos 2))
add_one (bool false) = ok (int (pos 1))
add_one _ = err type_error "unsupported operand type(s) for +="

unfoldable pub count_up : Dict → Result Dict
count_up value = do
  sequence ← item "sequence" value
  next ← add_one sequence
  ok (put "sequence" next value)

unfoldable pub operations_of : Dict → Result Dict
operations_of value = do operations ← item "operations" value; as_dict operations

unfoldable pub record_entry : Dict → Dict → String → Dict → Result Dict
record_entry value operations operation_id entry =
    count_up (put "operations" (obj (put operation_id (obj entry) operations)) value)

unfoldable pub intended : String → String → String → Dict → Result Dict
intended operation_id object_type marker_sha256 value = do
  raise_if (not (is_str "active" (get "lifecycle" value))) value_error
      "closed transaction cannot start a new operation"
  operations ← operations_of value
  raise_if (has operation_id operations) value_error
      "operation already recorded; reconcile before retry"
  record_entry value operations operation_id (
      dict_of (
        ("state", str "intent_persisted")
        ∷ ("object_type", str object_type)
        ∷ ("marker_sha256", str marker_sha256)
        ∷ ("identity", obj end)
        ∷ []))

unfoldable pub transitioned : String → String → Dict → Dict → Result Dict
transitioned operation_id state evidence value = do
  operations ← operations_of value
  held ← item operation_id operations
  entry ← as_dict held
  current ← item "state" entry
  raise_if (not (member state (recovery_moves (text current)))) value_error
      "invalid transaction recovery transition"
  raise_if (not (only_keys evidence_keys evidence)) value_error "unknown recovery evidence field"
  record_entry value operations operation_id (put "state" (str state) (update entry evidence))

-- `all(entry['state'] in {…} for entry in value['operations'].values())`
unfoldable pub all_resolved : Dict → Result Bool
all_resolved end = ok true
all_resolved (field id v d) =
    let rest = all_resolved d in
    (as_dict v >>= λ entry.
    item "state" entry >>= λ state. one_of resolved_states state >>= λ b. and_then b rest)

unfoldable pub closed : Dict → Result Dict
closed value = count_up (put "lifecycle" (str "closed") value)

-- What `urlsplit` reads from an origin; reading the port may raise.
pub record Split : Type 0 where
  pub scheme : String
  pub hostname : Option String
  pub port : Result (Option ℕ)
  pub path : String
  pub query : String
  pub fragment : String
  pub username : Option String
  pub password : Option String

abbrev given : Option String → Bool
given (some s) = not (s == "")
given none = false

abbrev loopback : Option String → Bool
loopback (some s) = s == "127.0.0.1"
loopback none = false

abbrev no_port : Option ℕ → Bool
no_port (some n) = eqb n 0
no_port none = true

abbrev only_local : String
only_local = "only a verified local tunnel can be rebound"

module _ (urlsplit : Value → Result Split) where
  unfoldable pub require_local : Value → Result (Unit {0})
  require_local origin = do
    parsed ← urlsplit origin
    raise_if (not (parsed.scheme == "http") || not (loopback parsed.hostname)) value_error
        only_local
    port ← parsed.port
    raise_if
        (no_port port
          || not (parsed.path == "")
          || not (parsed.query == "")
          || not (parsed.fragment == "")
          || given parsed.username
          || given parsed.password)
        value_error only_local

  unfoldable pub rebound : Dict → String → Dict → Result Dict
  rebound binding contract_sha256 value = do
    bound ← item "binding" value
    old ← as_dict bound
    contract ← item "contract_sha256" value
    raise_if
        (not (is_str contract_sha256 contract)
          || not (value_eq (obj (without "origin" old)) (obj (without "origin" binding))))
        value_error "recovery target, principal or contract identity mismatch"
    before ← item "origin" old
    after ← item "origin" binding
    require_local before
    require_local after
    count_up (put "binding" (obj binding) value)
