-- ===== src/Isolation/Contracts.antt =====
-- isolation/contracts.py: hashes over a document, the lease states, and the three validators.
pub mod Report
pub mod Hashing
pub mod Plan
pub mod Lifecycle
pub use Hashing.{Hasher}
unfoldable pub use Hashing.{with_hash, verify_hash}
unfoldable pub use Plan.{validate_plan}
pub use Report.{failures, missing}
use chaos_atlas.Prelude.{
  String, Bool, true, false, not, ◌&&◌, ◌||◌, List, [], ◌∷◌, ◌++◌, map, ◌==◌, if◌then◌else◌, member,
  format, select,
}
use chaos_atlas.Result.{Result, ok, err, value_error, ◌>>=◌, ◌>>◌, raise_if}
use chaos_atlas.Value.{
  Value, str, Dict, get, has, put, is_str, is_dict, is_list, one_of, in_tuple, text_of,
}
use chaos_atlas.Isolation.Identity.{is_safe_id}

abbrev pub isolation_levels : List String
isolation_levels = "L1" ∷ "L2" ∷ "L3" ∷ []

abbrev pub lease_states : List String
lease_states =
    "planned" ∷ "preparing" ∷ "ready" ∷ "prepare_failed" ∷ "releasing" ∷ "cleanup_failed"
    ∷ "expired" ∷ "released" ∷ []

-- `set(LEASE_STATES) - {"released"}`
abbrev pub active_lease_states : List String
active_lease_states = select (λ s. not (s == "released")) lease_states

-- TRANSITIONS.get(current, set())
unfoldable pub transitions : String → List String
transitions current =
    if current == "planned"
    then "preparing" ∷ "expired" ∷ "releasing" ∷ []
    else if current == "preparing"
    then "ready" ∷ "prepare_failed" ∷ "expired" ∷ "releasing" ∷ []
    else if current == "ready"
    then "expired" ∷ "releasing" ∷ []
    else if current == "prepare_failed"
    then "releasing" ∷ []
    else if current == "releasing"
    then "released" ∷ "cleanup_failed" ∷ []
    else if current == "cleanup_failed"
    then "releasing" ∷ []
    else if current == "expired"
    then "releasing" ∷ []
    else []

module _ (h : Hasher) where
  unfoldable pub transition_lease : Dict → String → Result Dict
  transition_lease lease state = do
    let current = text_of "state" lease
    raise_if (not (member state (transitions current))) value_error
        (format ("invalid lease transition: " ∷ current ∷ "->" ∷ state ∷ []))
    ok (with_hash h (put "state" (str state) lease) "lease_sha256")

  abbrev pub lease_required : List String
  lease_required =
      "schema_version" ∷ "lease_id" ∷ "plan_id" ∷ "project_id" ∷ "provider" ∷ "isolation_level"
      ∷ "state" ∷ "created_at" ∷ "expires_at" ∷ "owner_labels" ∷ "resources" ∷ "external_profiles"
      ∷ "cleanup_attempts" ∷ "lease_sha256" ∷ []

  abbrev pub lease_tests : Bool → Dict → List (Bool × String)
  lease_tests known lease =
      (not known, "unknown environment lease schema")
      ∷ (
        is_str "chaosatlas-environment-lease-v2" (get "schema_version" lease)
            && not (is_dict (get "runtime_locator" lease)),
        "runtime_locator must be an object",
      )
      ∷ (not (in_tuple lease_states (get "state" lease)), "unknown lease state")
      ∷ (
        not (in_tuple isolation_levels (get "isolation_level" lease)),
        "invalid lease isolation level",
      )
      ∷ (not (is_safe_id (text_of "lease_id" lease)), "unsafe lease_id")
      ∷ (
        not (is_list (get "resources" lease)) || not (is_list (get "external_profiles" lease)),
        "resources and external_profiles must be lists",
      )
      ∷ (not (verify_hash h lease "lease_sha256"), "lease hash mismatch")
      ∷ []

  unfoldable pub lease_errors : Bool → Dict → List String
  lease_errors known lease = missing lease_required lease ++ failures (lease_tests known lease)

  unfoldable pub validate_lease : Dict → Result (List String)
  validate_lease lease = do
    known ←
        one_of ("chaosatlas-environment-lease-v1" ∷ "chaosatlas-environment-lease-v2" ∷ [])
          (get "schema_version" lease)
    ok (lease_errors known lease)

  abbrev audit_required : List String
  audit_required =
      "schema_version" ∷ "lease_id" ∷ "status" ∷ "checks" ∷ "errors" ∷ "audit_sha256" ∷ []

  unfoldable pub validate_audit : Dict → List String
  validate_audit audit =
      missing audit_required audit
      ++ failures (
          (
            not (is_str "chaosatlas-isolation-audit-v1" (get "schema_version" audit)),
            "unknown isolation audit schema",
          )
          ∷ (not (verify_hash h audit "audit_sha256"), "audit hash mismatch")
          ∷ [])
