-- ===== src/Recovery/Contract.antt =====
-- When the contract that `contract_for_fault` makes passes `valid_for_fault`
-- (tools/recovery_contract.py).
use chaos_atlas.Prelude.{
  String, ◌≡◌, refl, Bool, true, ◌&&◌, ◌||◌, not, arith, ◌==◌, if◌then◌else◌, all, eq_iff,
  Bool-cases, inl, inr,
}
use chaos_atlas.Value.{
  Value, bool, str, obj, Dict, get, has, update, is_true, is_str, get-put, has-put,
}
use chaos_atlas.Feedback.Card.{set_default}
use chaos_atlas.Recovery.{
  common_required, base_dict, require_common, contract_for_fault, valid_contract, valid_for_fault,
}

set_default-get :
    (key k : String) (v : Value) (d : Dict)
    → get k (set_default key v d) ≡ (if key == k && not (has key d) then v else get k d)
unfolding set_default
set_default-get key k v d = elim (Bool-cases (has key d)) [
  | inl e ↦ rw e (ground arith)
  | inr e ↦ rw (e, get-put) (ground arith)
]

set_default-has :
    (key k : String) (v : Value) (d : Dict)
    → has k (set_default key v d) ≡ (if key == k then true else has k d)
unfolding set_default
set_default-has key k v d = elim (Bool-cases (has key d)) [
  | inl e ↦ rw e (ground (arith, eq_iff key k))
  | inr e ↦ rw (e, has-put) refl
]

-- The base does not set the key to anything but True.
abbrev pub allows : Dict → String → Bool
allows d key = not (has key d) || is_true (get key d)

filled :
    (d : Dict) (key : String)
    → is_true (if not (has key d) then bool true else get key d) ≡ allows d key
unfolding is_true
filled d key = ground arith

module _ (d : Dict) where
  ready_kept : is_true (get "ready_required" (require_common d)) ≡ allows d "ready_required"
  unfolding require_common
  ready_kept = simp set_default-get (filled d "ready_required")

  probe_kept :
      is_true (get "business_probe_required" (require_common d))
      ≡ allows d "business_probe_required"
  unfolding require_common
  probe_kept = simp (set_default-get, set_default-has) (filled d "business_probe_required")

  cleanup_kept : is_true (get "cleanup_required" (require_common d)) ≡ allows d "cleanup_required"
  unfolding require_common
  cleanup_kept = simp (set_default-get, set_default-has) (filled d "cleanup_required")

  identity_kept :
      is_true (
        get "replacement_identity_required" (
          set_default "replacement_identity_required"
            (bool true)
            (set_default "recovery_mode" (str "pod_replacement") (require_common d))))
      ≡ allows d "replacement_identity_required"
  unfolding require_common
  identity_kept = simp (set_default-get, set_default-has) (filled d "replacement_identity_required")

-- The contract made for a fault passes the check for that fault exactly if its base sets none of the
-- three common requirements to anything but True and, unless a container is killed, does not set
-- the replacement of the Pod's identity to anything but True either.
pub valid_for_fault-contract_for_fault :
    (base : Value) (fault_family : String)
    → valid_for_fault (obj (contract_for_fault base fault_family)) fault_family ≡ (
        all (allows (base_dict base)) common_required
        && (fault_family == "container_kill"
            || allows (base_dict base) "replacement_identity_required"))
unfolding valid_contract contract_for_fault update is_str is_true
valid_for_fault-contract_for_fault base fault_family =
    elim (Bool-cases (fault_family == "container_kill")) [
      | inl e ↦ rw e (
          simp
            (
              get-put,
              ready_kept (base_dict base),
              probe_kept (base_dict base),
              cleanup_kept (base_dict base),
            )
            (ground arith))
      | inr e ↦ rw e (
          simp (identity_kept (base_dict base)) (
            simp
              (
                set_default-get,
                ready_kept (base_dict base),
                probe_kept (base_dict base),
                cleanup_kept (base_dict base),
              )
              (ground arith)))
    ]
