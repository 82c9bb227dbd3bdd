-- ===== src/Recovery.antt =====
-- tools/recovery_contract.py: what has to be seen before a fault counts as recovered.
pub mod Contract
mod Tests
use chaos_atlas.Prelude.{String, Bool, true, false, ◌&&◌, List, [], ◌∷◌, ◌==◌, if◌then◌else◌, all}
use chaos_atlas.Value.{Value, bool, str, obj, Dict, end, get, update, is_true, is_str, dict_of}
use chaos_atlas.Feedback.Card.{set_default}

abbrev pub common_required : List String
common_required = "ready_required" ∷ "business_probe_required" ∷ "cleanup_required" ∷ []

abbrev pub base_dict : Value → Dict
base_dict (obj d) = d
base_dict _ = end

unfoldable pub require_common : Dict → Dict
require_common d =
    set_default "cleanup_required" (bool true) (
      set_default "business_probe_required" (bool true)
        (set_default "ready_required" (bool true) d))

unfoldable pub contract_for_fault : Value → String → Dict
contract_for_fault base fault_family =
    let contract = require_common (base_dict base) in
    if fault_family == "container_kill"
    then update contract (
        dict_of (
          ("recovery_mode", str "container_restart")
          ∷ ("replacement_identity_required", bool false)
          ∷ ("container_restart_required", bool true)
          ∷ []))
    else set_default "replacement_identity_required" (bool true)
        (set_default "recovery_mode" (str "pod_replacement") contract)

-- `v is False`
abbrev pub is_false : Value → Bool
is_false (bool false) = true
is_false _ = false

unfoldable pub valid_contract : Dict → String → Bool
valid_contract contract fault_family =
    all (λ key. is_true (get key contract)) common_required
    && (if fault_family == "container_kill"
        then is_str "container_restart" (get "recovery_mode" contract)
          && (is_false (get "replacement_identity_required" contract)
              && is_true (get "container_restart_required" contract))
        else is_true (get "replacement_identity_required" contract))

abbrev pub valid_for_fault : Value → String → Bool
valid_for_fault (obj contract) fault_family = valid_contract contract fault_family
valid_for_fault _ fault_family = false
