-- ===== src/Recovery/Tests.antt =====
-- Recovery contracts of both kinds.
use chaos_atlas.Prelude.{◌≡◌, refl, true, false, ◌&&◌, ◌||◌, [], ◌∷◌, ◌==◌, all}
use chaos_atlas.Value.{Value, bool, str, obj, Dict, dict_of}
use chaos_atlas.Recovery.{common_required, base_dict, contract_for_fault, valid_for_fault}
use chaos_atlas.Recovery.Contract.{allows, valid_for_fault-contract_for_fault}

abbrev strict : Value
strict =
    obj
      (dict_of (("ready_required", bool true) ∷ ("replacement_identity_required", bool false) ∷ []))

killed_container :
    valid_for_fault (obj (contract_for_fault strict "container_kill")) "container_kill" ≡ true
unfolding contract_for_fault chaos_atlas.Recovery.require_common chaos_atlas.Recovery.valid_contract
    chaos_atlas.Feedback.Card.set_default chaos_atlas.Value.get chaos_atlas.Value.has
    chaos_atlas.Value.put chaos_atlas.Value.update chaos_atlas.Value.is_true
    chaos_atlas.Value.is_str
killed_container = refl

-- a base that waives the replacement of the Pod's identity
killed_pod : valid_for_fault (obj (contract_for_fault strict "pod_kill")) "pod_kill" ≡ false
unfolding contract_for_fault chaos_atlas.Recovery.require_common chaos_atlas.Recovery.valid_contract
    chaos_atlas.Feedback.Card.set_default chaos_atlas.Value.get chaos_atlas.Value.has
    chaos_atlas.Value.put chaos_atlas.Value.update chaos_atlas.Value.is_true
    chaos_atlas.Value.is_str
killed_pod = refl

valid_for_fault-contract_for_fault_example :
    valid_for_fault (obj (contract_for_fault strict "pod_kill")) "pod_kill" ≡ (
      all (allows (base_dict strict)) common_required
      && ("pod_kill" == "container_kill"
          || allows (base_dict strict) "replacement_identity_required"))
valid_for_fault-contract_for_fault_example = valid_for_fault-contract_for_fault strict "pod_kill"
