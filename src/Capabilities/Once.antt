-- ===== src/Capabilities/Once.antt =====
-- How often `assess_core_capabilities` (capabilities/core_assessment.py) has a record of a fault and a
-- target.
use chaos_atlas.Prelude.{
  ℕ, suc, ◌+◌, String, Bool, true, not, ◌&&◌, List, [], ◌∷◌, ◌==◌, if◌then◌else◌, member,
}
use chaos_atlas.Value.{Value, Dict, get, is_str}
use chaos_atlas.Capabilities.Catalog.{Fault}
use chaos_atlas.Capabilities.Core.{optional_text, dict_or_end}

abbrev pub target_of : Dict → Value
target_of node = optional_text "name" (dict_or_end (get "deployment" node))

-- the number of records of a fault on the target of a name
abbrev pub times : String → String → List Dict → ℕ
times f t [] = 0
times f t (r ∷ rs) =
    let rest = times f t rs in
    if is_str f (get "fault_id" r) && is_str t (get "target" r) then suc rest else rest

-- the number of nodes whose deployment has a name
abbrev pub nodes_named : String → List Dict → ℕ
nodes_named t [] = 0
nodes_named t (node ∷ nodes) =
    let rest = nodes_named t nodes in if is_str t (target_of node) then suc rest else rest

abbrev pub ids : List Fault → List String
ids [] = []
ids (fault ∷ faults) = fault.fault_id ∷ ids faults

abbrev distinct : List String → Bool
distinct [] = true
distinct (s ∷ ss) = not (member s ss) && distinct ss

module _ (f t : String) where
  module _ (profile : Dict) (nodes : List Dict) (runtime : Dict) where
    -- the records of a fault on the targets of the name
    abbrev share : Fault → ℕ
    share fault =
        if (fault.fault_id == f) && not (fault.fault_id == "api_server_delay")
        then nodes_named t nodes
        else 0

    abbrev total : List Fault → ℕ
    total [] = 0
    total (fault ∷ faults) = share fault + total faults
