-- ===== src/Isolation/Manager/Audit.antt =====
-- `_audit` of isolation/manager.py.
use chaos_atlas.Prelude.{String, List, [], ◌∷◌, map, select}
use chaos_atlas.Value.{Value, str, arr, Dict, dict_of, of_list, truthy, text}
use chaos_atlas.Isolation.Contracts.{Hasher, with_hash}

-- `str(item) for item in errors if item`
unfoldable pub error_texts : List Value → List String
error_texts errors = map text (select truthy errors)

abbrev texts : List String → List Value
texts ss = map str ss

unfoldable pub make_audit : Hasher → String → String → String → Value → List Value → Dict
unfolding error_texts
make_audit h checked_at lease_id status checks errors =
    with_hash h
      (dict_of (
        ("schema_version", str "chaosatlas-isolation-audit-v1")
        ∷ ("lease_id", str lease_id)
        ∷ ("status", str status)
        ∷ ("checked_at", str checked_at)
        ∷ ("checks", checks)
        ∷ ("errors", arr (of_list (texts (error_texts errors))))
        ∷ []))
      "audit_sha256"
