-- ===== src/Oracles/Registry/Tests.antt =====
-- The registry of the built-in oracles.
use chaos_atlas.Prelude.{
  String, ◌≡◌, refl, Bool, true, false, not, ◌||◌, Option, none, some, List, [], ◌∷◌, ◌==◌,
  if◌then◌else◌,
}
use chaos_atlas.Result.{Result, ok, err, value_error, type_error, ◌>>=◌}
use chaos_atlas.Value.{Value, str, obj, Dict, end, dict_of}
use chaos_atlas.Oracles.Registry.{
  Probe, WorkflowOracle, Factories, probe_workflow, normalized, declared_kind, is_workflow,
  supports, register, kinds, runtime_of, create, lifecycle_factory, build_default_oracle_registry,
}
use chaos_atlas.Oracles.Registry.Resolve.{register-create}

abbrev alive : Probe
alive phase context = ok (obj (dict_of (("alive", str phase) ∷ [])))

abbrev chatflow : Dict → String → Option String → Result Probe
chatflow oracle namespace context = ok alive

abbrev no_workflow : Bool → Result (Option WorkflowOracle)
no_workflow b = ok none

built_in : Factories Bool
built_in = elim (build_default_oracle_registry Bool chatflow no_workflow) [
  | ok factories ↦ factories
  | err e m ↦ []
]

abbrev declaring : String → Dict
declaring kind = dict_of (("kind", str kind) ∷ [])

defaults :
    (build_default_oracle_registry Bool chatflow no_workflow ≡ ok built_in)
    × (kinds Bool built_in ≡ "dify_chatflow" ∷ "grpc" ∷ "http" ∷ "transaction_http" ∷ [])
    × (create Bool built_in end "shop" none (some alive) none ≡ ok (probe_workflow alive "http"))
    × (create Bool built_in (declaring "gRPC ") "shop" none none none
        ≡ err value_error "grpc oracle requires a lifecycle probe")
    × (create Bool built_in (declaring "soap") "shop" none (some alive) none
        ≡ err value_error "live business oracle does not support soap")
    × (create Bool built_in (declaring "transaction_http") "shop" none none (some true)
        ≡ err type_error "oracle factory did not return a WorkflowOracle: transaction_http")
unfolding built_in build_default_oracle_registry create declared_kind kinds supports register
    chaos_atlas.Value.text_of chaos_atlas.Prelude.strip chaos_atlas.Prelude.lowercase
    chaos_atlas.Table.lookup chaos_atlas.Table.insert chaos_atlas.Isolation.Secrets.sorted_set
defaults = (refl, refl, refl, refl, refl, refl)

tcp : Factories Bool
tcp = elim (register Bool " TCP" (lifecycle_factory Bool "tcp") false built_in) [
  | ok factories ↦ factories
  | err e m ↦ []
]

registered : register Bool " TCP" (lifecycle_factory Bool "tcp") false built_in ≡ ok tcp
unfolding tcp built_in build_default_oracle_registry supports register chaos_atlas.Prelude.strip
    chaos_atlas.Prelude.lowercase chaos_atlas.Table.lookup chaos_atlas.Table.insert
registered = refl

register-create_example :
    ((normalized " TCP" == "") ≡ false)
    × ((not (supports Bool " TCP" built_in) || false) ≡ true)
    × (create Bool tcp (declaring "tcp") "shop" none (some alive) none ≡ (
        if normalized " TCP" == declared_kind (declaring "tcp")
        then (lifecycle_factory Bool "tcp"
              (declaring "tcp")
              (runtime_of Bool "shop" none (some alive) none)
            >>= λ workflow. is_workflow (declared_kind (declaring "tcp")) workflow)
        else create Bool built_in (declaring "tcp") "shop" none (some alive) none))
    × (supports Bool "http" tcp
        ≡ ((normalized " TCP" == normalized "http") || supports Bool "http" built_in))
register-create_example =
    register-create Bool " TCP" "http" (lifecycle_factory Bool "tcp") false built_in tcp
      (declaring "tcp") "shop" none (some alive) none registered
