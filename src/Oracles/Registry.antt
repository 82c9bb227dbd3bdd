-- ===== src/Oracles/Registry.antt =====
-- oracles/contracts.py and oracles/registry.py: workflow oracles, and which one a project's
-- declaration resolves to. The Dify probe and the workflow of the transaction factory are arguments.
pub mod Resolve
mod Tests
use chaos_atlas.Prelude.{
  String, Bool, true, false, not, ◌&&◌, ◌||◌, Option, none, some, List, [], ◌∷◌, ◌==◌,
  if◌then◌else◌, member, format, strip, lowercase,
}
use chaos_atlas.Result.{Result, ok, err, value_error, type_error, ◌>>=◌, ◌>>◌, raise_if}
use chaos_atlas.Value.{
  Value, bool, str, arr, obj, nil, Dict, end, get, put, update, text_of, dict_of,
}
use chaos_atlas.Table.{lookup, insert, names}
use chaos_atlas.Isolation.Secrets.{sorted_set}

abbrev pub oracle_phases : List String
oracle_phases = "baseline" ∷ "observe" ∷ "recovery" ∷ []

abbrev pub Probe : Type 0
Probe = String → Dict → Result Value

pub record WorkflowOracle : Type 0 where
  pub prepare_fixture : Dict → Result Value
  pub probe : String → Dict → Result Value
  pub collect_evidence : Dict → Result Value
  pub cleanup_fixture : Dict → Result Value

-- `{"oracle_kind": kind, **result}` of an object
abbrev pub stamped : String → Value → Result Value
stamped kind (obj result) = ok (obj (update (put "oracle_kind" (str kind) end) result))
stamped kind _ = err type_error "workflow oracle probe must return an object"

abbrev pub probed : Probe → String → String → Dict → Result Value
probed probe_callable kind phase run_context = do
  raise_if (not (member phase oracle_phases)) value_error
      (format ("unsupported oracle phase: " ∷ phase ∷ []))
  result ← probe_callable phase run_context
  stamped kind result

abbrev pub report : String → String → List (String × Value) → Value
report status kind more = obj (dict_of (("status", str status) ∷ ("oracle_kind", str kind) ∷ more))

unfoldable pub probe_workflow : Probe → String → WorkflowOracle
probe_workflow probe_callable kind = record {
  prepare_fixture =
      λ run_context. ok (report "not_required" kind (("created_resource_ids", arr nil) ∷ []));
  probe = probed probe_callable kind;
  collect_evidence = λ run_context. ok (report "collected" kind (("evidence_refs", arr nil) ∷ []));
  cleanup_fixture = λ run_context. ok (
      report "not_required" kind
        (("cleanup_confirmed", bool true) ∷ ("created_resource_ids", arr nil) ∷ []));
}

-- `str(kind).strip().lower()`
abbrev pub normalized : String → String
normalized kind = lowercase (strip kind)

-- `str(oracle.get("kind") or "http")`, normalised
unfoldable pub declared_kind : Dict → String
declared_kind oracle =
    let kind = text_of "kind" oracle in normalized (if kind == "" then "http" else kind)

abbrev pub is_workflow : String → Option WorkflowOracle → Result WorkflowOracle
is_workflow kind none =
    err type_error (format ("oracle factory did not return a WorkflowOracle: " ∷ kind ∷ []))
is_workflow kind (some workflow) = ok workflow

abbrev trimmed : Option String → Option String
trimmed none = none
trimmed (some context) = if context == "" then none else some (strip context)

module _ (Dependencies : Type 0) where
  pub record OracleRuntime : Type 0 where
    pub namespace : String
    pub kube_context : Option String
    pub default_probe : Option Probe
    pub transaction_dependencies : Option Dependencies

  -- A factory may return an object that is no workflow oracle, here `none`.
  abbrev pub OracleFactory : Type 0
  OracleFactory = Dict → OracleRuntime → Result (Option WorkflowOracle)

  abbrev pub Factories : Type 0
  Factories = List (String × OracleFactory)

  abbrev pub is_registered : Option OracleFactory → Bool
  is_registered none = false
  is_registered (some factory) = true

  unfoldable pub supports : String → Factories → Bool
  supports kind factories = is_registered (lookup (normalized kind) factories)

  unfoldable pub register : String → OracleFactory → Bool → Factories → Result Factories
  register kind factory replace factories = do
    raise_if (normalized kind == "") value_error "oracle kind is required"
    raise_if (supports kind factories && not replace) value_error
        (format ("oracle kind already registered: " ∷ normalized kind ∷ []))
    ok (insert (normalized kind) factory factories)

  -- `tuple(sorted(factories))`: the keys of a dictionary differ
  unfoldable pub kinds : Factories → List String
  kinds factories = sorted_set (names factories)

  abbrev pub resolve : String → Dict → OracleRuntime → Option OracleFactory → Result WorkflowOracle
  resolve kind oracle runtime none = err value_error (
      format
        ("live business oracle does not support " ∷ (if kind == "" then "unknown" else kind) ∷ []))
  resolve kind oracle runtime (some factory) = do
    workflow ← factory oracle runtime
    is_workflow kind workflow

  abbrev pub runtime_of :
      String → Option String → Option Probe → Option Dependencies → OracleRuntime
  runtime_of namespace kube_context default_probe transaction_dependencies = record {
    namespace = namespace;
    kube_context = trimmed kube_context;
    default_probe = default_probe;
    transaction_dependencies = transaction_dependencies;
  }

  unfoldable pub create :
      Factories
      → Dict
      → String
      → Option String
      → Option Probe
      → Option Dependencies
      → Result WorkflowOracle
  create factories oracle namespace kube_context default_probe transaction_dependencies =
      let kind = declared_kind oracle in
      resolve kind oracle (runtime_of namespace kube_context default_probe transaction_dependencies)
        (lookup kind factories)

  abbrev pub with_probe : String → Option Probe → Result (Option WorkflowOracle)
  with_probe kind none = err value_error (format (kind ∷ " oracle requires a lifecycle probe" ∷ []))
  with_probe kind (some probe) = ok (some (probe_workflow probe kind))

  abbrev pub lifecycle_factory : String → OracleFactory
  lifecycle_factory kind oracle runtime = with_probe kind runtime.default_probe

  module _ (dify : Dict → String → Option String → Result Probe)
      (build : Dependencies → Result (Option WorkflowOracle)) where
    abbrev pub dify_factory : OracleFactory
    dify_factory oracle runtime = do
      probe ← dify oracle runtime.namespace runtime.kube_context
      ok (some (probe_workflow probe "dify_chatflow"))

    abbrev pub transaction_of : Option Dependencies → Result (Option WorkflowOracle)
    transaction_of none =
        err value_error "transaction_http oracle requires explicit lease-bound dependencies"
    transaction_of (some dependencies) = build dependencies

    abbrev pub transaction_factory : OracleFactory
    transaction_factory oracle runtime = transaction_of runtime.transaction_dependencies

    unfoldable pub build_default_oracle_registry : Result Factories
    build_default_oracle_registry = do
      http ← register "http" (lifecycle_factory "http") false []
      grpc ← register "grpc" (lifecycle_factory "grpc") false http
      chatflow ← register "dify_chatflow" dify_factory false grpc
      register "transaction_http" transaction_factory false chatflow
