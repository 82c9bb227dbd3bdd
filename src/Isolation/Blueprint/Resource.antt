-- ===== src/Isolation/Blueprint/Resource.antt =====
-- `_walk` and `_validate_resource` of isolation/blueprint.py.
use Prim.Native.Char.{code}
use chaos_atlas.Prelude.{
  ℕ, zero, String, Bool, true, false, not, ◌&&◌, ◌||◌, List, [], ◌∷◌, ◌++◌, ◌==◌, if◌then◌else◌,
  eqb, ltb, length, codes, any, all, member, nonempty, format, pos,
}
use chaos_atlas.Result.{Result, ok, err, type_error, ◌>>=◌}
use chaos_atlas.Value.{
  Value, null, bool, int, str, arr, obj, Items, nil, cons, Dict, end, field, get, has, either,
  truthy, is_true, is_dict, is_list, is_text, text_of, as_list, items,
}
use chaos_atlas.Isolation.Secrets.{is_blank, sorted_set}
use chaos_atlas.Isolation.Contracts.{failures}

abbrev pub allowed_kinds : List String
allowed_kinds =
    "ConfigMap" ∷ "Secret" ∷ "Service" ∷ "Deployment" ∷ "StatefulSet" ∷ "Job"
    ∷ "PersistentVolumeClaim" ∷ []

abbrev pub forbidden_pod_keys : List String
forbidden_pod_keys = "hostNetwork" ∷ "hostPID" ∷ "hostIPC" ∷ "hostUsers" ∷ []

abbrev pub forbidden_reference_keys : List String
forbidden_reference_keys =
    "imagePullSecrets" ∷ "serviceAccount" ∷ "serviceAccountName" ∷ "hostAliases" ∷ "nodeName" ∷ []

-- `_walk`: the dictionaries inside a value, the outer one first
unfoldable mutual
  pub walk : Value → List Dict
  walk (obj d) = d ∷ walk_entries d
  walk (arr vs) = walk_items vs
  walk null = []
  walk (bool b) = []
  walk (int n) = []
  walk (str s) = []

  pub walk_items : Items → List Dict
  walk_items nil = []
  walk_items (cons v vs) = walk v ++ walk_items vs

  pub walk_entries : Dict → List Dict
  walk_entries end = []
  walk_entries (field k v d) = walk v ++ walk_entries d

-- the names of the resources that the blueprint creates
pub record Declared : Type 0 where
  pub config_maps : List String
  pub secrets : List String
  pub claims : List String

-- `v if isinstance(v, dict) else {}`
abbrev pub dict_in : String → Dict → Dict
dict_in key d = elim (get key d) [ obj e ↦ e | _ ↦ end ]

-- `isinstance(ref, dict) and str(ref.get(name) or "") not in names`
abbrev pub dangling : String → List String → Value → Bool
dangling name names (obj reference) = not (member (text_of name reference) names)
dangling name names _ = false

-- `v is not None and v is not False`
abbrev pub shares_host : Value → Bool
shares_host null = false
shares_host (bool b) = b
shares_host _ = true

-- `v not in (None, 0, "")`
abbrev pub port_given : Value → Bool
port_given null = false
port_given (bool b) = b
port_given (int (pos zero)) = false
port_given (str s) = not (s == "")
port_given _ = true

-- `v not in (None, "", {}, [])`
abbrev pub source_given : Value → Bool
source_given null = false
source_given (str s) = not (s == "")
source_given (obj end) = false
source_given (arr nil) = false
source_given _ = true

abbrev pub reference_tests : Dict → List String → List (Bool × String)
reference_tests mapping [] = []
reference_tests mapping (key ∷ keys) =
    (has key mapping && not (is_blank (get key mapping)), format (key ∷ " is forbidden" ∷ []))
    ∷ reference_tests mapping keys

-- a source of `envFrom`
abbrev pub source_tests : Declared → Value → List (Bool × String)
source_tests declared (obj source) =
    (
      dangling "name" declared.secrets (get "secretRef" source),
      "envFrom secretRef must reference a resource created by this lease",
    )
    ∷ (
      dangling "name" declared.config_maps (get "configMapRef" source),
      "envFrom configMapRef must reference a resource created by this lease",
    )
    ∷ []
source_tests declared _ = []

abbrev pub env_from_tests : Declared → Items → List (Bool × String)
env_from_tests declared nil = []
env_from_tests declared (cons v vs) = source_tests declared v ++ env_from_tests declared vs

abbrev pub env_tests : Declared → Value → List (Bool × String)
env_tests declared (arr sources) = env_from_tests declared sources
env_tests declared _ = []

abbrev pub host_tests : Dict → List (Bool × String)
host_tests mapping =
    (
      any (λ key. shares_host (get key mapping)) forbidden_pod_keys,
      "host namespace sharing is forbidden",
    )
    ∷ (is_dict (get "hostPath" mapping), "hostPath is forbidden")
    ∷ (port_given (get "hostPort" mapping), "hostPort is forbidden")
    ∷ (
      is_true (get "privileged" (dict_in "securityContext" mapping)),
      "privileged containers are forbidden",
    )
    ∷ (
      truthy (get "add" (dict_in "capabilities" (dict_in "securityContext" mapping))),
      "added Linux capabilities are forbidden",
    )
    ∷ []

abbrev pub binding_tests : Declared → Dict → List (Bool × String)
binding_tests declared mapping =
    (
      dangling "name" declared.secrets (get "secretKeyRef" mapping),
      "secretKeyRef must reference a resource created by this lease",
    )
    ∷ (
      dangling "name" declared.config_maps (get "configMapKeyRef" mapping),
      "configMapKeyRef must reference a resource created by this lease",
    )
    ∷ (
      dangling "claimName" declared.claims (get "persistentVolumeClaim" mapping),
      "persistentVolumeClaim must reference a resource created by this lease",
    )
    ∷ (
      dangling "name" declared.config_maps (get "configMap" mapping),
      "configMap volume must reference a resource created by this lease",
    )
    ∷ (
      dangling "secretName" declared.secrets (get "secret" mapping),
      "Secret volume must reference a resource created by this lease",
    )
    ∷ []

unfoldable pub mapping_errors : Declared → Dict → List String
mapping_errors declared mapping =
    failures (host_tests mapping)
    ++ (failures (binding_tests declared mapping)
        ++ (failures (reference_tests mapping forbidden_reference_keys)
            ++ failures (env_tests declared (get "envFrom" mapping))))

unfoldable pub mappings_errors : Declared → List Dict → List String
mappings_errors declared [] = []
mappings_errors declared (m ∷ ms) = mapping_errors declared m ++ mappings_errors declared ms

-- `re.findall(r"\$\{([^{}]+)\}", template)`: outside, after a `$`, or inside with the name so far
-- and whether its last character was a `$`
pub data Scan : Type 0 where
  outside dollar : Scan
  inside : String → Bool → Scan

abbrev scan_step : Scan → ℕ → String → Scan
scan_step outside c s = if eqb c 36 then dollar else outside
scan_step dollar c s = if eqb c 123 then inside "" false else if eqb c 36 then dollar else outside
scan_step (inside name last) c s =
    if eqb c 125
    then outside
    else if eqb c 123
    then (if last then inside "" false else outside)
    else inside (format (name ∷ s ∷ [])) (eqb c 36)

abbrev scan_found : Scan → ℕ → List String
scan_found (inside name last) c = if eqb c 125 && not (name == "") then name ∷ [] else []
scan_found _ c = []

references_from : Scan → String → List String
references_from scan String.[] = []
references_from scan (String.◌∷◌ c s) =
    scan_found scan (code c) ++ references_from (scan_step scan (code c) (String.◌∷◌ c String.[])) s

unfoldable pub references : String → List String
unfolding references_from
references template = references_from outside template

-- a key that is no text, empty, or too long
abbrev pub invalid_key : Value → Bool
invalid_key (str key) = key == "" || ltb 128 (length (codes key))
invalid_key _ = true

-- `set(generated.get("keys") or [])`, of which only the texts are looked up
abbrev hashable_texts : List Value → Result (List String)
hashable_texts [] = ok []
hashable_texts (str s ∷ vs) = hashable_texts vs >>= λ ss. ok (s ∷ ss)
hashable_texts (arr _ ∷ vs) = err type_error "unhashable type: 'list'"
hashable_texts (obj _ ∷ vs) = err type_error "unhashable type: 'dict'"
hashable_texts (_ ∷ vs) = hashable_texts vs

abbrev untyped_templates : Dict → Bool
untyped_templates end = false
untyped_templates (field k v d) = not (is_text v) || untyped_templates d

abbrev template_ok : List String → String → Value → Bool
template_ok keys key (str template) =
    not (key == "")
    && (not (ltb 128 (length (codes key)))
        && (nonempty (references template)
            && all (λ reference. member reference keys) (references template)))
template_ok keys key _ = false

abbrev template_errors : List String → Dict → List String
template_errors keys end = []
template_errors keys (field key template d) =
    failures (
      (
        not (template_ok keys key template),
        "runtimeGenerate.templates must reference declared generated keys",
      )
      ∷ [])
    ++ template_errors keys d

abbrev keys_errors : Value → List String
keys_errors (obj generated) =
    if not (is_list (get "keys" generated)) || not (truthy (get "keys" generated))
    then "blueprint Secret must declare non-empty runtimeGenerate.keys" ∷ []
    else failures (
        (
          any invalid_key (elim (get "keys" generated) [ arr vs ↦ items vs | _ ↦ [] ]),
          "runtimeGenerate.keys contains an invalid key",
        )
        ∷ [])
keys_errors _ = "blueprint Secret must declare non-empty runtimeGenerate.keys" ∷ []

abbrev templates_of : Dict → Value → Result (List String)
templates_of generated null = ok []
templates_of generated (obj templates) =
    if untyped_templates templates
    then ok ("runtimeGenerate.templates must map keys to string templates" ∷ [])
    else do
      vs ← as_list (either (get "keys" generated) (arr nil))
      keys ← hashable_texts vs
      ok (template_errors keys templates)
templates_of generated _ = ok ("runtimeGenerate.templates must map keys to string templates" ∷ [])

abbrev templates_errors : Value → Result (List String)
templates_errors (obj generated) = templates_of generated (get "templates" generated)
templates_errors _ = ok []

unfoldable pub secret_errors : Dict → Result (List String)
secret_errors resource = do
  templates ← templates_errors (get "runtimeGenerate" resource)
  ok (
      failures (
        (
          truthy (get "data" resource) || truthy (get "stringData" resource),
          "blueprint Secret values are forbidden",
        )
        ∷ [])
      ++ (keys_errors (get "runtimeGenerate" resource) ++ templates))

unfoldable pub claim_errors : Dict → List String
claim_errors resource =
    let spec = dict_in "spec" resource in
    failures (
      (
        any (λ key. source_given (get key spec))
            ("dataSource" ∷ "dataSourceRef" ∷ "selector" ∷ "volumeName" ∷ []),
        "PersistentVolumeClaim source binding is forbidden",
      )
      ∷ [])

-- `kind or 'resource'`
abbrev label_of : String → String
label_of kind = if kind == "" then "resource" else kind

abbrev pub kind_tests : Dict → List (Bool × String)
kind_tests resource =
    let kind = text_of "kind" resource in
    (not (member kind allowed_kinds), format ("unsupported blueprint kind: " ∷ kind ∷ []))
    ∷ (
      not (truthy (get "name" (dict_in "metadata" resource))),
      format (label_of kind ∷ " name is required" ∷ []),
    )
    ∷ []

unfoldable pub resource_errors : Declared → Dict → Result (List String)
resource_errors declared resource = do
  let kind = text_of "kind" resource
  secret ← if kind == "Secret" then secret_errors resource else ok []
  ok (
      failures (kind_tests resource)
      ++ (secret
          ++ ((if kind == "PersistentVolumeClaim" then claim_errors resource else [])
              ++ mappings_errors declared (walk (obj resource)))))

unfoldable pub validate_resource : Declared → Dict → Result (List String)
validate_resource declared resource = do
  errors ← resource_errors declared resource
  ok (sorted_set errors)
