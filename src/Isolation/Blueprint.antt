-- ===== src/Isolation/Blueprint.antt =====
-- isolation/blueprint.py: the compiler of sandbox blueprints.
pub mod Resource
pub mod Confined
pub mod Owned
use chaos_atlas.Prelude.{
  ℕ, ◌+◌, eqb, pos, decimal, take_text, String, Bool, true, false, not, ◌&&◌, ◌||◌, List, [], ◌∷◌,
  ◌++◌, ◌==◌, if◌then◌else◌, any, member, nonempty, format, join,
}
use chaos_atlas.Result.{Result, ok, err, value_error, type_error, ◌>>=◌, ◌>>◌, raise_if}
use chaos_atlas.Value.{
  Value, null, bool, str, arr, obj, Items, nil, cons, Dict, end, field, get, get_or, put, without,
  update, either, is_dict, is_str, in_tuple, text, text_of, as_dict, items, int, truthy, dict_of,
  of_list,
}
use chaos_atlas.Isolation.Secrets.{sorted_set}
use chaos_atlas.Isolation.Blueprint.Resource.{Declared, dict_in, validate_resource}

abbrev pub no_names : Declared
no_names = record { config_maps = []; secrets = []; claims = [] }

unfoldable pub declare : Declared → String → String → Declared
declare declared kind name =
    if name == ""
    then declared
    else if kind == "ConfigMap"
    then record declared { config_maps = name ∷ declared.config_maps }
    else if kind == "Secret"
    then record declared { secrets = name ∷ declared.secrets }
    else record declared { claims = name ∷ declared.claims }

abbrev pub referenced_kinds : List String
referenced_kinds = "ConfigMap" ∷ "Secret" ∷ "PersistentVolumeClaim" ∷ []

-- the resources that others may refer to, after those of `declared`
unfoldable pub declared_names : Declared → List Value → Result Declared
declared_names declared [] = ok declared
declared_names declared (obj item ∷ rest) = do
  let kind = text_of "kind" item
  named ←
      if member kind referenced_kinds
      then (as_dict (either (get "metadata" item) (obj end)) >>= λ metadata.
          ok (declare declared kind (text_of "name" metadata)))
      else ok declared
  declared_names named rest
declared_names declared (_ ∷ rest) = declared_names declared rest

unfoldable pub resources_errors : Declared → List Value → Result (List String)
resources_errors declared [] = ok []
resources_errors declared (obj item ∷ rest) = do
  errors ← validate_resource declared item
  others ← resources_errors declared rest
  ok (errors ++ others)
resources_errors declared (_ ∷ rest) = resources_errors declared rest

-- `f` at the dictionary of a key: `d.setdefault(key, {})`, which is then changed
unfoldable pub nested : String → (Dict → Result Dict) → Dict → Result Dict
nested key f d = do
  inner ← as_dict (get_or key d (obj end))
  changed ← f inner
  ok (put key (obj changed) d)

-- `{str(k): str(v) for k, v in d.items()}`
abbrev pub text_values : Dict → Dict
text_values end = end
text_values (field k v d) = field k (str (text v)) (text_values d)

unfoldable pub add_labels : Dict → Dict → Result Dict
add_labels owner_labels metadata = do
  labels ← as_dict (either (get "labels" metadata) (obj end))
  ok (put "labels" (obj (update (text_values labels) owner_labels)) metadata)

abbrev pub server_keys : List String
server_keys =
    "uid" ∷ "resourceVersion" ∷ "generation" ∷ "creationTimestamp" ∷ "managedFields"
    ∷ "ownerReferences" ∷ []

unfoldable pub without_all : List String → Dict → Dict
without_all [] d = d
without_all (key ∷ keys) d = without_all keys (without key d)

unfoldable pub own_metadata : String → Dict → Dict → Result Dict
own_metadata namespace owner_labels metadata =
    add_labels owner_labels (put "namespace" (str namespace) (without_all server_keys metadata))

abbrev pub workload_kinds : List String
workload_kinds = "Deployment" ∷ "StatefulSet" ∷ "Job" ∷ []

-- `pod_spec["automountServiceAccountToken"] = False`
abbrev pub silenced : Value → Dict → Result Dict
silenced (obj pod_spec) template =
    ok (put "spec" (obj (put "automountServiceAccountToken" (bool false) pod_spec)) template)
silenced _ template = err type_error "object does not support item assignment"

unfoldable pub no_token : Dict → Result Dict
no_token template = silenced (get_or "spec" template (obj end)) template

unfoldable pub own_template : Dict → Dict → Result Dict
own_template owner_labels template = do
  labelled ← nested "metadata" (add_labels owner_labels) template
  no_token labelled

unfoldable pub own_workload : Dict → Dict → Result Dict
own_workload owner_labels item =
    if in_tuple workload_kinds (get "kind" item)
    then nested "spec" (nested "template" (own_template owner_labels)) item
    else ok item

unfoldable pub strip_secret : Dict → Dict
strip_secret item =
    if is_str "Secret" (get "kind" item)
    then without "stringData" (without "data" (put "type" (str "Opaque") item))
    else item

unfoldable pub compile_resource : String → Dict → Dict → Result Dict
compile_resource namespace owner_labels source = do
  owned ← nested "metadata" (own_metadata namespace owner_labels) (without "status" source)
  workload ← own_workload owner_labels owned
  ok (strip_secret workload)

unfoldable pub compile_resources : String → Dict → List Value → Result (List Dict)
compile_resources namespace owner_labels [] = ok []
compile_resources namespace owner_labels (obj source ∷ rest) = do
  first ← compile_resource namespace owner_labels source
  others ← compile_resources namespace owner_labels rest
  ok (first ∷ others)
compile_resources namespace owner_labels (_ ∷ rest) =
    err type_error "object does not support item assignment"

abbrev pub resources_of : Dict → List Value
resources_of blueprint = elim (get "resources" blueprint) [ arr vs ↦ items vs | _ ↦ [] ]

abbrev pub foreign : List Value → List String
foreign resources =
    if any (λ item. not (is_dict item)) resources
    then "every blueprint resource must be an object" ∷ []
    else []

unfoldable pub compile_blueprint : Dict → String → Dict → Result (List Dict)
compile_blueprint blueprint namespace owner_labels = do
  let resources = resources_of blueprint
  raise_if (not (nonempty resources)) value_error "blueprint resources are required"
  declared ← declared_names no_names resources
  found ← resources_errors declared resources
  let errors = found ++ foreign resources
  raise_if (nonempty errors) value_error
      (format ("unsafe isolation blueprint: " ∷ join "; " (sorted_set errors) ∷ []))
  compile_resources namespace owner_labels resources

-- one container of `derive_l2_blueprint`, at its place in the list
unfoldable pub safe_container : ℕ → Dict → Dict
safe_container index source =
    let named =
      text (either (get "name" source) (str (format ("target-" ∷ decimal (pos index) ∷ [])))) in
    let limits = dict_of (
      ("requests", obj (dict_of (("cpu", str "10m") ∷ ("memory", str "16Mi") ∷ [])))
      ∷ ("limits", obj (dict_of (("cpu", str "250m") ∷ ("memory", str "256Mi") ∷ [])))
      ∷ []) in
    let container = dict_of (
      ("name", str named)
      ∷ ("image", str (text (get "image" source)))
      ∷ ("resources", either (get "resources" source) (obj limits))
      ∷ []) in
    let ported =
      if truthy (get "ports" source)
      then put "ports" (get "ports" source) container
      else container in
    let mount =
      dict_of (("name", str "chaosatlas-test") ∷ ("mountPath", str "/chaosatlas-test") ∷ []) in
    if eqb index 0 then put "volumeMounts" (arr (cons (obj mount) nil)) ported else ported

unfoldable pub safe_containers : ℕ → List Value → List Value
safe_containers index [] = []
safe_containers index (obj source ∷ rest) =
    let others = safe_containers (index + 1) rest in
    if text_of "image" source == "" then others else obj (safe_container index source) ∷ others
safe_containers index (_ ∷ rest) = safe_containers (index + 1) rest

abbrev list_in : String → Dict → List Value
list_in key d = elim (get key d) [ arr vs ↦ items vs | _ ↦ [] ]

unfoldable pub derive_l2_blueprint : Dict → String → Result Dict
derive_l2_blueprint target project_id = do
  let containers = safe_containers 0 (list_in "container_blueprints" (dict_in "extensions" target))
  raise_if (not (nonempty containers)) value_error "target has no safe container image facts"
  let labels = obj (
      put "app.kubernetes.io/name"
        (str (format ("ca-" ∷ take_text 30 project_id ∷ "-sandbox" ∷ []))) end)
  let volume = dict_of (("name", str "chaosatlas-test") ∷ ("emptyDir", obj end) ∷ [])
  let pod_spec = dict_of (
      ("automountServiceAccountToken", bool false)
      ∷ ("containers", arr (of_list containers))
      ∷ ("volumes", arr (cons (obj volume) nil))
      ∷ [])
  let template = dict_of (("metadata", obj (put "labels" labels end)) ∷ ("spec", obj pod_spec) ∷ [])
  let spec = dict_of (
      ("replicas", int (pos 1))
      ∷ ("selector", obj (put "matchLabels" labels end))
      ∷ ("template", obj template)
      ∷ [])
  let resource = dict_of (
      ("apiVersion", str "apps/v1")
      ∷ ("kind", str "Deployment")
      ∷ ("metadata", obj (put "name" (str "sandbox-target") end))
      ∷ ("spec", obj spec)
      ∷ [])
  ok (put "resources" (arr (cons (obj resource) nil)) end)
