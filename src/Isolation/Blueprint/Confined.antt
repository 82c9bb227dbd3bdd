-- ===== src/Isolation/Blueprint/Confined.antt =====
-- What the resources of a blueprint that compiles are held to (isolation/blueprint.py).
use chaos_atlas.Prelude.{
  String, ◌≡◌, ◌⊎◌, inl, inr, refl, pos, zero, eq_iff, ◌||◌, ap, ◌∙◌, Bool, true, false, not, ◌&&◌,
  List, [], ◌∷◌, ◌++◌, arith, ◌==◌, if◌then◌else◌, any, member, nonempty, nonempty-nil, All,
}
use chaos_atlas.Result.{ok, value_error, raise_if, ok-inj, >>=-eq-ok, >>-eq-ok, raise_if-eq-ok}
use chaos_atlas.Value.{
  Value, null, bool, int, str, arr, obj, Items, nil, cons, items, Dict, get, has, truthy, is_true,
  is_dict, text_of,
}
use chaos_atlas.Isolation.Secrets.{is_blank}
use chaos_atlas.Isolation.Secrets.Redaction.{sorted_set-nil}
use chaos_atlas.Isolation.Contracts.{failures}
use chaos_atlas.Isolation.Contracts.Report.{failures-nil, append-nil}
use chaos_atlas.Isolation.Blueprint.Resource.{
  forbidden_pod_keys, walk, Declared, dict_in, shares_host, port_given, dangling, source_tests,
  env_from_tests, env_tests, reference_tests, forbidden_reference_keys, host_tests, binding_tests,
  mapping_errors, mappings_errors, resource_errors, validate_resource, secret_errors, claim_errors,
  kind_tests,
}
use chaos_atlas.Isolation.Blueprint.{
  no_names, declared_names, resources_errors, resources_of, foreign, compile_blueprint,
}

-- A reference names something declared.
abbrev pub Bound : String → List String → Value → Type 0
Bound name names (obj reference) = member (text_of name reference) names ≡ true
Bound name names _ = Unit

-- A key of the host's namespaces is missing or false.
abbrev pub Unshared : Value → Type 0
Unshared v = (v ≡ null) ⊎ (v ≡ bool false)

abbrev pub NoPort : Value → Type 0
NoPort v = (v ≡ null) ⊎ ((v ≡ bool false) ⊎ ((v ≡ int (pos 0)) ⊎ (v ≡ str "")))

negated : {b : Bool} → not b ≡ false → b ≡ true
negated e = ground arith

neither : (a b : Bool) → (a || b) ≡ false → (a ≡ false) × (b ≡ false)
neither a b e = ground arith

dangling-Bound :
    (name : String) (names : List String) (v : Value)
    → dangling name names v ≡ false
    → Bound name names v
dangling-Bound name names (obj reference) e = negated e
dangling-Bound name names v e = tt

shares_host-Unshared : (v : Value) → shares_host v ≡ false → Unshared v
shares_host-Unshared null e = inl refl
shares_host-Unshared (bool b) e = inr (ap bool e)
shares_host-Unshared v e = absurd (cc)

hosts-Unshared :
    (mapping : Dict) (keys : List String)
    → any (λ key. shares_host (get key mapping)) keys ≡ false
    → All (λ key. Unshared (get key mapping)) keys
hosts-Unshared mapping [] e = tt
hosts-Unshared mapping (key ∷ keys) e =
    let (own, rest) = neither (shares_host (get key mapping)) _ e in
    (shares_host-Unshared (get key mapping) own, hosts-Unshared mapping keys rest)

port_given-NoPort : (v : Value) → port_given v ≡ false → NoPort v
port_given-NoPort null e = inl refl
port_given-NoPort (bool b) e = inr (inl (ap bool e))
port_given-NoPort (int (pos zero)) e = inr (inr (inl refl))
port_given-NoPort (str s) e = inr (inr (inr (ap str ((eq_iff s "").0 (negated e)))))
port_given-NoPort v e = absurd (cc)

-- A source of `envFrom` names a secret or a config map of the blueprint.
abbrev pub SourceBound : Declared → Value → Type 0
SourceBound declared (obj source) =
    (Bound "name" declared.secrets (get "secretRef" source))
    × (Bound "name" declared.config_maps (get "configMapRef" source))
SourceBound declared _ = Unit

abbrev pub SourcesBound : Declared → Value → Type 0
SourcesBound declared (arr sources) = All (SourceBound declared) (items sources)
SourcesBound declared _ = Unit

-- A dictionary anywhere in a resource takes nothing of the host, no privilege, and no resource that
-- the blueprint does not create.
pub record Confined (declared : Declared) (mapping : Dict) : Type 0 where
  pub host :
      All
        (λ key. Unshared (get key mapping))
        ("hostNetwork" ∷ "hostPID" ∷ "hostIPC" ∷ "hostUsers" ∷ [])
  pub host_path : is_dict (get "hostPath" mapping) ≡ false
  pub host_port : NoPort (get "hostPort" mapping)
  pub privileged : is_true (get "privileged" (dict_in "securityContext" mapping)) ≡ false
  pub capabilities :
      truthy (get "add" (dict_in "capabilities" (dict_in "securityContext" mapping))) ≡ false
  pub secret_key : Bound "name" declared.secrets (get "secretKeyRef" mapping)
  pub config_map_key : Bound "name" declared.config_maps (get "configMapKeyRef" mapping)
  pub claim : Bound "claimName" declared.claims (get "persistentVolumeClaim" mapping)
  pub config_map : Bound "name" declared.config_maps (get "configMap" mapping)
  pub secret : Bound "secretName" declared.secrets (get "secret" mapping)
  pub sources : SourcesBound declared (get "envFrom" mapping)
  pub forbidden_references :
      All
        (λ key. (has key mapping && not (is_blank (get key mapping))) ≡ false)
        ("imagePullSecrets" ∷ "serviceAccount" ∷ "serviceAccountName" ∷ "hostAliases" ∷ "nodeName"
          ∷ [])

-- A resource of the blueprint: a dictionary of an allowed kind, confined at every depth.
abbrev pub Accepted : Declared → Value → Type 0
Accepted declared (obj resource) =
    (member (text_of "kind" resource) (
        "ConfigMap" ∷ "Secret" ∷ "Service" ∷ "Deployment" ∷ "StatefulSet" ∷ "Job"
        ∷ "PersistentVolumeClaim" ∷ [])
      ≡ true)
    × (All (Confined declared) (walk (obj resource)))
Accepted declared _ = ⊥

references-nil :
    (mapping : Dict) (keys : List String)
    → failures (reference_tests mapping keys) ≡ []
    → All (λ key. (has key mapping && not (is_blank (get key mapping))) ≡ false) keys
references-nil mapping [] e = tt
references-nil mapping (key ∷ keys) e =
    let (first, _) = failures-nil (reference_tests mapping (key ∷ keys)) e in
    (first, references-nil mapping keys (rw first at e))

source-nil :
    (declared : Declared) (v : Value) (rest : List (Bool × String))
    → failures (source_tests declared v ++ rest) ≡ []
    → SourceBound declared v × (failures rest ≡ [])
source-nil declared (obj source) rest e =
    let (secret, (config_map, _)) = failures-nil (source_tests declared (obj source) ++ rest) e in
    (
      (
        dangling-Bound "name" declared.secrets (get "secretRef" source) secret,
        dangling-Bound "name" declared.config_maps (get "configMapRef" source) config_map,
      ),
      rw (secret, config_map) at e,
    )
source-nil declared v rest e = (tt, e)

env_from-nil :
    (declared : Declared) (sources : Items)
    → failures (env_from_tests declared sources) ≡ []
    → All (SourceBound declared) (items sources)
env_from-nil declared nil e = tt
env_from-nil declared (cons v vs) e =
    let (first, rest) = source-nil declared v (env_from_tests declared vs) e in
    (first, env_from-nil declared vs rest)

env-nil :
    (declared : Declared) (v : Value)
    → failures (env_tests declared v) ≡ []
    → SourcesBound declared v
env-nil declared (arr sources) e = env_from-nil declared sources e
env-nil declared v e = tt

mapping_errors-nil :
    (declared : Declared) (mapping : Dict)
    → mapping_errors declared mapping ≡ []
    → Confined declared mapping
unfolding mapping_errors
mapping_errors-nil declared mapping e =
    let (host, rest) = append-nil (failures (host_tests mapping)) _ e in
    let (bound, rest') = append-nil (failures (binding_tests declared mapping)) _ rest in
    let (refs, envs) =
      append-nil (failures (reference_tests mapping forbidden_reference_keys)) _ rest' in
    let (key, (map_key, (claim_, (volume, (secret_, _))))) =
      failures-nil (binding_tests declared mapping) bound in
    let (a, (b, (c, (d, (f, _))))) = failures-nil (host_tests mapping) host in
    record {
      host = hosts-Unshared mapping forbidden_pod_keys a;
      host_path = b;
      host_port = port_given-NoPort (get "hostPort" mapping) c;
      privileged = d;
      capabilities = f;
      secret_key = dangling-Bound "name" declared.secrets (get "secretKeyRef" mapping) key;
      config_map_key =
          dangling-Bound "name" declared.config_maps (get "configMapKeyRef" mapping) map_key;
      claim =
          dangling-Bound "claimName" declared.claims (get "persistentVolumeClaim" mapping) claim_;
      config_map = dangling-Bound "name" declared.config_maps (get "configMap" mapping) volume;
      secret = dangling-Bound "secretName" declared.secrets (get "secret" mapping) secret_;
      sources = env-nil declared (get "envFrom" mapping) envs;
      forbidden_references = references-nil mapping forbidden_reference_keys refs;
    }

mappings_errors-nil :
    (declared : Declared) (ms : List Dict)
    → mappings_errors declared ms ≡ []
    → All (Confined declared) ms
unfolding mappings_errors
mappings_errors-nil declared [] e = tt
mappings_errors-nil declared (m ∷ ms) e =
    let (first, rest) = append-nil (mapping_errors declared m) _ e in
    (mapping_errors-nil declared m first, mappings_errors-nil declared ms rest)

validate_resource-nil :
    (declared : Declared) (resource : Dict)
    → validate_resource declared resource ≡ ok []
    → Accepted declared (obj resource)
unfolding validate_resource resource_errors
validate_resource-nil declared resource e =
    let (errors, found, j) = >>=-eq-ok (resource_errors declared resource) _ e in
    let (secret, _, k) =
      >>=-eq-ok (if text_of "kind" resource == "Secret" then secret_errors resource else ok []) _
        found in
    let none_left = ok-inj k ∙ sorted_set-nil errors (ok-inj j) in
    let (tests, rest) = append-nil (failures (kind_tests resource)) _ none_left in
    let (_, others) = append-nil secret _ rest in
    let (_, mappings) =
      append-nil
        (if text_of "kind" resource == "PersistentVolumeClaim" then claim_errors resource else []) _
        others in
    (
      negated (failures-nil (kind_tests resource) tests).0,
      mappings_errors-nil declared (walk (obj resource)) mappings,
    )

resources_errors-nil :
    (declared : Declared) (resources : List Value)
    → resources_errors declared resources ≡ ok []
    → foreign resources ≡ []
    → All (Accepted declared) resources
unfolding resources_errors is_dict
resources_errors-nil declared [] e f = tt
resources_errors-nil declared (obj item ∷ rest) e f =
    let (errors, v, j) = >>=-eq-ok (validate_resource declared item) _ e in
    let (others, r, k) = >>=-eq-ok (resources_errors declared rest) _ j in
    let (first, later) = append-nil errors others (ok-inj k) in
    (
      validate_resource-nil declared item (v ∙ ap ok first),
      resources_errors-nil declared rest (r ∙ ap ok later) f,
    )
resources_errors-nil declared (null ∷ rest) e f = absurd (cc)
resources_errors-nil declared (bool b ∷ rest) e f = absurd (cc)
resources_errors-nil declared (int n ∷ rest) e f = absurd (cc)
resources_errors-nil declared (str s ∷ rest) e f = absurd (cc)
resources_errors-nil declared (arr vs ∷ rest) e f = absurd (cc)

-- Where a blueprint compiles, it has resources, and each of them is an object of an allowed kind
-- that at every depth shares no namespace, path or port of the host, is not privileged, adds no
-- capability, names no pull secret, service account, host alias or node, and refers from keys,
-- volumes and `envFrom` only to secrets, config maps and claims that the blueprint declares.
pub compile_blueprint-Accepted :
    (blueprint : Dict) (namespace : String) (owner_labels : Dict) (compiled : List Dict)
    → compile_blueprint blueprint namespace owner_labels ≡ ok compiled
    → (nonempty (resources_of blueprint) ≡ true)
      × ((declared : Declared) × (declared_names no_names (resources_of blueprint) ≡ ok declared)
          × (All (Accepted declared) (resources_of blueprint)))
unfolding compile_blueprint
compile_blueprint-Accepted blueprint namespace owner_labels compiled e =
    let resources = resources_of blueprint in
    let (some_left, e1) = >>-eq-ok (raise_if (not (nonempty resources)) value_error _) _ e in
    let (declared, d, e2) = >>=-eq-ok (declared_names no_names resources) _ e1 in
    let (found, r, e3) = >>=-eq-ok (resources_errors declared resources) _ e2 in
    let (safe, _) =
      >>-eq-ok (raise_if (nonempty (found ++ foreign resources)) value_error _) _ e3 in
    let (first, later) = append-nil found (foreign resources) (
      nonempty-nil _ (raise_if-eq-ok (nonempty (found ++ foreign resources)) value_error _ safe)) in
    (
      negated (raise_if-eq-ok (not (nonempty resources)) value_error _ some_left),
      (declared, d, resources_errors-nil declared resources (r ∙ ap ok first) later),
    )
