-- ===== src/Isolation/Tests/Blueprint.antt =====
-- A Deployment whose Secret is generated compiles; one that mounts the host does not.
use chaos_atlas.Prelude.{◌≡◌, refl, true, List, [], ◌∷◌, nonempty, All}
use chaos_atlas.Result.{Result, ok, err, value_error}
use chaos_atlas.Value.{
  Value, bool, str, arr, obj, nil, cons, Dict, end, get, put, str_list, dict_of,
}
use chaos_atlas.Isolation.Blueprint.Resource.{Declared, references}
use chaos_atlas.Isolation.Blueprint.{
  no_names, declared_names, resources_of, compile_blueprint, derive_l2_blueprint,
}
use chaos_atlas.Isolation.Blueprint.Confined.{Accepted, compile_blueprint-Accepted}
use chaos_atlas.Isolation.Blueprint.Owned.{EachOwned, compile_blueprint-IsOwned}

abbrev secret : Dict
secret = dict_of (
    ("kind", str "Secret")
    ∷ ("metadata", obj (dict_of (("name", str "db") ∷ ("uid", str "u1") ∷ [])))
    ∷ (
      "runtimeGenerate",
      obj (
          dict_of (
            ("keys", arr (str_list ("user" ∷ "pass" ∷ [])))
            ∷ ("templates", obj (dict_of (("url", str "db://${user}:${pass}@host") ∷ [])))
            ∷ [])),
    )
    ∷ [])

abbrev container : Dict → Dict
container security = dict_of (
    ("name", str "app")
    ∷ ("securityContext", obj security)
    ∷ ("envFrom", arr (cons (obj (put "secretRef" (obj (put "name" (str "db") end)) end)) nil))
    ∷ [])

abbrev deployment : Dict → Dict
deployment security = dict_of (
    ("kind", str "Deployment")
    ∷ ("metadata", obj (put "name" (str "web") end))
    ∷ (
      "spec",
      obj (
          put "template"
            (obj (
              put "spec" (obj (put "containers" (arr (cons (obj (container security)) nil)) end))
                end))
            end),
    )
    ∷ [])

abbrev blueprint : Dict → Dict
blueprint security =
    put "resources" (arr (cons (obj secret) (cons (obj (deployment security)) nil))) end

abbrev owner : Dict
owner = put "chaosatlas.dev/managed" (str "true") end

abbrev returned : Result (List Dict) → List Dict
returned (ok rs) = rs
returned (err e m) = []

compiled : List Dict
compiled = returned (compile_blueprint (blueprint end) "ca-1" owner)

references_test : references "x${a${b}-$${c}${}" ≡ "b" ∷ "c" ∷ []
unfolding references
references_test = refl

compiles : compile_blueprint (blueprint end) "ca-1" owner ≡ ok compiled
unfolding compiled compile_blueprint chaos_atlas.Isolation.Blueprint.declare
    chaos_atlas.Isolation.Blueprint.declared_names chaos_atlas.Isolation.Blueprint.resources_errors
    chaos_atlas.Isolation.Blueprint.nested chaos_atlas.Isolation.Blueprint.add_labels
    chaos_atlas.Isolation.Blueprint.without_all chaos_atlas.Isolation.Blueprint.own_metadata
    chaos_atlas.Isolation.Blueprint.no_token chaos_atlas.Isolation.Blueprint.own_template
    chaos_atlas.Isolation.Blueprint.own_workload chaos_atlas.Isolation.Blueprint.strip_secret
    chaos_atlas.Isolation.Blueprint.compile_resource
    chaos_atlas.Isolation.Blueprint.compile_resources chaos_atlas.Isolation.Blueprint.Resource.walk
    chaos_atlas.Isolation.Blueprint.Resource.mapping_errors
    chaos_atlas.Isolation.Blueprint.Resource.mappings_errors
    chaos_atlas.Isolation.Blueprint.Resource.secret_errors
    chaos_atlas.Isolation.Blueprint.Resource.claim_errors
    chaos_atlas.Isolation.Blueprint.Resource.resource_errors
    chaos_atlas.Isolation.Blueprint.Resource.validate_resource
    chaos_atlas.Isolation.Blueprint.Resource.references chaos_atlas.Value.get
    chaos_atlas.Value.get_or chaos_atlas.Value.has chaos_atlas.Value.put chaos_atlas.Value.without
    chaos_atlas.Value.update chaos_atlas.Value.either chaos_atlas.Value.truthy
    chaos_atlas.Value.is_true chaos_atlas.Value.is_dict chaos_atlas.Value.is_list
    chaos_atlas.Value.is_text chaos_atlas.Value.is_str chaos_atlas.Value.in_tuple
    chaos_atlas.Value.text chaos_atlas.Value.text_of chaos_atlas.Value.as_dict
    chaos_atlas.Value.as_list chaos_atlas.Isolation.Secrets.sorted_set
    chaos_atlas.Isolation.Secrets.is_blank
compiles = refl

privileged :
    compile_blueprint (blueprint (put "privileged" (bool true) end)) "ca-1" owner
    ≡ err value_error "unsafe isolation blueprint: privileged containers are forbidden"
unfolding compiled compile_blueprint chaos_atlas.Isolation.Blueprint.declare
    chaos_atlas.Isolation.Blueprint.declared_names chaos_atlas.Isolation.Blueprint.resources_errors
    chaos_atlas.Isolation.Blueprint.nested chaos_atlas.Isolation.Blueprint.add_labels
    chaos_atlas.Isolation.Blueprint.without_all chaos_atlas.Isolation.Blueprint.own_metadata
    chaos_atlas.Isolation.Blueprint.no_token chaos_atlas.Isolation.Blueprint.own_template
    chaos_atlas.Isolation.Blueprint.own_workload chaos_atlas.Isolation.Blueprint.strip_secret
    chaos_atlas.Isolation.Blueprint.compile_resource
    chaos_atlas.Isolation.Blueprint.compile_resources chaos_atlas.Isolation.Blueprint.Resource.walk
    chaos_atlas.Isolation.Blueprint.Resource.mapping_errors
    chaos_atlas.Isolation.Blueprint.Resource.mappings_errors
    chaos_atlas.Isolation.Blueprint.Resource.secret_errors
    chaos_atlas.Isolation.Blueprint.Resource.claim_errors
    chaos_atlas.Isolation.Blueprint.Resource.resource_errors
    chaos_atlas.Isolation.Blueprint.Resource.validate_resource
    chaos_atlas.Isolation.Blueprint.Resource.references chaos_atlas.Value.get
    chaos_atlas.Value.get_or chaos_atlas.Value.has chaos_atlas.Value.put chaos_atlas.Value.without
    chaos_atlas.Value.update chaos_atlas.Value.either chaos_atlas.Value.truthy
    chaos_atlas.Value.is_true chaos_atlas.Value.is_dict chaos_atlas.Value.is_list
    chaos_atlas.Value.is_text chaos_atlas.Value.is_str chaos_atlas.Value.in_tuple
    chaos_atlas.Value.text chaos_atlas.Value.text_of chaos_atlas.Value.as_dict
    chaos_atlas.Value.as_list chaos_atlas.Isolation.Secrets.sorted_set
    chaos_atlas.Isolation.Secrets.is_blank
privileged = refl

compile_blueprint-IsOwned_example : EachOwned "ca-1" owner (resources_of (blueprint end)) compiled
compile_blueprint-IsOwned_example =
    compile_blueprint-IsOwned "ca-1" owner (blueprint end) compiled compiles

compile_blueprint-Accepted_example :
    (nonempty (resources_of (blueprint end)) ≡ true)
    × ((declared : Declared) × (declared_names no_names (resources_of (blueprint end))
          ≡ ok declared)
        × (All (Accepted declared) (resources_of (blueprint end))))
compile_blueprint-Accepted_example =
    compile_blueprint-Accepted (blueprint end) "ca-1" owner compiled compiles
