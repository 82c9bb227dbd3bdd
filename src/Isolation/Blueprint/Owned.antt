-- ===== src/Isolation/Blueprint/Owned.antt =====
-- What the compiled resources carry (isolation/blueprint.py).
use chaos_atlas.Prelude.{
  String, ◌≡◌, refl, sym, ◌∙◌, Bool, true, false, arith, not, ◌&&◌, ◌||◌, List, [], ◌∷◌, ◌==◌, ◌++◌,
  nonempty, Bool-cases, inl, inr, ◌⊎◌,
}
use chaos_atlas.Result.{Result, ok, value_error, raise_if, ok-inj, >>=-eq-ok, >>-eq-ok}
use chaos_atlas.Value.{
  Value, null, bool, int, str, arr, obj, Dict, end, field, text, get, get_or, has, put, without,
  update, either, is_str, in_tuple, as_dict, get-put, has-put, get-without, has-without,
}
use chaos_atlas.Isolation.Blueprint.{
  no_names, declared_names, resources_errors, resources_of, foreign, nested, add_labels,
  text_values, server_keys, without_all, own_metadata, workload_kinds, silenced, no_token,
  own_template, own_workload, strip_secret, compile_resource, compile_resources, compile_blueprint,
}

-- A workload's Pods do not mount the token of a service account.
abbrev pub NoToken : Dict → Type 0
NoToken resource =
    (in_tuple ("Deployment" ∷ "StatefulSet" ∷ "Job" ∷ []) (get "kind" resource) ≡ false)
    ⊎ ((spec : Dict) × (template : Dict) × (pod_spec : Dict) × (get "spec" resource ≡ obj spec)
        × (get "template" spec ≡ obj template)
        × (get "spec" template ≡ obj pod_spec)
        × (get "automountServiceAccountToken" pod_spec ≡ bool false))

-- A compiled resource lies in the namespace, has its source's labels below its owner's, and keeps no
-- server fields and, as a Secret, no values.
pub record IsOwned (namespace : String) (owner_labels source resource : Dict) : Type 0 where
  pub metadata : Dict
  pub is_metadata : get "metadata" resource ≡ obj metadata
  pub placed : get "namespace" metadata ≡ str namespace
  pub own : Dict
  pub labels : Dict
  pub is_own : as_dict (get_or "metadata" source (obj end)) ≡ ok own
  pub are_labels : as_dict (either (get "labels" own) (obj end)) ≡ ok labels
  pub labelled : get "labels" metadata ≡ obj (update (text_values labels) owner_labels)
  pub kept :
      (key : String)
      → has key owner_labels ≡ false
      → has key labels ≡ true
      → get key (update (text_values labels) owner_labels) ≡ str (text (get key labels))
  pub status : has "status" resource ≡ false
  pub owners : has "ownerReferences" metadata ≡ false
  pub uid : has "uid" metadata ≡ false
  pub secret_data :
      (is_str "Secret" (get "kind" resource) && (has "data" resource || has "stringData" resource))
      ≡ false
  pub token : NoToken resource

neither : (a b : Bool) → (a || b) ≡ false → (a ≡ false) × (b ≡ false)
neither a b e = ground arith

get-update :
    (key : String) (d other : Dict) → has key other ≡ false → get key (update d other) ≡ get key d
unfolding update has
get-update key d end n = refl
get-update key d (field k v other) n =
    let (apart, later) = neither (k == key) (has key other) n in
    get-update key (put k v d) other later ∙ simp (get-put, apart)

get-text_values :
    (key : String) (d : Dict) → has key d ≡ true → get key (text_values d) ≡ str (text (get key d))
unfolding get has
get-text_values key end p = absurd (cc)
get-text_values key (field k v d) p = ground (arith, get-text_values key d)

own_kept :
    (owner_labels labels : Dict) (key : String)
    → has key owner_labels ≡ false
    → has key labels ≡ true
    → get key (update (text_values labels) owner_labels) ≡ str (text (get key labels))
own_kept owner_labels labels key n p =
    get-update key (text_values labels) owner_labels n ∙ get-text_values key labels p

-- The compiled resources are the resources, one for one and in their order.
abbrev pub EachOwned : String → Dict → List Value → List Dict → Type 0
EachOwned namespace owner_labels [] [] = Unit
EachOwned namespace owner_labels (v ∷ vs) (r ∷ rs) =
    (source : Dict) × (v ≡ obj source)
    × IsOwned namespace owner_labels source r
    × EachOwned namespace owner_labels vs rs
EachOwned namespace owner_labels _ _ = ⊥

nested-ok :
    (key : String) (f : Dict → Result Dict) (d r : Dict)
    → nested key f d ≡ ok r
    → (inner : Dict) × (changed : Dict) × (f inner ≡ ok changed)
      × (r ≡ put key (obj changed) d)
      × (as_dict (get_or key d (obj end)) ≡ ok inner)
unfolding nested
nested-ok key f d r e =
    let (inner, i, j) = >>=-eq-ok (as_dict (get_or key d (obj end))) _ e in
    let (changed, c, k) = >>=-eq-ok (f inner) _ j in (inner, changed, c, sym (ok-inj k), i)

add_labels-ok :
    (owner_labels metadata r : Dict)
    → add_labels owner_labels metadata ≡ ok r
    → (labels : Dict) × (as_dict (either (get "labels" metadata) (obj end)) ≡ ok labels)
      × (r ≡ put "labels" (obj (update (text_values labels) owner_labels)) metadata)
unfolding add_labels
add_labels-ok owner_labels metadata r e =
    let (labels, l, j) = >>=-eq-ok (as_dict (either (get "labels" metadata) (obj end))) _ e in
    (labels, l, sym (ok-inj j))

has_server_key :
    (d : Dict)
    → (has "uid" (without_all server_keys d) ≡ false)
      × (has "ownerReferences" (without_all server_keys d) ≡ false)
unfolding without_all
has_server_key d = (simp has-without, simp has-without)

module _ (namespace : String) (owner_labels : Dict) where
  -- the parts of `IsOwned` that speak of the metadata
  abbrev MetadataOwned : Dict → Dict → Type 0
  MetadataOwned own m =
      (get "namespace" m ≡ str namespace)
      × ((labels : Dict) × (as_dict (either (get "labels" own) (obj end)) ≡ ok labels)
          × (get "labels" m ≡ obj (update (text_values labels) owner_labels)))
      × (has "ownerReferences" m ≡ false)
      × (has "uid" m ≡ false)

  kept_labels :
      (d : Dict)
      → get "labels" (put "namespace" (str namespace) (without_all server_keys d)) ≡ get "labels" d
  unfolding without_all
  kept_labels d = simp (get-put, get-without)

  own_metadata-Owned :
      (d m : Dict) → own_metadata namespace owner_labels d ≡ ok m → MetadataOwned d m
  unfolding own_metadata
  own_metadata-Owned d m e =
      let (labels, l, shape) = add_labels-ok owner_labels _ m e in
      let (no_uid, no_owner) = has_server_key d in
      rw shape (
        simp get-put,
        (labels, rw (kept_labels d) at l, simp get-put),
        simp (has-put, no_owner),
        simp (has-put, no_uid),
      )

  workload-keeps :
      (key : String) (item r : Dict)
      → ("spec" == key) ≡ false
      → own_workload owner_labels item ≡ ok r
      → (get key r ≡ get key item) × (has key r ≡ has key item)
  unfolding own_workload
  workload-keeps key item r apart e =
      elim (Bool-cases (in_tuple workload_kinds (get "kind" item))) [
        | inl w ↦
            let (inner, changed, c, shape, _) =
              nested-ok "spec" (nested "template" (own_template owner_labels)) item r (rw w at e) in
            rw shape (simp (get-put, apart), simp (has-put, apart))
        | inr w ↦ rw (ok-inj (rw w at e)) (refl, refl)
      ]

  silenced-ok :
      (v : Value) (template r : Dict)
      → silenced v template ≡ ok r
      → (pod_spec : Dict) × (get "spec" r ≡ obj pod_spec)
        × (get "automountServiceAccountToken" pod_spec ≡ bool false)
  silenced-ok (obj pod_spec) template r e =
      rw (← ok-inj e)
        (put "automountServiceAccountToken" (bool false) pod_spec, simp get-put, simp get-put)
  silenced-ok null template r e = absurd (cc)
  silenced-ok (bool b) template r e = absurd (cc)
  silenced-ok (int n) template r e = absurd (cc)
  silenced-ok (str s) template r e = absurd (cc)
  silenced-ok (arr vs) template r e = absurd (cc)

  own_workload-NoToken : (item r : Dict) → own_workload owner_labels item ≡ ok r → NoToken r
  unfolding own_workload own_template no_token
  own_workload-NoToken item r e = elim (Bool-cases (in_tuple workload_kinds (get "kind" item))) [
    | inl w ↦
        let (spec, spec', s, shape, _) =
          nested-ok "spec" (nested "template" (own_template owner_labels)) item r (rw w at e) in
        let (template, template', t, shape', _) =
          nested-ok "template" (own_template owner_labels) spec spec' s in
        let (labelled, _, n) =
          >>=-eq-ok (nested "metadata" (add_labels owner_labels) template) _ t in
        let (pod_spec, p, off) = silenced-ok _ labelled template' n in
        inr (spec', template', pod_spec, rw shape (simp get-put), rw shape' (simp get-put), p, off)
    | inr w ↦ inl (rw (← ok-inj (rw w at e)) w)
  ]

  strip_secret-keeps :
      (item : Dict)
      → (get "metadata" (strip_secret item) ≡ get "metadata" item)
        × (get "kind" (strip_secret item) ≡ get "kind" item)
        × (get "spec" (strip_secret item) ≡ get "spec" item)
        × (has "status" (strip_secret item) ≡ has "status" item)
        × ((is_str "Secret" (get "kind" item)
              && (has "data" (strip_secret item) || has "stringData" (strip_secret item)))
            ≡ false)
  unfolding strip_secret
  strip_secret-keeps item = elim (Bool-cases (is_str "Secret" (get "kind" item))) [
    | inl s ↦ rw s (
      simp (get-without, get-put),
      simp (get-without, get-put),
      simp (get-without, get-put),
      simp (has-without, has-put),
      simp has-without,
    )
    | inr s ↦ rw s (refl, refl, refl, refl, refl)
  ]

  same_metadata :
      (source : Dict)
      → get_or "metadata" (without "status" source) (obj end) ≡ get_or "metadata" source (obj end)
  unfolding get_or
  same_metadata source = simp (get-without, has-without)

  compile_resource-IsOwned :
      (source r : Dict)
      → compile_resource namespace owner_labels source ≡ ok r
      → IsOwned namespace owner_labels source r
  unfolding compile_resource
  compile_resource-IsOwned source r e =
      let (owned, o, j) =
        >>=-eq-ok
          (nested "metadata" (own_metadata namespace owner_labels) (without "status" source)) _ e in
      let (workload, w, k) = >>=-eq-ok (own_workload owner_labels owned) _ j in
      let (inner, metadata, m, shape, is_inner) =
        nested-ok "metadata" _ (without "status" source) owned o in
      let (placed, (labels, are_labels, labelled), owners, uid) =
        own_metadata-Owned inner metadata m in
      let (at_metadata, at_kind, at_spec, at_status, secret) = strip_secret-keeps workload in
      let (w_metadata, _) = workload-keeps "metadata" owned workload refl w in
      let (_, w_status) = workload-keeps "status" owned workload refl w in
      rw (← ok-inj k) (record {
        metadata = metadata;
        is_metadata = at_metadata ∙ (w_metadata ∙ rw shape (simp get-put));
        placed = placed;
        own = inner;
        labels = labels;
        is_own = rw (same_metadata source) at is_inner;
        are_labels = are_labels;
        labelled = labelled;
        kept = own_kept owner_labels labels;
        status = at_status ∙ (w_status ∙ rw shape (simp (has-put, has-without)));
        owners = owners;
        uid = uid;
        secret_data = rw at_kind secret;
        token = rw (at_kind, at_spec) (own_workload-NoToken owned workload w);
      })

  compile_resources-IsOwned :
      (resources : List Value) (compiled : List Dict)
      → compile_resources namespace owner_labels resources ≡ ok compiled
      → EachOwned namespace owner_labels resources compiled
  unfolding compile_resources
  compile_resources-IsOwned [] compiled e = rw (← ok-inj e) tt
  compile_resources-IsOwned (obj source ∷ rest) compiled e =
      let (first, f, j) = >>=-eq-ok (compile_resource namespace owner_labels source) _ e in
      let (others, o, k) = >>=-eq-ok (compile_resources namespace owner_labels rest) _ j in
      rw (← ok-inj k) (
        source,
        refl,
        compile_resource-IsOwned source first f,
        compile_resources-IsOwned rest others o,
      )
  compile_resources-IsOwned (_ ∷ rest) compiled e = absurd (cc)

  -- The compiled resources are the blueprint's, one for one. Each lies in the given namespace, has
  -- the owner's labels over its source's own, whose values become texts, keeps neither its status nor
  -- the uid and owner references of the server, and as a Secret holds no values, and as a workload,
  -- which is a Deployment, a StatefulSet or a Job, mounts no service account token.
  pub compile_blueprint-IsOwned :
      (blueprint : Dict) (compiled : List Dict)
      → compile_blueprint blueprint namespace owner_labels ≡ ok compiled
      → EachOwned namespace owner_labels (resources_of blueprint) compiled
  unfolding compile_blueprint
  compile_blueprint-IsOwned blueprint compiled e =
      let resources = resources_of blueprint in
      let (_, e1) = >>-eq-ok (raise_if (not (nonempty resources)) value_error _) _ e in
      let (declared, d, e2) = >>=-eq-ok (declared_names no_names resources) _ e1 in
      let (found, r, e3) = >>=-eq-ok (resources_errors declared resources) _ e2 in
      let (_, done) =
        >>-eq-ok (raise_if (nonempty (found ++ foreign resources)) value_error _) _ e3 in
      compile_resources-IsOwned resources compiled done
