-- ===== src/Isolation/Manager/Prepare.antt =====
-- `IsolationManager.prepare` and `_new_lease`. The keys of the plan that are read by subscript are
-- among those that `validate_plan` requires.
use chaos_atlas.Prelude.{
  ℕ, ◌+◌, String, Bool, true, false, not, ◌&&◌, ◌||◌, none, some, List, [], ◌∷◌, ◌++◌, ◌==◌,
  if◌then◌else◌, format, join, nonempty, ℤ, pos, ltb_ℤ, pos_part, lowercase, take_text, select_text,
  slug_char, strip_dashes,
}
use chaos_atlas.Result
use chaos_atlas.Result.{Exc, Result, ok, err, value_error, runtime_error, type_error, is_interrupt}
use chaos_atlas.Exec.{Exec, pure, raise, lift, ◌>>=◌, ◌>>◌, raise_when, only_if, try_else}
use chaos_atlas.Value.{
  Value, null, int, str, arr, obj, nil, end, Dict, get, put, either, truthy, is_str, is_dict,
  as_list, text, dict_of,
}
use chaos_atlas.Isolation.Contracts.{Hasher, with_hash, transition_lease, validate_plan}
use chaos_atlas.Isolation.Store.{
  Disk, load, save, active, save_audit, assert_l3_available, claim_l3, creation_lock,
  operation_lock,
}
use chaos_atlas.Isolation.Manager.Provider.{Provider, Ambient, find_provider}
use chaos_atlas.Isolation.Manager.Audit.{make_audit}
use chaos_atlas.Isolation.Manager.Mutate.{mutate_all}
use chaos_atlas.Isolation.Manager.Release.{describe, release_locked, errors_of}

-- `"; ".join(…)` refuses what is no text.
unfoldable pub as_texts : List Value → Result (List String)
as_texts [] = ok []
as_texts (str s ∷ vs) = Result.◌>>=◌ (as_texts vs) (λ ss. ok (s ∷ ss))
as_texts (_ ∷ vs) = err type_error "sequence item: expected str instance"

unfoldable pub refuse_plan : List String → Dict → Result (Unit {0})
unfolding as_texts
refuse_plan errors plan =
    Result.◌>>=◌ (as_list (either (get "blockers" plan) (arr nil))) (λ blockers.
      Result.◌>>=◌ (as_texts blockers) (λ ss.
        err value_error
          (format ("isolation plan is not executable: " ∷ join "; " (errors ++ ss) ∷ []))))

-- the readable part of `target_name`
unfoldable pub project_slug : String → String
project_slug project =
    let slug = strip_dashes (take_text 24 (select_text slug_char (lowercase project))) in
    if slug == "" then "project" else slug

abbrev minikube : Dict → Bool
minikube d = is_str "minikube-l3" (get "provider" d)

unfoldable pub locate : Provider → Dict → Dict → Result Value
locate provider plan lease = elim provider.capture_runtime_locator [
  | none ↦ ok (obj (dict_of (("provider", get "provider" plan) ∷ [])))
  | some capture ↦ capture (obj plan) lease
]

-- `ready.get("errors") or [otherwise]`
abbrev ready_complaints : Dict → Value
ready_complaints ready =
    let errors = get "errors" ready in
    if truthy errors
    then errors
    else arr (chaos_atlas.Value.cons (str "environment is not Ready") nil)

module _ (h : Hasher) (root : String) (registry : List (String × Provider))
    (ambient : Ambient) where
  -- the document that `_new_lease` builds
  unfoldable pub lease_document : Dict → ℕ → Dict
  unfolding project_slug
  lease_document plan ttl =
      let id = format ("lease-" ∷ ambient.fresh_hex ∷ []) in
      let project = text (get "project_id" plan) in
      dict_of (
        ("schema_version", str "chaosatlas-environment-lease-v2")
        ∷ ("lease_id", str id)
        ∷ ("plan_id", get "plan_id" plan)
        ∷ ("project_id", get "project_id" plan)
        ∷ ("provider", get "provider" plan)
        ∷ ("isolation_level", get "effective_isolation" plan)
        ∷ ("state", str "planned")
        ∷ ("created_at", str (ambient.iso ambient.now))
        ∷ ("expires_at", str (ambient.iso (ambient.now + ttl)))
        ∷ (
          "owner_labels",
          obj (
              dict_of (
                ("chaosatlas.dev/managed", str "true")
                ∷ ("chaosatlas.dev/lease-id", str id)
                ∷ ("chaosatlas.dev/project", str project)
                ∷ ("chaosatlas-managed", str "true")
                ∷ [])),
        )
        ∷ (
          "target_name",
          str (
              format (
                "ca-"
                ∷ lowercase (text (get "effective_isolation" plan))
                ∷ "-"
                ∷ project_slug project
                ∷ "-"
                ∷ take_text 10 ambient.fresh_hex
                ∷ [])),
        )
        ∷ ("runtime_locator", obj end)
        ∷ ("plan", obj plan)
        ∷ ("resources", arr nil)
        ∷ ("external_profiles", arr nil)
        ∷ ("cleanup_attempts", int (pos 0))
        ∷ ("last_error", null)
        ∷ [])

  unfoldable pub new_lease : Dict → ℤ → Exec Disk Dict
  unfolding lease_document
  new_lease plan ttl = do
    taken ← active h root (some (text (get "project_id" plan))) none
    raise_when (nonempty taken) runtime_error (
        format
          ("project already has an active isolation lease: " ∷ text (get "project_id" plan) ∷ []))
    raise_when (ltb_ℤ ttl (pos 1) || ltb_ℤ (pos 240) ttl) value_error
        "ttl_minutes must be between 1 and 240"
    pure (with_hash h (lease_document plan (pos_part ttl)) "lease_sha256")

  -- the part of `prepare` under the creation lock
  unfoldable pub register_lease : Provider → Dict → ℤ → Exec Disk Dict
  unfolding new_lease locate
  register_lease provider plan ttl = do
    only_if (minikube plan) (assert_l3_available h root)
    fresh ← new_lease plan ttl
    locator ← lift (locate provider plan fresh)
    raise_when (not (is_dict locator && truthy locator)) runtime_error
        "provider did not return a runtime locator"
    let lease = with_hash h (put "runtime_locator" locator fresh) "lease_sha256"
    save h root lease true
    only_if (minikube plan) (claim_l3 h root lease)
    pure lease

  -- the body of the `try` block
  unfoldable pub bring_up : Provider → Dict → String → Dict → Exec Disk Dict
  unfolding errors_of
  bring_up provider plan id lease = do
    blocked ← lift (provider.preflight (obj plan))
    raise_when (nonempty blocked) runtime_error (join "; " blocked)
    let (calls, ending) = provider.prepare (obj plan) lease
    mutate_all h root id calls
    lift ending
    current ← load h root id
    ready ← lift (provider.verify_ready (obj plan) current)
    let verified = is_str "verified" (get "status" ready)
    complaints ← lift (errors_of ready)
    save_audit h root
        (make_audit h (ambient.iso ambient.now) id
          (if verified then "ready_verified" else "ready_blocked")
          (either (get "checks" ready) (obj end)) complaints)
        "ready"
    reason ←
        lift (if verified then ok [] else Result.◌>>=◌ (as_list (ready_complaints ready)) as_texts)
    raise_when (not verified) runtime_error (join "; " reason)
    moved ← lift (transition_lease h current "ready")
    save h root moved false

  -- the handler of the `except BaseException` block
  unfoldable pub roll_back : String → Exc → String → Exec Disk Dict
  unfolding describe
  roll_back id e m = do
    lease ← load h root id
    let noted = with_hash h (put "last_error" (str (describe e m)) lease) "lease_sha256"
    failed ←
        if is_str "preparing" (get "state" noted)
        then lift (transition_lease h noted "prepare_failed")
        else pure noted
    save h root failed false
    released ← release_locked h root registry ambient id
    if is_interrupt e then raise e m else pure released

  -- the part of `prepare` under the operation lock
  unfoldable pub start_lease : Provider → Dict → Dict → Exec Disk Dict
  unfolding bring_up roll_back
  start_lease provider plan lease = do
    let id = text (get "lease_id" lease)
    preparing ← lift (transition_lease h lease "preparing")
    save h root preparing false
    try_else (bring_up provider plan id preparing) pure (roll_back id)

  module _ (compile : Dict → Result (Unit {0})) where
    unfoldable pub prepare : Dict → ℤ → Exec Disk Dict
    unfolding refuse_plan register_lease start_lease
    prepare plan ttl = do
      errors ← lift (validate_plan h compile plan)
      lift (
          if nonempty errors || not (is_str "ready" (get "status" plan))
          then refuse_plan errors plan
          else ok tt)
      provider ← lift (find_provider registry (text (get "provider" plan)))
      raise_when (not (provider.supports (obj plan))) value_error
          (format ("isolation provider does not support plan: " ∷ text (get "provider" plan) ∷ []))
      lease ← creation_lock h root (register_lease provider plan ttl)
      operation_lock h root (text (get "lease_id" lease)) true (start_lease provider plan lease)
