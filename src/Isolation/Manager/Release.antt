-- ===== src/Isolation/Manager/Release.antt =====
-- `IsolationManager.release`, `recover`, `status` and `_release_locked`.
use chaos_atlas.Prelude.{
  String, Bool, true, false, ◌&&◌, List, [], ◌∷◌, ◌++◌, ◌==◌, if◌then◌else◌, format, join, ℤ, pos,
  ◌+ℤ◌,
}
use chaos_atlas.Result
use chaos_atlas.Result.{Exc, Result, ok, err, exc_name, is_interrupt}
use chaos_atlas.Exec.{Exec, pure, lift, ◌>>=◌, ◌>>◌, only_if}
use chaos_atlas.Value.{
  Value, bool, int, str, arr, obj, nil, cons, Dict, get, put, item, either, is_str, is_true,
  as_list, to_int, text, dict_of,
}
use chaos_atlas.Isolation.Contracts.{Hasher, with_hash, transition_lease}
use chaos_atlas.Isolation.Store.{Disk, load, save, save_audit, release_l3_claim, operation_lock}
use chaos_atlas.Isolation.Manager.Provider.{Provider, Ambient, find_provider}
use chaos_atlas.Isolation.Manager.Audit.{make_audit, error_texts}

-- `f"{type(exc).__name__}: {exc}"`
unfoldable pub describe : Exc → String → String
describe e m = format (exc_name e ∷ ": " ∷ m ∷ [])

-- `except Exception as exc`: an interrupt is not caught.
abbrev pub rescue : Result Dict → (String → Dict) → Result Dict
rescue (ok d) handler = ok d
rescue (err e m) handler = if is_interrupt e then err e m else ok (handler (describe e m))

abbrev pub blocked : String → Dict
blocked reason = dict_of (("status", str "blocked") ∷ ("reason", str reason) ∷ [])

abbrev pub unconfirmed : String → Dict
unconfirmed reason =
    dict_of (("confirmed", bool false) ∷ ("errors", arr (cons (str reason) nil)) ∷ [])

unfoldable pub run_cleanup : Provider → Dict → Result Dict
unfolding describe
run_cleanup provider lease =
    rescue (Result.◌>>=◌ (item "plan" lease) (λ plan. provider.cleanup plan lease)) blocked

unfoldable pub run_absence : Provider → Dict → Dict → Result Dict
unfolding describe
run_absence provider lease cleanup =
    rescue
      (if is_str "released" (get "status" cleanup)
        then Result.◌>>=◌ (item "plan" lease) (λ plan. provider.verify_absent plan lease)
        else ok (
            dict_of (
              ("confirmed", bool false)
              ∷ ("errors", arr (cons (either (get "reason" cleanup) (str "cleanup blocked")) nil))
              ∷ [])))
      unconfirmed

-- `list(d.get("errors") or [])`
unfoldable pub errors_of : Dict → Result (List Value)
errors_of d = as_list (either (get "errors" d) (arr nil))

unfoldable pub is_verified : Dict → Dict → Bool
is_verified cleanup absence =
    is_str "released" (get "status" cleanup) && is_true (get "confirmed" absence)

-- the text kept as `last_error` of a cleanup that was not verified
abbrev last_error : List Value → Dict → String
last_error errors cleanup =
    let joined = join "; " (error_texts errors) in
    if joined == ""
    then text (either (get "reason" cleanup) (str "cleanup not verified"))
    else joined

module _ (h : Hasher) (root : String) (registry : List (String × Provider))
    (ambient : Ambient) where
  -- `int(lease.get("cleanup_attempts") or 0) + 1`
  unfoldable pub next_attempt : Dict → Result ℤ
  next_attempt lease =
      Result.◌>>=◌ (to_int (either (get "cleanup_attempts" lease) (int (pos 0))))
        (λ n. ok (n +ℤ pos 1))

  unfoldable pub begin_release : Dict → Exec Disk Dict
  unfolding next_attempt
  begin_release lease = do
    moved ←
        if is_str "releasing" (get "state" lease)
        then pure lease
        else lift (transition_lease h lease "releasing")
    attempt ← lift (next_attempt moved)
    save h root (with_hash h (put "cleanup_attempts" (int attempt) moved) "lease_sha256") false

  unfoldable pub record_outcome : String → Dict → Dict → List Value → Exec Disk Dict
  record_outcome id cleanup absence errors = do
    let verified = is_verified cleanup absence
    current ← load h root id
    moved ← lift (transition_lease h current (if verified then "released" else "cleanup_failed"))
    let final =
        if verified
        then moved
        else with_hash h (put "last_error" (str (last_error errors cleanup)) moved) "lease_sha256"
    save h root final false
    save_audit h root
        (make_audit h (ambient.iso ambient.now) id
          (if verified then "cleanup_verified" else "cleanup_failed")
          (obj (dict_of (("cleanup", obj cleanup) ∷ ("absence", obj absence) ∷ []))) errors)
        (format ("cleanup-" ∷ text (get "cleanup_attempts" final) ∷ []))
    only_if (verified && is_str "minikube-l3" (get "provider" final)) (release_l3_claim h root id)
    pure final

  unfoldable pub finish_release : String → Provider → Dict → Exec Disk Dict
  finish_release id provider lease = do
    cleanup ← lift (run_cleanup provider lease)
    absence ← lift (run_absence provider lease cleanup)
    cleanup_errors ← lift (errors_of cleanup)
    absence_errors ← lift (errors_of absence)
    record_outcome id cleanup absence (cleanup_errors ++ absence_errors)

  unfoldable pub release_again : String → Dict → Exec Disk Dict
  release_again id lease = do
    only_if (is_str "minikube-l3" (get "provider" lease)) (release_l3_claim h root id)
    pure lease

  unfoldable pub release_first : String → Dict → Exec Disk Dict
  release_first id lease = do
    provider ← lift (find_provider registry (text (get "provider" lease)))
    begun ← begin_release lease
    finish_release id provider begun

  unfoldable pub release_locked : String → Exec Disk Dict
  release_locked id = do
    lease ← load h root id
    if is_str "released" (get "state" lease) then release_again id lease else release_first id lease

  unfoldable pub release : String → Exec Disk Dict
  release id = operation_lock h root id true (release_locked id)

  unfoldable pub recover : String → Exec Disk Dict
  unfolding release
  recover id = release id

  unfoldable pub status : String → Exec Disk Dict
  status id = load h root id
