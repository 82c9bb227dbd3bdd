-- ===== src/Isolation/Manager/Reap.antt =====
-- `IsolationManager.reap_expired`.
use chaos_atlas.Prelude.{
  ℕ, String, Bool, true, false, ◌&&◌, List, [], ◌∷◌, ◌++◌, if◌then◌else◌, leb, contains_text,
}
use chaos_atlas.Result.{Exc, runtime_error}
use chaos_atlas.Exec.{Exec, pure, raise, lift, ◌>>=◌, ◌>>◌, try_else}
use chaos_atlas.Value.{Dict, get, is_str, one_of, text}
use chaos_atlas.Isolation.Contracts.{Hasher, transition_lease}
use chaos_atlas.Isolation.Store.{Disk, load, save, list, operation_lock}
use chaos_atlas.Isolation.Manager.Provider.{Provider, Ambient}
use chaos_atlas.Isolation.Manager.Release.{release_locked}

abbrev is_runtime_error : Exc → Bool
is_runtime_error runtime_error = true
is_runtime_error _ = false

module _ (h : Hasher) (root : String) (registry : List (String × Provider))
    (ambient : Ambient) where
  -- the body under the lease's operation lock
  unfoldable pub expire_lease : String → Exec Disk Dict
  expire_lease id = do
    lease ← load h root id
    cleaning ← lift (
        one_of ("expired" ∷ "releasing" ∷ "cleanup_failed" ∷ "prepare_failed" ∷ [])
          (get "state" lease))
    let expiring = do moved ← lift (transition_lease h lease "expired"); save h root moved false
    if cleaning then pure lease else expiring
    release_locked h root registry ambient id

  -- one round of the loop, for a lease that has expired
  unfoldable pub reap_lease : String → Exec Disk (List Dict)
  reap_lease id =
      try_else (operation_lock h root id false (expire_lease id)) (λ lease. pure (lease ∷ []))
        λ e m.
          if is_runtime_error e && contains_text "already in progress" m then pure [] else raise e m

  unfoldable pub reap_all : ℕ → List Dict → Exec Disk (List Dict)
  reap_all current [] = pure []
  reap_all current (lease ∷ leases) = do
    let rest = reap_all current leases
    let id = text (get "lease_id" lease)
    let round = do
      expires ← lift (ambient.of_iso (text (get "expires_at" lease)))
      done ← if leb expires current then reap_lease id else pure []
      others ← rest
      pure (done ++ others)
    if is_str "released" (get "state" lease) then rest else round

  unfoldable pub reap_expired : ℕ → Exec Disk (List Dict)
  reap_expired current = do leases ← list h root; reap_all current leases
