-- ===== src/Isolation/Manager/Sound.antt =====
-- Every operation of the manager, failing or not, keeps the lease directory sound
-- (isolation/manager.py over isolation/lease_store.py).
use chaos_atlas.Prelude.{ℕ, String, List, [], ◌∷◌, ℤ}
use chaos_atlas.Result.{Exc, Result}
use chaos_atlas.Exec.Keeps.{Keeps, Keeps-if, Keeps-bind, Keeps-lift, Keeps-pure}
use chaos_atlas.Value.{Value, Dict, get, is_str}
use chaos_atlas.Isolation.Contracts.{Hasher}
use chaos_atlas.Isolation.Store.{Disk}
use chaos_atlas.Isolation.Store.Sound.{IsSound, store_rules}
use chaos_atlas.Isolation.Manager.Provider.{Provider, Ambient}
use chaos_atlas.Isolation.Manager.Mutate.{mutate, mutate_all}
use chaos_atlas.Isolation.Manager.Release.{
  begin_release, record_outcome, finish_release, release_again, release_first, release_locked,
  release, recover,
}
use chaos_atlas.Isolation.Manager.Prepare.{
  new_lease, register_lease, bring_up, roll_back, start_lease, prepare,
}
use chaos_atlas.Isolation.Manager.Reap.{expire_lease, reap_lease, reap_all, reap_expired}

module _ (h : Hasher) (root : String) where
  mutate-IsSound :
      (id action : String) (payload : Dict) → Keeps (IsSound h) (mutate h root id action payload)
  unfolding mutate
  mutate-IsSound id action payload = search store_rules

  mutate_all-IsSound :
      (id : String) (calls : List (String × Dict)) → Keeps (IsSound h) (mutate_all h root id calls)
  unfolding mutate_all
  mutate_all-IsSound id [] = search store_rules
  mutate_all-IsSound id ((action, payload) ∷ calls) =
      search (store_rules, mutate-IsSound id action payload, mutate_all-IsSound id calls)

module _ (h : Hasher) (root : String) (registry : List (String × Provider))
    (ambient : Ambient) where
  begin_release-IsSound :
      (lease : Dict) → Keeps (IsSound h) (begin_release h root registry ambient lease)
  unfolding begin_release
  begin_release-IsSound lease = search store_rules

  record_outcome-IsSound :
      (id : String) (cleanup absence : Dict) (errors : List Value)
      → Keeps (IsSound h) (record_outcome h root registry ambient id cleanup absence errors)
  unfolding record_outcome
  record_outcome-IsSound id cleanup absence errors = search store_rules depth 9

  finish_release-IsSound :
      (id : String) (provider : Provider) (lease : Dict)
      → Keeps (IsSound h) (finish_release h root registry ambient id provider lease)
  unfolding finish_release
  finish_release-IsSound id provider lease = search (store_rules, record_outcome-IsSound) depth 9

  release_first-IsSound :
      (id : String) (lease : Dict)
      → Keeps (IsSound h) (release_first h root registry ambient id lease)
  unfolding release_first
  release_first-IsSound id lease =
      search (store_rules, begin_release-IsSound, finish_release-IsSound)

  release_again-IsSound :
      (id : String) (lease : Dict)
      → Keeps (IsSound h) (release_again h root registry ambient id lease)
  unfolding release_again
  release_again-IsSound id lease = search store_rules

  release_locked-IsSound :
      (id : String) → Keeps (IsSound h) (release_locked h root registry ambient id)
  unfolding release_locked
  release_locked-IsSound id = search (store_rules, release_again-IsSound, release_first-IsSound)

  -- `release` keeps the lease directory sound.
  pub release-IsSound : (id : String) → Keeps (IsSound h) (release h root registry ambient id)
  unfolding release
  release-IsSound id = search (store_rules, release_locked-IsSound)

  new_lease-IsSound :
      (plan : Dict) (ttl : ℤ) → Keeps (IsSound h) (new_lease h root registry ambient plan ttl)
  unfolding new_lease
  new_lease-IsSound plan ttl = search store_rules

  register_lease-IsSound :
      (provider : Provider) (plan : Dict) (ttl : ℤ)
      → Keeps (IsSound h) (register_lease h root registry ambient provider plan ttl)
  unfolding register_lease
  register_lease-IsSound provider plan ttl = search (store_rules, new_lease-IsSound) depth 12

  bring_up-IsSound :
      (provider : Provider) (plan : Dict) (id : String) (lease : Dict)
      → Keeps (IsSound h) (bring_up h root registry ambient provider plan id lease)
  unfolding bring_up
  bring_up-IsSound provider plan id lease = search (store_rules, mutate_all-IsSound) depth 16

  roll_back-IsSound :
      (id : String) (e : Exc) (m : String)
      → Keeps (IsSound h) (roll_back h root registry ambient id e m)
  unfolding roll_back
  roll_back-IsSound id e m = search (store_rules, release_locked-IsSound) depth 9

  start_lease-IsSound :
      (provider : Provider) (plan lease : Dict)
      → Keeps (IsSound h) (start_lease h root registry ambient provider plan lease)
  unfolding start_lease
  start_lease-IsSound provider plan lease =
      search (store_rules, bring_up-IsSound, roll_back-IsSound) depth 9

  -- `prepare` keeps the lease directory sound.
  pub prepare-IsSound :
      (compile : Dict → Result (Unit {0})) (plan : Dict) (ttl : ℤ)
      → Keeps (IsSound h) (prepare h root registry ambient compile plan ttl)
  unfolding prepare
  prepare-IsSound compile plan ttl =
      search (store_rules, register_lease-IsSound, start_lease-IsSound) depth 12

  expire_lease-IsSound : (id : String) → Keeps (IsSound h) (expire_lease h root registry ambient id)
  unfolding expire_lease
  expire_lease-IsSound id = search (store_rules, release_locked-IsSound) depth 9

  reap_lease-IsSound : (id : String) → Keeps (IsSound h) (reap_lease h root registry ambient id)
  unfolding reap_lease
  reap_lease-IsSound id = search (store_rules, expire_lease-IsSound) depth 9

  reap_all-IsSound :
      (current : ℕ) (leases : List Dict)
      → Keeps (IsSound h) (reap_all h root registry ambient current leases)
  unfolding reap_all
  reap_all-IsSound current [] = search store_rules
  reap_all-IsSound current (lease ∷ leases) =
      Keeps-if (is_str "released" (get "state" lease)) _ _ (reap_all-IsSound current leases) (
        Keeps-bind _ _ (Keeps-lift _) λ expires.
          Keeps-bind _ _ (Keeps-if _ _ _ (reap_lease-IsSound _) (Keeps-pure _))
            λ done. Keeps-bind _ _ (reap_all-IsSound current leases) λ others. Keeps-pure _)

  reap_expired-IsSound :
      (current : ℕ) → Keeps (IsSound h) (reap_expired h root registry ambient current)
  unfolding reap_expired
  reap_expired-IsSound current = search (store_rules, reap_all-IsSound)

  -- Whatever the providers do, each public operation of the manager keeps the invariant that every
  -- file of the lease directory holds a valid lease of the file's own name, also where it raises.
  pub manager-IsSound :
      (compile : Dict → Result (Unit {0})) (plan : Dict) (ttl : ℤ) (id : String) (current : ℕ)
      (disk : Disk)
      → IsSound h disk
      → IsSound h (prepare h root registry ambient compile plan ttl disk).1
        × IsSound h (release h root registry ambient id disk).1
        × IsSound h (recover h root registry ambient id disk).1
        × IsSound h (reap_expired h root registry ambient current disk).1
  unfolding recover
  manager-IsSound compile plan ttl id current disk s = (
    (prepare-IsSound compile plan ttl).after disk s,
    (release-IsSound id).after disk s,
    (release-IsSound id).after disk s,
    (reap_expired-IsSound current).after disk s,
  )
