-- ===== src/Isolation/Store/Files.antt =====
-- What the lease store promises of its files (isolation/lease_store.py).
use chaos_atlas.Prelude.{
  String, ◌≡◌, refl, Bool, true, false, not, none, some, if◌then◌else◌, ◌&&◌, List, [], ◌∷◌, arith,
  ◌==◌, nonempty, eq_iff,
}
use chaos_atlas.Result
use chaos_atlas.Result.{Exc, Result, ok, err, runtime_error, file_exists_error, >>=-eq-ok}
use chaos_atlas.Exec.{◌>>=◌}
use chaos_atlas.Table.{lookup, insert, lookup-insert_self, remove-insert}
use chaos_atlas.Value.{Value, obj, Dict, get, item, truthy, text, text_of, is_str, as_dict}
use chaos_atlas.Isolation.Identity.{is_safe_id}
use chaos_atlas.Isolation.Contracts.{
  Hasher, validate_lease, lease_errors, lease_tests, lease_required, missing,
}
use chaos_atlas.Isolation.Contracts.Report.{failures-nil, append-nil_right}
use chaos_atlas.Isolation.Store.{
  File, Disk, damaged, json, save, load, claim_l3, release_l3_claim, claim_of,
}

nonempty-false : (xs : List String) → nonempty xs ≡ false → xs ≡ []
nonempty-false [] h = refl
nonempty-false (x ∷ xs) h = cc

safe_of_not : (b : Bool) → not b ≡ false → b ≡ true
safe_of_not b h = ground arith

empty_unsafe : is_safe_id "" ≡ false
unfolding is_safe_id
empty_unsafe = refl

module _ (h : Hasher) where
  lease_errors-safe_id :
      (known : Bool) (lease : Dict)
      → lease_errors h known lease ≡ []
      → is_safe_id (text_of "lease_id" lease) ≡ true
  unfolding lease_errors
  lease_errors-safe_id known lease e =
      safe_of_not (is_safe_id (text_of "lease_id" lease))
        (failures-nil (lease_tests h known lease)
          (append-nil_right (missing (lease_required h) lease) _ e)).1.1.1.1.0

  accepted :
      (lease : Dict) (m : Result Bool)
      → Result.◌>>=◌ m (λ known. ok (lease_errors h known lease)) ≡ ok []
      → (known : Bool) × (lease_errors h known lease ≡ [])
  accepted lease (ok known) p = (known, cc)
  accepted lease (err e m) p = cc

  -- What `validate_lease` accepts has a safe identity.
  validate_lease-safe_id :
      (lease : Dict) → validate_lease h lease ≡ ok [] → is_safe_id (text_of "lease_id" lease) ≡ true
  unfolding validate_lease
  validate_lease-safe_id lease v =
      let (known, e) = accepted lease _ v in lease_errors-safe_id known lease e

safe_text :
    (lease : Dict)
    → is_safe_id (text_of "lease_id" lease) ≡ true
    → is_safe_id (text (get "lease_id" lease)) ≡ true
unfolding text_of
safe_text lease v = ground (arith, empty_unsafe)

module _ (h : Hasher) (root : String) where
  pub save-ok :
      (lease saved : Dict) (require_new : Bool) (disk : Disk)
      → (save h root lease require_new disk).0 ≡ ok saved
      → (saved ≡ lease)
        × (validate_lease h lease ≡ ok [])
        × (lookup (text (get "lease_id" lease)) (save h root lease require_new disk).1.leases
            ≡ some (json (obj lease)))
  unfolding save ◌>>=◌
  save-ok lease saved require_new disk p =
      let id = text (get "lease_id" lease) in
      ground (
        arith,
        lookup-insert_self id (json (obj lease)) disk.leases,
        lookup-insert_self id (json (obj lease)) (insert id damaged disk.leases),
      )

  -- A failed save changes no file.
  pub save_atomic :
      (lease : Dict) (require_new : Bool) (disk : Disk) (e : Exc) (m : String)
      → (save h root lease require_new disk).0 ≡ err e m
      → (save h root lease require_new disk).1 ≡ disk
  unfolding save ◌>>=◌
  save_atomic lease require_new disk e m p =
      ground (arith, remove-insert (text (get "lease_id" lease)) damaged disk.leases)

  -- `save` with `require_new` refuses a lease whose file is already there.
  save-exists :
      (lease : Dict) (disk : Disk) (file : File)
      → lookup (text (get "lease_id" lease)) disk.leases ≡ some file
      → ¬ ((saved : Dict) × ((save h root lease true disk).0 ≡ ok saved))
  unfolding save ◌>>=◌
  save-exists lease disk file present (saved, p) = ground arith

  load_of :
      (id : String) (lease : Dict) (disk : Disk)
      → is_safe_id id ≡ true
      → validate_lease h lease ≡ ok []
      → lookup id disk.leases ≡ some (json (obj lease))
      → load h root id disk ≡ (ok lease, disk)
  unfolding load
  load_of id lease disk safe valid stored = ground arith

  -- A lease that was saved is read back as it was.
  pub load-save :
      (lease saved : Dict) (require_new : Bool) (disk : Disk)
      → (save h root lease require_new disk).0 ≡ ok saved
      → load h root (text (get "lease_id" lease)) (save h root lease require_new disk).1
        ≡ (ok saved, (save h root lease require_new disk).1)
  load-save lease saved require_new disk p =
      let (same, valid, stored) = save-ok lease saved require_new disk p in
      rw same (
        load_of (text (get "lease_id" lease)) lease (save h root lease require_new disk).1
          (safe_text lease (validate_lease-safe_id h lease valid)) valid stored)

  -- What `load` returns stands in the file of that name, which has a safe name, and is valid.
  pub load-valid :
      (id : String) (lease : Dict) (disk : Disk)
      → (load h root id disk).0 ≡ ok lease
      → (is_safe_id id ≡ true)
        × (lookup id disk.leases ≡ some (json (obj lease)))
        × (validate_lease h lease ≡ ok [])
  unfolding load
  load-valid id lease disk p = ground arith

module _ (h : Hasher) (root other_root : String) where
  same_disk : (disk : Disk) → disk.claim ≡ none → record disk { claim = none } ≡ disk
  same_disk disk c = rw (← c) refl

  -- What a claim that succeeds leaves.
  claim_l3-ok :
      (lease : Dict) (disk : Disk)
      → (claim_l3 h root lease disk).0 ≡ ok tt
      → (disk.claim ≡ none)
        × ((claim_l3 h root lease disk).1 ≡ record disk {
          claim = some (
              json (
                obj (
                  claim_of root
                    (get "lease_id" lease)
                    (get "provider" lease)
                    (get "created_at" lease))));
        })
  unfolding claim_l3 item ◌>>=◌
  claim_l3-ok lease disk p = (ground arith, ground arith)

  store_root-claim_of :
      (i provider created : Value) → text_of "store_root" (claim_of root i provider created) ≡ root
  unfolding text_of get truthy text
  store_root-claim_of i provider created = ground (arith, eq_iff root "")

  release_l3_claim-claimed :
      (i provider created : Value) (id : String) (disk : Disk)
      → disk.resolve root ≡ root
      → release_l3_claim h other_root id
          (record disk { claim = some (json (obj (claim_of root i provider created))) })
        ≡ (if is_str id i && root == other_root then (ok tt, record disk { claim = none }) else (
          err runtime_error "refusing to release another isolation store's L3 claim",
          record disk { claim = some (json (obj (claim_of root i provider created))) },
        ))
  unfolding release_l3_claim as_dict get
  release_l3_claim-claimed i provider created id disk r =
      rw (store_root-claim_of i provider created) (rw r refl)

  -- A claim of a store at a resolved path is released by that store and for that lease alone, which
  -- brings back the disk from before the claim; for another lease or store it stays and
  -- `release_l3_claim` raises.
  pub release_l3_claim-claim_l3 :
      (lease : Dict) (id : String) (disk : Disk)
      → disk.resolve root ≡ root
      → (claim_l3 h root lease disk).0 ≡ ok tt
      → release_l3_claim h other_root id (claim_l3 h root lease disk).1 ≡ (
          if is_str id (get "lease_id" lease) && root == other_root then (ok tt, disk) else (
            err runtime_error "refusing to release another isolation store's L3 claim",
            (claim_l3 h root lease disk).1,
          ))
  release_l3_claim-claim_l3 lease id disk r p =
      let (free, shape) = claim_l3-ok lease disk p in
      rw shape (
        rw (← same_disk disk free) (
          release_l3_claim-claimed (get "lease_id" lease) (get "provider" lease)
            (get "created_at" lease) id disk r))
