-- ===== src/Isolation/Store/Sound.antt =====
-- The invariant of the lease directory: each file holds a valid lease of the file's own name.
use chaos_atlas.Prelude.{
  String, ◌≡◌, refl, Bool, Option, some, [], arith, ◌==◌, eq_iff, if◌then◌else◌, Bool-cases, inl,
  inr,
}
use chaos_atlas.Result.{Result, ok, err}
use chaos_atlas.Exec.{Exec, ◌>>=◌}
use chaos_atlas.Exec.Keeps.{Keeps, keeps_rules, Keeps-map_exec}
use chaos_atlas.Table.{lookup, insert, lookup-insert}
use chaos_atlas.Value.{obj, Dict, get, text}
use chaos_atlas.Isolation.Contracts.{Hasher, validate_lease}
use chaos_atlas.Isolation.Store.{
  File, Disk, damaged, json, save, load, list, active, save_audit, claim_l3, assert_l3_available,
  release_l3_claim, creation_lock, operation_lock,
}
use chaos_atlas.Isolation.Store.Files.{save-ok, save_atomic}

abbrev pub Stored : Hasher → String → File → Type 0
Stored h id file =
    (lease : Dict) × (file ≡ json (obj lease))
    × (validate_lease h lease ≡ ok [])
    × (text (get "lease_id" lease) ≡ id)

pub record IsSound (h : Hasher) (disk : Disk) : Type 0 where
  pub stored : (id : String) (file : File) → lookup id disk.leases ≡ some file → Stored h id file

module _ (h : Hasher) (root : String) where
  save-lookup :
      (lease saved : Dict) (require_new : Bool) (disk : Disk) (j : String)
      → (save h root lease require_new disk).0 ≡ ok saved
      → lookup j (save h root lease require_new disk).1.leases ≡ (
          if text (get "lease_id" lease) == j
          then some (json (obj lease))
          else lookup j disk.leases)
  unfolding save ◌>>=◌
  save-lookup lease saved require_new disk j p =
      let id = text (get "lease_id" lease) in
      ground (
        arith,
        lookup-insert id j (json (obj lease)) disk.leases,
        lookup-insert id j (json (obj lease)) (insert id damaged disk.leases),
        lookup-insert id j damaged disk.leases,
      )

  saved-IsSound :
      (lease saved : Dict) (require_new : Bool) (disk : Disk)
      → (save h root lease require_new disk).0 ≡ ok saved
      → IsSound h disk
      → IsSound h (save h root lease require_new disk).1
  saved-IsSound lease saved require_new disk p s = record {
    stored = λ j file found.
        let id = text (get "lease_id" lease) in
        let here = save-lookup lease saved require_new disk j p in
        let (_, valid, _) = save-ok h root lease saved require_new disk p in
        elim (Bool-cases (id == j)) [
          | inl e ↦ (lease, ground arith, valid, (eq_iff id j).0 e)
          | inr n ↦ s.stored j file (ground arith)
        ];
  }

  saved_kept :
      (r : Result Dict) (lease : Dict) (require_new : Bool) (disk : Disk)
      → (save h root lease require_new disk).0 ≡ r
      → IsSound h disk
      → IsSound h (save h root lease require_new disk).1
  saved_kept (ok saved) lease require_new disk p s = saved-IsSound lease saved require_new disk p s
  saved_kept (err e m) lease require_new disk p s =
      rw (save_atomic h root lease require_new disk e m p) s

  pub save-IsSound :
      (lease : Dict) (require_new : Bool) → Keeps (IsSound h) (save h root lease require_new)
  save-IsSound lease require_new = record {
    after =
        λ disk s. saved_kept (save h root lease require_new disk).0 lease require_new disk refl s;
  }

  -- An action that leaves the lease files alone keeps the invariant.
  leases_kept :
      {A : Type 0} (m : Exec Disk A)
      → ((disk : Disk) → (m disk).1.leases ≡ disk.leases)
      → Keeps (IsSound h) m
  leases_kept m same = record {
    after = λ disk s. record { stored = λ j file. rw (same disk) (s.stored j file) };
  }

  pub load-IsSound : (id : String) → Keeps (IsSound h) (load h root id)
  unfolding load
  load-IsSound id = leases_kept (load h root id) (λ disk. ground arith)

  pub list-IsSound : Keeps (IsSound h) (list h root)
  unfolding list
  list-IsSound = record {
    after = λ disk s. (Keeps-map_exec (load h root) _ load-IsSound).after disk s;
  }

  pub active-IsSound :
      (project provider : Option String) → Keeps (IsSound h) (active h root project provider)
  unfolding active
  active-IsSound project provider = search (keeps_rules, list-IsSound)

  pub save_audit-IsSound :
      (audit : Dict) (name : String) → Keeps (IsSound h) (save_audit h root audit name)
  unfolding save_audit ◌>>=◌
  save_audit-IsSound audit name = leases_kept (save_audit h root audit name) (λ disk. ground arith)

  pub assert_l3_available-IsSound : Keeps (IsSound h) (assert_l3_available h root)
  unfolding assert_l3_available
  assert_l3_available-IsSound = leases_kept (assert_l3_available h root) (λ disk. ground arith)

  pub claim_l3-IsSound : (lease : Dict) → Keeps (IsSound h) (claim_l3 h root lease)
  unfolding claim_l3 ◌>>=◌
  claim_l3-IsSound lease = leases_kept (claim_l3 h root lease) (λ disk. ground arith)

  pub release_l3_claim-IsSound : (id : String) → Keeps (IsSound h) (release_l3_claim h root id)
  unfolding release_l3_claim
  release_l3_claim-IsSound id = leases_kept (release_l3_claim h root id) (λ disk. ground arith)

  pub creation_lock-IsSound :
      {A : Type 0} (body : Exec Disk A)
      → Keeps (IsSound h) body
      → Keeps (IsSound h) (creation_lock h root body)
  unfolding creation_lock
  creation_lock-IsSound body kb = record { after = λ disk s. ground (arith, kb.after disk s) }

  pub operation_lock-IsSound :
      {A : Type 0} (id : String) (blocking : Bool) (body : Exec Disk A)
      → Keeps (IsSound h) body
      → Keeps (IsSound h) (operation_lock h root id blocking body)
  unfolding operation_lock
  operation_lock-IsSound id blocking body kb = record {
    after = λ disk s. ground (arith, kb.after disk s);
  }

pub ruleset store_rules = (
  keeps_rules, save-IsSound, load-IsSound, list-IsSound, active-IsSound, save_audit-IsSound,
  assert_l3_available-IsSound, claim_l3-IsSound, release_l3_claim-IsSound, creation_lock-IsSound,
  operation_lock-IsSound,
)
