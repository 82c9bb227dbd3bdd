-- ===== src/Isolation/Store.antt =====
-- isolation/lease_store.py: the files of the lease store, and its methods.
mod State
pub use State.{File, Disk, damaged, json}
pub mod Files
pub mod Sound
use chaos_atlas.Prelude.{
  String, ◌≡◌, refl, Bool, true, false, not, ◌&&◌, ◌||◌, Option, none, some, List, [], ◌∷◌, ◌==◌,
  if◌then◌else◌, format, join, nonempty, member, text_leb,
}
use chaos_atlas.Result
use chaos_atlas.Result.{
  Exc, Result, ok, err, value_error, runtime_error, file_exists_error, os_error, attribute_error,
}
use chaos_atlas.Exec.{
  Exec, pure, raise, lift, modify, ◌>>=◌, ◌>>◌, raise_when, only_if, try_else, map_exec,
}
use chaos_atlas.Table.{lookup, insert, remove, names}
use chaos_atlas.Value.{
  Value, null, bool, int, str, arr, obj, Dict, end, field, get, get_or, put, item, is_str, one_of,
  text, text_of, as_dict,
}
use chaos_atlas.Isolation.Identity.{is_safe_id}
use chaos_atlas.Isolation.Contracts.{Hasher, active_lease_states, validate_lease, validate_audit}

-- `_atomic_write`: the file is replaced whole, or an `OSError` leaves it as it was.
unfoldable pub write_lease : String → Value → Exec Disk (Unit {0})
write_lease id value disk =
    if disk.writes (format ("leases/" ∷ id ∷ [])) value
    then (ok tt, record disk { leases = insert id (json value) disk.leases })
    else (err os_error "cannot write", disk)

unfoldable pub write_audit : String → Value → Exec Disk (Unit {0})
write_audit path value disk =
    if disk.writes (format ("audits/" ∷ path ∷ [])) value
    then (ok tt, record disk { audits = insert path value disk.audits })
    else (err os_error "cannot write", disk)

unfoldable pub write_claim : Value → Exec Disk (Unit {0})
write_claim value disk =
    if disk.writes "active-l3" value
    then (ok tt, record disk { claim = some (json value) })
    else (err os_error "cannot write", disk)

-- `os.open(path, O_CREAT | O_EXCL)`: the new file is empty.
unfoldable pub create_new : String → Exec Disk (Unit {0})
create_new id disk = elim (lookup id disk.leases) [
  | none ↦
      if disk.creates id
      then (ok tt, record disk { leases = insert id damaged disk.leases })
      else (err os_error "cannot create", disk)
  | some _ ↦ (err file_exists_error (format ("lease already exists: " ∷ id ∷ [])), disk)
]

unlink_lease : String → Disk → Disk
unlink_lease id disk = record disk { leases = remove id disk.leases }

-- `json.loads` of the claim on the whole machine, and its `.get`
unfoldable pub read_claim : File → Result Dict
read_claim damaged = err runtime_error "whole-machine L3 claim is damaged"
read_claim (json v) = as_dict v

-- `active.get('lease_id', 'unknown')`
abbrev claim_owner : Dict → String
claim_owner active = text (get_or "lease_id" active (str "unknown"))

abbrev pub claim_of : String → Value → Value → Value → Dict
claim_of store_root id provider created_at = field "lease_id" id (
    field "store_root" (str store_root)
      (field "provider" provider (field "created_at" created_at end)))

-- `sorted(self.leases.glob("*.json"))`: the names in the order of their paths
file_name : String → String
file_name id = format (id ∷ ".json" ∷ [])

insert_path : String → List String → List String
unfolding file_name
insert_path s [] = s ∷ []
insert_path s (t ∷ ts) =
    let rest = insert_path s ts in
    if text_leb (file_name s) (file_name t) then s ∷ t ∷ ts else t ∷ rest

unfoldable pub sorted_paths : List String → List String
unfolding insert_path
sorted_paths [] = []
sorted_paths (s ∷ ss) = insert_path s (sorted_paths ss)

module _ (h : Hasher) (root : String) where
  unfoldable pub save : Dict → Bool → Exec Disk Dict
  unfolding write_lease create_new unlink_lease
  save lease require_new = do
    errors ← lift (validate_lease h lease)
    raise_when (nonempty errors) value_error (format ("invalid lease: " ∷ join "; " errors ∷ []))
    let id = text (get "lease_id" lease)
    only_if require_new (create_new id)
    try_else (write_lease id (obj lease)) (λ _. pure lease)
        λ e m. only_if require_new (modify (unlink_lease id)) >> raise e m

  unfoldable pub read_lease : String → Option File → Result Dict
  read_lease id none = err value_error (format ("lease unavailable or damaged: " ∷ id ∷ []))
  read_lease id (some damaged) =
      err value_error (format ("lease unavailable or damaged: " ∷ id ∷ []))
  read_lease id (some (json (obj lease))) = Result.◌>>=◌ (validate_lease h lease) (λ errors.
      if nonempty errors
      then err value_error
          (format ("lease integrity failure: " ∷ id ∷ ": " ∷ join "; " errors ∷ []))
      else ok lease)
  read_lease id (some (json _)) = err value_error (format ("lease is not an object: " ∷ id ∷ []))

  unfoldable pub load : String → Exec Disk Dict
  unfolding read_lease
  load id disk =
      if is_safe_id id
      then (read_lease id (lookup id disk.leases), disk)
      else (err value_error (format ("unsafe lease identity: " ∷ id ∷ [])), disk)

  unfoldable pub list : Exec Disk (List Dict)
  unfolding load
  list disk = map_exec load (sorted_paths (names disk.leases)) disk

  unfoldable pub matches : Option String → String → Dict → Bool
  matches none key lease = true
  matches (some wanted) key lease = is_str wanted (get key lease)

  unfoldable pub keep_active : Option String → Option String → List Dict → Result (List Dict)
  unfolding matches
  keep_active project provider [] = ok []
  keep_active project provider (lease ∷ rest) =
      let kept = keep_active project provider rest in
      Result.◌>>=◌ (one_of active_lease_states (get "state" lease)) (λ is_active.
        if is_active && (matches project "project_id" lease && matches provider "provider" lease)
        then Result.◌>>=◌ kept (λ ls. ok (lease ∷ ls))
        else kept)

  unfoldable pub active : Option String → Option String → Exec Disk (List Dict)
  unfolding list keep_active
  active project provider = do leases ← list; lift (keep_active project provider leases)

  -- the refusal that `claim_l3` and `assert_l3_available` share
  unfoldable pub assert_l3_available : Exec Disk (Unit {0})
  unfolding read_claim
  assert_l3_available disk = elim disk.claim [
    | none ↦ (ok tt, disk)
    | some file ↦ (
      Result.◌>>=◌ (read_claim file) (λ owner.
          err runtime_error (
            format
              ("an L3 Minikube isolation lease is already active: " ∷ claim_owner owner ∷ []))),
      disk,
    )
  ]

  unfoldable pub claim_l3 : Dict → Exec Disk (Unit {0})
  unfolding assert_l3_available write_claim
  claim_l3 lease = do
    assert_l3_available
    id ← lift (item "lease_id" lease)
    provider ← lift (item "provider" lease)
    created_at ← lift (item "created_at" lease)
    write_claim (obj (claim_of root id provider created_at))

  unfoldable pub release_l3_claim : String → Exec Disk (Unit {0})
  unfolding read_claim
  release_l3_claim id disk = elim disk.claim [
    | none ↦ (ok tt, disk)
    | some file ↦ elim (read_claim file) [
      | err e m ↦ (err e m, disk)
      | ok owner ↦
          if is_str id (get "lease_id" owner) && disk.resolve (text_of "store_root" owner) == root
          then (ok tt, record disk { claim = none })
          else (err runtime_error "refusing to release another isolation store's L3 claim", disk)
    ]
  ]

  unfoldable pub save_audit : Dict → String → Exec Disk (Unit {0})
  unfolding write_audit
  save_audit audit name = do
    let errors = validate_audit h audit
    raise_when (nonempty errors) value_error
        (format ("invalid isolation audit: " ∷ join "; " errors ∷ []))
    let id = text_of "lease_id" audit
    raise_when (not (is_safe_id id) || not (is_safe_id name)) value_error
        "unsafe isolation audit identity"
    write_audit (format (id ∷ "/" ∷ name ∷ [])) (obj audit)

  -- `with creation_lock(): body`; another process may hold the lock.
  unfoldable pub creation_lock : {A : Type 0} → Exec Disk A → Exec Disk A
  creation_lock body disk =
      if disk.creation_held
      then (err runtime_error "isolation lease creation is already in progress", disk)
      else body disk

  -- `with operation_lock(id, blocking=…): body`; a blocking lock waits until it is free.
  unfoldable pub operation_lock : {A : Type 0} → String → Bool → Exec Disk A → Exec Disk A
  operation_lock id blocking body disk =
      if not (is_safe_id id)
      then (err value_error (format ("unsafe lease identity: " ∷ id ∷ [])), disk)
      else if not blocking && member id disk.held
      then (
        err runtime_error
            (format ("isolation lease operation for " ∷ id ∷ " is already in progress" ∷ [])),
        disk,
      )
      else body disk
