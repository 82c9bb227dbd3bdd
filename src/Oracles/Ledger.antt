-- ===== src/Oracles/Ledger.antt =====
-- `RecoveryLedger` of oracles/recovery_ledger.py: one file per run, under the store's locks.
pub mod Document
pub mod Change
pub mod Files
pub mod Exclusive
pub mod Operations
pub mod Resolved
pub mod Closed
mod Tests
use chaos_atlas.Prelude.{
  String, Bool, true, false, not, ◌&&◌, ◌||◌, Option, none, some, List, [], ◌∷◌, ◌==◌,
  if◌then◌else◌, format, member, take_text, pos,
}
use chaos_atlas.Result.{
  Result, ok, err, value_error, type_error, runtime_error, file_exists_error, os_error,
}
use chaos_atlas.Exec.{Exec, pure, raise, lift, ◌>>=◌, ◌>>◌, raise_when}
use chaos_atlas.Table.{lookup, insert, names}
use chaos_atlas.Value.{Value, str, int, obj, Dict, end, get, item, is_str, value_eq, dict_of}
use chaos_atlas.Isolation.Identity.{is_safe_id}
use chaos_atlas.Isolation.Contracts.{Hasher, with_hash}
use chaos_atlas.Isolation.Store.{File, damaged, json}
use chaos_atlas.Oracles.Ledger.Document.{
  ledger_schema, validate_ledger, operations_of, intended, transitioned, all_resolved, closed,
  Split, rebound,
}

pub record Ledgers : Type 0 where
  pub ledgers : List (String × File)  -- ledgers/<run_id>.json
  pub accepts_writes : Bool
  pub locked : List String  -- locks that another process holds

unfoldable pub write_ledger : String → Value → Exec Ledgers (Unit {0})
write_ledger run_id value s =
    if s.accepts_writes
    then (ok tt, record s { ledgers = insert run_id (json value) s.ledgers })
    else (err os_error "cannot write", s)

-- `LeaseStore.operation_lock` of the ledger's store
unfoldable pub store_lock : {A : Type 0} → String → Exec Ledgers A → Exec Ledgers A
store_lock id body s =
    if not (is_safe_id id)
    then (err value_error (format ("unsafe lease identity: " ∷ id ∷ [])), s)
    else if member id s.locked
    then (
      err runtime_error
          (format ("isolation lease operation for " ∷ id ∷ " is already in progress" ∷ [])),
      s,
    )
    else body s

-- `operation`
unfoldable pub operation : {A : Type 0} → String → Exec Ledgers A → Exec Ledgers A
operation run_id body s =
    if not (is_safe_id run_id)
    then (err value_error "unsafe transaction run identity", s)
    else store_lock run_id body s

module _ (h : Hasher) where
  unfoldable pub read_ledger : String → Option File → Result Dict
  read_ledger run_id (some (json (obj value))) =
      chaos_atlas.Result.◌>>=◌ (validate_ledger h value) (λ _.
        chaos_atlas.Result.◌>>=◌ (item "run_id" value) (λ owner.
          if is_str run_id owner
          then ok value
          else err value_error "transaction recovery run identity mismatch"))
  read_ledger run_id (some (json _)) = err value_error "transaction ledger integrity failure"
  read_ledger run_id _ = err value_error "transaction recovery ledger unavailable or corrupt"

  -- `load`; an unsafe run identity is caught with the other `ValueError`s of reading
  unfoldable pub load_ledger : String → Exec Ledgers Dict
  load_ledger run_id s =
      if is_safe_id run_id
      then (read_ledger run_id (lookup run_id s.ledgers), s)
      else (err value_error "transaction recovery ledger unavailable or corrupt", s)

  -- `_path(value['run_id'])`
  abbrev pub path_of : Value → Result String
  path_of (str run_id) =
      if is_safe_id run_id then ok run_id else err value_error "unsafe transaction run identity"
  path_of _ = err type_error "expected string"

  unfoldable pub save_ledger : Dict → Exec Ledgers Dict
  save_ledger draft = do
    let value = with_hash h draft "ledger_sha256"
    _ ← lift (validate_ledger h value)
    run_id ← lift (path_of (get "run_id" value))
    write_ledger run_id (obj value)
    pure value

  unfoldable pub refuse_active : String → List String → Exec Ledgers (Unit {0})
  refuse_active project_id [] = pure tt
  refuse_active project_id (run_id ∷ rest) = do
    let others = refuse_active project_id rest
    existing ← load_ledger run_id
    raise_when
        (is_str project_id (get "project_id" existing)
          && is_str "active" (get "lifecycle" existing))
        value_error "project has an active transaction; recover it before preparing another"
    others

  abbrev pub fresh_ledger : String → String → String → String → Dict → Dict
  fresh_ledger run_id project_id attempt_id contract_sha256 binding = dict_of (
      ("schema_version", str ledger_schema)
      ∷ ("run_id", str run_id)
      ∷ ("attempt_id", str attempt_id)
      ∷ ("project_id", str project_id)
      ∷ ("lifecycle", str "active")
      ∷ ("contract_sha256", str contract_sha256)
      ∷ ("binding", obj binding)
      ∷ ("operations", obj end)
      ∷ ("sequence", int (pos 0))
      ∷ [])

  -- the part of `create` under the project's lock
  unfoldable pub create_locked : String → String → String → String → Dict → Exec Ledgers Dict
  create_locked run_id project_id attempt_id contract_sha256 binding s =
      (refuse_active project_id (names s.ledgers)
          >> save_ledger (fresh_ledger run_id project_id attempt_id contract_sha256 binding))
        s

  abbrev pub project_lock : String → String
  project_lock project_id =
      format ("project-" ∷ take_text 48 (h.canonical_hash (str project_id)) ∷ [])

  unfoldable pub create : String → String → String → String → Dict → Exec Ledgers Dict
  create run_id project_id attempt_id contract_sha256 binding s =
      if not (is_safe_id run_id)
      then (err value_error "unsafe transaction run identity", s)
      else elim (lookup run_id s.ledgers) [
        | some _ ↦ (
          err file_exists_error "existing transaction requires recovery; cannot prepare again",
          s,
        )
        | none ↦
            store_lock (project_lock project_id)
              (create_locked run_id project_id attempt_id contract_sha256 binding) s
      ]

  unfoldable pub assert_binding : String → Dict → String → Exec Ledgers Dict
  assert_binding run_id binding contract_sha256 = do
    value ← load_ledger run_id
    bound ← lift (item "binding" value)
    contract ← lift (item "contract_sha256" value)
    raise_when (not (value_eq bound (obj binding)) || not (is_str contract_sha256 contract))
        value_error "recovery target, principal or contract identity mismatch"
    pure value

  -- Reading a ledger, changing it and saving it.
  unfoldable pub amend : String → (Dict → Result Dict) → Exec Ledgers Dict
  amend run_id change = do value ← load_ledger run_id; next ← lift (change value); save_ledger next

  unfoldable pub intent : String → String → String → String → Exec Ledgers Dict
  intent run_id operation_id object_type marker_sha256 =
      amend run_id (intended operation_id object_type marker_sha256)

  unfoldable pub transition : String → String → String → Dict → Exec Ledgers Dict
  transition run_id operation_id state evidence =
      amend run_id (transitioned operation_id state evidence)

  unfoldable pub cleanup_confirmed : String → Exec Ledgers Bool
  cleanup_confirmed run_id = do
    value ← load_ledger run_id
    operations ← lift (operations_of value)
    lift (all_resolved operations)

  unfoldable pub close_run : String → Exec Ledgers Dict
  close_run run_id = do
    value ← load_ledger run_id
    confirmed ← cleanup_confirmed run_id
    raise_when (not confirmed) value_error "unresolved transaction cannot close"
    next ← lift (closed value)
    save_ledger next

  unfoldable pub rebind_local_tunnel :
      (Value → Result Split) → String → Dict → String → Exec Ledgers Dict
  rebind_local_tunnel urlsplit run_id binding contract_sha256 =
      amend run_id (rebound urlsplit binding contract_sha256)
