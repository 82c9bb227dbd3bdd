-- ===== src/Oracles/Ledger/Tests.antt =====
-- The recovery ledger run on a directory of one project.
use chaos_atlas.Prelude.{
  String, ◌≡◌, refl, ap, Bool, true, false, Option, none, some, List, [], ◌∷◌, pos, decimal,
}
use chaos_atlas.Result.{Result, ok, err, value_error}
use chaos_atlas.Value.{Value, str, int, obj, Dict, end, get, put, dict_of, is_str}
use chaos_atlas.Isolation.Contracts.{Hasher}
use chaos_atlas.Isolation.Store.{json}
use chaos_atlas.Oracles.Ledger.{
  Ledgers, load_ledger, create, intent, transition, cleanup_confirmed, close_run,
  rebind_local_tunnel,
}
use chaos_atlas.Oracles.Ledger.Document.{Split, ledger_schema}
use chaos_atlas.Oracles.Ledger.Exclusive.{IsSound}
use chaos_atlas.Oracles.Ledger.Operations.{ledger-IsSound}
use chaos_atlas.Oracles.Ledger.Resolved.{Resolved}
use chaos_atlas.Oracles.Ledger.Closed.{closed_final, close_run-Resolved}

abbrev toy : Hasher
toy = record { canonical_hash = λ v. "0"; hex = λ v. refl }

abbrev binding : Dict
binding = dict_of (
    ("lease_id", str "lease-1")
    ∷ ("cluster_uid", str "c")
    ∷ ("namespace_uid", str "n")
    ∷ ("namespace", str "shop")
    ∷ ("context", str "ctx")
    ∷ ("service_uid", str "s")
    ∷ ("service", str "front")
    ∷ ("origin", str "http://127.0.0.1:8080")
    ∷ ("principal_id", str "p")
    ∷ ("project_revision", str "r")
    ∷ ("service_spec_sha256", str "h")
    ∷ [])

abbrev ledger : String → Dict → Dict
ledger lifecycle operations = dict_of (
    ("schema_version", str ledger_schema)
    ∷ ("run_id", str "run-1")
    ∷ ("attempt_id", str "a1")
    ∷ ("project_id", str "shop")
    ∷ ("lifecycle", str lifecycle)
    ∷ ("contract_sha256", str "c1")
    ∷ ("binding", obj binding)
    ∷ ("operations", obj operations)
    ∷ ("sequence", int (pos 0))
    ∷ ("ledger_sha256", str "0")
    ∷ [])

abbrev empty_directory : Ledgers
empty_directory = record { ledgers = []; accepts_writes = true; locked = [] }

abbrev directory : Dict → Ledgers
directory value = record {
  ledgers = ("run-1", json (obj value)) ∷ [];
  accepts_writes = true;
  locked = [];
}

abbrev first_run : Ledgers
first_run = directory (ledger "active" end)

created :
    create toy "run-1" "shop" "a1" "c1" binding empty_directory
    ≡ (ok (ledger "active" end), first_run)
unfolding load_ledger get is_str chaos_atlas.Oracles.Ledger.read_ledger
    chaos_atlas.Oracles.Ledger.Document.validate_fields
    chaos_atlas.Oracles.Ledger.Document.validate_ledger chaos_atlas.Value.get_or
    chaos_atlas.Value.has chaos_atlas.Value.item chaos_atlas.Value.one_of chaos_atlas.Value.in_tuple
    chaos_atlas.Value.put chaos_atlas.Value.without chaos_atlas.Value.truthy chaos_atlas.Value.text
    chaos_atlas.Value.text_of chaos_atlas.Isolation.Contracts.verify_hash
    chaos_atlas.Isolation.Identity.is_safe_id chaos_atlas.Table.lookup
    chaos_atlas.Isolation.Secrets.sensitive_paths chaos_atlas.Isolation.Secrets.flagged
    chaos_atlas.Isolation.Secrets.sensitive_key chaos_atlas.Isolation.Secrets.sensitive_value
    chaos_atlas.Isolation.Secrets.is_blank chaos_atlas.Isolation.Secrets.sorted_set decimal create
    chaos_atlas.Exec.◌>>=◌ chaos_atlas.Oracles.Ledger.save_ledger
    chaos_atlas.Oracles.Ledger.write_ledger chaos_atlas.Oracles.Ledger.store_lock
    chaos_atlas.Oracles.Ledger.create_locked chaos_atlas.Oracles.Ledger.refuse_active
    chaos_atlas.Isolation.Contracts.with_hash chaos_atlas.Table.insert chaos_atlas.Prelude.take_text
created = refl

-- a second transaction of the project is refused
second :
    (create toy "run-2" "shop" "a2" "c1" binding first_run).0
    ≡ err value_error "project has an active transaction; recover it before preparing another"
unfolding load_ledger get is_str chaos_atlas.Oracles.Ledger.read_ledger
    chaos_atlas.Oracles.Ledger.Document.validate_fields
    chaos_atlas.Oracles.Ledger.Document.validate_ledger chaos_atlas.Value.get_or
    chaos_atlas.Value.has chaos_atlas.Value.item chaos_atlas.Value.one_of chaos_atlas.Value.in_tuple
    chaos_atlas.Value.put chaos_atlas.Value.without chaos_atlas.Value.truthy chaos_atlas.Value.text
    chaos_atlas.Value.text_of chaos_atlas.Isolation.Contracts.verify_hash
    chaos_atlas.Isolation.Identity.is_safe_id chaos_atlas.Table.lookup
    chaos_atlas.Isolation.Secrets.sensitive_paths chaos_atlas.Isolation.Secrets.flagged
    chaos_atlas.Isolation.Secrets.sensitive_key chaos_atlas.Isolation.Secrets.sensitive_value
    chaos_atlas.Isolation.Secrets.is_blank chaos_atlas.Isolation.Secrets.sorted_set decimal create
    chaos_atlas.Exec.◌>>=◌ chaos_atlas.Oracles.Ledger.save_ledger
    chaos_atlas.Oracles.Ledger.write_ledger chaos_atlas.Oracles.Ledger.store_lock
    chaos_atlas.Oracles.Ledger.create_locked chaos_atlas.Oracles.Ledger.refuse_active
    chaos_atlas.Isolation.Contracts.with_hash chaos_atlas.Table.insert chaos_atlas.Prelude.take_text
second = refl

empty-IsSound : IsSound toy empty_directory
unfolding chaos_atlas.Table.lookup
empty-IsSound = record { stored = λ id file p. cc; exclusive = λ i j v w p q a b e. cc }

abbrev unread : Value → Result Split
unread origin = err value_error "no origin"

first_run-IsSound : IsSound toy first_run
first_run-IsSound =
    rw (← ap (λ (x : Result Dict × Ledgers). x.1) created)
      (ledger-IsSound toy unread "run-1" "shop" "a1" "c1" "" "" "" "" binding end empty_directory
        empty-IsSound).0

ledger-IsSound_example :
    IsSound toy (create toy "run-1" "shop" "a2" "c1" binding first_run).1
    × IsSound toy (intent toy "run-1" "op-1" "order" "m" first_run).1
    × IsSound toy (transition toy "run-1" "op-1" "outcome_unknown" end first_run).1
    × IsSound toy (close_run toy "run-1" first_run).1
    × IsSound toy (rebind_local_tunnel toy unread "run-1" binding "c1" first_run).1
ledger-IsSound_example =
    ledger-IsSound toy unread "run-1" "shop" "a2" "c1" "op-1" "order" "m" "outcome_unknown" binding
      end first_run first_run-IsSound

abbrev absent : Dict
absent = dict_of (("state", str "absent_confirmed") ∷ ("absence_sha256", str "e") ∷ [])

abbrev settled_run : Dict
settled_run = ledger "closed" (dict_of (("op-1", obj absent) ∷ []))

loads : (load_ledger toy "run-1" (directory settled_run)).0 ≡ ok settled_run
unfolding load_ledger get is_str chaos_atlas.Oracles.Ledger.read_ledger
    chaos_atlas.Oracles.Ledger.Document.validate_fields
    chaos_atlas.Oracles.Ledger.Document.validate_ledger chaos_atlas.Value.get_or
    chaos_atlas.Value.has chaos_atlas.Value.item chaos_atlas.Value.one_of chaos_atlas.Value.in_tuple
    chaos_atlas.Value.put chaos_atlas.Value.without chaos_atlas.Value.truthy chaos_atlas.Value.text
    chaos_atlas.Value.text_of chaos_atlas.Isolation.Contracts.verify_hash
    chaos_atlas.Isolation.Identity.is_safe_id chaos_atlas.Table.lookup
    chaos_atlas.Isolation.Secrets.sensitive_paths chaos_atlas.Isolation.Secrets.flagged
    chaos_atlas.Isolation.Secrets.sensitive_key chaos_atlas.Isolation.Secrets.sensitive_value
    chaos_atlas.Isolation.Secrets.is_blank chaos_atlas.Isolation.Secrets.sorted_set decimal
loads = refl

shut : is_str "closed" (get "lifecycle" settled_run) ≡ true
unfolding is_str get
shut = refl

closed_final_example :
    ¬ ((intent toy "run-1" "op-1" "order" "m" (directory settled_run)).0 ≡ ok end)
    × ¬ ((transition toy "run-1" "op-1" "intent_persisted" end (directory settled_run)).0 ≡ ok end)
closed_final_example =
    closed_final toy "run-1" (directory settled_run) settled_run loads shut "op-1" "order" "m"
      "intent_persisted" end end

abbrev open_run : Ledgers
open_run = directory (ledger "active" (dict_of (("op-1", obj absent) ∷ [])))

abbrev closed_run : Dict
closed_run = put "sequence" (int (pos 1)) (ledger "closed" (dict_of (("op-1", obj absent) ∷ [])))

closes : (close_run toy "run-1" open_run).0 ≡ ok closed_run
unfolding load_ledger get is_str chaos_atlas.Oracles.Ledger.read_ledger
    chaos_atlas.Oracles.Ledger.Document.validate_fields
    chaos_atlas.Oracles.Ledger.Document.validate_ledger chaos_atlas.Value.get_or
    chaos_atlas.Value.has chaos_atlas.Value.item chaos_atlas.Value.one_of chaos_atlas.Value.in_tuple
    chaos_atlas.Value.put chaos_atlas.Value.without chaos_atlas.Value.truthy chaos_atlas.Value.text
    chaos_atlas.Value.text_of chaos_atlas.Isolation.Contracts.verify_hash
    chaos_atlas.Isolation.Identity.is_safe_id chaos_atlas.Table.lookup
    chaos_atlas.Isolation.Secrets.sensitive_paths chaos_atlas.Isolation.Secrets.flagged
    chaos_atlas.Isolation.Secrets.sensitive_key chaos_atlas.Isolation.Secrets.sensitive_value
    chaos_atlas.Isolation.Secrets.is_blank chaos_atlas.Isolation.Secrets.sorted_set decimal
    chaos_atlas.Exec.◌>>=◌ chaos_atlas.Oracles.Ledger.save_ledger
    chaos_atlas.Oracles.Ledger.write_ledger chaos_atlas.Isolation.Contracts.with_hash
    chaos_atlas.Table.insert close_run cleanup_confirmed chaos_atlas.Oracles.Ledger.Document.closed
    chaos_atlas.Oracles.Ledger.Document.count_up chaos_atlas.Oracles.Ledger.Document.operations_of
    chaos_atlas.Oracles.Ledger.Document.all_resolved chaos_atlas.Value.as_dict
closes = refl

close_run-Resolved_example :
    (is_str "closed" (get "lifecycle" closed_run) ≡ true) × Resolved (get "operations" closed_run)
close_run-Resolved_example = close_run-Resolved toy "run-1" open_run closed_run closes
