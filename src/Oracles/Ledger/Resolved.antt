-- ===== src/Oracles/Ledger/Resolved.antt =====
-- The operations of a closed transaction, as `_validate` of oracles/recovery_ledger.py leaves them.
use chaos_atlas.Prelude.{String, ◌≡◌, Bool, true, false, not, ◌&&◌, arith}
use chaos_atlas.Result.{ok, >>-eq-ok}
use chaos_atlas.Value.{Value, obj, Dict, end, field, get, is_str, in_tuple}
use chaos_atlas.Isolation.Contracts.{Hasher}
use chaos_atlas.Oracles.Ledger.{Ledgers, load_ledger}
use chaos_atlas.Oracles.Ledger.Document.{
  resolved_states, validate_fields, validate_entry, validate_entries, validate_operations,
  validate_ledger,
}
use chaos_atlas.Oracles.Ledger.Files.{load_ledger-ok}

abbrev pub EntriesResolved : Dict → Type 0
EntriesResolved end = Unit
EntriesResolved (field id (obj entry) d) =
    (in_tuple resolved_states (get "state" entry) ≡ true) × EntriesResolved d
EntriesResolved (field id v d) = ⊥

-- Every operation of the ledger was never sent, or its object is confirmed to be absent.
abbrev pub Resolved : Value → Type 0
Resolved (obj operations) = EntriesResolved operations
Resolved v = ⊥

pub settled : (b : Bool) → not b ≡ false → b ≡ true
settled b h = ground arith

both_false : (a b : Bool) → a ≡ true → (a && not b) ≡ false → b ≡ true
both_false a b p q = ground arith

pub validate_fields-settled :
    (lifecycle : Value) (entry : Dict)
    → validate_fields lifecycle entry ≡ ok tt
    → is_str "closed" lifecycle ≡ true
    → in_tuple resolved_states (get "state" entry) ≡ true
unfolding validate_fields
validate_fields-settled lifecycle entry p c = ground arith

entries_resolved :
    (lifecycle : Value) (operations : Dict)
    → validate_entries lifecycle operations ≡ ok tt
    → is_str "closed" lifecycle ≡ true
    → EntriesResolved operations
entries_resolved lifecycle end p c = tt
entries_resolved lifecycle (field id (obj entry) d) p c =
    let (first, rest) = >>-eq-ok (validate_entry lifecycle id (obj entry)) _ p in
    let (_, fields) = >>-eq-ok _ _ first in
    (validate_fields-settled lifecycle entry fields c, entries_resolved lifecycle d rest c)
entries_resolved lifecycle (field id _ d) p c = cc

operations-Resolved :
    (lifecycle operations : Value)
    → validate_operations lifecycle operations ≡ ok tt
    → is_str "closed" lifecycle ≡ true
    → Resolved operations
operations-Resolved lifecycle (obj d) p c = entries_resolved lifecycle d p c
operations-Resolved lifecycle _ p c = cc

module _ (h : Hasher) where
  pub validate_ledger-Resolved :
      (value : Dict)
      → validate_ledger h value ≡ ok tt
      → is_str "closed" (get "lifecycle" value) ≡ true
      → Resolved (get "operations" value)
  unfolding validate_ledger
  validate_ledger-Resolved value p c =
      operations-Resolved (get "lifecycle" value) (get "operations" value) (ground arith) c

  -- A ledger that loads as closed has no unresolved operation.
  pub load_ledger-Resolved :
      (run_id : String) (s : Ledgers) (value : Dict)
      → (load_ledger h run_id s).0 ≡ ok value
      → is_str "closed" (get "lifecycle" value) ≡ true
      → Resolved (get "operations" value)
  load_ledger-Resolved run_id s value p c =
      let (_, _, holds) = load_ledger-ok h run_id s value p in
      validate_ledger-Resolved value holds.1 c
