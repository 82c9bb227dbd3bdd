-- ===== src/Oracles/Ledger/Files.antt =====
-- What loading and saving a ledger do to the files (oracles/recovery_ledger.py).
use chaos_atlas.Prelude.{
  String, ◌≡◌, refl, sym, ap, ◌∙◌, true, Option, none, some, arith, if◌then◌else◌,
}
use chaos_atlas.Result.{Exc, Result, ok, err, >>=-eq-ok}
use chaos_atlas.Exec.{Exec, lift, pure, ◌>>=◌, ◌>>◌}
use chaos_atlas.Table.{lookup, insert}
use chaos_atlas.Value.{Value, str, obj, Dict, end, field, get, item, is_str, is_str-eq}
use chaos_atlas.Isolation.Contracts.{Hasher, with_hash}
use chaos_atlas.Isolation.Store.{File, json, damaged}
use chaos_atlas.Oracles.Ledger.{
  Ledgers, read_ledger, load_ledger, save_ledger, write_ledger, path_of,
}
use chaos_atlas.Oracles.Ledger.Document.{validate_ledger}

pub item-get : (key : String) (d : Dict) (v : Value) → item key d ≡ ok v → get key d ≡ v
unfolding item get
item-get key end v p = cc
item-get key (field k w d) v p = ground (arith, item-get key d v)

module _ (h : Hasher) where
  -- The file holds the document, which is a valid ledger of the run.
  abbrev pub Holds : String → File → Dict → Type 0
  Holds run_id file value =
      (file ≡ json (obj value))
      × (validate_ledger h value ≡ ok tt)
      × (get "run_id" value ≡ str run_id)

  owned_by :
      (run_id : String) (owner : Value) (e : Exc) (m : String) (d value : Dict)
      → (if is_str run_id owner then ok d else err e m) ≡ ok value
      → (value ≡ d) × (is_str run_id owner ≡ true)
  owned_by run_id owner e m d value p = ground arith

  pub read_ledger-ok :
      (run_id : String) (file : Option File) (value : Dict)
      → read_ledger h run_id file ≡ ok value
      → (found : File) × (file ≡ some found) × Holds run_id found value
  unfolding read_ledger
  read_ledger-ok run_id (some (json (obj d))) value p =
      let (_, valid, p1) = >>=-eq-ok (validate_ledger h d) _ p in
      let (owner, found, p2) = >>=-eq-ok (item "run_id" d) _ p1 in
      let (same, owned) = owned_by run_id owner _ _ d value p2 in
      (
        json (obj d),
        refl,
        rw same (refl, valid, item-get "run_id" d owner found ∙ is_str-eq run_id owner owned),
      )
  read_ledger-ok run_id (some (json _)) value p = cc
  read_ledger-ok run_id (some damaged) value p = cc
  read_ledger-ok run_id none value p = cc

  pub load_ledger-ok :
      (run_id : String) (s : Ledgers) (value : Dict)
      → (load_ledger h run_id s).0 ≡ ok value
      → (file : File) × (lookup run_id s.ledgers ≡ some file) × Holds run_id file value
  unfolding load_ledger
  load_ledger-ok run_id s value p =
      read_ledger-ok run_id (lookup run_id s.ledgers) value (ground arith)

  pub load_ledger-same : (run_id : String) (s : Ledgers) → (load_ledger h run_id s).1 ≡ s
  unfolding load_ledger
  load_ledger-same run_id s = ground arith

  abbrev pub Saved : Dict → Ledgers → Dict → Ledgers → Type 0
  Saved draft s saved t =
      (run_id : String) × (saved ≡ with_hash h draft "ledger_sha256")
      × Holds run_id (json (obj saved)) saved
      × (t.ledgers ≡ insert run_id (json (obj saved)) s.ledgers)

  path_of-eq : (v : Value) (run_id : String) → path_of h v ≡ ok run_id → v ≡ str run_id
  path_of-eq (str s) run_id p = ground arith
  path_of-eq _ run_id p = cc

  written_by :
      (run_id : String) (value saved : Dict) (s : Ledgers)
      → (let m = write_ledger run_id (obj value) >> pure value in
          (m s).0 ≡ ok saved
          → (saved ≡ value) × ((m s).1.ledgers ≡ insert run_id (json (obj value)) s.ledgers))
  unfolding write_ledger ◌>>=◌
  written_by run_id value saved s p = ground arith

  saved_by :
      (checked : Result (Unit {0})) (place : Result String) (value saved : Dict) (s : Ledgers)
      → (let m = lift checked >>= λ _.
            lift place >>= λ run_id. write_ledger run_id (obj value) >> pure value in
          (m s).0 ≡ ok saved
          → (checked ≡ ok tt)
            × ((run_id : String) × (place ≡ ok run_id)
                × (saved ≡ value)
                × ((m s).1.ledgers ≡ insert run_id (json (obj value)) s.ledgers)))
  unfolding write_ledger ◌>>=◌
  saved_by (ok _) (ok run_id) value saved s p =
      let (same, written) = written_by run_id value saved s p in
      (refl, (run_id, refl, same, written))
  saved_by (ok _) (err e m) value saved s p = cc
  saved_by (err e m) place value saved s p = cc

  held_as :
      (run_id : String) (value saved : Dict)
      → saved ≡ value
      → validate_ledger h value ≡ ok tt
      → get "run_id" value ≡ str run_id
      → Holds run_id (json (obj saved)) saved
  held_as run_id value saved same valid named = rw same (refl, valid, named)

  pub save_ledger-ok :
      (draft saved : Dict) (s : Ledgers)
      → (save_ledger h draft s).0 ≡ ok saved
      → Saved draft s saved (save_ledger h draft s).1
  unfolding save_ledger write_ledger
  save_ledger-ok draft saved s p =
      let value = with_hash h draft "ledger_sha256" in
      let (valid, (run_id, found, same, written)) = saved_by _ _ value saved s p in
      (
        run_id,
        same,
        held_as run_id value saved same valid (path_of-eq _ run_id found),
        written ∙ ap (λ (v : Dict). insert run_id (json (obj v)) s.ledgers) (sym same),
      )

  pub save_ledger-err :
      (draft : Dict) (s : Ledgers) (e : Exc) (m : String)
      → (save_ledger h draft s).0 ≡ err e m
      → (save_ledger h draft s).1 ≡ s
  unfolding save_ledger write_ledger chaos_atlas.Exec.◌>>=◌
  save_ledger-err draft s e m p = ground arith
