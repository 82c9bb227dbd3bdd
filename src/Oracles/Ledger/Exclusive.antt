-- ===== src/Oracles/Ledger/Exclusive.antt =====
-- The invariant of the transaction directory: each file is a valid ledger of the file's own name,
-- and a project has at most one active transaction (oracles/recovery_ledger.py).
use chaos_atlas.Prelude.{
  String, ◌≡◌, refl, sym, ap, ◌∙◌, ◌⊎◌, inl, inr, Bool, true, false, some, arith, ◌==◌, eq_iff,
  Bool-cases,
}
use chaos_atlas.Result.{Result, ok, err}
use chaos_atlas.Exec.{Exec, lift, pure, ◌>>=◌, ◌>>◌}
use chaos_atlas.Exec.Keeps.{Keeps}
use chaos_atlas.Table.{lookup, insert, lookup-insert}
use chaos_atlas.Value.{str, obj, Dict, get, is_str}
use chaos_atlas.Isolation.Contracts.{Hasher, with_hash}
use chaos_atlas.Isolation.Contracts.Hashing.{get-with_hash}
use chaos_atlas.Isolation.Store.{File, json}
use chaos_atlas.Oracles.Ledger.{Ledgers, load_ledger, save_ledger, amend}
use chaos_atlas.Oracles.Ledger.Change.{Follows}
use chaos_atlas.Oracles.Ledger.Files.{
  Holds, save_ledger-ok, save_ledger-err, load_ledger-ok, load_ledger-same,
}

abbrev pub is_active : Dict → Bool
is_active value = is_str "active" (get "lifecycle" value)

module _ (h : Hasher) where
  pub record IsSound (s : Ledgers) : Type 0 where
    pub stored :
        (id : String) (file : File)
        → lookup id s.ledgers ≡ some file
        → (value : Dict) × Holds h id file value
    pub exclusive :
        (i j : String) (v w : Dict)
        → lookup i s.ledgers ≡ some (json (obj v))
        → lookup j s.ledgers ≡ some (json (obj w))
        → is_active v ≡ true
        → is_active w ≡ true
        → get "project_id" v ≡ get "project_id" w
        → i ≡ j

  -- No other run of the project of `value` is active.
  abbrev pub Alone : String → Dict → Ledgers → Type 0
  Alone run_id value s =
      (j : String) (w : Dict)
      → lookup j s.ledgers ≡ some (json (obj w))
      → is_active value ≡ true
      → is_active w ≡ true
      → get "project_id" value ≡ get "project_id" w
      → run_id ≡ j

  abbrev Looked : String → Dict → Ledgers → String → File → Type 0
  Looked run_id value s id file =
      ((run_id ≡ id) × (json (obj value) ≡ file)) ⊎ (lookup id s.ledgers ≡ some file)

  looked :
      (run_id : String) (value : Dict) (s t : Ledgers) (id : String) (file : File)
      → t.ledgers ≡ insert run_id (json (obj value)) s.ledgers
      → lookup id t.ledgers ≡ some file
      → Looked run_id value s id file
  looked run_id value s t id file same found =
      let here = ap (lookup id) (sym same) ∙ found in
      elim (Bool-cases (run_id == id)) [
        | inl e ↦ inl (
          (eq_iff run_id id).0 e,
          ground (arith, lookup-insert run_id id (json (obj value)) s.ledgers),
        )
        | inr n ↦ inr (ground (arith, lookup-insert run_id id (json (obj value)) s.ledgers))
      ]

  document : (v w : Dict) → json (obj v) ≡ json (obj w) → v ≡ w
  document v w e = cc

  apart_from :
      (run_id : String) (value : Dict) (s : Ledgers) (i j : String) (v w : Dict)
      → Alone run_id value s
      → (run_id ≡ i) × (json (obj value) ≡ json (obj v))
      → lookup j s.ledgers ≡ some (json (obj w))
      → is_active v ≡ true
      → is_active w ≡ true
      → get "project_id" v ≡ get "project_id" w
      → i ≡ j
  apart_from run_id value s i j v w alone (e, f) fj av aw p =
      let d = document value v f in
      sym e ∙ alone j w fj (ap is_active d ∙ av) aw (ap (get "project_id") d ∙ p)

  -- Saving a valid ledger that is alone.
  inserted-IsSound :
      (run_id : String) (value : Dict) (s t : Ledgers)
      → Holds h run_id (json (obj value)) value
      → t.ledgers ≡ insert run_id (json (obj value)) s.ledgers
      → Alone run_id value s
      → IsSound s
      → IsSound t
  inserted-IsSound run_id value s t holds same alone sound = record {
    stored = λ id file found. elim (looked run_id value s t id file same found) [
      | inl (e, f) ↦ (value, rw (← e, ← f) holds)
      | inr old ↦ sound.stored id file old
    ];
    exclusive = λ i j v w fi fj av aw p. elim (looked run_id value s t i (json (obj v)) same fi) [
      | inl new ↦ elim (looked run_id value s t j (json (obj w)) same fj) [
        | inl new' ↦ sym new.0 ∙ new'.0
        | inr old ↦ apart_from run_id value s i j v w alone new old av aw p
      ]
      | inr old ↦ elim (looked run_id value s t j (json (obj w)) same fj) [
        | inl new ↦ sym (apart_from run_id value s j i w v alone new old aw av (sym p))
        | inr old' ↦ sound.exclusive i j v w old old' av aw p
      ]
    ];
  }

  -- A save that fails changes nothing; one that returns saved a ledger that is alone.
  pub save_ledger-IsSound :
      (draft : Dict) (s : Ledgers)
      → ((run_id : String)
          → get "run_id" (with_hash h draft "ledger_sha256") ≡ str run_id
          → Alone run_id (with_hash h draft "ledger_sha256") s)
      → IsSound s
      → IsSound (save_ledger h draft s).1
  save_ledger-IsSound draft s alone sound = saved (save_ledger h draft s).0 refl
    where
      saved : (r : Result Dict) → (save_ledger h draft s).0 ≡ r → IsSound (save_ledger h draft s).1
      saved (ok value) p =
          let (run_id, same, holds, written) = save_ledger-ok h draft value s p in
          inserted-IsSound run_id value s (save_ledger h draft s).1 holds written
            (rw same (alone run_id (rw (← same) holds.2))) sound
      saved (err e m) p = rw (save_ledger-err h draft s e m p) sound

  pub kept_key :
      (key : String) (draft : Dict)
      → ("ledger_sha256" == key) ≡ false
      → get key (with_hash h draft "ledger_sha256") ≡ get key draft
  kept_key key draft apart = get-with_hash h draft "ledger_sha256" key apart

  same_name : (a b : String) → str a ≡ str b → a ≡ b
  same_name a b e = cc

  -- A ledger that follows a loaded one is alone, as that one was.
  follower-Alone :
      (run_id : String) (value next : Dict) (s : Ledgers)
      → (load_ledger h run_id s).0 ≡ ok value
      → Follows value next
      → IsSound s
      → (id : String) → get "run_id" (with_hash h next "ledger_sha256") ≡ str id
      → Alone id (with_hash h next "ledger_sha256") s
  follower-Alone run_id value next s loaded follows sound id named j w fj av aw p =
      let (file, found, holds) = load_ledger-ok h run_id s value loaded in
      let named' = sym (kept_key "run_id" next refl ∙ follows.same_run ∙ holds.2) ∙ named in
      let active =
        follows.stays_closed (ap (is_str "active") (sym (kept_key "lifecycle" next refl)) ∙ av) in
      let project = sym (kept_key "project_id" next refl ∙ follows.same_project) ∙ p in
      sym (same_name run_id id named')
      ∙ sound.exclusive run_id j value w (found ∙ ap some holds.0) fj active aw project

  module _ (change : Dict → Result Dict) (run_id : String) where
    pub after_change :
        (value : Dict) (r : Result Dict) (s : Ledgers)
        → change value ≡ r
        → ((next : Dict) → change value ≡ ok next → Follows value next)
        → (load_ledger h run_id s).0 ≡ ok value
        → IsSound s
        → IsSound (chaos_atlas.Exec.continue r (save_ledger h) s).1
    after_change value (ok next) s p follows loaded sound =
        save_ledger-IsSound next s
          (follower-Alone run_id value next s loaded (follows next p) sound) sound
    after_change value (err e m) s p follows loaded sound = sound

    after_load :
        (r : Result Dict) (s : Ledgers)
        → (load_ledger h run_id s).0 ≡ r
        → ((value next : Dict) → change value ≡ ok next → Follows value next)
        → IsSound s
        → IsSound (chaos_atlas.Exec.continue r (λ value. lift (change value) >>= save_ledger h) s).1
    unfolding ◌>>=◌
    after_load (ok value) s p follows sound =
        after_change value (change value) s refl (follows value) p sound
    after_load (err e m) s p follows sound = sound

    pub amend-IsSound :
        ((value next : Dict) → change value ≡ ok next → Follows value next)
        → Keeps IsSound (amend h run_id change)
    unfolding amend ◌>>=◌
    amend-IsSound follows = record {
      after = λ s sound.
          rw (load_ledger-same h run_id s)
            (after_load (load_ledger h run_id s).0 s refl follows sound);
    }
