-- ===== src/Oracles/Ledger/Operations.antt =====
-- Every operation of `RecoveryLedger` keeps the invariant of the transaction directory.
use chaos_atlas.Prelude.{
  String, ◌≡◌, refl, sym, ap, ◌∙◌, ◌⊎◌, inl, inr, Bool, true, false, not, ◌&&◌, some, List, [], ◌∷◌,
  arith, eq_iff, member,
}
use chaos_atlas.Result.{Exc, Result, ok, err, value_error}
use chaos_atlas.Exec.{Exec, lift, pure, raise_when, ◌>>=◌, ◌>>◌}
use chaos_atlas.Exec.Keeps.{Keeps, Keeps-bind, Keeps-raise_when, Keeps-lift, keeps_rules}
use chaos_atlas.Exec.Inversion.{bind-ok}
use chaos_atlas.Table.{lookup, names}
use chaos_atlas.Value.{Value, str, obj, Dict, get, is_str}
use chaos_atlas.Isolation.Contracts.{Hasher, with_hash}
use chaos_atlas.Isolation.Store.{json}
use chaos_atlas.Oracles.Ledger.{
  Ledgers, load_ledger, save_ledger, refuse_active, fresh_ledger, create_locked, store_lock,
  project_lock, operation, create, intent, transition, cleanup_confirmed, close_run,
  rebind_local_tunnel,
}
use chaos_atlas.Oracles.Ledger.Document.{closed, Split}
use chaos_atlas.Oracles.Ledger.Change.{
  intended-Follows, transitioned-Follows, closed-Follows, rebound-Follows,
}
use chaos_atlas.Oracles.Ledger.Files.{load_ledger-ok, load_ledger-same}
use chaos_atlas.Oracles.Ledger.Exclusive.{
  is_active, IsSound, Alone, kept_key, save_ledger-IsSound, amend-IsSound, after_change,
}

module _ {V : Type 0} where
  names-lookup :
      (j : String) (v : V) (t : List (String × V)) → lookup j t ≡ some v → member j (names t) ≡ true
  unfolding lookup
  names-lookup j v [] p = cc
  names-lookup j v ((k, w) ∷ t) p = ground (arith, names-lookup j v t, eq_iff k j, eq_iff j k)

module _ (h : Hasher) where
  load_ledger-Same : (u : Ledgers) (id : String) → Keeps (λ s. s ≡ u) (load_ledger h id)
  load_ledger-Same u id = record { after = λ s e. load_ledger-same h id s ∙ e }

  refuse_active-Same :
      (u : Ledgers) (project : String) (ids : List String)
      → Keeps (λ s. s ≡ u) (refuse_active h project ids)
  unfolding refuse_active
  refuse_active-Same u project [] = search keeps_rules
  refuse_active-Same u project (id ∷ ids) =
      Keeps-bind (load_ledger h id) _ (load_ledger-Same u id)
        λ existing. Keeps-bind _ _ (Keeps-raise_when _ _ _) λ _. refuse_active-Same u project ids

  guarded :
      (b : Bool) (e : Exc) (m : String) (rest : Exec Ledgers (Unit {0})) (s : Ledgers)
      → ((raise_when b e m >> rest) s).0 ≡ ok tt
      → (b ≡ false) × ((rest s).0 ≡ ok tt)
  unfolding ◌>>=◌
  guarded true e m rest s p = cc
  guarded false e m rest s p = (refl, p)

  member-cases :
      (j id : String) (ids : List String)
      → member j (id ∷ ids) ≡ true
      → (id ≡ j) ⊎ (member j ids ≡ true)
  member-cases j id ids m = ground (arith, eq_iff j id, eq_iff id j)

  refused :
      (project : String) (ids : List String) (s : Ledgers) (j : String)
      → (refuse_active h project ids s).0 ≡ ok tt
      → member j ids ≡ true
      → (w : Dict) × ((load_ledger h j s).0 ≡ ok w)
        × ((is_str project (get "project_id" w) && is_active w) ≡ false)
  unfolding refuse_active
  refused project [] s j p m = cc
  refused project (id ∷ ids) s j p m =
      let (existing, t, loaded, p1, _) = bind-ok (load_ledger h id) _ s tt p in
      let same = sym (ap (λ (x : Result Dict × Ledgers). x.1) loaded) ∙ load_ledger-same h id s in
      let here = ap (λ (x : Result Dict × Ledgers). x.0) loaded in
      let (idle, rest) =
        guarded (is_str project (get "project_id" existing) && is_active existing) _ _
          (refuse_active h project ids) t p1 in
      elim (member-cases j id ids m) [
        | inl e ↦ (existing, rw (← e) here, idle)
        | inr later ↦ refused project ids s j (rw same at rest) later
      ]

  document : (v w : Dict) → json (obj v) ≡ json (obj w) → v ≡ w
  document v w e = cc

  some-inj : {A : Type 0} {a b : A} → some a ≡ some b → a ≡ b
  some-inj e = cc

  both_true : (a b : Bool) → a ≡ true → b ≡ true → (a && b) ≡ false → ⊥
  both_true a b p q r = ground arith

  is_str_of : (t : String) (v : Value) → v ≡ str t → is_str t v ≡ true
  unfolding is_str
  is_str_of t v e = rw e ((eq_iff t t).1 refl)

  fresh-project :
      (run_id project attempt contract : String) (binding : Dict)
      → get "project_id" (fresh_ledger h run_id project attempt contract binding) ≡ str project
  unfolding get
  fresh-project run_id project attempt contract binding = refl

  fresh-Alone :
      (run_id project attempt contract : String) (binding : Dict) (s : Ledgers)
      → (refuse_active h project (names s.ledgers) s).0 ≡ ok tt
      → (id : String)
      → get "run_id"
          (with_hash h (fresh_ledger h run_id project attempt contract binding) "ledger_sha256")
        ≡ str id
      → Alone h id
          (with_hash h (fresh_ledger h run_id project attempt contract binding) "ledger_sha256")
          s
  fresh-Alone run_id project attempt contract binding s quiet id named j w fj av aw p =
      let (existing, loaded, idle) =
        refused project (names s.ledgers) s j quiet (names-lookup j _ s.ledgers fj) in
      let (file, found, holds) = load_ledger-ok h j s existing loaded in
      let same = document existing w (some-inj (ap some (sym holds.0) ∙ sym found ∙ fj)) in
      let named =
        sym p
        ∙ kept_key h "project_id" (fresh_ledger h run_id project attempt contract binding) refl in
      absurd (
        both_true _ _
          (is_str_of project (get "project_id" w)
            (named ∙ fresh-project run_id project attempt contract binding))
          aw (rw same at idle))

  created :
      (run_id project attempt contract : String) (binding : Dict) (r : Result (Unit {0}))
      (s t : Ledgers)
      → (refuse_active h project (names s.ledgers) s).0 ≡ r
      → t ≡ s
      → IsSound h s
      → IsSound h
          (chaos_atlas.Exec.continue r
            (λ _. save_ledger h (fresh_ledger h run_id project attempt contract binding))
            t).1
  created run_id project attempt contract binding (ok _) s t p same sound = rw same (
      save_ledger-IsSound h (fresh_ledger h run_id project attempt contract binding) s
        (fresh-Alone run_id project attempt contract binding s p) sound)
  created run_id project attempt contract binding (err e m) s t p same sound = rw same sound

  create_locked-IsSound :
      (run_id project attempt contract : String) (binding : Dict)
      → Keeps (IsSound h) (create_locked h run_id project attempt contract binding)
  unfolding create_locked ◌>>=◌
  create_locked-IsSound run_id project attempt contract binding = record {
    after = λ s sound.
        created run_id project attempt contract binding
          (refuse_active h project (names s.ledgers) s).0 s _ refl
          ((refuse_active-Same s project (names s.ledgers)).after s refl) sound;
  }

  store_lock-IsSound :
      {A : Type 0} (id : String) (body : Exec Ledgers A)
      → Keeps (IsSound h) body
      → Keeps (IsSound h) (store_lock id body)
  unfolding store_lock
  store_lock-IsSound id body kept = record { after = λ s sound. ground (arith, kept.after s sound) }

  pub operation-IsSound :
      {A : Type 0} (id : String) (body : Exec Ledgers A)
      → Keeps (IsSound h) body
      → Keeps (IsSound h) (operation id body)
  unfolding operation
  operation-IsSound id body kept = record {
    after = λ s sound. ground (arith, (store_lock-IsSound id body kept).after s sound);
  }

  create-IsSound :
      (run_id project attempt contract : String) (binding : Dict)
      → Keeps (IsSound h) (create h run_id project attempt contract binding)
  unfolding create
  create-IsSound run_id project attempt contract binding = record {
    after = λ s sound. ground (
      arith,
      (store_lock-IsSound (project_lock h project) _
            (create_locked-IsSound run_id project attempt contract binding)).after
          s sound,
    );
  }

  load_ledger-IsSound : (id : String) → Keeps (IsSound h) (load_ledger h id)
  load_ledger-IsSound id = record { after = λ s sound. rw (load_ledger-same h id s) sound }

  cleanup_confirmed-Same : (u : Ledgers) (id : String) → Keeps (λ s. s ≡ u) (cleanup_confirmed h id)
  unfolding cleanup_confirmed
  cleanup_confirmed-Same u id =
      Keeps-bind _ _ (load_ledger-Same u id)
        λ value. Keeps-bind _ _ (Keeps-lift _) λ operations. Keeps-lift _

  module _ (run_id : String) where
    abbrev close_rest : Dict → Bool → Exec Ledgers Dict
    close_rest value confirmed =
        raise_when (not confirmed) value_error "unresolved transaction cannot close"
        >> (lift (closed value) >>= save_ledger h)

    close_confirmed :
        (value : Dict) (r : Result Bool) (s t : Ledgers)
        → t ≡ s
        → (load_ledger h run_id s).0 ≡ ok value
        → IsSound h s
        → IsSound h (chaos_atlas.Exec.continue r (close_rest value) t).1
    unfolding ◌>>=◌
    close_confirmed value (ok true) s t same loaded sound = rw same (
        after_change h closed run_id value (closed value) s refl (closed-Follows value) loaded
          sound)
    close_confirmed value (ok false) s t same loaded sound = rw same sound
    close_confirmed value (err e m) s t same loaded sound = rw same sound

    close_loaded :
        (r : Result Dict) (s t : Ledgers)
        → t ≡ s
        → (load_ledger h run_id s).0 ≡ r
        → IsSound h s
        → IsSound h
            (chaos_atlas.Exec.continue r
              (λ value. cleanup_confirmed h run_id >>= close_rest value)
              t).1
    unfolding ◌>>=◌
    close_loaded (ok value) s t same loaded sound = rw same (
        close_confirmed value (cleanup_confirmed h run_id s).0 s (cleanup_confirmed h run_id s).1
          ((cleanup_confirmed-Same s run_id).after s refl) loaded sound)
    close_loaded (err e m) s t same loaded sound = rw same sound

    close_run-IsSound : Keeps (IsSound h) (close_run h run_id)
    unfolding close_run ◌>>=◌
    close_run-IsSound = record {
      after = λ s sound.
          close_loaded (load_ledger h run_id s).0 s (load_ledger h run_id s).1
            (load_ledger-same h run_id s) refl sound;
    }

  -- Every operation that writes, whether it returns or raises, keeps the invariant that each file is
  -- a valid ledger of the file's own name and that no two active transactions are of one project.
  pub ledger-IsSound :
      (urlsplit : Value → Result Split)
      (run_id project attempt contract operation_id object_type marker state : String)
      (binding evidence : Dict) (s : Ledgers)
      → IsSound h s
      → IsSound h (create h run_id project attempt contract binding s).1
        × IsSound h (intent h run_id operation_id object_type marker s).1
        × IsSound h (transition h run_id operation_id state evidence s).1
        × IsSound h (close_run h run_id s).1
        × IsSound h (rebind_local_tunnel h urlsplit run_id binding contract s).1
  unfolding intent transition rebind_local_tunnel
  ledger-IsSound urlsplit run_id project attempt contract operation_id object_type marker state
        binding evidence s sound =
      (
        (create-IsSound run_id project attempt contract binding).after s sound,
        (amend-IsSound h _ run_id (intended-Follows operation_id object_type marker)).after s sound,
        (amend-IsSound h _ run_id (transitioned-Follows operation_id state evidence)).after s sound,
        (close_run-IsSound run_id).after s sound,
        (amend-IsSound h _ run_id (rebound-Follows urlsplit binding contract)).after s sound,
      )
