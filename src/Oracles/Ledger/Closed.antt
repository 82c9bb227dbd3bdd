-- ===== src/Oracles/Ledger/Closed.antt =====
-- Closing a transaction, and what a closed one still allows (oracles/recovery_ledger.py).
use chaos_atlas.Prelude.{
  String, ◌≡◌, refl, ap, ◌∙◌, ◌⊎◌, true, false, not, [], ◌∷◌, arith, ◌==◌, eq_iff, member,
  Bool-cases, inl, inr,
}
use chaos_atlas.Result.{Result, ok, >>=-eq-ok, >>-eq-ok, raise_if-eq-ok}
use chaos_atlas.Exec.{lift, raise_when}
use chaos_atlas.Exec.Inversion.{bind-ok, lift-ok}
use chaos_atlas.Value.{
  Value, str, obj, Dict, end, field, get, put, item, update, is_str, in_tuple, as_dict, text,
  get-put, is_str-eq, as_dict-eq,
}
use chaos_atlas.Isolation.Contracts.{Hasher, with_hash}
use chaos_atlas.Oracles.Ledger.{
  Ledgers, load_ledger, save_ledger, amend, intent, transition, cleanup_confirmed, close_run,
}
use chaos_atlas.Oracles.Ledger.Document.{
  resolved_states, recovery_moves, validate_ledger, add_one, count_up, record_entry, operations_of,
  intended, transitioned, closed,
}
use chaos_atlas.Oracles.Ledger.Files.{item-get, save_ledger-ok}
use chaos_atlas.Oracles.Ledger.Exclusive.{kept_key}
use chaos_atlas.Oracles.Ledger.Resolved.{
  EntriesResolved, Resolved, settled, validate_ledger-Resolved, load_ledger-Resolved,
}

-- What a successful transition changed: one operation, whose state moved along the table.
record Moved (operation_id state : String) (evidence value next : Dict) : Type 0 where
  operations : Dict
  entry : Dict
  before : get "operations" value ≡ obj operations
  held : get operation_id operations ≡ obj entry
  allowed : member state (recovery_moves (text (get "state" entry))) ≡ true
  sequence : Value
  result :
      next
      ≡ put "sequence" sequence (
          put "operations"
            (obj
              (put operation_id (obj (put "state" (str state) (update entry evidence))) operations))
            value)

operations_of-eq :
    (value operations : Dict)
    → operations_of value ≡ ok operations
    → get "operations" value ≡ obj operations
unfolding operations_of
operations_of-eq value operations p =
    let (v, found, q) = >>=-eq-ok (item "operations" value) _ p in
    item-get "operations" value v found ∙ as_dict-eq v operations q

count_up-eq :
    (value next : Dict) → count_up value ≡ ok next → (n : Value) × (next ≡ put "sequence" n value)
unfolding count_up
count_up-eq value next p =
    let (sequence, _, p1) = >>=-eq-ok (item "sequence" value) _ p in
    let (n, _, p2) = >>=-eq-ok (add_one sequence) _ p1 in (n, ground arith)

transitioned-Moved :
    (operation_id state : String) (evidence value next : Dict)
    → transitioned operation_id state evidence value ≡ ok next
    → Moved operation_id state evidence value next
unfolding transitioned record_entry
transitioned-Moved operation_id state evidence value next p =
    let (operations, f1, p1) = >>=-eq-ok (operations_of value) _ p in
    let (held, f2, p2) = >>=-eq-ok (item operation_id operations) _ p1 in
    let (entry, f3, p3) = >>=-eq-ok (as_dict held) _ p2 in
    let (current, f4, p4) = >>=-eq-ok (item "state" entry) _ p3 in
    let (f5, p5) = >>-eq-ok _ _ p4 in
    let (_, p6) = >>-eq-ok _ _ p5 in
    let (n, same) = count_up-eq _ next p6 in
    record {
      operations = operations;
      entry = entry;
      before = operations_of-eq value operations f1;
      held = item-get operation_id operations held f2 ∙ as_dict-eq held entry f3;
      allowed = rw (item-get "state" entry current f4) (settled _ (raise_if-eq-ok _ _ _ f5));
      sequence = n;
      result = same;
    }

resolved_put :
    (k : String) (e d : Dict)
    → EntriesResolved (put k (obj e) d)
    → in_tuple resolved_states (get "state" e) ≡ true
unfolding put
resolved_put k e end r = r.0
resolved_put k e (field j (obj w) d) r = elim (Bool-cases (j == k)) [
  | inl same ↦ (rw same at r).0
  | inr apart ↦ resolved_put k e d (rw apart at r).1
]
resolved_put k e (field j _ d) r = elim (Bool-cases (j == k)) [
  | inl same ↦ (rw same at r).0
  | inr apart ↦ absurd (rw apart at r)
]

resolved_get :
    (k : String) (e d : Dict)
    → EntriesResolved d
    → get k d ≡ obj e
    → in_tuple resolved_states (get "state" e) ≡ true
unfolding get
resolved_get k e end r p = cc
resolved_get k e (field j (obj w) d) r p = ground (arith, resolved_get k e d r.1)
resolved_get k e (field j _ d) r p = absurd r

resolved-cases :
    (v : Value)
    → in_tuple resolved_states v ≡ true
    → (v ≡ str "not_sent") ⊎ (v ≡ str "absent_confirmed")
unfolding in_tuple
resolved-cases (str s) p = elim (Bool-cases (s == "not_sent")) [
  | inl e ↦ inl (ap str ((eq_iff s "not_sent").0 e))
  | inr n ↦ inr (ap str ((eq_iff s "absent_confirmed").0 (ground arith)))
]
resolved-cases _ p = cc

sent_unresolved :
    (t : String) → member t ("intent_persisted" ∷ []) ≡ true → member t resolved_states ≡ true → ⊥
sent_unresolved t q r =
    let here = (eq_iff t "intent_persisted").0 (ground arith) in cc (rw here at r)

listed :
    (t : String) (d : Dict)
    → in_tuple resolved_states (get "state" (put "state" (str t) d)) ≡ true
    → member t resolved_states ≡ true
unfolding in_tuple
listed t d p = rw (get-put "state" "state" (str t) d) at p

-- The table leads from a resolved state to unresolved ones only.
no_way_out :
    (v : Value) (t : String)
    → in_tuple resolved_states v ≡ true
    → member t (recovery_moves (text v)) ≡ true
    → member t resolved_states ≡ true
    → ⊥
unfolding recovery_moves text
no_way_out v t p q r = elim (resolved-cases v p) [
  | inl e ↦ sent_unresolved t (rw e at q) r
  | inr e ↦ cc (rw e at q)
]

shown_closed :
    (n : Value) (value next : Dict)
    → next ≡ put "sequence" n (put "lifecycle" (str "closed") value)
    → get "lifecycle" next ≡ str "closed"
shown_closed n value next e = rw e (simp get-put)

is_str_eq : (t : String) (v : Value) → v ≡ str t → is_str t v ≡ true
unfolding is_str
is_str_eq t v e = rw e ((eq_iff t t).1 refl)

module _ (h : Hasher) where
  amend-ok :
      (run_id : String) (change : Dict → Result Dict) (s : Ledgers) (saved : Dict)
      → (amend h run_id change s).0 ≡ ok saved
      → (value : Dict) × (next : Dict) × (u : Ledgers) × ((load_ledger h run_id s).0 ≡ ok value)
        × (change value ≡ ok next)
        × ((save_ledger h next u).0 ≡ ok saved)
  unfolding amend
  amend-ok run_id change s saved p =
      let (value, t, e1, p1, _) = bind-ok (load_ledger h run_id) _ s saved p in
      let (next, u, e2, p2, _) = bind-ok (lift (change value)) _ t saved p1 in
      (
        value,
        next,
        u,
        ap (λ (x : Result Dict × Ledgers). x.0) e1,
        lift-ok (change value) t u next e2,
        p2,
      )

  same_value : {r : Result Dict} {v w : Dict} → r ≡ ok v → r ≡ ok w → v ≡ w
  same_value p q = ground arith

  inactive : (v : Value) → v ≡ str "closed" → not (is_str "active" v) ≡ false → ⊥
  unfolding is_str
  inactive v e p = cc (rw e at p)

  intended-closed :
      (value next : Dict) (id object_type marker : String)
      → intended id object_type marker value ≡ ok next
      → is_str "closed" (get "lifecycle" value) ≡ true
      → ⊥
  unfolding intended
  intended-closed value next id object_type marker p c =
      let shut = is_str-eq "closed" (get "lifecycle" value) c in
      inactive _ shut (raise_if-eq-ok _ _ _ (>>-eq-ok _ _ p).0)

  Moved-shape :
      (operation_id state : String) (evidence value next saved : Dict)
      (moved : Moved operation_id state evidence value next)
      → saved ≡ with_hash h next "ledger_sha256"
      → (get "lifecycle" saved ≡ get "lifecycle" value)
        × (get "operations" saved
            ≡ obj (
                put operation_id
                  (obj (put "state" (str state) (update moved.entry evidence)))
                  moved.operations))
  Moved-shape operation_id state evidence value next saved moved same = (
    rw same (kept_key h "lifecycle" next refl ∙ rw moved.result (simp get-put)),
    rw same (kept_key h "operations" next refl ∙ rw moved.result (simp get-put)),
  )

  Moved-closed :
      (operation_id state : String) (evidence value next saved : Dict)
      → Moved operation_id state evidence value next
      → validate_ledger h saved ≡ ok tt
      → saved ≡ with_hash h next "ledger_sha256"
      → is_str "closed" (get "lifecycle" value) ≡ true
      → Resolved (get "operations" value)
      → ⊥
  Moved-closed operation_id state evidence value next saved moved valid same c resolved =
      let shown = Moved-shape operation_id state evidence value next saved moved same in
      let after = rw shown.1 at (validate_ledger-Resolved h saved valid (rw shown.0 c)) in
      let target =
        resolved_put operation_id (put "state" (str state) (update moved.entry evidence))
          moved.operations after in
      let before =
        resolved_get operation_id moved.entry moved.operations (rw moved.before at resolved)
          moved.held in
      no_way_out (get "state" moved.entry) state before moved.allowed (listed state _ target)

  -- A closed transaction takes no new operation, and none of its operations moves again.
  pub closed_final :
      (run_id : String) (s : Ledgers) (value : Dict)
      → (load_ledger h run_id s).0 ≡ ok value
      → is_str "closed" (get "lifecycle" value) ≡ true
      → (operation_id object_type marker state : String) (evidence saved : Dict)
      → ¬ ((intent h run_id operation_id object_type marker s).0 ≡ ok saved)
        × ¬ ((transition h run_id operation_id state evidence s).0 ≡ ok saved)
  unfolding intent transition
  closed_final run_id s value loaded c operation_id object_type marker state evidence saved = (
    λ p.
        let (v, next, u, load, changed, _) =
          amend-ok run_id (intended operation_id object_type marker) s saved p in
        intended-closed v next operation_id object_type marker changed
          (rw (same_value load loaded) c),
    λ p.
        let (v, next, u, load, changed, save) =
          amend-ok run_id (transitioned operation_id state evidence) s saved p in
        let moved = transitioned-Moved operation_id state evidence v next changed in
        let holds = (save_ledger-ok h next saved u save) in
        Moved-closed operation_id state evidence v next saved moved holds.2.1 holds.1
          (rw (same_value load loaded) c)
          (load_ledger-Resolved h run_id s v load (rw (same_value load loaded) c)),
  )

  closed_shape :
      (value next saved : Dict)
      → closed value ≡ ok next
      → saved ≡ with_hash h next "ledger_sha256"
      → is_str "closed" (get "lifecycle" saved) ≡ true
  unfolding closed
  closed_shape value next saved p same =
      let (n, e) = count_up-eq _ next p in
      let shown = shown_closed n value next e in
      is_str_eq "closed" (get "lifecycle" saved)
        (ap (get "lifecycle") same ∙ kept_key h "lifecycle" next refl ∙ shown)

  -- What `close_run` returns is a closed ledger in which every operation was never sent or its
  -- object is confirmed to be absent.
  pub close_run-Resolved :
      (run_id : String) (s : Ledgers) (saved : Dict)
      → (close_run h run_id s).0 ≡ ok saved
      → (is_str "closed" (get "lifecycle" saved) ≡ true) × Resolved (get "operations" saved)
  unfolding close_run
  close_run-Resolved run_id s saved p =
      let (value, t, _, p1, _) = bind-ok (load_ledger h run_id) _ s saved p in
      let (confirmed, t1, _, p2, _) = bind-ok (cleanup_confirmed h run_id) _ t saved p1 in
      let (_, t2, _, p3, _) = bind-ok (raise_when (not confirmed) _ _) _ t1 saved p2 in
      let (next, u, changed, p4, _) = bind-ok (lift (closed value)) _ t2 saved p3 in
      let (_, same, holds, _) = save_ledger-ok h next saved u p4 in
      let shut = closed_shape value next saved (lift-ok (closed value) t2 u next changed) same in
      (shut, validate_ledger-Resolved h saved holds.1 shut)
