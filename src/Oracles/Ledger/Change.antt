-- ===== src/Oracles/Ledger/Change.antt =====
-- What the changes of oracles/recovery_ledger.py leave alone in a ledger.
use chaos_atlas.Prelude.{String, ◌≡◌, refl, ◌∙◌, true, false, ◌==◌}
use chaos_atlas.Result.{ok-inj, Result, ok, >>=-eq-ok, >>-eq-ok}
use chaos_atlas.Value.{Value, str, Dict, get, put, item, is_str, as_dict, get-put}
use chaos_atlas.Oracles.Ledger.Document.{
  add_one, count_up, record_entry, operations_of, intended, transitioned, closed, Split,
  require_local, rebound,
}

-- `next` is the same run of the same project, and is not active again once it was closed.
pub record Follows (value next : Dict) : Type 0 where
  pub same_run : get "run_id" next ≡ get "run_id" value
  pub same_project : get "project_id" next ≡ get "project_id" value
  pub stays_closed :
      is_str "active" (get "lifecycle" next) ≡ true → is_str "active" (get "lifecycle" value) ≡ true

-- Setting a key that is none of the three keeps them.
Follows-put :
    (key : String) (v : Value) (value : Dict)
    → (key == "run_id") ≡ false
    → (key == "project_id") ≡ false
    → (key == "lifecycle") ≡ false
    → Follows value (put key v value)
Follows-put key v value n1 n2 n3 = record {
  same_run = simp (get-put, n1);
  same_project = simp (get-put, n2);
  stays_closed = λ a. rw (get-put key "lifecycle" v value, n3) at a;
}

pub Follows-trans : {a b c : Dict} → Follows a b → Follows b c → Follows a c
Follows-trans f g = record {
  same_run = g.same_run ∙ f.same_run;
  same_project = g.same_project ∙ f.same_project;
  stays_closed = λ a. f.stays_closed (g.stays_closed a);
}

pub count_up-Follows : (value next : Dict) → count_up value ≡ ok next → Follows value next
unfolding count_up
count_up-Follows value next p =
    let (sequence, _, p1) = >>=-eq-ok (item "sequence" value) _ p in
    let (n, _, p2) = >>=-eq-ok (add_one sequence) _ p1 in
    rw (← ok-inj p2) (Follows-put "sequence" n value refl refl refl)

pub record_entry-Follows :
    (value operations : Dict) (id : String) (entry next : Dict)
    → record_entry value operations id entry ≡ ok next
    → Follows value next
unfolding record_entry
record_entry-Follows value operations id entry next p =
    Follows-trans (Follows-put "operations" _ value refl refl refl) (count_up-Follows _ next p)

pub intended-Follows :
    (id object_type marker : String) (value next : Dict)
    → intended id object_type marker value ≡ ok next
    → Follows value next
unfolding intended
intended-Follows id object_type marker value next p =
    let (_, p1) = >>-eq-ok _ _ p in
    let (operations, _, p2) = >>=-eq-ok (operations_of value) _ p1 in
    let (_, p3) = >>-eq-ok _ _ p2 in record_entry-Follows value operations id _ next p3

pub transitioned-Follows :
    (id state : String) (evidence value next : Dict)
    → transitioned id state evidence value ≡ ok next
    → Follows value next
unfolding transitioned
transitioned-Follows id state evidence value next p =
    let (operations, _, p1) = >>=-eq-ok (operations_of value) _ p in
    let (held, _, p2) = >>=-eq-ok (item id operations) _ p1 in
    let (entry, _, p3) = >>=-eq-ok (as_dict held) _ p2 in
    let (current, _, p4) = >>=-eq-ok (item "state" entry) _ p3 in
    let (_, p5) = >>-eq-ok _ _ p4 in
    let (_, p6) = >>-eq-ok _ _ p5 in record_entry-Follows value operations id _ next p6

closing : (value : Dict) → Follows value (put "lifecycle" (str "closed") value)
unfolding is_str
closing value = record {
  same_run = simp get-put;
  same_project = simp get-put;
  stays_closed = λ a. cc (rw (get-put "lifecycle" "lifecycle" (str "closed") value) at a);
}

pub closed-Follows : (value next : Dict) → closed value ≡ ok next → Follows value next
unfolding closed
closed-Follows value next p = Follows-trans (closing value) (count_up-Follows _ next p)

module _ (urlsplit : Value → Result Split) where
  pub rebound-Follows :
      (binding : Dict) (contract : String) (value next : Dict)
      → rebound urlsplit binding contract value ≡ ok next
      → Follows value next
  unfolding rebound
  rebound-Follows binding contract value next p =
      let (bound, _, p1) = >>=-eq-ok (item "binding" value) _ p in
      let (old, _, p2) = >>=-eq-ok (as_dict bound) _ p1 in
      let (signed, _, p3) = >>=-eq-ok (item "contract_sha256" value) _ p2 in
      let (_, p4) = >>-eq-ok _ _ p3 in
      let (before, _, p5) = >>=-eq-ok (item "origin" old) _ p4 in
      let (after, _, p6) = >>=-eq-ok (item "origin" binding) _ p5 in
      let (_, p7) = >>-eq-ok (require_local urlsplit before) _ p6 in
      let (_, p8) = >>-eq-ok (require_local urlsplit after) _ p7 in
      Follows-trans (Follows-put "binding" _ value refl refl refl) (count_up-Follows _ next p8)
