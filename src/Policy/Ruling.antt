-- ===== src/Policy/Ruling.antt =====
-- The ruling on a run in `normalize_runtime_feedback` of tools/policy_controller.py: what an eligible
-- run shows, and what becomes of the others.
use chaos_atlas.Prelude.{
  String, ◌≡◌, refl, ◌⊎◌, inl, inr, Bool, true, false, not, arith, ◌==◌, if◌then◌else◌, member,
  and_left, and_right,
}
use chaos_atlas.Result.{ok, and_then, >>=-eq-ok}
use chaos_atlas.Value.{Dict, get, truthy, text_of}
use chaos_atlas.Feedback.Classify.{Classification, unsupported, environment_blocked, method_invalid}
use chaos_atlas.Policy.Feedback.{
  Ruling, rule, rule_completed, is_eligible, evidence_complete, lifecycle_complete, oracle_valid,
  observable, demote, bounded_causes, policy_label, policy_classification, enough_reproductions,
  weakness_labels, refusal, decide, refuse,
}

-- What a run must show to inform the policy with the classification `c`.
abbrev pub Grounds : Dict → Classification → Type 0
Grounds run c =
    ((text_of "status" run == "live_completed") ≡ true)
    × ((text_of "cleanup_status" run == "verified") ≡ true)
    × (truthy (get "environment_blocked" run) ≡ false)
    × (truthy (get "method_invalid" run) ≡ false)
    × (member (text_of "rca_status" run) bounded_causes ≡ true)
    × (lifecycle_complete (get "attestation" run) ≡ true)
    × (oracle_valid run ≡ true)
    × (evidence_complete run ≡ ok true)
    × (observable c ≡ true)

eligible_tests :
    (run : Dict) (c : Classification) (evidence : Bool)
    → is_eligible run c evidence ≡ true
    → ((text_of "status" run == "live_completed") ≡ true)
      × (member (text_of "rca_status" run) bounded_causes ≡ true)
      × (lifecycle_complete (get "attestation" run) ≡ true)
      × (oracle_valid run ≡ true)
      × (evidence ≡ true)
      × (observable c ≡ true)
unfolding is_eligible
eligible_tests run c evidence p =
    let p1 = and_right _ _ p in
    let p2 = and_right _ _ p1 in
    let p3 = and_right _ _ p2 in
    let p4 = and_right _ _ p3 in
    (
      and_left _ _ p,
      and_left _ _ p1,
      and_left _ _ p2,
      and_left _ _ p3,
      and_left _ _ p4,
      and_right _ _ p4,
    )

decided_eligible :
    (b : Bool) (c : Classification) (reason : String) (r : Ruling)
    → ok (decide b c reason) ≡ ok r
    → r.eligible ≡ true
    → (b ≡ true) × (c ≡ r.classification)
decided_eligible true c reason r p e = (refl, cc)
decided_eligible false c reason r p e = cc

demote_twice : (c : Classification) → demote (demote c) ≡ demote c
demote_twice environment_blocked = refl
demote_twice method_invalid = refl
demote_twice _ = refl

refused_decision :
    (b : Bool) (c : Classification) (reason : String) (r : Ruling)
    → ok (decide b c reason) ≡ ok r
    → r.eligible ≡ false
    → (reason == "eligible") ≡ false
    → (demote r.classification ≡ r.classification) × ((r.reason == "eligible") ≡ false)
refused_decision true c reason r p e n = cc
refused_decision false c reason r p e n = (ground (arith, demote_twice c), ground arith)

-- a reason for a refusal
record IsRefusal (s : String) : Type 0 where
  differs : (s == "eligible") ≡ false

IsRefusal-if :
    (b : Bool) (s t : String) → IsRefusal s → IsRefusal t → IsRefusal (if b then s else t)
IsRefusal-if true s t p q = p
IsRefusal-if false s t p q = q

refusal-IsRefusal :
    (run : Dict) (unstable evidence : Bool) → IsRefusal (refusal run unstable evidence)
unfolding refusal
refusal-IsRefusal run unstable evidence =
    let last =
      IsRefusal-if (not evidence) "incomplete_evidence" "classification_not_policy_observable"
        (record { differs = refl }) (record { differs = refl }) in
    let oracle =
      IsRefusal-if (not (oracle_valid run)) "oracle_not_valid" _ (record { differs = refl }) last in
    let life =
      IsRefusal-if (not (lifecycle_complete (get "attestation" run))) "lifecycle_incomplete" _
        (record { differs = refl }) oracle in
    let stable =
      IsRefusal-if unstable "reproduction_gate_incomplete" _ (record { differs = refl }) life in
    let cause =
      IsRefusal-if (not (member (text_of "rca_status" run) bounded_causes)) "rca_not_bounded" _
        (record { differs = refl }) stable in
    IsRefusal-if (not (text_of "status" run == "live_completed")) "runtime_not_completed" _
      (record { differs = refl }) cause

rule_completed-eligible :
    (run : Dict) (r : Ruling)
    → rule_completed run ≡ ok r
    → r.eligible ≡ true
    → ((text_of "status" run == "live_completed") ≡ true)
      × (member (text_of "rca_status" run) bounded_causes ≡ true)
      × (lifecycle_complete (get "attestation" run) ≡ true)
      × (oracle_valid run ≡ true)
      × (evidence_complete run ≡ ok true)
      × (observable r.classification ≡ true)
      × (policy_classification run (policy_label run) ≡ ok r.classification)
unfolding rule_completed
rule_completed-eligible run r p e =
    let (c, judged, p1) = >>=-eq-ok (policy_classification run (policy_label run)) _ p in
    let (evidence, complete, p2) = >>=-eq-ok (evidence_complete run) _ p1 in
    let (stable, _, p3) =
      >>=-eq-ok (and_then (member (policy_label run) weakness_labels) (enough_reproductions run)) _
        p2 in
    let (eligible, same) = decided_eligible _ c _ r p3 e in
    let (status, cause, life, oracle, evident, seen) = eligible_tests run c evidence eligible in
    (status, cause, life, oracle, rw evident at complete, rw same at seen, rw same at judged)

rule_completed-refused :
    (run : Dict) (r : Ruling)
    → rule_completed run ≡ ok r
    → r.eligible ≡ false
    → (demote r.classification ≡ r.classification) × ((r.reason == "eligible") ≡ false)
unfolding rule_completed
rule_completed-refused run r p e =
    let (c, judged, p1) = >>=-eq-ok (policy_classification run (policy_label run)) _ p in
    let (evidence, complete, p2) = >>=-eq-ok (evidence_complete run) _ p1 in
    let (stable, _, p3) =
      >>=-eq-ok (and_then (member (policy_label run) weakness_labels) (enough_reproductions run)) _
        p2 in
    refused_decision _ c _ r p3 e (refusal-IsRefusal run _ evidence).differs

refused_outright :
    (c : Classification) (reason : String) (r : Ruling)
    → ok (refuse c reason) ≡ ok r
    → demote c ≡ c
    → (reason == "eligible") ≡ false
    → (demote r.classification ≡ r.classification) × ((r.reason == "eligible") ≡ false)
refused_outright c reason r q d n = (ground arith, ground arith)

never_eligible :
    (c : Classification) (reason : String) (r : Ruling)
    → ok (refuse c reason) ≡ ok r
    → r.eligible ≡ true
    → ⊥
never_eligible c reason r q e = cc

abbrev Outright : Ruling → Type 0
Outright r =
    (ok (refuse environment_blocked "environment_blocked") ≡ ok r)
    ⊎ ((ok (refuse method_invalid "method_invalid") ≡ ok r)
        ⊎ (ok (refuse unsupported "cleanup_not_verified") ≡ ok r))

rule-cases :
    (run : Dict) (r : Ruling)
    → rule run ≡ ok r
    → Outright r
      ⊎ ((truthy (get "environment_blocked" run) ≡ false)
          × (truthy (get "method_invalid" run) ≡ false)
          × ((text_of "cleanup_status" run == "verified") ≡ true)
          × (rule_completed run ≡ ok r))
unfolding rule
rule-cases run r p = ground arith

-- A run whose ruling is `eligible = false` keeps only a classification that the policy does not
-- learn from, and its reason is not `eligible`.
pub rule-refused :
    (run : Dict) (r : Ruling)
    → rule run ≡ ok r
    → r.eligible ≡ false
    → (demote r.classification ≡ r.classification) × ((r.reason == "eligible") ≡ false)
rule-refused run r p e = elim (rule-cases run r p) [
  | inl (inl q) ↦ refused_outright environment_blocked "environment_blocked" r q refl refl
  | inl (inr (inl q)) ↦ refused_outright method_invalid "method_invalid" r q refl refl
  | inl (inr (inr q)) ↦ refused_outright unsupported "cleanup_not_verified" r q refl refl
  | inr (free, invalid, clean, q) ↦ rule_completed-refused run r q e
]

pub rule-eligible :
    (run : Dict) (r : Ruling)
    → rule run ≡ ok r
    → r.eligible ≡ true
    → Grounds run r.classification
      × (policy_classification run (policy_label run) ≡ ok r.classification)
rule-eligible run r p e = elim (rule-cases run r p) [
  | inl (inl q) ↦ absurd (never_eligible environment_blocked "environment_blocked" r q e)
  | inl (inr (inl q)) ↦ absurd (never_eligible method_invalid "method_invalid" r q e)
  | inl (inr (inr q)) ↦ absurd (never_eligible unsupported "cleanup_not_verified" r q e)
  | inr (free, invalid, clean, q) ↦
      let (status, cause, life, oracle, evident, seen, judged) =
        rule_completed-eligible run r q e in
      ((status, clean, free, invalid, cause, life, oracle, evident, seen), judged)
]

decided_reason :
    (b : Bool) (c : Classification) (reason : String) (r : Ruling)
    → ok (decide b c reason) ≡ ok r
    → r.eligible ≡ true
    → r.reason ≡ "eligible"
decided_reason true c reason r p e = ground arith
decided_reason false c reason r p e = cc

completed_reason :
    (run : Dict) (r : Ruling)
    → rule_completed run ≡ ok r
    → r.eligible ≡ true
    → r.reason ≡ "eligible"
unfolding rule_completed
completed_reason run r p e =
    let (c, judged, p1) = >>=-eq-ok (policy_classification run (policy_label run)) _ p in
    let (evidence, complete, p2) = >>=-eq-ok (evidence_complete run) _ p1 in
    let (stable, _, p3) =
      >>=-eq-ok (and_then (member (policy_label run) weakness_labels) (enough_reproductions run)) _
        p2 in
    decided_reason _ c _ r p3 e

pub rule-reason :
    (run : Dict) (r : Ruling) → rule run ≡ ok r → r.eligible ≡ true → r.reason ≡ "eligible"
rule-reason run r p e = elim (rule-cases run r p) [
  | inl (inl q) ↦ absurd (never_eligible environment_blocked "environment_blocked" r q e)
  | inl (inr (inl q)) ↦ absurd (never_eligible method_invalid "method_invalid" r q e)
  | inl (inr (inr q)) ↦ absurd (never_eligible unsupported "cleanup_not_verified" r q e)
  | inr (free, invalid, clean, q) ↦ completed_reason run r q e
]
