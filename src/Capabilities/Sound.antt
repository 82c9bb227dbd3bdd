-- ===== src/Capabilities/Sound.antt =====
-- The records of `assess_core_capabilities` against `validate_capability_record`, and the grounds
-- of those that make a candidate eligible (src/chaosatlas/capabilities).
use chaos_atlas.Prelude.{
  String, ◌≡◌, refl, ap, ◌∙◌, ◌⊎◌, inl, inr, Bool, true, false, not, ◌&&◌, ◌||◌, List, [], ◌∷◌,
  ◌++◌, arith, ◌==◌, if◌then◌else◌, member, eq_iff, Bool-cases, All, All-member, strip,
}
use chaos_atlas.Result.{ok-inj, ok, >>=-eq-ok}
use chaos_atlas.Value.{
  bool, str, obj, Dict, end, get, has, either, truthy, is_true, is_list, text, one_of, in_tuple,
  as_dict,
}
use chaos_atlas.Isolation.Contracts.{isolation_levels}
use chaos_atlas.Capabilities.Contracts.{
  validate_capability_record, normalize_capability_status, grade_text, grade_rank,
  evidence_grade_rank, complaint,
}
use chaos_atlas.Capabilities.Catalog.{Fault, fault_catalog}
use chaos_atlas.Capabilities.Core.{
  isolation_for_core_fault, optional_text, dict_or_end, entries, ids_of, Verdict, capability,
  record_of,
}
use chaos_atlas.Capabilities.Assessment.{
  assess_target, delay_verdict, assess_api_server_delay, missing_target, assess_core_capabilities,
  judge_target,
}
use chaos_atlas.Capabilities.Grounds.{
  CanaryGrounds, assess_target-CanaryGrounds, judge_target-Grounded, refusals,
}
use chaos_atlas.Capabilities.Records.{Among, Listed, assess_core_capabilities-All}

abbrev used_statuses : List String
used_statuses = "inapplicable" ∷ "blocked" ∷ "unsupported" ∷ "canary_required" ∷ []

abbrev used_grades : List String
used_grades = "E0" ∷ "E1" ∷ []

status_passes :
    (s : String)
    → member s used_statuses ≡ true
    → complaint (normalize_capability_status (str s)) ≡ ok []
unfolding normalize_capability_status either truthy text strip
status_passes s m =
    All-member (λ t. complaint (normalize_capability_status (str t)) ≡ ok []) s used_statuses
      (refl, (refl, (refl, (refl, tt)))) m

grade_passes :
    (s : String) → member s used_grades ≡ true → complaint (evidence_grade_rank (str s)) ≡ ok []
unfolding grade_text grade_rank either truthy text strip chaos_atlas.Prelude.uppercase
grade_passes s m =
    All-member (λ t. complaint (evidence_grade_rank (str t)) ≡ ok []) s used_grades
      (refl, (refl, tt)) m

chosen_level :
    (a b : Bool)
    → in_tuple isolation_levels (str (if a then "L3" else if b then "L2" else "L1")) ≡ true
unfolding in_tuple
chosen_level true b = refl
chosen_level false true = refl
chosen_level false false = refl

level_passes : (id : String) → in_tuple isolation_levels (str (isolation_for_core_fault id)) ≡ true
unfolding isolation_for_core_fault
level_passes id = chosen_level (id == "api_server_delay") _

module _ (profile : Dict) (fault : Fault) (node : Dict) where
  valid_capability :
      (ids : List String) (v : Verdict)
      → member v.status used_statuses ≡ true
      → member v.evidence_grade used_grades ≡ true
      → validate_capability_record (capability profile fault node ids v) ≡ ok []
  unfolding validate_capability_record capability has get one_of is_list
  valid_capability ids v s g =
      rw (status_passes v.status s, grade_passes v.evidence_grade g, level_passes) refl

  valid_record :
      (v : Verdict) (r : Dict)
      → member v.status used_statuses ≡ true
      → member v.evidence_grade used_grades ≡ true
      → record_of profile fault node v ≡ ok r
      → validate_capability_record r ≡ ok []
  unfolding record_of
  valid_record v r s g e =
      let (oracles, o, d) = >>=-eq-ok (entries "business_oracles" profile) _ e in
      rw (← ok-inj d) (valid_capability (ids_of oracles) v s g)

  refusal_used : (s : String) → member s refusals ≡ true → member s used_statuses ≡ true
  refusal_used s m =
      All-member (λ t. member t used_statuses ≡ true) s refusals (refl, (refl, (refl, tt))) m

  valid_target :
      (runtime r : Dict)
      → assess_target profile fault node runtime ≡ ok r
      → validate_capability_record r ≡ ok []
  unfolding assess_target
  valid_target runtime r e =
      let (v, j, m) = >>=-eq-ok (judge_target profile fault node runtime) _ e in
      elim (judge_target-Grounded profile fault node runtime v j) [
        | inl (refusal, grade) ↦ valid_record v r (refusal_used v.status refusal) (rw grade refl) m
        | inr (grounds, (original, shape)) ↦ valid_record v r (rw shape refl) (rw shape refl) m
      ]

delay_used :
    (a b : Bool)
    → (member (delay_verdict a b).status used_statuses ≡ true)
      × (member (delay_verdict a b).evidence_grade used_grades ≡ true)
delay_used true b = (refl, refl)
delay_used false true = (refl, refl)
delay_used false false = (refl, refl)

valid_delay :
    (profile : Dict) (fault : Fault) (runtime r : Dict)
    → assess_api_server_delay profile fault runtime ≡ ok r
    → validate_capability_record r ≡ ok []
unfolding assess_api_server_delay
valid_delay profile fault runtime r e =
    let (isolation, i, j) = >>=-eq-ok (as_dict (either (get "isolation" profile) (obj end))) _ e in
    let a = truthy (get "disposable_cluster" isolation) in
    let b = is_true (get "api_server_delay_runtime_verified" runtime) in
    valid_record profile fault end (delay_verdict a b) r (delay_used a b).0 (delay_used a b).1 j

-- Each record that an assessment of the core faults returns passes `validate_capability_record`.
pub assess_core_capabilities-validate_capability_record :
    (profile : Dict) (nodes : List Dict) (runtime : Dict) (records : List Dict)
    → assess_core_capabilities profile nodes runtime ≡ ok records
    → All (λ r. validate_capability_record r ≡ ok []) records
assess_core_capabilities-validate_capability_record profile nodes runtime =
    assess_core_capabilities-All profile nodes runtime (λ r. validate_capability_record r ≡ ok [])
      (λ fault node r l m. valid_target profile fault node runtime r)
      (λ fault r d. valid_delay profile fault runtime r)
      (λ fault r. valid_record profile fault end missing_target r refl refl)

-- Why a record makes a candidate eligible: an environment for the API server's delay, or a target
-- among the nodes that meets the prerequisites of the record's fault.
abbrev pub DelayGrounds : Dict → Dict → Dict → Type 0
DelayGrounds profile runtime r =
    (get "fault_id" r ≡ str "api_server_delay")
    × ((is_true (get "api_server_delay_runtime_verified" runtime) ≡ true)
        ⊎ ((isolation : Dict) × (as_dict (either (get "isolation" profile) (obj end))
              ≡ ok isolation)
            × (truthy (get "disposable_cluster" isolation) ≡ true)))

abbrev pub TargetGrounds : Dict → List Dict → Dict → Dict → Type 0
TargetGrounds profile nodes runtime r =
    (fault : Fault) × (node : Dict) × (Listed fault fault_catalog)
    × (Among node nodes)
    × (get "fault_id" r ≡ str fault.fault_id)
    × (get "target" r ≡ optional_text "name" (dict_or_end (get "deployment" node)))
    × (CanaryGrounds profile fault node runtime)

abbrev pub Explained : Dict → List Dict → Dict → Dict → Type 0
Explained profile nodes runtime r =
    (get "candidate_eligible" r ≡ bool false)
    ⊎ ((get "candidate_eligible" r ≡ bool true)
        × (get "capability_status" r ≡ str "canary_required")
        × (get "evidence_grade" r ≡ str "E1")
        × (DelayGrounds profile runtime r ⊎ TargetGrounds profile nodes runtime r))

module _ (profile : Dict) (nodes : List Dict) (runtime : Dict) where
  record_names :
      (fault : Fault) (node : Dict) (v : Verdict) (r : Dict)
      → record_of profile fault node v ≡ ok r
      → (get "fault_id" r ≡ str fault.fault_id)
        × (get "target" r ≡ optional_text "name" (dict_or_end (get "deployment" node)))
  unfolding record_of capability get
  record_names fault node v r e =
      let (oracles, o, d) = >>=-eq-ok (entries "business_oracles" profile) _ e in
      rw (← ok-inj d) (refl, refl)

  record_verdict :
      (fault : Fault) (node : Dict) (v : Verdict) (r : Dict)
      → record_of profile fault node v ≡ ok r
      → (get "candidate_eligible" r ≡ bool (member v.status ("canary_required" ∷ "supported" ∷ [])))
        × (get "capability_status" r ≡ str v.status)
        × (get "evidence_grade" r ≡ str v.evidence_grade)
  unfolding record_of capability get
  record_verdict fault node v r e =
      let (oracles, o, d) = >>=-eq-ok (entries "business_oracles" profile) _ e in
      rw (← ok-inj d) (refl, refl, refl)

  target-Explained :
      (fault : Fault) (node r : Dict)
      → Listed fault fault_catalog
      → Among node nodes
      → assess_target profile fault node runtime ≡ ok r
      → Explained profile nodes runtime r
  unfolding assess_target
  target-Explained fault node r listed among e =
      let (v, j, m) = >>=-eq-ok (judge_target profile fault node runtime) _ e in
      let (eligible, _, _) = record_verdict fault node v r m in
      let (id, name) = record_names fault node v r m in
      elim (Bool-cases (member v.status ("canary_required" ∷ "supported" ∷ []))) [
        | inl t ↦
            let p = eligible ∙ ap bool t in
            let (grounds, status, grade) =
              assess_target-CanaryGrounds profile fault node runtime r e p in
            inr (p, status, grade, inr (fault, node, listed, among, id, name, grounds))
        | inr t ↦ inl (eligible ∙ ap bool t)
      ]

  delay_named :
      (fault : Fault) (a b : Bool) (r : Dict)
      → (fault.fault_id == "api_server_delay") ≡ true
      → record_of profile fault end (delay_verdict a b) ≡ ok r
      → get "fault_id" r ≡ str "api_server_delay"
  delay_named fault a b r d e =
      (record_names fault end (delay_verdict a b) r e).0
      ∙ ap (λ (t : String). str t) ((eq_iff fault.fault_id "api_server_delay").0 d)

  delay_open :
      (fault : Fault) (isolation r : Dict) (a b : Bool)
      → (fault.fault_id == "api_server_delay") ≡ true
      → as_dict (either (get "isolation" profile) (obj end)) ≡ ok isolation
      → truthy (get "disposable_cluster" isolation) ≡ a
      → is_true (get "api_server_delay_runtime_verified" runtime) ≡ b
      → record_of profile fault end (delay_verdict a b) ≡ ok r
      → Explained profile nodes runtime r
  delay_open fault isolation r true b d i ha hb e =
      let (p, status, grade) = record_verdict fault end (delay_verdict true b) r e in
      inr (p, status, grade, inl (delay_named fault true b r d e, inr (isolation, i, ha)))
  delay_open fault isolation r false true d i ha hb e =
      let (p, status, grade) = record_verdict fault end (delay_verdict false true) r e in
      inr (p, status, grade, inl (delay_named fault false true r d e, inl hb))
  delay_open fault isolation r false false d i ha hb e =
      inl (record_verdict fault end (delay_verdict false false) r e).0

  delay-Explained :
      (fault : Fault) (r : Dict)
      → (fault.fault_id == "api_server_delay") ≡ true
      → assess_api_server_delay profile fault runtime ≡ ok r
      → Explained profile nodes runtime r
  unfolding assess_api_server_delay
  delay-Explained fault r d e =
      let (isolation, i, j) =
        >>=-eq-ok (as_dict (either (get "isolation" profile) (obj end))) _ e in
      delay_open fault isolation r _ _ d i refl refl j

  missing-Explained :
      (fault : Fault) (r : Dict)
      → record_of profile fault end missing_target ≡ ok r
      → Explained profile nodes runtime r
  missing-Explained fault r e = inl (record_verdict fault end missing_target r e).0

  -- Each record of the assessment makes no candidate eligible, or asks for a canary, on evidence
  -- E1, and is explained: it is the API server's delay and a route for it is open, or it names a fault
  -- of the catalogue and a target among the nodes that meets every prerequisite of that fault.
  pub assess_core_capabilities-Explained :
      (records : List Dict)
      → assess_core_capabilities profile nodes runtime ≡ ok records
      → All (Explained profile nodes runtime) records
  assess_core_capabilities-Explained =
      assess_core_capabilities-All profile nodes runtime (Explained profile nodes runtime)
        target-Explained delay-Explained missing-Explained
