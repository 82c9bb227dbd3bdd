-- ===== src/Capabilities/Grounds.antt =====
-- What a verdict on a target rests on (capabilities/core_assessment.py).
use chaos_atlas.Prelude.{
  nonempty-nil, String, ◌≡◌, refl, ap, ◌∙◌, ◌⊎◌, inl, inr, Bool, true, false, not, ◌&&◌, Option,
  none, some, List, [], ◌∷◌, ◌++◌, arith, member, nonempty, ◌==◌, ◌||◌, ℤ, pos, ltb_ℤ, eq_iff,
  All-member, Bool-cases,
}
use chaos_atlas.Result.{ok-inj, ok, >>=-eq-ok}
use chaos_atlas.Value.{
  Value, bool, int, str, Dict, get, is_true, is_dict, truthy, either, to_int, text_of,
}
use chaos_atlas.Isolation.Contracts.{failures}
use chaos_atlas.Isolation.Contracts.Report.{Passed, failures-nil}
use chaos_atlas.Capabilities.Catalog.{Fault}
use chaos_atlas.Capabilities.Core.{
  http_chaos_backends, native_http_backends, native_resource_backends, kubernetes_api_l2, Boundary,
  profile_boundary, Verdict, record_of, capability, entries, backend_available, Target, read_target,
  dict_or_end, container_names, ids_of,
}
use chaos_atlas.Capabilities.Assessment.{
  mesh_faults, patching_faults, secret_missing, prerequisite_tests, canary_verdict, inapplicable,
  judge_prerequisites, judge_applicable, closed_boundary, judge_open, judge_target, assess_target,
  original_of,
}

abbrev extensions_of : Dict → Dict
extensions_of node = dict_or_end (get "extensions" node)

abbrev pub refusals : List String
refusals = "inapplicable" ∷ "blocked" ∷ "unsupported" ∷ []

abbrev pub eligible_statuses : List String
eligible_statuses = "canary_required" ∷ "supported" ∷ []

refusal-not-eligible : (s : String) → member s refusals ≡ true → member s eligible_statuses ≡ false
refusal-not-eligible s m =
    All-member (λ t. member t eligible_statuses ≡ false) s refusals (refl, (refl, (refl, tt))) m

-- What a target says is what stands in the profile and in its node.
pub record ReadFrom (profile node : Dict) (target : Target) : Type 0 where
  pub containers : List Value
  pub listed : entries "containers" (dict_or_end (get "deployment" node)) ≡ ok containers
  pub named : target.containers ≡ container_names containers
  pub oracles : List Value
  pub registered : entries "business_oracles" profile ≡ ok oracles
  pub oracle : target.has_oracle ≡ nonempty (ids_of oracles)
  pub recovery :
      target.has_recovery ≡ (is_dict (get "recovery" profile) && truthy (get "cleanup" profile))
  pub service : target.has_service ≡ truthy (get "service" node)
  pub facts : target.resources ≡ dict_or_end (get "resource_facts" (extensions_of node))
  pub disposable : target.disposable ≡ (
      truthy (get "disposable_target" target.resources)
      || truthy (get "disposable_target" (dict_or_end (get "capabilities" (extensions_of node)))))

read_target-ReadFrom :
    (profile node : Dict) (fault_id : String) (target : Target)
    → read_target profile fault_id node ≡ ok target
    → ReadFrom profile node target
unfolding read_target
read_target-ReadFrom profile node fault_id target e =
    let (containers, listed, j) =
      >>=-eq-ok (entries "containers" (dict_or_end (get "deployment" node))) _ e in
    let (oracles, registered, k) = >>=-eq-ok (entries "business_oracles" profile) _ j in
    rw (← ok-inj k) (record {
      containers = containers;
      listed = listed;
      named = refl;
      oracles = oracles;
      registered = registered;
      oracle = refl;
      recovery = refl;
      service = refl;
      facts = refl;
      disposable = refl;
    })

-- A secret to rotate is there.
abbrev pub SecretFound : String → Dict → Type 0
SecretFound fault_id resources =
    (fault_id == "secret_rotation") ≡ true
    → (n : ℤ) × (to_int (either (get "secret_count" resources) (int (pos 0))) ≡ ok n)
      × (ltb_ℤ n (pos 1) ≡ false)

secret_missing-SecretFound :
    (fault_id : String) (resources : Dict)
    → secret_missing fault_id resources ≡ ok false
    → SecretFound fault_id resources
unfolding secret_missing
secret_missing-SecretFound fault_id resources e same =
    let name = (eq_iff fault_id "secret_rotation").0 same in
    let (n, counted, j) =
      >>=-eq-ok (to_int (either (get "secret_count" resources) (int (pos 0)))) _ (rw name at e) in
    (n, counted, ok-inj j)

-- What holds of a target for which a canary is asked.
pub record CanaryGrounds (profile : Dict) (fault : Fault) (node runtime : Dict) : Type 0 where
  pub target : Target
  pub is_read : read_target profile fault.fault_id node ≡ ok target
  pub read_from : ReadFrom profile node target
  pub containers : nonempty target.containers ≡ true
  pub served :
      (member fault.fault_id (http_chaos_backends ++ native_http_backends)
        && not target.has_service)
      ≡ false
  pub paused :
      (fault.fault_id == "rollout_pause" && not (target.workload_kind == "Deployment")) ≡ false
  pub oracle : target.has_oracle ≡ true
  pub recovery : target.has_recovery ≡ true
  pub backend :
      (member fault.fault_id mesh_faults
        && not (backend_available runtime (text_of "backend" fault.spec)))
      ≡ false
  pub http_evidence :
      (member fault.fault_id http_chaos_backends
        && not (is_true (get "httpchaos_runtime_verified" runtime)))
      ≡ false
  pub resource_target :
      (member fault.fault_id native_resource_backends && not target.disposable) ≡ false
  pub native_resource :
      (member fault.fault_id native_resource_backends && not target.native_resource) ≡ false
  pub native_http : (member fault.fault_id native_http_backends && not target.native_http) ≡ false
  pub patchable :
      (member fault.fault_id patching_faults
        && not (member target.workload_kind ("Deployment" ∷ "StatefulSet" ∷ [])))
      ≡ false
  pub http_target : (member fault.fault_id native_http_backends && not target.disposable) ≡ false
  pub disposable :
      (member fault.fault_id kubernetes_api_l2
        && (not target.disposable && not target.disposable_route))
      ≡ false
  pub secret : SecretFound fault.fault_id target.resources

module _ (profile : Dict) (fault : Fault) (node runtime : Dict) where
  -- the grounds of a verdict: a refusal needs none
  abbrev Grounded : Verdict → Type 0
  Grounded v =
      (member v.status refusals ≡ true) × (v.evidence_grade ≡ "E0")
      ⊎ ((CanaryGrounds profile fault node runtime)
          × ((original : Value) × (v ≡ canary_verdict original)))

  inapplicable-none :
      (target : Target)
      → inapplicable fault.fault_id target ≡ none
      → (nonempty target.containers ≡ true)
        × ((member fault.fault_id (http_chaos_backends ++ native_http_backends)
              && not target.has_service)
            ≡ false)
        × ((fault.fault_id == "rollout_pause" && not (target.workload_kind == "Deployment"))
            ≡ false)
  unfolding inapplicable
  inapplicable-none target e = ground arith

  inapplicable-some :
      (target : Target) (v : Verdict)
      → inapplicable fault.fault_id target ≡ some v
      → (v.status ≡ "inapplicable") × (v.evidence_grade ≡ "E0")
  unfolding inapplicable
  inapplicable-some target v e = ground arith

  canary_grounds :
      (target : Target) (no_secret : Bool)
      → read_target profile fault.fault_id node ≡ ok target
      → (nonempty target.containers ≡ true)
        × ((member fault.fault_id (http_chaos_backends ++ native_http_backends)
              && not target.has_service)
            ≡ false)
        × ((fault.fault_id == "rollout_pause" && not (target.workload_kind == "Deployment"))
            ≡ false)
      → secret_missing fault.fault_id target.resources ≡ ok no_secret
      → Passed (prerequisite_tests runtime fault target no_secret)
      → CanaryGrounds profile fault node runtime
  canary_grounds target no_secret r (c, v, paused) s
        (oracle, (recovery, (mesh, (http, (nr, (nc, (nh, (nt, (l2, (secret, (patch, _))))))))))) =
      record {
        target = target;
        is_read = r;
        read_from = read_target-ReadFrom profile node fault.fault_id target r;
        containers = c;
        served = v;
        paused = paused;
        native_resource = nc;
        native_http = nt;
        patchable = patch;
        oracle = ground arith;
        recovery = ground arith;
        backend = mesh;
        http_evidence = http;
        resource_target = nr;
        http_target = nh;
        disposable = l2;
        secret = secret_missing-SecretFound fault.fault_id target.resources (rw secret at s);
      }

  judged-Grounded :
      (target : Target) (original : Value) (no_secret : Bool) (v : Verdict)
      → read_target profile fault.fault_id node ≡ ok target
      → (nonempty target.containers ≡ true)
        × ((member fault.fault_id (http_chaos_backends ++ native_http_backends)
              && not target.has_service)
            ≡ false)
        × ((fault.fault_id == "rollout_pause" && not (target.workload_kind == "Deployment"))
            ≡ false)
      → secret_missing fault.fault_id target.resources ≡ ok no_secret
      → judge_prerequisites fault original
          (failures (prerequisite_tests runtime fault target no_secret))
        ≡ v
      → Grounded v
  unfolding judge_prerequisites
  judged-Grounded target original no_secret v r c s e =
      let reqs = failures (prerequisite_tests runtime fault target no_secret) in
      elim (Bool-cases (nonempty reqs)) [
        | inl some_left ↦ inl (rw (← e) (rw some_left (refl, refl)))
        | inr none_left ↦ inr (
          canary_grounds target no_secret r c s (
              failures-nil (prerequisite_tests runtime fault target no_secret)
                (nonempty-nil reqs none_left)),
          (original, rw (← e) (rw none_left refl)),
        )
      ]

  judge_applicable-Grounded :
      (target : Target) (original : Value) (o : Option Verdict) (v : Verdict)
      → read_target profile fault.fault_id node ≡ ok target
      → inapplicable fault.fault_id target ≡ o
      → judge_applicable runtime fault target original o ≡ ok v
      → Grounded v
  judge_applicable-Grounded target original (some w) v r i e =
      let (status, grade) = inapplicable-some target w i in
      inl (rw (← ok-inj e) (rw status refl, grade))
  judge_applicable-Grounded target original none v r i e =
      let (no_secret, s, j) = >>=-eq-ok (secret_missing fault.fault_id target.resources) _ e in
      judged-Grounded target original no_secret v r (inapplicable-none target i) s (ok-inj j)

  judge_open-Grounded :
      (original : Value) (o : Option Verdict) (v : Verdict)
      → ((w : Verdict) → o ≡ some w → (member w.status refusals ≡ true) × (w.evidence_grade ≡ "E0"))
      → judge_open profile fault node runtime original o ≡ ok v
      → Grounded v
  judge_open-Grounded original (some w) v closed e = inl (rw (← ok-inj e) (closed w refl))
  judge_open-Grounded original none v closed e =
      let (target, r, j) = >>=-eq-ok (read_target profile fault.fault_id node) _ e in
      judge_applicable-Grounded target original (inapplicable fault.fault_id target) v r refl j

  closed_boundary-some :
      (boundary : Option Boundary) (w : Verdict)
      → closed_boundary boundary ≡ some w
      → (member w.status refusals ≡ true) × (w.evidence_grade ≡ "E0")
  closed_boundary-some none w e = cc
  closed_boundary-some (some boundary) w e = ground arith

  pub judge_target-Grounded :
      (v : Verdict) → judge_target profile fault node runtime ≡ ok v → Grounded v
  unfolding judge_target
  judge_target-Grounded v e =
      let (boundary, b, j) = >>=-eq-ok (profile_boundary profile fault.fault_id) _ e in
      judge_open-Grounded (original_of boundary) (closed_boundary boundary) v
        (closed_boundary-some boundary) j

  record_of-capability :
      (v : Verdict) (r : Dict)
      → record_of profile fault node v ≡ ok r
      → (get "candidate_eligible" r ≡ bool (member v.status eligible_statuses))
        × (get "capability_status" r ≡ str v.status)
        × (get "evidence_grade" r ≡ str v.evidence_grade)
  unfolding record_of capability get
  record_of-capability v r e =
      let (oracles, o, d) = >>=-eq-ok (entries "business_oracles" profile) _ e in
      rw (← ok-inj d) (refl, refl, refl)

  not-refused :
      (v : Verdict) (r : Dict)
      → record_of profile fault node v ≡ ok r
      → get "candidate_eligible" r ≡ bool true
      → member v.status refusals ≡ true
      → ⊥
  not-refused v r e p m =
      let (eligible, _, _) = record_of-capability v r e in
      cc (eligible, p, refusal-not-eligible v.status m)

  -- A record of `_assess_target` that makes a candidate eligible asks for a canary, on evidence
  -- E1, and its target meets every prerequisite of the fault.
  pub assess_target-CanaryGrounds :
      (r : Dict)
      → assess_target profile fault node runtime ≡ ok r
      → get "candidate_eligible" r ≡ bool true
      → (CanaryGrounds profile fault node runtime)
        × (get "capability_status" r ≡ str "canary_required")
        × (get "evidence_grade" r ≡ str "E1")
  unfolding assess_target
  assess_target-CanaryGrounds r e p =
      let (v, j, m) = >>=-eq-ok (judge_target profile fault node runtime) _ e in
      let (_, status, grade) = record_of-capability v r m in
      elim (judge_target-Grounded v j) [
        | inl (refusal, _) ↦ absurd (not-refused v r m p refusal)
        | inr (grounds, (original, shape)) ↦ (
          grounds,
          status ∙ ap (λ (w : Verdict). str w.status) shape,
          grade ∙ ap (λ (w : Verdict). str w.evidence_grade) shape,
        )
      ]
