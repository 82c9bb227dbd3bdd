-- ===== src/Feedback/Classify.antt =====
-- `_truthy` and `classify_outcome` of tools/feedback_protocol.py.
use chaos_atlas.Prelude.{
  String, Bool, false, not, ◌&&◌, ◌||◌, List, [], ◌∷◌, if◌then◌else◌, member, pos, leb_ℤ,
}
use chaos_atlas.Result.{Result, ok, ◌>>=◌, and_then, or_else, all_ok}
use chaos_atlas.Value.{
  Value, int, obj, Dict, end, get, get_or, either, truthy, is_str, is_true, one_of, as_dict, to_int,
  text_of,
}

pub data Classification : Type 0 where
  confirmed_weakness protected latent_risk unsupported environment_blocked method_invalid :
      Classification

-- the texts of CLASSIFICATIONS
abbrev pub label : Classification → String
label confirmed_weakness = "confirmed_weakness"
label protected = "protected"
label latent_risk = "latent_risk"
label unsupported = "unsupported"
label environment_blocked = "environment_blocked"
label method_invalid = "method_invalid"

-- MIN_STABLE_REPRODUCTIONS of tools/reproduction_policy.py is 3.
abbrev pub reproduction_floor : Value
reproduction_floor = int (pos 3)

abbrev pub defense_claim_types : List String
defense_claim_types =
    "bounded_timeout" ∷ "retry" ∷ "fallback" ∷ "circuit_breaker" ∷ "redundancy"
    ∷ "graceful_degradation" ∷ "probe_restart_escape" ∷ []

abbrev pub weakness_evidence : List String
weakness_evidence =
    "baseline" ∷ "injection" ∷ "observation" ∷ "recovery" ∷ "cleanup" ∷ "independent_oracle" ∷ []

abbrev pub defense_evidence : List String
defense_evidence =
    "baseline" ∷ "injection" ∷ "observation" ∷ "recovery" ∷ "cleanup" ∷ "independent_oracle"
    ∷ "observation_window" ∷ "mechanism_evidence" ∷ []

abbrev status_passes : Value → Result Bool
status_passes (obj d) = one_of ("pass" ∷ "valid" ∷ "confirmed" ∷ []) (get "status" d)
status_passes _ = ok false

-- `_truthy(evidence, key)`
unfoldable pub attested : Dict → String → Result Bool
attested evidence key =
    let value = get key evidence in or_else (is_true value) (status_passes value)

-- `int(result.get("valid_reproductions", 0)) >= MIN_STABLE_REPRODUCTIONS`
unfoldable pub reproduced : Dict → Result Bool
reproduced result = do
  n ← to_int (get_or "valid_reproductions" result (int (pos 0)))
  ok (leb_ℤ (pos 3) n)

unfoldable pub classify_risk : Dict → Classification
classify_risk result =
    if truthy (get "static_risk" result) || is_str "unverifiable" (get "oracle_label" result)
    then latent_risk
    else unsupported

unfoldable pub defense_complete : Dict → Dict → Result Bool
defense_complete result evidence =
    and_then (member (text_of "defense_claim_type" result) defense_claim_types)
      (all_ok (attested evidence) defense_evidence)

unfoldable pub classify_defense : Dict → Dict → Value → Result Classification
classify_defense result evidence availability = do
  complete ← defense_complete result evidence
  ok (
      if is_str "availability_defended" availability && complete
      then protected
      else if is_str "protected" (get "oracle_label" result) && complete
      then protected
      else classify_risk result)

unfoldable pub classify_weakness : Dict → Dict → Value → Result Classification
classify_weakness result evidence availability = do
  complete ← all_ok (attested evidence) weakness_evidence
  degraded ←
      one_of
        ("availability_degraded" ∷ "recovery_timeout" ∷ "probe_restart_escape"
          ∷ "no_readiness_false_recovery" ∷ [])
        availability
  by_availability ← and_then (degraded && complete) (reproduced result)
  evidenced ←
      and_then (not by_availability && is_str "weakness" (get "oracle_label" result))
        (all_ok (attested evidence) weakness_evidence)
  by_oracle ← and_then evidenced (reproduced result)
  if by_availability || by_oracle
      then ok confirmed_weakness
      else classify_defense result evidence availability

abbrev blocked_labels : List String
blocked_labels = "environment_blocked" ∷ "platform_blocked" ∷ []

abbrev unsupported_labels : List String
unsupported_labels = "unsupported" ∷ "unavailable" ∷ "contradictory_evidence" ∷ []

-- the evidence gate, after the early returns
unfoldable pub classify_evidence : Dict → Result Classification
classify_evidence result = do
  evidence ← as_dict (either (get "evidence" result) (obj end))
  classify_weakness result evidence
      (either (get "availability_label" result) (get "oracle_label" result))

unfoldable pub is_blocked : Dict → Result Bool
is_blocked result =
    or_else
      (truthy (get "environment_blocked" result)
        || is_str "environment_blocked" (get "runner_status" result))
      (one_of blocked_labels (get "oracle_label" result))

unfoldable pub is_unsupported : Dict → Result Bool
is_unsupported result =
    or_else (truthy (get "unsupported" result))
      (one_of unsupported_labels (get "oracle_label" result))

unfoldable pub classify_supported : Dict → Result Classification
classify_supported result = do
  skip ← is_unsupported result
  if skip then ok unsupported else classify_evidence result

unfoldable pub classify_runnable : Dict → Result Classification
classify_runnable result = do
  blocked ← is_blocked result
  if blocked then ok environment_blocked else classify_supported result

unfoldable pub classify_outcome : Dict → Result Classification
classify_outcome result =
    if truthy (get "method_invalid" result)
      || is_str "method_invalid" (get "compiler_status" result)
    then ok method_invalid
    else classify_runnable result
