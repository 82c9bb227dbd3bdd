-- ===== src/Feedback/Verdicts.antt =====
-- What a verdict of `classify_outcome` rests on (tools/feedback_protocol.py).
use chaos_atlas.Prelude.{
  String, ◌≡◌, ◌⊎◌, inl, inr, ◌≢◌, Bool, true, false, List, [], ◌∷◌, arith, member, All,
}
use chaos_atlas.Result.{Result, ok, ◌>>=◌, and_then, all_ok, >>=-eq-ok}
use chaos_atlas.Value.{Value, obj, Dict, end, get, either, truthy, is_str, as_dict, text_of}
use chaos_atlas.Feedback.Classify.{
  Classification, confirmed_weakness, protected, unsupported, environment_blocked, method_invalid,
  attested, reproduced, weakness_evidence, defense_evidence, defense_claim_types, defense_complete,
  classify_risk, classify_defense, classify_weakness, classify_evidence, classify_supported,
  classify_runnable, classify_outcome, is_blocked, is_unsupported,
}

-- Each of the keys is attested by the evidence.
abbrev pub Attests : Dict → List String → Type 0
Attests evidence keys = All (λ key. attested evidence key ≡ ok true) keys

-- The evidence that the result carries.
abbrev pub evidence_of : Dict → Result Dict
evidence_of result = as_dict (either (get "evidence" result) (obj end))

both_ok : (m n : Result Bool) → (m >>= λ b. and_then b n) ≡ ok true → (m ≡ ok true) × (n ≡ ok true)
both_ok m n p = ground arith

all_ok-true :
    (f : String → Result Bool) (keys : List String)
    → all_ok f keys ≡ ok true
    → All (λ key. f key ≡ ok true) keys
all_ok-true f [] p = tt
all_ok-true f (key ∷ keys) p =
    let (first, rest) = both_ok (f key) (all_ok f keys) p in (first, all_ok-true f keys rest)

classify_risk_weak : (result : Dict) → ¬ (classify_risk result ≡ confirmed_weakness)
unfolding classify_risk
classify_risk_weak result p = ground arith

classify_defense_weak :
    (result evidence : Dict) (availability : Value)
    → ¬ (classify_defense result evidence availability ≡ ok confirmed_weakness)
unfolding classify_defense
classify_defense_weak result evidence availability p = ground (arith, classify_risk_weak result)

classify_weakness_grounds :
    (result evidence : Dict) (availability : Value)
    → classify_weakness result evidence availability ≡ ok confirmed_weakness
    → (all_ok (attested evidence) weakness_evidence ≡ ok true) × (reproduced result ≡ ok true)
unfolding classify_weakness
classify_weakness_grounds result evidence availability p =
    ground (arith, classify_defense_weak result evidence availability)

-- None of the early returns of `classify_outcome` was taken.
abbrev pub Admissible : Dict → Type 0
Admissible result =
    (truthy (get "method_invalid" result) ≡ false)
    × (is_str "method_invalid" (get "compiler_status" result) ≡ false)
    × (is_blocked result ≡ ok false)
    × (is_unsupported result ≡ ok false)

admissible :
    (result : Dict) (c : Classification)
    → classify_outcome result ≡ ok c
    → (c ≡ method_invalid)
      ⊎ ((c ≡ environment_blocked)
          ⊎ ((c ≡ unsupported) ⊎ (Admissible result × (classify_evidence result ≡ ok c))))
unfolding classify_outcome classify_runnable classify_supported
admissible result c p = ground arith

evidence_verdict :
    (result : Dict) (c : Classification)
    → classify_outcome result ≡ ok c
    → c ≢ method_invalid
    → c ≢ environment_blocked
    → c ≢ unsupported
    → Admissible result × (classify_evidence result ≡ ok c)
evidence_verdict result c p n1 n2 n3 = elim (admissible result c p) [
  | inl e ↦ absurd (n1 e)
  | inr (inl e) ↦ absurd (n2 e)
  | inr (inr (inl e)) ↦ absurd (n3 e)
  | inr (inr (inr a)) ↦ a
]

-- A run is a confirmed weakness only if the method was valid, the environment was not blocked, all
-- six required pieces of evidence are attested and at least three reproductions were valid.
pub confirmed_weakness_grounds :
    (result : Dict)
    → classify_outcome result ≡ ok confirmed_weakness
    → Admissible result
      × (reproduced result ≡ ok true)
      × ((evidence : Dict) × (evidence_of result ≡ ok evidence)
          × Attests evidence weakness_evidence)
unfolding classify_evidence
confirmed_weakness_grounds result p =
    let (free, judged) =
      evidence_verdict result confirmed_weakness p (λ e. cc) (λ e. cc) (λ e. cc) in
    let (evidence, read, weak) = >>=-eq-ok (evidence_of result) _ judged in
    let (complete, enough) = classify_weakness_grounds result evidence _ weak in
    (free, enough, (evidence, read, all_ok-true (attested evidence) weakness_evidence complete))

classify_risk_open : (result : Dict) → ¬ (classify_risk result ≡ protected)
unfolding classify_risk
classify_risk_open result p = ground arith

classify_defense_grounds :
    (result evidence : Dict) (availability : Value)
    → classify_defense result evidence availability ≡ ok protected
    → defense_complete result evidence ≡ ok true
unfolding classify_defense
classify_defense_grounds result evidence availability p = ground (arith, classify_risk_open result)

classify_weakness_protected :
    (result evidence : Dict) (availability : Value)
    → classify_weakness result evidence availability ≡ ok protected
    → defense_complete result evidence ≡ ok true
unfolding classify_weakness
classify_weakness_protected result evidence availability p =
    ground (arith, classify_defense_grounds result evidence availability)

claimed : (b : Bool) (m : Result Bool) → and_then b m ≡ ok true → (b ≡ true) × (m ≡ ok true)
claimed b m p = ground arith

defense_complete_grounds :
    (result evidence : Dict)
    → defense_complete result evidence ≡ ok true
    → (member (text_of "defense_claim_type" result) defense_claim_types ≡ true)
      × (all_ok (attested evidence) defense_evidence ≡ ok true)
unfolding defense_complete
defense_complete_grounds result evidence p = claimed _ _ p

-- A run counts as protected only if the method was valid, the environment was not blocked, the
-- claimed mechanism is a known one and all eight required pieces of evidence are attested.
pub protected_grounds :
    (result : Dict)
    → classify_outcome result ≡ ok protected
    → Admissible result
      × (member (text_of "defense_claim_type" result) defense_claim_types ≡ true)
      × ((evidence : Dict) × (evidence_of result ≡ ok evidence) × Attests evidence defense_evidence)
unfolding classify_evidence
protected_grounds result p =
    let (free, judged) = evidence_verdict result protected p (λ e. cc) (λ e. cc) (λ e. cc) in
    let (evidence, read, defended) = >>=-eq-ok (evidence_of result) _ judged in
    let (claim, complete) =
      defense_complete_grounds result evidence
        (classify_weakness_protected result evidence _ defended) in
    (free, claim, (evidence, read, all_ok-true (attested evidence) defense_evidence complete))
