-- ===== src/Oracles/Contract/Assertions/Verdict.antt =====
-- The verdict of `evaluate_assertions` (oracles/transaction_contracts.py).
use chaos_atlas.Prelude.{
  String, ◌≡◌, refl, ap, ◌∙◌, Bool, true, false, not, ◌&&◌, ◌||◌, List, [], ◌∷◌, ◌++◌, arith,
  if◌then◌else◌, member, nonempty, all,
}
use chaos_atlas.Result.{ok, err, ok-inj, >>=-eq-ok}
use chaos_atlas.Value.{
  Value, arr, obj, nil, Dict, get, either, text_of, as_dict, as_list, is_dict, values,
}
use chaos_atlas.Oracles.Contract.Assertions.{
  Outcomes, set_outcome, evaluate_one, Evaluation, evaluate_from, all_passed, passes,
  evaluate_assertions,
}
use chaos_atlas.Oracles.Contract.Assertions.Total.{evaluate_one-returns, observed-object}

-- Each assertion has an identifier of its own, none of those in `taken`.
abbrev pub distinct : List String → List Value → Bool
distinct taken [] = true
distinct taken (v ∷ rest) = elim (as_dict v) [
  | ok assertion ↦
      not (member (text_of "id" assertion) taken)
      && distinct (taken ++ text_of "id" assertion ∷ []) rest
  | err e m ↦ false
]

abbrev names : Outcomes → List String
names [] = []
names ((id, b) ∷ rest) = id ∷ names rest

names-append :
    (rs : Outcomes) (id : String) (b : Bool) → names (rs ++ (id, b) ∷ []) ≡ names rs ++ id ∷ []
names-append [] id b = refl
names-append ((j, c) ∷ rs) id b = ap (λ (x : List String). j ∷ x) (names-append rs id b)

all_passed-append :
    (rs : Outcomes) (id : String) (b : Bool)
    → all_passed (rs ++ (id, b) ∷ []) ≡ (all_passed rs && b)
all_passed-append [] id b = ground arith
all_passed-append ((j, c) ∷ rs) id b = ground (arith, all_passed-append rs id b)

nonempty-append : (rs : Outcomes) (id : String) (b : Bool) → nonempty (rs ++ (id, b) ∷ []) ≡ true
nonempty-append [] id b = refl
nonempty-append ((j, c) ∷ rs) id b = refl

-- The outcome under a new identifier comes last.
set_outcome-append :
    (id : String) (b : Bool) (rs : Outcomes)
    → member id (names rs) ≡ false
    → set_outcome id b rs ≡ rs ++ (id, b) ∷ []
unfolding set_outcome
set_outcome-append id b [] e = refl
set_outcome-append id b ((j, c) ∷ rs) e = ground (arith, set_outcome-append id b rs)

conclude :
    (all_true none_failed some_result : Bool)
    → all_true ≡ none_failed
    → (some_result && all_true) ≡ ((some_result || false) && none_failed)
conclude all_true none_failed some_result e = ground arith

tally :
    (all_true passed : Bool) (failed : List String) (id : String)
    → all_true ≡ not (nonempty failed)
    → (all_true && passed) ≡ not (nonempty (if passed then failed else failed ++ id ∷ []))
tally all_true true [] id e = ground arith
tally all_true false [] id e = ground arith
tally all_true true (x ∷ failed) id e = ground arith
tally all_true false (x ∷ failed) id e = ground arith

both : (b c : Bool) → (not b && c) ≡ true → (b ≡ false) × (c ≡ true)
both true c e = absurd (cc)
both false c e = (refl, e)

seen :
    (some_result some_left some_before none_failed : Bool)
    → some_result ≡ true
    → ((some_result || some_left) && none_failed) ≡ ((some_before || true) && none_failed)
seen some_result some_left some_before none_failed e = ground arith

-- What `distinct` says of the first assertion and of the others.
distinct-cons :
    (taken : List String) (v : Value) (rest : List Value) (assertion : Dict)
    → as_dict v ≡ ok assertion
    → distinct taken (v ∷ rest) ≡ true
    → (member (text_of "id" assertion) taken ≡ false)
      × (distinct (taken ++ text_of "id" assertion ∷ []) rest ≡ true)
distinct-cons taken v rest assertion is_assertion d = both _ _ (rw (is_assertion, distinct) at d)

distinct-object :
    (taken : List String) (v : Value) (rest : List Value)
    → distinct taken (v ∷ rest) ≡ true
    → (assertion : Dict) × (as_dict v ≡ ok assertion)
unfolding as_dict
distinct-object taken (obj d) rest e = (d, refl)
distinct-object taken v rest e = absurd (cc)

module _ (observations variables : Dict) where
  -- The results hold the identifiers that are taken, and are all true as long as none failed.
  evaluate_from-passes :
      (assertions : List Value) (results : Outcomes) (failed : List String)
      (evaluation : Evaluation)
      → distinct (names results) assertions ≡ true
      → all_passed results ≡ not (nonempty failed)
      → evaluate_from observations variables results failed assertions ≡ ok evaluation
      → passes evaluation
        ≡ ((nonempty results || nonempty assertions) && not (nonempty evaluation.failed))
  unfolding evaluate_from
  evaluate_from-passes [] results failed evaluation d inv e =
      rw (← ok-inj e) (conclude (all_passed results) _ (nonempty results) inv)
  evaluate_from-passes (v ∷ rest) results failed evaluation d inv e =
      let (assertion, is_assertion, e1) = >>=-eq-ok (as_dict v) _ e in
      let id = text_of "id" assertion in
      let (passed, is_passed, e2) =
        >>=-eq-ok (evaluate_one assertion observations variables results) _ e1 in
      let (fresh, d1) = distinct-cons (names results) v rest assertion is_assertion d in
      let next : set_outcome id passed results ≡ results ++ (id, passed) ∷ [] =
        set_outcome-append id passed results fresh in
      let d2 : distinct (names (set_outcome id passed results)) rest ≡ true =
        rw next (rw (names-append results id passed) d1) in
      let inv2 =
        ap all_passed next
        ∙ (all_passed-append results id passed ∙ tally (all_passed results) passed failed id inv) in
      let done =
        evaluate_from-passes rest (set_outcome id passed results) _ evaluation d2 inv2 e2 in
      let some_result : nonempty (set_outcome id passed results) ≡ true =
        ap nonempty next ∙ nonempty-append results id passed in
      done
      ∙ seen _ (nonempty rest) (nonempty results) (not (nonempty evaluation.failed)) some_result

  -- Where all observations are objects, the evaluation returns.
  evaluate_from-returns :
      (assertions : List Value) (taken : List String) (results : Outcomes) (failed : List String)
      → all is_dict (values observations) ≡ true
      → distinct taken assertions ≡ true
      → (evaluation : Evaluation) × (evaluate_from observations variables results failed assertions
          ≡ ok evaluation)
  unfolding evaluate_from
  evaluate_from-returns [] taken results failed o d = (_, refl)
  evaluate_from-returns (v ∷ rest) taken results failed o d =
      let (assertion, is_assertion) = distinct-object taken v rest d in
      let (_, others) = distinct-cons taken v rest assertion is_assertion d in
      let (seen, is_seen) = observed-object observations (text_of "step_id" assertion) o in
      let (passed, is_passed) =
        evaluate_one-returns assertion observations variables results seen is_seen in
      rw is_assertion (rw is_passed (evaluate_from-returns rest _ _ _ o others))

-- The assertions of a contract are objects with identifiers of their own, and the observations are
-- objects: the evaluation returns, and it passes exactly if the contract has an assertion and none
-- of them failed.
pub evaluate_assertions-passes :
    (contract observations variables : Dict) (assertions : List Value)
    → as_list (either (get "assertions" contract) (arr nil)) ≡ ok assertions
    → distinct [] assertions ≡ true
    → all is_dict (values observations) ≡ true
    → (evaluation : Evaluation) × (evaluate_assertions contract observations variables
        ≡ ok evaluation)
      × (passes evaluation ≡ (nonempty assertions && not (nonempty evaluation.failed)))
unfolding evaluate_assertions
evaluate_assertions-passes contract observations variables assertions a d o =
    let (evaluation, e) = evaluate_from-returns observations variables assertions [] [] [] o d in
    (
      evaluation,
      rw a e,
      evaluate_from-passes observations variables assertions [] [] evaluation d refl e,
    )
