-- ===== src/Oracles/Contract/Approval.antt =====
-- What a frozen contract keeps of the contract that was approved
-- (oracles/transaction_contracts.py).
use chaos_atlas.Prelude.{
  String, ◌≡◌, refl, sym, ap, ◌∙◌, Bool, true, false, not, ◌&&◌, ◌||◌, List, [], ◌∷◌, arith,
  nonempty, nonempty-nil, eq_refl,
}
use chaos_atlas.Result.{ok, value_error, raise_if, ok-inj, >>=-eq-ok, >>-eq-ok, raise_if-eq-ok}
use chaos_atlas.Value.{
  Value, null, bool, int, str, arr, obj, Dict, get, item, put, without, truthy, is_str, is_str-eq,
  one_of, text, get-put, without-put, without_comm, without-put_ne,
}
use chaos_atlas.Isolation.Contracts.{Hasher, with_hash, failures, missing}
use chaos_atlas.Isolation.Contracts.Hashing.{get-with_hash, without-with_hash}
use chaos_atlas.Isolation.Contracts.Report.{failures-nil, append-nil}
use chaos_atlas.Isolation.Secrets.Redaction.{sorted_set-nil}
use chaos_atlas.Isolation.Blueprint.Resource.{dict_in}
use chaos_atlas.Oracles.Contract.Validate.{
  contract_schemas, contract_states, contract_required, without_approval, approval_subject_sha256,
  approved_by_human, head_tests, tail_tests, body_errors, contract_errors,
  validate_transaction_contract,
}
use chaos_atlas.Oracles.Contract.{assign, checked, record_human_approval, freeze_approved_contract}

-- The hash may be dropped first.
inward :
    (d : Dict)
    → without_approval d ≡ without "approval" (without "status" (without "contract_sha256" d))
unfolding without_approval
inward d =
    without_comm "contract_sha256" "approval" (without "status" d)
    ∙ ap (without "approval") (without_comm "contract_sha256" "status" d)

negated : {b : Bool} → not b ≡ false → b ≡ true
negated e = ground arith

-- what stands in a dictionary after an assignment
assigned :
    (key : String) (v d r : Value)
    → assign key v d ≡ ok r
    → (inner : Dict) × (r ≡ obj inner) × (get key inner ≡ v)
assigned key v (obj d) r e = (put key v d, sym (ok-inj e), get-put key key v d ∙ rw eq_refl refl)
assigned key v null r e = absurd (cc)
assigned key v (bool b) r e = absurd (cc)
assigned key v (int n) r e = absurd (cc)
assigned key v (str s) r e = absurd (cc)
assigned key v (arr vs) r e = absurd (cc)

settled : (final approved : Bool) → final ≡ true → (final && not approved) ≡ false → approved ≡ true
settled final approved t e = ground arith

module _ (h : Hasher) where
  without_approval-with_hash :
      (d : Dict) → without_approval (with_hash h d "contract_sha256") ≡ without_approval d
  without_approval-with_hash d =
      inward (with_hash h d "contract_sha256")
      ∙ (ap (λ (x : Dict). without "approval" (without "status" x))
            (without-with_hash h d "contract_sha256")
          ∙ sym (inward d))

  without_approval-put_status :
      (v : Value) (d : Dict) → without_approval (put "status" v d) ≡ without_approval d
  unfolding without_approval
  without_approval-put_status v d = rw (without-put "status" v d) refl

  without_approval-put_approval :
      (v : Value) (d : Dict) → without_approval (put "approval" v d) ≡ without_approval d
  unfolding without_approval
  without_approval-put_approval v d =
      rw (without-put_ne "status" "approval" v d refl)
        (rw (without-put "approval" v (without "status" d)) refl)

  final_status :
      (d : Dict) (b : Bool)
      → get "status" d ≡ str "frozen"
      → one_of ("approved" ∷ "frozen" ∷ []) (get "status" d) ≡ ok b
      → b ≡ true
  unfolding one_of
  final_status d b s e = sym (ok-inj (rw s at e))

  module _ (validate_v3 : Dict → List String) (is_iso : String → Bool) where
    -- A frozen contract without complaints holds the approval of a human.
    frozen-approved :
        (d : Dict)
        → validate_transaction_contract h validate_v3 d ≡ ok []
        → get "status" d ≡ str "frozen"
        → approved_by_human h d (dict_in "approval" d) ≡ true
    unfolding validate_transaction_contract contract_errors
    frozen-approved d e s =
        let (errors, c, j) = >>=-eq-ok (contract_errors h validate_v3 d) _ e in
        let (schema, c1, e1) = >>=-eq-ok (one_of contract_schemas (get "schema_version" d)) _ c in
        let (status, c2, e2) = >>=-eq-ok (one_of contract_states (get "status" d)) _ e1 in
        let (body, c3, e3) = >>=-eq-ok (body_errors h validate_v3 d) _ e2 in
        let (final, c4, e4) =
          >>=-eq-ok (one_of ("approved" ∷ "frozen" ∷ []) (get "status" d)) _ e3 in
        let none_left = ok-inj e4 ∙ sorted_set-nil errors (ok-inj j) in
        let (_, rest) = append-nil (missing contract_required d) _ none_left in
        let (_, rest') = append-nil (failures (head_tests h validate_v3 d schema status)) _ rest in
        let (_, rest'') = append-nil body _ rest' in
        let (tests, _) = append-nil (failures (tail_tests h validate_v3 d final)) _ rest'' in
        let (_, (record_test, _)) = failures-nil (tail_tests h validate_v3 d final) tests in
        settled final _ (final_status d final s c4) record_test

    checked-ok :
        (message : String) (d r : Dict)
        → checked h validate_v3 is_iso message d ≡ ok r
        → (r ≡ d) × (validate_transaction_contract h validate_v3 d ≡ ok [])
    checked-ok message d r e =
        let (errors, v, e1) = >>=-eq-ok (validate_transaction_contract h validate_v3 d) _ e in
        let (test, same) = >>-eq-ok (raise_if (nonempty errors) value_error _) _ e1 in
        (
          sym (ok-inj same),
          v ∙ ap ok (nonempty-nil errors (raise_if-eq-ok (nonempty errors) value_error _ test)),
        )

    freeze-keeps :
        (d f : Dict)
        → freeze_approved_contract h validate_v3 is_iso d ≡ ok f
        → (without_approval f ≡ without_approval d)
          × (get "approval" f ≡ get "approval" d)
          × (get "status" f ≡ str "frozen")
          × (validate_transaction_contract h validate_v3 f ≡ ok [])
    unfolding freeze_approved_contract
    freeze-keeps d f e =
        let (_, e1) =
          >>-eq-ok (raise_if (not (is_str "approved" (get "status" d))) value_error _) _ e in
        let (approved, a, e2) =
          >>=-eq-ok (checked h validate_v3 is_iso "invalid approved transaction Oracle: " d) _ e1 in
        let (same, _) = checked-ok _ d approved a in
        let frozen = put "status" (str "frozen") approved in
        let (is_frozen, valid) = checked-ok _ (with_hash h frozen "contract_sha256") f e2 in
        let keeps : without_approval (with_hash h frozen "contract_sha256") ≡ without_approval d =
          without_approval-with_hash frozen
          ∙ (without_approval-put_status (str "frozen") approved ∙ ap without_approval same) in
        (
          ap without_approval is_frozen ∙ keeps,
          ap (get "approval") is_frozen
              ∙ (get-with_hash h frozen "contract_sha256" "approval" refl
                  ∙ (get-put "status" "approval" (str "frozen") approved
                      ∙ ap (get "approval") same)),
          ap (get "status") is_frozen
              ∙ (get-with_hash h frozen "contract_sha256" "status" refl
                  ∙ get-put "status" "status" (str "frozen") approved),
          rw is_frozen valid,
        )

    -- A contract that was frozen has no complaints, holds the approval of a human for its own
    -- subject, and differs from the approved contract only in its status and hash.
    pub freeze_approved_contract-approved :
        (contract frozen : Dict)
        → freeze_approved_contract h validate_v3 is_iso contract ≡ ok frozen
        → (validate_transaction_contract h validate_v3 frozen ≡ ok [])
          × (approved_by_human h frozen (dict_in "approval" frozen) ≡ true)
          × (without_approval frozen ≡ without_approval contract)
          × (get "approval" frozen ≡ get "approval" contract)
          × (get "status" frozen ≡ str "frozen")
    freeze_approved_contract-approved contract frozen e =
        let (keeps, approval, status, valid) = freeze-keeps contract frozen e in
        (valid, frozen-approved frozen valid status, keeps, approval, status)

    -- An approval is recorded of a validated contract only, with the hash of its subject, and
    -- changes nothing else but the status and the hash.
    record-keeps :
        (d decision a : Dict)
        → record_human_approval h validate_v3 is_iso d decision ≡ ok a
        → (without_approval a ≡ without_approval d)
          × (get "status" d ≡ str "validated")
          × (approval : Dict) × (get "approval" a ≡ obj approval)
          × (get "record" approval
              ≡ obj (put "approved_subject_sha256" (str (approval_subject_sha256 h d)) decision))
    unfolding record_human_approval
    record-keeps d decision a e =
        let (first, e1) =
          >>-eq-ok (raise_if (not (is_str "validated" (get "status" d))) value_error _) _ e in
        let (_, e2) =
          >>-eq-ok
            (raise_if
              (not (is_str "approved" (get "decision" decision))
                || (not (truthy (get "reviewer" decision))
                    || not (truthy (get "reviewed_at" decision))))
              value_error _)
            _ e1 in
        let (_, e3) =
          >>-eq-ok (raise_if (not (is_iso (text (get "reviewed_at" decision)))) value_error _) _
            e2 in
        let (approval, p, e4) = >>=-eq-ok (item "approval" d) _ e3 in
        let subject = str (approval_subject_sha256 h d) in
        let entry = obj (put "approved_subject_sha256" subject decision) in
        let (recorded, r, e5) = >>=-eq-ok (assign "record" entry approval) _ e4 in
        let (inner, shape, held) = assigned "record" entry approval recorded r in
        let put_approval = put "approval" recorded d in
        let put_status = put "status" (str "approved") put_approval in
        rw (← ok-inj e5) (
          without_approval-with_hash put_status
              ∙ (without_approval-put_status (str "approved") put_approval
                  ∙ without_approval-put_approval recorded d),
          is_str-eq "validated" (get "status" d) (
              negated
                (raise_if-eq-ok (not (is_str "validated" (get "status" d))) value_error _ first)),
          inner,
          get-with_hash h put_status "contract_sha256" "approval" refl
              ∙ (get-put "status" "approval" (str "approved") put_approval
                  ∙ (get-put "approval" "approval" recorded d ∙ shape)),
          held,
        )

    -- What is frozen after an approval is the validated contract that the human approved, with the
    -- human's decision and the hash of that contract's subject as its approval.
    pub freeze_approved_contract-record_human_approval :
        (contract decision approved frozen : Dict)
        → record_human_approval h validate_v3 is_iso contract decision ≡ ok approved
        → freeze_approved_contract h validate_v3 is_iso approved ≡ ok frozen
        → (without_approval frozen ≡ without_approval contract)
          × (get "status" contract ≡ str "validated")
          × (approval : Dict) × (get "approval" frozen ≡ obj approval)
          × (get "record" approval
              ≡ obj (
                  put "approved_subject_sha256"
                    (str (approval_subject_sha256 h contract))
                    decision))
    freeze_approved_contract-record_human_approval contract decision approved frozen r f =
        let (same, validated, approval, held, recorded) =
          record-keeps contract decision approved r in
        let (keeps, kept, _, _) = freeze-keeps approved frozen f in
        (keeps ∙ same, validated, approval, kept ∙ held, recorded)
