-- ===== src/Policy/Eligibility.antt =====
-- When a run may inform the policy: what `normalize_runtime_feedback` of tools/policy_controller.py
-- asks for, and what it makes of a run that it refuses.
use chaos_atlas.Prelude.{
  String, ◌≡◌, refl, ap, ◌∙◌, ◌⊎◌, inl, inr, Bool, true, false, Option, arith, ◌==◌, if◌then◌else◌,
  member, Bool-cases, zero, suc, pos, negsuc, leb_ℤ, parse_int, eq_iff,
}
use chaos_atlas.Result.{ok-inj, Result, ok, err, value_error, ◌>>=◌, and_then, >>=-eq-ok}
use chaos_atlas.Value.{
  Value, bool, str, int, Dict, get, has, update, truthy, is_true, is_str, either, to_int, get_or,
  get-put,
}
use chaos_atlas.Isolation.Contracts.{Hasher}
use chaos_atlas.Feedback.Classify.{
  Classification, confirmed_weakness, protected, latent_risk, unsupported, environment_blocked,
  method_invalid, label, classify_outcome, reproduced,
}
use chaos_atlas.Feedback.Card.{set_default}
use chaos_atlas.Feedback.Verdicts.{confirmed_weakness_grounds}
use chaos_atlas.Policy.Feedback.{
  Directory, Ruling, rule, demote, policy_label, policy_classification, enough_reproductions,
  merge_artifacts, feedback_row, normalize_runtime_feedback, weakness_labels,
}
use chaos_atlas.Policy.Ruling.{Grounds, rule-eligible, rule-refused, rule-reason}

set_default-get :
    (key k : String) (v : Value) (d : Dict)
    → (key == k) ≡ false
    → get k (set_default key v d) ≡ get k d
unfolding set_default
set_default-get key k v d apart = elim (Bool-cases (has key d)) [
  | inl e ↦ rw e refl
  | inr e ↦ rw (e, get-put, apart) refl
]

empty_number : to_int (str "") ≡ err value_error "invalid literal for int()"
unfolding to_int parse_int
empty_number = refl

not_counted : (s : String) → s ≡ "" → (to_int (str s) >>= λ n. ok (leb_ℤ (pos 3) n)) ≡ ok true → ⊥
not_counted s e p = cc (rw (e, empty_number) at p)

-- What counts up to three is truthy.
counted : (v : Value) → (to_int v >>= λ n. ok (leb_ℤ (pos 3) n)) ≡ ok true → truthy v ≡ true
unfolding truthy to_int
counted (bool true) p = refl
counted (bool false) p = cc
counted (int (pos zero)) p = cc
counted (int (pos (suc n))) p = refl
counted (int (negsuc n)) p = refl
counted (str s) p = elim (Bool-cases (s == "")) [
  | inl e ↦ absurd (not_counted s ((eq_iff s "").0 e) p)
  | inr e ↦ rw e refl
]
counted _ p = cc

either-truthy : (v w : Value) → truthy v ≡ true → either v w ≡ v
unfolding either
either-truthy v w t = rw t refl

-- Enough reproductions in the sense of `classify_outcome` are enough here.
reproduced-enough : (run : Dict) → reproduced run ≡ ok true → enough_reproductions run ≡ ok true
unfolding reproduced enough_reproductions
reproduced-enough run p =
    let v = get_or "valid_reproductions" run (int (pos 0)) in
    rw (either-truthy v (int (pos 0)) (counted v p)) p

weak_enough :
    (run : Dict) → classify_outcome run ≡ ok confirmed_weakness → enough_reproductions run ≡ ok true
weak_enough run p = reproduced-enough run (confirmed_weakness_grounds run p).1

both_ok : (b : Bool) (m : Result Bool) → and_then b m ≡ ok true → m ≡ ok true
both_ok b m p = ground arith

other_labels :
    (a b : Bool) (m : Result Classification)
    → (if a then ok protected else if b then ok latent_risk else m) ≡ ok confirmed_weakness
    → m ≡ ok confirmed_weakness
other_labels true b m p = cc
other_labels false true m p = cc
other_labels false false m p = p

-- A confirmed weakness was reproduced often enough, by whichever way it was classified.
classified_enough :
    (run : Dict) (name : String)
    → policy_classification run name ≡ ok confirmed_weakness
    → enough_reproductions run ≡ ok true
unfolding policy_classification
classified_enough run name p =
    let (stable, s, p1) =
      >>=-eq-ok (and_then (member name weakness_labels) (enough_reproductions run)) _ p in
    elim (Bool-cases stable) [
      | inl e ↦ both_ok (member name weakness_labels) (enough_reproductions run) (rw e at s)
      | inr e ↦ weak_enough run (other_labels _ _ (classify_outcome run) (rw e at p1))
    ]

module _ (h : Hasher) where
  row_fields :
      (run : Dict) (r : Ruling)
      → (get "eligible" (feedback_row h run r) ≡ bool r.eligible)
        × (get "classification" (feedback_row h run r) ≡ str (label r.classification))
        × (get "eligibility_reason" (feedback_row h run r) ≡ str r.reason)
  unfolding feedback_row update
  row_fields run r = (
    set_default-get "result_sha256" "eligible" _ _ refl ∙ simp get-put,
    set_default-get "result_sha256" "classification" _ _ refl ∙ simp get-put,
    set_default-get "result_sha256" "eligibility_reason" _ _ refl ∙ simp get-put,
  )

  shown :
      (run feedback : Dict) (r : Ruling)
      → ok (feedback_row h run r) ≡ ok feedback
      → (get "eligible" feedback ≡ bool r.eligible)
        × (get "classification" feedback ≡ str (label r.classification))
        × (get "eligibility_reason" feedback ≡ str r.reason)
  shown run feedback r done = rw (← ok-inj done) (row_fields run r)

  flag : (v : Value) (b c : Bool) → v ≡ bool b → is_true v ≡ c → b ≡ c
  unfolding is_true
  flag v b c p q = rw p at q

  named :
      (v : Value) (s : String) → v ≡ str s → (s == "eligible") ≡ false → is_str "eligible" v ≡ false
  unfolding is_str
  named v s p n = rw p n

  weak_count :
      (run : Dict) (c : Classification)
      → policy_classification run (policy_label run) ≡ ok c
      → c ≡ confirmed_weakness
      → enough_reproductions run ≡ ok true
  weak_count run c p e = classified_enough run (policy_label run) (rw e at p)

  -- A feedback row that is eligible comes from a completed run, the given result with what the
  -- reports of its directory add, whose cleanup was verified, with a
  -- bounded or confirmed cause, a complete attested lifecycle, a valid oracle and complete evidence;
  -- its reason is `eligible`, and as a confirmed weakness it was reproduced at least three times.
  pub normalize-Grounds :
      (result : Dict) (child_root : Option Directory) (feedback : Dict)
      → normalize_runtime_feedback h result child_root ≡ ok feedback
      → is_true (get "eligible" feedback) ≡ true
      → (c : Classification) × (get "classification" feedback ≡ str (label c))
        × (get "eligibility_reason" feedback ≡ str "eligible")
        × ((run : Dict) × (merge_artifacts child_root result ≡ ok run)
            × Grounds run c
            × (c ≡ confirmed_weakness → enough_reproductions run ≡ ok true))
  unfolding normalize_runtime_feedback
  normalize-Grounds result child_root feedback p e =
      let (run, merged, ruling) = >>=-eq-ok (merge_artifacts child_root result) _ p in
      let (r, ruled, done) = >>=-eq-ok (rule run) _ ruling in
      let (flagged, classified, reasoned) = shown run feedback r done in
      let eligible = flag _ _ true flagged e in
      let (grounds, judged) = rule-eligible run r ruled eligible in
      (
        r.classification,
        classified,
        reasoned ∙ ap str (rule-reason run r ruled eligible),
        (run, merged, grounds, weak_count run r.classification judged),
      )

  demoted :
      (c : Classification)
      → demote c ≡ c
      → (c ≡ unsupported) ⊎ ((c ≡ environment_blocked) ⊎ (c ≡ method_invalid))
  demoted environment_blocked e = inr (inl refl)
  demoted method_invalid e = inr (inr refl)
  demoted unsupported e = inl refl
  demoted c e = absurd (cc)

  -- A feedback row that is not eligible names a reason other than `eligible` and is classified as
  -- unsupported, as a blocked environment or as an invalid method.
  pub normalize-refused :
      (result : Dict) (child_root : Option Directory) (feedback : Dict)
      → normalize_runtime_feedback h result child_root ≡ ok feedback
      → is_true (get "eligible" feedback) ≡ false
      → (c : Classification) × (get "classification" feedback ≡ str (label c))
        × ((c ≡ unsupported) ⊎ ((c ≡ environment_blocked) ⊎ (c ≡ method_invalid)))
        × (is_str "eligible" (get "eligibility_reason" feedback) ≡ false)
  unfolding normalize_runtime_feedback
  normalize-refused result child_root feedback p e =
      let (run, merged, ruling) = >>=-eq-ok (merge_artifacts child_root result) _ p in
      let (r, ruled, done) = >>=-eq-ok (rule run) _ ruling in
      let (flagged, classified, reasoned) = shown run feedback r done in
      let (closed, reason) = rule-refused run r ruled (flag _ _ false flagged e) in
      (
        r.classification,
        classified,
        demoted r.classification closed,
        named _ r.reason reasoned reason,
      )
