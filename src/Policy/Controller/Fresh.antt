-- ===== src/Policy/Controller/Fresh.antt =====
-- The controller never repeats a candidate (tools/policy_controller.py).
use chaos_atlas.Prelude.{
  String, ◌≡◌, refl, ap, ◌∙◌, inl, inr, Bool, true, false, ◌&&◌, some, List, [], ◌∷◌, arith, ◌==◌,
  if◌then◌else◌, member, eq_iff, All, Bool-cases,
}
use chaos_atlas.Result.{ok-inj, Result, ok, err, value_error, ◌>>=◌, >>=-eq-ok}
use chaos_atlas.Value.{Dict, get, truthy, text, text_of}
use chaos_atlas.Policy.Gate.{
  Scoring, Selection, deciding_modes, candidate_ids, select_candidates_with_policy,
}
use chaos_atlas.Policy.Gate.Frozen.{Within, InFrozen, select_candidates_with_policy-InFrozen}
use chaos_atlas.Policy.Controller.{
  Controller, Decision, untried, as_values, first, executable, decide_among, next_decision,
}

some-inj : {A : Type 0} {a b : A} → some a ≡ some b → a ≡ b
some-inj e = cc

abbrev Untried : List String → Dict → Type 0
Untried attempted c = member (text (get "candidate_id" c)) attempted ≡ false

untried-Untried :
    (attempted : List String) (cs : List Dict) → All (Untried attempted) (untried attempted cs)
untried-Untried attempted [] = tt
untried-Untried attempted (c ∷ cs) =
    elim (Bool-cases (member (text (get "candidate_id" c)) attempted)) [
      | inl e ↦ rw e (untried-Untried attempted cs)
      | inr e ↦ rw e (e, untried-Untried attempted cs)
    ]

nonblank :
    (b : Bool) (s : String) → ((if b then s else "") == "") ≡ false → s ≡ (if b then s else "")
nonblank true s p = refl
nonblank false s p = cc

text_of-get :
    (c : Dict)
    → (text_of "candidate_id" c == "") ≡ false
    → text (get "candidate_id" c) ≡ text_of "candidate_id" c
unfolding text_of
text_of-get c p = nonblank (truthy (get "candidate_id" c)) (text (get "candidate_id" c)) p

abbrev New : List String → String → Type 0
New attempted id = member id attempted ≡ false

listed :
    (id : String) (b : Bool) (e f : String) (ids : Result (List String)) (found : List String)
    → (if id == ""
        then err value_error e
        else if b
        then err value_error f
        else ids >>= λ others. ok (id ∷ others))
      ≡ ok found
    → ((id == "") ≡ false) × ((others : List String) × (ids ≡ ok others) × (found ≡ id ∷ others))
listed id b e f (ok others) found p = (ground arith, (others, refl, ground arith))
listed id b e f (err x m) found p = ground arith

ids-New :
    (attempted : List String) (cs : List Dict) (seen ids : List String)
    → All (Untried attempted) cs
    → candidate_ids seen (as_values cs) ≡ ok ids
    → All (New attempted) ids
unfolding candidate_ids
ids-New attempted [] seen [] u p = tt
ids-New attempted [] seen (i ∷ is) u p = cc
ids-New attempted (c ∷ cs) seen ids (fresh, rest) p =
    let id = text_of "candidate_id" c in
    let (named, (others, later, shape)) =
      listed id (member id seen) _ _ (candidate_ids (id ∷ seen) (as_values cs)) ids p in
    rw shape (rw (text_of-get c named) at fresh, ids-New attempted cs (id ∷ seen) others rest later)

among-New :
    (attempted ids : List String) (id : String)
    → All (New attempted) ids
    → member id ids ≡ true
    → New attempted id
among-New attempted [] id w m = cc
among-New attempted (i ∷ is) id (n, w) m =
    ground (arith, among-New attempted is id w, eq_iff id i, eq_iff i id)

first-Within :
    (ids chosen : List String) (id : String)
    → Within ids chosen
    → first chosen ≡ some id
    → member id ids ≡ true
first-Within ids [] id w p = cc
first-Within ids (c ∷ cs) id w p = rw (← some-inj p) w.0

executable-Within :
    (mode : String) (ids : List String) (selection : Selection)
    → InFrozen ids selection
    → Within ids (executable mode selection)
executable-Within mode ids selection w =
    elim (Bool-cases (member mode deciding_modes && truthy selection.stop_reason)) [
      | inl e ↦ rw e tt
      | inr e ↦ rw e w.0
    ]

module _ (scoring : Scoring) (controller : Controller) (attempted : List String) where
  decide_among-New :
      (cs : List Dict) (decision : Decision) (id : String)
      → All (Untried attempted) cs
      → decide_among scoring controller cs ≡ ok decision
      → decision.candidate_id ≡ some id
      → New attempted id
  unfolding decide_among
  decide_among-New [] decision id u p e = cc
  decide_among-New (c ∷ cs) decision id u p e =
      let (selection, run, done) =
        >>=-eq-ok
          (select_candidates_with_policy scoring controller.mode controller.policy_state
            controller.context (as_values (c ∷ cs)) _ _)
          _ p in
      let (ids, found, inside) =
        select_candidates_with_policy-InFrozen scoring controller.mode _ _ _ _ _ selection run in
      among-New attempted ids id (ids-New attempted (c ∷ cs) [] ids u found) (
        first-Within ids (executable controller.mode selection) id
          (executable-Within controller.mode ids selection inside)
          (ap (λ (d : Decision). d.candidate_id) (ok-inj done) ∙ e))

  -- The candidate that the controller chooses was not attempted before, whatever the policy's state
  -- and scores are.
  pub next_decision-New :
      (decision : Decision) (id : String)
      → next_decision scoring controller attempted ≡ ok decision
      → decision.candidate_id ≡ some id
      → member id attempted ≡ false
  unfolding next_decision
  next_decision-New decision id p e =
      decide_among-New (untried attempted controller.candidates) decision id
        (untried-Untried attempted controller.candidates) p e
