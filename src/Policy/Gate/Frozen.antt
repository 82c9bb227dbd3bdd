-- ===== src/Policy/Gate/Frozen.antt =====
-- The selection gate stays within the frozen list of candidates (tools/policy_selection_gate.py).
use chaos_atlas.Prelude.{
  ℕ, zero, suc, String, ◌≡◌, inl, inr, Bool, true, false, not, none, List, [], ◌∷◌, arith, ◌==◌,
  if◌then◌else◌, any, member, ℤ, pos, ltb_ℤ, pos_part, eq_iff, All, Bool-cases,
}
use chaos_atlas.Result.{
  ok-inj, Result, ok, err, raise_if, >>=-eq-ok, >>-eq-ok, raise_if-eq-ok, is_interrupt, value_error,
}
use chaos_atlas.Value.{Value, obj, Dict, end, get, either, present, as_dict}
use chaos_atlas.Policy.Gate.{
  Scoring, Selection, modes, deciding_modes, candidate_ids, take_ids, legacy_selection,
  stopped_selection, scored_ids, handle, score_candidates, apply_policy,
  select_candidates_with_policy,
}

-- Each of the identifiers is one of `ids`.
abbrev pub Within : List String → List String → Type 0
Within ids chosen = All (λ id. member id ids ≡ true) chosen

Within-more : (i : String) (ids chosen : List String) → Within ids chosen → Within (i ∷ ids) chosen
Within-more i ids [] w = tt
Within-more i ids (c ∷ cs) (p, w) = (ground arith, Within-more i ids cs w)

take_ids-Within : (n : ℕ) (ids : List String) → Within ids (take_ids n ids)
take_ids-Within zero ids = tt
take_ids-Within (suc n) [] = tt
take_ids-Within (suc n) (id ∷ ids) =
    (ground (arith, eq_iff id id), Within-more id ids _ (take_ids-Within n ids))

scored-Within :
    (ids chosen : List String) → any (λ id. not (member id ids)) chosen ≡ false → Within ids chosen
scored-Within ids [] p = tt
scored-Within ids (c ∷ cs) p = (ground arith, scored-Within ids cs (ground arith))

-- What the selection of a run of the gate holds.
abbrev pub InFrozen : List String → Selection → Type 0
InFrozen ids selection = Within ids selection.execution_ids × Within ids selection.selected_ids

either-Within :
    (b : Bool) (ids xs ys : List String)
    → Within ids xs
    → Within ids ys
    → Within ids (if b then xs else ys)
either-Within true ids xs ys p q = p
either-Within false ids xs ys p q = q

carry : (ids : List String) (a b : Selection) → a ≡ b → InFrozen ids a → InFrozen ids b
carry ids a b e i = rw (← e) i

branch :
    (b : Bool) (x y : Result Selection) (ids : List String) (selection : Selection)
    → (x ≡ ok selection → InFrozen ids selection)
    → (y ≡ ok selection → InFrozen ids selection)
    → (if b then x else y) ≡ ok selection
    → InFrozen ids selection
branch true x y ids selection p q e = p e
branch false x y ids selection p q e = q e

module _ (scoring : Scoring) (mode : String) (state context : Dict) where
  score_candidates-InFrozen :
      (candidates : List Value) (ids legacy : List String) (budget : ℕ) (selection : Selection)
      → score_candidates scoring mode state context candidates ids legacy budget ≡ ok selection
      → Within ids legacy
      → InFrozen ids selection
  unfolding score_candidates
  score_candidates-InFrozen candidates ids legacy budget selection p w =
      let (scores, _, p1) = >>=-eq-ok (scoring.policy_scores candidates state context budget) _ p in
      let (inside, done) = >>-eq-ok _ _ p1 in
      let chosen = scored-Within ids (scored_ids scores) (raise_if-eq-ok _ _ _ inside) in
      rw (← ok-inj done) (either-Within (member mode deciding_modes) ids _ _ chosen w, chosen)

  apply_policy-InFrozen :
      (candidates : List Value) (ids legacy : List String) (budget : ℕ) (selection : Selection)
      → apply_policy scoring mode state context candidates ids legacy budget ≡ ok selection
      → Within ids legacy
      → InFrozen ids selection
  unfolding apply_policy
  apply_policy-InFrozen candidates ids legacy budget selection p w =
      let (validation, _, p1) = >>=-eq-ok (scoring.validate_state state) _ p in
      let (_, p2) = >>-eq-ok _ _ p1 in
      let (states, _, p3) =
        >>=-eq-ok (as_dict (either (get "candidate_states" state) (obj end))) _ p2 in
      let (_, p4) = >>-eq-ok _ _ p3 in
      let (stop, _, p5) = >>=-eq-ok (scoring.evaluate_stop candidates states context) _ p4 in
      branch (present stop) (ok (stopped_selection legacy stop)) _ ids selection
        (λ q. rw (← ok-inj q) (w, tt))
        (λ q. score_candidates-InFrozen candidates ids legacy budget selection q w) p5

  handled-InFrozen :
      (r : Result Selection) (ids legacy : List String) (selection : Selection)
      → ((found : Selection) → r ≡ ok found → InFrozen ids found)
      → handle legacy r ≡ ok selection
      → Within ids legacy
      → InFrozen ids selection
  handled-InFrozen (ok found) ids legacy selection inside p w = inside selection p
  handled-InFrozen (err e m) ids legacy selection inside p w = elim (Bool-cases (is_interrupt e)) [
    | inl i ↦ absurd (cc (rw i at p))
    | inr i ↦ rw (← ok-inj (rw i at p)) (w, tt)
  ]

  -- Whatever the policy scores, and also where it fails and the gate falls back, the identifiers
  -- that the gate returns for execution, and those that it reports as selected, are among
  -- those that `candidate_ids` reads from the candidates it was given.
  pub select_candidates_with_policy-InFrozen :
      (candidates : List Value) (budget legacy_budget : ℤ) (selection : Selection)
      → select_candidates_with_policy scoring mode state context candidates budget legacy_budget
        ≡ ok selection
      → (ids : List String) × (candidate_ids [] candidates ≡ ok ids) × InFrozen ids selection
  unfolding select_candidates_with_policy
  select_candidates_with_policy-InFrozen candidates budget legacy_budget selection p =
      let (_, p1) = >>-eq-ok (raise_if (not (member mode modes)) value_error _) _ p in
      let (_, p2) = >>-eq-ok (raise_if (ltb_ℤ budget (pos 1)) value_error _) _ p1 in
      let (_, p3) = >>-eq-ok (raise_if (ltb_ℤ legacy_budget (pos 1)) value_error _) _ p2 in
      let (ids, found, p4) = >>=-eq-ok (candidate_ids [] candidates) _ p3 in
      let legacy = take_ids (pos_part legacy_budget) ids in
      let prefix = take_ids-Within (pos_part legacy_budget) ids in
      let run = apply_policy scoring mode state context candidates ids legacy (pos_part budget) in
      (
        ids,
        found,
        branch (mode == "legacy") (ok (legacy_selection legacy none)) (handle legacy run) ids
            selection
            (λ q. carry ids (legacy_selection legacy none) selection (ok-inj q) (prefix, tt))
            (λ q.
              handled-InFrozen run ids legacy selection
                (λ chosen c.
                  apply_policy-InFrozen candidates ids legacy (pos_part budget) chosen c prefix)
                q prefix)
            p4,
      )
