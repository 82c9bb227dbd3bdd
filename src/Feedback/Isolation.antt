-- ===== src/Feedback/Isolation.antt =====
-- What a card that enters a later knowledge base satisfies (`build_next_kb` of
-- tools/feedback_protocol.py): no feedback from the same, a later or an unordered project.
use chaos_atlas.Prelude.{
  ℕ, ◌<◌, String, ◌≡◌, refl, sym, ap, ◌∙◌, ◌⊎◌, inl, inr, Bool, true, false, not, ◌||◌, Option,
  none, some, List, [], ◌∷◌, ◌++◌, arith, ◌==◌, if◌then◌else◌, nonempty, select, member, All,
  Bool-cases,
}
use chaos_atlas.Result.{ok-inj, Result, ok, err, ◌>>=◌, >>=-eq-ok}
use chaos_atlas.Value.{
  Value, null, obj, str, Dict, end, get, get_or, put, truthy, is_str, one_of, as_dict, as_list,
  text, arr, nil, of_list,
}
use chaos_atlas.Isolation.Contracts.{Hasher}
use chaos_atlas.Isolation.Contracts.Report.{failures-nil, append-nil_left, append-nil_right}
use chaos_atlas.Feedback.Boundary.{
  walk_strings, has_marker, marker_errors, repeats, boundary_tests, boundary_report, abstraction_of,
  boundary_errors, knowledge_projection,
}
use chaos_atlas.Feedback.NextKb.{
  Verdict, accept, reject, Precedence, earlier, compare_places, place, project_card, judge_content,
  judge_order, judge_card, judge_all, accepted_of, rows, card_ids, seen_in, merge_cards,
  next_kb_payload, build_next_kb,
}

abbrev Unmarked : List (String × String) → Type 0
Unmarked found = All (λ (e : String × String). has_marker e.1 ≡ false) found

-- What the boundary check accepts: no text of the abstraction holds a forbidden marker, a person
-- reviewed the card, and its verdict may be fed back.
abbrev pub WithinBoundary : Dict → Type 0
WithinBoundary card =
    Unmarked (walk_strings (abstraction_of card) "")
    × ((review : Dict) × (as_dict (get_or "review" card (obj end)) ≡ ok review)
        × (is_str "human_reviewed" (get "status" review) ≡ true))
    × (one_of ("confirmed_weakness" ∷ "protected" ∷ []) (get "classification" card) ≡ ok true)

marked_off :
    (b : Bool) (e : String) (rest : List String)
    → (if b then e ∷ rest else rest) ≡ []
    → (b ≡ false) × (rest ≡ [])
marked_off b e rest h = ground arith

unmarked : (found : List (String × String)) → marker_errors found ≡ [] → Unmarked found
unmarked [] h = tt
unmarked ((path, s) ∷ rest) h =
    let (clean, others) = marked_off (has_marker s) _ (marker_errors rest) h in
    (clean, unmarked rest others)

two_steps :
    {A : Type 0} (m : Result A) (n : Result Bool) (f : A → Bool → List String)
    → (m >>= λ a. n >>= λ b. ok (f a b)) ≡ ok []
    → (a : A) × (b : Bool) × (m ≡ ok a) × (n ≡ ok b) × (f a b ≡ [])
two_steps (ok a) (ok b) f p = (a, b, refl, refl, cc)
two_steps (ok a) (err e t) f p = cc
two_steps (err e t) n f p = cc

passes : (b : Bool) → not b ≡ false → b ≡ true
passes b h = ground arith

within : (card : Dict) → boundary_errors card null ≡ ok [] → WithinBoundary card
unfolding boundary_errors boundary_report
within card errors =
    let (review, eligible, e1, e2, none_left) =
      two_steps (as_dict (get_or "review" card (obj end)))
        (one_of ("confirmed_weakness" ∷ "protected" ∷ []) (get "classification" card))
        (boundary_report card null) errors in
    let found = walk_strings (abstraction_of card) "" in
    let tests = failures-nil (boundary_tests review eligible) (
      append-nil_right (repeats card null) _
        (append-nil_right (marker_errors found) _ none_left)) in
    (
      unmarked found (append-nil_left (marker_errors found) _ none_left),
      (review, e1, passes (is_str "human_reviewed" (get "status" review)) tests.0),
      rw (← passes eligible tests.1.0) e2,
    )

-- What lets a card into the knowledge base of the project `current`, as the projection `p`.
abbrev pub Admits : String → List String → String → List String → Dict → Dict → Type 0
Admits current targets round_id order card p =
    let project = text (get_or "project_id" card (str "")) in
    (is_str round_id (get "source_round_id" card) ≡ true)
    × (member project targets ≡ false)
    × ((project == current) ≡ false)
    × ((i : ℕ) × (j : ℕ) × (place project order ≡ some i)
        × (place current order ≡ some j)
        × (i < j))
    × (truthy (get "feedback_eligible" card) ≡ true)
    × WithinBoundary card
    × (knowledge_projection card ≡ ok p)

earlier_places :
    (current card : Option ℕ)
    → compare_places current card ≡ earlier
    → (i : ℕ) × (j : ℕ) × (card ≡ some i) × (current ≡ some j) × (i < j)
unfolding compare_places
earlier_places (some j) (some i) p = (i, j, refl, refl, ground arith)
earlier_places (some j) none p = cc
earlier_places none c p = cc

judge_order-accept :
    (o : Precedence) (card p : Dict)
    → judge_order o card ≡ ok (accept p)
    → (o ≡ earlier) × (judge_content card ≡ ok (accept p))
judge_order-accept o card p h = ground arith

project_card-accept : (r : Result Dict) (p : Dict) → project_card r ≡ ok (accept p) → r ≡ ok p
project_card-accept (ok q) p h = cc
project_card-accept (err e m) p h = ground arith

content_rest :
    (r : Result (List String)) (projection : Result Dict) (p : Dict)
    → (r >>= λ errors.
        if nonempty errors
        then ok (reject "knowledge_boundary_failed" errors)
        else project_card projection)
      ≡ ok (accept p)
    → (r ≡ ok []) × (projection ≡ ok p)
content_rest (ok []) projection p h = (refl, project_card-accept projection p h)
content_rest (ok (x ∷ xs)) projection p h = cc
content_rest (err e m) projection p h = cc

judge_content-accept :
    (card p : Dict)
    → judge_content card ≡ ok (accept p)
    → (truthy (get "feedback_eligible" card) ≡ true)
      × (boundary_errors card null ≡ ok [])
      × (knowledge_projection card ≡ ok p)
unfolding judge_content
judge_content-accept card p h = elim (Bool-cases (truthy (get "feedback_eligible" card))) [
  | inl e ↦
      let (clean, projected) =
        content_rest (boundary_errors card null) (knowledge_projection card) p (rw e at h) in
      (e, clean, projected)
  | inr e ↦ ground arith
]

three_tests :
    (round target same : Bool) (rest : Result Verdict) (p : Dict)
    → (if not round
        then ok (reject "round_mismatch" [])
        else if target || same
        then ok (reject "same_project_feedback_forbidden" [])
        else rest)
      ≡ ok (accept p)
    → (round ≡ true) × ((target ≡ false) × (same ≡ false)) × (rest ≡ ok (accept p))
three_tests round target same rest p h = ground arith

-- `card` is one of `cards`.
abbrev pub Among : Dict → List Dict → Type 0
Among card [] = ⊥
Among card (c ∷ cs) = (card ≡ c) ⊎ Among card cs

ordered :
    (current : String) (order : List String) (card p : Dict) (project : String)
    → judge_order (compare_places (place current order) (place project order)) card ≡ ok (accept p)
    → ((i : ℕ) × (j : ℕ) × (place project order ≡ some i)
        × (place current order ≡ some j)
        × (i < j))
      × (judge_content card ≡ ok (accept p))
ordered current order card p project h =
    let (first, judged) =
      judge_order-accept (compare_places (place current order) (place project order)) card p h in
    (earlier_places (place current order) (place project order) first, judged)

module _ (current : String) (targets : List String) (round_id : String) (order : List String) where
  judge_card-accept :
      (card p : Dict)
      → judge_card current targets round_id order card ≡ ok (accept p)
      → Admits current targets round_id order card p
  unfolding judge_card
  judge_card-accept card p h =
      let project = text (get_or "project_id" card (str "")) in
      let (round, foreign, rest) =
        three_tests (is_str round_id (get "source_round_id" card)) (member project targets)
          (project == current) _ p h in
      let (first, judged) = ordered current order card p project rest in
      let (eligible, clean, projected) = judge_content-accept card p judged in
      (round, foreign.0, foreign.1, first, eligible, within card clean, projected)

All-weaken :
    {A : Type 0} {P Q : A → Type 0} → ((x : A) → P x → Q x) → (xs : List A) → All P xs → All Q xs
All-weaken f [] h = tt
All-weaken f (x ∷ xs) (p, rest) = (f x p, All-weaken f xs rest)

All-select : (P : Dict → Type 0) (q : Dict → Bool) (xs : List Dict) → All P xs → All P (select q xs)
All-select P q [] h = tt
All-select P q (x ∷ xs) (p, rest) = elim (Bool-cases (q x)) [
  | inl e ↦ rw e (p, All-select P q xs rest)
  | inr e ↦ rw e (All-select P q xs rest)
]

module _ (current : String) (targets : List String) (round_id : String) (order : List String) where
  -- A card of the round from which the projection comes.
  abbrev pub Justified : List Dict → Dict → Type 0
  Justified cards p =
      (card : Dict) × Among card cards × Admits current targets round_id order card p

  abbrev Judged : List Dict → Dict × Verdict → Type 0
  Judged cards e = Among e.0 cards × (judge_card current targets round_id order e.0 ≡ ok e.1)

  later :
      (card : Dict) (cards : List Dict) (e : Dict × Verdict)
      → Judged cards e
      → Judged (card ∷ cards) e
  later card cards e (among, judged) = (inr among, judged)

  judge_all-Judged :
      (cards : List Dict) (verdicts : List (Dict × Verdict))
      → judge_all current targets round_id order cards ≡ ok verdicts
      → All (Judged cards) verdicts
  unfolding judge_all
  judge_all-Judged [] [] h = tt
  judge_all-Judged [] (v ∷ vs) h = cc
  judge_all-Judged (card ∷ cards) verdicts h =
      let (verdict, judged, tail) =
        >>=-eq-ok (judge_card current targets round_id order card) _ h in
      let (rest, others, done) =
        >>=-eq-ok (judge_all current targets round_id order cards) _ tail in
      let all = All-weaken (later card cards) rest (judge_all-Judged cards rest others) in
      rw (← ok-inj done) ((inl refl, judged), all)

  accepted_of-Justified :
      (cards : List Dict) (verdicts : List (Dict × Verdict))
      → All (Judged cards) verdicts
      → All (Justified cards) (accepted_of verdicts)
  accepted_of-Justified cards [] h = tt
  accepted_of-Justified cards ((card, accept p) ∷ rest) (j, js) = (
    (card, j.0, judge_card-accept current targets round_id order card p j.1),
    accepted_of-Justified cards rest js,
  )
  accepted_of-Justified cards ((card, reject reason errors) ∷ rest) (j, js) =
      accepted_of-Justified cards rest js

-- What a merged list of cards holds: the cards of the base, then justified projections whose
-- identifiers the base does not have.
abbrev Merged : List Value → List Dict → List Value → List Value → Type 0
Merged previous accepted seen merged =
    (card_ids previous ≡ ok seen)
    × (merged ≡ previous ++ rows (select (λ card. not (seen_in seen card)) accepted))

merge_cards-Merged :
    (previous : List Value) (accepted : List Dict) (merged : List Value)
    → merge_cards previous accepted ≡ ok merged
    → (seen : List Value) × Merged previous accepted seen merged
unfolding merge_cards
merge_cards-Merged previous accepted merged h =
    let (seen, known, run) = >>=-eq-ok (card_ids previous) _ h in
    let (_, _, done) = >>=-eq-ok (card_ids (rows accepted)) _ run in
    (seen, (known, sym (ok-inj done)))

cards_of :
    (h : Hasher) (base : Dict) (current : String) (targets : List String) (round_id : String)
    (verdicts : List (Dict × Verdict)) (merged : List Value) (kb : Dict)
    → (let payload = next_kb_payload base current targets round_id verdicts merged in
        put "snapshot_sha256" (str (h.canonical_hash (obj payload))) payload)
      ≡ kb
    → get "cards" kb ≡ arr (of_list merged)
unfolding next_kb_payload get put
cards_of h base current targets round_id verdicts merged kb e = rw (← e) refl

-- Whatever cards a round produced, the knowledge base that `build_next_kb` makes for the project
-- `current` holds the cards of the base in their order and, after them, only projections of cards
-- of this round whose project precedes `current` in the project order and is no target project,
-- which are marked eligible for feedback, were reviewed by a person, carry a verdict that may be
-- fed back and hold no forbidden marker in their abstraction.
pub build_next_kb-isolated :
    (h : Hasher) (base : Dict) (cards : List Dict) (current : String) (targets : List String)
    (round_id : String) (order : List String) (kb : Dict)
    → build_next_kb h base cards current targets round_id order ≡ ok kb
    → (previous : List Value) × (fresh : List Dict) × (as_list (get_or "cards" base (arr nil))
        ≡ ok previous)
      × (get "cards" kb ≡ arr (of_list (previous ++ rows fresh)))
      × All (Justified current targets round_id order cards) fresh
unfolding build_next_kb
build_next_kb-isolated h base cards current targets round_id order kb run =
    let (verdicts, judged, run1) =
      >>=-eq-ok (judge_all current targets round_id order cards) _ run in
    let (previous, old, run2) = >>=-eq-ok (as_list (get_or "cards" base (arr nil))) _ run1 in
    let (merged, merge, done) = >>=-eq-ok (merge_cards previous (accepted_of verdicts)) _ run2 in
    let (seen, (known, shape)) = merge_cards-Merged previous (accepted_of verdicts) merged merge in
    (
      previous,
      select (λ card. not (seen_in seen card)) (accepted_of verdicts),
      old,
      cards_of h base current targets round_id verdicts merged kb (ok-inj done)
          ∙ ap (λ vs. arr (of_list vs)) shape,
      All-select _ (λ card. not (seen_in seen card)) (accepted_of verdicts)
          (accepted_of-Justified current targets round_id order cards verdicts
            (judge_all-Judged current targets round_id order cards verdicts judged)),
    )
