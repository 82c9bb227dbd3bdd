-- ===== src/Capabilities/Grades.antt =====
-- The strongest grade and the aggregate of statuses (capabilities/contracts.py).
use chaos_atlas.Prelude.{
  ℕ, suc, ◌+◌, ◌≤◌, ◌<◌, String, ◌≡◌, refl, sym, ap, ◌∙◌, ◌⊎◌, inl, inr, Bool, true, false, not,
  ◌&&◌, ◌||◌, List, [], ◌∷◌, map, arith, ◌==◌, if◌then◌else◌, ltb, member, eq_iff, eq_refl,
  member-cons, Bool-cases, All, strip,
}
use chaos_atlas.Result.{
  ok-inj, ok, value_error, ◌>>◌, raise_if, >>=-eq-ok, >>-eq-ok, raise_if-eq-ok,
}
use native.Mathlib.Nat.{le_trans, le_refl}
use chaos_atlas.Value.{Value, str, either, text}
use chaos_atlas.Capabilities.Contracts.{
  capability_statuses, legacy_status, priority, index_of, normalize_capability_status,
  evidence_grades, grade_text, grade_rank, evidence_grade_rank, max_grade, max_of_grades,
  strongest_evidence_grade, normalized_statuses, min_status, min_of_statuses,
  aggregate_capability_status,
}

-- The text has a rank, which is at most `n`.
abbrev pub RankAtMost : ℕ → String → Type 0
RankAtMost n value = (m : ℕ) × (evidence_grade_rank (str value) ≡ ok m) × (m ≤ n)

RankAtMost-weaken : (n n' : ℕ) (value : String) → n ≤ n' → RankAtMost n value → RankAtMost n' value
RankAtMost-weaken n n' value le (m, r, b) = (m, r, omega arith)

-- What the loop has found when it ends.
abbrev Found : ℕ → List String → String → Type 0
Found rank values g =
    (n : ℕ) × (evidence_grade_rank (str g) ≡ ok n) × (rank ≤ n) × (All (RankAtMost n) values)

max_grade-Found :
    (best : String) (rank : ℕ) (values : List String) (g : String)
    → evidence_grade_rank (str best) ≡ ok rank
    → max_grade best rank values ≡ ok g
    → Found rank values g
unfolding max_grade
max_grade-Found best rank [] g b e = (rank, rw (← ok-inj e) b, omega arith, tt)
max_grade-Found best rank (value ∷ values) g b e =
    let (next, r, j) = >>=-eq-ok (evidence_grade_rank (str value)) _ e in
    elim (Bool-cases (ltb rank next)) [
      | inl up ↦
          let (n, at, le, all) = max_grade-Found value next values g r (rw up at j) in
          (n, at, ground arith, ((next, r, le), all))
      | inr down ↦
          let (n, at, le, all) = max_grade-Found best rank values g b (rw down at j) in
          (n, at, le, ((next, r, ground arith), all))
    ]

max_grade-member :
    (best : String) (rank : ℕ) (values : List String) (g : String)
    → max_grade best rank values ≡ ok g
    → member g (best ∷ values) ≡ true
unfolding max_grade
max_grade-member best rank [] g e = rw (← ok-inj e) (rw eq_refl refl)
max_grade-member best rank (value ∷ values) g e =
    let (next, r, j) = >>=-eq-ok (evidence_grade_rank (str value)) _ e in
    elim (Bool-cases (ltb rank next)) [
      | inl up ↦ ground (arith, max_grade-member value next values g (rw up at j))
      | inr down ↦ ground (arith, max_grade-member best rank values g (rw down at j))
    ]

-- The strongest of some grades is one of them, and `E0` that of none.
abbrev pub Strongest : String → List String → Type 0
Strongest g [] = g ≡ "E0"
Strongest g (value ∷ values) = member g (value ∷ values) ≡ true

max_of_grades-Strongest :
    (values : List String) (g : String) → max_of_grades values ≡ ok g → Strongest g values
unfolding max_of_grades
max_of_grades-Strongest [] g e = sym (ok-inj e)
max_of_grades-Strongest (value ∷ values) g e =
    let (rank, r, j) = >>=-eq-ok (evidence_grade_rank (str value)) _ e in
    max_grade-member value rank values g j

All-map :
    (P : String → Type 0) (f : Value → String) (vs : List Value)
    → All P (map f vs)
    → All (λ v. P (f v)) vs
All-map P f [] all = tt
All-map P f (v ∷ vs) (p, all) = (p, All-map P f vs all)

rank_e0 : evidence_grade_rank (str "E0") ≡ ok 0
unfolding grade_text grade_rank chaos_atlas.Value.either chaos_atlas.Value.truthy
    chaos_atlas.Value.text chaos_atlas.Prelude.strip chaos_atlas.Prelude.uppercase
rank_e0 = refl

max_of_grades-Found :
    (values : List String) (g : String)
    → max_of_grades values ≡ ok g
    → (n : ℕ) × (evidence_grade_rank (str g) ≡ ok n) × (All (RankAtMost n) values)
unfolding max_of_grades
max_of_grades-Found [] g e = (0, rw (← ok-inj e) rank_e0, tt)
max_of_grades-Found (value ∷ values) g e =
    let (rank, r, j) = >>=-eq-ok (evidence_grade_rank (str value)) _ e in
    let (n, at, le, all) = max_grade-Found value rank values g r j in (n, at, ((rank, r, le), all))

index_bound : (s : String) → member s evidence_grades ≡ true → index_of s evidence_grades < 5
index_bound s m = ground arith

grade_rank-bound : (value shown : String) (n : ℕ) → grade_rank value shown ≡ ok n → n < 5
unfolding grade_rank
grade_rank-bound value shown n e = elim (Bool-cases (member value evidence_grades)) [
  | inl m ↦ rw (← ok-inj (rw m at e)) (index_bound value m)
  | inr m ↦ cc (rw m at e)
]

capped : (d : Bool) (rank n : ℕ) → (d && ltb 1 rank) ≡ false → rank ≡ n → (d ≡ false) ⊎ (n ≤ 1)
capped false rank n e same = inl refl
capped true rank n e same = inr (ground arith)

-- The strongest grade is one of the list, or E0 where the list is empty; it has a rank below five
-- that no grade of the list exceeds, and, where the grades come from discovery only, at most the rank
-- of E1.
pub strongest_evidence_grade-bounds :
    (grades : List Value) (discovery_only : Bool) (strongest : String)
    → strongest_evidence_grade grades discovery_only ≡ ok strongest
    → (Strongest strongest (map grade_text grades))
      × (n : ℕ) × (evidence_grade_rank (str strongest) ≡ ok n)
      × (n < 5)
      × (All (λ grade. RankAtMost n (grade_text grade)) grades)
      × ((discovery_only ≡ false) ⊎ (n ≤ 1))
unfolding strongest_evidence_grade
strongest_evidence_grade-bounds grades discovery_only strongest e =
    let (s, f, j) = >>=-eq-ok (max_of_grades (map grade_text grades)) _ e in
    let (rank, r, k) = >>=-eq-ok (evidence_grade_rank (str s)) _ j in
    let (test, same) = >>-eq-ok (raise_if (discovery_only && ltb 1 rank) value_error _) _ k in
    let (n, at, all) = max_of_grades-Found (map grade_text grades) s f in
    rw (← ok-inj same) (
      max_of_grades-Strongest (map grade_text grades) s f,
      n,
      at,
      grade_rank-bound (grade_text (str s)) _ n at,
      All-map (RankAtMost n) grade_text grades all,
      capped discovery_only rank n
          (raise_if-eq-ok (discovery_only && ltb 1 rank) value_error _ test) (ok-inj (sym r ∙ at)),
    )

-- The status is normal, and none of its kind in the list comes before `best`.
abbrev pub NotBefore : String → Value → Type 0
NotBefore best status =
    (normalized : String) × (raw : String) × (normalize_capability_status status
      ≡ ok (normalized, raw))
    × (priority best ≤ priority normalized)

low : (a b c : ℕ) → ltb a b ≡ true → c ≤ a → c ≤ b
low a b c t le = ground arith

high : (a b c : ℕ) → ltb a b ≡ false → c ≤ b → c ≤ a
high a b c t le = ground arith

-- the lesser of two statuses
picked :
    (b : Bool) (s best : String)
    → ltb (priority s) (priority best) ≡ b
    → member s capability_statuses ≡ true
    → member best capability_statuses ≡ true
    → (member (if b then s else best) capability_statuses ≡ true)
      × (priority (if b then s else best) ≤ priority best)
      × (priority (if b then s else best) ≤ priority s)
picked true s best t n m = (n, low (priority s) (priority best) _ t (le_refl _), (le_refl _))
picked false s best t n m = (m, (le_refl _), high (priority s) (priority best) _ t (le_refl _))

min_status-member :
    (best : String) (statuses : List String)
    → member (min_status best statuses) (best ∷ statuses) ≡ true
unfolding min_status
min_status-member best [] = rw eq_refl refl
min_status-member best (s ∷ ss) =
    picked_member (ltb (priority s) (priority best)) s best ss (min_status-member s ss)
      (min_status-member best ss)
  where
    picked_member :
        (b : Bool) (s best : String) (ss : List String)
        → member (min_status s ss) (s ∷ ss) ≡ true
        → member (min_status best ss) (best ∷ ss) ≡ true
        → member (min_status (if b then s else best) ss) (best ∷ s ∷ ss) ≡ true
    picked_member true s best ss p q = ground arith
    picked_member false s best ss p q = ground arith

min_status-least :
    (best : String) (statuses : List String)
    → member best capability_statuses ≡ true
    → All (λ s. member s capability_statuses ≡ true) statuses
    → (member (min_status best statuses) capability_statuses ≡ true)
      × (priority (min_status best statuses) ≤ priority best)
      × (All (λ s. priority (min_status best statuses) ≤ priority s) statuses)
unfolding min_status
min_status-least best [] m all = (m, omega arith, tt)
min_status-least best (s ∷ ss) m (n, all) =
    let (found, le_best, le_s) = picked (ltb (priority s) (priority best)) s best refl n m in
    let (kept, le, least) =
      min_status-least (if ltb (priority s) (priority best) then s else best) ss found all in
    (kept, le_trans le le_best, (le_trans le le_s, least))

checked :
    (b : Bool) (pair result : String × String) (m : String)
    → member pair.0 capability_statuses ≡ b
    → (raise_if (not b) value_error m >> ok pair) ≡ ok result
    → member result.0 capability_statuses ≡ true
checked true pair result m t e = rw (← ap (λ (p : String × String). p.0) (ok-inj e)) t
checked false pair result m t e = cc

normalized_member :
    (status : Value) (normalized raw : String)
    → normalize_capability_status status ≡ ok (normalized, raw)
    → member normalized capability_statuses ≡ true
unfolding normalize_capability_status
normalized_member status normalized raw e =
    let given = strip (text (either status (str "inapplicable"))) in
    checked (member (legacy_status given) capability_statuses) (legacy_status given, given)
      (normalized, raw) _ refl e

-- The normal statuses are those of the list, one for one.
normalized_statuses-NotBefore :
    (statuses : List Value) (normalized : List String)
    → normalized_statuses statuses ≡ ok normalized
    → (All (λ s. member s capability_statuses ≡ true) normalized)
      × ((best : String)
          → All (λ s. priority best ≤ priority s) normalized
          → All (NotBefore best) statuses)
unfolding normalized_statuses
normalized_statuses-NotBefore [] ns e = (rw (← ok-inj e) tt, λ best all. tt)
normalized_statuses-NotBefore (status ∷ statuses) ns e =
    let ((normal, raw), n, j) = >>=-eq-ok (normalize_capability_status status) _ e in
    let (rest, r, k) = >>=-eq-ok (normalized_statuses statuses) _ j in
    let (members, least) = normalized_statuses-NotBefore statuses rest r in
    rw (← ok-inj k) (
      (normalized_member status normal raw n, members),
      λ best all. ((normal, raw, n, all.0), least best all.1),
    )

-- A status of the list is, made normal, the given one; there is none where the list is empty.
abbrev pub Reached : String → List Value → Type 0
Reached best [] = ⊥
Reached best (status ∷ statuses) =
    ((raw : String) × (normalize_capability_status status ≡ ok (best, raw))) ⊎ Reached best statuses

abbrev pub Aggregated : String → List Value → Type 0
Aggregated best [] = best ≡ "inapplicable"
Aggregated best (status ∷ statuses) = Reached best (status ∷ statuses)

normalized_statuses-Reached :
    (statuses : List Value) (normalized : List String) (best : String)
    → normalized_statuses statuses ≡ ok normalized
    → member best normalized ≡ true
    → Reached best statuses
unfolding normalized_statuses
normalized_statuses-Reached [] ns best e m = cc (rw (← ok-inj e) at m)
normalized_statuses-Reached (status ∷ statuses) ns best e m =
    let ((normal, raw), n, j) = >>=-eq-ok (normalize_capability_status status) _ e in
    let (rest, r, k) = >>=-eq-ok (normalized_statuses statuses) _ j in
    elim (member-cons best normal rest (rw (← ok-inj k) at m)) [
      | inl same ↦ inl (raw, rw same n)
      | inr later ↦ inr (normalized_statuses-Reached statuses rest best r later)
    ]

aggregate-Aggregated :
    (statuses : List Value) (normalized : List String)
    → normalized_statuses statuses ≡ ok normalized
    → Aggregated (min_of_statuses normalized) statuses
unfolding normalized_statuses
aggregate-Aggregated [] ns e = rw (← ok-inj e) refl
aggregate-Aggregated (status ∷ statuses) ns e =
    let ((normal, raw), n, j) = >>=-eq-ok (normalize_capability_status status) _ e in
    let (rest, r, k) = >>=-eq-ok (normalized_statuses statuses) _ j in
    normalized_statuses-Reached (status ∷ statuses) ns (min_of_statuses ns) e
      (rw (← ok-inj k) (min_status-member normal rest))

least_of :
    (ss : List String)
    → All (λ s. member s capability_statuses ≡ true) ss
    → (member (min_of_statuses ss) capability_statuses ≡ true)
      × (All (λ s. priority (min_of_statuses ss) ≤ priority s) ss)
least_of [] all = (refl, tt)
least_of (s ∷ ss) (m, all) =
    let (found, le, least) = min_status-least s ss m all in (found, (le, least))

-- The aggregate of a list of statuses is one of the list, made normal, or `inapplicable` where the
-- list is empty; it is a status, and none of the list, made normal, has a higher priority.
pub aggregate_capability_status-NotBefore :
    (statuses : List Value) (aggregate : String)
    → aggregate_capability_status statuses ≡ ok aggregate
    → (Aggregated aggregate statuses)
      × (member aggregate capability_statuses ≡ true)
      × (All (NotBefore aggregate) statuses)
unfolding aggregate_capability_status
aggregate_capability_status-NotBefore statuses aggregate e =
    let (normalized, n, j) = >>=-eq-ok (normalized_statuses statuses) _ e in
    let (members, least) = normalized_statuses-NotBefore statuses normalized n in
    let (found, all) = least_of normalized members in
    rw (← ok-inj j) (aggregate-Aggregated statuses normalized n, found, least _ all)
