-- ===== src/Capabilities/Coverage.antt =====
-- `validate_catalog_coverage` of capabilities/contracts.py: each fault exactly once.
use chaos_atlas.Prelude.{
  nonempty-nil, String, ◌≡◌, refl, ◌∙◌, Bool, true, false, not, ◌&&◌, List, [], ◌∷◌, ◌++◌, map,
  arith, ◌==◌, if◌then◌else◌, eqb, member, select, Bool-cases, inl, inr, member-select,
}
use chaos_atlas.Value.{Dict}
use chaos_atlas.Isolation.Secrets.{sorted_set}
use chaos_atlas.Isolation.Secrets.Sets.{member-sorted_set}
use chaos_atlas.Isolation.Contracts.{failures}
use chaos_atlas.Isolation.Contracts.Report.{failures-nil, append-nil_left, append-nil_right}
use chaos_atlas.Capabilities.Contracts.{
  count, fault_ids, duplicated, set_minus, validate_catalog_coverage,
}

map-nil : (f : String → String) (xs : List String) → map f xs ≡ [] → xs ≡ []
map-nil f [] e = refl
map-nil f (x ∷ xs) e = cc

nothing : (xs : List String) (s : String) → xs ≡ [] → member s xs ≡ true → ⊥
nothing [] s e m = cc
nothing (x ∷ xs) s e m = cc

-- Where nothing is selected, no member passes the test.
select-nil :
    (p : String → Bool) (s : String) (xs : List String)
    → select p xs ≡ []
    → member s xs ≡ true
    → p s ≡ false
select-nil p s xs e m = elim (Bool-cases (p s)) [
  | inl h ↦ absurd (nothing (select p xs) s e (member-select p s xs h m))
  | inr h ↦ h
]

set_minus-nil :
    (s : String) (left right : List String)
    → set_minus left right ≡ []
    → member s left ≡ true
    → member s right ≡ true
set_minus-nil s left right e m =
    let h =
      select-nil (λ t. not (member t right)) s (sorted_set left) e (member-sorted_set s left ∙ m) in
    ground arith

absent_count : (s : String) (xs : List String) → member s xs ≡ false → count s xs ≡ 0
absent_count s [] e = refl
absent_count s (x ∷ xs) e = ground (arith, absent_count s xs)

single_count :
    (id : String) (actual : List String)
    → (id == "") ≡ false
    → duplicated actual ≡ []
    → member id actual ≡ true
    → count id actual ≡ 1
single_count id actual named d m =
    let h =
      select-nil (λ key. not (key == "") && not (eqb (count key actual) 1)) id (sorted_set actual) d
        (member-sorted_set id actual ∙ m) in
    ground arith

unexpected_absent :
    (id : String) (expected actual : List String)
    → set_minus actual expected ≡ []
    → member id expected ≡ false
    → member id actual ≡ false
unexpected_absent id expected actual u m = elim (Bool-cases (member id actual)) [
  | inl h ↦ cc (set_minus-nil id actual expected u h)
  | inr h ↦ h
]

once :
    (id : String) (expected actual : List String)
    → (id == "") ≡ false
    → duplicated actual ≡ []
    → set_minus expected actual ≡ []
    → set_minus actual expected ≡ []
    → count id actual ≡ (if member id expected then 1 else 0)
once id expected actual named d a u = elim (Bool-cases (member id expected)) [
  | inl m ↦ rw m (single_count id actual named d (set_minus-nil id expected actual a m))
  | inr m ↦ rw m (absent_count id actual (unexpected_absent id expected actual u m))
]

-- An empty report has no duplicates and passed its first two tests.
report-nil :
    (f : String → String) (xs : List String) (a b c : Bool) (ma mb mc : String)
    → map f xs ++ failures ((a, ma) ∷ (b, mb) ∷ (c, mc) ∷ []) ≡ []
    → (xs ≡ []) × (a ≡ false) × (b ≡ false)
report-nil f xs a b c ma mb mc e =
    let tests : List (Bool × String) = (a, ma) ∷ (b, mb) ∷ (c, mc) ∷ [] in
    let (absent, (unexpected, _)) = failures-nil tests (append-nil_right (map f xs) _ e) in
    (map-nil f xs (append-nil_left (map f xs) _ e), absent, unexpected)

-- Where the coverage check has no complaint, each fault of the two catalogues stands in the
-- capabilities exactly once, and no other nonempty
-- identifier stands there.
pub validate_catalog_coverage-once :
    (core_ids extension_ids : List String) (capabilities : List Dict) (id : String)
    → validate_catalog_coverage core_ids extension_ids capabilities ≡ []
    → (id == "") ≡ false
    → count id (fault_ids capabilities) ≡ (if member id (core_ids ++ extension_ids) then 1 else 0)
unfolding validate_catalog_coverage
validate_catalog_coverage-once core_ids extension_ids capabilities id e named =
    let expected = core_ids ++ extension_ids in
    let actual = fault_ids capabilities in
    let (dup, absent, unexpected) = report-nil _ (duplicated actual) _ _ _ _ _ _ e in
    once id expected actual named dup (nonempty-nil (set_minus expected actual) absent)
      (nonempty-nil (set_minus actual expected) unexpected)
