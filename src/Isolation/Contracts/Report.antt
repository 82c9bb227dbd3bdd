-- ===== src/Isolation/Contracts/Report.antt =====
-- The error lists that the validators of isolation/contracts.py build.
use chaos_atlas.Prelude.{
  String, ◌≡◌, refl, Bool, true, false, not, List, [], ◌∷◌, ◌++◌, map, if◌then◌else◌, format,
  select,
}
use chaos_atlas.Value.{Dict, has}

-- `if test: errors.append(message)`, for each test in turn.
abbrev pub failures : List (Bool × String) → List String
failures [] = []
failures ((bad, message) ∷ rest) = if bad then message ∷ failures rest else failures rest

-- `[f"missing {key}" for key in required if key not in d]`
abbrev pub missing : List String → Dict → List String
missing required d =
    map (λ key. format ("missing " ∷ key ∷ [])) (select (λ key. not (has key d)) required)

abbrev pub Passed : List (Bool × String) → Type 0
Passed [] = Unit
Passed ((bad, message) ∷ rest) = (bad ≡ false) × Passed rest

-- An empty error list means that every test passed.
pub failures-nil : (tests : List (Bool × String)) → failures tests ≡ [] → Passed tests
failures-nil [] h = tt
failures-nil ((true, message) ∷ rest) h = cc
failures-nil ((false, message) ∷ rest) h = (refl, failures-nil rest h)

pub append-nil_right : (xs ys : List String) → xs ++ ys ≡ [] → ys ≡ []
append-nil_right [] ys h = h
append-nil_right (x ∷ xs) ys h = cc

pub append-nil_left : (xs ys : List String) → xs ++ ys ≡ [] → xs ≡ []
append-nil_left [] ys h = refl
append-nil_left (x ∷ xs) ys h = cc

pub append-nil : (xs ys : List String) → xs ++ ys ≡ [] → (xs ≡ []) × (ys ≡ [])
append-nil xs ys h = (append-nil_left xs ys h, append-nil_right xs ys h)
