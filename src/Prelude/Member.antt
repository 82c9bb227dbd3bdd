-- ===== src/Prelude/Member.antt =====
-- Membership in a list of texts.
use Prim.Native.String.{String}
use mathlib.Core.Path.{◌≡◌, refl}
use mathlib.Core.Logic.{◌⊎◌, inl, inr}
use mathlib.Core.Bool.{Bool, true, ◌||◌}
use mathlib.Core.List.{List, [], ◌∷◌, ◌++◌}
use native.Mathlib.Omega.{arith}
use text.Mathlib.Text.{◌==◌}
use text.Mathlib.TextEquality.{eq_iff}
use chaos_atlas.Prelude.Tests.{Bool-cases}
use chaos_atlas.Prelude.Lists.{select, All}
use chaos_atlas.Prelude.Text.{member}

pub member-cons :
    (s t : String) (ts : List String) → member s (t ∷ ts) ≡ true → (s ≡ t) ⊎ (member s ts ≡ true)
member-cons s t ts m = elim (Bool-cases (s == t)) [
  | inl e ↦ inl ((eq_iff s t).0 e)
  | inr e ↦ inr (rw e at m)
]

-- What holds of each element of a list holds of each member.
pub All-member {κ} :
    (P : String → Type κ) (s : String) (ts : List String) → All P ts → member s ts ≡ true → P s
All-member P s [] all m = cc
All-member P s (t ∷ ts) (p, all) m = elim (member-cons s t ts m) [
  | inl e ↦ rw e p
  | inr rest ↦ All-member P s ts all rest
]

pub member-append :
    (s : String) (xs ys : List String) → member s (xs ++ ys) ≡ (member s xs || member s ys)
member-append s [] ys = refl
member-append s (x ∷ xs) ys = ground (arith, member-append s xs ys)

pub member-select :
    (p : String → Bool) (s : String) (ts : List String)
    → p s ≡ true
    → member s ts ≡ true
    → member s (select p ts) ≡ true
member-select p s [] h m = m
member-select p s (t ∷ ts) h m = elim (member-cons s t ts m) [
  | inl e ↦ rw (← e) (rw h (rw ((eq_iff s s).1 refl) refl))
  | inr rest ↦ ground (arith, member-select p s ts h rest)
]
