-- ===== src/Table.antt =====
-- A directory of files: contents by name.
use chaos_atlas.Prelude.{
  String, ◌≡◌, refl, Option, none, some, List, [], ◌∷◌, arith, ◌==◌, eq_iff, eq_refl, if◌then◌else◌,
}

module _ {V : Type 0} where
  unfoldable pub lookup : String → List (String × V) → Option V
  lookup k [] = none
  lookup k ((j, v) ∷ t) = if j == k then some v else lookup k t

  unfoldable pub insert : String → V → List (String × V) → List (String × V)
  insert k v [] = (k, v) ∷ []
  insert k v ((j, w) ∷ t) = let rest = insert k v t in if j == k then (j, v) ∷ t else (j, w) ∷ rest

  unfoldable pub remove : String → List (String × V) → List (String × V)
  remove k [] = []
  remove k ((j, v) ∷ t) = let rest = remove k t in if j == k then rest else (j, v) ∷ rest

  abbrev pub names : List (String × V) → List String
  names [] = []
  names ((k, v) ∷ t) = k ∷ names t

  pub lookup-insert :
      (k j : String) (v : V) (t : List (String × V))
      → lookup j (insert k v t) ≡ (if k == j then some v else lookup j t)
  unfolding lookup insert
  lookup-insert k j v [] = refl
  lookup-insert k j v ((i, w) ∷ t) =
      ground (arith, lookup-insert k j v t, eq_iff i k, eq_iff i j, eq_iff k j)

  pub lookup-remove :
      (k j : String) (t : List (String × V))
      → lookup j (remove k t) ≡ (if k == j then none else lookup j t)
  unfolding lookup remove
  lookup-remove k j [] = ground arith
  lookup-remove k j ((i, w) ∷ t) =
      ground (arith, lookup-remove k j t, eq_iff i k, eq_iff i j, eq_iff k j)

  pub lookup-insert_self :
      (k : String) (v : V) (t : List (String × V)) → lookup k (insert k v t) ≡ some v
  lookup-insert_self k v t = simp (lookup-insert, eq_refl)

  remove-absent : (k : String) (t : List (String × V)) → lookup k t ≡ none → remove k t ≡ t
  unfolding lookup remove
  remove-absent k [] h = refl
  remove-absent k ((i, w) ∷ t) h = ground (arith, remove-absent k t)

  -- Removing a file that was just created restores the directory.
  pub remove-insert :
      (k : String) (v : V) (t : List (String × V)) → lookup k t ≡ none → remove k (insert k v t) ≡ t
  unfolding lookup remove insert
  remove-insert k v [] h = ground (arith, eq_iff k k)
  remove-insert k v ((i, w) ∷ t) h = ground (arith, remove-insert k v t)

pub ruleset table_laws = (lookup-insert, lookup-remove)
