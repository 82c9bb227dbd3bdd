-- ===== src/Exec.antt =====
-- Methods that read and write files and may raise. What was written before a raise stays written,
-- so the state comes back beside an error too.
pub mod Keeps
pub mod Inversion
use chaos_atlas.Prelude.{String, Bool, true, false, List, [], ◌∷◌}
use chaos_atlas.Result.{Exc, Result, ok, err}

abbrev pub Exec : Type 0 → Type 0 → Type 0
Exec S A = S → Result A × S

module _ {S A : Type 0} where
  -- A computation that touches no file.
  unfoldable pub lift : Result A → Exec S A
  lift computed s = (computed, s)

  unfoldable pub raise : Exc → String → Exec S A
  raise e text s = (err e text, s)

  unfoldable pub pure : A → Exec S A
  pure value s = (ok value, s)

module _ {S : Type 0} where
  unfoldable pub modify : (S → S) → Exec S (Unit {0})
  modify f s = (ok tt, f s)

  -- `if test: raise e(m)`
  unfoldable pub raise_when : Bool → Exc → String → Exec S (Unit {0})
  raise_when true e m s = (err e m, s)
  raise_when false e m s = (ok tt, s)

  -- `if test: m`
  unfoldable pub only_if : Bool → Exec S (Unit {0}) → Exec S (Unit {0})
  only_if true m s = m s
  only_if false m s = (ok tt, s)

module _ {S A B : Type 0} where
  abbrev pub continue : Result A → (A → Exec S B) → Exec S B
  continue (ok a) f s = f a s
  continue (err e m) f s = (err e m, s)

  abbrev pub settle : Result A → (A → Exec S B) → (Exc → String → Exec S B) → Exec S B
  settle (ok a) f handler s = f a s
  settle (err e m) f handler s = handler e m s

  -- `try: m`, `else: f`, with a handler for what `m` raises.
  unfoldable pub try_else : Exec S A → (A → Exec S B) → (Exc → String → Exec S B) → Exec S B
  try_else m f handler s = let (r, s') = m s in settle r f handler s'

  infixl 5 ◌>>=◌ ◌>>◌
  -- opening this opens the other actions too
  unfoldable pub ◌>>=◌ : Exec S A → (A → Exec S B) → Exec S B
  unfolding pure raise lift modify raise_when only_if try_else
  ◌>>=◌ m f s = let (r, s') = m s in continue r f s'

  abbrev pub ◌>>◌ : Exec S A → Exec S B → Exec S B
  m >> k = m >>= λ _. k

module _ {S A B : Type 0} where
  -- `[f(x) for x in xs]`
  unfoldable pub map_exec : (A → Exec S B) → List A → Exec S (List B)
  map_exec f [] = pure []
  map_exec f (x ∷ xs) = do let rest = map_exec f xs; y ← f x; ys ← rest; pure (y ∷ ys)
