-- ===== src/Exec/Keeps.antt =====
-- Invariants of actions, with a rule for each way to build an action. An action keeps `P` if `P`
-- holds after it whether it returns or raises.
use chaos_atlas.Prelude.{String, Bool, true, false, List, [], ◌∷◌, if◌then◌else◌}
use chaos_atlas.Result.{Exc, Result, ok, err}
use chaos_atlas.Exec.{
  Exec, pure, raise, lift, modify, raise_when, only_if, try_else, ◌>>=◌, map_exec,
}

pub record Keeps {S A : Type 0} (P : S → Type 0) (m : Exec S A) : Type 0 where
  pub after : (s : S) → P s → P (m s).1

module _ {S : Type 0} {P : S → Type 0} where
  pub Keeps-raise_when : (b : Bool) (e : Exc) (m : String) → Keeps P (raise_when b e m)
  unfolding raise_when
  Keeps-raise_when true e m = record { after = λ disk before. before }
  Keeps-raise_when false e m = record { after = λ disk before. before }

  pub Keeps-only_if : (b : Bool) (m : Exec S (Unit {0})) → Keeps P m → Keeps P (only_if b m)
  unfolding only_if
  Keeps-only_if true m km = record { after = λ s p. km.after s p }
  Keeps-only_if false m km = record { after = λ disk before. before }

module _ {S A : Type 0} {P : S → Type 0} where
  pub Keeps-lift : (r : Result A) → Keeps P (lift r)
  unfolding lift
  Keeps-lift r = record { after = λ disk before. before }

  pub Keeps-if :
      (b : Bool) (first other : Exec S A)
      → Keeps P first
      → Keeps P other
      → Keeps P (if b then first else other)
  Keeps-if true first other kept kept' = kept
  Keeps-if false first other kept kept' = kept'

  pub Keeps-raise : (e : Exc) (text : String) → Keeps P (raise {A = A} e text)
  unfolding raise
  Keeps-raise e text = record { after = λ disk before. before }

  pub Keeps-pure : (a : A) → Keeps P (pure a)
  unfolding pure
  Keeps-pure a = record { after = λ disk before. before }

module _ {S A B : Type 0} {P : S → Type 0} where
  settled :
      (r : Result A) (s : S) (f : A → Exec S B) (handler : Exc → String → Exec S B)
      → P s
      → ((a : A) → Keeps P (f a))
      → ((e : Exc) (m : String) → Keeps P (handler e m))
      → P (chaos_atlas.Exec.settle r f handler s).1
  settled (ok a) s f handler p kf kh = (kf a).after s p
  settled (err e m) s f handler p kf kh = (kh e m).after s p

  pub Keeps-try_else :
      (m : Exec S A) (f : A → Exec S B) (handler : Exc → String → Exec S B)
      → Keeps P m
      → ((a : A) → Keeps P (f a))
      → ((e : Exc) (t : String) → Keeps P (handler e t))
      → Keeps P (try_else m f handler)
  unfolding try_else
  Keeps-try_else m f handler km kf kh = record {
    after = λ s p. settled (m s).0 (m s).1 f handler (km.after s p) kf kh;
  }

  continued :
      (r : Result A) (s : S) (f : A → Exec S B)
      → P s
      → ((a : A) → Keeps P (f a))
      → P (chaos_atlas.Exec.continue r f s).1
  continued (ok a) s f p kf = (kf a).after s p
  continued (err e m) s f p kf = p

  pub Keeps-bind :
      (first : Exec S A) (rest : A → Exec S B)
      → Keeps P first
      → ((value : A) → Keeps P (rest value))
      → Keeps P (first >>= rest)
  unfolding ◌>>=◌
  Keeps-bind first rest kept kept' = record {
    after = λ s p. continued (first s).0 (first s).1 rest (kept.after s p) kept';
  }

pub ruleset keeps_rules = (
  Keeps-pure, Keeps-raise, Keeps-lift, Keeps-if, Keeps-raise_when, Keeps-only_if, Keeps-try_else,
  Keeps-bind,
)

module _ {S A B : Type 0} {P : S → Type 0} where
  pub Keeps-map_exec :
      (f : A → Exec S B) (xs : List A) → ((x : A) → Keeps P (f x)) → Keeps P (map_exec f xs)
  unfolding map_exec
  Keeps-map_exec f [] kf = Keeps-pure []
  Keeps-map_exec f (x ∷ xs) kf =
      Keeps-bind (f x) _ (kf x)
        λ y. Keeps-bind (map_exec f xs) _ (Keeps-map_exec f xs kf) λ ys. Keeps-pure (y ∷ ys)
