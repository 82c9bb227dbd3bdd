-- ===== src/Exec/Inversion.antt =====
-- What a successful chain of actions did, step by step.
use chaos_atlas.Prelude.{◌≡◌, refl, ap}
use chaos_atlas.Result.{Result, ok, err}
use chaos_atlas.Exec.{Exec, pure, lift, ◌>>=◌}

module _ {S A B : Type 0} where
  abbrev pub Stepped : Exec S A → (A → Exec S B) → S → B → Type 0
  Stepped m f s b =
      (a : A) × (t : S) × (m s ≡ (ok a, t)) × ((f a t).0 ≡ ok b) × ((m >>= f) s ≡ f a t)

  stepped :
      (r : Result A) (t : S) (f : A → Exec S B) (b : B)
      → (chaos_atlas.Exec.continue r f t).0 ≡ ok b
      → (a : A) × (r ≡ ok a) × ((f a t).0 ≡ ok b) × (chaos_atlas.Exec.continue r f t ≡ f a t)
  stepped (ok a) t f b p = (a, refl, p, refl)
  stepped (err e m) t f b p = cc

  pub bind-ok :
      (m : Exec S A) (f : A → Exec S B) (s : S) (b : B) → ((m >>= f) s).0 ≡ ok b → Stepped m f s b
  unfolding ◌>>=◌
  bind-ok m f s b p =
      let (a, e, q, z) = stepped (m s).0 (m s).1 f b p in (a, (m s).1, λ i. (e i, (m s).1), q, z)

module _ {S A : Type 0} where
  pub lift-ok : (r : Result A) (s t : S) (a : A) → lift r s ≡ (ok a, t) → r ≡ ok a
  unfolding lift
  lift-ok r s t a p = ap (λ (x : Result A × S). x.0) p

  pub pure-ok : (a b : A) (s : S) → (pure a s).0 ≡ ok b → a ≡ b
  unfolding pure
  pure-ok a b s p = cc
