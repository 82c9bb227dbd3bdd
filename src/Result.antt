-- ===== src/Result.antt =====
-- A Python function that may raise returns a `Result`; `interrupt` stands for the exceptions that
-- are no `Exception` (`KeyboardInterrupt`, `SystemExit`). The text is `str(exc)`.
use chaos_atlas.Prelude.{String, ◌≡◌, refl, Bool, true, false, List, [], ◌∷◌}

pub data Exc : Type 0 where
  value_error type_error attribute_error key_error runtime_error file_exists_error os_error
        index_error ownership_uncertain interrupt :
      Exc

-- `type(exc).__name__`
abbrev pub exc_name : Exc → String
exc_name value_error = "ValueError"
exc_name type_error = "TypeError"
exc_name attribute_error = "AttributeError"
exc_name key_error = "KeyError"
exc_name runtime_error = "RuntimeError"
exc_name file_exists_error = "FileExistsError"
exc_name os_error = "OSError"
exc_name index_error = "IndexError"
exc_name ownership_uncertain = "OwnershipUncertain"
exc_name interrupt = "KeyboardInterrupt"

-- `not isinstance(exc, Exception)`
abbrev pub is_interrupt : Exc → Bool
is_interrupt interrupt = true
is_interrupt _ = false

infixl 5 ◌>>=◌ ◌>>◌
pub data Result {ℓ} (A : Type ℓ) : Type ℓ where
  ok : A → Result A
  err : Exc → String → Result A

abbrev pub ◌>>◌ {κ} : {B : Type κ} → Result (Unit {0}) → Result B → Result B
ok _ >> next = next
err e text >> next = err e text

abbrev pub ◌>>=◌ {ℓ κ} : {A : Type ℓ} {B : Type κ} → Result A → (A → Result B) → Result B
ok value >>= next = next value
err e text >>= next = err e text

-- `if test: raise e(m)`
abbrev pub raise_if : Bool → Exc → String → Result (Unit {0})
raise_if true e m = err e m
raise_if false e m = ok tt

-- `a or b` and `a and b` where evaluating `b` may raise.
abbrev pub or_else : Bool → Result Bool → Result Bool
or_else true b = ok true
or_else false b = b

abbrev pub and_then : Bool → Result Bool → Result Bool
and_then true b = b
and_then false b = ok false

-- `all(f(x) for x in xs)` where `f` may raise.
abbrev pub all_ok {ℓ} : {A : Type ℓ} → (A → Result Bool) → List A → Result Bool
all_ok f [] = ok true
all_ok f (x ∷ xs) = let rest = all_ok f xs in f x >>= λ b. and_then b rest

-- A chain that returns went through a first call that returned.
pub >>=-eq-ok {ℓ κ} :
    {A : Type ℓ} {B : Type κ} {final : B} (first : Result A) (rest : A → Result B)
    → (first >>= rest) ≡ ok final
    → (value : A) × (first ≡ ok value) × (rest value ≡ ok final)
>>=-eq-ok (ok value) rest done = (value, refl, done)
>>=-eq-ok (err e text) rest done = cc

-- The same for a first call that is made only for what it may raise.
pub >>-eq-ok {κ} :
    {B : Type κ} {final : B} (first : Result (Unit {0})) (rest : Result B)
    → (first >> rest) ≡ ok final
    → (first ≡ ok tt) × (rest ≡ ok final)
>>-eq-ok (ok tt) rest done = (refl, done)
>>-eq-ok (err e text) rest done = cc

-- A test that did not raise was false.
pub raise_if-eq-ok : (b : Bool) (e : Exc) (m : String) → raise_if b e m ≡ ok tt → b ≡ false
raise_if-eq-ok true e m p = cc
raise_if-eq-ok false e m p = refl

pub ok-inj {ℓ} : {A : Type ℓ} {a b : A} → ok a ≡ ok b → a ≡ b
ok-inj e = cc

-- `any(f(x) for x in xs)` where `f` may raise.
abbrev pub any_ok {ℓ} : {A : Type ℓ} → (A → Result Bool) → List A → Result Bool
any_ok f [] = ok false
any_ok f (x ∷ xs) = let rest = any_ok f xs in f x >>= λ b. or_else b rest
