-- ===== src/Isolation/Manager/Provider.antt =====
-- What `IsolationManager` calls of a provider (isolation/providers.py), the registry of providers,
-- and the sources of time and identities. A provider may answer in any way at each plan and lease;
-- the lease it is given counts the cleanup attempts, so two attempts may end differently.
use chaos_atlas.Prelude.{
  ℕ, String, Bool, Option, none, some, List, [], ◌∷◌, ◌==◌, if◌then◌else◌, format,
}
use chaos_atlas.Result.{Result, ok, err, value_error}
use chaos_atlas.Table.{lookup, insert}
use chaos_atlas.Value.{Value, Dict}

pub record Provider : Type 0 where
  pub label : String  -- `provider.name`
  pub supports : Value → Bool
  -- none: the class has no `capture_runtime_locator`
  pub capture_runtime_locator : Option (Value → Dict → Result Value)
  pub preflight : Value → Result (List String)
  -- the calls of `mutate` that `prepare` makes, and how it ends
  pub prepare : Value → Dict → List (String × Dict) × Result (Unit {0})
  pub verify_ready : Value → Dict → Result Dict
  pub cleanup : Value → Dict → Result Dict
  pub verify_absent : Value → Dict → Result Dict

-- The clock and `uuid.uuid4().hex[:16]`; `iso` and `of_iso` are `isoformat` and `fromisoformat`.
pub record Ambient : Type 0 where
  pub now : ℕ  -- in minutes
  pub iso : ℕ → String
  pub of_iso : String → Result ℕ
  pub fresh_hex : String

-- `ProviderRegistry.register`
unfoldable pub register : List (String × Provider) → Provider → Result (List (String × Provider))
register registry provider =
    if provider.label == ""
    then err value_error "invalid or duplicate isolation provider: "
    else elim (lookup provider.label registry) [
      | none ↦ ok (insert provider.label provider registry)
      | some _ ↦
          err value_error
            (format ("invalid or duplicate isolation provider: " ∷ provider.label ∷ []))
    ]

-- `ProviderRegistry.get`
unfoldable pub find_provider : List (String × Provider) → String → Result Provider
find_provider registry name = elim (lookup name registry) [
  | none ↦ err value_error (format ("unknown isolation provider: " ∷ name ∷ []))
  | some provider ↦ ok provider
]
