-- ===== src/Oracles/Registry/Resolve.antt =====
-- What a registered oracle changes for a project (oracles/registry.py).
use chaos_atlas.Prelude.{
  String, ◌≡◌, refl, sym, Bool, true, false, not, ◌&&◌, ◌||◌, Option, some, ◌==◌, if◌then◌else◌,
  arith,
}
use chaos_atlas.Result.{ok, value_error, ◌>>=◌, raise_if, ok-inj, >>-eq-ok, raise_if-eq-ok}
use chaos_atlas.Value.{Dict}
use chaos_atlas.Table.{lookup, lookup-insert}
use chaos_atlas.Oracles.Registry.{
  Probe, OracleRuntime, OracleFactory, Factories, normalized, is_registered, supports, register,
  declared_kind, is_workflow, resolve, runtime_of, create,
}

module _ (Dependencies : Type 0) where
  resolve-if :
      (b : Bool) (kind : String) (oracle : Dict) (runtime : OracleRuntime Dependencies)
      (factory : OracleFactory Dependencies) (other : Option (OracleFactory Dependencies))
      → resolve Dependencies kind oracle runtime (if b then some factory else other) ≡ (
          if b
          then (factory oracle runtime >>= λ workflow. is_workflow kind workflow)
          else resolve Dependencies kind oracle runtime other)
  resolve-if true kind oracle runtime factory other = refl
  resolve-if false kind oracle runtime factory other = refl

  registered-if :
      (b : Bool) (factory : OracleFactory Dependencies)
      (other : Option (OracleFactory Dependencies))
      → is_registered Dependencies (if b then some factory else other)
        ≡ (b || is_registered Dependencies other)
  registered-if true factory other = refl
  registered-if false factory other = refl

  new_or_replaced :
      (known replace : Bool) → (known && not replace) ≡ false → (not known || replace) ≡ true
  new_or_replaced known replace e = ground arith

  -- A factory that was registered is for a kind that has a name and that was free or is replaced.
  -- An oracle that declares this kind is then made by it, each other one as before, and the kinds
  -- that are supported are those from before and the new one.
  pub register-create :
      (kind other : String) (factory : OracleFactory Dependencies) (replace : Bool)
      (factories next : Factories Dependencies) (oracle : Dict) (namespace : String)
      (kube_context : Option String) (default_probe : Option Probe)
      (dependencies : Option Dependencies)
      → register Dependencies kind factory replace factories ≡ ok next
      → ((normalized kind == "") ≡ false)
        × ((not (supports Dependencies kind factories) || replace) ≡ true)
        × (create Dependencies next oracle namespace kube_context default_probe dependencies ≡ (
            if normalized kind == declared_kind oracle
            then (factory oracle
                  (runtime_of Dependencies namespace kube_context default_probe dependencies)
                >>= λ workflow. is_workflow (declared_kind oracle) workflow)
            else create Dependencies factories oracle namespace kube_context default_probe
                dependencies))
        × (supports Dependencies other next
            ≡ ((normalized kind == normalized other) || supports Dependencies other factories))
  unfolding register create supports
  register-create kind other factory replace factories next oracle namespace kube_context
        default_probe dependencies e =
      let (named, e1) = >>-eq-ok (raise_if (normalized kind == "") value_error _) _ e in
      let (free, e2) =
        >>-eq-ok (raise_if (supports Dependencies kind factories && not replace) value_error _) _
          e1 in
      let same = sym (ok-inj e2) in
      (
        raise_if-eq-ok _ value_error _ named,
        new_or_replaced _ replace (raise_if-eq-ok _ value_error _ free),
        rw same (
            rw lookup-insert (
              resolve-if (normalized kind == declared_kind oracle) (declared_kind oracle) oracle
                (runtime_of Dependencies namespace kube_context default_probe dependencies) factory
                (lookup (declared_kind oracle) factories))),
        rw same (
            rw lookup-insert (
              registered-if (normalized kind == normalized other) factory
                (lookup (normalized other) factories))),
      )
