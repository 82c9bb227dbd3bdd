-- ===== src/Isolation/Contracts/Plan.antt =====
-- `validate_plan` of isolation/contracts.py. `compile` is the blueprint compiler, which raises on a
-- blueprint that it refuses.
use chaos_atlas.Prelude.{
  ℕ, String, not, ◌&&◌, ◌||◌, List, [], ◌∷◌, ◌++◌, ◌==◌, if◌then◌else◌, format, ltb, nonempty, join,
  Option, none, some,
}
use Prim.Native.Nat.{max}
use chaos_atlas.Result.{Result, ok, err, value_error, ◌>>=◌}
use chaos_atlas.Value.{
  Value, str, arr, obj, Items, nil, cons, Dict, end, field, get, put, item, without, is_str,
  is_list, is_true, present, one_of, text_of,
}
use chaos_atlas.Isolation.Identity.{is_safe_id}
use chaos_atlas.Isolation.Secrets.{sensitive_paths}
use chaos_atlas.Isolation.Contracts.Hashing.{Hasher, verify_hash}
use chaos_atlas.Isolation.Contracts.Report.{failures, missing}

-- `v in ISOLATION_LEVELS`, with the place of the level.
unfoldable pub level_of : Value → Option ℕ
level_of (str s) =
    if s == "L1" then some 0 else if s == "L2" then some 1 else if s == "L3" then some 2 else none
level_of _ = none

-- ISOLATION_LEVELS.index(plan[key])
unfoldable pub level_index : String → Dict → Result ℕ
unfolding level_of
level_index key plan = do
  level ← item key plan
  elim (level_of level) [ none ↦ err value_error "tuple.index(x): x not in tuple" | some n ↦ ok n ]

unfoldable pub level_errors : Option ℕ → Option ℕ → List String
level_errors (some requested) (some effective) =
    failures (
      (ltb effective requested, "effective isolation cannot be lower than requested isolation")
      ∷ [])
level_errors _ _ = "isolation level must be L1, L2 or L3" ∷ []

-- the floor of a version 2 plan
unfoldable pub floor_errors : Option ℕ → Option ℕ → Dict → Result (List String)
unfolding level_index
floor_errors (some proposed) (some minimum) plan = do
  requested ← level_index "requested_isolation" plan
  effective ← level_index "effective_isolation" plan
  ok (
      failures (
        (
          ltb effective (max requested (max proposed minimum)),
          "effective isolation cannot be lower than any isolation input",
        )
        ∷ []))
floor_errors _ _ plan = ok ("proposed and mechanism minimum isolation must be L1, L2 or L3" ∷ [])

unfoldable pub v2_errors : Dict → Result (List String)
unfolding floor_errors level_of
v2_errors plan = do
  floor ←
      floor_errors (level_of (get "proposed_isolation" plan))
        (level_of (get "mechanism_minimum_isolation" plan)) plan
  ok (
      floor
      ++ failures (
          (not (is_list (get "isolation_reasons" plan)), "isolation_reasons must be a list")
          ∷ (
            present (get "parent_lease_id" plan)
                && not (is_safe_id (text_of "parent_lease_id" plan)),
            "unsafe parent_lease_id",
          )
          ∷ []))

-- A Secret's `runtimeGenerate` is declared, not a value: it is not scanned.
unfoldable pub strip_generated : Items → Items
strip_generated nil = nil
strip_generated (cons (obj r) rs) =
    cons (obj (if is_str "Secret" (get "kind" r) then without "runtimeGenerate" r else r))
      (strip_generated rs)
strip_generated (cons v rs) = cons v (strip_generated rs)

abbrev strip_resources : Value → Dict → Dict
strip_resources (arr rs) blueprint = put "resources" (arr (strip_generated rs)) blueprint
strip_resources _ blueprint = blueprint

abbrev scanned : Result (Unit {0}) → Dict → Result Value
scanned (ok _) blueprint = ok (obj (strip_resources (get "resources" blueprint) blueprint))
scanned (err value_error m) blueprint = ok (obj blueprint)
scanned (err e m) blueprint = err e m

abbrev plan_required : List String
plan_required =
    "schema_version" ∷ "plan_id" ∷ "project_id" ∷ "project_revision" ∷ "capability_id"
    ∷ "requested_isolation" ∷ "effective_isolation" ∷ "provider" ∷ "mode" ∷ "synthetic_data_only"
    ∷ "required_checks" ∷ "status" ∷ "blockers" ∷ "plan_sha256" ∷ []

module _ (h : Hasher) (compile : Dict → Result (Unit {0})) where
  -- the part of the blueprint that is scanned for credentials
  unfoldable pub scanned_blueprint : Value → Result Value
  unfolding strip_generated
  scanned_blueprint (obj blueprint) = scanned (compile blueprint) blueprint
  scanned_blueprint v = ok v

  unfoldable pub validate_plan : Dict → Result (List String)
  unfolding level_of level_errors v2_errors scanned_blueprint verify_hash
  validate_plan plan = do
    let schema = get "schema_version" plan
    known ← one_of ("chaosatlas-isolation-plan-v1" ∷ "chaosatlas-isolation-plan-v2" ∷ []) schema
    v2 ← if is_str "chaosatlas-isolation-plan-v2" schema then v2_errors plan else ok []
    status ← one_of ("ready" ∷ "blocked" ∷ []) (get "status" plan)
    blueprint ← scanned_blueprint (get "blueprint" plan)
    let exposed =
        sensitive_paths
          (obj (
            field "config" (get "config" plan)
              (field "blueprint" blueprint (field "target" (get "target" plan) end))))
          "$"
    ok (
        missing plan_required plan
        ++ (failures ((not known, "unknown isolation plan schema") ∷ [])
            ++ (level_errors (level_of (get "requested_isolation" plan))
                  (level_of (get "effective_isolation" plan))
                ++ (v2
                    ++ failures (
                        (not status, "plan status must be ready or blocked")
                        ∷ (
                          not (is_true (get "synthetic_data_only" plan)),
                          "synthetic_data_only must be true",
                        )
                        ∷ (
                          not (is_list (get "blockers" plan))
                              || not (is_list (get "required_checks" plan)),
                          "blockers and required_checks must be lists",
                        )
                        ∷ (
                          nonempty exposed,
                          format ("sensitive material detected at " ∷ join "," exposed ∷ []),
                        )
                        ∷ (not (verify_hash h plan "plan_sha256"), "plan hash mismatch")
                        ∷ [])))))
