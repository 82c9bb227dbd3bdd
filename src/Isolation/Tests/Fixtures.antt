-- ===== src/Isolation/Tests/Fixtures.antt =====
-- A lease, a disk and a provider to run the code on.
use chaos_atlas.Prelude.{String, refl, true, false, none, List, [], ◌∷◌, pos}
use chaos_atlas.Result.{ok}
use chaos_atlas.Value.{bool, int, str, arr, obj, nil, end, Dict, dict_of}
use chaos_atlas.Isolation.Contracts.{Hasher}
use chaos_atlas.Isolation.Store.{Disk, json}
use chaos_atlas.Isolation.Manager.Provider.{Provider, Ambient}

abbrev pub toy : Hasher
toy = record { canonical_hash = λ v. "0"; hex = λ v. refl }

abbrev pub sample_state : String → Dict
sample_state state = dict_of (
    ("schema_version", str "chaosatlas-environment-lease-v2")
    ∷ ("lease_id", str "lease-1")
    ∷ ("plan_id", str "plan-1")
    ∷ ("project_id", str "shop")
    ∷ ("provider", str "minikube-l3")
    ∷ ("isolation_level", str "L3")
    ∷ ("state", str state)
    ∷ ("created_at", str "0")
    ∷ ("expires_at", str "9")
    ∷ ("owner_labels", obj end)
    ∷ ("runtime_locator", obj end)
    ∷ ("plan", obj end)
    ∷ ("resources", arr nil)
    ∷ ("external_profiles", arr nil)
    ∷ ("cleanup_attempts", int (pos 0))
    ∷ ("lease_sha256", str "0")
    ∷ [])

abbrev pub sample : Dict
sample = sample_state "ready"

abbrev pub empty_disk : Disk
empty_disk = record {
  leases = [];
  audits = [];
  claim = none;
  creates = λ id. true;
  writes = λ path value. true;
  resolve = λ path. path;
  creation_held = false;
  held = [];
}

abbrev pub one_lease : Disk
one_lease = record empty_disk { leases = ("lease-1", json (obj sample)) ∷ [] }

-- A provider whose cleanup succeeds and is confirmed.
abbrev pub tidy : Provider
tidy = record {
  label = "minikube-l3";
  supports = λ plan. true;
  capture_runtime_locator = none;
  preflight = λ plan. ok [];
  prepare = λ plan lease. ([], ok tt);
  verify_ready = λ plan lease. ok (dict_of (("status", str "verified") ∷ []));
  cleanup = λ plan lease. ok (dict_of (("status", str "released") ∷ []));
  verify_absent = λ plan lease. ok (dict_of (("confirmed", bool true) ∷ []));
}

abbrev pub providers : List (String × Provider)
providers = ("minikube-l3", tidy) ∷ []

abbrev pub clock : Ambient
clock = record { now = 5; iso = λ n. "5"; of_iso = λ s. ok 9; fresh_hex = "00112233445566aa" }
