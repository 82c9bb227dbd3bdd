-- ===== src/Isolation/Tests/Manager.antt =====
-- Runs of the manager: a release that is verified, and the invariant on a small disk.
use chaos_atlas.Prelude.{
  ◌≡◌, refl, ◌⊎◌, inl, inr, true, some, ◌==◌, eq_iff, pos, Bool-cases, decimal, ◌∙◌,
}
use chaos_atlas.Result.{Result, ok, err}
use chaos_atlas.Exec.{◌>>=◌}
use chaos_atlas.Table.{lookup, insert}
use chaos_atlas.Value.{
  obj, Dict, end, get, has, put, without, item, either, truthy, text, text_of, is_str, is_dict,
  is_list, is_true, one_of, in_tuple, as_list, to_int,
}
use chaos_atlas.Isolation.Identity.{is_safe_id}
use chaos_atlas.Isolation.Contracts.{
  validate_lease, lease_errors, validate_audit, verify_hash, with_hash, transition_lease,
  transitions,
}
use chaos_atlas.Isolation.Store.{
  File, json, save, load, save_audit, release_l3_claim, operation_lock,
}
use chaos_atlas.Isolation.Store.Sound.{IsSound}
use chaos_atlas.Isolation.Manager.Provider.{find_provider}
use chaos_atlas.Isolation.Manager.Audit.{make_audit}
use chaos_atlas.Isolation.Manager.Release.{
  release, recover, release_locked, release_first, begin_release, finish_release, run_cleanup,
  run_absence, errors_of, is_verified, record_outcome,
}
use chaos_atlas.Isolation.Manager.Prepare.{prepare}
use chaos_atlas.Isolation.Manager.Reap.{reap_expired}
use chaos_atlas.Isolation.Manager.Sound.{manager-IsSound}
use chaos_atlas.Isolation.Manager.Verified.{ReleasedBy, release_verified}
use chaos_atlas.Isolation.Tests.Fixtures.{toy, sample, one_lease, providers, clock}
use chaos_atlas.Isolation.Tests.Store.{sample_valid}

abbrev of_result : Result Dict → Dict
of_result (ok d) = d
of_result (err e m) = end

abbrev released_sample : Dict
released_sample = of_result (release toy "/state" providers clock "lease-1" one_lease).0

-- The run succeeds, and ends in `released`.
sample_released :
    ((release toy "/state" providers clock "lease-1" one_lease).0 ≡ ok released_sample)
    × (is_str "released" (get "state" released_sample) ≡ true)
unfolding release release_locked release_first begin_release finish_release run_cleanup run_absence
    errors_of is_verified record_outcome find_provider make_audit save load save_audit
    release_l3_claim operation_lock ◌>>=◌ lookup insert validate_lease lease_errors validate_audit
    verify_hash with_hash transition_lease transitions get has put without item either truthy text
    text_of is_str is_dict is_list is_true one_of in_tuple as_list to_int is_safe_id decimal
sample_released = (refl, refl)

release_verified_example :
    (lease : Dict) × ((load toy "/state" "lease-1" one_lease).0 ≡ ok lease)
    × ((is_str "released" (get "state" lease) ≡ true)
        ⊎ ReleasedBy toy "/state" providers clock lease)
release_verified_example =
    release_verified toy "/state" providers clock "lease-1" one_lease released_sample
      sample_released.0 sample_released.1

sample_named : text (get "lease_id" sample) ≡ "lease-1"
unfolding text get
sample_named = refl

found_file : (file : File) → some (json (obj sample)) ≡ some file → file ≡ json (obj sample)
found_file file e = cc

one_lease-IsSound : IsSound toy one_lease
unfolding lookup
one_lease-IsSound = record {
  stored = λ id file found. elim (Bool-cases ("lease-1" == id)) [
    | inl e ↦ (
      sample,
      found_file file (rw e at found),
      sample_valid,
      sample_named ∙ (eq_iff "lease-1" id).0 e,
    )
    | inr n ↦ cc (rw n at found)
  ];
}

manager-IsSound_example :
    IsSound toy (prepare toy "/state" providers clock (λ d. ok tt) sample (pos 60) one_lease).1
    × IsSound toy (release toy "/state" providers clock "lease-1" one_lease).1
    × IsSound toy (recover toy "/state" providers clock "lease-1" one_lease).1
    × IsSound toy (reap_expired toy "/state" providers clock 9 one_lease).1
manager-IsSound_example =
    manager-IsSound toy "/state" providers clock (λ d. ok tt) sample (pos 60) "lease-1" 9 one_lease
      one_lease-IsSound
