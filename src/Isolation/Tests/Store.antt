-- ===== src/Isolation/Tests/Store.antt =====
-- Runs of the lease store.
use chaos_atlas.Prelude.{◌≡◌, refl, true, false, if◌then◌else◌, ◌&&◌, [], ◌==◌}
use chaos_atlas.Result.{ok, err, os_error, runtime_error}
use chaos_atlas.Exec.{◌>>=◌}
use chaos_atlas.Table.{lookup, insert}
use chaos_atlas.Value.{
  str, obj, Dict, dict_of, get, has, without, truthy, text, text_of, is_str, is_dict, is_list,
  one_of, in_tuple,
}
use chaos_atlas.Isolation.Identity.{is_safe_id}
use chaos_atlas.Isolation.Contracts.{validate_lease, lease_errors, verify_hash}
use chaos_atlas.Isolation.Store.{Disk, save, load, claim_l3, release_l3_claim}
use chaos_atlas.Isolation.Store.Files.{load-save, save_atomic, release_l3_claim-claim_l3}
use chaos_atlas.Isolation.Tests.Fixtures.{toy, sample, empty_disk}

-- Opens what `validate_lease` computes with.
pub sample_valid : validate_lease toy sample ≡ ok []
unfolding validate_lease lease_errors verify_hash get has without truthy text text_of is_str is_dict
    is_list one_of in_tuple is_safe_id
sample_valid = refl

sample_saves : (save toy "/state" sample true empty_disk).0 ≡ ok sample
unfolding save ◌>>=◌ lookup insert validate_lease lease_errors verify_hash get has without truthy
    text text_of is_str is_dict is_list one_of in_tuple is_safe_id
sample_saves = refl

load-save_example :
    load toy "/state" (text (get "lease_id" sample)) (save toy "/state" sample true empty_disk).1
    ≡ (ok sample, (save toy "/state" sample true empty_disk).1)
load-save_example = load-save toy "/state" sample sample true empty_disk sample_saves

-- The file is created, but cannot be written.
abbrev full_disk : Disk
full_disk = record empty_disk { writes = λ path value. false }

sample_fails : (save toy "/state" sample true full_disk).0 ≡ err os_error "cannot write"
unfolding save ◌>>=◌ lookup validate_lease lease_errors verify_hash get has without truthy text
    text_of is_str is_dict is_list one_of in_tuple is_safe_id
sample_fails = refl

save_atomic_example : (save toy "/state" sample true full_disk).1 ≡ full_disk
save_atomic_example =
    save_atomic toy "/state" sample true full_disk os_error "cannot write" sample_fails

sample_claims : (claim_l3 toy "/state" sample empty_disk).0 ≡ ok tt
unfolding claim_l3 chaos_atlas.Value.item ◌>>=◌
sample_claims = refl

release_l3_claim-claim_l3_example :
    release_l3_claim toy "/state" "lease-1" (claim_l3 toy "/state" sample empty_disk).1 ≡ (
      if is_str "lease-1" (get "lease_id" sample) && "/state" == "/state"
      then (ok tt, empty_disk)
      else (
        err runtime_error "refusing to release another isolation store's L3 claim",
        (claim_l3 toy "/state" sample empty_disk).1,
      ))
release_l3_claim-claim_l3_example =
    release_l3_claim-claim_l3 toy "/state" "/state" sample "lease-1" empty_disk refl sample_claims
