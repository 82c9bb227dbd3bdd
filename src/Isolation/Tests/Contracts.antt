-- ===== src/Isolation/Tests/Contracts.antt =====
-- Instances of the theorems on hashes and transitions.
use chaos_atlas.Prelude.{◌≡◌, refl, ◌↔◌, true, member}
use chaos_atlas.Result.{ok}
use chaos_atlas.Value.{Dict, get, text_of, truthy, text}
use chaos_atlas.Isolation.Contracts.{transition_lease, transitions, with_hash, verify_hash}
use chaos_atlas.Isolation.Contracts.Hashing.{verify_hash-with_hash}
use chaos_atlas.Isolation.Contracts.Lifecycle.{
  Refines, Moves, stay, move, moved, cleaning_states, ready, transition_lease-Refines,
  Moves-cleaning, Moves-released,
}
use chaos_atlas.Isolation.Tests.Fixtures.{toy, sample, sample_state}

verify_hash-with_hash_example :
    verify_hash toy (with_hash toy sample "lease_sha256") "lease_sha256" ≡ true
verify_hash-with_hash_example = verify_hash-with_hash toy sample "lease_sha256"

sample_moves : transition_lease toy sample "releasing" ≡ ok (moved toy sample "releasing")
unfolding transition_lease transitions text_of get truthy text
sample_moves = refl

transition_lease-Refines_example :
    (transition_lease toy sample "releasing" ≡ ok (moved toy sample "releasing")) ↔ (
      Refines (text_of "state" sample) "releasing"
      × (moved toy sample "releasing" ≡ moved toy sample "releasing"))
transition_lease-Refines_example =
    transition_lease-Refines toy sample (moved toy sample "releasing") "releasing"

abbrev expired_lease : Dict
expired_lease = sample_state "expired"

expired_moves :
    transition_lease toy expired_lease "releasing" ≡ ok (moved toy expired_lease "releasing")
unfolding transition_lease transitions text_of get truthy text
expired_moves = refl

expired_cleaning : member (text_of "state" expired_lease) cleaning_states ≡ true
unfolding text_of get truthy text
expired_cleaning = refl

Moves-cleaning_example :
    member (text_of "state" (moved toy expired_lease "releasing")) cleaning_states ≡ true
Moves-cleaning_example = Moves-cleaning toy (move "releasing" expired_moves stay) expired_cleaning

sample_ready : text_of "state" sample ≡ "ready"
unfolding text_of get truthy text
sample_ready = refl

Moves-released_example : (last : Dict) × Moves toy sample last × (text_of "state" last ≡ "released")
Moves-released_example = Moves-released toy ready sample sample_ready
