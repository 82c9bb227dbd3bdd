-- ===== src/Isolation/Manager/Mutate.antt =====
-- The callback `mutate` that `IsolationManager.prepare` hands to a provider.
use chaos_atlas.Prelude.{
  String, Bool, true, false, ◌&&◌, Option, none, some, List, [], ◌∷◌, ◌==◌, if◌then◌else◌, format,
}
use chaos_atlas.Result
use chaos_atlas.Result.{Result, ok, err, value_error, attribute_error, type_error}
use chaos_atlas.Exec.{Exec, pure, lift, ◌>>=◌, ◌>>◌}
use chaos_atlas.Value.{arr, obj, Items, nil, cons, Dict, get, put, push, value_eq}
use chaos_atlas.Isolation.Contracts.{Hasher, with_hash}
use chaos_atlas.Isolation.Store.{Disk, load, save}

-- `lease[key].append(payload)`
unfoldable pub append_to : String → Dict → Dict → Result Dict
append_to key payload lease = elim (get key lease) [
  | arr vs ↦ ok (put key (arr (push vs (obj payload))) lease)
  | _ ↦ err attribute_error "object has no attribute 'append'"
]

abbrev same_at : List String → Dict → Dict → Bool
same_at [] payload entry = true
same_at (key ∷ keys) payload entry =
    value_eq (get key entry) (get key payload) && same_at keys payload entry

-- The first item that agrees with the payload at `keys` takes the payload's value of `field`.
unfoldable pub update_match : List String → String → Dict → Items → Result (Option Items)
update_match keys key payload nil = ok none
update_match keys key payload (cons (obj entry) rest) =
    let later = update_match keys key payload rest in
    if same_at keys payload entry
    then ok (some (cons (obj (put key (get key payload) entry)) rest))
    else Result.◌>>=◌ later
        (elim [ none ↦ ok none | some items ↦ ok (some (cons (obj entry) items)) ])
update_match keys key payload (cons _ rest) = err attribute_error "object has no attribute 'get'"

unfoldable pub update_in : String → List String → String → String → Dict → Dict → Result Dict
unfolding update_match
update_in list keys key complaint payload lease = elim (get list lease) [
  | arr vs ↦
      Result.◌>>=◌ (update_match keys key payload vs)
        (elim [ none ↦ err value_error complaint | some items ↦ ok (put list (arr items) lease) ])
  | _ ↦ err type_error "object is not iterable"
]

unfoldable pub mutated : String → Dict → Dict → Result Dict
unfolding append_to update_in
mutated action payload lease =
    if action == "register_resource"
    then append_to "resources" payload lease
    else if action == "update_resource_uid"
    then update_in "resources" ("kind" ∷ "namespace" ∷ "name" ∷ []) "actual_uid"
        "resource UID update has no registered identity" payload lease
    else if action == "register_profile"
    then append_to "external_profiles" payload lease
    else if action == "update_profile"
    then update_in "external_profiles" ("provider" ∷ "name" ∷ []) "state"
        "profile update has no registered identity" payload lease
    else err value_error (format ("unknown lease mutation: " ∷ action ∷ []))

module _ (h : Hasher) (root : String) where
  unfoldable pub mutate : String → String → Dict → Exec Disk (Unit {0})
  unfolding mutated
  mutate id action payload = do
    lease ← load h root id
    changed ← lift (mutated action payload lease)
    save h root (with_hash h changed "lease_sha256") false
    pure tt

  unfoldable pub mutate_all : String → List (String × Dict) → Exec Disk (Unit {0})
  mutate_all id [] = pure tt
  mutate_all id ((action, payload) ∷ calls) = mutate id action payload >> mutate_all id calls
