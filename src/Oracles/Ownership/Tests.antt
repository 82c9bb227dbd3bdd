-- ===== src/Oracles/Ownership/Tests.antt =====
-- A response with two orders, one of them owned.
use chaos_atlas.Prelude.{String, ◌≡◌, refl, false, List, [], ◌∷◌, pos, length}
use chaos_atlas.Result.{ok, err, ownership_uncertain}
use chaos_atlas.Value.{Value, int, str, bool, arr, obj, Items, nil, cons, Dict, end, dict_of}
use chaos_atlas.Isolation.Contracts.{Hasher}
use chaos_atlas.Oracles.Ownership.{
  Selection, collection_of, bounded, complete_response, not_found, found_owned, select_owned,
}
use chaos_atlas.Oracles.Ownership.Exact.{Answer, select_owned-Answer}

abbrev toy : Hasher
toy = record { canonical_hash = λ v. "0"; hex = λ v. refl }

abbrev order : String → String → Value
order id marker = obj (dict_of (("id", str id) ∷ ("marker", str marker) ∷ []))

abbrev response : Items → Value
response orders = obj (dict_of (("orders", arr orders) ∷ ("more", bool false) ∷ []))

abbrev two : Items
two = cons (order "o-1" "other") (cons (order "o-2" "mine") nil)

abbrev spec : Dict
spec = dict_of (
    ("collection_path", str "$.orders")
    ∷ ("max_items", int (pos 2))
    ∷ (
      "complete",
      obj (
          dict_of
            (("path", str "$.more") ∷ ("operator", str "equals") ∷ ("expected", bool false) ∷ [])),
    )
    ∷ ("identity", obj (dict_of (("order", str "$.id") ∷ [])))
    ∷ [])

abbrev expected : Dict
expected = dict_of (("$.marker", str "mine") ∷ [])

abbrev identity : Dict
identity = dict_of (("order", str "o-2") ∷ [])

selections :
    (select_owned toy (response two) spec expected identity
      ≡ ok (found_owned toy expected identity))
    × (select_owned toy (response nil) spec expected end ≡ ok (not_found toy expected))
    × (select_owned toy (response two) spec expected (dict_of (("order", str "o-1") ∷ []))
        ≡ err ownership_uncertain "persisted identity has different ownership")
    × (select_owned toy (response (cons (order "o-3" "mine") two)) spec expected end
        ≡ err ownership_uncertain "ownership collection is not bounded")
    × (select_owned toy
          (response (cons (order "o-3" "mine") (cons (order "o-2" "mine") nil)))
          spec
          expected
          end
        ≡ err ownership_uncertain "ambiguous ownership: multiple exact matches")
    × (select_owned toy (obj end) spec expected end
        ≡ err ownership_uncertain "ownership evidence missing or malformed")
unfolding select_owned chaos_atlas.Oracles.Ownership.complete_response
    chaos_atlas.Oracles.Ownership.owns chaos_atlas.Oracles.Ownership.identified
    chaos_atlas.Oracles.Ownership.owned_in chaos_atlas.Oracles.Ownership.identity_of
    chaos_atlas.Oracles.Ownership.settle_matches chaos_atlas.Oracles.Ownership.select_in
    chaos_atlas.Oracles.Contract.JsonPath.segments chaos_atlas.Oracles.Contract.JsonPath.element
    chaos_atlas.Oracles.Contract.JsonPath.walk_path chaos_atlas.Oracles.Contract.JsonPath.json_path
    chaos_atlas.Value.get chaos_atlas.Value.has chaos_atlas.Value.item chaos_atlas.Value.present
    chaos_atlas.Value.truthy chaos_atlas.Value.is_str chaos_atlas.Value.as_dict
    chaos_atlas.Value.value_eq
selections = (refl, refl, refl, refl, refl, refl)

select_owned-Answer_example :
    (collection : Value) × (objects : List Value) × (collection_of (response two) spec
      ≡ ok collection)
    × (bounded collection spec ≡ ok objects)
    × (complete_response (response two) spec (length objects) ≡ ok tt)
    × Answer toy spec expected identity objects (found_owned toy expected identity)
select_owned-Answer_example =
    select_owned-Answer toy (response two) spec expected identity
      (found_owned toy expected identity) selections.0
