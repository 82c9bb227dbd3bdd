-- ===== src/Oracles/Contract/Assertions/Tests.antt =====
-- Assertions on two observations.
use chaos_atlas.Prelude.{
  String, ◌≡◌, refl, Bool, true, false, not, ◌&&◌, List, [], ◌∷◌, pos, nonempty, contains_text,
}
use chaos_atlas.Result.{ok}
use chaos_atlas.Value.{Value, int, str, arr, obj, nil, cons, Dict, end, dict_of}
use chaos_atlas.Oracles.Contract.Assertions.{Outcomes, Evaluation, passes, evaluate_assertions}
use chaos_atlas.Oracles.Contract.Assertions.Verdict.{evaluate_assertions-passes}

abbrev expecting : String → String → Value → Value
expecting id path expected = obj (
    dict_of (
      ("id", str id)
      ∷ ("operator", str "json_path_equals")
      ∷ ("step_id", str "s1")
      ∷ ("path", str path)
      ∷ ("expected", expected)
      ∷ []))

abbrev observations : Dict
observations = dict_of (
    (
      "s1",
      obj (
          dict_of (
            (
              "json",
              obj (
                  dict_of
                    (("orders", arr (cons (obj (dict_of (("id", str "o-7") ∷ []))) nil)) ∷ [])),
            )
            ∷ [])),
    )
    ∷ [])

abbrev variables : Dict
variables = dict_of (("n", int (pos 7)) ∷ [])

abbrev assertions : List Value
assertions =
    expecting "a1" "$.orders[0].id" (str "o-{n}") ∷ expecting "a2" "$.orders[1].id" (str "o-8") ∷ []

abbrev contract : Dict
contract = dict_of (
    (
      "assertions",
      arr (
          cons (expecting "a1" "$.orders[0].id" (str "o-{n}"))
            (cons (expecting "a2" "$.orders[1].id" (str "o-8")) nil)),
    )
    ∷ [])

-- the same identifier twice
abbrev doubled : Dict
doubled = dict_of (
    (
      "assertions",
      arr (
          cons (expecting "a1" "$.orders[1].id" (str "o-8"))
            (cons (expecting "a1" "$.orders[0].id" (str "o-{n}")) nil)),
    )
    ∷ [])

abbrev outcome : Evaluation
outcome = record { results = ("a1", true) ∷ ("a2", false) ∷ []; failed = "a2" ∷ [] }

-- The later result of an identifier hides the failure of an earlier one.
evaluations :
    (evaluate_assertions contract observations variables ≡ ok outcome)
    × (evaluate_assertions doubled observations variables
        ≡ ok (record { results = ("a1", true) ∷ []; failed = "a1" ∷ [] }))
unfolding evaluate_assertions chaos_atlas.Oracles.Contract.Render.render_text
    chaos_atlas.Oracles.Contract.Render.has_place chaos_atlas.Oracles.Contract.Render.render
    chaos_atlas.Oracles.Contract.Assertions.occurs_in chaos_atlas.Oracles.Contract.Assertions.len
    chaos_atlas.Oracles.Contract.Assertions.matches
    chaos_atlas.Oracles.Contract.Assertions.count_matches
    chaos_atlas.Oracles.Contract.Assertions.outcome_of
    chaos_atlas.Oracles.Contract.Assertions.set_outcome
    chaos_atlas.Oracles.Contract.Assertions.operate
    chaos_atlas.Oracles.Contract.Assertions.expected_of
    chaos_atlas.Oracles.Contract.Assertions.attempt
    chaos_atlas.Oracles.Contract.Assertions.evaluate_one
    chaos_atlas.Oracles.Contract.Assertions.evaluate_from
    chaos_atlas.Oracles.Contract.JsonPath.segments chaos_atlas.Oracles.Contract.JsonPath.element
    chaos_atlas.Oracles.Contract.JsonPath.walk_path chaos_atlas.Oracles.Contract.JsonPath.json_path
    chaos_atlas.Value.as_list chaos_atlas.Value.as_dict chaos_atlas.Value.either
    chaos_atlas.Value.get chaos_atlas.Value.has chaos_atlas.Value.item chaos_atlas.Value.text
    chaos_atlas.Value.text_of chaos_atlas.Value.value_eq chaos_atlas.Value.one_of
    chaos_atlas.Value.truthy chaos_atlas.Value.to_int chaos_atlas.Value.present contains_text
    chaos_atlas.Prelude.decimal chaos_atlas.Value.is_str
evaluations = (refl, refl)

evaluate_assertions-passes_example :
    (evaluation : Evaluation) × (evaluate_assertions contract observations variables
      ≡ ok evaluation)
    × (passes evaluation ≡ (nonempty assertions && not (nonempty evaluation.failed)))
unfolding chaos_atlas.Value.as_dict chaos_atlas.Value.text_of chaos_atlas.Value.as_list
    chaos_atlas.Value.either chaos_atlas.Value.get chaos_atlas.Value.truthy chaos_atlas.Value.text
    chaos_atlas.Value.is_dict
evaluate_assertions-passes_example =
    evaluate_assertions-passes contract observations variables assertions refl refl refl
