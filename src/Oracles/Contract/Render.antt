-- ===== src/Oracles/Contract/Render.antt =====
-- `_render_expected` of oracles/transaction_contracts.py, and the search for an unresolved place.
use Prim.Native.Char.{code}
use chaos_atlas.Prelude.{
  ℕ, String, Bool, false, not, ◌&&◌, ◌||◌, [], ◌∷◌, ◌==◌, if◌then◌else◌, eqb, format,
}
use chaos_atlas.Value.{
  Value, null, bool, int, str, arr, obj, Items, nil, cons, Dict, end, field, get, has, text,
}
use chaos_atlas.Oracles.Contract.JsonPath.{key_char, letter}

-- [A-Za-z]
abbrev first_char : ℕ → Bool
first_char c = letter c && not (eqb c 95)

-- A place `{name}` while it is read: outside, or inside with the name so far.
pub data Place : Type 0 where
  outside : Place
  inside : String → Place

abbrev place_step : Place → ℕ → String → Place
place_step outside c s = if eqb c 123 then inside "" else outside
place_step (inside name) c s =
    if (if name == "" then first_char c else key_char c)
    then inside (format (name ∷ s ∷ []))
    else if eqb c 123
    then inside ""
    else outside

-- `str(variables.get(name, "{name}"))`
abbrev substitute : Dict → String → String
substitute variables name =
    if has name variables then text (get name variables) else format ("{" ∷ name ∷ "}" ∷ [])

-- what is written when a character is read
abbrev place_output : Dict → Place → ℕ → String → String
place_output variables outside c s = if eqb c 123 then "" else s
place_output variables (inside name) c s =
    if (if name == "" then first_char c else key_char c)
    then ""
    else if eqb c 125 && not (name == "")
    then substitute variables name
    else if eqb c 123
    then format ("{" ∷ name ∷ [])
    else format ("{" ∷ name ∷ s ∷ [])

abbrev place_rest : Place → String
place_rest outside = ""
place_rest (inside name) = format ("{" ∷ name ∷ [])

render_from : Dict → Place → String → String
render_from variables at String.[] = place_rest at
render_from variables at (String.◌∷◌ c s) =
    let one = String.◌∷◌ c String.[] in
    format (
      place_output variables at (code c) one
      ∷ render_from variables (place_step at (code c) one) s
      ∷ [])

-- a place that is read to its end
abbrev closes : Place → ℕ → Bool
closes outside c = false
closes (inside name) c = eqb c 125 && not (name == "")

open_from : Place → String → Bool
open_from at String.[] = false
open_from at (String.◌∷◌ c s) =
    closes at (code c) || open_from (place_step at (code c) (String.◌∷◌ c String.[])) s

-- `re.sub` over the places of a text, and whether one is left
unfoldable pub render_text : Dict → String → String
unfolding render_from
render_text variables s = render_from variables outside s

unfoldable pub has_place : String → Bool
unfolding open_from
has_place s = open_from outside s

unfoldable mutual
  unfolding render_text

  pub render : Dict → Value → Value
  render variables null = null
  render variables (bool b) = bool b
  render variables (int n) = int n
  render variables (str s) = str (render_text variables s)
  render variables (arr vs) = arr (render_items variables vs)
  render variables (obj d) = obj (render_entries variables d)

  pub render_items : Dict → Items → Items
  render_items variables nil = nil
  render_items variables (cons v vs) = cons (render variables v) (render_items variables vs)

  pub render_entries : Dict → Dict → Dict
  render_entries variables end = end
  render_entries variables (field k v d) = field k (render variables v) (render_entries variables d)
