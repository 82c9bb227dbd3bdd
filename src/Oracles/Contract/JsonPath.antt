-- ===== src/Oracles/Contract/JsonPath.antt =====
-- JSON_PATH and `_json_path` of oracles/transaction_contracts.py.
use Prim.Native.Char.{code}
use chaos_atlas.Prelude.{
  ℕ, zero, suc, ◌+◌, ◌-◌, ◌*◌, String, ◌≡◌, refl, Bool, true, false, ◌&&◌, ◌||◌, Option, none, some,
  List, [], ◌∷◌, ◌++◌, if◌then◌else◌, leb, eqb, format,
}
use chaos_atlas.Result.{Result, ok, err, value_error, index_error, ◌>>=◌}
use chaos_atlas.Value.{Value, str, arr, obj, Items, nil, cons, item}

pub data Segment : Type 0 where
  key : String → Segment
  index : ℕ → Segment

-- [A-Za-z_]
abbrev pub letter : ℕ → Bool
letter c = (leb 97 c && leb c 122) || ((leb 65 c && leb c 90) || eqb c 95)

abbrev pub digit_char : ℕ → Bool
digit_char c = leb 48 c && leb c 57

-- [A-Za-z0-9_-]
abbrev pub key_char : ℕ → Bool
key_char c = letter c || (digit_char c || eqb c 45)

-- where the scanner stands in a segment of the path
pub data At : Type 0 where
  start between dot bracket closing : At
  name : String → At
  number : ℕ → At

abbrev opening : ℕ → Option At
opening c = if eqb c 46 then some dot else if eqb c 91 then some bracket else none

abbrev scan : At → ℕ → String → Option At
scan start c s = if eqb c 36 then some between else none
scan between c s = opening c
scan dot c s = if letter c then some (name s) else none
scan bracket c s =
    if eqb c 48 then some closing else if digit_char c then some (number (c - 48)) else none
scan closing c s = if eqb c 93 then some between else none
scan (name k) c s = if key_char c then some (name (format (k ∷ s ∷ []))) else opening c
scan (number n) c s =
    if digit_char c
    then some (number (n * 10 + (c - 48)))
    else if eqb c 93
    then some between
    else none

-- the segment that ends where the scanner leaves a state
abbrev finished : At → At → List Segment
finished (name k) (name _) = []
finished (name k) _ = key k ∷ []
finished closing _ = index 0 ∷ []
finished (number n) between = index n ∷ []
finished _ _ = []

abbrev at_end : At → Option (List Segment)
at_end between = some []
at_end (name k) = some (key k ∷ [])
at_end _ = none

abbrev append_to : List Segment → Option (List Segment) → Option (List Segment)
append_to front none = none
append_to front (some rest) = some (front ++ rest)

segments_from : At → String → Option (List Segment)
segments_from at String.[] = at_end at
segments_from at (String.◌∷◌ c s) = elim (scan at (code c) (String.◌∷◌ c String.[])) [
  | none ↦ none
  | some next ↦ append_to (finished at next) (segments_from next s)
]

-- the segments of a path that JSON_PATH matches
unfoldable pub segments : String → Option (List Segment)
unfolding segments_from
segments path = segments_from start path

unfoldable pub is_json_path : String → Bool
is_json_path path = elim (segments path) [ none ↦ false | some _ ↦ true ]

unfoldable pub element : Items → ℕ → Result Value
element nil n = err index_error "list index out of range"
element (cons v vs) zero = ok v
element (cons v vs) (suc n) = element vs n

abbrev pub follow : Segment → Value → Result Value
follow (key k) (obj d) = item k d
follow (key k) _ = err value_error "JSON key requires object"
follow (index n) (arr vs) = element vs n
follow (index n) _ = err value_error "JSON index requires array"

unfoldable pub walk_path : List Segment → Value → Result Value
walk_path [] v = ok v
walk_path (s ∷ ss) v = do next ← follow s v; walk_path ss next

abbrev pub walk_segments : Option (List Segment) → Value → Result Value
walk_segments none v = err value_error "invalid JSON path"
walk_segments (some ss) v = walk_path ss v

-- `_json_path(value, path)`
unfoldable pub json_path : Value → Value → Result Value
json_path v (str path) = walk_segments (segments path) v
json_path v _ = err value_error "invalid JSON path"

segments_test :
    (segments "$.a_1[0].b-2[12]" ≡ some (key "a_1" ∷ index 0 ∷ key "b-2" ∷ index 12 ∷ []))
    × (segments "$" ≡ some [])
    × (segments "$.a[01]" ≡ none)
    × (segments "$.1" ≡ none)
    × (segments "a" ≡ none)
    × (segments "$.a." ≡ none)
unfolding segments
segments_test = (refl, refl, refl, refl, refl, refl)
