-- ===== src/Prelude/Strip.antt =====
-- ASCII white space at the ends of a text, upper case, and the beginning and end of a text.
use Prim.Native.Nat.{ℕ}
use Prim.Native.Char.{Char, code}
use Prim.Native.String.{String, [], ◌∷◌}
use mathlib.Core.Bool.{Bool, true, false, not, ◌&&◌, ◌||◌}
use mathlib.Core.Path.{◌≡◌, refl}
use text.Mathlib.Text.{◌==◌}
use chaos_atlas.Prelude.Tests.{leb, eqb, if◌then◌else◌}

-- `c.isspace()` of an ASCII character
blank_char : ℕ → Bool
blank_char c = eqb c 32 || ((leb 9 c && leb c 13) || (leb 28 c && leb c 31))

trim_left : String → String
trim_left [] = []
trim_left (c ∷ s) = let rest = trim_left s in if blank_char (code c) then rest else c ∷ s

trim_right : String → String
trim_right [] = []
trim_right (c ∷ s) =
    let rest = trim_right s in
    elim rest [ [] ↦ (if blank_char (code c) then [] else c ∷ []) | d ∷ t ↦ c ∷ d ∷ t ]

-- `s.strip()`
unfoldable pub strip : String → String
unfolding blank_char trim_left trim_right
strip s = trim_right (trim_left s)

upper_char : Char → Char
upper_char c =
    if eqb (code c) 97
    then "A"
    else if eqb (code c) 98
    then "B"
    else if eqb (code c) 99
    then "C"
    else if eqb (code c) 100
    then "D"
    else if eqb (code c) 101
    then "E"
    else if eqb (code c) 102
    then "F"
    else if eqb (code c) 103
    then "G"
    else if eqb (code c) 104
    then "H"
    else if eqb (code c) 105
    then "I"
    else if eqb (code c) 106
    then "J"
    else if eqb (code c) 107
    then "K"
    else if eqb (code c) 108
    then "L"
    else if eqb (code c) 109
    then "M"
    else if eqb (code c) 110
    then "N"
    else if eqb (code c) 111
    then "O"
    else if eqb (code c) 112
    then "P"
    else if eqb (code c) 113
    then "Q"
    else if eqb (code c) 114
    then "R"
    else if eqb (code c) 115
    then "S"
    else if eqb (code c) 116
    then "T"
    else if eqb (code c) 117
    then "U"
    else if eqb (code c) 118
    then "V"
    else if eqb (code c) 119
    then "W"
    else if eqb (code c) 120
    then "X"
    else if eqb (code c) 121
    then "Y"
    else if eqb (code c) 122
    then "Z"
    else c

-- `s.upper()` of an ASCII text.
unfoldable pub uppercase : String → String
unfolding upper_char
uppercase [] = []
uppercase (c ∷ s) = upper_char c ∷ uppercase s

-- `s.startswith(prefix)`
unfoldable pub starts_with : String → String → Bool
starts_with [] s = true
starts_with (p ∷ ps) [] = false
starts_with (p ∷ ps) (c ∷ s) = eqb (code p) (code c) && starts_with ps s

-- `s.endswith(suffix)`
unfoldable pub ends_with : String → String → Bool
ends_with suffix [] = suffix == ""
ends_with suffix (c ∷ s) = c ∷ s == suffix || ends_with suffix s

-- `re.sub(r"[^…]+", "-", s)`: each run of other characters becomes one dash. `replaced`: the
-- character before was replaced.
unfoldable pub dash_runs : (ℕ → Bool) → Bool → String → String
dash_runs keep replaced [] = []
dash_runs keep replaced (c ∷ s) =
    let rest = dash_runs keep (not (keep (code c))) s in
    if keep (code c) then c ∷ rest else if replaced then rest else "-" ∷ rest

text_ends_test :
    (strip " a b\n" ≡ "a b")
    × (uppercase "e2x" ≡ "E2X")
    × (starts_with "kube-" "kube-system" ≡ true)
    × (ends_with "Chaos" "PodChaos" ≡ true)
    × (ends_with "Chaos" "Chaos2" ≡ false)
unfolding strip uppercase starts_with ends_with
text_ends_test = (refl, refl, refl, refl, refl)
