-- ===== src/Prelude/Case.antt =====
-- ASCII case, slices and searches of texts.
use Prim.Native.Nat.{ℕ, zero, suc}
use Prim.Native.Char.{Char, code}
use Prim.Native.String.{String, [], ◌∷◌}
use mathlib.Core.Bool.{Bool, true, false, ◌&&◌, ◌||◌}
use mathlib.Core.Path.{◌≡◌, refl}
use chaos_atlas.Prelude.Tests.{leb, eqb, if◌then◌else◌}

lower_char : Char → Char
lower_char c =
    if eqb (code c) 65
    then "a"
    else if eqb (code c) 66
    then "b"
    else if eqb (code c) 67
    then "c"
    else if eqb (code c) 68
    then "d"
    else if eqb (code c) 69
    then "e"
    else if eqb (code c) 70
    then "f"
    else if eqb (code c) 71
    then "g"
    else if eqb (code c) 72
    then "h"
    else if eqb (code c) 73
    then "i"
    else if eqb (code c) 74
    then "j"
    else if eqb (code c) 75
    then "k"
    else if eqb (code c) 76
    then "l"
    else if eqb (code c) 77
    then "m"
    else if eqb (code c) 78
    then "n"
    else if eqb (code c) 79
    then "o"
    else if eqb (code c) 80
    then "p"
    else if eqb (code c) 81
    then "q"
    else if eqb (code c) 82
    then "r"
    else if eqb (code c) 83
    then "s"
    else if eqb (code c) 84
    then "t"
    else if eqb (code c) 85
    then "u"
    else if eqb (code c) 86
    then "v"
    else if eqb (code c) 87
    then "w"
    else if eqb (code c) 88
    then "x"
    else if eqb (code c) 89
    then "y"
    else if eqb (code c) 90
    then "z"
    else c

-- `s.lower()` of an ASCII text.
unfoldable pub lowercase : String → String
unfolding lower_char
lowercase [] = []
lowercase (c ∷ s) = lower_char c ∷ lowercase s

-- `s[:n]`
unfoldable pub take_text : ℕ → String → String
take_text zero s = []
take_text (suc n) [] = []
take_text (suc n) (c ∷ s) = c ∷ take_text n s

-- The characters that pass a test on their code.
unfoldable pub select_text : (ℕ → Bool) → String → String
select_text p [] = []
select_text p (c ∷ s) = let rest = select_text p s in if p (code c) then c ∷ rest else rest

-- `c.isalnum() or c == "-"` of an ASCII character.
unfoldable pub slug_char : ℕ → Bool
slug_char c =
    (leb 97 c && leb c 122) || ((leb 65 c && leb c 90) || ((leb 48 c && leb c 57) || eqb c 45))

strip_left : String → String
strip_left [] = []
strip_left (c ∷ s) = let rest = strip_left s in if eqb (code c) 45 then rest else c ∷ s

strip_right : String → String
strip_right [] = []
strip_right (c ∷ s) =
    let rest = strip_right s in
    elim rest [ [] ↦ (if eqb (code c) 45 then [] else c ∷ []) | d ∷ t ↦ c ∷ d ∷ t ]

-- `s.strip("-")`
unfoldable pub strip_dashes : String → String
unfolding strip_left strip_right
strip_dashes s = strip_right (strip_left s)

begins : String → String → Bool
begins [] s = true
begins (p ∷ ps) [] = false
begins (p ∷ ps) (c ∷ s) = eqb (code p) (code c) && begins ps s

-- `part in s`
unfoldable pub contains_text : String → String → Bool
unfolding begins
contains_text part [] = begins part []
contains_text part (c ∷ s) = begins part (c ∷ s) || contains_text part s

slug_test : strip_dashes (take_text 24 (select_text slug_char (lowercase "-My_App 1-"))) ≡ "myapp1"
unfolding strip_dashes take_text select_text slug_char lowercase
slug_test = refl

contains_text_test : contains_text "in progress" "lock is already in progress" ≡ true
unfolding contains_text
contains_text_test = refl
