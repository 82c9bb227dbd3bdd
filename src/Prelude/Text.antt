-- ===== src/Prelude/Text.antt =====
-- Python's `str` over the native texts: membership, concatenation, characters, decimal numbers.
use Prim.Native.Nat.{ℕ, zero, suc, ◌+◌, ◌-◌, ◌*◌, ◌/◌, ◌%◌}
use Prim.Native.Char.{code}
use Prim.Native.String.{String}
use Prim.Native.String
use mathlib.Core.Path.{◌≡◌, refl}
use mathlib.Core.Bool.{Bool, false, ◌&&◌, ◌||◌}
use mathlib.Core.Option.{Option, none, some}
use mathlib.Core.List.{List, [], ◌∷◌}
use text.Mathlib.Text.{◌==◌, is_le}
use chaos_atlas.Prelude.Tests.{leb, ltb, eqb, if◌then◌else◌}
use chaos_atlas.Prelude.Int.{ℤ, pos, negsuc}

-- `s in {…}` for a set of texts.
abbrev pub member : String → List String → Bool
member s [] = false
member s (t ∷ ts) = s == t || member s ts

-- An f-string: its parts, one after another.
abbrev pub format : List String → String
format [] = ""
format (s ∷ rest) = String.◌++◌ s (format rest)

-- `separator.join(parts)`.
abbrev pub join : String → List String → String
join separator [] = ""
join separator (s ∷ []) = s
join separator (s ∷ t ∷ rest) = String.◌++◌ s (String.◌++◌ separator (join separator (t ∷ rest)))

abbrev pub codes : String → List ℕ
codes String.[] = []
codes (String.◌∷◌ c s) = code c ∷ codes s

-- The order of Python's `sorted` on texts.
abbrev pub text_leb : String → String → Bool
text_leb s t = is_le (String.compare s t)

insert_sorted : String → List String → List String
insert_sorted s [] = s ∷ []
insert_sorted s (t ∷ ts) =
    let rest = insert_sorted s ts in if text_leb s t then s ∷ t ∷ ts else t ∷ rest

-- `sorted(texts)`.
unfoldable pub sorted : List String → List String
unfolding insert_sorted
sorted [] = []
sorted (s ∷ ss) = insert_sorted s (sorted ss)

abbrev digit : ℕ → String
digit zero = "0"
digit (suc zero) = "1"
digit (suc (suc zero)) = "2"
digit (suc (suc (suc zero))) = "3"
digit (suc (suc (suc (suc zero)))) = "4"
digit (suc (suc (suc (suc (suc zero))))) = "5"
digit (suc (suc (suc (suc (suc (suc zero)))))) = "6"
digit (suc (suc (suc (suc (suc (suc (suc zero))))))) = "7"
digit (suc (suc (suc (suc (suc (suc (suc (suc zero)))))))) = "8"
digit _ = "9"

-- The digits of `n`, in front of `rest`; a number is below two to its own power, so `n` rounds do.
digits : ℕ → ℕ → String → String
digits zero n rest = String.◌++◌ (digit (n % 10)) rest
digits (suc f) n rest =
    let here = String.◌++◌ (digit (n % 10)) rest in
    let more = digits f (n / 10) here in if ltb n 10 then here else more

-- `str(n)` of an integer.
unfoldable pub decimal : ℤ → String
unfolding digits
decimal (pos n) = digits n n ""
decimal (negsuc n) = String.◌++◌ "-" (digits (suc n) (suc n) "")

is_space : ℕ → Bool
is_space c = eqb c 32 || (leb 9 c && leb c 13)

is_digit : ℕ → Bool
is_digit c = leb 48 c && leb c 57

skip_spaces : List ℕ → List ℕ
unfolding is_space
skip_spaces [] = []
skip_spaces (c ∷ cs) = let rest = skip_spaces cs in if is_space c then rest else c ∷ cs

-- The digits after a digit: a `_` may stand between two, spaces may follow the last.
number_tail : List ℕ → ℕ → Option ℕ
unfolding is_digit is_space
number_tail [] n = some n
number_tail (c ∷ []) n =
    if is_digit c then some (n * 10 + (c - 48)) else if is_space c then some n else none
number_tail (c ∷ d ∷ cs) n =
    let by_digit = number_tail (d ∷ cs) (n * 10 + (c - 48)) in
    let by_mark = number_tail cs (n * 10 + (d - 48)) in
    let by_space = skip_spaces (d ∷ cs) in
    if is_digit c
    then by_digit
    else if eqb c 95 && is_digit d
    then by_mark
    else if is_space c
    then elim by_space [ [] ↦ some n | _ ∷ _ ↦ none ]
    else none

unsigned : List ℕ → Option ℕ
unfolding number_tail
unsigned [] = none
unsigned (c ∷ cs) = if is_digit c then number_tail (c ∷ cs) 0 else none

negate : ℕ → ℤ
negate zero = pos 0
negate (suc n) = negsuc n

signed : List ℕ → Option ℤ
unfolding unsigned negate
signed [] = none
signed (c ∷ cs) =
    if eqb c 45
    then elim (unsigned cs) [ none ↦ none | some n ↦ some (negate n) ]
    else if eqb c 43
    then elim (unsigned cs) [ none ↦ none | some n ↦ some (pos n) ]
    else elim (unsigned (c ∷ cs)) [ none ↦ none | some n ↦ some (pos n) ]

-- `int(text)` over ASCII; `none` is the `ValueError`.
unfoldable pub parse_int : String → Option ℤ
unfolding signed skip_spaces
parse_int s = signed (skip_spaces (codes s))

decimal_test : (decimal (pos 120) ≡ "120") × (decimal (negsuc 6) ≡ "-7") × (decimal (pos 0) ≡ "0")
unfolding decimal
decimal_test = (refl, refl, refl)

parse_int_test :
    (parse_int " 1_20 " ≡ some (pos 120))
    × (parse_int "-7" ≡ some (negsuc 6))
    × (parse_int "1x" ≡ none)
    × (parse_int "_1" ≡ none)
unfolding parse_int
parse_int_test = (refl, refl, refl, refl)
