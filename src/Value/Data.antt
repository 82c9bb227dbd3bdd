-- ===== src/Value/Data.antt =====
-- The data type of values and Python's operations on them.

use chaos_atlas.Prelude.{
  ℕ, zero, suc, eqb, String, Bool, true, false, not, ◌&&◌, ◌||◌, Option, none, some, List, [], ◌∷◌,
  ◌==◌, if◌then◌else◌, ℤ, pos, negsuc, member, format, decimal, parse_int,
}
use chaos_atlas.Result.{Result, ok, err, type_error, value_error, attribute_error, key_error}

mutual
  pub data Value : Type 0 where
    null : Value
    bool : Bool → Value
    int : ℤ → Value
    str : String → Value
    arr : Items → Value
    obj : Dict → Value

  pub data Items : Type 0 where
    nil : Items
    cons : Value → Items → Items

  pub data Dict : Type 0 where
    end : Dict
    field : String → Value → Dict → Dict

-- `k in d`
unfoldable pub has : String → Dict → Bool
has k end = false
has k (field j v d) = j == k || has k d

-- `d.get(k)`
unfoldable pub get : String → Dict → Value
get k end = null
get k (field j v d) = if j == k then v else get k d

-- `d.get(k, default)`
unfoldable pub get_or : String → Dict → Value → Value
unfolding get has
get_or k d default = if has k d then get k d else default

-- `d[k]`
unfoldable pub item : String → Dict → Result Value
unfolding get has
item k d = if has k d then ok (get k d) else err key_error k

-- `d[k] = v`
unfoldable pub put : String → Value → Dict → Dict
put k v end = field k v end
put k v (field j w d) = let rest = put k v d in if j == k then field j v d else field j w rest

-- `d.pop(k, None)`
unfoldable pub without : String → Dict → Dict
without k end = end
without k (field j v d) = let rest = without k d in if j == k then rest else field j v rest

-- `d.update(other)`
unfoldable pub update : Dict → Dict → Dict
update d end = d
update d (field k v other) = update (put k v d) other

abbrev pub keys : Dict → List String
keys end = []
keys (field k v d) = k ∷ keys d

abbrev pub items : Items → List Value
items nil = []
items (cons v vs) = v ∷ items vs

abbrev pub values : Dict → List Value
values end = []
values (field k v d) = v ∷ values d

abbrev pub of_list : List Value → Items
of_list [] = nil
of_list (v ∷ vs) = cons v (of_list vs)

abbrev pub str_list : List String → Items
str_list [] = nil
str_list (s ∷ ss) = cons (str s) (str_list ss)

abbrev pub push : Items → Value → Items
push nil w = cons w nil
push (cons v vs) w = cons v (push vs w)

-- Python's truth value.
unfoldable pub truthy : Value → Bool
truthy null = false
truthy (bool b) = b
truthy (int (pos zero)) = false
truthy (int _) = true
truthy (str s) = not (s == "")
truthy (arr nil) = false
truthy (arr (cons _ _)) = true
truthy (obj end) = false
truthy (obj (field _ _ _)) = true

-- `a or b`
unfoldable pub either : Value → Value → Value
unfolding truthy
either a b = if truthy a then a else b

-- `v is True`
unfoldable pub is_true : Value → Bool
is_true (bool b) = b
is_true _ = false

-- `v is not None`
unfoldable pub present : Value → Bool
present null = false
present _ = true

unfoldable pub is_dict : Value → Bool
is_dict (obj _) = true
is_dict _ = false

unfoldable pub is_list : Value → Bool
is_list (arr _) = true
is_list _ = false

unfoldable pub is_text : Value → Bool
is_text (str _) = true
is_text _ = false

-- `v == "text"`
unfoldable pub is_str : String → Value → Bool
is_str s (str t) = t == s
is_str s _ = false

-- `v in {"a", "b"}`: a list or a dictionary cannot be hashed.
unfoldable pub one_of : List String → Value → Result Bool
one_of ss (str t) = ok (member t ss)
one_of ss (arr _) = err type_error "unhashable type: 'list'"
one_of ss (obj _) = err type_error "unhashable type: 'dict'"
one_of ss _ = ok false

-- a value as a member of a set
unfoldable pub hashable : Value → Result Value
hashable (arr _) = err type_error "unhashable type: 'list'"
hashable (obj _) = err type_error "unhashable type: 'dict'"
hashable v = ok v

-- `v in ("a", "b")`: a tuple is searched by `==`.
unfoldable pub in_tuple : List String → Value → Bool
in_tuple ss (str t) = member t ss
in_tuple ss _ = false

-- The receiver of an attribute such as `.get`.
unfoldable pub as_dict : Value → Result Dict
as_dict (obj d) = ok d
as_dict _ = err attribute_error "object has no attribute 'get'"

-- `list(v)` of a list, a dictionary or a text.
characters : String → List Value
characters String.[] = []
characters (String.◌∷◌ c s) = str (String.◌∷◌ c String.[]) ∷ characters s

key_values : Dict → List Value
key_values end = []
key_values (field k v d) = str k ∷ key_values d

unfoldable pub as_list : Value → Result (List Value)
unfolding characters key_values
as_list (arr vs) = ok (items vs)
as_list (obj d) = ok (key_values d)
as_list (str s) = ok (characters s)
as_list _ = err type_error "object is not iterable"

-- `dict(v)` of a dictionary.
unfoldable pub to_dict : Value → Result Dict
to_dict (obj d) = ok d
to_dict _ = err type_error "cannot convert to a dictionary"

abbrev pub parsed : Option ℤ → Result ℤ
parsed none = err value_error "invalid literal for int()"
parsed (some n) = ok n

-- `int(v)`
unfoldable pub to_int : Value → Result ℤ
to_int (bool true) = ok (pos 1)
to_int (bool false) = ok (pos 0)
to_int (int n) = ok n
to_int (str s) = parsed (parse_int s)
to_int _ = err type_error "int() argument must be a string or a number"

-- `str(v)`; inside a container a text stands in single quotes, and its escapes are not written.
mutual
  repr : Value → String
  repr null = "None"
  repr (bool true) = "True"
  repr (bool false) = "False"
  repr (int n) = decimal n
  repr (str s) = format ("'" ∷ s ∷ "'" ∷ [])
  repr (arr vs) = format ("[" ∷ repr_items vs ∷ "]" ∷ [])
  repr (obj d) = format ("{" ∷ repr_dict d ∷ "}" ∷ [])

  repr_items : Items → String
  repr_items nil = ""
  repr_items (cons v nil) = repr v
  repr_items (cons v (cons w vs)) = format (repr v ∷ ", " ∷ repr_items (cons w vs) ∷ [])

  repr_dict : Dict → String
  repr_dict end = ""
  repr_dict (field k v end) = format ("'" ∷ k ∷ "': " ∷ repr v ∷ [])
  repr_dict (field k v (field j w d)) =
      format ("'" ∷ k ∷ "': " ∷ repr v ∷ ", " ∷ repr_dict (field j w d) ∷ [])

unfoldable pub text : Value → String
unfolding repr
text (str s) = s
text v = repr v

-- `str(d.get(k) or "")`
unfoldable pub text_of : String → Dict → String
unfolding get truthy text
text_of k d = let v = get k d in if truthy v then text v else ""

abbrev size : Dict → ℕ
size end = 0
size (field k v d) = suc (size d)

abbrev eq_ℤ : ℤ → ℤ → Bool
eq_ℤ (pos m) (pos n) = eqb m n
eq_ℤ (negsuc m) (negsuc n) = eqb m n
eq_ℤ _ _ = false

-- A truth value is the number 1 or 0.
abbrev number : Value → Option ℤ
number (bool true) = some (pos 1)
number (bool false) = some (pos 0)
number (int n) = some n
number _ = none

abbrev eq_number : ℤ → Option ℤ → Bool
eq_number m (some n) = eq_ℤ m n
eq_number m none = false

-- `v == w`; dictionaries are compared key by key, in any order.
unfoldable mutual
  unfolding get has

  pub value_eq : Value → Value → Bool
  value_eq null w = not (present w)
  value_eq (bool true) w = eq_number (pos 1) (number w)
  value_eq (bool false) w = eq_number (pos 0) (number w)
  value_eq (int n) w = eq_number n (number w)
  value_eq (str s) w = is_str s w
  value_eq (arr vs) w = elim w [ arr ws ↦ items_eq vs ws | _ ↦ false ]
  value_eq (obj d) w = elim w [ obj e ↦ eqb (size d) (size e) && entries_in d e | _ ↦ false ]

  pub items_eq : Items → Items → Bool
  items_eq nil nil = true
  items_eq nil (cons w ws) = false
  items_eq (cons v vs) nil = false
  items_eq (cons v vs) (cons w ws) = value_eq v w && items_eq vs ws

  pub entries_in : Dict → Dict → Bool
  entries_in end e = true
  entries_in (field k v d) e = (has k e && value_eq v (get k e)) && entries_in d e

-- A dictionary display `{k: v, …}`.
abbrev pub dict_of : List (String × Value) → Dict
dict_of [] = end
dict_of ((k, v) ∷ rest) = field k v (dict_of rest)
