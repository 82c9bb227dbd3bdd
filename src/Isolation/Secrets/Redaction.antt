-- ===== src/Isolation/Secrets/Redaction.antt =====
-- What redaction leaves behind, and what it leaves alone (isolation/contracts.py).
use chaos_atlas.Prelude.{
  ℕ, ◌+◌, String, ◌≡◌, refl, ap, inl, inr, Bool, true, false, List, [], ◌∷◌, ◌++◌, arith, eq_iff,
  if◌then◌else◌, Bool-cases,
}
use chaos_atlas.Value.{Value, null, bool, int, str, arr, obj, Items, nil, cons, Dict, end, field}
use chaos_atlas.Isolation.Secrets.{
  sensitive_value, is_blank, flagged, insert_new, sorted_set, sensitive_paths, sensitive_items,
  sensitive_entries, redacted, redact_sensitive, redact_items, redact_entries,
}

-- No text value holds credential material, and the item of a sensitive key, which is no structural
-- one, is blank or the mark.
abbrev mutual
  pub IsRedacted : Value → Type 0
  IsRedacted null = Unit
  IsRedacted (bool b) = Unit
  IsRedacted (int n) = Unit
  IsRedacted (str s) = sensitive_value s ≡ false
  IsRedacted (arr vs) = IsRedactedItems vs
  IsRedacted (obj d) = IsRedactedDict d

  pub IsRedactedItems : Items → Type 0
  IsRedactedItems nil = Unit
  IsRedactedItems (cons v vs) = IsRedacted v × IsRedactedItems vs

  pub IsRedactedDict : Dict → Type 0
  IsRedactedDict end = Unit
  IsRedactedDict (field k v d) =
      (flagged k v ≡ true → v ≡ str redacted) × IsRedacted v × IsRedactedDict d

mark_insensitive : sensitive_value redacted ≡ false
unfolding sensitive_value
mark_insensitive = refl

empty_insensitive : sensitive_value "" ≡ false
unfolding sensitive_value
empty_insensitive = refl

is_blank-redact : (v : Value) → is_blank (redact_sensitive v) ≡ is_blank v
unfolding is_blank redact_sensitive
is_blank-redact (str s) = ground (arith, eq_iff s "", empty_insensitive)
is_blank-redact (arr nil) = refl
is_blank-redact (arr (cons v vs)) = refl
is_blank-redact (obj end) = refl
is_blank-redact (obj (field k v d)) = refl
is_blank-redact v = refl

flagged-redact : (k : String) (v : Value) → flagged k (redact_sensitive v) ≡ flagged k v
unfolding flagged
flagged-redact k v = rw is_blank-redact

redacted_entry :
    (k : String) (v : Value) (rest : Dict)
    → IsRedacted (redact_sensitive v)
    → IsRedactedDict rest
    → IsRedactedDict (field k (if flagged k v then str redacted else redact_sensitive v) rest)
redacted_entry k v rest hv hr = elim (Bool-cases (flagged k v)) [
  | inl e ↦ rw e (λ _. refl, mark_insensitive, hr)
  | inr e ↦ rw e (λ h. cc (flagged-redact k v), hv, hr)
]

mutual
  unfolding redact_sensitive

  redacted_lem : (v : Value) → IsRedacted (redact_sensitive v)
  redacted_lem null = tt
  redacted_lem (bool b) = tt
  redacted_lem (int n) = tt
  redacted_lem (str s) = ground (arith, mark_insensitive)
  redacted_lem (arr vs) = redacted_items vs
  redacted_lem (obj d) = redacted_dict d

  redacted_items : (vs : Items) → IsRedactedItems (redact_items vs)
  redacted_items nil = tt
  redacted_items (cons v vs) = (redacted_lem v, redacted_items vs)

  redacted_dict : (d : Dict) → IsRedactedDict (redact_entries d)
  redacted_dict end = tt
  redacted_dict (field k v d) =
      redacted_entry k v (redact_entries d) (redacted_lem v) (redacted_dict d)

-- After redaction no text value holds credential material, whatever the keys are, and the item of
-- a sensitive key is blank or the mark "<redacted>". A key is sensitive where SENSITIVE_KEY finds a
-- word in it and it is none of the structural keys secretKeyRef, secretRef, runtimeGenerate and
-- imagePullSecrets; the texts of keys are not looked at.
pub redact-IsRedacted : (v : Value) → IsRedacted (redact_sensitive v)
redact-IsRedacted v = redacted_lem v

insert_new_nonempty : (s : String) (ts : List String) → insert_new s ts ≡ [] → ⊥
unfolding insert_new
insert_new_nonempty s [] h = cc
insert_new_nonempty s (t ∷ ts) h = ground arith

pub sorted_set-nil : (ss : List String) → sorted_set ss ≡ [] → ss ≡ []
unfolding sorted_set
sorted_set-nil [] h = refl
sorted_set-nil (s ∷ ss) h = absurd (insert_new_nonempty s (sorted_set ss) h)

append-nil_left : (xs ys : List String) → xs ++ ys ≡ [] → xs ≡ []
append-nil_left [] ys h = refl
append-nil_left (x ∷ xs) ys h = cc

append-nil_right : (xs ys : List String) → xs ++ ys ≡ [] → ys ≡ []
append-nil_right [] ys h = h
append-nil_right (x ∷ xs) ys h = cc

unflagged : (b : Bool) (s : String) → (if b then s ∷ [] else []) ≡ [] → b ≡ false
unflagged true s h = cc
unflagged false s h = refl

mutual
  unfolding redact_sensitive sensitive_paths

  clean_value : (v : Value) (path : String) → sensitive_paths v path ≡ [] → redact_sensitive v ≡ v
  clean_value null path h = refl
  clean_value (bool b) path h = refl
  clean_value (int n) path h = refl
  clean_value (str s) path h = rw (unflagged (sensitive_value s) path h)
  clean_value (arr vs) path h = ap arr (clean_items vs path 0 (sorted_set-nil _ h))
  clean_value (obj d) path h = ap obj (clean_dict d path (sorted_set-nil _ h))

  clean_items :
      (vs : Items) (path : String) (index : ℕ)
      → sensitive_items vs path index ≡ []
      → redact_items vs ≡ vs
  clean_items nil path index h = refl
  clean_items (cons v vs) path index h =
      let first = clean_value v _ (append-nil_left _ _ h) in
      let rest = clean_items vs path (index + 1) (append-nil_right _ _ h) in cc (first, rest)

  clean_dict : (d : Dict) (path : String) → sensitive_entries d path ≡ [] → redact_entries d ≡ d
  clean_dict end path h = refl
  clean_dict (field k v d) path h =
      let below = append-nil_right _ _ h in
      let first = clean_value v _ (append-nil_left _ _ below) in
      let rest = clean_dict d path (append-nil_right _ _ below) in
      rw (unflagged (flagged k v) _ (append-nil_left _ _ h)) (cc (first, rest))

-- A document in which no sensitive path is found is left as it is.
pub redact-clean :
    (v : Value) (path : String) → sensitive_paths v path ≡ [] → redact_sensitive v ≡ v
redact-clean v path h = clean_value v path h
