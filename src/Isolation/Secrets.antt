-- ===== src/Isolation/Secrets.antt =====
-- Credential detection and redaction: SENSITIVE_KEY, SENSITIVE_VALUE, `sensitive_paths` and
-- `redact_sensitive` of isolation/contracts.py. The two patterns ignore the case of ASCII letters.
mod Patterns
pub mod Redaction
pub mod Sets
unfoldable pub use Patterns.{structural_secret_keys, sensitive_key, sensitive_value}
use chaos_atlas.Prelude.{
  ℕ, zero, suc, ◌+◌, String, Bool, true, false, not, ◌&&◌, List, [], ◌∷◌, ◌++◌, ◌==◌, if◌then◌else◌,
  ℤ, pos, decimal, format, member, text_leb, ◌≡◌, refl,
}
use chaos_atlas.Value.{Value, null, bool, int, str, arr, obj, Items, nil, cons, Dict, end, field}

-- `item in (None, False, "", [], {})`; Python's 0 equals False.
unfoldable pub is_blank : Value → Bool
is_blank null = true
is_blank (bool b) = not b
is_blank (int (pos zero)) = true
is_blank (int _) = false
is_blank (str s) = s == ""
is_blank (arr nil) = true
is_blank (arr (cons _ _)) = false
is_blank (obj end) = true
is_blank (obj (field _ _ _)) = false

-- The test that both functions make at a key.
unfoldable pub flagged : String → Value → Bool
flagged key v = not (member key structural_secret_keys) && (sensitive_key key && not (is_blank v))

insert_new : String → List String → List String
insert_new s [] = s ∷ []
insert_new s (t ∷ ts) =
    let rest = insert_new s ts in
    if s == t then t ∷ ts else if text_leb s t then s ∷ t ∷ ts else t ∷ rest

-- `sorted(set(texts))`
unfoldable pub sorted_set : List String → List String
unfolding insert_new
sorted_set [] = []
sorted_set (s ∷ ss) = insert_new s (sorted_set ss)

unfoldable mutual
  pub sensitive_paths : Value → String → List String
  sensitive_paths null path = []
  sensitive_paths (bool b) path = []
  sensitive_paths (int n) path = []
  sensitive_paths (str s) path = if sensitive_value s then path ∷ [] else []
  sensitive_paths (arr vs) path = sorted_set (sensitive_items vs path 0)
  sensitive_paths (obj d) path = sorted_set (sensitive_entries d path)

  pub sensitive_items : Items → String → ℕ → List String
  sensitive_items nil path index = []
  sensitive_items (cons v vs) path index =
      sensitive_paths v (format (path ∷ "[" ∷ decimal (pos index) ∷ "]" ∷ []))
      ++ sensitive_items vs path (index + 1)

  pub sensitive_entries : Dict → String → List String
  sensitive_entries end path = []
  sensitive_entries (field key v d) path =
      let child = format (path ∷ "." ∷ key ∷ []) in
      (if flagged key v then child ∷ [] else [])
      ++ (sensitive_paths v child ++ sensitive_entries d path)

abbrev pub redacted : String
redacted = "<redacted>"

unfoldable mutual
  pub redact_sensitive : Value → Value
  redact_sensitive null = null
  redact_sensitive (bool b) = bool b
  redact_sensitive (int n) = int n
  redact_sensitive (str s) = if sensitive_value s then str redacted else str s
  redact_sensitive (arr vs) = arr (redact_items vs)
  redact_sensitive (obj d) = obj (redact_entries d)

  pub redact_items : Items → Items
  redact_items nil = nil
  redact_items (cons v vs) = cons (redact_sensitive v) (redact_items vs)

  pub redact_entries : Dict → Dict
  redact_entries end = end
  redact_entries (field key v d) =
      let kept = redact_sensitive v in
      field key (if flagged key v then str redacted else kept) (redact_entries d)
