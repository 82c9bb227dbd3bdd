-- ===== src/Isolation/Tests/Secrets.antt =====
-- Redaction of a small document.
use chaos_atlas.Prelude.{◌≡◌, refl, [], ◌∷◌, decimal}
use chaos_atlas.Value.{Value, str, arr, obj, cons, nil, dict_of}
use chaos_atlas.Isolation.Secrets.{
  sensitive_paths, sensitive_key, sensitive_value, redact_sensitive, redacted, flagged, sorted_set,
  is_blank,
}
use chaos_atlas.Isolation.Secrets.Redaction.{IsRedacted, redact-IsRedacted, redact-clean}

abbrev config : Value
config = obj (
    dict_of (
      ("image", str "shop:1")
      ∷ ("db_password", str "hunter2")
      ∷ ("notes", arr (cons (str "Bearer abcdefgh12") nil))
      ∷ []))

redact_config :
    redact_sensitive config
    ≡ obj (
        dict_of (
          ("image", str "shop:1")
          ∷ ("db_password", str redacted)
          ∷ ("notes", arr (cons (str redacted) nil))
          ∷ []))
unfolding redact_sensitive flagged is_blank sensitive_key sensitive_value
redact_config = refl

config_paths : sensitive_paths config "$" ≡ "$.db_password" ∷ "$.notes[0]" ∷ []
unfolding sensitive_paths flagged is_blank sensitive_key sensitive_value sorted_set decimal
config_paths = refl

redact-IsRedacted_example : IsRedacted (redact_sensitive config)
redact-IsRedacted_example = redact-IsRedacted config

abbrev plain : Value
plain = obj (dict_of (("image", str "shop:1") ∷ []))

plain_clean : sensitive_paths plain "$" ≡ []
unfolding sensitive_paths flagged is_blank sensitive_key sensitive_value sorted_set
plain_clean = refl

redact-clean_example : redact_sensitive plain ≡ plain
redact-clean_example = redact-clean plain "$" plain_clean
