-- ===== src/Isolation/Identity.antt =====
-- SAFE_ID of isolation/contracts.py: the names that may become file names.
use chaos_atlas.Prelude.{
  ℕ, String, ◌≡◌, refl, Bool, true, false, ◌&&◌, ◌||◌, List, [], ◌∷◌, leb, eqb, codes, length, all,
}

-- [a-z0-9]
abbrev lower_alnum : ℕ → Bool
lower_alnum c = (leb 97 c && leb c 122) || (leb 48 c && leb c 57)

-- [a-z0-9.-]
abbrev id_char : ℕ → Bool
id_char c = lower_alnum c || (eqb c 46 || eqb c 45)

abbrev safe_codes : List ℕ → Bool
safe_codes [] = false
safe_codes (c ∷ cs) = lower_alnum c && (all id_char cs && leb (length cs) 62)

-- SAFE_ID.fullmatch(text)
unfoldable pub is_safe_id : String → Bool
is_safe_id s = safe_codes (codes s)

is_safe_id_test :
    (is_safe_id "lease-0a.b" ≡ true)
    × (is_safe_id "" ≡ false)
    × (is_safe_id "../x" ≡ false)
    × (is_safe_id "Lease" ≡ false)
unfolding is_safe_id
is_safe_id_test = (refl, refl, refl, refl)
