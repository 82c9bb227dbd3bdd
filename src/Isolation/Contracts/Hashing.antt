-- ===== src/Isolation/Contracts/Hashing.antt =====
-- `with_hash` and `verify_hash` of isolation/contracts.py. SHA-256 over the canonical JSON text is
-- a parameter; what the code relies on is that a hex digest is not the empty text.
use chaos_atlas.Prelude.{String, ◌≡◌, Bool, true, false, not, ◌&&◌, ◌==◌, eq_iff, eq_refl, arith}
use chaos_atlas.Value.{
  Value, str, obj, Dict, get, put, without, text_of, get-put, get-without, without-put,
  without-without,
}

pub record Hasher : Type 0 where
  pub canonical_hash : Value → String
  pub hex : (v : Value) → (canonical_hash v == "") ≡ false

module _ (h : Hasher) where
  unfoldable pub with_hash : Dict → String → Dict
  with_hash value key =
      let result = without key value in put key (str (h.canonical_hash (obj result))) result

  unfoldable pub verify_hash : Dict → String → Bool
  verify_hash value key =
      let expected = text_of key value in
      not (expected == "") && expected == h.canonical_hash (obj (without key value))

  pub text_of-with_hash :
      (value : Dict) (key : String)
      → text_of key (with_hash value key) ≡ h.canonical_hash (obj (without key value))
  unfolding with_hash text_of
  text_of-with_hash value key =
      simp (get-put, eq_refl) (ground (arith, h.hex (obj (without key value))))

  pub get-with_hash :
      (value : Dict) (key j : String)
      → (key == j) ≡ false
      → get j (with_hash value key) ≡ get j value
  unfolding with_hash
  get-with_hash value key j apart = simp (get-put, get-without, apart)

  pub text_of-with_hash_ne :
      (value : Dict) (key j : String)
      → (key == j) ≡ false
      → text_of j (with_hash value key) ≡ text_of j value
  unfolding text_of
  text_of-with_hash_ne value key j apart = rw (get-with_hash value key j apart)

  -- Hashing a document changes the hash alone.
  pub without-with_hash :
      (value : Dict) (key : String) → without key (with_hash value key) ≡ without key value
  unfolding with_hash
  without-with_hash value key = simp (without-put, without-without)

  -- A document that was just hashed verifies, whatever stood under the hash's key before.
  pub verify_hash-with_hash :
      (value : Dict) (key : String) → verify_hash (with_hash value key) key ≡ true
  unfolding verify_hash
  verify_hash-with_hash value key =
      rw text_of-with_hash (unfold with_hash in simp (without-put, without-without, h.hex, eq_refl))

  -- A document that verifies is, up to the place of the key, the one that hashing it gives.
  pub verify_hash_sound :
      (value : Dict) (key : String)
      → verify_hash value key ≡ true
      → text_of key value ≡ h.canonical_hash (obj (without key value))
  unfolding verify_hash
  verify_hash_sound value key p =
      ground (arith, eq_iff (text_of key value) (h.canonical_hash (obj (without key value))))
