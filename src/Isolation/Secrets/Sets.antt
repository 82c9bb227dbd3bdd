-- ===== src/Isolation/Secrets/Sets.antt =====
-- `sorted(set(texts))` keeps the members.
use chaos_atlas.Prelude.{
  String, ◌≡◌, refl, Bool, true, false, ◌||◌, List, [], ◌∷◌, arith, ◌==◌, if◌then◌else◌, member,
  text_leb, eq_iff,
}
use chaos_atlas.Isolation.Secrets.{insert_new, sorted_set}

-- the three places where a text may be put
spread :
    (same before : Bool) (u s t : String) (ts rest : List String)
    → ((s == t) ≡ same)
    → member u rest ≡ (u == s || member u ts)
    → member u (if same then t ∷ ts else if before then s ∷ t ∷ ts else t ∷ rest)
      ≡ (u == s || (u == t || member u ts))
spread true before u s t ts rest e r = ground (arith, eq_iff s t, eq_iff u s, eq_iff u t)
spread false true u s t ts rest e r = refl
spread false false u s t ts rest e r = ground arith

member-insert_new :
    (u s : String) (ts : List String) → member u (insert_new s ts) ≡ (u == s || member u ts)
unfolding insert_new
member-insert_new u s [] = refl
member-insert_new u s (t ∷ ts) =
    spread (s == t) (text_leb s t) u s t ts (insert_new s ts) refl (member-insert_new u s ts)

pub member-sorted_set : (u : String) (ts : List String) → member u (sorted_set ts) ≡ member u ts
unfolding sorted_set
member-sorted_set u [] = refl
member-sorted_set u (t ∷ ts) =
    rw (member-insert_new u t (sorted_set ts)) (rw (member-sorted_set u ts) refl)
