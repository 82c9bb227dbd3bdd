-- ===== src/Value/Laws.antt =====
-- Reading, writing and dropping keys of a dictionary.
use chaos_atlas.Prelude.{
  String, ◌≡◌, refl, ap, true, false, arith, ◌==◌, eq_iff, eq_refl, if◌then◌else◌,
}
use chaos_atlas.Value.Data.{
  Value, null, Dict, end, field, has, get, put, without, text_of, str, obj, is_str, as_dict,
}
use chaos_atlas.Result.{ok}

pub get-put :
    (k j : String) (v : Value) (d : Dict) → get j (put k v d) ≡ (if k == j then v else get j d)
unfolding get put
get-put k j v end = refl
get-put k j v (field i w d) = ground (arith, get-put k j v d, eq_iff i k, eq_iff i j, eq_iff k j)

pub has-put :
    (k j : String) (v : Value) (d : Dict) → has j (put k v d) ≡ (if k == j then true else has j d)
unfolding has put
has-put k j v end = ground arith
has-put k j v (field i w d) = ground (arith, has-put k j v d, eq_iff i k, eq_iff i j, eq_iff k j)

pub get-without :
    (k j : String) (d : Dict) → get j (without k d) ≡ (if k == j then null else get j d)
unfolding get without
get-without k j end = ground arith
get-without k j (field i w d) =
    ground (arith, get-without k j d, eq_iff i k, eq_iff i j, eq_iff k j)

pub has-without :
    (k j : String) (d : Dict) → has j (without k d) ≡ (if k == j then false else has j d)
unfolding has without
has-without k j end = ground arith
has-without k j (field i w d) =
    ground (arith, has-without k j d, eq_iff i k, eq_iff i j, eq_iff k j)

pub without-without : (k : String) (d : Dict) → without k (without k d) ≡ without k d
unfolding without
without-without k end = refl
without-without k (field i w d) = ground (arith, without-without k d)

-- A key that is added to a dictionary without it is dropped again.
pub without-put : (k : String) (v : Value) (d : Dict) → without k (put k v d) ≡ without k d
unfolding put without
without-put k v end = ground (arith, eq_iff k k)
without-put k v (field i w d) = ground (arith, without-put k v d)

pub without_comm : (k j : String) (d : Dict) → without k (without j d) ≡ without j (without k d)
unfolding without
without_comm k j end = refl
without_comm k j (field i w d) = ground (arith, without_comm k j d)

pub without-put_ne :
    (k j : String) (v : Value) (d : Dict)
    → (j == k) ≡ false
    → without k (put j v d) ≡ put j v (without k d)
unfolding put without
without-put_ne k j v end apart = ground arith
without-put_ne k j v (field i w d) apart =
    ground (arith, without-put_ne k j v d apart, eq_iff i k, eq_iff i j, eq_iff j k)

pub text_of-put_self : (k s : String) (d : Dict) → text_of k (put k (str s) d) ≡ s
unfolding text_of
text_of-put_self k s d = simp (get-put, eq_refl) (ground (arith, eq_iff s ""))

pub text_of-put_ne :
    (k j : String) (v : Value) (d : Dict) → (k == j) ≡ false → text_of j (put k v d) ≡ text_of j d
unfolding text_of
text_of-put_ne k j v d apart = simp (get-put, apart)

pub is_str-eq : (s : String) (v : Value) → is_str s v ≡ true → v ≡ str s
unfolding is_str
is_str-eq s (str t) p = ap str ((eq_iff t s).0 p)
is_str-eq s _ p = cc

pub as_dict-eq : (v : Value) (d : Dict) → as_dict v ≡ ok d → v ≡ obj d
unfolding as_dict
as_dict-eq (obj d) e p = ground arith
as_dict-eq _ e p = cc

pub ruleset dict_laws = (get-put, has-put, get-without, has-without, without-put, without-without)
