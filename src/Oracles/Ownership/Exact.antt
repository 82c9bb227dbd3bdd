-- ===== src/Oracles/Ownership/Exact.antt =====
-- An owned object is the only one (oracles/ownership.py).
use chaos_atlas.Prelude.{
  String, ◌≡◌, refl, sym, ap, ◌∙◌, Bool, true, false, not, ◌&&◌, ◌||◌, List, [], ◌∷◌, ◌++◌,
  if◌then◌else◌, All, nonempty, length, any, inl, inr, ◌⊎◌,
}
use chaos_atlas.Result.{
  Result, ok, err, ownership_uncertain, ◌>>=◌, raise_if, ok-inj, >>=-eq-ok, >>-eq-ok,
  raise_if-eq-ok,
}
use chaos_atlas.Value.{Value, obj, Dict, item, as_dict, values, present, value_eq, as_dict-eq}
use chaos_atlas.Isolation.Contracts.{Hasher}
use chaos_atlas.Oracles.Ownership.{
  collection_of, bounded, complete_response, owns, owned_in, identity_of, identity_text,
  has_identity, Selection, not_found, found_owned, settle_matches, select_in, uncertain,
  missing_evidence, select_owned,
}

-- an object that lacks one of the expected values
abbrev pub Foreign : Dict → Value → Type 0
Foreign expected v = (d : Dict) × (v ≡ obj d) × (owns expected v ≡ ok false)

-- `v` is the only one of `vs` that is owned.
abbrev pub OnlyOwned : Dict → Value → List Value → Type 0
OnlyOwned expected v vs =
    (front back : List Value) × (vs ≡ front ++ v ∷ back)
    × (owns expected v ≡ ok true)
    × All (Foreign expected) front
    × All (Foreign expected) back

Foreign-before :
    (expected : Dict) (v w : Value) (vs : List Value)
    → Foreign expected w
    → OnlyOwned expected v vs
    → OnlyOwned expected v (w ∷ vs)
Foreign-before expected v w vs f (front, back, split, owned, left, right) =
    (w ∷ front, back, ap (λ (x : List Value). w ∷ x) split, owned, (f, left), right)

-- What was read of a collection: none of its objects is owned, or one, or more.
Read : Dict → List Value → List Value → Type 0
Read expected vs [] = All (Foreign expected) vs
Read expected vs (v ∷ []) = OnlyOwned expected v vs
Read expected vs (v ∷ w ∷ ws) = Unit

module _ (spec expected wanted : Dict) where
  Read-Foreign :
      (w : Value) (vs owned : List Value)
      → Foreign expected w
      → Read expected vs owned
      → Read expected (w ∷ vs) owned
  unfolding Read
  Read-Foreign w vs [] f r = (f, r)
  Read-Foreign w vs (v ∷ []) f r = Foreign-before expected v w vs f r
  Read-Foreign w vs (v ∷ u ∷ us) f r = tt

  Read-owned :
      (w : Value) (vs owned : List Value)
      → owns expected w ≡ ok true
      → Read expected vs owned
      → Read expected (w ∷ vs) (w ∷ owned)
  unfolding Read
  Read-owned w vs [] o r = ([], vs, refl, o, tt, r)
  Read-owned w vs (v ∷ us) o r = tt

  Read-either :
      (d : Dict) (vs others owned : List Value) (b : Bool)
      → owns expected (obj d) ≡ ok b
      → Read expected vs others
      → (if b then obj d ∷ others else others) ≡ owned
      → Read expected (obj d ∷ vs) owned
  Read-either d vs others owned true o r e = rw (← e) (Read-owned (obj d) vs others o r)
  Read-either d vs others owned false o r e =
      rw (← e) (Read-Foreign (obj d) vs others (d, refl, o) r)

  keep : Bool → Value → List Value → Result (List Value)
  unfolding owned_in
  keep b v vs = owned_in spec expected wanted vs >>= λ others. ok (if b then v ∷ others else others)

  owned_in-Read :
      (vs owned : List Value) → owned_in spec expected wanted vs ≡ ok owned → Read expected vs owned
  unfolding owned_in Read keep
  owned_in-Read [] owned e = rw (← ok-inj e) tt
  owned_in-Read (obj d ∷ vs) owned e =
      let (b, o, e1) = >>=-eq-ok (owns expected (obj d)) _ e in
      let (same, _, e2) = >>=-eq-ok (has_identity spec wanted (obj d)) _ e1 in
      let (_, e3) =
        >>-eq-ok (raise_if (same && not b) ownership_uncertain _) (keep b (obj d) vs) e2 in
      let (others, p, e4) =
        >>=-eq-ok (owned_in spec expected wanted vs)
          (λ others. ok (if b then obj d ∷ others else others)) e3 in
      Read-either d vs others owned b o (owned_in-Read vs others p) (ok-inj e4)
  owned_in-Read (v ∷ vs) owned e = absurd (cc)

-- What `select_owned` may answer of the objects of a collection.
abbrev pub Answer : Hasher → Dict → Dict → Dict → List Value → Selection → Type 0
Answer h spec expected wanted objects selection =
    ((selection ≡ not_found h expected) × All (Foreign expected) objects)
    ⊎ ((v : Value) × (identity paths : Dict) × (selection ≡ found_owned h expected identity)
        × OnlyOwned expected v objects
        × (item "identity" spec ≡ ok (obj paths))
        × (identity_of v paths ≡ ok identity)
        × ((nonempty (values wanted) && not (value_eq (obj identity) (obj wanted))) ≡ false))

settle_matches-Answer :
    (h : Hasher) (spec expected wanted : Dict) (objects owned : List Value) (selection : Selection)
    → Read expected objects owned
    → settle_matches h spec expected wanted owned ≡ ok selection
    → Answer h spec expected wanted objects selection
unfolding settle_matches Read
settle_matches-Answer h spec expected wanted objects [] selection r e = inl (sym (ok-inj e), r)
settle_matches-Answer h spec expected wanted objects (v ∷ []) selection r e =
    let (identity, i, e1) = >>=-eq-ok (item "identity" spec) _ e in
    let (paths, p, e2) = >>=-eq-ok (as_dict identity) _ e1 in
    let (found, f, e3) = >>=-eq-ok (identity_of v paths) _ e2 in
    let (_, e4) =
      >>-eq-ok
        (raise_if (not (nonempty (values found)) || any (λ w. not (identity_text w)) (values found))
          ownership_uncertain _)
        _ e3 in
    let replaced = nonempty (values wanted) && not (value_eq (obj found) (obj wanted)) in
    let (same, e5) = >>-eq-ok (raise_if replaced ownership_uncertain _) _ e4 in
    inr (
      v,
      found,
      paths,
      sym (ok-inj e5),
      r,
      i ∙ ap ok (as_dict-eq identity paths p),
      f,
      raise_if-eq-ok replaced ownership_uncertain _ same,
    )
settle_matches-Answer h spec expected wanted objects (v ∷ w ∷ ws) selection r e = absurd (cc)

uncertain-ok :
    (r : Result Selection) (selection : Selection) → uncertain r ≡ ok selection → r ≡ ok selection
uncertain-ok (ok s) selection e = e
uncertain-ok (err x m) selection e = absurd (neither (missing_evidence x) _ e)
  where
    neither :
        (b : Bool) (n : String)
        → (if b then err ownership_uncertain n else err x m) ≡ ok selection
        → ⊥
    neither true n e = cc
    neither false n e = cc

-- Whatever `select_owned` returns, it has read the whole of a bounded collection, and either no
-- object of it is owned, or exactly one is, from which the identity is read; an identity that was
-- expected is that one.
pub select_owned-Answer :
    (h : Hasher) (payload : Value) (spec expected wanted : Dict) (selection : Selection)
    → select_owned h payload spec expected wanted ≡ ok selection
    → (collection : Value) × (objects : List Value) × (collection_of payload spec ≡ ok collection)
      × (bounded collection spec ≡ ok objects)
      × (complete_response payload spec (length objects) ≡ ok tt)
      × Answer h spec expected wanted objects selection
unfolding select_owned select_in
select_owned-Answer h payload spec expected wanted selection e =
    let (_, e1) =
      >>-eq-ok
        (raise_if (not (nonempty (values expected)) || any (λ v. not (present v)) (values expected))
          ownership_uncertain _)
        _ e in
    let e2 = uncertain-ok (select_in h payload spec expected wanted) selection e1 in
    let (collection, c, e3) = >>=-eq-ok (collection_of payload spec) _ e2 in
    let (objects, b, e4) = >>=-eq-ok (bounded collection spec) _ e3 in
    let (complete, e5) = >>-eq-ok (complete_response payload spec (length objects)) _ e4 in
    let (owned, o, e6) = >>=-eq-ok (owned_in spec expected wanted objects) _ e5 in
    (
      collection,
      objects,
      c,
      b,
      complete,
      settle_matches-Answer h spec expected wanted objects owned selection
          (owned_in-Read spec expected wanted objects owned o) e6,
    )
