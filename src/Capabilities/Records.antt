-- ===== src/Capabilities/Records.antt =====
-- Properties of every record of `assess_core_capabilities` (capabilities/core_assessment.py).
use chaos_atlas.Prelude.{
  ℕ, suc, ◌+◌, ◌*◌, true, ◌≡◌, refl, ap, ◌∙◌, ◌⊎◌, inl, inr, List, [], ◌∷◌, ◌++◌, arith, ◌==◌,
  if◌then◌else◌, nonempty, length, length-append, Bool-cases, All,
}
use chaos_atlas.Result.{ok-inj, Result, ok, err, ◌>>=◌, >>=-eq-ok}
use chaos_atlas.Value.{Dict, end}
use chaos_atlas.Capabilities.Catalog.{Fault, fault_catalog}
use chaos_atlas.Capabilities.Core.{record_of}
use chaos_atlas.Capabilities.Assessment.{
  assess_target, assess_api_server_delay, assess_targets, missing_target, assess_fault,
  assess_faults, capability_leb, insert_capability, sort_capabilities, assess_core_capabilities,
}

-- `node` is one of `nodes`.
abbrev pub Among : Dict → List Dict → Type 0
Among node [] = ⊥
Among node (n ∷ ns) = (node ≡ n) ⊎ Among node ns

-- `fault` is one of `faults`.
abbrev pub Listed : Fault → List Fault → Type 0
Listed fault [] = ⊥
Listed fault (f ∷ fs) = (fault ≡ f) ⊎ Listed fault fs

All-append : (P : Dict → Type 0) (xs ys : List Dict) → All P xs → All P ys → All P (xs ++ ys)
All-append P [] ys p q = q
All-append P (x ∷ xs) ys (px, p) q = (px, All-append P xs ys p q)

insert_capability-All :
    (P : Dict → Type 0) (r : Dict) (rs : List Dict)
    → P r
    → All P rs
    → All P (insert_capability r rs)
unfolding insert_capability
insert_capability-All P r [] p q = (p, tt)
insert_capability-All P r (s ∷ ss) p (ps, q) = elim (Bool-cases (capability_leb r s)) [
  | inl e ↦ rw e (p, (ps, q))
  | inr e ↦ rw e (ps, insert_capability-All P r ss p q)
]

sort_capabilities-All :
    (P : Dict → Type 0) (rs : List Dict) → All P rs → All P (sort_capabilities rs)
unfolding sort_capabilities
sort_capabilities-All P [] q = tt
sort_capabilities-All P (r ∷ rs) (p, q) =
    insert_capability-All P r (sort_capabilities rs) p (sort_capabilities-All P rs q)

length-insert_capability :
    (r : Dict) (rs : List Dict) → length (insert_capability r rs) ≡ suc (length rs)
unfolding insert_capability
length-insert_capability r [] = refl
length-insert_capability r (s ∷ ss) = ground (arith, length-insert_capability r ss)

length-sort_capabilities : (rs : List Dict) → length (sort_capabilities rs) ≡ length rs
unfolding sort_capabilities
length-sort_capabilities [] = refl
length-sort_capabilities (r ∷ rs) =
    length-insert_capability r (sort_capabilities rs) ∙ ap suc (length-sort_capabilities rs)

module _ (profile : Dict) (runtime : Dict) (P : Dict → Type 0) where
  targets-All :
      (fault : Fault) (nodes : List Dict)
      → ((node r : Dict) → Among node nodes → assess_target profile fault node runtime ≡ ok r → P r)
      → (rs : List Dict) → assess_targets profile fault runtime nodes ≡ ok rs
      → All P rs
  unfolding assess_targets
  targets-All fault [] on_target rs e = rw (← ok-inj e) tt
  targets-All fault (node ∷ nodes) on_target rs e =
      let (first, f, j) = >>=-eq-ok (assess_target profile fault node runtime) _ e in
      let (rest, g, k) = >>=-eq-ok (assess_targets profile fault runtime nodes) _ j in
      rw (← ok-inj k) (
        on_target node first (inl refl) f,
        targets-All fault nodes (λ n r m. on_target n r (inr m)) rest g,
      )

module _ (profile : Dict) (nodes : List Dict) (runtime : Dict) (P : Dict → Type 0)
    (on_target : (fault : Fault) (node r : Dict)
      → Listed fault fault_catalog
      → Among node nodes
      → assess_target profile fault node runtime ≡ ok r
      → P r)
    (on_delay : (fault : Fault) (r : Dict)
      → (fault.fault_id == "api_server_delay") ≡ true
      → assess_api_server_delay profile fault runtime ≡ ok r
      → P r)
    (on_missing : (fault : Fault) (r : Dict)
      → record_of profile fault end missing_target ≡ ok r
      → P r) where
  single :
      (m : Result Dict) (rs : List Dict)
      → ((r : Dict) → m ≡ ok r → P r)
      → (m >>= λ r. ok (r ∷ [])) ≡ ok rs
      → All P rs
  single (ok r) rs p e = rw (← ok-inj e) (p r refl, tt)
  single (err x m) rs p e = cc

  fault-All :
      (fault : Fault) (rs : List Dict)
      → Listed fault fault_catalog
      → assess_fault profile nodes runtime fault ≡ ok rs
      → All P rs
  unfolding assess_fault
  fault-All fault rs listed e = elim (Bool-cases (fault.fault_id == "api_server_delay")) [
    | inl d ↦
        single (assess_api_server_delay profile fault runtime) rs (λ r. on_delay fault r d)
          (rw d at e)
    | inr d ↦ elim (Bool-cases (nonempty nodes)) [
      | inl n ↦
          targets-All profile runtime P fault nodes (λ node r. on_target fault node r listed) rs
            (rw (d, n) at e)
      | inr n ↦
          single (record_of profile fault end missing_target) rs (on_missing fault) (rw (d, n) at e)
    ]
  ]

  faults-All :
      (faults : List Fault) (rs : List Dict)
      → ((fault : Fault) → Listed fault faults → Listed fault fault_catalog)
      → assess_faults profile nodes runtime faults ≡ ok rs
      → All P rs
  unfolding assess_faults
  faults-All [] rs within e = rw (← ok-inj e) tt
  faults-All (fault ∷ faults) rs within e =
      let (first, f, j) = >>=-eq-ok (assess_fault profile nodes runtime fault) _ e in
      let (rest, g, k) = >>=-eq-ok (assess_faults profile nodes runtime faults) _ j in
      rw (← ok-inj k) (
        All-append P first rest (fault-All fault first (within fault (inl refl)) f)
          (faults-All faults rest (λ other l. within other (inr l)) g))

  -- What holds of the records of each fault holds of the sorted list of all.
  pub assess_core_capabilities-All :
      (rs : List Dict) → assess_core_capabilities profile nodes runtime ≡ ok rs → All P rs
  unfolding assess_core_capabilities
  assess_core_capabilities-All rs e =
      let (found, f, j) = >>=-eq-ok (assess_faults profile nodes runtime fault_catalog) _ e in
      rw (← ok-inj j)
        (sort_capabilities-All P found (faults-All fault_catalog found (λ fault l. l) f))

module _ (profile : Dict) (nodes : List Dict) (runtime : Dict) where
  length-assess_targets :
      (fault : Fault) (ns : List Dict) (rs : List Dict)
      → assess_targets profile fault runtime ns ≡ ok rs
      → length rs ≡ length ns
  unfolding assess_targets
  length-assess_targets fault [] rs e = rw (← ok-inj e) refl
  length-assess_targets fault (n ∷ ns) rs e =
      let (first, f, j) = >>=-eq-ok (assess_target profile fault n runtime) _ e in
      let (rest, g, k) = >>=-eq-ok (assess_targets profile fault runtime ns) _ j in
      rw (← ok-inj k) (ap suc (length-assess_targets fault ns rest g))

  -- the number of records of a fault
  abbrev share : Fault → ℕ
  share fault =
      if fault.fault_id == "api_server_delay" then 1 else if nonempty nodes then length nodes else 1

  abbrev shares : List Fault → ℕ
  shares [] = 0
  shares (f ∷ fs) = share f + shares fs

  one_record : (m : Result Dict) (rs : List Dict) → (m >>= λ r. ok (r ∷ [])) ≡ ok rs → length rs ≡ 1
  one_record (ok r) rs e = rw (← ok-inj e) refl
  one_record (err x m) rs e = cc

  length-assess_fault :
      (fault : Fault) (rs : List Dict)
      → assess_fault profile nodes runtime fault ≡ ok rs
      → length rs ≡ share fault
  unfolding assess_fault
  length-assess_fault fault rs e = elim (Bool-cases (fault.fault_id == "api_server_delay")) [
    | inl d ↦ rw d (one_record (assess_api_server_delay profile fault runtime) rs (rw d at e))
    | inr d ↦ elim (Bool-cases (nonempty nodes)) [
      | inl n ↦ rw (d, n) (length-assess_targets fault nodes rs (rw (d, n) at e))
      | inr n ↦
          rw (d, n) (one_record (record_of profile fault end missing_target) rs (rw (d, n) at e))
    ]
  ]

  length-assess_faults :
      (faults : List Fault) (rs : List Dict)
      → assess_faults profile nodes runtime faults ≡ ok rs
      → length rs ≡ shares faults
  unfolding assess_faults
  length-assess_faults [] rs e = rw (← ok-inj e) refl
  length-assess_faults (fault ∷ faults) rs e =
      let (first, f, j) = >>=-eq-ok (assess_fault profile nodes runtime fault) _ e in
      let (rest, g, k) = >>=-eq-ok (assess_faults profile nodes runtime faults) _ j in
      rw (← ok-inj k) (
        omega (
          arith,
          length-append {0} first rest,
          length-assess_fault fault first f,
          length-assess_faults faults rest g,
        ))

  shares_catalog : shares fault_catalog ≡ 1 + 31 * (if nonempty nodes then length nodes else 1)
  shares_catalog = elim (Bool-cases (nonempty nodes)) [
    | inl e ↦ rw e (omega arith)
    | inr e ↦ rw e (omega arith)
  ]

  -- An assessment that returns has one record for the API server's delay and, for each of the other
  -- 31 faults, one record for each target, or one that says that there is no target.
  pub length-assess_core_capabilities :
      (rs : List Dict)
      → assess_core_capabilities profile nodes runtime ≡ ok rs
      → length rs ≡ 1 + 31 * (if nonempty nodes then length nodes else 1)
  unfolding assess_core_capabilities
  length-assess_core_capabilities rs e =
      let (found, f, j) = >>=-eq-ok (assess_faults profile nodes runtime fault_catalog) _ e in
      rw (← ok-inj j) (
        length-sort_capabilities found
        ∙ (length-assess_faults fault_catalog found f ∙ shares_catalog))
