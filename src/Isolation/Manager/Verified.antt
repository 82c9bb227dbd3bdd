-- ===== src/Isolation/Manager/Verified.antt =====
-- A lease becomes `released` only after the provider cleaned up and confirmed the absence of what
-- the lease owned (`_release_locked` of isolation/manager.py).
use chaos_atlas.Prelude.{
  String, ◌≡◌, refl, sym, ap, ◌∙◌, ◌⊎◌, inl, inr, Bool, true, false, List, ◌++◌, arith,
  if◌then◌else◌, Bool-cases, and_left, and_right,
}
use chaos_atlas.Result.{Result, ok, err, >>=-eq-ok}
use chaos_atlas.Exec.{pure, lift}
use chaos_atlas.Isolation.Store.Files.{save-ok}
use chaos_atlas.Exec.Inversion.{bind-ok, lift-ok, pure-ok}
use chaos_atlas.Value.{
  Value, int, str, Dict, get, put, item, without, is_str, is_true, text, get-put, without-put,
  without-put_ne,
}
use chaos_atlas.Isolation.Contracts.{Hasher, with_hash, transition_lease}
use chaos_atlas.Isolation.Contracts.Hashing.{get-with_hash, without-with_hash}
use chaos_atlas.Isolation.Contracts.Lifecycle.{transition_lease-ok, get-state_moved}
use chaos_atlas.Isolation.Store.{Disk, load, operation_lock}
use chaos_atlas.Isolation.Manager.Provider.{Provider, Ambient, find_provider}
use chaos_atlas.Isolation.Manager.Release.{
  rescue, blocked, unconfirmed, run_cleanup, run_absence, is_verified, record_outcome,
  begin_release, finish_release, release_first, release_locked, release,
}

-- The provider's word that nothing of the lease is left.
abbrev pub Confirmed : Provider → Dict → Type 0
Confirmed provider lease =
    (plan : Value) × (cleanup : Dict) × (absence : Dict) × (item "plan" lease ≡ ok plan)
    × (provider.cleanup plan lease ≡ ok cleanup)
    × (is_str "released" (get "status" cleanup) ≡ true)
    × (provider.verify_absent plan lease ≡ ok absence)
    × (is_true (get "confirmed" absence) ≡ true)

-- a lease without what a release changes of it
abbrev pub lasting : Dict → Dict
lasting lease = without "state" (without "cleanup_attempts" (without "lease_sha256" lease))

cleaned :
    (r : Result Dict) (c : Dict)
    → rescue r blocked ≡ ok c
    → is_str "released" (get "status" c) ≡ true
    → r ≡ ok c
unfolding get is_str
cleaned (ok d) c p q = p
cleaned (err e m) c p q = ground arith

confirmed :
    (r : Result Dict) (a : Dict)
    → rescue r unconfirmed ≡ ok a
    → is_true (get "confirmed" a) ≡ true
    → r ≡ ok a
unfolding get is_true
confirmed (ok d) a p q = p
confirmed (err e m) a p q = ground arith

cleanup_ran :
    (provider : Provider) (lease c : Dict)
    → run_cleanup provider lease ≡ ok c
    → is_str "released" (get "status" c) ≡ true
    → (plan : Value) × (item "plan" lease ≡ ok plan) × (provider.cleanup plan lease ≡ ok c)
unfolding run_cleanup
cleanup_ran provider lease c p q = >>=-eq-ok (item "plan" lease) _ (cleaned _ c p q)

absence_ran :
    (provider : Provider) (lease c a : Dict)
    → run_absence provider lease c ≡ ok a
    → is_str "released" (get "status" c) ≡ true
    → is_true (get "confirmed" a) ≡ true
    → (plan : Value) × (item "plan" lease ≡ ok plan) × (provider.verify_absent plan lease ≡ ok a)
unfolding run_absence
absence_ran provider lease c a p q t = >>=-eq-ok (item "plan" lease) _ (rw q at (confirmed _ a p t))

module _ (h : Hasher) (root : String) (registry : List (String × Provider))
    (ambient : Ambient) where
  kept_state :
      (b : Bool) (moved : Dict) (v : Value)
      → get "state" (if b then moved else with_hash h (put "last_error" v moved) "lease_sha256")
        ≡ get "state" moved
  kept_state true moved v = refl
  kept_state false moved v =
      get-with_hash h (put "last_error" v moved) "lease_sha256" "state" refl ∙ simp get-put

  -- The state that the outcome of a cleanup leaves.
  record_outcome-state :
      (id : String) (cleanup absence : Dict) (errors : List Value) (disk : Disk) (final : Dict)
      → (record_outcome h root registry ambient id cleanup absence errors disk).0 ≡ ok final
      → get "state" final
        ≡ str (if is_verified cleanup absence then "released" else "cleanup_failed")
  unfolding record_outcome
  record_outcome-state id cleanup absence errors disk final p =
      let (current, d1, e1, p1, _) = bind-ok _ _ disk final p in
      let (moved, d2, e2, p2, _) = bind-ok _ _ d1 final p1 in
      let (_, d3, e3, p3, _) = bind-ok _ _ d2 final p2 in
      let (_, d4, e4, p4, _) = bind-ok _ _ d3 final p3 in
      let (_, d5, e5, p5, _) = bind-ok _ _ d4 final p4 in
      let target = if is_verified cleanup absence then "released" else "cleanup_failed" in
      let (_, same) = transition_lease-ok h current moved target (lift-ok _ d1 d2 moved e2) in
      let reached : get "state" moved ≡ str target =
        ap (get "state") same ∙ get-state_moved h current target in
      sym (ap (get "state") (pure-ok _ final d5 p5))
      ∙ kept_state (is_verified cleanup absence) moved _
      ∙ reached

  joined :
      (provider : Provider) (lease c a : Dict)
      → run_cleanup provider lease ≡ ok c
      → run_absence provider lease c ≡ ok a
      → is_verified c a ≡ true
      → Confirmed provider lease
  unfolding is_verified
  joined provider lease c a p q v =
      let clean = and_left (is_str "released" (get "status" c)) (is_true (get "confirmed" a)) v in
      let gone = and_right (is_str "released" (get "status" c)) (is_true (get "confirmed" a)) v in
      let (plan, e, ran) = cleanup_ran provider lease c p clean in
      let (plan', e', ran') = absence_ran provider lease c a q clean gone in
      let same : plan' ≡ plan = cc in (plan, c, a, e, ran, clean, rw same at ran', gone)

  abbrev IsReleased : Dict → Type 0
  IsReleased lease = is_str "released" (get "state" lease) ≡ true

  released_verified :
      (b : Bool) (v : Value)
      → v ≡ str (if b then "released" else "cleanup_failed")
      → is_str "released" v ≡ true
      → b ≡ true
  unfolding is_str
  released_verified true v e r = refl
  released_verified false v e r = cc (rw e at r)

  finish_release-Confirmed :
      (id : String) (provider : Provider) (lease : Dict) (disk : Disk) (final : Dict)
      → (finish_release h root registry ambient id provider lease disk).0 ≡ ok final
      → IsReleased final
      → Confirmed provider lease
  unfolding finish_release
  finish_release-Confirmed id provider lease disk final p r =
      let (c, d1, e1, p1, _) = bind-ok _ _ disk final p in
      let (a, d2, e2, p2, _) = bind-ok _ _ d1 final p1 in
      let (x, d3, e3, p3, _) = bind-ok _ _ d2 final p2 in
      let (y, d4, e4, p4, _) = bind-ok _ _ d3 final p3 in
      joined provider lease c a (lift-ok _ disk d1 c e1) (lift-ok _ d1 d2 a e2) (
        released_verified (is_verified c a) (get "state" final)
          (record_outcome-state id c a (x ++ y) d4 final p4) r)

  hashed-lasting : (d : Dict) → lasting (with_hash h d "lease_sha256") ≡ lasting d
  hashed-lasting d =
      ap (λ (x : Dict). without "state" (without "cleanup_attempts" x))
        (without-with_hash h d "lease_sha256")

  counted-lasting : (v : Value) (d : Dict) → lasting (put "cleanup_attempts" v d) ≡ lasting d
  counted-lasting v d =
      rw (without-put_ne "lease_sha256" "cleanup_attempts" v d refl)
        (rw (without-put "cleanup_attempts" v (without "lease_sha256" d)) refl)

  moved-lasting : (v : Value) (d : Dict) → lasting (put "state" v d) ≡ lasting d
  moved-lasting v d = rw (without-put_ne "lease_sha256" "state" v d refl) (
      rw (without-put_ne "cleanup_attempts" "state" v (without "lease_sha256" d) refl)
        (rw (without-put "state" v (without "cleanup_attempts" (without "lease_sha256" d))) refl))

  begun_from :
      (b : Bool) (lease moved : Dict) (disk disk' : Disk)
      → is_str "releasing" (get "state" lease) ≡ b
      → (if b then pure lease else lift (transition_lease h lease "releasing")) disk
        ≡ (ok moved, disk')
      → (lasting moved ≡ lasting lease) × (is_str "releasing" (get "state" moved) ≡ true)
  unfolding is_str
  begun_from true lease moved disk disk' s e =
      let same = pure-ok lease moved disk (ap (λ (x : Result Dict × Disk). x.0) e) in
      rw (← same) (refl, s)
  begun_from false lease moved disk disk' s e =
      let (_, same) =
        transition_lease-ok h lease moved "releasing" (lift-ok _ disk disk' moved e) in
      rw same (
        hashed-lasting (put "state" (str "releasing") lease)
            ∙ moved-lasting (str "releasing") lease,
        rw (get-state_moved h lease "releasing") refl,
      )

  -- The release begins on the lease itself: only its state, its count of attempts and its hash are new.
  begin_release-lasting :
      (lease begun : Dict) (disk : Disk)
      → (begin_release h root registry ambient lease disk).0 ≡ ok begun
      → (lasting begun ≡ lasting lease) × (is_str "releasing" (get "state" begun) ≡ true)
  unfolding begin_release
  begin_release-lasting lease begun disk p =
      let (moved, d1, e1, p1, _) = bind-ok _ _ disk begun p in
      let (attempt, d2, e2, p2, _) = bind-ok _ _ d1 begun p1 in
      let (same, _, _) =
        save-ok h root (with_hash h (put "cleanup_attempts" (int attempt) moved) "lease_sha256")
          begun false d2 p2 in
      let (kept, state) = begun_from _ lease moved disk d1 refl e1 in
      rw same (
        hashed-lasting (put "cleanup_attempts" (int attempt) moved)
            ∙ (counted-lasting (int attempt) moved ∙ kept),
        rw
            (get-with_hash h (put "cleanup_attempts" (int attempt) moved) "lease_sha256" "state"
              refl)
            (rw get-put state),
      )

  -- What the release of a lease that is not yet released ran, when it ended in `released`.
  abbrev pub ReleasedBy : Dict → Type 0
  ReleasedBy lease =
      (provider : Provider) × (begun : Dict) × (find_provider registry (text (get "provider" lease))
        ≡ ok provider)
      × (lasting begun ≡ lasting lease)
      × (is_str "releasing" (get "state" begun) ≡ true)
      × Confirmed provider begun

  release_first-Confirmed :
      (id : String) (lease : Dict) (disk : Disk) (final : Dict)
      → (release_first h root registry ambient id lease disk).0 ≡ ok final
      → IsReleased final
      → ReleasedBy lease
  unfolding release_first
  release_first-Confirmed id lease disk final p r =
      let (provider, d1, e1, p1, _) = bind-ok _ _ disk final p in
      let (begun, d2, e2, p2, _) = bind-ok _ _ d1 final p1 in
      let (kept, state) =
        begin_release-lasting lease begun d1 (ap (λ (x : Result Dict × Disk). x.0) e2) in
      (
        provider,
        begun,
        lift-ok _ disk d1 provider e1,
        kept,
        state,
        finish_release-Confirmed id provider begun d2 final p2 r,
      )

  locked :
      (id : String) (disk : Disk) (final : Dict)
      → (release h root registry ambient id disk).0 ≡ ok final
      → (release_locked h root registry ambient id disk).0 ≡ ok final
  unfolding release operation_lock
  locked id disk final p = ground arith

  -- `release` returns a released lease only if the lease was released before, or the provider of the
  -- lease, called with the stored lease in state `releasing`, of which only the count of attempts and
  -- the hash are new beside the state, reported `released` from its cleanup and then confirmed the
  -- absence of the environment.
  pub release_verified :
      (id : String) (disk : Disk) (final : Dict)
      → (release h root registry ambient id disk).0 ≡ ok final
      → is_str "released" (get "state" final) ≡ true
      → (lease : Dict) × ((load h root id disk).0 ≡ ok lease)
        × ((is_str "released" (get "state" lease) ≡ true) ⊎ ReleasedBy lease)
  unfolding release_locked
  release_verified id disk final p r =
      let q = locked id disk final p in
      let (lease, d1, e1, p1, _) = bind-ok _ _ disk final q in
      (
        lease,
        ap (λ (x : Result Dict × Disk). x.0) e1,
        elim (Bool-cases (is_str "released" (get "state" lease))) [
          | inl e ↦ inl e
          | inr n ↦ inr (release_first-Confirmed id lease d1 final (rw n at p1) r)
        ],
      )
