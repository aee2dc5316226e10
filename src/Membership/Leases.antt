-- ===== src/Membership/Leases.antt =====
-- Many daemons on one queue directory (src/membership.rs): any interleaving of their calls, with
-- any failures of the operating system, is a list of calls, since each runs under the flock.
use snerd_rust.Base.{
  ℕ, ◌+◌, ◌≤◌, ◌≡◌, refl, sym, ◌∙◌, String, Bool-cases, str_eq, ◌≢◌, ◌⊎◌, inl, inr, some, List, [],
  ◌∷◌, arith, eq_iff, All, lookup, lookup-insert, lookup-remove, Option-cases, ok, err,
}
use snerd_rust.Membership.{
  Claim, Membership, ClaimOutcome, owned_by_other, lease_duration, is_lapsed,
}
use snerd_rust.Membership.Store.{
  Codec, Dir, Faults, claim_change, revert_change, renew_change, release_change, set_claim,
  drop_claim, bumped, claim, revert_claim, renew, release,
}
use snerd_rust.Membership.Claims.{change_effect, claim_granted, claim_refused}
use snerd_rust.Membership.Store.Atomic.{IsCalm}
use snerd_rust.Membership.Calls.{
  Call, claim_call, renew_call, revert_call, release_call, init_call, step, run, Stored,
  mutate_keeps, init_keeps,
}

module _ (codec : Codec) where
  open codec use {Raw}

  module _ (shard owner : String) (expiry : ℕ) where
    -- `owner` holds the shard until `expiry` at least.
    abbrev pub Held : Membership → Type 0
    Held m =
        (c : Claim) × (lookup shard m.claims ≡ some c)
        × (c.owner ≡ owner)
        × (expiry ≤ c.lease_expiry)

    -- The call is on another shard, or by another daemon whose clock is not past the lease and
    -- its skew margin, or the holder's own claim or renewal at a clock that does not shorten it.
    unfoldable pub Respects : Call Raw → Type 0
    Respects (claim_call _ s o now skew) =
        (s ≢ shard)
        ⊎ (o ≢ owner) × (now ≤ expiry + skew)
        ⊎ (o ≡ owner) × (expiry ≤ now + lease_duration)
    Respects (renew_call _ s o now) = (s ≢ shard) ⊎ (o ≢ owner) ⊎ (expiry ≤ now + lease_duration)
    Respects (revert_call _ s o) = (s ≢ shard) ⊎ (o ≢ owner)
    Respects (release_call _ s o) = (s ≢ shard) ⊎ (o ≢ owner)
    Respects (init_call _ _ _) = Unit

    set_Held :
        (s o : String) (e : ℕ) (m : Membership)
        → Held m
        → (s ≢ shard) ⊎ (o ≡ owner) × (expiry ≤ e)
        → Held (bumped codec (set_claim m s o e))
    unfolding bumped set_claim
    set_Held s o e m (c, found, own, late) (inl ne) = (
      c,
      ground (
        arith,
        lookup-insert s shard (record { owner = o; lease_expiry = e }) m.claims,
        eq_iff s shard,
      ),
      own,
      late,
    )
    set_Held s o e m (c, found, own, late) (inr (same, later)) =
        elim (Bool-cases (str_eq s shard)) [
          | inl here ↦ (
            record { owner = o; lease_expiry = e },
            ground (arith, lookup-insert s shard (record { owner = o; lease_expiry = e }) m.claims),
            same,
            later,
          )
          | inr there ↦ (
            c,
            ground (arith, lookup-insert s shard (record { owner = o; lease_expiry = e }) m.claims),
            own,
            late,
          )
        ]

    drop_Held :
        (s : String) (m : Membership) → Held m → s ≢ shard → Held (bumped codec (drop_claim m s))
    unfolding bumped drop_claim
    drop_Held s m (c, found, own, late) ne =
        (c, ground (arith, lookup-remove s shard m.claims, eq_iff s shard), own, late)

    claim_refuses :
        (o : String) (now skew : ℕ) (m m' : Membership) (out : ClaimOutcome)
        → Held m
        → o ≢ owner
        → now ≤ expiry + skew
        → claim_change shard o now skew m ≢ ok (out, m')
    unfolding claim_change is_lapsed
    claim_refuses o now skew m m' out (c, found, own, late) other live h =
        ground (arith, eq_iff c.owner o)

    claim_keeps :
        (faults : Faults Raw) (s o : String) (now skew : ℕ)
        → Respects (claim_call faults s o now skew)
        → (m m' : Membership) (out : ClaimOutcome) → Held m
        → claim_change s o now skew m ≡ ok (out, m')
        → Held (bumped codec m')
    unfolding Respects
    claim_keeps faults s o now skew (inl ne) m m' out held h =
        rw (change_effect s o now skew m m' out h)
          (set_Held s o (now + lease_duration) m held (inl ne))
    claim_keeps faults s o now skew (inr (inr own)) m m' out held h =
        rw (change_effect s o now skew m m' out h)
          (set_Held s o (now + lease_duration) m held (inr own))
    claim_keeps faults s o now skew (inr (inl (other, live))) m m' out held h =
        elim (Bool-cases (str_eq s shard)) [
          | inl here ↦
              absurd (
                claim_refuses o now skew m m' out held other live
                  (rw (← (eq_iff s shard).0 here) h))
          | inr there ↦
              rw (change_effect s o now skew m m' out h)
                (set_Held s o (now + lease_duration) m held (inl (λ e. cc ((eq_iff s shard).1 e))))
        ]

    renew_keeps :
        (faults : Faults Raw) (s o : String) (now : ℕ)
        → Respects (renew_call faults s o now)
        → (m m' : Membership) (out : Unit {0}) → Held m
        → renew_change s o now m ≡ ok (out, m')
        → Held (bumped codec m')
    unfolding Respects renew_change
    renew_keeps faults s o now r m m' out held h = elim (Option-cases (lookup s m.claims)) [
      | inl e ↦ absurd (ground arith)
      | inr (c, e) ↦
          let effect : m' ≡ set_claim m s c.owner (now + lease_duration) = ground arith in
          rw effect (
            set_Held s c.owner (now + lease_duration) m held
              (ground (arith, eq_iff c.owner o, eq_iff s shard)))
    ]

    not_own :
        (s o : String) (m : Membership) (c : Claim)
        → lookup s m.claims ≡ some c
        → c.owner ≡ o
        → (s ≢ shard) ⊎ (o ≢ owner)
        → Held m
        → s ≢ shard
    not_own s o m c e own (inl ne) held = ne
    not_own s o m c e own (inr other) (c₀, found, his, late) = λ same. other (cc)

    kept : (m m' : Membership) → Held m → m' ≡ m → Held (bumped codec m')
    unfolding bumped
    kept m m' held e = rw e held

    release_keeps :
        (faults : Faults Raw) (s o : String)
        → Respects (release_call faults s o)
        → (m m' : Membership) (out : Unit {0}) → Held m
        → release_change s o m ≡ ok (out, m')
        → Held (bumped codec m')
    unfolding Respects release_change
    release_keeps faults s o r m m' out held h = elim (Option-cases (lookup s m.claims)) [
      | inl e ↦ absurd (ground arith)
      | inr (c, e) ↦
          let effect : m' ≡ drop_claim m s = ground arith in
          rw effect
            (drop_Held s m held (not_own s o m c e (ground (arith, eq_iff c.owner o)) r held))
    ]

    revert_keeps :
        (faults : Faults Raw) (s o : String)
        → Respects (revert_call faults s o)
        → (m m' : Membership) (out : Unit {0}) → Held m
        → revert_change s o m ≡ ok (out, m')
        → Held (bumped codec m')
    unfolding Respects revert_change bumped
    revert_keeps faults s o r m m' out held h = elim (Option-cases (lookup s m.claims)) [
      | inl e ↦ kept m m' held (ground arith)
      | inr (c, e) ↦ elim (Bool-cases (str_eq c.owner o)) [
        | inl his ↦
            let effect : m' ≡ drop_claim m s = ground arith in
            rw effect (drop_Held s m held (not_own s o m c e ((eq_iff c.owner o).0 his) r held))
        | inr other ↦ kept m m' held (ground arith)
      ]
    ]

    pub step_keeps :
        (c : Call Raw) (d : Dir Raw)
        → Respects c
        → Stored codec Held d
        → Stored codec Held (step codec c d)
    unfolding step claim renew revert_claim release
    step_keeps (claim_call faults s o now skew) d r held =
        mutate_keeps codec Held faults _ (claim_keeps faults s o now skew r) d held
    step_keeps (renew_call faults s o now) d r held =
        mutate_keeps codec Held faults _ (renew_keeps faults s o now r) d held
    step_keeps (revert_call faults s o) d r held =
        mutate_keeps codec Held faults _ (revert_keeps faults s o r) d held
    step_keeps (release_call faults s o) d r held =
        mutate_keeps codec Held faults _ (release_keeps faults s o r) d held
    step_keeps (init_call faults queue shards) d r held =
        init_keeps codec Held faults queue shards d held

    -- While every other daemon's clock is within the holder's lease and the skew margin, no
    -- interleaving of calls takes the shard from its holder or shortens the lease.
    pub run-Held :
        (calls : List (Call Raw)) (d : Dir Raw)
        → All Respects calls
        → Stored codec Held d
        → Stored codec Held (run codec calls d)
    unfolding run
    run-Held [] d r held = held
    run-Held (c ∷ calls) d (r, rs) held = run-Held calls (step codec c d) rs (step_keeps c d r held)

  -- A claim that succeeds protects the shard: after it, whatever other daemons call at clocks
  -- within the granted lease and the skew margin, and whatever calls fail, the shard is still
  -- held by the claimant until the end of the granted lease at least.
  pub claim_protects :
      (faults : Faults Raw) (shard owner : String) (now skew : ℕ) (d : Dir Raw) (out : ClaimOutcome)
      (calls : List (Call Raw))
      → (claim codec faults shard owner now skew d).0 ≡ ok out
      → All (Respects shard owner (now + lease_duration)) calls
      → Stored codec
          (Held shard owner (now + lease_duration))
          (run codec calls (claim codec faults shard owner now skew d).1)
  claim_protects faults shard owner now skew d out calls granted r =
      let (m, m', e, e', g) = claim_granted codec shard owner now skew d faults out granted in
      run-Held shard owner (now + lease_duration) calls _ r (m', e', (_, g.held, refl, omega arith))

  -- After such calls a claim by any other daemon, at a clock within the granted lease and that
  -- daemon's skew margin, is refused with the holder's name, and changes nothing.
  pub rivals_refused :
      (faults faults' : Faults Raw) (shard owner rival : String) (now skew now' skew' : ℕ)
      (d : Dir Raw) (out : ClaimOutcome) (calls : List (Call Raw))
      → (claim codec faults shard owner now skew d).0 ≡ ok out
      → All (Respects shard owner (now + lease_duration)) calls
      → IsCalm faults'
      → rival ≢ owner
      → now' ≤ now + lease_duration + skew'
      → claim codec faults' shard rival now' skew'
          (run codec calls (claim codec faults shard owner now skew d).1)
        ≡ (
          err (owned_by_other shard owner),
          run codec calls (claim codec faults shard owner now skew d).1,
        )
  rivals_refused faults faults' shard owner rival now skew now' skew' d out calls granted r calm ne
        live =
      let (m, e, (c, found, own, late)) =
        claim_protects faults shard owner now skew d out calls granted r in
      rw own at (
        claim_refused codec shard rival now' skew'
          (run codec calls (claim codec faults shard owner now skew d).1) faults' m c calm e found
          (λ e'. ne (sym e' ∙ own)) (omega arith))
