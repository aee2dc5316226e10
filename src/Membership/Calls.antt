-- ===== src/Membership/Calls.antt =====
-- Runs of calls of src/membership.rs by many daemons: any interleaving, with any failures of the operating
-- system, is a list of calls, since each runs under the flock.
use snerd_rust.Base.{ℕ, ◌≡◌, ◌∙◌, String, inl, inr, some, List, [], ◌∷◌, arith, Result-cases, ok}
use snerd_rust.Membership.{Membership}
use snerd_rust.Membership.Store.{
  Codec, Dir, Faults, Change, bumped, mutate, init_unlocked, init, claim, revert_claim, renew,
  release, with_lock,
}
use snerd_rust.Membership.Store.Atomic.{stored, stored_of_file, mutate_ok, mutate_err}

-- One call of a daemon: its arguments and what fails in it.
pub data Call (Raw : Type 0) : Type 0 where
  claim_call : Faults Raw → String → String → ℕ → ℕ → Call Raw
  renew_call : Faults Raw → String → String → ℕ → Call Raw
  revert_call : Faults Raw → String → String → Call Raw
  release_call : Faults Raw → String → String → Call Raw
  init_call : Faults Raw → String → ℕ → Call Raw

module _ (codec : Codec) where
  open codec use {Raw}

  unfoldable pub step : Call Raw → Dir Raw → Dir Raw
  step (claim_call faults shard owner now skew) d = (claim codec faults shard owner now skew d).1
  step (renew_call faults shard owner now) d = (renew codec faults shard owner now d).1
  step (revert_call faults shard owner) d = (revert_claim codec faults shard owner d).1
  step (release_call faults shard owner) d = (release codec faults shard owner d).1
  step (init_call faults queue shards) d = (init codec faults queue shards d).1

  unfoldable pub run : List (Call Raw) → Dir Raw → Dir Raw
  run [] d = d
  run (c ∷ calls) d = run calls (step c d)

  -- What the stored membership satisfies.
  abbrev pub Stored : (Membership → Type 0) → Dir Raw → Type 0
  Stored P d = (m : Membership) × (stored codec d ≡ some m) × P m

  pub mutate_keeps :
      {A : Type 0} (P : Membership → Type 0) (faults : Faults Raw) (f : Membership → Change A)
      → ((m m' : Membership) (out : A) → P m → f m ≡ ok (out, m') → P (bumped codec m'))
      → (d : Dir Raw) → Stored P d
      → Stored P (mutate codec faults f d).1
  mutate_keeps P faults f keep d (m, e, p) = elim (Result-cases (mutate codec faults f d).0) [
    | inl (out, done) ↦
        let (m₀, m', e₀, changed, e') = mutate_ok codec faults f d out done in
        (bumped codec m', e', keep m m' out p (cc))
    | inr (x, failed) ↦ (m, stored_of_file codec d _ (mutate_err codec faults f d x failed) ∙ e, p)
  ]

  pub init_keeps :
      (P : Membership → Type 0) (faults : Faults Raw) (queue : String) (shards : ℕ) (d : Dir Raw)
      → Stored P d
      → Stored P (init codec faults queue shards d).1
  unfolding init init_unlocked with_lock stored
  init_keeps P faults queue shards d (m, e, p) = (m, ground arith, p)
