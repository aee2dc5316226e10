-- ===== src/Membership/Store/Atomic.antt =====
-- The read-modify-write of `mutate`: all or nothing, whatever call of the operating system fails.
use snerd_rust.Base.{
  ℕ, ◌≡◌, refl, false, String, [], Option, none, some, arith, Option-cases, inl, inr, Result-cases,
  ok, err,
}
use snerd_rust.Membership.{MembershipError, Membership}
use snerd_rust.Membership.Store.{
  Codec, Dir, Faults, Change, parse, serialize, bumped, with_lock, read_unlocked, write_unlocked,
  init_unlocked, mutate,
}

-- No call of the operating system fails.
pub record IsCalm {Raw : Type 0} (faults : Faults Raw) : Type 0 where
  pub open_lock : faults.open_lock ≡ false
  pub take_lock : faults.take_lock ≡ false
  pub read : faults.read ≡ false
  pub create : faults.create ≡ false
  pub write : faults.write ≡ false
  pub sync : faults.sync ≡ false
  pub rename : faults.rename ≡ false

module _ (codec : Codec) where
  open codec use {Raw, to_json, from_json, parse-print}

  -- The membership that `membership.json` holds.
  unfoldable pub stored : Dir Raw → Option Membership
  stored dir = elim dir.file [ none ↦ none | some raw ↦ from_json raw ]

  pub stored_of_file : (d d' : Dir Raw) → d'.file ≡ d.file → stored d' ≡ stored d
  unfolding stored
  stored_of_file d d' h = rw h refl

  module _ (faults : Faults Raw) where
    write_ok :
        (m : Membership) (d : Dir Raw)
        → (write_unlocked codec faults m d).0 ≡ ok tt
        → stored (write_unlocked codec faults m d).1 ≡ some m
    unfolding write_unlocked stored serialize
    write_ok m d h = elim (Option-cases (to_json m)) [
      | inl e ↦ ground arith
      | inr (raw, e) ↦ ground (arith, parse-print m raw)
    ]

    write_err :
        (m : Membership) (d : Dir Raw) (e : MembershipError)
        → (write_unlocked codec faults m d).0 ≡ err e
        → (write_unlocked codec faults m d).1.file ≡ d.file
    unfolding write_unlocked serialize
    write_err m d e h = ground arith

    pub init_ok :
        (queue : String) (shards : ℕ) (d : Dir Raw)
        → (init_unlocked codec faults queue shards d).0 ≡ ok tt
        → stored (init_unlocked codec faults queue shards d).1
          ≡ some (record { queue = queue; shards = shards; version = 0; claims = [] })
    unfolding init_unlocked
    init_ok queue shards d h =
        ground
          (arith, write_ok (record { queue = queue; shards = shards; version = 0; claims = [] }) d)

    -- A method that succeeds has read a membership, changed it by its closure and stored the
    -- result under the next version.
    pub mutate_ok :
        {A : Type 0} (f : Membership → Change A) (d : Dir Raw) (out : A)
        → (mutate codec faults f d).0 ≡ ok out
        → (m m' : Membership) × (stored d ≡ some m)
          × (f m ≡ ok (out, m'))
          × (stored (mutate codec faults f d).1 ≡ some (bumped codec m'))
    unfolding mutate with_lock read_unlocked stored parse
    mutate_ok f d out h = elim (Option-cases (stored d)) [
      | inl e ↦ absurd (ground arith)
      | inr (m, e) ↦ elim (Result-cases (f m)) [
        | inl ((out', m'), e') ↦
            (m, m', e, ground arith, ground (arith, write_ok (bumped codec m') d))
        | inr (x, e') ↦ absurd (ground arith)
      ]
    ]

    -- A method that fails leaves `membership.json` as it was.
    pub mutate_err :
        {A : Type 0} (f : Membership → Change A) (d : Dir Raw) (e : MembershipError)
        → (mutate codec faults f d).0 ≡ err e
        → (mutate codec faults f d).1.file ≡ d.file
    unfolding mutate with_lock read_unlocked
    mutate_err f d e h = elim (Result-cases (parse codec d.file)) [
      | inl (m, e₁) ↦ elim (Result-cases (f m)) [
        | inl ((out, m'), e₂) ↦ ground (arith, write_err (bumped codec m') d e)
        | inr (x, e₂) ↦ ground arith
      ]
      | inr (x, e₁) ↦ ground arith
    ]

    -- Where nothing fails and the closure accepts, the method succeeds.
    pub mutate_total :
        {A : Type 0} (f : Membership → Change A) (d : Dir Raw) (m m' : Membership) (out : A)
        (raw : Raw)
        → IsCalm faults
        → stored d ≡ some m
        → f m ≡ ok (out, m')
        → to_json (bumped codec m') ≡ some raw
        → (mutate codec faults f d).0 ≡ ok out
    unfolding mutate with_lock read_unlocked write_unlocked serialize stored parse
    mutate_total f d m m' out raw calm e₁ e₂ e₃ = ground arith

  -- A rejection by the closure reaches the caller when the directory can be read.
  pub mutate_reject :
      {A : Type 0} (faults : Faults Raw) (f : Membership → Change A) (d : Dir Raw) (m : Membership)
      (e : MembershipError)
      → IsCalm faults
      → stored d ≡ some m
      → f m ≡ err e
      → mutate codec faults f d ≡ (err e, d)
  unfolding mutate with_lock read_unlocked stored parse
  mutate_reject faults f d m e calm e₁ e₂ = ground arith
