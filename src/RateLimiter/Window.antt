-- ===== src/RateLimiter/Window.antt =====
-- How many calls of `check_and_increment` (src/rate_limiter.rs) a window of a minute allows.
use Prim.Native.Nat.{min}
use snerd_rust.Base.{
  ℕ, ◌+◌, ◌-◌, ◌/◌, ◌≤◌, ◌<◌, ◌≡◌, refl, ◌≢◌, inl, inr, String, Bool, false, ◌&&◌, none, some, List,
  [], ◌∷◌, arith, if◌then◌else◌, ltb, eq_iff, str_eq, Bool-cases, All, ℤ, pos, ◌+ℤ◌, Table, lookup,
  lookup-insert, Result, ok, err,
}
use snerd_rust.Membership.{second}
use snerd_rust.RateLimiter.{
  RateWindow, Codec, Faults, IoError, current_window, decide, read_limits, check_and_increment,
}

pub record IsCalm {Raw : Type 0} (faults : Faults Raw) : Type 0 where
  pub create_dir : faults.create_dir ≡ false
  pub open_file : faults.open_file ≡ false
  pub lock : faults.lock ≡ false
  pub read : faults.read ≡ false
  pub set_len : faults.set_len ≡ false
  pub seek : faults.seek ≡ false
  pub write : faults.write ≡ false
  pub sync : faults.sync ≡ false
  pub unlock : faults.unlock ≡ false

abbrev pub Prints : Codec → Type 0
Prints codec = (t : Table RateWindow) → (raw : codec.Raw) × (codec.to_json t ≡ some raw)

pub record Request : Type 0 where
  pub group : String
  pub limit : ℤ
  pub now : ℕ

abbrev pub is_allowed : Result IoError Bool → Bool
is_allowed (ok allow) = allow
is_allowed (err _) = false

module _ (g : String) where
  unfoldable pub requests_of : List Request → ℕ
  requests_of [] = 0
  requests_of (r ∷ rs) = (if str_eq r.group g then 1 else 0) + requests_of rs

  -- A request of the group carries the limit and comes within a minute of the window's start.
  abbrev pub InWindow : ℕ → ℕ → Request → Type 0
  InWindow limit start r = r.group ≡ g → (r.limit ≡ pos limit) × ((r.now - start) / second < 60)

  -- The table holds a window of the group that started at `start` and has counted `c`.
  abbrev pub HasWindow : ℕ → ℕ → Table RateWindow → Type 0
  HasWindow c start limits = lookup g limits ≡ some (record { count = pos c; window_start = start })

  decide_self :
      (limits : Table RateWindow) (c l start now : ℕ)
      → HasWindow c start limits
      → (now - start) / second < 60
      → ((decide limits g (pos l) now).0 ≡ ltb c l)
        × HasWindow (if ltb c l then c + 1 else c) start (decide limits g (pos l) now).1
  unfolding decide current_window ◌+ℤ◌
  decide_self limits c l start now e h = elim (Bool-cases (ltb c l)) [
    | inl below ↦ (
      ground arith,
      ground (
        arith,
        lookup-insert g g (record { count = pos (c + 1); window_start = start }) limits,
        eq_iff g g,
      ),
    )
    | inr full ↦ (
      ground arith,
      ground (
        arith,
        lookup-insert g g (record { count = pos c; window_start = start }) limits,
        eq_iff g g,
      ),
    )
  ]

  decide_own :
      (limits : Table RateWindow) (group : String) (limit : ℤ) (c l start now : ℕ)
      → group ≡ g
      → limit ≡ pos l
      → HasWindow c start limits
      → (now - start) / second < 60
      → ((decide limits group limit now).0 ≡ ltb c l)
        × HasWindow (if ltb c l then c + 1 else c) start (decide limits group limit now).1
  decide_own limits group limit c l start now same limited e h =
      rw (same, limited) (decide_self limits c l start now e h)

  -- The group has no window, or one that is a minute old at `now`.
  pub data Stale (now : ℕ) (limits : Table RateWindow) : Type 0 where
    absent : lookup g limits ≡ none → Stale now limits
    old :
        (w : RateWindow)
        → lookup g limits ≡ some w
        → 60 ≤ (now - w.window_start) / second
        → Stale now limits

  current_window_stale :
      (limits : Table RateWindow) (now : ℕ)
      → Stale now limits
      → current_window limits g now ≡ record { count = pos 0; window_start = now }
  unfolding current_window
  current_window_stale limits now (absent e) = ground arith
  current_window_stale limits now (old w e h) = ground arith

  decide_stale :
      (limits : Table RateWindow) (group : String) (limit : ℤ) (l now : ℕ)
      → group ≡ g
      → limit ≡ pos l
      → Stale now limits
      → ((decide limits group limit now).0 ≡ ltb 0 l)
        × HasWindow (if ltb 0 l then 1 else 0) now (decide limits group limit now).1
  unfolding decide ◌+ℤ◌
  decide_stale limits group limit l now same limited stale =
      rw (same, limited, current_window_stale limits now stale)
        (elim (Bool-cases (ltb 0 l)) [
          | inl some_left ↦ (
            ground arith,
            ground (
              arith,
              lookup-insert g g (record { count = pos 1; window_start = now }) limits,
              eq_iff g g,
            ),
          )
          | inr none_left ↦ (
            ground arith,
            ground (
              arith,
              lookup-insert g g (record { count = pos 0; window_start = now }) limits,
              eq_iff g g,
            ),
          )
        ])

  decide_other :
      (limits : Table RateWindow) (group : String) (limit : ℤ) (c start now : ℕ)
      → group ≢ g
      → HasWindow c start limits
      → HasWindow c start (decide limits group limit now).1
  unfolding decide
  decide_other limits group limit c start now ne e =
      let w = current_window limits group now in
      ground (
        arith,
        lookup-insert group g w limits,
        lookup-insert group g (record w { count = w.count +ℤ pos 1 }) limits,
        eq_iff group g,
      )

module _ (codec : Codec) (faults : Faults codec.Raw) (calm : IsCalm faults)
    (prints : Prints codec) where
  open codec use {Raw, to_json, from_json, parse-print}

  limits_read :
      (file : Raw) (limits : Table RateWindow)
      → from_json file ≡ some limits
      → read_limits codec faults file ≡ limits
  unfolding read_limits
  limits_read file limits e = ground (arith, calm.read)

  -- Where nothing fails, a call returns the decision and leaves the new table in the file.
  calm_step :
      (group : String) (limit : ℤ) (now : ℕ) (file : Raw) (limits : Table RateWindow)
      → read_limits codec faults file ≡ limits
      → ((check_and_increment codec faults group limit now file).0
          ≡ ok (decide limits group limit now).0)
        × (from_json (check_and_increment codec faults group limit now file).1
            ≡ some (decide limits group limit now).1)
  unfolding check_and_increment
  calm_step group limit now file limits e =
      let limits' = (decide limits group limit now).1 in
      let (raw, printed) = prints limits' in (ground arith, ground (arith, parse-print limits' raw))

  -- The calls of a group that were allowed in a run of calls, and the file after them.
  module _ (g : String) where
    unfoldable pub allowed : List Request → Raw → ℕ
    allowed [] file = 0
    allowed (r ∷ rs) file =
        let (answer, file') = check_and_increment codec faults r.group r.limit r.now file in
        (if str_eq r.group g && is_allowed answer then 1 else 0) + allowed rs file'

    -- Within a minute of the start of the group's window, of `n` calls for the group exactly as
    -- many are allowed as the window has left below the limit, whatever other groups do between.
    pub allowed-InWindow :
        (rs : List Request) (file : Raw) (limits : Table RateWindow) (c l start : ℕ)
        → from_json file ≡ some limits
        → HasWindow g c start limits
        → All (InWindow g l start) rs
        → allowed rs file ≡ min (requests_of g rs) (l - c)
    unfolding allowed requests_of
    allowed-InWindow [] file limits c l start parsed w inside = omega arith
    allowed-InWindow (r ∷ rs) file limits c l start parsed w (here, inside) =
        elim (Bool-cases (str_eq r.group g)) [
          | inl same ↦
              let (limited, recent) = here ((eq_iff r.group g).0 same) in
              let (answer, table) =
                calm_step r.group r.limit r.now file limits (limits_read file limits parsed) in
              let (decision, counted) =
                decide_own g limits r.group r.limit c l start r.now ((eq_iff r.group g).0 same)
                  limited w recent in
              ground (
                arith,
                answer,
                decision,
                allowed-InWindow rs (check_and_increment codec faults r.group r.limit r.now file).1
                    (decide limits r.group r.limit r.now).1 (if ltb c l then c + 1 else c) l start
                    table counted inside,
              )
          | inr other ↦
              let (answer, table) =
                calm_step r.group r.limit r.now file limits (limits_read file limits parsed) in
              let kept =
                decide_other g limits r.group r.limit c start r.now
                  (λ e. cc ((eq_iff r.group g).1 e)) w in
              ground (
                arith,
                allowed-InWindow rs (check_and_increment codec faults r.group r.limit r.now file).1
                    (decide limits r.group r.limit r.now).1 c l start table kept inside,
              )
        ]

    -- A call for a group that has no window, or one that is a minute old, opens a window; of it and the
    -- calls for the group in the minute after it, exactly `l` are allowed, or all if there are fewer,
    -- whatever other groups do between. No call of the operating system fails in any of these calls,
    -- every table can be printed, and all calls for the group have the limit `l`. A file that is absent,
    -- is empty or does not parse counts as one without windows.
    pub allowed_from_stale :
        (r : Request) (rs : List Request) (file : Raw) (l : ℕ)
        → r.group ≡ g
        → r.limit ≡ pos l
        → Stale g r.now (read_limits codec faults file)
        → All (InWindow g l r.now) rs
        → allowed (r ∷ rs) file ≡ min (requests_of g (r ∷ rs)) l
    unfolding allowed requests_of
    allowed_from_stale r rs file l same limited stale inside =
        let limits = read_limits codec faults file in
        let (answer, table) = calm_step r.group r.limit r.now file limits refl in
        let (decision, counted) =
          decide_stale g limits r.group r.limit l r.now same limited stale in
        ground (
          arith,
          answer,
          decision,
          eq_iff r.group g,
          allowed-InWindow rs (check_and_increment codec faults r.group r.limit r.now file).1
              (decide limits r.group r.limit r.now).1 (if ltb 0 l then 1 else 0) l r.now table
              counted inside,
        )
