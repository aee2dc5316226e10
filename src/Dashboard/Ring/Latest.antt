-- ===== src/Dashboard/Ring/Latest.antt =====
-- The ring of progress events (src/dashboard.rs) holds the latest of them.
use snerd_rust.Base.{
  ℕ, ◌+◌, ◌-◌, ◌≤◌, ◌≡◌, refl, ap, sym, ◌∙◌, inl, inr, List, [], ◌∷◌, ◌++◌, arith, length,
  length-append, Bool-cases, ltb,
}
use mathlib.Core.List.{append-nil, append_assoc}
use snerd_rust.Dashboard.Ring.{
  ring_cap, skip, push_event, push_events, progress_body, Received, message, lagged, closed,
  ProgressEvent, event_of, feed,
}

module _ {A : Type 0} where
  -- The last `n` elements.
  unfoldable pub latest : ℕ → List A → List A
  latest n xs = skip (length xs - n) xs

  length-skip : (n : ℕ) (xs : List A) → length (skip n xs) ≡ length xs - n
  unfolding skip
  length-skip n [] = omega arith
  length-skip n (a ∷ xs) = ground (arith, length-skip (n - 1) xs)

  skip_zero : (xs : List A) → skip 0 xs ≡ xs
  unfolding skip
  skip_zero [] = refl
  skip_zero (a ∷ xs) = refl

  skip-skip : (m n : ℕ) (xs : List A) → skip m (skip n xs) ≡ skip (n + m) xs
  unfolding skip
  skip-skip m n [] = refl
  skip-skip m n (a ∷ xs) = elim (Bool-cases (ltb 0 n)) [
    | inl some_n ↦
        let less : n - 1 + m ≡ n + m - 1 = ground arith in
        ground (arith, skip-skip m (n - 1) xs, ap (λ k. skip k xs) less)
    | inr no_n ↦
        let zero_n : n ≡ 0 = ground arith in
        let same : n + m ≡ m = omega arith in rw (no_n, same) refl
  ]

  skip-append : (n : ℕ) (xs ys : List A) → n ≤ length xs → skip n (xs ++ ys) ≡ skip n xs ++ ys
  unfolding skip
  skip-append n [] ys h = let none_left : n ≡ 0 = omega arith in rw none_left (skip_zero ys)
  skip-append n (a ∷ xs) ys h = elim (Bool-cases (ltb 0 n)) [
    | inl some_n ↦ rw some_n (skip-append (n - 1) xs ys (omega arith))
    | inr no_n ↦ rw no_n refl
  ]

  length-latest : (n : ℕ) (xs : List A) → length (latest n xs) ≤ n
  unfolding latest
  length-latest n xs = omega (arith, length-skip (length xs - n) xs)

  -- A push drops what is too much.
  push_event-latest :
      (ev : A) (ring : List A)
      → length ring ≤ ring_cap
      → push_event ev ring ≡ latest ring_cap (ring ++ ev ∷ [])
  unfolding push_event latest
  push_event-latest ev ring h = elim (Bool-cases (ltb ring_cap (length (ring ++ ev ∷ [])))) [
    | inl full ↦
        let one : length (ring ++ ev ∷ []) - ring_cap ≡ 1 =
          ground (arith, length-append ring (ev ∷ [])) in
        rw (full, one) refl
    | inr free ↦
        let none_over : length (ring ++ ev ∷ []) - ring_cap ≡ 0 = ground arith in
        rw (free, none_over) (sym (skip_zero (ring ++ ev ∷ [])))
  ]

  latest-latest :
      (ev : A) (xs : List A)
      → latest ring_cap (latest ring_cap xs ++ ev ∷ []) ≡ latest ring_cap (xs ++ ev ∷ [])
  unfolding latest
  latest-latest ev xs =
      let k = length xs - ring_cap in
      let all = xs ++ ev ∷ [] in
      let moved : skip k xs ++ ev ∷ [] ≡ skip k all =
        sym (skip-append k xs (ev ∷ []) (omega arith)) in
      let count : k + (length (skip k all) - ring_cap) ≡ length all - ring_cap =
        omega (arith, length-skip k all, length-append xs (ev ∷ [])) in
      ap (λ ring. skip (length ring - ring_cap) ring) moved
      ∙ skip-skip (length (skip k all) - ring_cap) k all
      ∙ ap (λ n. skip n all) count

  push_events-latest :
      (evs xs : List A) → push_events evs (latest ring_cap xs) ≡ latest ring_cap (xs ++ evs)
  unfolding push_events
  push_events-latest [] xs = ap (latest ring_cap) (sym (append-nil xs))
  push_events-latest (ev ∷ evs) xs =
      ap (push_events evs) (
        push_event-latest ev (latest ring_cap xs) (length-latest ring_cap xs) ∙ latest-latest ev xs)
      ∙ push_events-latest evs (xs ++ ev ∷ [])
      ∙ ap (latest ring_cap) (append_assoc xs (ev ∷ []) evs)

  progress_body-latest : (xs : List A) → progress_body (latest ring_cap xs) ≡ latest 100 xs
  unfolding progress_body latest
  progress_body-latest xs =
      let k = length xs - ring_cap in
      let count : k + (length (skip k xs) - 100) ≡ length xs - 100 =
        omega (arith, length-skip k xs) in
      skip-skip (length (skip k xs) - 100) k xs ∙ ap (λ n. skip n xs) count

module _ {F64 : Type 0} where
  -- The events of the messages that come before the channel is closed.
  unfoldable pub events : List (Received F64) → List (ProgressEvent F64)
  unfolding event_of
  events [] = []
  events (message now msg ∷ inputs) = event_of now msg ∷ events inputs
  events (lagged ∷ inputs) = events inputs
  events (closed ∷ inputs) = []

  feed-push_events :
      (inputs : List (Received F64)) (ring : List (ProgressEvent F64))
      → feed inputs ring ≡ push_events (events inputs) ring
  unfolding feed events push_events
  feed-push_events [] ring = refl
  feed-push_events (message now msg ∷ inputs) ring =
      feed-push_events inputs (push_event (event_of now msg) ring)
  feed-push_events (lagged ∷ inputs) ring = feed-push_events inputs ring
  feed-push_events (closed ∷ inputs) ring = refl

  -- Whatever the channel gives, the ring holds the latest 500 of the events that came before it was
  -- closed, in their order, and the latest 100 of them are shown.
  pub feed-latest :
      (inputs : List (Received F64))
      → (feed inputs [] ≡ latest ring_cap (events inputs))
        × (progress_body (feed inputs []) ≡ latest 100 (events inputs))
        × (length (feed inputs []) ≤ ring_cap)
  unfolding latest skip
  feed-latest inputs =
      let held : feed inputs [] ≡ latest ring_cap (events inputs) =
        feed-push_events inputs [] ∙ push_events-latest (events inputs) [] in
      (
        held,
        ap progress_body held ∙ progress_body-latest (events inputs),
        rw held (length-latest ring_cap (events inputs)),
      )
