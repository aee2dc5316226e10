-- ===== src/FileStore/Cycle/Decides.antt =====
-- `detect_cycle` of src/file_store.rs ends and decides reachability.
use snerd_rust.Base.{
  ℕ, zero, suc, ◌+◌, ◌≤◌, ◌≡◌, refl, ◌≢◌, ◌⊎◌, inl, inr, String, Bool, true, false, ◌||◌, List, [],
  ◌∷◌, arith, eq_iff, str_eq, length, length-push_all, contains, contains-cons, contains-push_all,
  push_all, Table, lookup, Bool-cases, ok, err,
}
use snerd_rust.Task.{RetryableTask}
use snerd_rust.FileStore.Cycle.{
  finished, out_of_fuel, cycle_message, deps, search, potential, detect_cycle,
}

-- The task ids that are reached from `start` through the dependencies of cached tasks.
pub data Reaches {F64 : Type 0} (cache : Table (RetryableTask F64)) (start : List String)
    : String → Type 0 where
  listed : (id : String) → contains start id ≡ true → Reaches cache start id
  through :
      (u v : String)
      → Reaches cache start u
      → contains (deps cache u) v ≡ true
      → Reaches cache start v

module _ {F64 : Type 0} (cache : Table (RetryableTask F64)) where
  potential_mono :
      (m : Table (RetryableTask F64)) (id : String) (visited : List String)
      → potential m (id ∷ visited) ≤ potential m visited
  unfolding potential
  potential_mono [] id visited = omega arith
  potential_mono ((k, t) ∷ m) id visited =
      ground (arith, contains-cons id k visited, potential_mono m id visited)

  potential_visit :
      (m : Table (RetryableTask F64)) (id : String) (visited : List String)
      → contains visited id ≡ false
      → potential m (id ∷ visited) + length (deps m id) ≤ potential m visited
  unfolding potential deps lookup
  potential_visit [] id visited new = omega arith
  potential_visit ((k, t) ∷ m) id visited new = ground (
    arith,
    contains-cons id k visited,
    eq_iff k id,
    eq_iff id k,
    potential_mono m id visited,
    potential_visit m id visited new,
  )

  search_ends :
      (fuel : ℕ) (new_id : String) (visited stack : List String)
      → length stack + potential cache visited ≤ fuel
      → search fuel cache new_id visited stack ≢ out_of_fuel
  unfolding search
  search_ends fuel new_id visited [] h = λ e. cc
  search_ends zero new_id visited (id ∷ stack) h = absurd (omega arith)
  search_ends (suc fuel) new_id visited (id ∷ stack) h = ground (
    arith,
    search_ends fuel new_id visited stack,
    search_ends fuel new_id (id ∷ visited) (push_all (deps cache id) stack),
    length-push_all (deps cache id) stack,
    potential_visit cache id visited,
  )

module _ {F64 : Type 0} (cache : Table (RetryableTask F64)) (start : List String)
    (new_id : String) where
  -- Every id on the list is reached from `start`.
  AllReached : List String → Type 0
  AllReached ids = (v : String) → contains ids v ≡ true → Reaches cache start v

  AllReached-push_all :
      (u : String) (stack : List String)
      → Reaches cache start u
      → AllReached stack
      → AllReached (push_all (deps cache u) stack)
  unfolding AllReached
  AllReached-push_all u stack r h v m = elim (Bool-cases (contains (deps cache u) v)) [
    | inl dep ↦ through u v r dep
    | inr other ↦ h v (ground (arith, contains-push_all v (deps cache u) stack))
  ]

  AllReached-cons :
      (u : String) (stack : List String)
      → AllReached (u ∷ stack)
      → Reaches cache start u × AllReached stack
  unfolding AllReached
  AllReached-cons u stack h = (
    h u (ground (arith, contains-cons u u stack, eq_iff u u)),
    λ v m. h v (ground (arith, contains-cons u v stack)),
  )

  search_sound :
      (fuel : ℕ) (visited stack : List String)
      → AllReached stack
      → search fuel cache new_id visited stack ≡ finished (err (cycle_message new_id))
      → Reaches cache start new_id
  unfolding search
  search_sound fuel visited [] h e = absurd (cc)
  search_sound zero visited (u ∷ stack) h e = absurd (cc)
  search_sound (suc fuel) visited (u ∷ stack) h e =
      let (r, h') = AllReached-cons u stack h in
      elim (Bool-cases (str_eq u new_id)) [
        | inl found ↦ rw (← (eq_iff u new_id).0 found) r
        | inr other ↦ elim (Bool-cases (contains visited u)) [
          | inl seen ↦ search_sound fuel visited stack h' (ground arith)
          | inr fresh ↦
              search_sound fuel (u ∷ visited) (push_all (deps cache u) stack)
                (AllReached-push_all u stack r h') (ground arith)
        ]
      ]

  -- What is visited or waits on the stack.
  abbrev known : List String → List String → String → Bool
  known visited stack v = contains visited v || contains stack v

  record IsClosed (visited stack : List String) : Type 0 where
    started : (v : String) → contains start v ≡ true → known visited stack v ≡ true
    followed :
        (u v : String)
        → contains visited u ≡ true
        → contains (deps cache u) v ≡ true
        → known visited stack v ≡ true
    absent : contains visited new_id ≡ false

  skip-IsClosed :
      (u : String) (visited stack : List String)
      → contains visited u ≡ true
      → IsClosed visited (u ∷ stack)
      → IsClosed visited stack
  skip-IsClosed u visited stack seen c = record {
    started = λ v s. ground (arith, c.started v s, contains-cons u v stack, eq_iff u v);
    followed = λ w v m d. ground (arith, c.followed w v m d, contains-cons u v stack, eq_iff u v);
    absent = c.absent;
  }

  visit-IsClosed :
      (u : String) (visited stack : List String)
      → str_eq u new_id ≡ false
      → IsClosed visited (u ∷ stack)
      → IsClosed (u ∷ visited) (push_all (deps cache u) stack)
  visit-IsClosed u visited stack other c = record {
    started = λ v s. ground (
      arith,
      c.started v s,
      contains-cons u v stack,
      contains-cons u v visited,
      contains-push_all v (deps cache u) stack,
    );
    followed = λ w v m d. ground (
      arith,
      c.followed w v,
      contains-cons u w visited,
      contains-cons u v stack,
      contains-cons u v visited,
      contains-push_all v (deps cache u) stack,
      eq_iff u w,
    );
    absent = ground (arith, c.absent, contains-cons u new_id visited);
  }

  closed_reached :
      (visited : List String)
      → IsClosed visited []
      → {v : String} → Reaches cache start v
      → contains visited v ≡ true
  unfolding contains
  closed_reached visited c (listed v s) = ground (arith, c.started v s)
  closed_reached visited c (through u v r d) =
      ground (arith, c.followed u v (closed_reached visited c r) d)

  search_complete :
      (fuel : ℕ) (visited stack : List String)
      → IsClosed visited stack
      → search fuel cache new_id visited stack ≡ finished (ok tt)
      → ¬ Reaches cache start new_id
  unfolding search
  search_complete fuel visited [] c e = λ r. cc (closed_reached visited c r, c.absent)
  search_complete zero visited (u ∷ stack) c e = absurd (cc)
  search_complete (suc fuel) visited (u ∷ stack) c e = elim (Bool-cases (str_eq u new_id)) [
    | inl found ↦ absurd (ground arith)
    | inr other ↦ elim (Bool-cases (contains visited u)) [
      | inl seen ↦
          search_complete fuel visited stack (skip-IsClosed u visited stack seen c) (ground arith)
      | inr fresh ↦
          search_complete fuel (u ∷ visited) (push_all (deps cache u) stack)
            (visit-IsClosed u visited stack other c) (ground arith)
    ]
  ]

  search_outcomes :
      (fuel : ℕ) (visited stack : List String)
      → (search fuel cache new_id visited stack ≡ finished (ok tt))
        ⊎ (search fuel cache new_id visited stack ≡ finished (err (cycle_message new_id)))
        ⊎ (search fuel cache new_id visited stack ≡ out_of_fuel)
  unfolding search
  search_outcomes fuel visited [] = inl refl
  search_outcomes zero visited (u ∷ stack) = inr (inr refl)
  search_outcomes (suc fuel) visited (u ∷ stack) = ground (
    arith,
    search_outcomes fuel visited stack,
    search_outcomes fuel (u ∷ visited) (push_all (deps cache u) stack),
  )

  IsClosed-start : IsClosed [] (push_all start [])
  unfolding contains
  IsClosed-start = record {
    started = λ v s. ground (arith, contains-push_all v start []);
    followed = λ u v m d. absurd (cc);
    absent = refl;
  }

  AllReached-start : AllReached (push_all start [])
  unfolding AllReached contains
  AllReached-start v m = listed v (ground (arith, contains-push_all v start []))

-- `detect_cycle` always ends. It reports a cycle exactly if the new task's id is reached from its
-- own dependencies through the dependencies of cached tasks, and accepts exactly otherwise.
pub detect_cycle_decides :
    {F64 : Type 0} (cache : Table (RetryableTask F64)) (new_id : String)
    (trigger_after_ids : List String)
    → ((detect_cycle cache new_id trigger_after_ids ≡ finished (err (cycle_message new_id)))
        × Reaches cache trigger_after_ids new_id)
      ⊎ ((detect_cycle cache new_id trigger_after_ids ≡ finished (ok tt))
          × (¬ Reaches cache trigger_after_ids new_id))
unfolding detect_cycle
detect_cycle_decides cache new_id ids =
    let fuel = length ids + potential cache [] in
    let room : length (push_all ids []) + potential cache [] ≤ fuel =
      omega (arith, length-push_all {0} ids []) in
    elim (search_outcomes cache ids new_id fuel [] (push_all ids [])) [
      | inl accepted ↦ inr (
        accepted,
        search_complete cache ids new_id fuel [] (push_all ids []) (IsClosed-start cache ids new_id)
            accepted,
      )
      | inr (inl found) ↦ inl (
        found,
        search_sound cache ids new_id fuel [] (push_all ids []) (AllReached-start cache ids new_id)
            found,
      )
      | inr (inr stuck) ↦ absurd (search_ends cache fuel new_id [] (push_all ids []) room stuck)
    ]
