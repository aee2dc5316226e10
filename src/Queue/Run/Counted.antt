-- ===== src/Queue/Run/Counted.antt =====
-- The permits of the pools of src/queue.rs, and who holds them.
use snerd_rust.Base.{
  ℕ, suc, ◌+◌, ◌≡◌, ◌∙◌, inl, inr, String, none, some, List, [], ◌∷◌, ◌++◌, arith, if◌then◌else◌,
  str_eq, eq_iff, Table, lookup, insert, lookup-insert, Option-cases,
}

-- The free permits of a pool.
unfoldable pub permits : String → Table ℕ → ℕ
permits pool pools = elim (lookup pool pools) [ none ↦ 0 | some free ↦ free ]

-- How many tasks of the list hold a permit of the pool.
unfoldable pub holders {ℓ} : {A : Type ℓ} → String → List (String × A) → ℕ
holders pool [] = 0
holders pool ((p, a) ∷ held) = (if str_eq p pool then 1 else 0) + holders pool held

pub holders-append {ℓ} :
    {A : Type ℓ} (pool : String) (hs ks : List (String × A))
    → holders pool (hs ++ ks) ≡ holders pool hs + holders pool ks
unfolding holders
holders-append pool [] ks = omega arith
holders-append pool ((p, a) ∷ hs) ks = ground (arith, holders-append pool hs ks)

-- A permit that is given back.
abbrev pub released : String → Table ℕ → Table ℕ
released pool pools = elim (lookup pool pools) [
  | none ↦ pools
  | some free ↦ insert pool (suc free) pools
]

-- The free permits of each pool and the `held` ones are the pool's capacity, and a pool that has no
-- semaphore has no permits. No pool of the `first` table is gone.
pub record IsCounted (capacity : String → ℕ) (first : Table ℕ) (held : String → ℕ) (pools : Table ℕ)
    : Type 0 where
  pub total : (pool : String) → permits pool pools + held pool ≡ capacity pool
  pub absent : (pool : String) → lookup pool pools ≡ none → held pool ≡ 0
  pub known : (pool : String) → lookup pool pools ≡ none → lookup pool first ≡ none

module _ (capacity : String → ℕ) (first : Table ℕ) where
  pub released-IsCounted :
      (p : String) (held held' : String → ℕ) (pools : Table ℕ)
      → ((pool : String) → held pool ≡ (if str_eq p pool then 1 else 0) + held' pool)
      → IsCounted capacity first held pools
      → IsCounted capacity first held' (released p pools)
  unfolding permits
  released-IsCounted p held held' pools less h = elim (Option-cases (lookup p pools)) [
    | inl e ↦ absurd (ground (arith, h.absent p e, less p, eq_iff p p))
    | inr (free, e) ↦
        rw (e, released)
          (record {
            total = λ pool. ground (
              arith,
              h.total pool,
              less pool,
              lookup-insert p pool (suc free) pools,
              eq_iff p pool,
            );
            absent = λ pool none_left. ground (
              arith,
              h.absent pool,
              less pool,
              lookup-insert p pool (suc free) pools,
              eq_iff p pool,
            );
            known = λ pool gone.
                ground (arith, h.known pool, lookup-insert p pool (suc free) pools, eq_iff p pool);
          })
  ]

  pub taken-IsCounted :
      (p : String) (free : ℕ) (held held' : String → ℕ) (pools : Table ℕ)
      → lookup p pools ≡ some (suc free)
      → ((pool : String) → held' pool ≡ (if str_eq p pool then 1 else 0) + held pool)
      → IsCounted capacity first held pools
      → IsCounted capacity first held' (insert p free pools)
  unfolding permits
  taken-IsCounted p free held held' pools found more h = record {
    total = λ pool.
        ground (arith, h.total pool, more pool, lookup-insert p pool free pools, eq_iff p pool);
    absent = λ pool none_left.
        ground (arith, h.absent pool, more pool, lookup-insert p pool free pools, eq_iff p pool);
    known = λ pool gone. ground (arith, h.known pool, lookup-insert p pool free pools);
  }

  pub same-IsCounted :
      (held held' : String → ℕ) (pools : Table ℕ)
      → ((pool : String) → held' pool ≡ held pool)
      → IsCounted capacity first held pools
      → IsCounted capacity first held' pools
  same-IsCounted held held' pools same h = record {
    total = λ pool. ground (arith, h.total pool, same pool);
    absent = λ pool e. same pool ∙ h.absent pool e;
    known = h.known;
  }
