-- ===== src/FileStore/Compaction/Clean.antt =====
-- The map that `compact_log` (src/file_store.rs) builds, and what its printed tasks replay to.
use snerd_rust.Base.{
  ℕ, suc, ◌≡◌, refl, ◌∙◌, String, true, false, none, some, List, [], ◌∷◌, arith, if◌then◌else◌, ltb,
  is_some, eq_iff, str_eq, Table, lookup, insert, remove, values, has_key, lookup-insert,
  lookup-remove, Bool-cases, Option-cases, Result-cases, ok, inl, inr, ◌⊎◌,
}
use snerd_rust.Task.{Externals, Task}
use snerd_rust.FileStore.{
  is_printable, is_blank, reloaded, reparsed, Serde, Counts, update_cache, compact_task, read_line,
  read_lines, compact_line, compact_lines, print, print_all,
}
use snerd_rust.FileStore.Replay.{stable, stable-reparsed, read_printed}

module _ (x : Externals) where
  -- What compaction keeps about a table: a key is the id of its task and occurs once, and the
  -- tasks are live and can be printed.
  abbrev pub IsClean : Table (Task x) → Type 0
  IsClean [] = Unit
  IsClean ((k, t) ∷ m) =
      (t.task_id ≡ k)
      × (is_some t.deleted_at ≡ false)
      × (is_printable x t ≡ true)
      × (lookup k m ≡ none)
      × IsClean m

  pub insert-IsClean :
      (t : Task x) (m : Table (Task x))
      → is_some t.deleted_at ≡ false
      → is_printable x t ≡ true
      → IsClean m
      → IsClean (insert t.task_id t m)
  unfolding insert lookup
  insert-IsClean t [] live p c = (refl, live, p, refl, tt)
  insert-IsClean t ((k, u) ∷ m) live p (id, live', p', fresh, c) =
      elim (Bool-cases (str_eq k t.task_id)) [
        | inl same ↦ rw same (refl, live, p, ground (arith, eq_iff k t.task_id), c)
        | inr other ↦ rw other (
          id,
          live',
          p',
          ground (arith, lookup-insert t.task_id k t m, eq_iff k t.task_id, eq_iff t.task_id k),
          insert-IsClean t m live p c,
        )
      ]

  pub remove-IsClean : (id : String) (m : Table (Task x)) → IsClean m → IsClean (remove id m)
  unfolding remove
  remove-IsClean id [] c = tt
  remove-IsClean id ((k, u) ∷ m) (e, live, p, fresh, c) = elim (Bool-cases (str_eq k id)) [
    | inl same ↦ rw same (remove-IsClean id m c)
    | inr other ↦ rw other (e, live, p, ground (arith, lookup-remove id k m), remove-IsClean id m c)
  ]

  pub lookup-IsClean :
      (m : Table (Task x)) (id : String) (t : Task x)
      → IsClean m
      → lookup id m ≡ some t
      → is_printable x t ≡ true
  unfolding lookup
  lookup-IsClean [] id t c h = absurd (cc)
  lookup-IsClean ((k, u) ∷ m) id t (_, _, p, _, c) h = elim (Bool-cases (str_eq k id)) [
    | inl same ↦ ground arith
    | inr other ↦ lookup-IsClean m id t c (ground arith)
  ]

  after_print :
      (k id : String) (t : Task x) (now : ℕ) (m old new : Table (Task x))
      → t.task_id ≡ k
      → is_some t.deleted_at ≡ false
      → lookup k m ≡ none
      → new ≡ update_cache x (reloaded x now (reparsed x t)) old
      → stable x (if has_key id m then lookup id m else lookup id new)
        ≡ stable x (if has_key id ((k, t) ∷ m) then lookup id ((k, t) ∷ m) else lookup id old)
  unfolding lookup update_cache reloaded reparsed
  after_print k id t now m old new e live fresh read =
      let t' = reloaded x now (reparsed x t) in
      let same = stable-reparsed x now t in
      elim (Bool-cases (str_eq k id)) [
        | inl same ↦ ground (arith, eq_iff k id, lookup-insert t.task_id id t' old, same)
        | inr other ↦ ground (arith, eq_iff k id, lookup-insert t.task_id id t' old, same)
      ]

module _ {x : Externals} (serde : Serde x) where
  open serde use {to_json, from_json, parse-printable, parse-updated_at}

  -- What a line may do to the map of live tasks.
  pub compact_line_cases :
      (now : ℕ) (line : String) (m : Table (Task x))
      → (compact_line serde now line m ≡ m)
        ⊎ ((id : String) × (compact_line serde now line m ≡ remove id m))
        ⊎ ((t : Task x) × (from_json now line ≡ some t)
            × (is_some t.deleted_at ≡ false)
            × (compact_line serde now line m ≡ insert t.task_id t m))
  unfolding compact_line compact_task
  compact_line_cases now line m = elim (Option-cases (from_json now line)) [
    | inl e ↦ inl (ground arith)
    | inr (t, e) ↦ elim (Bool-cases (is_blank line)) [
      | inl blank ↦ inl (ground arith)
      | inr text ↦ elim (Bool-cases (is_some t.deleted_at)) [
        | inl gone ↦ inr (inl (t.task_id, ground arith))
        | inr live ↦ elim (Option-cases (lookup t.task_id m)) [
          | inl new ↦ inr (inr (t, e, live, ground arith))
          | inr (u, old) ↦ elim (Bool-cases (ltb u.updated_at t.updated_at)) [
            | inl later ↦ inr (inr (t, e, live, ground arith))
            | inr earlier ↦ inl (ground arith)
          ]
        ]
      ]
    ]
  ]

  compact_line-IsClean :
      (now : ℕ) (line : String) (m : Table (Task x))
      → IsClean x m
      → IsClean x (compact_line serde now line m)
  compact_line-IsClean now line m c = elim (compact_line_cases now line m) [
    | inl e ↦ rw e c
    | inr (inl (id, e)) ↦ rw e (remove-IsClean x id m c)
    | inr (inr (t, parsed, live, e)) ↦
        rw e (insert-IsClean x t m live (parse-printable now line t parsed) c)
  ]

  pub compact_lines-IsClean :
      (clock : ℕ → ℕ) (i : ℕ) (lines : List String) (m : Table (Task x))
      → IsClean x m
      → IsClean x (compact_lines serde clock i lines m)
  unfolding compact_lines
  compact_lines-IsClean clock i [] m c = c
  compact_lines-IsClean clock i (line ∷ lines) m c =
      compact_lines-IsClean clock (suc i) lines _ (compact_line-IsClean (clock i) line m c)

  print_all_cons :
      (t : Task x) (ts : List (Task x)) (lines : List String)
      → print_all serde (t ∷ ts) ≡ ok lines
      → (line : String) × (rest : List String) × (to_json t ≡ some line)
        × (print_all serde ts ≡ ok rest)
        × (lines ≡ line ∷ rest)
  unfolding print_all print
  print_all_cons t ts lines h = elim (Option-cases (to_json t)) [
    | inl e ↦ absurd (ground arith)
    | inr (line, e) ↦ elim (Result-cases (print_all serde ts)) [
      | inl (rest, e') ↦ (line, rest, e, e', ground arith)
      | inr (failure, e') ↦ absurd (ground arith)
    ]
  ]

  -- Printed tasks are read back in place of what the cache had under their keys.
  pub read_print_all :
      (clock : ℕ → ℕ) (i : ℕ) (m : Table (Task x)) (lines : List String) (c : Counts x)
      (id : String)
      → IsClean x m
      → print_all serde (values m) ≡ ok lines
      → stable x (lookup id (read_lines serde clock i lines c).cache)
        ≡ stable x (if has_key id m then lookup id m else lookup id c.cache)
  unfolding print_all print read_lines lookup
  read_print_all clock i [] lines c id clean h = let e : lines ≡ [] = ground arith in rw e refl
  read_print_all clock i ((k, t) ∷ m) lines c id (e, live, p, fresh, clean) h =
      let (line, rest, printed, printed', e') = print_all_cons t (values m) lines h in
      let c' = read_line serde (clock i) line c in
      rw (e', read_lines)
        (read_print_all clock (suc i) m rest c' id clean printed'
          ∙ after_print x k id t (clock i) m c.cache c'.cache e live fresh
              (read_printed serde t line (clock i) c p printed))
