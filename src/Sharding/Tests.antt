-- ===== src/Sharding/Tests.antt =====
-- Runs of the model of src/sharding.rs, and its theorems at concrete inputs.
use snerd_rust.Base.{◌≡◌, refl, ◌≢◌, sym, String, true, false, none, some, List, [], ◌∷◌, ok}
use snerd_rust.Membership.{Membership}
use snerd_rust.Membership.Store
use snerd_rust.Membership.Store.{Codec, Dir, Faults}
use snerd_rust.Membership.Store.Atomic.{IsCalm, stored}
use snerd_rust.Sharding.{
  legacy, QueueDir, MigrateFaults, detect_layout, on_store, probe_lock, rename_log, rename_lock,
  migrate_legacy_unlocked, exists, with_lock_held, load_shards, adopt, create, boot_as,
  resolve_layout,
}
use snerd_rust.Sharding.Route.{fnv1a64}
use snerd_rust.Sharding.Boot.{HasShards, KeepsLog, resolve_layout_ok, resolve_layout-KeepsLog}

program : Unit {0}
unfolding detect_layout on_store probe_lock rename_log rename_lock migrate_legacy_unlocked exists
    with_lock_held load_shards adopt create boot_as resolve_layout Store.read_unlocked
    Store.init_unlocked Store.load Store.with_lock Store.write_unlocked Store.parse Store.serialize
    stored
program = tt

-- The published vectors of FNV-1a.
vectors :
    (fnv1a64 "" ≡ 0xcbf29ce484222325)
    × (fnv1a64 "a" ≡ 0xaf63dc4c8601ec8c)
    × (fnv1a64 "foobar" ≡ 0x85944171f73967e8)
unfolding fnv1a64
vectors = (refl, refl, refl)

abbrev codec : Codec
codec = record {
  Raw = Membership;
  to_json = λ m. some m;
  from_json = λ raw. some raw;
  parse-print = λ m raw e. sym e;
}

abbrev start : Membership
start = record { queue = "q"; shards = 3; version = 0; claims = [] }

abbrev calm : Faults Membership
calm = record {
  open_lock = false;
  take_lock = false;
  read = false;
  create = false;
  write = false;
  sync = false;
  rename = false;
  torn = start;
}

calm-IsCalm : IsCalm calm
calm-IsCalm = record {
  open_lock = refl;
  take_lock = refl;
  read = refl;
  create = refl;
  write = refl;
  sync = refl;
  rename = refl;
}

abbrev smooth : MigrateFaults
smooth = record { open_probe = false; create_dir = false; rename_log = false; rename_lock = false }

abbrev old : QueueDir Membership String
old = record {
  dir = record { file = none; tmp = none };
  legacy_log = some "tasks";
  legacy_lock = true;
  lock_held = false;
  shard0_log = none;
  shard0_lock = false;
}

abbrev booted : QueueDir Membership String
booted = record old { dir = record { file = some start; tmp = none }; legacy_log = none }

adopted : (resolve_layout codec String calm smooth (λ d. d) "q" 8 old).0 ≡ ok 1
unfolding program
adopted = refl

resolve_layout_ok_example :
    HasShards codec String calm smooth 1
      (resolve_layout codec String calm smooth (λ d. d) "q" 8 old).1
resolve_layout_ok_example = resolve_layout_ok codec String calm smooth (λ d. d) "q" 8 1 old adopted

booted-HasShards : HasShards codec String calm smooth 3 booted
unfolding program
booted-HasShards = (start, refl, refl)

old-legacy :
    detect_layout {Raw = Membership} {Log = String} (record old { lock_held = true }) ≡ legacy
unfolding program
old-legacy = refl

resolve_layout-KeepsLog_example :
    KeepsLog codec String calm smooth
      (record old { lock_held = true })
      (resolve_layout codec String calm smooth (λ d. d) "q" 8 (record old { lock_held = true })).1
resolve_layout-KeepsLog_example =
    resolve_layout-KeepsLog codec String calm smooth "q" 8 (record old { lock_held = true })
      old-legacy

some_shard : ◌≢◌ {A = List String} ("shard-0" ∷ "shard-1" ∷ []) []
some_shard e = absurd (cc)
