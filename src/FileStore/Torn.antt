-- ===== src/FileStore/Torn.antt =====
-- A write of src/file_store.rs that fails half-way, and the save after it.
use Prim.Native.String.{◌++◌ as ◌<>◌}
use snerd_rust.Base.{String, ◌++◌}
use snerd_rust.Task.{Task}
use snerd_rust.FileStore.{FileStore}
