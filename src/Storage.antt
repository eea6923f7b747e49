-- ===== src/Storage.antt =====
-- src/comfyui_docker_helper/container/runtime/log_storage.py: the rotating raw files of `RawLogStore`.
-- The answers of the operating system are arguments: each check is none where it passes, or the
-- trouble that it raises. A file is known by its inode, which stands for the code's device and inode; a
-- name is the sequence number of an archive, and 0 is the active file. Offsets are counted from an
-- origin below all of them, as in the replay.
pub mod Rotation
pub mod Appending
pub mod Retained
pub mod Catalog
pub mod Opening
pub mod Turns
pub mod Writing
pub mod Writes
pub mod Appends
pub mod Snapshots
pub mod Reading
pub mod Readers
mod Examples
use comfyui_docker_helper.Prelude.{
  split_last, ℕ, zero, suc, ◌+◌, ◌-◌, Bool, true, false, not, List, [], ◌∷◌, ◌++◌, length, take,
  drop, Option, none, some, if◌then◌else◌, leb, ltb, ◌==◌, ◌||◌, ◌&&◌,
}
use comfyui_docker_helper.History.{log_read_bytes}

pub data LogStorageFailure : Type 0 where
  admission_failure write_failure rotation_failure sync_failure queue_failure : LogStorageFailure

-- What a call of the system raises: a `LogStorageError` or an `OSError`.
pub data Trouble : Type 0 where
  storage_error : LogStorageFailure → Trouble
  os_error : Trouble

abbrev pub Check : Type 0
Check = Option Trouble

abbrev pub active_name : ℕ
active_name = 0

abbrev pub log_max_catalog_files : ℕ
log_max_catalog_files = 4096

abbrev pub sequence_limit : ℕ
sequence_limit = 100000000000000000000

pub record FileSpan : Type 0 where
  pub name : ℕ
  pub inode : ℕ
  pub start : ℕ
  pub end : ℕ
  pub offset : ℕ

-- `disk` are the contents of the files; `is_open` tells whether there is a descriptor of the active one.
pub record RawLogStore : Type 0 where
  pub max_size : ℕ
  pub max_files : ℕ
  pub spans : List FileSpan
  pub acknowledged : ℕ
  pub sequence : ℕ
  pub is_open : Bool
  pub closed : Bool
  pub writable : Bool
  pub disk : ℕ → List ℕ

-- How a call ends, with the state that it leaves.
pub data Ended : Type 0 where
  finished : Ended
  raised : Trouble → Ended
  no_active_span : Ended

-- The answers to one rotation; `inode` is that of the new file, beside the files of the catalog.
pub record RotateAnswers : Type 0 where
  pub anchor : Check
  pub examined : Check
  pub same_file : Bool
  pub name_free : Check
  pub synced : Bool
  pub renamed : Bool
  pub closed : Bool
  pub removed : FileSpan → Check
  pub anchor_again : Check
  pub opened : Check
  pub inode : List FileSpan → ℕ

unfoldable pub write_file : ℕ → List ℕ → (ℕ → List ℕ) → ℕ → List ℕ
write_file inode content disk i = if i == inode then content else disk i
