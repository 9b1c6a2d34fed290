-- ===== src/Env/Memory.antt =====
-- A concrete instance of the parameters: files, symbolic links and directories in memory, on a
-- little-endian 64-bit target. It shows that the hypotheses of the theorems can be met.
use async_procfs.Prelude.{
  ℕ, Bool, true, false, ◌||◌, Option, none, some, List, [], ◌∷◌, map, Text, Bytes, FilePath, ℤ,
  length, codes, if◌then◌else◌, ◌==◌, bit_and, text_eq, Result, ok, err, Run, returned, failed,
}
use mathlib.Core.Option
use async_procfs.Std.Ints.{ParseIntError}
use async_procfs.Std.Paths.{join}
use async_procfs.Std.Utf8.{to_str}
use async_procfs.Std.Maps.{lookup, insert}
use async_procfs.Env.{
  Env, ErrorKind, IoError, raw, OpenOptions, new_options, with_read, with_write, with_create,
  with_truncate, with_custom_flags, from_flag_and_mode,
}

pub data MemoryError : Type 0 where
  not_found_error : Option FilePath → MemoryError
  other_error internal_error message_error : Text → MemoryError
  from_str_error : Text → Option ℤ → MemoryError
  io_error : IoError → MemoryError
  parse_error : ParseIntError → MemoryError
  at_path : FilePath → MemoryError → MemoryError

pub record Stats : Type 0 where
  pub mode : ℕ
  pub size : ℕ
  pub uid : ℕ

pub record Disk : Type 0 where
  pub files : List (FilePath × Bytes)
  pub links : List (FilePath × FilePath)
  pub dirs : List (FilePath × List Bytes)
  pub stats : List (FilePath × Stats)

abbrev found : {A : Type 0} → Option A → Bool
found none = false
found (some a) = true

unfoldable pub exists_at : Disk → FilePath → Bool
unfolding lookup
exists_at d p =
    found (lookup text_eq p d.files)
    || found (lookup text_eq p d.links)
    || found (lookup text_eq p d.dirs)

creates : OpenOptions → Bool
creates new_options = false
creates (with_read _ o) = creates o
creates (with_write _ o) = creates o
creates (with_create b o) = b
creates (with_truncate _ o) = creates o
creates (with_custom_flags _ o) = creates o
creates (from_flag_and_mode _ _) = false

unfoldable pub truncates : OpenOptions → Bool
truncates new_options = false
truncates (with_read _ o) = truncates o
truncates (with_write _ o) = truncates o
truncates (with_create _ o) = truncates o
truncates (with_truncate b o) = b
truncates (with_custom_flags _ o) = truncates o
truncates (from_flag_and_mode _ _) = false

abbrev no_entry : IoError
no_entry = raw ErrorKind.not_found (codes "No such file or directory")

unfoldable pub emptied : OpenOptions → FilePath → Disk → Disk
unfolding truncates insert
emptied o p d = if truncates o then record d { files = insert text_eq p [] d.files } else d

unfoldable pub open_file : FilePath → OpenOptions → Disk → Run FilePath IoError Disk
unfolding exists_at creates emptied
open_file p o d =
    if exists_at d p || creates o then returned p (emptied o p d) else failed no_entry d

unfoldable pub resolve : FilePath → FilePath → FilePath
unfolding join
resolve base p = if text_eq p (codes ".") then base else join base p

abbrev from_option : {A : Type 0} → Option A → Disk → Run A IoError Disk
from_option none d = failed no_entry d
from_option (some a) d = returned a d

abbrev from_text : Option Text → Disk → Run Text IoError Disk
from_text none d = failed (raw ErrorKind.invalid_data []) d
from_text (some t) d = returned t d

abbrev content : Disk → FilePath → Bytes → Bytes
content d p = elim (lookup text_eq p d.files) [
  | none ↦ (λ default. default)
  | some b ↦ (λ default. b)
]

unfoldable pub read_bytes : FilePath → Disk → Run (ℕ × Bytes) IoError Disk
unfolding lookup
read_bytes p d = let b : Bytes = content d p [] in returned (length b, b) d

unfoldable pub read_text : FilePath → Disk → Run Text IoError Disk
unfolding lookup to_str
read_text p d = from_text (to_str (content d p [])) d

unfoldable pub write_bytes : FilePath → Bytes → Disk → Run (Unit {0}) IoError Disk
unfolding insert
write_bytes p bytes d = returned tt (record d { files = insert text_eq p bytes d.files })

unfoldable pub link_at : FilePath → Disk → Run FilePath IoError Disk
unfolding lookup
link_at p d = from_option (lookup text_eq p d.links) d

unfoldable pub stats_at : FilePath → Disk → Run Stats IoError Disk
unfolding lookup
stats_at p d = from_option (lookup text_eq p d.stats) d

unfoldable pub list_dir : FilePath → Disk → Run (List (Result Bytes IoError)) IoError Disk
unfolding lookup
list_dir p d = from_option (Option.map (map (λ name. ok name)) (lookup text_eq p d.dirs)) d

abbrev pub memory : Env
memory = record {
  little_endian = true;
  usize_bytes = 8;
  unicode_uppercase = λ c. false;
  ProcError = MemoryError;
  not_found_error = not_found_error;
  other_error = other_error;
  internal_error = internal_error;
  from_str_failed = from_str_error;
  from_io = io_error;
  from_message = message_error;
  from_parse_int = parse_error;
  error_path = at_path;
  FdTarget = Text;
  parse_fd_target = some;
  CoredumpFlags = ℕ;
  coredump_flags = λ n. if bit_and n 511 == n then some n else none;
  parse_uid_gid = λ text i. err (other_error text);
  ClearRefs = ℕ;
  show_clear_refs = λ n. (b'0' ∷ []);
  from_bits = λ all n. if bit_and n all == n then some n else none;
  World = Disk;
  File = FilePath;
  StdFile = FilePath;
  Dir = List (Result Bytes IoError);
  Metadata = Stats;
  open_path = open_file;
  open_at = λ base p o. open_file (resolve base p) o;
  read_to_end = read_bytes;
  read_to_string = read_text;
  hybrid_read_to_string = read_text;
  write_all = write_bytes;
  read_link_at = λ base p. link_at (resolve base p);
  read_link = link_at;
  hybrid_metadata = stats_at;
  hybrid_metadata_at = λ base p flags. stats_at (resolve base p);
  mode = λ m. m.mode;
  size = λ m. m.size;
  uid = λ m. m.uid;
  debug_file = λ f. f;
  try_into_std = some;
  new_dir = list_dir;
  dir_stream = λ d. d;
}
