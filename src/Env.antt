-- ===== src/Env.antt =====
-- What the crate uses and does not implement, as one record of parameters: the target, the types
-- and conversions of `procfs_core`, the flags type made by `bitflags!`, and the asynchronous files of
-- `async_hybrid_fs` over a state of the world that the kernel owns. Opening, reading and the rest may
-- change that world in any way and may fail in any way.
pub mod Memory
use async_procfs.Prelude.{ℕ, Bool, Option, List, Text, Bytes, FilePath, ℤ, Run, Result}
use async_procfs.Std.Ints.{ParseIntError}

-- `std::io::ErrorKind`, as far as the standard library's own routines produce it here.
pub data ErrorKind : Type 0 where
  not_found permission_denied unexpected_eof invalid_data : ErrorKind
  other_kind : ℕ → ErrorKind

-- `std::io::Error`: one that the system made, or one around an `IoErrorWrapper`.
pub data IoError : Type 0 where
  raw : ErrorKind → Text → IoError
  wrapped : ErrorKind → FilePath → IoError → IoError

-- `std::io::Error::kind`.
unfoldable pub kind : IoError → ErrorKind
kind (raw k message) = k
kind (wrapped k path inner) = k

-- The bits of `OFlag` and `OFlags`; a set of them is the list of its members.
pub data Flag : Type 0 where
  nofollow o_path cloexec o_directory : Flag
  other_flag : ℕ → Flag

-- `OpenOptions`, as the calls that build it.
pub data OpenOptions : Type 0 where
  new_options : OpenOptions
  with_read with_write with_create with_truncate : Bool → OpenOptions → OpenOptions
  with_custom_flags : List Flag → OpenOptions → OpenOptions
  from_flag_and_mode : List Flag → ℕ → OpenOptions

pub data AtFlag : Type 0 where
  at_symlink_nofollow at_empty_path : AtFlag

pub record Env : Type 1 where
  -- The target: its byte order, the size of `usize`, and the Unicode property Uppercase of the
  -- characters beyond ASCII.
  pub little_endian : Bool
  pub usize_bytes : ℕ
  pub unicode_uppercase : ℕ → Bool
  -- `procfs_core`: errors. `internal_error` is what `expect!` returns for the named expression, and
  -- `from_str_failed` what `from_str!` returns for a text and, if given, a pid.
  pub ProcError : Type 0
  pub not_found_error : Option FilePath → ProcError
  pub other_error : Text → ProcError
  pub internal_error : Text → ProcError
  pub from_str_failed : Text → Option ℤ → ProcError
  pub from_io : IoError → ProcError
  pub from_message : Text → ProcError
  pub from_parse_int : ParseIntError → ProcError
  pub error_path : FilePath → ProcError → ProcError
  -- `procfs_core`: values.
  pub FdTarget : Type 0
  pub parse_fd_target : Text → Option FdTarget
  pub CoredumpFlags : Type 0
  pub coredump_flags : ℕ → Option CoredumpFlags
  pub parse_uid_gid : Text → ℕ → Result ℕ ProcError
  pub ClearRefs : Type 0
  pub show_clear_refs : ClearRefs → Text
  -- `bitflags!`: `from_bits` of a flags type, by the union of its constants.
  pub from_bits : ℕ → ℕ → Option ℕ
  -- `async_hybrid_fs` over the kernel.
  pub World : Type 0
  pub File : Type 0
  pub StdFile : Type 0
  pub Dir : Type 0
  pub Metadata : Type 0
  pub open_path : FilePath → OpenOptions → World → Run File IoError World
  pub open_at : File → FilePath → OpenOptions → World → Run File IoError World
  pub read_to_end : File → World → Run (ℕ × Bytes) IoError World
  pub read_to_string : File → World → Run Text IoError World
  pub hybrid_read_to_string : File → World → Run Text IoError World
  pub write_all : File → Bytes → World → Run (Unit {0}) IoError World
  pub read_link_at : File → FilePath → World → Run FilePath IoError World
  pub read_link : File → World → Run FilePath IoError World
  pub hybrid_metadata : File → World → Run Metadata IoError World
  pub hybrid_metadata_at : File → FilePath → List AtFlag → World → Run Metadata IoError World
  pub mode : Metadata → ℕ
  pub size : Metadata → ℕ
  pub uid : Metadata → ℕ
  -- `try_into_std` gives the file back where an operation is still in flight.
  pub debug_file : File → Text
  pub try_into_std : File → Option StdFile
  pub new_dir : StdFile → World → Run Dir IoError World
  -- The items that the directory's stream delivers, in order.
  pub dir_stream : Dir → List (Result Bytes IoError)
