-- ===== src/Process.antt =====
-- src/process/mod.rs and src/process/task.rs. This file has the handle `Process` and how it is made;
-- the child modules have the files that it reads, the descriptors, the tasks and the list of all
-- processes.
pub mod Identity
pub mod Flags
pub mod Reading
pub mod Cmdline
pub mod Environ
pub mod Auxv
pub mod Scores
pub mod Descriptors
pub mod Tasks
pub mod Listing
pub mod Yields
pub mod Polling
pub mod Calm
pub mod Closed
pub mod Unchanging
pub mod Renamed
use async_procfs.Prelude.{
  ℕ, ℤ, Bool, true, false, Option, none, some, [], ◌∷◌, List, FilePath, codes, Result, ok, err,
  ok_of, Run, ◌>>=◌, pure, throw, attempt,
}
use async_procfs.Std.Ints.{parse_int, show_int}
use async_procfs.Std.Utf8.{to_string_lossy}
use async_procfs.Std.Paths.{Component, join, last_component}
use async_procfs.Env.{
  Env, Flag, o_path, o_directory, cloexec, IoError, OpenOptions, with_custom_flags,
}
use async_procfs.Machine.{M, on_world}
use async_procfs.Procfs.{AsyncProcfs, try_wrapped, read_options}
use async_procfs.Kernel.Version.{Version, version, version_lt, cached}

pub record Process (File : Type 0) : Type 0 where
  pub fd : File
  pub pid : ℤ
  pub path : FilePath
  pub procfs : AsyncProcfs File

-- `Process::pid`.
abbrev pub pid : {File : Type 0} → Process File → ℤ
pid p = p.pid

-- The guard of the `match` on `Version::cached`: the version is known and is before 3.6.0.
unfoldable pub is_old : {F : Type 0} → Result Version F → Bool
unfolding version_lt
is_old (ok v) = version_lt v (version 3 6 0)
is_old (err e) = false

abbrev pub directory_flags : Bool → List Flag
directory_flags true = o_directory ∷ cloexec ∷ []
directory_flags false = o_path ∷ o_directory ∷ cloexec ∷ []

-- A name, read as the decimal number of a process, task or descriptor.
unfoldable pub parse_id : FilePath → Option ℤ
unfolding to_string_lossy parse_int
parse_id name = ok_of (parse_int 32 (to_string_lossy name))

abbrev pub normal_id : Option Component → Option ℤ
normal_id (some (Component.normal name)) = parse_id name
normal_id (some Component.root_dir) = none
normal_id (some Component.cur_dir) = none
normal_id (some Component.parent_dir) = none
normal_id none = none

abbrev pub link_id : {F : Type 0} → Result FilePath F → Option ℤ
link_id (ok name) = parse_id name
link_id (err e) = none

module _ (E : Env) where
  open E use {ProcError, File}

  abbrev pub process_options : {F : Type 0} → Result Version F → OpenOptions
  process_options v = with_custom_flags (directory_flags (is_old v)) (read_options E)

  -- The pid that the path's last component spells, or else the link that the path names.
  abbrev pub pid_or_link : AsyncProcfs File → FilePath → Option ℤ → M E (Option ℤ)
  pid_or_link procfs path (some pid) = pure (some pid)
  pid_or_link procfs path none = do
    link ← attempt (on_world (E.read_link_at procfs.file path))
    pure (link_id link)

  abbrev pub require_pid : FilePath → Option ℤ → M E ℤ
  require_pid path none = throw (E.not_found_error (some path))
  require_pid path (some pid) = pure pid

  unfoldable pub new_with_path : AsyncProcfs File → FilePath → M E (Process File)
  new_with_path procfs relative_path = do
    kernel ← attempt (cached E procfs)
    file ←
        try_wrapped E relative_path (E.open_at procfs.file relative_path (process_options kernel))
    pidres ← pid_or_link procfs relative_path (normal_id (last_component relative_path))
    pid ← require_pid relative_path pidres
    pure (record { fd = file; pid = pid; path = join procfs.root relative_path; procfs = procfs })

  -- `Process::new` and `Process::myself`.
  unfoldable pub new_process : AsyncProcfs File → ℤ → M E (Process File)
  new_process procfs pid = new_with_path procfs (show_int pid)

  unfoldable pub myself : AsyncProcfs File → M E (Process File)
  myself procfs = new_with_path procfs (codes "self")
