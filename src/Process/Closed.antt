-- ===== src/Process/Closed.antt =====
-- Properties of the functions of src/process/mod.rs and src/process/task.rs, from those of the operations
-- of the files and of the cache.
pub mod Reads
pub mod Parsers
pub mod Streams
pub mod Named
use async_procfs.Prelude.{
  ℕ, ℤ, suc, ◌≡◌, refl, inl, inr, Bool, true, false, Bytes, FilePath, Text, Option, none, some,
  Option-cases, List, [], ◌∷◌, Result, ok, err, of_result, take, length, Bool-cases, ◌==◌, arith,
  codes,
}
use async_procfs.Std.Paths.{last_component}
use async_procfs.Env.{Env, IoError, Flag, from_flag_and_mode}
use async_procfs.Machine.{M}
use async_procfs.Machine.Closed.{
  Property, Closed, Writes, only_known, reads, of_result_keeps, if_keeps, try_wrapped_keeps,
}
use async_procfs.Helpers.Closed.{write_value_to_keeps}
use async_procfs.Procfs.{AsyncProcfs}
use async_procfs.Kernel.Version.{Version, cached}
use async_procfs.Process.{
  Process, directory_flags, is_old, process_options, normal_id, pid_or_link, require_pid,
  new_with_path, new_process, myself,
}
use async_procfs.Process.Reading.{
  FromRead, open_relative_flags, open_file, read_whole, read_process_link, metadata, uid, is_alive,
  mem, read_with_cursor,
}
use async_procfs.Process.Cmdline.{cmdline}
use async_procfs.Process.Environ.{environ}
use async_procfs.Process.Auxv.{AuxMap, auxv_loop, finish, parse_auxv, auxv}
use async_procfs.Process.Auxv.Decode.{auxv_loop_total}
use async_procfs.Process.Scores.{
  coredump_filter, loginuid, oom_score, oom_score_adj, set_oom_score_adj, clear_refs,
}
use async_procfs.Process.Descriptors.{
  descriptor_flags, from_process_at, open_dir, with_entry, numbered_entries, fds, fd_items,
  fd_count,
}
use async_procfs.Process.Tasks
use async_procfs.Process.Tasks.{Task, children, tasks, task_items}
use async_procfs.Process.Listing.{all_processes, process_items}

-- That each of the functions has the property: those that make a process, those that read its files, the
-- streams run to their ends, and those that write or open with given flags.
abbrev pub ProcessReads :
    (E : Env) → AsyncProcfs E.File → Process E.File → Task E.File → Property E → Type 1
ProcessReads E procfs p t P =
    ((pid : ℤ) → P _ _ (new_process E procfs pid))
    × P _ _ (myself E procfs)
    × ((T : Type 0) (from_read : FromRead E T) (path : FilePath)
        → P _ _ (read_with_cursor E from_read p path)
          × P _ _ (Tasks.read_with_cursor E from_read t path))
    × ((path : FilePath) → P _ _ (read_whole E p path) × P _ _ (read_process_link E path p))
    × ((T : Type 0) (from_read : FromRead E T) (state : T → ℕ)
        → P _ _ (is_alive E from_read state p))
    × P _ _ (metadata E p)
    × P _ _ (uid E p)
    × P _ _ (mem E p)
    × P _ _ (cmdline E p)
    × P _ _ (environ E p)
    × P _ _ (auxv E p)
    × P _ _ (coredump_filter E p)
    × P _ _ (loginuid E p)
    × P _ _ (oom_score E p)
    × P _ _ (oom_score_adj E p)
    × P _ _ (children E t)

abbrev pub ProcessStreams :
    (E : Env) → AsyncProcfs E.File → Process E.File → E.Dir → Property E → Type 0
ProcessStreams E procfs p dir P =
    ((fd : ℤ) → P _ _ (from_process_at E p fd))
    × P _ _ (fds E p)
    × P _ _ (fd_items E p dir)
    × P _ _ (fd_count E p)
    × ((tid : ℤ) → P _ _ (Tasks.from_process_at E p tid))
    × P _ _ (tasks E p)
    × P _ _ (task_items E p dir)
    × P _ _ (all_processes E procfs)
    × P _ _ (process_items E procfs dir)

abbrev pub ProcessWrites : (E : Env) → Process E.File → Property E → Type 0
ProcessWrites E p P =
    ((z : ℤ) → P _ _ (set_oom_score_adj E p z))
    × ((c : E.ClearRefs) → P _ _ (clear_refs E p c))
    × ((path : FilePath) (flags : List Flag) → P _ _ (open_relative_flags E p path flags))

-- The options of the process and of its descriptors open for reading.
directory_flags_known : (old : Bool) → only_known (directory_flags old) ≡ true
directory_flags_known true = refl
directory_flags_known false = refl

reads-process_options :
    (E : Env) {F : Type 0} (v : Result Version F) → reads (process_options E v) ≡ true
reads-process_options E v = rw (directory_flags_known (is_old v)) refl

pub reads-descriptor_flags :
    (old : Bool) → reads (from_flag_and_mode (descriptor_flags old) 0) ≡ true
reads-descriptor_flags true = refl
reads-descriptor_flags false = refl

module _ {E : Env} {P : Property E} (closed : Closed E P)
    (cached_keeps : (procfs : AsyncProcfs E.File) → P Version E.ProcError (cached E procfs)) where
  pub open_file_keeps : (p : Process E.File) (relpath : FilePath) → P _ _ (open_file E p relpath)
  open_file_keeps p relpath = try_wrapped_keeps closed _ _ (closed.open_at _ _ _ refl)

  pub read_whole_keeps : (p : Process E.File) (relpath : FilePath) → P _ _ (read_whole E p relpath)
  unfolding read_whole
  read_whole_keeps p relpath =
      closed.bind_keeps _ _ (open_file_keeps p relpath)
        λ file. closed.map_failed_keeps _ _ (closed.read_to_string file)

  pid_or_link_keeps :
      (procfs : AsyncProcfs E.File) (path : FilePath) (id : Option ℤ)
      → P _ _ (pid_or_link E procfs path id)
  pid_or_link_keeps procfs path (some pid) = closed.pure_keeps (some pid)
  pid_or_link_keeps procfs path none =
      closed.bind_keeps _ _ (closed.attempt_keeps _ (closed.read_link_at _ _))
        λ link. closed.pure_keeps _

  require_pid_keeps : (path : FilePath) (id : Option ℤ) → P _ _ (require_pid E path id)
  require_pid_keeps path none = closed.throw_keeps _
  require_pid_keeps path (some pid) = closed.pure_keeps pid

  pub new_with_path_keeps :
      (procfs : AsyncProcfs E.File) (path : FilePath) → P _ _ (new_with_path E procfs path)
  unfolding new_with_path
  new_with_path_keeps procfs path =
      closed.bind_keeps _ _ (closed.attempt_keeps _ (cached_keeps procfs)) λ kernel.
        closed.bind_keeps _ _
          (try_wrapped_keeps closed _ _ (closed.open_at _ _ _ (reads-process_options E kernel)))
          λ file.
            closed.bind_keeps _ _ (pid_or_link_keeps procfs path _) λ found.
              closed.bind_keeps _ _ (require_pid_keeps path found) λ pid. closed.pure_keeps _
