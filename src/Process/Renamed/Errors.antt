-- ===== src/Process/Renamed/Errors.antt =====
-- What the functions of a process do with its path and its pid.
use async_procfs.Prelude.{ℕ, ℤ, List, FilePath, ◌>>=◌, pure}
use async_procfs.Env.{Env, Flag}
use async_procfs.Machine.Alike.{Alike, Alike-refl, Alike-bind, Alike-try_wrapped}
use async_procfs.Process.{Process}
use async_procfs.Process.Reading.{
  FromRead, FromReadSi, read_with_cursor, read_si_with_cursor, read_whole, is_alive, metadata, uid,
  read_process_link, mem, open_relative_flags,
}
use async_procfs.Process.Cmdline.{cmdline}
use async_procfs.Process.Environ.{environ}
use async_procfs.Process.Auxv.{auxv}
use async_procfs.Process.Scores.{
  coredump_filter, loginuid, oom_score, oom_score_adj, set_oom_score_adj, clear_refs,
}
use async_procfs.Process.Descriptors.{from_process_at, fds, fd_items, fd_count}
use async_procfs.Process.Tasks.{tasks, task_items, task_from_tid}
use async_procfs.Process.Renamed.{renamed, alike}
use async_procfs.Process.Renamed.Readers.{
  read_whole-Alike, read_with_cursor-Alike, read_si_with_cursor-Alike, is_alive-Alike,
  cmdline-Alike, environ-Alike, auxv-Alike, coredump_filter-Alike,
}
use async_procfs.Process.Renamed.Streams.{
  descriptor-Alike, open_dir-Alike, fd_items-Alike, fds-Alike, fd_count-Alike,
}
use async_procfs.Process.Renamed.Tasks.{own, see, task-Alike, task_items-Alike}
use async_procfs.Process.Renamed.Named.{NamedAreAlike, named-Alike}

-- That two handles give runs that are alike, from each of the functions that read the files of a process,
-- list its descriptors and its tasks, or write. Tasks are compared without the paths and pids that they carry.
abbrev pub HandlesAreAlike : (E : Env) → Process E.File → Process E.File → Type 1
HandlesAreAlike E p q =
    ((T : Type 0) (from_read : FromRead E T) (relpath : FilePath)
      → Alike (read_with_cursor E from_read p relpath) (read_with_cursor E from_read q relpath))
    × ((T : Type 0) (from_read : FromReadSi E T) (relpath : FilePath)
        → Alike (read_si_with_cursor E from_read p relpath)
            (read_si_with_cursor E from_read q relpath))
    × ((relpath : FilePath)
        → Alike (read_whole E p relpath) (read_whole E q relpath)
          × Alike (read_process_link E relpath p) (read_process_link E relpath q))
    × ((T : Type 0) (from_read : FromRead E T) (state : T → ℕ)
        → Alike (is_alive E from_read state p) (is_alive E from_read state q))
    × Alike (metadata E p) (metadata E q)
    × Alike (uid E p) (uid E q)
    × Alike (mem E p) (mem E q)
    × Alike (cmdline E p) (cmdline E q)
    × Alike (environ E p) (environ E q)
    × Alike (auxv E p) (auxv E q)
    × Alike (coredump_filter E p) (coredump_filter E q)
    × Alike (loginuid E p) (loginuid E q)
    × Alike (oom_score E p) (oom_score E q)
    × Alike (oom_score_adj E p) (oom_score_adj E q)
    × ((fd : ℤ) → Alike (from_process_at E p fd) (from_process_at E q fd))
    × Alike (fds E p) (fds E q)
    × ((dir : E.Dir) → Alike (fd_items E p dir) (fd_items E q dir))
    × Alike (fd_count E p) (fd_count E q)
    × Alike (tasks E p) (tasks E q)
    × ((dir : E.Dir) → Alike (see E own (task_items E p dir)) (see E own (task_items E q dir)))
    × ((tid : ℤ)
        → Alike (task_from_tid E p tid >>= λ t. pure (own t))
            (task_from_tid E q tid >>= λ t. pure (own t)))
    × NamedAreAlike E p q
    × ((z : ℤ) → Alike (set_oom_score_adj E p z) (set_oom_score_adj E q z))
    × ((c : E.ClearRefs) → Alike (clear_refs E p c) (clear_refs E q c))
    × ((relpath : FilePath) (flags : List Flag)
        → Alike (open_relative_flags E p relpath flags) (open_relative_flags E q relpath flags))

-- For two processes on the same open directory and with the same instance, whatever paths and pids they
-- carry: every function that reads the files of a process, lists its descriptors, opens the directory of its
-- tasks, or writes, returns the same value, or fails, or panics with the same message, in both, and leaves
-- the same state behind; only errors may differ. So do the stream of the tasks and the opening of a task of
-- a given number, up to the pids and paths that the tasks carry. This is not said of `task_main_thread`,
-- which opens the task of the number that the pid is.
pub renamed-Alike :
    (E : Env) (p : Process E.File) (path : FilePath) (pid : ℤ)
    → HandlesAreAlike E p (renamed p path pid)
unfolding read_process_link metadata uid mem loginuid oom_score oom_score_adj tasks task_from_tid
    set_oom_score_adj clear_refs open_relative_flags
renamed-Alike E p path pid = (
  λ T from_read relpath. read_with_cursor-Alike E p path pid from_read relpath,
  λ T from_read relpath. read_si_with_cursor-Alike E p path pid from_read relpath,
  λ relpath. (read_whole-Alike E p path pid relpath, Alike-try_wrapped E _ _ _),
  λ T from_read state. is_alive-Alike E p path pid from_read state,
  Alike-refl _,
  Alike-refl _,
  Alike-try_wrapped E _ _ _,
  cmdline-Alike E p path pid,
  environ-Alike E p path pid,
  auxv-Alike E p path pid,
  coredump_filter-Alike E p path pid,
  Alike-bind _ _ _ _ (read_whole-Alike E p path pid _) λ s. Alike-refl _,
  Alike-bind _ _ _ _ (read_whole-Alike E p path pid _) λ s. Alike-refl _,
  Alike-bind _ _ _ _ (read_whole-Alike E p path pid _) λ s. Alike-refl _,
  λ fd. descriptor-Alike E p path pid fd,
  fds-Alike E p path pid,
  λ dir. fd_items-Alike E p path pid dir,
  fd_count-Alike E p path pid,
  open_dir-Alike E p path pid _ _ _ _,
  λ dir. task_items-Alike E p path pid dir,
  λ tid. task-Alike E p path pid tid,
  named-Alike E p path pid,
  λ z. search alike depth 6,
  λ c. search alike depth 6,
  λ relpath flags. Alike-try_wrapped E _ _ _,
)
