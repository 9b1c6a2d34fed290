-- ===== src/Process/Tasks.antt =====
-- src/process/task.rs, and the tasks of src/process/mod.rs: `Task` and its readers, `tasks`,
-- `task_from_tid` and `task_main_thread`.
pub mod Children
pub mod Listed
use async_procfs.Prelude.{
  ℕ, ℤ, List, [], ◌∷◌, Text, Bytes, FilePath, codes, Result, ok, err, map_err, ◌>>=?◌, Run, ◌>>=◌,
  pure, of_result,
}
use async_procfs.Std.Strings.{split_whitespace}
use async_procfs.Std.Ints.{parse_uint, show_int, ParseIntError}
use async_procfs.Std.Paths.{join}
use async_procfs.Env.{Env, o_path, o_directory, from_flag_and_mode, IoError}
use async_procfs.Machine.{M, on_world}
use async_procfs.Procfs.{AsyncProcfs, try_io, try_wrapped, read_options}
use async_procfs.Process.{Process}
use async_procfs.Process.Reading.{FromRead}
use async_procfs.Process.Descriptors.{open_dir, numbered_entries}

pub record Task (File : Type 0) : Type 0 where
  pub fd : File
  pub pid : ℤ
  pub tid : ℤ
  pub path : FilePath
  pub procfs : AsyncProcfs File

-- `map(parse).collect()`: the first part that fails decides.
unfoldable pub collect_numbers {ℓ} : {F : Type ℓ} → F → List Text → Result (List ℕ) F
collect_numbers failure [] = ok []
collect_numbers failure (p ∷ ps) = map_err (λ _. failure) (parse_uint 32 p) >>=? λ n.
    collect_numbers failure ps >>=? λ ns. ok (n ∷ ns)

module _ (E : Env) where
  open E use {ProcError, File}

  -- The path of a task below its process.
  abbrev pub task_path : ℤ → FilePath
  task_path tid = join (codes "task") (show_int tid)

  unfoldable pub from_process_at : Process File → ℤ → M E (Task File)
  from_process_at p tid = do
    fd ←
        try_wrapped E (join p.path (task_path tid))
          (E.open_at p.fd (task_path tid) (from_flag_and_mode (o_path ∷ o_directory ∷ []) 0))
    pure (record {
      fd = fd;
      pid = p.pid;
      tid = tid;
      path = join p.path (task_path tid);
      procfs = p.procfs;
    })

  unfoldable pub task_from_tid : Process File → ℤ → M E (Task File)
  task_from_tid = from_process_at

  unfoldable pub task_main_thread : Process File → M E (Task File)
  task_main_thread p = task_from_tid p p.pid

  abbrev pub open_task_file : Task File → FilePath → M E File
  open_task_file t relpath =
      try_wrapped E (join t.path relpath) (E.open_at t.fd relpath (read_options E))

  -- As for a process, the read names `io` in its error.
  unfoldable pub read_with_cursor : {T : Type 0} → FromRead E T → Task File → FilePath → M E T
  read_with_cursor from_read t relpath = do
    file ← open_task_file t relpath
    buffer ← try_wrapped E (join t.path (codes "io")) (E.read_to_end file)
    of_result (from_read buffer.1)

  module _ {T : Type 0} (from_read : FromRead E T) (t : Task File) where
    unfoldable pub stat : M E T
    stat = read_with_cursor from_read t (codes "stat")

    unfoldable pub status : M E T
    status = read_with_cursor from_read t (codes "status")

    unfoldable pub io : M E T
    io = read_with_cursor from_read t (codes "io")

    unfoldable pub schedstat : M E T
    schedstat = read_with_cursor from_read t (codes "schedstat")

    unfoldable pub syscall : M E T
    syscall = read_with_cursor from_read t (codes "syscall")

  abbrev pub children_error : ProcError
  children_error = E.other_error (codes "Failed to parse task's child PIDs")

  unfoldable pub parse_children : Text → Result (List ℕ) ProcError
  parse_children buf = collect_numbers children_error (split_whitespace buf)

  unfoldable pub children : Task File → M E (List ℕ)
  children t = do
    file ← open_task_file t (codes "children")
    buf ← try_io E (on_world (E.read_to_string file))
    of_result (parse_children buf)

  -- `tasks` makes the stream, and `task_items` is what it yields.
  unfoldable pub tasks : Process File → M E E.Dir
  tasks p = open_dir E p.fd (codes "task") (join p.path (codes "task"))

  unfoldable pub task_items : Process File → E.Dir → M E (List (Result (Task File) ProcError))
  task_items p dir = numbered_entries E (from_process_at p) (E.dir_stream dir)

  -- `generate_error`, which is for tests alone.
  unfoldable pub generate_error : Task File → M E (Unit {0})
  generate_error t = do _ ← open_task_file t (codes "does_not_exist"); pure tt
