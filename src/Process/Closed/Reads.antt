-- ===== src/Process/Closed/Reads.antt =====
-- The readers of one process and of one task, and the two writers.
use async_procfs.Prelude.{
  ℕ, suc, ◌≢◌, refl, Bytes, FilePath, Option, none, some, [], Result, take, length, arith,
}
use async_procfs.Env.{Env, IoError}
use async_procfs.Machine.Closed.{
  Property, Closed, Writes, of_result_keeps, if_keeps, try_wrapped_keeps,
}
use async_procfs.Helpers.Closed.{write_value_to_keeps}
use async_procfs.Procfs.{AsyncProcfs}
use async_procfs.Kernel.Version.{Version, cached}
use async_procfs.Process.{Process, new_process, myself}
use async_procfs.Process.Reading.{
  uid, is_alive, stat, FromRead, read_process_link, metadata, mem, read_with_cursor,
  open_relative_flags,
}
use async_procfs.Process.Cmdline.{cmdline}
use async_procfs.Process.Environ.{environ}
use async_procfs.Process.Auxv.{AuxMap, finish, parse_auxv, auxv}
use async_procfs.Process.Auxv.Decode.{auxv_loop_total}
use async_procfs.Process.Scores.{
  coredump_filter, loginuid, oom_score, oom_score_adj, set_oom_score_adj, clear_refs,
}
use async_procfs.Process.Tasks
use async_procfs.Process.Tasks.{Task, children, tasks, task_items}
use async_procfs.Process.Tasks.{open_task_file}
use async_procfs.Process.Closed.{
  ProcessReads, ProcessWrites, open_file_keeps, read_whole_keeps, new_with_path_keeps,
}

module _ {E : Env} {P : Property E} (closed : Closed E P)
    (cached_keeps : (procfs : AsyncProcfs E.File) → P Version E.ProcError (cached E procfs)) where
  pub read_with_cursor_keeps :
      {T : Type 0} (from_read : FromRead E T) (p : Process E.File) (path : FilePath)
      → P _ _ (read_with_cursor E from_read p path)
  unfolding read_with_cursor
  read_with_cursor_keeps from_read p path =
      closed.bind_keeps _ _ (open_file_keeps closed cached_keeps p path) λ file.
        closed.bind_keeps _ _ (try_wrapped_keeps closed _ _ (closed.read_to_end file))
          λ buffer. of_result_keeps closed _

  is_alive_keeps :
      {T : Type 0} (from_read : FromRead E T) (state : T → ℕ) (p : Process E.File)
      → P _ _ (is_alive E from_read state p)
  unfolding is_alive stat
  is_alive_keeps from_read state p =
      closed.bind_keeps _ _ (closed.attempt_keeps _ (read_with_cursor_keeps from_read p _))
        λ outcome. closed.pure_keeps _

  task_file_keeps : (t : Task E.File) (path : FilePath) → P _ _ (open_task_file E t path)
  task_file_keeps t path = try_wrapped_keeps closed _ _ (closed.open_at _ _ _ refl)

  pub task_read_keeps :
      {T : Type 0} (from_read : FromRead E T) (t : Task E.File) (path : FilePath)
      → P _ _ (Tasks.read_with_cursor E from_read t path)
  unfolding Tasks.read_with_cursor
  task_read_keeps from_read t path = closed.bind_keeps _ _ (task_file_keeps t path) λ file.
      closed.bind_keeps _ _ (try_wrapped_keeps closed _ _ (closed.read_to_end file))
        λ buffer. of_result_keeps closed _

  children_keeps : (t : Task E.File) → P _ _ (children E t)
  unfolding children
  children_keeps t = closed.bind_keeps _ _ (task_file_keeps t _) λ file.
      closed.bind_keeps _ _ (closed.map_failed_keeps _ _ (closed.read_to_string file))
        λ buf. of_result_keeps closed _

  cmdline_keeps : (p : Process E.File) → P _ _ (cmdline E p)
  unfolding cmdline
  cmdline_keeps p = closed.bind_keeps _ _ (open_file_keeps closed cached_keeps p _) λ file.
      closed.bind_keeps _ _ (try_wrapped_keeps closed _ _ (closed.read_to_string file))
        λ buf. closed.pure_keeps _

  environ_keeps : (p : Process E.File) → P _ _ (environ E p)
  unfolding environ
  environ_keeps p = closed.bind_keeps _ _ (open_file_keeps closed cached_keeps p _) λ file.
      closed.bind_keeps _ _ (closed.map_failed_keeps _ _ (closed.read_to_end file))
        λ buf. closed.pure_keeps _

  -- The loop has rounds enough, so that what it gives is a result.
  finish_keeps : (o : Option (Result AuxMap IoError)) → o ≢ none → P AuxMap E.ProcError (finish E o)
  finish_keeps none total = absurd (total refl)
  finish_keeps (some r) total = closed.map_failed_keeps E.from_io _ (of_result_keeps closed r)

  parse_auxv_keeps : (n : ℕ) (buf : Bytes) → P _ _ (parse_auxv E n buf)
  unfolding parse_auxv
  parse_auxv_keeps n buf = if_keeps closed _ _ _ (closed.pure_keeps _) (
      finish_keeps _ (
        auxv_loop_total E.little_endian E.usize_bytes (suc (length (take n buf))) (take n buf) []
          (omega arith)))

  auxv_keeps : (p : Process E.File) → P _ _ (auxv E p)
  unfolding auxv
  auxv_keeps p = closed.bind_keeps _ _ (open_file_keeps closed cached_keeps p _) λ file.
      closed.bind_keeps _ _ (closed.map_failed_keeps _ _ (closed.read_to_end file))
        λ buf. parse_auxv_keeps buf.0 buf.1

  pub Closed-ProcessReads :
      (procfs : AsyncProcfs E.File) (p : Process E.File) (t : Task E.File)
      → ProcessReads E procfs p t P
  unfolding uid new_process myself read_process_link metadata mem coredump_filter loginuid oom_score
      oom_score_adj
  Closed-ProcessReads procfs p t = (
    λ pid. new_with_path_keeps closed cached_keeps procfs _,
    new_with_path_keeps closed cached_keeps procfs _,
    λ T from_read path. (read_with_cursor_keeps from_read p path, task_read_keeps from_read t path),
    λ path. (
      read_whole_keeps closed cached_keeps p path,
      try_wrapped_keeps closed _ _ (closed.read_link_at _ _),
    ),
    λ T from_read state. is_alive_keeps from_read state p,
    closed.map_failed_keeps _ _ (closed.hybrid_metadata _),
    closed.bind_keeps _ _ (closed.map_failed_keeps _ _ (closed.hybrid_metadata _))
        λ m. closed.pure_keeps (E.uid m),
    open_file_keeps closed cached_keeps p _,
    cmdline_keeps p,
    environ_keeps p,
    auxv_keeps p,
    closed.bind_keeps _ _ (read_whole_keeps closed cached_keeps p _) λ s. of_result_keeps closed _,
    closed.bind_keeps _ _ (read_whole_keeps closed cached_keeps p _) λ s. of_result_keeps closed _,
    closed.bind_keeps _ _ (read_whole_keeps closed cached_keeps p _) λ s. of_result_keeps closed _,
    closed.bind_keeps _ _ (read_whole_keeps closed cached_keeps p _) λ s. of_result_keeps closed _,
    children_keeps t,
  )

  pub Closed-ProcessWrites : Writes E P → (p : Process E.File) → ProcessWrites E p P
  unfolding set_oom_score_adj clear_refs open_relative_flags
  Closed-ProcessWrites writes p = (
    λ z.
        closed.bind_keeps _ _ (try_wrapped_keeps closed _ _ (writes.open_any _ _ _))
          λ file. write_value_to_keeps closed writes _ file z,
    λ c.
        closed.bind_keeps _ _ (try_wrapped_keeps closed _ _ (writes.open_any _ _ _))
          λ file. write_value_to_keeps closed writes _ file c,
    λ path flags. try_wrapped_keeps closed _ _ (writes.open_any _ _ _),
  )
