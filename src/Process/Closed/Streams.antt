-- ===== src/Process/Closed/Streams.antt =====
-- The streams of descriptors, tasks and processes, run to their ends.
use async_procfs.Prelude.{
  ℤ, refl, Bytes, FilePath, Option, none, some, List, [], ◌∷◌, Result, ok, err,
}
use async_procfs.Env.{Env, IoError}
use async_procfs.Machine.{M}
use async_procfs.Machine.Closed.{Property, Closed, of_result_keeps, if_keeps, try_wrapped_keeps}
use async_procfs.Procfs.{AsyncProcfs}
use async_procfs.Kernel.Version.{Version, cached}
use async_procfs.Process.{Process, is_old, new_process}
use async_procfs.Process.Descriptors.{
  from_process_at, open_dir, with_entry, numbered_entries, fds, fd_items, fd_count,
}
use async_procfs.Process.Tasks
use async_procfs.Process.Tasks.{Task, children, tasks, task_items}
use async_procfs.Process.Listing.{all_processes, process_items}
use async_procfs.Process.Closed.{ProcessStreams, reads-descriptor_flags, new_with_path_keeps}

module _ {E : Env} {P : Property E} (closed : Closed E P)
    (cached_keeps : (procfs : AsyncProcfs E.File) → P Version E.ProcError (cached E procfs)) where
  module _ {A : Type 0} (make : ℤ → M E A) (made : (id : ℤ) → P _ _ (make id)) where
    with_entry_keeps :
        (id : Option ℤ) (rest : M E (List (Result A E.ProcError)))
        → P _ _ rest
        → P _ _ (with_entry E make id rest)
    with_entry_keeps none rest k = k
    with_entry_keeps (some id) rest k =
        closed.bind_keeps _ _ (closed.attempt_keeps _ (made id))
          λ entry. closed.bind_keeps _ _ k λ items. closed.pure_keeps _

    numbered_entries_keeps :
        (entries : List (Result Bytes IoError)) → P _ _ (numbered_entries E make entries)
    unfolding numbered_entries
    numbered_entries_keeps [] = closed.pure_keeps _
    numbered_entries_keeps (err e ∷ entries) = closed.pure_keeps _
    numbered_entries_keeps (ok name ∷ entries) =
        with_entry_keeps _ _ (numbered_entries_keeps entries)

  open_dir_keeps : (base : E.File) (relpath full : FilePath) → P _ _ (open_dir E base relpath full)
  open_dir_keeps base relpath full =
      closed.bind_keeps _ _ (try_wrapped_keeps closed _ _ (closed.open_at _ _ _ refl)) λ file.
        closed.bind_keeps _ _ (closed.idle _ file)
          λ std. try_wrapped_keeps closed _ _ (closed.new_dir std)

  fd_keeps : (p : Process E.File) (fd : ℤ) → P _ _ (from_process_at E p fd)
  unfolding from_process_at
  fd_keeps p fd = closed.bind_keeps _ _ (closed.attempt_keeps _ (cached_keeps p.procfs)) λ kernel.
      closed.bind_keeps _ _
        (try_wrapped_keeps closed _ _
          (closed.open_at _ _ _ (reads-descriptor_flags (is_old kernel))))
        λ file. closed.bind_keeps _ _ (try_wrapped_keeps closed _ _ (closed.read_link file)) λ link.
          closed.bind_keeps _ _ (try_wrapped_keeps closed _ _ (closed.hybrid_metadata_at _ _ _))
            λ meta. closed.bind_keeps _ _ (of_result_keeps closed _) λ target. closed.pure_keeps _

  fds_keeps : (p : Process E.File) → P _ _ (fds E p)
  unfolding fds
  fds_keeps p = open_dir_keeps p.fd _ _

  fd_items_keeps : (p : Process E.File) (dir : E.Dir) → P _ _ (fd_items E p dir)
  unfolding fd_items
  fd_items_keeps p dir = numbered_entries_keeps _ (fd_keeps p) (E.dir_stream dir)

  fd_count_keeps : (p : Process E.File) → P _ _ (fd_count E p)
  unfolding fd_count
  fd_count_keeps p =
      closed.bind_keeps _ _ (try_wrapped_keeps closed _ _ (closed.hybrid_metadata_at _ _ _)) λ stat.
        if_keeps closed _ _ _ (closed.pure_keeps _) (
          closed.bind_keeps _ _ (fds_keeps p)
            λ dir. closed.bind_keeps _ _ (fd_items_keeps p dir) λ items. closed.pure_keeps _)

  task_keeps : (p : Process E.File) (tid : ℤ) → P _ _ (Tasks.from_process_at E p tid)
  unfolding Tasks.from_process_at
  task_keeps p tid =
      closed.bind_keeps _ _ (try_wrapped_keeps closed _ _ (closed.open_at _ _ _ refl))
        λ fd. closed.pure_keeps _

  pub Closed-ProcessStreams :
      (procfs : AsyncProcfs E.File) (p : Process E.File) (dir : E.Dir)
      → ProcessStreams E procfs p dir P
  unfolding new_process tasks task_items all_processes process_items
  Closed-ProcessStreams procfs p dir = (
    fd_keeps p,
    fds_keeps p,
    fd_items_keeps p dir,
    fd_count_keeps p,
    task_keeps p,
    open_dir_keeps p.fd _ _,
    numbered_entries_keeps _ (task_keeps p) (E.dir_stream dir),
    open_dir_keeps procfs.file _ _,
    numbered_entries_keeps (new_process E procfs)
        (λ pid. new_with_path_keeps closed cached_keeps procfs _) (E.dir_stream dir),
  )
