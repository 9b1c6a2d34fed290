-- ===== src/Process/Yields.antt =====
-- What the streams of processes, tasks and descriptors yield, and what `fd_count` counts.
use async_procfs.Prelude.{◌≡◌, map, List, [], ◌∷◌, length, codes, arith, ℤ, Result, returned}
use async_procfs.Std.Paths.{join}
use async_procfs.Env.{Env, at_empty_path}
use async_procfs.Machine.{State}
use async_procfs.Procfs.{AsyncProcfs, try_wrapped}
use async_procfs.Process.{Process, new_process}
use async_procfs.Process.Identity.{new_process_lem}
use async_procfs.Process.Descriptors.{FdInfo, from_process_at, fds, fd_items, fd_count}
use async_procfs.Process.Descriptors.Stream.{
  AllMade, Within, keys, ids, errors, first_error, numbered_entries-Within,
  numbered_entries_complete,
}
use async_procfs.Process.Descriptors.Yielded.{Yields, numbered_entries-Yields}
use async_procfs.Process.Descriptors.Count.{AllMade-Yields}
use async_procfs.Process.Tasks
use async_procfs.Process.Tasks.{Task, task_path, task_items}
use async_procfs.Process.Listing.{process_items}

module _ (E : Env) where
  -- What `all_processes` yields, once its stream has ended, is made by opening a process for each name of
  -- the directory that is a number, in its order and each in the state that the one before left, up to
  -- the directory's first error: the processes that could be made, and at last that error.
  pub process_items-Yields :
      (procfs : AsyncProcfs E.File) (dir : E.Dir) (s t : State E.World)
      (items : List (Result (Process E.File) E.ProcError))
      → process_items E procfs dir s ≡ returned items t
      → Yields E
          (new_process E procfs)
          (first_error (E.dir_stream dir))
          (ids (E.dir_stream dir))
          s
          items
          t
  unfolding process_items
  process_items-Yields procfs dir s t items h =
      numbered_entries-Yields E (new_process E procfs) (E.dir_stream dir) s t items h

  -- The pids of the processes that `all_processes` yields, once its stream has ended, are numbers among
  -- the names of the directory, in its order, and its only error is the first one of the directory.
  pub process_items_pids :
      (procfs : AsyncProcfs E.File) (dir : E.Dir) (s t : State E.World)
      (items : List (Result (Process E.File) E.ProcError))
      → process_items E procfs dir s ≡ returned items t
      → Within (keys (λ p. p.pid) items) (ids (E.dir_stream dir))
        × (errors items ≡ map E.from_io (first_error (E.dir_stream dir)))
  unfolding process_items
  process_items_pids procfs dir s t items h =
      numbered_entries-Within E (new_process E procfs) (λ p. p.pid)
        (λ id s t p fits e. (new_process_lem E procfs id s t p fits e).0) (E.dir_stream dir) s t
        items h

  task_named :
      (p : Process E.File) (tid : ℤ) (s t : State E.World) (a : Task E.File)
      → Tasks.from_process_at E p tid s ≡ returned a t
      → (a.tid ≡ tid) × (a.pid ≡ p.pid)
  unfolding Tasks.from_process_at
  task_named p tid s t a h = ground arith

  -- The thread ids of the tasks that the stream of `tasks` yields, once it has ended, are numbers among
  -- the names of the directory, in its order, and its only error is the first one of the directory.
  pub task_items_tids :
      (p : Process E.File) (dir : E.Dir) (s t : State E.World)
      (items : List (Result (Task E.File) E.ProcError))
      → task_items E p dir s ≡ returned items t
      → Within (keys (λ a. a.tid) items) (ids (E.dir_stream dir))
        × (errors items ≡ map E.from_io (first_error (E.dir_stream dir)))
  unfolding task_items
  task_items_tids p dir s t items h =
      numbered_entries-Within E (Tasks.from_process_at E p) (λ a. a.tid)
        (λ id s t a fits e. (task_named p id s t a e).0) (E.dir_stream dir) s t items h

  -- A task of the process `p`, under the number that it has.
  abbrev pub BelongsTo : Process E.File → Task E.File → Type 0
  BelongsTo p a =
      (a.pid ≡ p.pid) × (a.path ≡ join p.path (task_path E a.tid)) × (a.procfs ≡ p.procfs)

  pub task_belongs :
      (p : Process E.File) (tid : ℤ) (s t : State E.World) (a : Task E.File)
      → Tasks.from_process_at E p tid s ≡ returned a t
      → BelongsTo p a
  unfolding Tasks.from_process_at
  task_belongs p tid s t a h = ground arith

  -- The tasks that the stream of `tasks` yields, once it has ended, are opened one after the other for the
  -- names of the directory that are numbers, up to its first error, which comes last, and those that could
  -- not be opened are left out; every one that is yielded has the pid of the process, the path of its
  -- own number below the process, and its instance.
  pub task_items_belong :
      (p : Process E.File) (dir : E.Dir) (s t : State E.World)
      (items : List (Result (Task E.File) E.ProcError))
      → task_items E p dir s ≡ returned items t
      → Yields E
          (Tasks.from_process_at E p)
          (first_error (E.dir_stream dir))
          (ids (E.dir_stream dir))
          s
          items
          t
        × AllMade (BelongsTo p) items
  unfolding task_items
  task_items_belong p dir s t items h =
      let yielded =
        numbered_entries-Yields E (Tasks.from_process_at E p) (E.dir_stream dir) s t items h in
      (
        yielded,
        AllMade-Yields E (Tasks.from_process_at E p) (BelongsTo p) (task_belongs p)
            (first_error (E.dir_stream dir)) yielded,
      )

  descriptor_named :
      (p : Process E.File) (fd : ℤ) (s t : State E.World) (a : FdInfo E.FdTarget)
      → from_process_at E p fd s ≡ returned a t
      → a.raw_fd ≡ fd
  unfolding from_process_at
  descriptor_named p fd s t a h = ground arith

  -- The numbers of the descriptors that the stream of `fds` yields, once it has ended, are numbers among
  -- the names of the directory, in its order, and its only error is the first one of the directory.
  pub fd_items_fds :
      (p : Process E.File) (dir : E.Dir) (s t : State E.World)
      (items : List (Result (FdInfo E.FdTarget) E.ProcError))
      → fd_items E p dir s ≡ returned items t
      → Within (keys (λ a. a.raw_fd) items) (ids (E.dir_stream dir))
        × (errors items ≡ map E.from_io (first_error (E.dir_stream dir)))
  unfolding fd_items
  fd_items_fds p dir s t items h =
      numbered_entries-Within E (from_process_at E p) (λ a. a.raw_fd)
        (λ id s t a fits e. descriptor_named p id s t a e) (E.dir_stream dir) s t items h

  -- Where the directory of the descriptors is found with size 0 and can be opened, its stream gives no
  -- error, and every descriptor can be read in every state, `fd_count` returns the number of the names in
  -- the directory that are numbers.
  pub fd_count_lem :
      (p : Process E.File) (meta : E.Metadata) (dir : E.Dir) (s t u : State E.World)
      → ((fd : ℤ) (v : State E.World)
          → (a : FdInfo E.FdTarget) × (w : State E.World) × (from_process_at E p fd v
              ≡ returned a w)
            × (a.raw_fd ≡ fd))
      → try_wrapped E
          (join p.path (codes "fd"))
          (E.hybrid_metadata_at p.fd (codes "fd") (at_empty_path ∷ []))
          s
        ≡ returned meta t
      → E.size meta ≡ 0
      → fds E p t ≡ returned dir u
      → first_error (E.dir_stream dir) ≡ []
      → (v : State E.World) × (fd_count E p s ≡ returned (length (ids (E.dir_stream dir))) v)
  unfolding fd_count fd_items
  fd_count_lem p meta dir s t u readable looked zero opened clean =
      let (items, v, e, k, n) =
        numbered_entries_complete E (from_process_at E p) (λ a. a.raw_fd) readable
          (E.dir_stream dir) u clean in
      (v, rw looked (rw (zero) (rw opened (rw e (rw n)))))
