-- ===== src/Process/Polling.antt =====
-- The streams of processes, tasks and descriptors for a reader that polls them one item at a time.
use async_procfs.Prelude.{ℕ, ◌≡◌, ◌<◌, List, length, Result}
use async_procfs.Env.{Env}
use async_procfs.Machine.{State}
use async_procfs.Procfs.{AsyncProcfs}
use async_procfs.Process.{Process, new_process}
use async_procfs.Process.Descriptors
use async_procfs.Process.Descriptors.{fd_items}
use async_procfs.Process.Descriptors.Stream.{AllMade}
use async_procfs.Process.Descriptors.Polled.{Entries, take_items, take_items-eq}
use async_procfs.Process.Descriptors.Reader.{Reads, Account, Reads-Account}
use async_procfs.Process.Descriptors.Taken.{AllMade-Tried}
use async_procfs.Process.Tasks
use async_procfs.Process.Tasks.{Task, task_items}
use async_procfs.Process.Listing.{process_items}
use async_procfs.Process.Yields.{BelongsTo, task_belongs}

module _ (E : Env) where
  -- Polled once more than the directory has entries, each of the three streams gives what it yields when it
  -- is run to its end, and the same last state, also where that is a panic.
  pub streams_polled :
      (procfs : AsyncProcfs E.File) (p : Process E.File) (dir : E.Dir) (count : ℕ)
      (s : State E.World)
      → length (E.dir_stream dir) < count
      → (take_items E (new_process E procfs) count (E.dir_stream dir) s
          ≡ process_items E procfs dir s)
        × (take_items E (Tasks.from_process_at E p) count (E.dir_stream dir) s
            ≡ task_items E p dir s)
        × (take_items E (Descriptors.from_process_at E p) count (E.dir_stream dir) s
            ≡ fd_items E p dir s)
  unfolding process_items task_items fd_items
  streams_polled procfs p dir count s enough = (
    take_items-eq E (new_process E procfs) count (E.dir_stream dir) s enough,
    take_items-eq E (Tasks.from_process_at E p) count (E.dir_stream dir) s enough,
    take_items-eq E (Descriptors.from_process_at E p) count (E.dir_stream dir) s enough,
  )

  -- Whatever is done to the state between the polls of the stream of `tasks`, the items that a reader has
  -- so far are accounted for: they are what could be made of the numbers among the names that the
  -- stream has passed, tried in the order of the directory and each in the state of its poll, and last the
  -- directory's error, if the stream has passed it; what it has passed and what is left are together all
  -- numbers of the directory up to its first error, and that error. Every task has the pid of the
  -- process, the path of its number below the process, and its instance.
  pub task_reader :
      (p : Process E.File) (dir : E.Dir) (items : List (Result (Task E.File) E.ProcError))
      (left : Entries)
      → Reads E (Tasks.from_process_at E p) (E.dir_stream dir) items left
      → Account E (Tasks.from_process_at E p) (E.dir_stream dir) items left
        × AllMade (BelongsTo E p) items
  task_reader p dir items left reads =
      let account = Reads-Account E (Tasks.from_process_at E p) reads in
      (
        account,
        AllMade-Tried E (Tasks.from_process_at E p) (BelongsTo E p) (task_belongs E p)
            account.errors account.tried,
      )
