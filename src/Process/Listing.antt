-- ===== src/Process/Listing.antt =====
-- src/process/mod.rs: `all_processes`.
use async_procfs.Prelude.{List, codes, Result}
use async_procfs.Std.Paths.{join}
use async_procfs.Env.{Env}
use async_procfs.Machine.{M}
use async_procfs.Procfs.{AsyncProcfs}
use async_procfs.Process.{Process, new_process}
use async_procfs.Process.Descriptors.{open_dir, numbered_entries}

module _ (E : Env) where
  -- `all_processes` makes the stream, and `process_items` is what it yields.
  unfoldable pub all_processes : AsyncProcfs E.File → M E E.Dir
  all_processes procfs = open_dir E procfs.file (codes ".") (join procfs.root (codes "."))

  unfoldable pub process_items :
      AsyncProcfs E.File → E.Dir → M E (List (Result (Process E.File) E.ProcError))
  process_items procfs dir = numbered_entries E (new_process E procfs) (E.dir_stream dir)
