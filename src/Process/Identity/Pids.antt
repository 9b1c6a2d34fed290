-- ===== src/Process/Identity/Pids.antt =====
-- The pid of every process that `Process::new_with_path` makes, and the error of its opening.
use async_procfs.Prelude.{
  ◌≡◌, ◌↔◌, ℤ, Result, run_bind-eq-returned, returned, failed, attempt, arith,
}
use async_procfs.Std.Ints.{show_int}
use async_procfs.Std.Ints.RoundTrip.{InRange}
use async_procfs.Std.Paths.{join}
use async_procfs.Env.{Env, IoError, wrapped, kind}
use async_procfs.Machine.{State}
use async_procfs.Procfs.{AsyncProcfs, wrap_error}
use async_procfs.Kernel.Version.{Version, cached}
use async_procfs.Process.{Process, process_options, new_with_path, new_process}
use async_procfs.Process.Identity.{normal_id-show_int}

-- How a process was made: its directory was opened with the options for the version, known or not, and the
-- process has what was opened, the pid, the path of its number below the root, and the instance.
pub record Opened (E : Env) (procfs : AsyncProcfs E.File) (pid : ℤ) (s : State E.World)
    (p : Process E.File) (t : State E.World) : Type 0 where
  pub kernel : Result Version E.ProcError
  pub between : State E.World
  pub looked : attempt {F = E.ProcError} (cached E procfs) s ≡ returned kernel between
  pub opened :
      E.open_at procfs.file (show_int pid) (process_options E kernel) between.world
      ≡ returned p.fd t.world
  pub cache : t.kernel ≡ between.kernel
  pub same_pid : p.pid ≡ pid
  pub below : p.path ≡ join procfs.root (show_int pid)
  pub instance_of : p.procfs ≡ procfs

module _ (E : Env) (procfs : AsyncProcfs E.File) where
  Opened-new_process :
      (pid : ℤ) (s t : State E.World) (p : Process E.File)
      → InRange 32 pid
      → new_process E procfs pid s ≡ returned p t
      → Opened E procfs pid s p t
  unfolding new_process new_with_path
  Opened-new_process pid s t p fits h =
      let (k, u, looked, h₁) =
        run_bind-eq-returned (attempt {F = E.ProcError} (cached E procfs) s) _ h in
      let id = normal_id-show_int pid fits in
      record {
        kernel = k;
        between = u;
        looked = looked;
        opened = ground arith;
        cache = ground arith;
        same_pid = ground arith;
        below = ground arith;
        instance_of = ground arith;
      }

  new_process-Opened :
      (pid : ℤ) (s t : State E.World) (p : Process E.File)
      → InRange 32 pid
      → Opened E procfs pid s p t
      → new_process E procfs pid s ≡ returned p t
  unfolding new_process new_with_path
  new_process-Opened pid s t p fits o =
      let id = normal_id-show_int pid fits in
      let looked = o.looked in
      let opened = o.opened in
      let cache = o.cache in
      let same = o.same_pid in
      let below = o.below in let instance_of = o.instance_of in ground arith

  -- For a pid of 32 bits, `Process::new` returns a process exactly if determining the version did not panic
  -- and the directory of that number could then be opened with the options for the version, known or not,
  -- and the process is the one with what was opened, that pid, the path of its number below the root, and the
  -- given instance; it leaves what the version and the opening have left.
  pub new_process_iff :
      (pid : ℤ) (s t : State E.World) (p : Process E.File)
      → InRange 32 pid
      → (new_process E procfs pid s ≡ returned p t) ↔ Opened E procfs pid s p t
  new_process_iff pid s t p fits =
      (Opened-new_process pid s t p fits, new_process-Opened pid s t p fits)

  -- Where the directory of a process cannot be opened, `Process::new` fails with an error of the same
  -- kind that names the number of the process, and not a path below the root.
  pub new_process_unopened :
      (pid : ℤ) (k : Result Version E.ProcError) (s t : State E.World) (w : E.World) (e : IoError)
      → attempt {F = E.ProcError} (cached E procfs) s ≡ returned k t
      → E.open_at procfs.file (show_int pid) (process_options E k) t.world ≡ failed e w
      → new_process E procfs pid s
        ≡ failed
            (E.from_io (wrapped (kind e) (show_int pid) e))
            (record { world = w; kernel = t.kernel })
  unfolding new_process new_with_path wrap_error
  new_process_unopened pid k s t w e looked opened = ground arith
