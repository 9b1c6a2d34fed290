-- ===== src/Kernel/Limits/Release.antt =====
-- `set_threads_max` from the text of the file /proc/sys/kernel/osrelease on.
use async_procfs.Prelude.{ℕ, ◌≤◌, ◌<◌, ◌≡◌, ◌⊎◌, failed}
use async_procfs.Env.{Env}
use async_procfs.Machine.{State}
use async_procfs.Procfs.{AsyncProcfs}
use async_procfs.Kernel.Version.{Version, to_u32}
use async_procfs.Kernel.Version.Release.{Holds, cached_release}
use async_procfs.Kernel.Limits.{set_threads_max, threads_error, threads_min, threads_max_limit}
use async_procfs.Kernel.Limits.Threads.{set_threads_max_refused}

-- With an empty cache and a file that holds a release whose major version is at least 4 and whose minor
-- version is at least 1, a limit out of range is refused with the error that names it, the version's packing is
-- kept, and nothing was done but the reading of that file.
pub set_threads_max_release :
    (E : Env) (procfs : AsyncProcfs E.File) (s : State E.World) (v : Version) (w : E.World) (n : ℕ)
    → Holds E procfs s v w
    → s.kernel ≡ 0
    → 4 ≤ v.major
    → 1 ≤ v.minor
    → (n < threads_min) ⊎ (threads_max_limit < n)
    → set_threads_max E procfs n s
      ≡ failed (threads_error E n) (record { world = w; kernel = to_u32 E.little_endian v })
set_threads_max_release E procfs s v w n holds empty major minor outside =
    set_threads_max_refused E procfs s n _ v (cached_release E procfs s v w holds empty) major minor
      outside
