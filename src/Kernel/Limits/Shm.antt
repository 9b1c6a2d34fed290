-- ===== src/Kernel/Limits/Shm.antt =====
-- The setters and getters of single numbers, one after the other.
use async_procfs.Prelude.{
  ℕ, ◌<◌, ◌≤◌, ◌^◌, ◌≡◌, ◌≢◌, Text, codes, returned, panicked, state_of, arith,
}
use async_procfs.Env.{Env}
use async_procfs.Machine.{State}
use async_procfs.Procfs.{AsyncProcfs}
use async_procfs.Helpers.RoundTrip.{Keeps, read_uint-write_uint}
use async_procfs.Kernel.Version.{cached}
use async_procfs.Kernel.Limits.{
  shmmax, set_shmmax, threads_max, set_threads_max, threads_min, threads_max_limit,
}
use async_procfs.Kernel.Limits.Threads.{set_threads_max_in_range}

-- If the file keeps the ASCII text that is written to it, `shmmax` returns the `u64` that `set_shmmax` has set.
pub shmmax-set_shmmax :
    (E : Env) (procfs : AsyncProcfs E.File) (tail : Text)
    → Keeps E procfs (codes "sys/kernel/shmmax") tail
    → (n : ℕ) (s t : State E.World) → n < 2 ^ 64
    → set_shmmax E procfs n s ≡ returned tt t
    → (u : State E.World) × (shmmax E procfs t ≡ returned n u)
unfolding shmmax set_shmmax
shmmax-set_shmmax E procfs tail keeps n s t fits h =
    read_uint-write_uint E procfs (codes "sys/kernel/shmmax") tail keeps 64 n s t fits h

-- If the file keeps the ASCII text that is written to it, and determining the kernel's version does not panic,
-- `threads_max` returns a limit in the documented range that `set_threads_max` has set.
pub threads_max-set_threads_max :
    (E : Env) (procfs : AsyncProcfs E.File) (tail : Text)
    → Keeps E procfs (codes "sys/kernel/threads-max") tail
    → (n : ℕ) (s t : State E.World) → threads_min ≤ n
    → n ≤ threads_max_limit
    → ((p : Text) (u : State E.World) → cached E procfs s ≢ panicked p u)
    → set_threads_max E procfs n s ≡ returned tt t
    → (u : State E.World) × (threads_max E procfs t ≡ returned n u)
unfolding threads_max
threads_max-set_threads_max E procfs tail keeps n s t low high calm h =
    read_uint-write_uint E procfs (codes "sys/kernel/threads-max") tail keeps 32 n
      (state_of (cached E procfs s)) t (omega arith)
      (rw (set_threads_max_in_range E procfs s n low high calm) at h)
