-- ===== src/Kernel/Closed.antt =====
-- Properties of the functions of src/sys/kernel/mod.rs, from those of the operations of the files and
-- of the cache.
use async_procfs.Prelude.{ℕ}
use async_procfs.Env.{Env}
use async_procfs.Machine.Closed.{Property, Closed, Writes, if_keeps}
use async_procfs.Helpers.Closed.{read_value_keeps, write_value_keeps}
use async_procfs.Procfs.{AsyncProcfs}
use async_procfs.Kernel.Version.{
  Version, current, cached, to_u32, from_u32, fill, load_kernel, store_kernel,
}
use async_procfs.Kernel.BuildInfo.{current_type, current_build_info}
use async_procfs.Kernel.Semaphores.{current_limits}
use async_procfs.Kernel.SysRq.{SysRq, sysrq, set_sysrq}
use async_procfs.Kernel.Limits.{
  pid_max, shmall, shmmax, set_shmmax, shmmni, threads_max, set_threads_max,
}

-- That each of the functions has the property: those that read, and those that write.
abbrev pub KernelReads : (E : Env) → AsyncProcfs E.File → Property E → Type 0
KernelReads E procfs P =
    P _ _ (current E procfs)
    × P _ _ (cached E procfs)
    × P _ _ (current_type E procfs)
    × P _ _ (current_build_info E procfs)
    × P _ _ (current_limits E procfs)
    × P _ _ (pid_max E procfs)
    × P _ _ (shmall E procfs)
    × P _ _ (shmmax E procfs)
    × P _ _ (shmmni E procfs)
    × P _ _ (sysrq E procfs)
    × P _ _ (threads_max E procfs)

abbrev pub KernelWrites : (E : Env) → AsyncProcfs E.File → Property E → Type 0
KernelWrites E procfs P =
    ((n : ℕ) → P _ _ (set_shmmax E procfs n))
    × ((r : SysRq) → P _ _ (set_sysrq E procfs r))
    × ((n : ℕ) → P _ _ (set_threads_max E procfs n))

module _ {E : Env} {P : Property E} (closed : Closed E P)
    (store : (kernel : ℕ) → P _ E.ProcError (store_kernel E kernel))
    (procfs : AsyncProcfs E.File) where
  fill_keeps : P _ _ (fill E procfs)
  unfolding fill current
  fill_keeps = closed.bind_keeps _ _ (read_value_keeps closed procfs _ _ _) λ v.
      closed.bind_keeps _ _ (store (to_u32 E.little_endian v))
        λ u. closed.pure_keeps (to_u32 E.little_endian v)

  -- A property that the load and the store of the cache have too is one of `Version::cached`.
  pub cached_keeps_of : P _ E.ProcError (load_kernel E) → P _ _ (cached E procfs)
  unfolding cached
  cached_keeps_of load = closed.bind_keeps _ _ load λ loaded.
      closed.bind_keeps _ _ (if_keeps closed _ _ _ fill_keeps (closed.pure_keeps loaded))
        λ kernel. closed.pure_keeps (from_u32 E.little_endian kernel)

module _ {E : Env} {P : Property E} (closed : Closed E P) (procfs : AsyncProcfs E.File)
    (cached_keeps : P Version E.ProcError (cached E procfs)) where
  pub Closed-KernelReads : KernelReads E procfs P
  unfolding current current_type current_build_info current_limits pid_max shmall shmmax shmmni
      sysrq threads_max
  Closed-KernelReads = (
    read_value_keeps closed procfs _ _ _,
    cached_keeps,
    read_value_keeps closed procfs _ _ _,
    read_value_keeps closed procfs _ _ _,
    read_value_keeps closed procfs _ _ _,
    read_value_keeps closed procfs _ _ _,
    read_value_keeps closed procfs _ _ _,
    read_value_keeps closed procfs _ _ _,
    read_value_keeps closed procfs _ _ _,
    read_value_keeps closed procfs _ _ _,
    read_value_keeps closed procfs _ _ _,
  )

  module _ (writes : Writes E P) where
    set_threads_max_keeps : (n : ℕ) → P _ _ (set_threads_max E procfs n)
    unfolding set_threads_max
    set_threads_max_keeps n = closed.bind_keeps _ _ (closed.attempt_keeps _ cached_keeps) λ kernel.
        if_keeps closed _ _ _ (closed.throw_keeps _) (write_value_keeps closed writes procfs _ _ n)

    pub Closed-KernelWrites : KernelWrites E procfs P
    unfolding set_shmmax set_sysrq
    Closed-KernelWrites = (
      λ n. write_value_keeps closed writes procfs _ _ n,
      λ r. write_value_keeps closed writes procfs _ _ _,
      set_threads_max_keeps,
    )
