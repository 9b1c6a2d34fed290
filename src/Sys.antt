-- ===== src/Sys.antt =====
-- src/sys/mod.rs and the handle `AsyncProcfsSysKernel` of src/sys/kernel/mod.rs, whose methods pass
-- the instance on to the functions of that module.
use async_procfs.Prelude.{ℕ, ℤ}
use async_procfs.Env.{Env}
use async_procfs.Machine.{M}
use async_procfs.Procfs.{AsyncProcfs}
use async_procfs.Kernel.Version.{Version, current}
use async_procfs.Kernel.BuildInfo.{KernelType, BuildInfo, current_type, current_build_info}
use async_procfs.Kernel.Semaphores.{SemaphoreLimits, current_limits}
use async_procfs.Kernel.SysRq.{SysRq, sysrq, set_sysrq}
use async_procfs.Kernel.Limits

pub record AsyncProcfsSys (File : Type 0) : Type 0 where
  pub inner : AsyncProcfs File

pub record AsyncProcfsSysKernel (File : Type 0) : Type 0 where
  pub inner : AsyncProcfs File

-- `AsyncProcfsSys::new` and `AsyncProcfsSysKernel::new`.
abbrev pub new_sys : {File : Type 0} → AsyncProcfs File → AsyncProcfsSys File
new_sys procfs = record { inner = procfs }

abbrev pub new_sys_kernel : {File : Type 0} → AsyncProcfs File → AsyncProcfsSysKernel File
new_sys_kernel procfs = record { inner = procfs }

-- `AsyncProcfs::sys` and `AsyncProcfsSys::kernel`.
abbrev pub sys : {File : Type 0} → AsyncProcfs File → AsyncProcfsSys File
sys procfs = new_sys procfs

abbrev pub kernel : {File : Type 0} → AsyncProcfsSys File → AsyncProcfsSysKernel File
kernel s = new_sys_kernel s.inner

-- The methods of `AsyncProcfsSysKernel`, under its name.
module _ (E : Env) (k : AsyncProcfsSysKernel E.File) where
  abbrev pub sys_current_version : M E Version
  sys_current_version = current E k.inner

  abbrev pub sys_current_type : M E KernelType
  sys_current_type = current_type E k.inner

  abbrev pub sys_current_build_info : M E BuildInfo
  sys_current_build_info = current_build_info E k.inner

  abbrev pub sys_semaphore_limits : M E SemaphoreLimits
  sys_semaphore_limits = current_limits E k.inner

  abbrev pub sys_pid_max : M E ℤ
  sys_pid_max = Limits.pid_max E k.inner

  abbrev pub sys_shmmax : M E ℕ
  sys_shmmax = Limits.shmmax E k.inner

  abbrev pub sys_set_shmmax : ℕ → M E (Unit {0})
  sys_set_shmmax = Limits.set_shmmax E k.inner

  abbrev pub sys_shmmni : M E ℕ
  sys_shmmni = Limits.shmmni E k.inner

  abbrev pub sys_shmall : M E ℕ
  sys_shmall = Limits.shmall E k.inner

  abbrev pub sys_sysrq : M E SysRq
  sys_sysrq = sysrq E k.inner

  abbrev pub sys_set_sysrq : SysRq → M E (Unit {0})
  sys_set_sysrq = set_sysrq E k.inner

  abbrev pub sys_set_threads_max : ℕ → M E (Unit {0})
  sys_set_threads_max = Limits.set_threads_max E k.inner

  abbrev pub sys_threads_max : M E ℕ
  sys_threads_max = Limits.threads_max E k.inner
