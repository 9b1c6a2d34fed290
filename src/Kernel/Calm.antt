-- ===== src/Kernel/Calm.antt =====
-- Panics in the functions of src/sys/kernel/mod.rs.
use async_procfs.Env.{Env}
use async_procfs.Machine.Calm.{Calm, IsCalm, Closed-Calm, Calm-Writes}
use async_procfs.Procfs.{AsyncProcfs}
use async_procfs.Kernel.Version.{cached}
use async_procfs.Kernel.Closed.{
  KernelReads, KernelWrites, cached_keeps_of, Closed-KernelReads, Closed-KernelWrites,
}

-- That none of the functions panics which read and write the files of /proc/sys/kernel, the one that
-- keeps a version in the static cache included.
abbrev pub KernelIsCalm : (E : Env) → AsyncProcfs E.File → Type 0
KernelIsCalm E procfs =
    KernelReads E procfs (λ A F m. Calm m) × KernelWrites E procfs (λ A F m. Calm m)

module _ (E : Env) (calm : IsCalm E) (procfs : AsyncProcfs E.File) where
  pub cached-Calm : Calm (cached E procfs)
  cached-Calm =
      cached_keeps_of (Closed-Calm E calm) (λ kernel. record { at = λ s t p h. cc }) procfs
        (record { at = λ s t p h. cc })

  -- Where no operation of the files panics, and no file has an operation in flight, none of the functions
  -- panics that read and write the files of /proc/sys/kernel, the one that keeps a version in the static
  -- cache included.
  pub kernel-Calm : KernelIsCalm E procfs
  kernel-Calm = (
    Closed-KernelReads (Closed-Calm E calm) procfs cached-Calm,
    Closed-KernelWrites (Closed-Calm E calm) procfs cached-Calm (Calm-Writes E calm),
  )
