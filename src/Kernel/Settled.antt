-- ===== src/Kernel/Settled.antt =====
-- What the functions of src/sys/kernel/mod.rs do to the static cache.
use async_procfs.Prelude.{
  ℕ, Text, ◌⊎◌, ◌∙◌, ◌≡◌, inl, inr, refl, Bool-cases, ◌==◌, arith, Run-cases, returned, failed,
  panicked, state_of,
}
use async_procfs.Env.{Env}
use async_procfs.Machine.{State}
use async_procfs.Machine.Settled.{Change, Settled, Closed-Settled, Settled-Writes}
use async_procfs.Kernel.Closed.{KernelReads, KernelWrites, Closed-KernelReads, Closed-KernelWrites}
use async_procfs.Procfs.{AsyncProcfs}
use async_procfs.Kernel.Version.{Version, IsVersion, to_u32, current, cached}
use async_procfs.Kernel.Version.Cache.{current-IsVersion, current_kernel, cached_hit, cached_miss}

-- A version whose fields fit, packed.
abbrev pub Packed : Env → ℕ → Type 0
Packed E kernel = (v : Version) × IsVersion v × (kernel ≡ to_u32 E.little_endian v)

-- That each of the functions which read and write the files of /proc/sys/kernel leaves the cache as it is,
-- or fills it where it is empty.
abbrev pub KernelIsSettled : (E : Env) → AsyncProcfs E.File → Type 0
KernelIsSettled E procfs =
    KernelReads E procfs (λ A F m. Settled (Packed E) m)
    × KernelWrites E procfs (λ A F m. Settled (Packed E) m)

module _ (E : Env) (procfs : AsyncProcfs E.File) where
  cached_filled :
      (s : State E.World) (v : Version) (t : State E.World)
      → s.kernel ≡ 0
      → current E procfs s ≡ returned v t
      → Change (Packed E) s.kernel (state_of (cached E procfs s)).kernel
  cached_filled s v t zero e =
      rw (cached_miss E procfs s t v zero e)
        (inr (zero, (v, current-IsVersion E procfs s t v e, refl)))

  -- A read that did not return leaves the cache empty.
  cached_unfilled :
      (s : State E.World)
      → s.kernel ≡ 0
      → ((e : E.ProcError) × (t : State E.World) × (current E procfs s ≡ failed e t))
        ⊎ ((p : Text) × (t : State E.World) × (current E procfs s ≡ panicked p t))
      → (state_of (cached E procfs s)).kernel ≡ (state_of (current E procfs s)).kernel
  unfolding cached
  cached_unfilled s zero (inl (e, t, h)) = ground arith
  cached_unfilled s zero (inr (p, t, h)) = ground arith

  cached-Change :
      (s : State E.World) → Change (Packed E) s.kernel (state_of (cached E procfs s)).kernel
  cached-Change s = elim (Bool-cases (s.kernel == 0)) [
    | inr full ↦ rw (cached_hit E procfs s (λ e. ground arith)) (inl refl)
    | inl empty ↦
        let zero : s.kernel ≡ 0 = ground arith in
        elim (Run-cases (current E procfs s)) [
          | inl (v, t, e) ↦ cached_filled s v t zero e
          | inr stopped ↦ inl (cached_unfilled s zero stopped ∙ current_kernel E procfs s)
        ]
  ]

  pub cached-Settled : Settled (Packed E) (cached E procfs)
  cached-Settled = record { at = cached-Change }

  -- Whatever the files do, none of the functions that read and write the files of /proc/sys/kernel,
  -- however it ends, changes a cache that holds a version, and an empty cache is empty behind it or
  -- holds the packing of a version whose fields fit.
  pub kernel-Settled : KernelIsSettled E procfs
  kernel-Settled = (
    Closed-KernelReads (Closed-Settled E (Packed E)) procfs cached-Settled,
    Closed-KernelWrites (Closed-Settled E (Packed E)) procfs cached-Settled
        (Settled-Writes E (Packed E)),
  )
