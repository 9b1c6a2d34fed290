-- ===== src/Kernel/Version/Cache.antt =====
-- `Version::cached` called again and again.
use async_procfs.Prelude.{
  ◌≡◌, ◌≢◌, ◌∙◌, ap, ◌⊎◌, inl, inr, returned, failed, panicked, Run-cases, state_of, arith, Text,
  ◌==◌, Bool-cases, codes,
}
use async_procfs.Std.Strings.{trim}
use async_procfs.Env.{Env}
use async_procfs.Machine.{State}
use async_procfs.Procfs.{AsyncProcfs}
use async_procfs.Helpers.Values.{read_value_parsed, read_value_kernel}
use async_procfs.Kernel.Version.{
  Version, version, IsVersion, to_u32, from_u32, from_str, current, cached,
}
use async_procfs.Kernel.Version.Packing.{from_u32-to_u32, to_u32_fits}
use async_procfs.Kernel.Version.Parse.{from_str-IsVersion}

hit_of :
    (E : Env) (procfs : AsyncProcfs E.File) (s : State E.World)
    → s.kernel ≢ 0
    → cached E procfs s ≡ returned (from_u32 E.little_endian s.kernel) s
unfolding cached
hit_of E procfs s h = ground arith

module _ (E : Env) (procfs : AsyncProcfs E.File) where
  -- A version that `current` returns fits its fields, and reading it leaves the cache alone.
  pub current-IsVersion :
      (s t : State E.World) (v : Version) → current E procfs s ≡ returned v t → IsVersion v
  unfolding current
  current-IsVersion s t v h =
      let (text, p, q) =
        read_value_parsed E from_str E.from_message procfs (codes "sys/kernel/osrelease") s t v h in
      from_str-IsVersion (trim text) q

  pub current_kernel : (s : State E.World) → (state_of (current E procfs s)).kernel ≡ s.kernel
  unfolding current
  current_kernel s =
      read_value_kernel E from_str E.from_message procfs (codes "sys/kernel/osrelease") s

  -- With a full cache the packed version is returned and nothing is read or written.
  pub cached_hit :
      (s : State E.World)
      → s.kernel ≢ 0
      → cached E procfs s ≡ returned (from_u32 E.little_endian s.kernel) s
  cached_hit = hit_of E procfs

  -- With an empty cache the version that is read is returned and stored.
  pub cached_miss :
      (s t : State E.World) (v : Version)
      → s.kernel ≡ 0
      → current E procfs s ≡ returned v t
      → cached E procfs s ≡ returned v (record t { kernel = to_u32 E.little_endian v })
  unfolding cached
  cached_miss s t v h e =
      ground (arith, from_u32-to_u32 E.little_endian v (current-IsVersion s t v e))

  cached_stopped :
      (s : State E.World)
      → s.kernel ≡ 0
      → ((e : E.ProcError) × (t : State E.World) × (current E procfs s ≡ failed e t))
        ⊎ ((p : Text) × (t : State E.World) × (current E procfs s ≡ panicked p t))
      → (v : Version) (t : State E.World) → cached E procfs s ≢ returned v t
  unfolding cached
  cached_stopped s zero (inl (e, u, h)) v t k = ground arith
  cached_stopped s zero (inr (p, u, h)) v t k = ground arith

  -- A version other than 0.0.0 that was returned is in the cache.
  cached_keeps :
      (s t : State E.World) (v : Version)
      → cached E procfs s ≡ returned v t
      → v ≢ version 0 0 0
      → (t.kernel ≢ 0) × (from_u32 E.little_endian t.kernel ≡ v)
  cached_keeps s t v h nonzero = elim (Bool-cases (s.kernel == 0)) [
    | inr full ↦
        let hit = cached_hit s (λ e. ground arith) in
        let same : s ≡ t = cc (hit, h) in ((λ e. ground arith), cc (hit, h, same))
    | inl empty ↦
        let zero : s.kernel ≡ 0 = ground arith in
        elim (Run-cases (current E procfs s)) [
          | inl (w, u, e) ↦
              let miss = cached_miss s u w zero e in
              let packed = to_u32_fits E.little_endian w (current-IsVersion s u w e) in
              let unpacked = from_u32-to_u32 E.little_endian w (current-IsVersion s u w e) in
              ground arith
          | inr stopped ↦ absurd (cached_stopped s zero stopped v t h)
        ]
  ]

  -- Once a version other than 0.0.0 was returned, the next call returns it too, also for another instance,
  -- whatever its files hold, and neither opens a file nor changes the state.
  pub cached_shared :
      (other : AsyncProcfs E.File) (s t : State E.World) (v : Version)
      → cached E procfs s ≡ returned v t
      → v ≢ version 0 0 0
      → cached E other t ≡ returned v t
  cached_shared other s t v h nonzero =
      let (full, unpacked) = cached_keeps s t v h nonzero in
      hit_of E other t full ∙ ap (λ (x : Version). returned x t) unpacked

  -- The same for one instance.
  pub cached-cached :
      (s t : State E.World) (v : Version)
      → cached E procfs s ≡ returned v t
      → v ≢ version 0 0 0
      → cached E procfs t ≡ returned v t
  cached-cached = cached_shared procfs
