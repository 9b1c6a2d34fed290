-- ===== src/Kernel/Version/Race/Warm.antt =====
-- Calls of `Version::cached` that begin after another one has returned a version.
use async_procfs.Prelude.{
  ℕ, ◌≡◌, ◌≢◌, ◌⊎◌, inl, inr, refl, subst, ok, err, returned, ◌==◌, Bool-cases, arith,
}
use async_procfs.Env.{Env}
use async_procfs.Machine.{State}
use async_procfs.Procfs.{AsyncProcfs}
use async_procfs.Kernel.Version.{Version, version, to_u32, from_u32, current}
use async_procfs.Kernel.Version.Packing.{to_u32_fits}
use async_procfs.Kernel.Version.Cache.{current-IsVersion}
use async_procfs.Kernel.Version.Race.{
  Call, loading, reading, storing, finished, crashed, System, with_call, Step, load_full,
  load_empty, read, read_failed, read_panicked, store, outside, Reach, here, next, initial,
}
use async_procfs.Kernel.Version.Race.Invariant.{read_cache}

module _ (E : Env) (procfs : ℕ → AsyncProcfs E.File)
    (known : (i : ℕ) (s t : State E.World) (v : Version)
      → current E (procfs i) s ≡ returned v t
      → v ≢ version 0 0 0) where
  -- What is stored is not the sentinel, and the static is full once a call has returned a version.
  abbrev Fills : Call E procfs → ℕ → Type 0
  Fills loading kernel = Unit
  Fills reading kernel = Unit
  Fills (storing k) kernel = k ≢ 0
  Fills (finished (ok v)) kernel = kernel ≢ 0
  Fills (finished (err e)) kernel = Unit
  Fills crashed kernel = Unit

  abbrev AllFill : System E procfs → Type 0
  AllFill s = (j : ℕ) → Fills (s.calls j) s.shared.kernel

  -- A full static, or the same one, serves a call no worse.
  Fills-full : (phase : Call E procfs) (k l : ℕ) → l ≢ 0 → Fills phase k → Fills phase l
  Fills-full loading k l full h = tt
  Fills-full reading k l full h = tt
  Fills-full (storing n) k l full h = h
  Fills-full (finished (ok v)) k l full h = full
  Fills-full (finished (err e)) k l full h = tt
  Fills-full crashed k l full h = tt

  with_call-Fills :
      (s : System E procfs) (i : ℕ) (phase : Call E procfs) (kernel : ℕ)
      → ((j : ℕ) → Fills (s.calls j) kernel)
      → Fills phase kernel
      → (j : ℕ) → Fills (with_call E procfs s i phase j) kernel
  with_call-Fills s i phase kernel h a j = elim (Bool-cases (i == j)) [
    | inl same ↦ rw same a
    | inr other ↦ rw other (h j)
  ]

  packed :
      (i : ℕ) (s t : State E.World) (v : Version)
      → current E (procfs i) s ≡ returned v t
      → to_u32 E.little_endian v ≢ 0
  packed i s t v e zero =
      known i s t v e
        ((to_u32_fits E.little_endian v (current-IsVersion E (procfs i) s t v e)).1.0 zero)

  -- What holds with the cache of `s` holds with that of `t`, which a read has left as it was.
  after_read :
      (s : System E procfs) (t : State E.World)
      → t.kernel ≡ s.shared.kernel
      → AllFill s
      → (j : ℕ) → Fills (s.calls j) t.kernel
  after_read s t same h j = rw same (h j)

  Step-AllFill : {s t : System E procfs} → Step E procfs s t → AllFill s → AllFill t
  Step-AllFill {s} (load_full i at full) h = with_call-Fills s i _ _ h full
  Step-AllFill {s} (load_empty i at empty) h = with_call-Fills s i reading _ h tt
  Step-AllFill {s} (read i v t at e) h =
      with_call-Fills s i (storing (to_u32 E.little_endian v)) t.kernel
        (after_read s t (read_cache E procfs (λ _. Unit) i s.shared t _ e refl) h)
        (packed i s.shared t v e)
  Step-AllFill {s} (read_failed i e t at f) h =
      with_call-Fills s i (finished (err e)) t.kernel
        (after_read s t (read_cache E procfs (λ _. Unit) i s.shared t _ f refl) h) tt
  Step-AllFill {s} (read_panicked i p t at f) h =
      with_call-Fills s i crashed t.kernel
        (after_read s t (read_cache E procfs (λ _. Unit) i s.shared t _ f refl) h) tt
  Step-AllFill {s} (store i k at) h =
      let full : k ≢ 0 = rw at at (h i) in
      with_call-Fills s i (finished (ok (from_u32 E.little_endian k))) k
        (λ j. Fills-full (s.calls j) s.shared.kernel k full (h j)) full
  Step-AllFill (outside w) h = h

  Reach-AllFill : {s t : System E procfs} → Reach E procfs s t → AllFill s → AllFill t
  Reach-AllFill here h = h
  Reach-AllFill (next r step) h = Step-AllFill step (Reach-AllFill r h)

  -- A full static stays full.
  Step-full :
      {s t : System E procfs}
      → Step E procfs s t
      → AllFill s
      → s.shared.kernel ≢ 0
      → t.shared.kernel ≢ 0
  Step-full (load_full i at full) h k = k
  Step-full (load_empty i at empty) h k = k
  Step-full {s} (read i v t at e) h k = rw (read_cache E procfs (λ _. Unit) i s.shared t _ e refl) k
  Step-full {s} (read_failed i e t at f) h k =
      rw (read_cache E procfs (λ _. Unit) i s.shared t _ f refl) k
  Step-full {s} (read_panicked i p t at f) h k =
      rw (read_cache E procfs (λ _. Unit) i s.shared t _ f refl) k
  Step-full {s} (store i n at) h k = rw at at (h i)
  Step-full (outside w) h k = k

  -- A call that has not begun, or has returned a version.
  abbrev Served : Call E procfs → Type 0
  Served phase = (phase ≡ loading) ⊎ ((u : Version) × (phase ≡ finished (ok u)))

  with_call-Served :
      (s : System E procfs) (i j : ℕ) (phase : Call E procfs)
      → ((i ≡ j) → Served phase)
      → Served (s.calls j)
      → Served (with_call E procfs s i phase j)
  with_call-Served s i j phase a h = elim (Bool-cases (i == j)) [
    | inl same ↦ rw same (a (ground arith))
    | inr other ↦ rw other h
  ]

  -- Such a call does not read, nor store.
  not_Served :
      (s : System E procfs) (i j : ℕ) (phase : Call E procfs)
      → s.calls i ≡ phase
      → (Served phase → ⊥)
      → Served (s.calls j)
      → (i ≡ j)
      → ⊥
  not_Served s i j phase at bad h same =
      bad (subst (λ (c : Call E procfs). Served c) at (rw same h))

  Step-Served :
      {s t : System E procfs} (j : ℕ)
      → Step E procfs s t
      → s.shared.kernel ≢ 0
      → Served (s.calls j)
      → Served (t.calls j)
  Step-Served {s} j (load_full i at full) k h =
      with_call-Served s i j _ (λ e. inr (from_u32 E.little_endian s.shared.kernel, refl)) h
  Step-Served {s} j (load_empty i at empty) k h = absurd (k empty)
  Step-Served {s} j (read i v t at e) k h =
      with_call-Served s i j _ (λ e. absurd (not_Served s i j reading at (λ b. ground arith) h e)) h
  Step-Served {s} j (read_failed i x t at f) k h =
      with_call-Served s i j _ (λ e. absurd (not_Served s i j reading at (λ b. ground arith) h e)) h
  Step-Served {s} j (read_panicked i p t at f) k h =
      with_call-Served s i j _ (λ e. absurd (not_Served s i j reading at (λ b. ground arith) h e)) h
  Step-Served {s} j (store i n at) k h =
      with_call-Served s i j _
        (λ e. absurd (not_Served s i j (storing n) at (λ b. ground arith) h e)) h
  Step-Served j (outside w) k h = h

  Reach-Served :
      {s t : System E procfs}
      → Reach E procfs s t
      → AllFill s
      → s.shared.kernel ≢ 0
      → (t.shared.kernel ≢ 0) × ((j : ℕ) → s.calls j ≡ loading → Served (t.calls j))
  Reach-Served here h k = (k, λ j e. inl e)
  Reach-Served (next r step) h k =
      let (full, served) = Reach-Served r h k in
      (Step-full step (Reach-AllFill r h) full, λ j e. Step-Served j step full (served j e))

  -- Where no file yields the version 0.0.0: once some call has returned a version, in whatever
  -- interleaving of calls and changes of the world, then whatever happens further, the static holds a version,
  -- and a call that had not begun then has not begun or has returned a version: it does not read the file,
  -- and it does not fail or panic.
  pub race_warm :
      (w : E.World) (s t : System E procfs) (i : ℕ) (v : Version)
      → Reach E procfs (initial E procfs w) s
      → s.calls i ≡ finished (ok v)
      → Reach E procfs s t
      → (t.shared.kernel ≢ 0)
        × ((j : ℕ)
            → s.calls j ≡ loading
            → (t.calls j ≡ loading) ⊎ ((u : Version) × (t.calls j ≡ finished (ok u))))
  race_warm w s t i v before at after =
      let fills = Reach-AllFill before (λ j. tt) in Reach-Served after fills (rw at at (fills i))
