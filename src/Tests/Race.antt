-- ===== src/Tests/Race.antt =====
-- Two calls of `Version::cached` at once.
use async_procfs.Std.Chars.{is_whitespace, to_digit}
use async_procfs.Std.Strings.{trim}
use async_procfs.Helpers.{read_file, read_value}
use async_procfs.Prelude.{ℕ, Mem, ◌≡◌, ◌≢◌, ◌⊎◌, refl, arith, true, [], Text, codes, ok, returned}
use async_procfs.Env.{Env}
use async_procfs.Env.Memory.{memory, Disk}
use async_procfs.Machine.{State}
use async_procfs.Procfs.{AsyncProcfs}
use async_procfs.Kernel.Version.{Version, version, IsVersion, to_u32, from_u32, current, from_str}
use async_procfs.Kernel.Version.Race.{
  loading, reading, storing, finished, System, with_call, load_full, load_empty, read, store, Reach,
  here, next, initial,
}
use async_procfs.Kernel.Version.Race.Invariant.{versions_read, race_returns_read}
use async_procfs.Kernel.Version.Race.Warm.{race_warm}

abbrev procfs : AsyncProcfs Text
procfs = record { file = codes "/proc"; root = codes "/proc" }

-- All calls are made with one instance.
abbrev shared_procfs : ℕ → AsyncProcfs Text
shared_procfs i = procfs

-- A world in which every file can be opened and names one version.
abbrev steady : Env
steady = record memory {
  open_at = λ base p o d. returned p d;
  hybrid_read_to_string = λ f d. returned (codes "6.1.300-13\n") d;
}

abbrev debian : Version
debian = version 6 1 300

current-steady : (s : State Disk) → current steady procfs s ≡ returned debian s
unfolding current read_value read_file from_str trim is_whitespace to_digit
current-steady s = refl

abbrev empty_disk : Disk
empty_disk = record { files = []; links = []; dirs = []; stats = [] }

-- Both calls load the sentinel and read the file; call 0 stores, then call 1 does.
abbrev loaded₀ : System steady shared_procfs
loaded₀ = record (initial steady shared_procfs empty_disk) {
  calls = with_call steady shared_procfs (initial steady shared_procfs empty_disk) 0 reading;
}

abbrev loaded₁ : System steady shared_procfs
loaded₁ = record loaded₀ { calls = with_call steady shared_procfs loaded₀ 1 reading }

abbrev packed : ℕ
packed = to_u32 true debian

abbrev read₀ : System steady shared_procfs
read₀ = record loaded₁ { calls = with_call steady shared_procfs loaded₁ 0 (storing packed) }

abbrev read₁ : System steady shared_procfs
read₁ = record read₀ { calls = with_call steady shared_procfs read₀ 1 (storing packed) }

abbrev stored₀ : System steady shared_procfs
stored₀ = record {
  shared = record { world = empty_disk; kernel = packed };
  calls = with_call steady shared_procfs read₁ 0 (finished (ok (from_u32 true packed)));
}

abbrev stored₁ : System steady shared_procfs
stored₁ = record stored₀ {
  calls = with_call steady shared_procfs stored₀ 1 (finished (ok (from_u32 true packed)));
}

both_ran : Reach steady shared_procfs (initial steady shared_procfs empty_disk) stored₁
both_ran =
    next
      (next
        (next
          (next (next (next here (load_empty 0 refl refl)) (load_empty 1 refl refl)) (
            read 0 debian (initial steady shared_procfs empty_disk).shared refl (current-steady _)))
          (read 1 debian (initial steady shared_procfs empty_disk).shared refl (current-steady _)))
        (store 0 packed refl))
      (store 1 packed refl)

race_returns_read_example :
    ((i : ℕ) (u : Version)
      → stored₁.calls i ≡ finished (ok u)
      → Mem u (versions_read steady shared_procfs both_ran))
    × ((stored₁.shared.kernel ≡ 0)
        ⊎ ((v : Version) × IsVersion v
            × Mem v (versions_read steady shared_procfs both_ran)
            × (stored₁.shared.kernel ≡ to_u32 true v)))
race_returns_read_example = race_returns_read steady shared_procfs empty_disk stored₁ both_ran

-- A third call, which has not begun when the others have returned, loads the static.
abbrev loaded₂ : System steady shared_procfs
loaded₂ = record stored₁ {
  calls = with_call steady shared_procfs stored₁ 2 (finished (ok (from_u32 true packed)));
}

third_runs : Reach steady shared_procfs stored₁ loaded₂
unfolding to_u32
third_runs = next here (load_full 2 refl (λ e. cc))

steady_reads :
    (i : ℕ) (s t : State Disk) (v : Version)
    → current steady (shared_procfs i) s ≡ returned v t
    → v ≢ version 0 0 0
steady_reads i s t v h e = ground (arith, current-steady s)

race_warm_example :
    (loaded₂.shared.kernel ≢ 0)
    × ((j : ℕ)
        → stored₁.calls j ≡ loading
        → (loaded₂.calls j ≡ loading) ⊎ ((u : Version) × (loaded₂.calls j ≡ finished (ok u))))
race_warm_example =
    race_warm steady shared_procfs steady_reads empty_disk stored₁ loaded₂ 0 (from_u32 true packed)
      both_ran refl third_runs
