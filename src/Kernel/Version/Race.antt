-- ===== src/Kernel/Version/Race.antt =====
-- `Version::cached` called by many tasks at once: each call loads `KERNEL`, reads the file if it saw
-- the sentinel, and stores what it read, and the steps of different calls interleave in any order.
-- Between them the world may change in any way. Each call has an instance of its own. Opening the file and
-- reading it is one step, since neither touches the static.
pub mod Invariant
pub mod Warm
use async_procfs.Prelude.{
  ℕ, ◌≡◌, ◌≢◌, ◌⊎◌, inl, inr, refl, sym, ◌∙◌, Result, ok, err, Run, returned, failed, panicked,
  state_of, Text, ap, ◌==◌, if◌then◌else◌, Bool-cases,
}
use async_procfs.Env.{Env}
use async_procfs.Machine.{State}
use async_procfs.Procfs.{AsyncProcfs}
use async_procfs.Kernel.Version.{Version, IsVersion, to_u32, from_u32, current, sentinel}
use async_procfs.Kernel.Version.Packing.{from_u32-to_u32}
use async_procfs.Kernel.Version.Cache.{current_kernel}

-- Where a call stands: before its load, before its read of the file, before its store, done, or
-- stopped by a panic.
pub data Phase (F : Type 0) : Type 0 where
  loading : Phase F
  reading : Phase F
  storing : ℕ → Phase F
  finished : Result Version F → Phase F
  crashed : Phase F

module _ (E : Env) (procfs : ℕ → AsyncProcfs E.File) where
  -- `procfs i` is the instance that call `i` is made with.
  abbrev pub Call : Type 0
  Call = Phase E.ProcError

  -- The shared state, and the phase of each call by its number.
  pub record System : Type 0 where
    pub shared : State E.World
    pub calls : ℕ → Call

  abbrev pub with_call : System → ℕ → Call → ℕ → Call
  with_call s i phase j = if i == j then phase else s.calls j

  pub data Step (s : System) : System → Type 0 where
    load_full :
        (i : ℕ)
        → s.calls i ≡ loading
        → s.shared.kernel ≢ sentinel E
        → Step s (record s {
          calls = with_call s i (finished (ok (from_u32 E.little_endian s.shared.kernel)));
        })
    load_empty :
        (i : ℕ)
        → s.calls i ≡ loading
        → s.shared.kernel ≡ sentinel E
        → Step s (record s { calls = with_call s i reading })
    read :
        (i : ℕ) (v : Version) (t : State E.World)
        → s.calls i ≡ reading
        → current E (procfs i) s.shared ≡ returned v t
        → Step s (record { shared = t; calls = with_call s i (storing (to_u32 E.little_endian v)) })
    read_failed :
        (i : ℕ) (e : E.ProcError) (t : State E.World)
        → s.calls i ≡ reading
        → current E (procfs i) s.shared ≡ failed e t
        → Step s (record { shared = t; calls = with_call s i (finished (err e)) })
    read_panicked :
        (i : ℕ) (p : Text) (t : State E.World)
        → s.calls i ≡ reading
        → current E (procfs i) s.shared ≡ panicked p t
        → Step s (record { shared = t; calls = with_call s i crashed })
    store :
        (i k : ℕ)
        → s.calls i ≡ storing k
        → Step s (record {
          shared = record (s.shared) { kernel = k };
          calls = with_call s i (finished (ok (from_u32 E.little_endian k)));
        })
    outside : (w : E.World) → Step s (record s { shared = record (s.shared) { world = w } })

  pub data Reach (s : System) : System → Type 0 where
    here : Reach s s
    next : {t u : System} → Reach s t → Step t u → Reach s u

  -- Every call starts at its load, with the cache empty.
  abbrev pub initial : E.World → System
  initial w = record { shared = record { world = w; kernel = sentinel E }; calls = λ _. loading }
