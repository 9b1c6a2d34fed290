-- ===== src/Kernel/Limits/Threads.antt =====
-- `set_threads_max`: when the limit is refused, and what happens otherwise.
use async_procfs.Prelude.{
  ℕ, ◌≤◌, ◌<◌, ◌≡◌, ◌≢◌, ◌⊎◌, inl, inr, arith, Text, codes, Run, returned, failed, panicked,
  state_of, Run-cases,
}
use async_procfs.Std.Ints.{show_uint}
use async_procfs.Env.{Env}
use async_procfs.Machine.{State}
use async_procfs.Procfs.{AsyncProcfs}
use async_procfs.Helpers.{write_value}
use async_procfs.Kernel.Version.{Version, cached}
use async_procfs.Kernel.Limits.{
  refuses, set_threads_max, threads_error, threads_min, threads_max_limit,
}

-- What a call does where the limit is written, from the state in which it is written.
abbrev pub writes_limit :
    (E : Env) → AsyncProcfs E.File → ℕ → State E.World → Run (Unit {0}) E.ProcError (State E.World)
writes_limit E procfs n = write_value E show_uint procfs (codes "sys/kernel/threads-max") n

module _ (E : Env) (procfs : AsyncProcfs E.File) (s : State E.World) (n : ℕ) where
  -- Where the kernel's version is known, with a major version of at least 4 and a minor version of at
  -- least 1, a limit below `THREADS_MIN` or above `THREADS_MAX` is refused with the error that names
  -- it, and nothing happens after the version was determined.
  pub set_threads_max_refused :
      (t : State E.World) (v : Version)
      → cached E procfs s ≡ returned v t
      → 4 ≤ v.major
      → 1 ≤ v.minor
      → (n < threads_min) ⊎ (threads_max_limit < n)
      → set_threads_max E procfs n s ≡ failed (threads_error E n) t
  unfolding set_threads_max refuses
  set_threads_max_refused t v h major minor outside = ground arith

  -- A limit from `THREADS_MIN` to `THREADS_MAX` is written whatever the version is, and also where the
  -- version cannot be determined, unless determining it panics.
  pub set_threads_max_in_range :
      threads_min ≤ n
      → n ≤ threads_max_limit
      → ((p : Text) (t : State E.World) → cached E procfs s ≢ panicked p t)
      → set_threads_max E procfs n s ≡ writes_limit E procfs n (state_of (cached E procfs s))
  unfolding set_threads_max refuses
  set_threads_max_in_range low high calm = elim (Run-cases (cached E procfs s)) [
    | inl (v, t, e) ↦ ground arith
    | inr (inl (f, t, e)) ↦ ground arith
    | inr (inr (p, t, e)) ↦ absurd (calm p t e)
  ]

  -- Where the kernel's major version is at least 5 and its minor version is 0, which is later than
  -- 4.1, every limit is written, also one below `THREADS_MIN` or above `THREADS_MAX`.
  pub set_threads_max_unchecked :
      (t : State E.World) (v : Version)
      → cached E procfs s ≡ returned v t
      → 5 ≤ v.major
      → v.minor ≡ 0
      → set_threads_max E procfs n s ≡ writes_limit E procfs n t
  unfolding set_threads_max refuses
  set_threads_max_unchecked t v h major minor = ground arith
