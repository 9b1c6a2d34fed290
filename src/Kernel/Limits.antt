-- ===== src/Kernel/Limits.antt =====
-- src/sys/kernel/mod.rs: the functions on single numbers (`pid_max`, `shmmax`, `threads_max`, …).
pub mod Threads
pub mod Read
pub mod Release
pub mod Shm
use async_procfs.Prelude.{
  ℕ, Bool, true, false, not, ◌&&◌, ◌++◌, Text, codes, leb, if◌then◌else◌, ℤ, Result, ok, err, Run,
  attempt, throw, ◌>>=◌,
}
use async_procfs.Std.Ints.{parse_uint, parse_int, show_uint}
use async_procfs.Env.{Env}
use async_procfs.Machine.{M}
use async_procfs.Procfs.{AsyncProcfs}
use async_procfs.Helpers.{read_value, write_value}
use async_procfs.Kernel.Version.{Version, cached}

abbrev pub threads_min : ℕ
threads_min = 20

abbrev pub threads_max_limit : ℕ
threads_max_limit = 0x3fff_ffff

-- The condition of `set_threads_max` on the result of `Version::cached`.
unfoldable pub refuses : {F : Type 0} → Result Version F → ℕ → Bool
refuses (err e) new_limit = false
refuses (ok kernel) new_limit =
    leb 4 kernel.major
    && leb 1 kernel.minor
    && not (leb threads_min new_limit && leb new_limit threads_max_limit)

module _ (E : Env) where
  unfoldable pub pid_max : AsyncProcfs E.File → M E ℤ
  pid_max procfs = read_value E (parse_int 32) E.from_parse_int procfs (codes "sys/kernel/pid_max")

  unfoldable pub shmall : AsyncProcfs E.File → M E ℕ
  shmall procfs = read_value E (parse_uint 64) E.from_parse_int procfs (codes "sys/kernel/shmall")

  unfoldable pub shmmax : AsyncProcfs E.File → M E ℕ
  shmmax procfs = read_value E (parse_uint 64) E.from_parse_int procfs (codes "sys/kernel/shmmax")

  unfoldable pub set_shmmax : AsyncProcfs E.File → ℕ → M E (Unit {0})
  set_shmmax procfs new_value = write_value E show_uint procfs (codes "sys/kernel/shmmax") new_value

  unfoldable pub shmmni : AsyncProcfs E.File → M E ℕ
  shmmni procfs = read_value E (parse_uint 64) E.from_parse_int procfs (codes "sys/kernel/shmmni")

  unfoldable pub threads_max : AsyncProcfs E.File → M E ℕ
  threads_max procfs =
      read_value E (parse_uint 32) E.from_parse_int procfs (codes "sys/kernel/threads-max")

  abbrev pub threads_error : ℕ → E.ProcError
  threads_error new_limit =
      E.other_error (show_uint new_limit ++ codes " is outside the THREADS_MIN..=THREADS_MAX range")

  unfoldable pub set_threads_max : AsyncProcfs E.File → ℕ → M E (Unit {0})
  set_threads_max procfs new_limit = do
    kernel ← attempt (cached E procfs)
    if refuses kernel new_limit
        then throw (threads_error new_limit)
        else write_value E show_uint procfs (codes "sys/kernel/threads-max") new_limit
