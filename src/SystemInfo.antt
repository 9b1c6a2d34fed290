-- ===== src/SystemInfo.antt =====
-- src/system_info.rs: `AsyncLocalSystemInfo` and what it reads; with the two implementations of the
-- traits of src/lib.rs. `KernelStats` and `LoadAverage` belong to `procfs_core`, which gives their
-- `from_read`; the clock's ticks and the size of a page come from `rustix::param`, and a time stamp's
-- date from chrono.
pub mod BootTime
use async_procfs.Prelude.{
  ℕ, ◌%◌, ◌^◌, ◌-◌, ltb, if◌then◌else◌, ℤ, pos, negsuc, Option, ok_or, of_result, Bool, true, false,
  ◌≡◌, refl, [], ◌∷◌, Bytes, codes, text_eq, Result, ◌>>=◌, pure,
}
use async_procfs.Std.Bytes.{from_ne_bytes, to_le_bytes}
use async_procfs.Env.{Env}
use async_procfs.Machine.{M, State}
use async_procfs.Procfs.{AsyncProcfs, current, current_with_system_info}
use async_procfs.Runtime.{Surroundings, execute_future_from_sync}

pub record AsyncLocalSystemInfo (File : Type 0) : Type 0 where
  pub inner : AsyncProcfs File

abbrev pub current_system_info : {File : Type 0} → AsyncProcfs File → AsyncLocalSystemInfo File
current_system_info procfs = record { inner = procfs }

-- `ticks_per_second` and `page_size`, functions of what `rustix::param` returns; the latter casts a
-- `usize` to a `u64`. The methods
-- of `AsyncLocalSystemInfo` of these names, `si_ticks_per_second` and `si_page_size`, call them.
unfoldable pub ticks_per_second : ℕ → ℕ
ticks_per_second clock_ticks_per_second = clock_ticks_per_second

unfoldable pub page_size : ℕ → ℕ
page_size size = size % 2 ^ 64

abbrev pub si_ticks_per_second : {File : Type 0} → ℕ → AsyncLocalSystemInfo File → ℕ
si_ticks_per_second clock_ticks_per_second si = ticks_per_second clock_ticks_per_second

abbrev pub si_page_size : {File : Type 0} → ℕ → AsyncLocalSystemInfo File → ℕ
si_page_size size si = page_size size

-- `secs as i64`.
abbrev pub as_i64 : ℕ → ℤ
as_i64 secs =
    if ltb (secs % 2 ^ 64) (2 ^ 63)
    then pos (secs % 2 ^ 64)
    else negsuc (2 ^ 64 - secs % 2 ^ 64 - 1)

-- `u16::from_ne_bytes([0, 1]).to_le_bytes() == [0, 1]`, on a target of either byte order.
unfoldable pub is_little_endian : Bool → Bool
is_little_endian little = text_eq (to_le_bytes 2 (from_ne_bytes little (0 ∷ 1 ∷ []))) (0 ∷ 1 ∷ [])

-- The test answers the target's byte order.
pub is_little_endian_lem : (little : Bool) → is_little_endian little ≡ little
unfolding is_little_endian from_ne_bytes to_le_bytes
is_little_endian_lem true = refl
is_little_endian_lem false = refl

module _ (E : Env) where
  -- `AsyncCurrentSI::current`.
  unfoldable pub current_si :
      {T : Type 0}
      → Bytes
      → (Bytes → AsyncLocalSystemInfo E.File → M E T)
      → AsyncProcfs E.File
      → M E T
  current_si relative_path from_read procfs =
      current_with_system_info E relative_path from_read procfs (current_system_info procfs)

  module _ {KernelStats LoadAverage : Type 0} (btime : KernelStats → ℕ)
      (stats_from_read : Bytes → AsyncLocalSystemInfo E.File → M E KernelStats)
      (load_from_read : Bytes → Result LoadAverage E.ProcError) where
    unfoldable pub kernel_stats : AsyncProcfs E.File → M E KernelStats
    kernel_stats procfs = current_si (codes "stat") stats_from_read procfs

    unfoldable pub load_average : AsyncProcfs E.File → M E LoadAverage
    load_average procfs = current E (codes "loadavg") load_from_read procfs

    unfoldable pub boot_time_secs : AsyncProcfs E.File → M E ℕ
    boot_time_secs procfs = do stat ← kernel_stats procfs; pure (btime stat)

    unfoldable pub async_boot_time_secs : AsyncLocalSystemInfo E.File → M E ℕ
    async_boot_time_secs si = boot_time_secs si.inner

    -- `SystemInfoInterface::boot_time_secs`, which is not asynchronous.
    unfoldable pub sync_boot_time_secs :
        Surroundings ℕ E.ProcError (State E.World) → AsyncLocalSystemInfo E.File → M E ℕ
    sync_boot_time_secs r si = execute_future_from_sync r (async_boot_time_secs si)

    -- `boot_time`, by what `chrono::Local.timestamp_opt(…, 0).single()` gives for a number of seconds.
    unfoldable pub boot_time : {Date : Type 0} → (ℤ → Option Date) → AsyncProcfs E.File → M E Date
    boot_time timestamp procfs = do
      secs ← boot_time_secs procfs
      of_result (
          ok_or (E.internal_error (codes "chrono::Local.timestamp_opt(secs as i64, 0).single()"))
            (timestamp (as_i64 secs)))
