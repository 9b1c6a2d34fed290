-- ===== src/SystemInfo/BootTime.antt =====
-- The boot time: what is read, and the function which is not asynchronous.
use async_procfs.Prelude.{
  ℕ, ◌<◌, ◌^◌, ◌≡◌, ◌≢◌, ◌⊎◌, ℤ, pos, Bytes, Text, codes, Option, some, Result, ok, returned,
  panicked, arith,
}
use async_procfs.Env.{Env}
use async_procfs.Machine.{M, State}
use async_procfs.Procfs.{AsyncProcfs, read_options, current_with_system_info}
use async_procfs.Runtime.{Surroundings, Blocks, other_flavor, multi_thread, execute_future_lem}
use async_procfs.SystemInfo.{
  AsyncLocalSystemInfo, current_system_info, current_si, kernel_stats, boot_time_secs,
  async_boot_time_secs, sync_boot_time_secs, boot_time, as_i64,
}

as_i64_small : (secs : ℕ) → secs < 2 ^ 63 → as_i64 secs ≡ pos secs
as_i64_small secs small = ground arith

module _ (E : Env) {KernelStats LoadAverage : Type 0} (btime : KernelStats → ℕ)
    (stats_from_read : Bytes → AsyncLocalSystemInfo E.File → M E KernelStats)
    (load_from_read : Bytes → Result LoadAverage E.ProcError) (procfs : AsyncProcfs E.File)
    (s : State E.World) where
  module _ (w₁ w₂ : E.World) (file : E.File) (n : ℕ) (buf : Bytes)
      (opened : E.open_at procfs.file (codes "stat") (read_options E) s.world ≡ returned file w₁)
      (read : E.read_to_end file w₁ ≡ returned (n, buf) w₂) where
    kernel_stats_lem :
        kernel_stats E btime stats_from_read load_from_read procfs s
        ≡ stats_from_read buf (current_system_info procfs) (record s { world = w₂ })
    unfolding kernel_stats current_si current_with_system_info
    kernel_stats_lem = ground arith

    -- Where the file `stat` can be opened and read, its parser returns statistics whose boot time is
    -- less than 2 ^ 63 seconds, and that time stamp has one local date, `boot_time` returns the date.
    pub boot_time_lem :
        {Date : Type 0} (timestamp : ℤ → Option Date) (date : Date) (stats : KernelStats)
        (t : State E.World)
        → stats_from_read buf (current_system_info procfs) (record s { world = w₂ })
          ≡ returned stats t
        → btime stats < 2 ^ 63
        → timestamp (pos (btime stats)) ≡ some date
        → boot_time E btime stats_from_read load_from_read timestamp procfs s ≡ returned date t
    unfolding boot_time boot_time_secs
    boot_time_lem timestamp date stats t parsed small dated =
        rw (kernel_stats_lem, parsed) (rw (as_i64_small (btime stats) small, dated))

  -- Where `block_on` in a thread of its own runs the reading of the boot time to its end, as it does
  -- inside `block_in_place` for a caller that is on no runtime of one thread; where a runtime can be
  -- built, or the caller is on a multi-threaded one, and not on one of an unknown flavor; and where
  -- that reading does not panic, the method that is not asynchronous gives the outcome and the state
  -- of the asynchronous function.
  pub sync_boot_time_lem :
      (r : Surroundings ℕ E.ProcError (State E.World))
      → Blocks r (boot_time_secs E btime stats_from_read load_from_read procfs)
      → ((name : Text) → r.handle ≢ some (other_flavor name))
      → (r.build ≡ ok tt) ⊎ (r.handle ≡ some multi_thread)
      → ((p : Text) (t : State E.World)
          → boot_time_secs E btime stats_from_read load_from_read procfs s ≢ panicked p t)
      → sync_boot_time_secs E btime stats_from_read load_from_read r (current_system_info procfs) s
        ≡ boot_time_secs E btime stats_from_read load_from_read procfs s
  unfolding sync_boot_time_secs async_boot_time_secs
  sync_boot_time_lem r blocks known built calm =
      execute_future_lem r (boot_time_secs E btime stats_from_read load_from_read procfs) blocks s
        known built calm
