-- ===== src/Kernel/SysRq.antt =====
-- src/sys/kernel/mod.rs: `AllowedFunctions` and `SysRq`, the content of /proc/sys/kernel/sysrq.
pub mod RoundTrip
pub mod Grammar
use async_procfs.Prelude.{
  ℕ, ◌+◌, ◌≡◌, Bool, Option, none, some, Text, codes, ◌==◌, if◌then◌else◌, bit_and, Result, ok, err,
  map_err, ok_or, ◌>>=?◌, ℤ,
}
use async_procfs.Std.Ints.{parse_uint, show_uint}
use async_procfs.Env.{Env}
use async_procfs.Machine.{M}
use async_procfs.Procfs.{AsyncProcfs}
use async_procfs.Helpers.{read_value, write_value}

-- The constants of `AllowedFunctions`, and their union, which is what `from_bits` accepts bits of.
abbrev pub all_functions : ℕ
all_functions =
    let enable_control_log_level : ℕ = 2 in
    let enable_control_keyboard : ℕ = 4 in
    let enable_debugging_dumps : ℕ = 8 in
    let enable_sync_command : ℕ = 16 in
    let enable_remount_read_only : ℕ = 32 in
    let enable_signaling_processes : ℕ = 64 in
    let allow_reboot_poweroff : ℕ = 128 in
    let allow_nicing_real_time_tasks : ℕ = 256 in
    enable_control_log_level + enable_control_keyboard + enable_debugging_dumps
    + enable_sync_command + enable_remount_read_only + enable_signaling_processes
    + allow_reboot_poweroff + allow_nicing_real_time_tasks

-- An `AllowedFunctions` is its bits.
pub data SysRq : Type 0 where
  disable enable : SysRq
  allowed_functions : ℕ → SysRq

unfoldable pub to_number : SysRq → ℕ
to_number disable = 0
to_number enable = 1
to_number (allowed_functions bits) = bits

module _ (E : Env) where
  -- The `match` on the number.
  unfoldable pub from_number : ℕ → Result SysRq E.ProcError
  from_number x =
      if x == 0
      then ok disable
      else if x == 1
      then ok enable
      else ok_or (E.from_message (codes "Invalid value")) (E.from_bits all_functions x)
        >>=? λ allowed. ok (allowed_functions allowed)

  unfoldable pub sysrq_from_str : Text → Result SysRq E.ProcError
  sysrq_from_str s = map_err E.from_parse_int (parse_uint 16 s) >>=? from_number

  unfoldable pub sysrq : AsyncProcfs E.File → M E SysRq
  sysrq procfs = read_value E sysrq_from_str (λ e. e) procfs (codes "sys/kernel/sysrq")

  unfoldable pub set_sysrq : AsyncProcfs E.File → SysRq → M E (Unit {0})
  set_sysrq procfs r = write_value E show_uint procfs (codes "sys/kernel/sysrq") (to_number r)
