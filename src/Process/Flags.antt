-- ===== src/Process/Flags.antt =====
-- With which kernels a process and a descriptor are opened without `O_PATH`.
use async_procfs.Prelude.{◌≡◌, ◌<◌, ◌↔◌, ◌⊎◌, true, arith, ok}
use async_procfs.Kernel.Version.{Version}
use async_procfs.Process.{is_old}

-- A known version counts as old exactly if it is before 3.6: its major version is below 3, or it is 3
-- and the minor version is below 6; the patch level does not matter.
pub is_old_iff :
    (F : Type 0) (v : Version)
    → (is_old {F = F} (ok v) ≡ true) ↔ ((v.major < 3) ⊎ ((v.major ≡ 3) × (v.minor < 6)))
unfolding is_old
is_old_iff F v = ground arith
