-- ===== src/Kernel/Version/Packing.antt =====
-- Packing a version into the `u32` of the cache, on either kind of target.
use async_procfs.Prelude.{◌≡◌, ◌<◌, ◌^◌, ◌↔◌, Bool, true, false, arith}
use async_procfs.Kernel.Version.{Version, version, IsVersion, to_u32, from_u32}

-- Every version is read back from its packing.
pub from_u32-to_u32 :
    (little : Bool) (v : Version) → IsVersion v → from_u32 little (to_u32 little v) ≡ v
unfolding from_u32 to_u32
from_u32-to_u32 true v h = ground arith
from_u32-to_u32 false v h = ground arith

-- A packing is a `u32`, and is the sentinel of the cache for version 0.0.0 alone.
pub to_u32_fits :
    (little : Bool) (v : Version)
    → IsVersion v
    → (to_u32 little v < 2 ^ 32) × ((to_u32 little v ≡ 0) ↔ (v ≡ version 0 0 0))
unfolding to_u32
to_u32_fits true v h = ground arith
to_u32_fits false v h = ground arith
