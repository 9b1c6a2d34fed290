-- ===== src/Kernel/Version.antt =====
-- src/sys/kernel/mod.rs: `Version`, its parser, its order, its packing into a `u32`, and the cache of
-- `Version::cached` in the static atomic `KERNEL`.
pub mod Packing
pub mod Order
pub mod Parse
pub mod Cache
pub mod Race
pub mod Release
pub mod Cell
pub mod Grammar
use Prim.Native.Nat.{compare, Ordering}
use async_procfs.Prelude.{
  ℕ, ◌<◌, ◌≡◌, refl, Bool, true, false, not, ◌&&◌, List, [], ◌∷◌, Text, Bytes, codes, get_elem?,
  ◌==◌, if◌then◌else◌, Result, ok, err, map_err, ok_or, Run, returned, ◌>>=?◌, ◌>>=◌, ◌>>◌, pure,
}
use async_procfs.Std.Chars.{is_ascii_digit}
use async_procfs.Std.Strings.{split, before_first}
use async_procfs.Std.Ints.{parse_uint, show_uint}
use async_procfs.Std.Bytes.{from_ne_bytes, to_ne_bytes}
use async_procfs.Env.{Env}
use async_procfs.Machine.{M}
use async_procfs.Procfs.{AsyncProcfs}
use async_procfs.Helpers.{read_value}

pub record Version : Type 0 where
  pub major : ℕ
  pub minor : ℕ
  pub patch : ℕ

-- `Version::new`.
abbrev pub version : ℕ → ℕ → ℕ → Version
version major minor patch = record { major = major; minor = minor; patch = patch }

-- The fields are a `u8`, a `u8` and a `u16`.
pub record IsVersion (v : Version) : Type 0 where
  pub major_fits : v.major < 256
  pub minor_fits : v.minor < 256
  pub patch_fits : v.patch < 65536

-- The first argument of these two is the target's byte order.
unfoldable pub to_u32 : Bool → Version → ℕ
unfolding from_ne_bytes to_ne_bytes
to_u32 little v = from_ne_bytes little (v.major ∷ v.minor ∷ to_ne_bytes little 2 v.patch)

unfoldable pub from_bytes : Bool → Bytes → Version
from_bytes little (major ∷ minor ∷ lo ∷ hi ∷ _) =
    version major minor (from_ne_bytes little (lo ∷ hi ∷ []))
from_bytes little _ = version 0 0 0

unfoldable pub from_u32 : Bool → ℕ → Version
unfolding from_bytes from_ne_bytes to_ne_bytes
from_u32 little val = from_bytes little (to_ne_bytes little 4 val)

-- The test of `find`: neither a dot nor a digit.
unfoldable pub ends_version : ℕ → Bool
unfolding is_ascii_digit
ends_version c = not (c == b'.') && not (is_ascii_digit c)

unfoldable pub parse_parts : Text → Text → Text → Result Version Text
unfolding parse_uint
parse_parts major minor patch =
    map_err (λ _. codes "Failed to parse major version") (parse_uint 8 major) >>=? λ major.
    map_err (λ _. codes "Failed to parse minor version") (parse_uint 8 minor) >>=? λ minor.
    map_err (λ _. codes "Failed to parse patch version") (parse_uint 16 patch) >>=? λ patch.
    ok (version major minor patch)

-- Each `next` takes the following part of the iterator.
unfoldable pub parse_split : List Text → Result Version Text
unfolding parse_parts
parse_split parts =
    ok_or (codes "Missing major version component") (get_elem? parts 0) >>=? λ major.
    ok_or (codes "Missing minor version component") (get_elem? parts 1) >>=? λ minor.
    ok_or (codes "Missing patch version component") (get_elem? parts 2) >>=? λ patch.
    parse_parts major minor patch

unfoldable pub from_str : Text → Result Version Text
unfolding parse_split ends_version split before_first
from_str s = parse_split (split b'.' (before_first ends_version s))

-- `Ord::cmp`: the next field decides where the fields before it are equal.
abbrev pub or_then : Ordering → Ordering → Ordering
or_then Ordering.eq later = later
or_then Ordering.lt later = Ordering.lt
or_then Ordering.gt later = Ordering.gt

unfoldable pub cmp : Version → Version → Ordering
cmp a b =
    or_then (compare a.major b.major) (or_then (compare a.minor b.minor) (compare a.patch b.patch))

abbrev pub is_lt : Ordering → Bool
is_lt Ordering.lt = true
is_lt Ordering.eq = false
is_lt Ordering.gt = false

-- The operator `<`.
unfoldable pub version_lt : Version → Version → Bool
unfolding cmp
version_lt a b = is_lt (cmp a b)

module _ (E : Env) where
  unfoldable pub current : AsyncProcfs E.File → M E Version
  current procfs = read_value E from_str E.from_message procfs (codes "sys/kernel/osrelease")

  -- `KERNEL.load` and `KERNEL.store`.
  abbrev pub load_kernel : M E ℕ
  load_kernel s = returned s.kernel s

  abbrev pub store_kernel : ℕ → M E (Unit {0})
  store_kernel kernel s = returned tt (record s { kernel = kernel })

  abbrev pub sentinel : ℕ
  sentinel = 0

  -- The body of the test for the sentinel.
  unfoldable pub fill : AsyncProcfs E.File → M E ℕ
  fill procfs = do
    v ← current procfs
    store_kernel (to_u32 E.little_endian v)
    pure (to_u32 E.little_endian v)

  unfoldable pub cached : AsyncProcfs E.File → M E Version
  unfolding fill
  cached procfs = do
    loaded ← load_kernel
    kernel ← if loaded == sentinel then fill procfs else pure loaded
    pure (from_u32 E.little_endian kernel)
