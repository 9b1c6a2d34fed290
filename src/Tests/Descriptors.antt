-- ===== src/Tests/Descriptors.antt =====
-- A process with two descriptors.
use async_procfs.Std.Ints.{show_int}
use async_procfs.Std.Chars.{to_digit}
use async_procfs.Std.Utf8.{to_str}
use async_procfs.Helpers.{read_file, read_value}
use async_procfs.Prelude.{
  ℕ, zero, suc, pos, ◌+◌, ◌*◌, ◌/◌, ◌%◌, ◌≡◌, refl, true, ok, err, List, [], ◌∷◌, Text, Bytes,
  codes, arith, length, Result, returned, failed, attempt,
}
use async_procfs.Std.Paths.{join}
use async_procfs.Env.{Env, ErrorKind, IoError, raw, at_empty_path}
use async_procfs.Env.Memory.{memory, Disk, Stats, MemoryError}
use async_procfs.Machine.{State}
use async_procfs.Procfs.{AsyncProcfs, try_wrapped}
use async_procfs.Kernel.Version.{Version, cached, from_u32, current}
use async_procfs.Kernel.Version.Cache.{cached_hit}
use async_procfs.Process.{Process, parse_id}
use async_procfs.Process.Descriptors.{
  FdInfo, target_of, from_process_at, fds, fd_items, fd_count, numbered_entries,
}
use async_procfs.Process.Descriptors.Stream.{ids, keys, first_error}
use async_procfs.Process.Descriptors.Yielded.{Yields}
use async_procfs.Process.Descriptors.Count.{fd_count_counts}
use async_procfs.Process.Descriptors.Info.{from_process_at_lem}

abbrev missing : IoError
missing = raw ErrorKind.not_found (codes "No such file or directory")

abbrev names : List (Result Bytes IoError)
names = ok (codes "0") ∷ ok (codes ".") ∷ ok (codes "17") ∷ err missing ∷ []

abbrev null_stats : Stats
null_stats = record { mode = 0o600; size = 0; uid = 0 }

-- A world in which every file can be opened and is a link to /dev/null, and no text can be read.
abbrev links : Env
links = record memory {
  open_at = λ base p o d. returned p d;
  hybrid_read_to_string = λ f d. failed missing d;
  read_link = λ f d. returned (codes "/dev/null") d;
  hybrid_metadata_at = λ f p flags d. returned null_stats d;
  new_dir = λ std d. returned names d;
}

abbrev procfs : AsyncProcfs Text
procfs = record { file = codes "/proc"; root = codes "/proc" }

abbrev shell : Process Text
shell = record { fd = codes "/proc/7"; pid = pos 7; path = codes "/proc/7"; procfs = procfs }

abbrev start : State Disk
start = record { world = record { files = []; links = []; dirs = []; stats = [] }; kernel = 0 }

-- The version is unknown where the cache is empty, and the state stays as it is.
cached-empty :
    (w : Disk)
    → cached links procfs (record { world = w; kernel = 0 })
      ≡ failed
          (links.error_path (codes "/proc/sys/kernel/osrelease") (links.from_io missing))
          (record { world = w; kernel = 0 })
unfolding cached current read_value read_file join
cached-empty w = refl

attempt-cached :
    (w : Disk) (n : ℕ)
    → (k : Result Version MemoryError) × (attempt {F = MemoryError}
          (cached links procfs)
          (record { world = w; kernel = n })
        ≡ returned k (record { world = w; kernel = n }))
attempt-cached w zero = (
  err (links.error_path (codes "/proc/sys/kernel/osrelease") (links.from_io missing)),
  rw (cached-empty w),
)
attempt-cached w (suc n) = (
  ok (from_u32 true (suc n)),
  rw (cached_hit links procfs (record { world = w; kernel = suc n }) (λ e. absurd (ground arith))),
)

looked :
    try_wrapped links
      (join (codes "/proc/7") (codes "fd"))
      (links.hybrid_metadata_at shell.fd (codes "fd") (at_empty_path ∷ []))
      start
    ≡ returned null_stats start
looked = refl

listed : fds links shell start ≡ returned names start
unfolding fds
listed = refl

-- Two descriptors and the error of the directory.
counted : fd_count links shell start ≡ returned 3 start
unfolding fd_count fd_items numbered_entries fds parse_id to_digit from_process_at cached current
    read_value read_file target_of to_str
counted = refl

fd_count_counts_example :
    (items : List (Result (FdInfo Text) MemoryError)) × Yields links
      (from_process_at links shell)
      (first_error names)
      (ids names)
      start
      items
      start
    × (3 ≡ length (keys (λ a. a.raw_fd) items) + length (first_error names))
fd_count_counts_example =
    fd_count_counts links shell null_stats names start start start start 3 looked refl listed
      counted

from_process_at_lem_example :
    from_process_at links shell (pos 0) start
    ≡ returned
        (record { raw_fd = pos 0; mode = 0o600 / 64 % 8 * 64; target = codes "/dev/null" })
        start
unfolding join show_int to_str
from_process_at_lem_example =
    from_process_at_lem links shell (pos 0) (attempt-cached start.world 0).0 start start start.world
      start.world start.world (codes "fd/0") (codes "/dev/null") (codes "/dev/null") null_stats
      (codes "/dev/null") (attempt-cached start.world 0).1 refl refl refl refl refl
