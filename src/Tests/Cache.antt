-- ===== src/Tests/Cache.antt =====
-- The static cache: filled from a release file, and shared by two instances.
use async_procfs.Std.Ints.{show_uint}
use async_procfs.Std.Strings.{join_with}
use async_procfs.Prelude.{
  ◌↔◌, ◌<◌, ◌^◌, pos, ◌≡◌, refl, inl, true, [], ◌∷◌, ◌++◌, Text, codes, arith, returned, failed,
}
use async_procfs.Std.Chars.{is_whitespace}
use async_procfs.Std.Strings.Laws.{Full}
use async_procfs.Env.Memory.{memory, Disk, open_file, resolve, read_text}
use async_procfs.Machine.{State}
use async_procfs.Procfs.{AsyncProcfs, read_options}
use async_procfs.Kernel.Version.{Version, version, to_u32, ends_version, cached}
use async_procfs.Kernel.Version.Parse.{Stops, show_version}
use async_procfs.Kernel.Version.Release.{Holds, cached_release}
use async_procfs.Kernel.Limits.{threads_max, set_threads_max, threads_error}
use async_procfs.Kernel.Limits.Read.{threads, getters_iff}
use async_procfs.Std.Strings.{trim}
use async_procfs.Std.Ints.Decimal.{SpellsNumber}
use async_procfs.Kernel.Limits.Release.{set_threads_max_release}
use async_procfs.Kernel.Settled.{KernelIsSettled, kernel-Settled}
use async_procfs.Process.{Process}
use async_procfs.Process.Tasks.{Task}

abbrev pub procfs : AsyncProcfs Text
procfs = record { file = codes "/proc"; root = codes "/proc" }

-- A second instance, below which there is no file.
abbrev pub elsewhere : AsyncProcfs Text
elsewhere = record { file = codes "/mnt/proc"; root = codes "/mnt/proc" }

abbrev shell : Process Text
shell = record { fd = codes "/proc/7"; pid = pos 7; path = codes "/proc/7"; procfs = procfs }

abbrev thread : Task Text
thread = record {
  fd = codes "/proc/7/task/9";
  pid = pos 7;
  tid = pos 9;
  path = codes "/proc/7/task/9";
  procfs = procfs;
}

abbrev debian : Version
debian = version 6 1 300

abbrev pub disk : Disk
disk = record {
  files = (codes "/proc/sys/kernel/osrelease", codes "6.1.300-13\n") ∷ [];
  links = [];
  dirs = [];
  stats = [];
}

abbrev pub empty : State Disk
empty = record { world = disk; kernel = 0 }

abbrev filled : State Disk
filled = record { world = disk; kernel = to_u32 true debian }

release_opened :
    memory.open_at (codes "/proc") (codes "sys/kernel/osrelease") (read_options memory) disk
    ≡ returned (codes "/proc/sys/kernel/osrelease") disk
unfolding open_file resolve
release_opened = refl

release_text :
    memory.hybrid_read_to_string (codes "/proc/sys/kernel/osrelease") disk
    ≡ returned ((show_version debian ++ codes "-13") ++ codes "\n") disk
unfolding read_text show_version join_with show_uint
release_text = refl

dash-Stops : Stops (codes "-13")
unfolding ends_version
dash-Stops = refl

newline_is_space : Full is_whitespace (codes "\n")
unfolding is_whitespace
newline_is_space = (refl, tt)

release : Holds memory procfs empty debian disk
unfolding is_whitespace
release = record {
  rest = codes "-13";
  tail = codes "\n";
  file = codes "/proc/sys/kernel/osrelease";
  opened_world = disk;
  version_fits = record {
    major_fits = omega arith;
    minor_fits = omega arith;
    patch_fits = omega arith;
  };
  rest_stops = dash-Stops;
  rest_is_word = (refl, (refl, (refl, tt)));
  tail_is_space = newline_is_space;
  opened = release_opened;
  text = release_text;
}

cached_release_example : cached memory procfs empty ≡ returned debian filled
cached_release_example = cached_release memory procfs empty debian disk release refl

set_threads_max_release_example :
    set_threads_max memory procfs 19 empty ≡ failed (threads_error memory 19) filled
set_threads_max_release_example =
    set_threads_max_release memory procfs empty debian disk 19 release refl (omega arith)
      (omega arith) (inl (omega arith))

first_call : cached memory procfs empty ≡ returned debian filled
first_call = cached_release memory procfs empty debian disk release refl

abbrev numbers : Disk
numbers = record {
  files =
      (codes "/proc/sys/kernel/pid_max", codes "4194304\n")
      ∷ (codes "/proc/sys/kernel/shmall", codes "18446744073692774399\n")
      ∷ (codes "/proc/sys/kernel/shmmax", codes "18446744073692774399\n")
      ∷ (codes "/proc/sys/kernel/shmmni", codes "4096\n")
      ∷ (codes "/proc/sys/kernel/threads-max", codes "127228\n")
      ∷ [];
  links = [];
  dirs = [];
  stats = [];
}

abbrev numbered : State Disk
numbered = record { world = numbers; kernel = 0 }

threads_opened :
    memory.open_at (codes "/proc") (codes "sys/kernel/threads-max") (read_options memory) numbers
    ≡ returned (codes "/proc/sys/kernel/threads-max") numbers
unfolding open_file resolve
threads_opened = refl

threads_text :
    memory.hybrid_read_to_string (codes "/proc/sys/kernel/threads-max") numbers
    ≡ returned (codes "127228\n") numbers
unfolding read_text
threads_text = refl

getters_iff_example :
    (threads_max memory procfs numbered ≡ returned 127228 numbered)
    ↔ (SpellsNumber (trim (codes "127228\n")) 127228 × (127228 < 2 ^ 32))
getters_iff_example =
    getters_iff memory procfs (codes "/proc/sys/kernel/threads-max") (codes "127228\n") 127228
      numbered numbers numbers threads threads_opened threads_text

kernel-Settled_example : KernelIsSettled memory procfs
kernel-Settled_example = kernel-Settled memory procfs
