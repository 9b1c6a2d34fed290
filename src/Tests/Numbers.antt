-- ===== src/Tests/Numbers.antt =====
-- Inputs for the flags of a build, the numbers in files, and the boot time.
use async_procfs.Prelude.{
  ℕ, ◌↔◌, ◌⊎◌, failed, ◌<◌, ◌≡◌, refl, inl, true, false, All, some, List, [], ◌∷◌, ◌++◌, Text,
  Bytes, codes, arith, Result, ok, of_result, returned, panicked, pos,
}
use async_procfs.Kernel.Semaphores.{SemaphoreLimits, current_limits}
use async_procfs.Kernel.Semaphores.Grammar.{SpellsLimits, current_limits_iff}
use async_procfs.Process.Tasks.{Task, children, children_error}
use async_procfs.Process.Tasks.Listed.{Lists, children_cases}
use async_procfs.Std.Chars.{is_whitespace}
use async_procfs.Std.Strings.{trim, join_with, all_chars}
use async_procfs.Std.Strings.Laws.{Free, Full, is_sep}
use async_procfs.Std.Ints.Hex.{hex_digit, show_hex, hex_value}
use async_procfs.Std.Maps.{contains}
use async_procfs.Env.Memory.{memory, Disk, MemoryError, open_file, read_text, read_bytes, resolve}
use async_procfs.Machine.{M, State}
use async_procfs.Procfs.{AsyncProcfs, read_options, current_with_system_info}
use async_procfs.Kernel.BuildInfo.{BuildInfo, is_uppercase, build_from_str, smp, preempt, preemptrt}
use async_procfs.Kernel.BuildInfo.Sets.{SameWords, view, has, build_from_str_order}
use async_procfs.Process.{Process}
use async_procfs.Process.Scores.{coredump_filter}
use async_procfs.Process.Scores.Filter.{known_flags, coredump_filter_lem}
use async_procfs.Runtime.{Surroundings, Blocks, current_thread}
use async_procfs.SystemInfo.{
  AsyncLocalSystemInfo, current_system_info, current_si, kernel_stats, boot_time_secs,
  sync_boot_time_secs,
}
use async_procfs.SystemInfo.BootTime.{sync_boot_time_lem}

abbrev procfs : AsyncProcfs Text
procfs = record { file = codes "/proc"; root = codes "/proc" }

abbrev shell : Process Text
shell = record { fd = codes "/proc/7"; pid = pos 7; path = codes "/proc/7"; procfs = procfs }

abbrev disk : Disk
disk = record {
  files =
      (codes "/proc/7/coredump_filter", codes "00000033\n")
      ∷ (codes "/proc/stat", codes "btime 17")
      ∷ (codes "/proc/sys/kernel/sem", codes "32000\t1024000000\t500\t32000\n")
      ∷ (codes "/proc/7/task/7/children", codes "12 4000000000 ")
      ∷ [];
  links = [];
  dirs = [];
  stats = [];
}

abbrev start : State Disk
start = record { world = disk; kernel = 0 }

-- The same two flags, in either order and once more.
abbrev once : List Text
once = codes "SMP" ∷ codes "PREEMPT" ∷ []

abbrev again : List Text
again = codes "PREEMPT" ∷ codes "SMP" ∷ codes "PREEMPT" ∷ []

same_words : SameWords once again
unfolding contains
same_words k = ground arith

smp-Free : Free (is_sep b' ') (codes "SMP")
smp-Free = (refl, (refl, (refl, tt)))

preempt-Free : Free (is_sep b' ') (codes "PREEMPT")
preempt-Free = (refl, (refl, (refl, (refl, (refl, (refl, (refl, tt)))))))

debian-Free : Free (is_sep b' ') (codes "Debian")
debian-Free = (refl, (refl, (refl, (refl, (refl, (refl, tt))))))

words_once : All (Free (is_sep b' ')) ((codes "#1" ∷ once) ++ (codes "Debian" ∷ []))
words_once = ((refl, (refl, tt)), (smp-Free, (preempt-Free, (debian-Free, tt))))

words_again : All (Free (is_sep b' ')) ((codes "#1" ∷ again) ++ (codes "Debian" ∷ []))
words_again = ((refl, (refl, tt)), (preempt-Free, (smp-Free, (preempt-Free, (debian-Free, tt)))))

flags_once : All (λ f. all_chars (is_uppercase memory) f ≡ true) once
unfolding all_chars is_uppercase
flags_once = (refl, (refl, tt))

flags_again : All (λ f. all_chars (is_uppercase memory) f ≡ true) again
unfolding all_chars is_uppercase
flags_again = (refl, (refl, (refl, tt)))

debian_other : all_chars (is_uppercase memory) (codes "Debian") ≡ false
unfolding all_chars is_uppercase
debian_other = refl

build_from_str_order_example :
    (b : BuildInfo) × (c : BuildInfo) × (build_from_str memory
        (join_with b' ' ((codes "#1" ∷ once) ++ (codes "Debian" ∷ [])))
      ≡ ok b)
    × (build_from_str memory (join_with b' ' ((codes "#1" ∷ again) ++ (codes "Debian" ∷ [])))
        ≡ ok c)
    × (view b ≡ view c)
    × (smp b ≡ has (codes "SMP") (view c).flags)
    × (preempt b ≡ has (codes "PREEMPT") (view c).flags)
    × (preemptrt b ≡ has (codes "PREEMPTRT") (view c).flags)
build_from_str_order_example =
    build_from_str_order memory (codes "1") (codes "Debian") once again [] same_words words_once
      words_again flags_once flags_again debian_other

-- `00000033`.
abbrev thirty_three : List ℕ
thirty_three = 0 ∷ 0 ∷ 0 ∷ 0 ∷ 0 ∷ 3 ∷ 3 ∷ []

digits_fit : All (λ d. d < 16) (0 ∷ thirty_three)
digits_fit = (
  omega arith,
  (
    omega arith,
    (omega arith, (omega arith, (omega arith, (omega arith, (omega arith, (omega arith, tt)))))),
  ),
)

newline_is_space : Full is_whitespace (codes "\n")
unfolding is_whitespace
newline_is_space = (refl, tt)

filter_opened :
    memory.open_at (codes "/proc/7") (codes "coredump_filter") (read_options memory) disk
    ≡ returned (codes "/proc/7/coredump_filter") disk
unfolding open_file resolve
filter_opened = refl

filter_text :
    memory.read_to_string (codes "/proc/7/coredump_filter") disk
    ≡ returned (show_hex (0 ∷ thirty_three) ++ codes "\n") disk
unfolding read_text hex_digit
filter_text = refl

coredump_filter_lem_example :
    coredump_filter memory shell start
    ≡ of_result (known_flags memory (memory.coredump_flags (hex_value 0 (0 ∷ thirty_three)))) start
coredump_filter_lem_example =
    coredump_filter_lem memory shell start disk disk (codes "/proc/7/coredump_filter") filter_opened
      0 thirty_three (codes "\n") digits_fit (omega arith) newline_is_space filter_text

-- Statistics that are the number of the bytes they were read from.
abbrev stats_from_read : Bytes → AsyncLocalSystemInfo Text → M memory ℕ
stats_from_read [] si s = returned 0 s
stats_from_read (b ∷ rest) si s = returned b s

abbrev load_from_read : Bytes → Result ℕ MemoryError
load_from_read buf = ok 0

-- On a runtime of one thread, where blocking in place panics.
abbrev on_one_thread : Surroundings ℕ MemoryError (State Disk)
on_one_thread = record {
  handle = some current_thread;
  build = ok tt;
  block_in_place = λ closure s. panicked (codes "can call blocking only on several threads") s;
  block_on = λ future s. panicked (codes "Cannot start a runtime from within a runtime") s;
  block_on_in_thread = λ future s. future s;
  debug_panic = λ p. codes "Any { .. }";
}

boot_time-Blocks :
    Blocks on_one_thread (boot_time_secs memory (λ n. n) stats_from_read load_from_read procfs)
boot_time-Blocks = record { in_place = λ h s. absurd (h refl); in_thread = λ s. refl }

seconds_read :
    boot_time_secs memory (λ n. n) stats_from_read load_from_read procfs start ≡ returned 98 start
unfolding boot_time_secs kernel_stats current_si current_with_system_info open_file resolve
    read_bytes
seconds_read = refl

sync_boot_time_lem_example :
    sync_boot_time_secs memory
      (λ n. n)
      stats_from_read
      load_from_read
      on_one_thread
      (current_system_info procfs)
      start
    ≡ boot_time_secs memory (λ n. n) stats_from_read load_from_read procfs start
sync_boot_time_lem_example =
    sync_boot_time_lem memory (λ n. n) stats_from_read load_from_read procfs start on_one_thread
      boot_time-Blocks (λ name e. cc) (inl refl) (λ p t e. cc (seconds_read, e))

abbrev limits : SemaphoreLimits
limits = record { semmsl = 32000; semmns = 1024000000; semopm = 500; semmni = 32000 }

limits_opened :
    memory.open_at (codes "/proc") (codes "sys/kernel/sem") (read_options memory) disk
    ≡ returned (codes "/proc/sys/kernel/sem") disk
unfolding open_file resolve
limits_opened = refl

limits_text :
    memory.hybrid_read_to_string (codes "/proc/sys/kernel/sem") disk
    ≡ returned (codes "32000\t1024000000\t500\t32000\n") disk
unfolding read_text
limits_text = refl

current_limits_iff_example :
    (current_limits memory procfs start ≡ returned limits start)
    ↔ SpellsLimits (trim (codes "32000\t1024000000\t500\t32000\n")) limits
current_limits_iff_example =
    current_limits_iff memory procfs (codes "/proc/sys/kernel/sem")
      (codes "32000\t1024000000\t500\t32000\n") limits start disk disk limits_opened limits_text

abbrev thread : Task Text
thread = record {
  fd = codes "/proc/7/task/7";
  pid = pos 7;
  tid = pos 7;
  path = codes "/proc/7/task/7";
  procfs = procfs;
}

children_opened :
    memory.open_at (codes "/proc/7/task/7") (codes "children") (read_options memory) disk
    ≡ returned (codes "/proc/7/task/7/children") disk
unfolding open_file resolve
children_opened = refl

children_text :
    memory.read_to_string (codes "/proc/7/task/7/children") disk
    ≡ returned (codes "12 4000000000 ") disk
unfolding read_text
children_text = refl

children_cases_example :
    ((ns : List ℕ) × Lists (codes "12 4000000000 ") ns
      × (children memory thread start ≡ returned ns start))
    ⊎ (((ns : List ℕ) → Lists (codes "12 4000000000 ") ns → ⊥)
        × (children memory thread start ≡ failed (children_error memory) start))
children_cases_example =
    children_cases memory thread (codes "/proc/7/task/7/children") (codes "12 4000000000 ") start
      disk disk children_opened children_text
