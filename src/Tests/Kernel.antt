-- ===== src/Tests/Kernel.antt =====
-- Inputs for src/sys/kernel/mod.rs.
use async_procfs.Prelude.{
  ℕ, ◌≡◌, ◌↔◌, refl, true, false, [], ◌∷◌, ◌++◌, Text, codes, arith, ok, returned,
}
use async_procfs.Std.Strings.{split, join_with, all_chars}
use async_procfs.Std.Maps.{contains, add}
use async_procfs.Env.Memory.{memory, Disk}
use async_procfs.Machine.{State}
use async_procfs.Procfs.{AsyncProcfs}
use async_procfs.Kernel.Version.{Version, version, from_u32, from_str, cached}
use async_procfs.Kernel.Version.Grammar.{Spells, from_str_iff}
use async_procfs.Kernel.BuildInfo.{BuildInfo, build_info, is_uppercase, build_from_str, preemptrt}
use async_procfs.Kernel.BuildInfo.Flags.{preemptrt_underscore}
use async_procfs.Kernel.SysRq.{allowed_functions, sysrq_from_str}
use async_procfs.Kernel.SysRq.Grammar.{StandsFor, sysrq_from_str_iff}
use async_procfs.Std.Ints.Decimal.{SpellsNumber}
use async_procfs.Kernel.Limits.{set_threads_max}
use async_procfs.Kernel.Limits.Threads.{writes_limit, set_threads_max_unchecked}

abbrev debian : Version
debian = version 6 1 300

abbrev procfs : AsyncProcfs Text
procfs = record { file = codes "/proc"; root = codes "/proc" }

abbrev threads_disk : Disk
threads_disk = record {
  files = (codes "/proc/sys/kernel/threads-max", []) ∷ [];
  links = [];
  dirs = [];
  stats = [];
}

abbrev known : ℕ → State Disk
known kernel = record { world = threads_disk; kernel = kernel }

cached-debian : cached memory procfs (known 19661062) ≡ returned debian (known 19661062)
unfolding cached from_u32
cached-debian = refl

cached-five : cached memory procfs (known 5) ≡ returned (version 5 0 0) (known 5)
unfolding cached from_u32
cached-five = refl

set_threads_max_unchecked_example :
    set_threads_max memory procfs 19 (known 5) ≡ writes_limit memory procfs 19 (known 5)
set_threads_max_unchecked_example =
    set_threads_max_unchecked memory procfs (known 5) 19 (known 5) (version 5 0 0) cached-five
      (omega arith) refl

-- The file of a Debian kernel, and one of a kernel built for real time.
abbrev built : BuildInfo
built = build_info (codes "1") (codes "SMP" ∷ codes "PREEMPT" ∷ []) (codes "Debian 6.1")

smp_is_uppercase : all_chars (is_uppercase memory) (codes "SMP") ≡ true
unfolding all_chars is_uppercase
smp_is_uppercase = refl

abbrev real_time : Text
real_time = codes "#1 SMP PREEMPT_RT Debian"

abbrev real_time_info : BuildInfo
real_time_info = build_info (codes "1") (codes "SMP" ∷ []) (codes "PREEMPT_RT Debian")

real_time_parsed : build_from_str memory real_time ≡ ok real_time_info
unfolding build_from_str split all_chars add join_with
real_time_parsed = refl

real_time_words :
    split b' ' real_time
    ≡ codes "#1" ∷ ((codes "SMP" ∷ []) ++ (codes "PREEMPT_RT" ∷ codes "Debian" ∷ []))
unfolding split
real_time_words = refl

smp_alone : contains (codes "PREEMPTRT") (codes "SMP" ∷ []) ≡ false
unfolding contains
smp_alone = refl

preemptrt_underscore_example : preemptrt real_time_info ≡ false
preemptrt_underscore_example =
    preemptrt_underscore memory (codes "SMP" ∷ []) (codes "Debian" ∷ []) real_time (codes "#1")
      real_time_info real_time_words (smp_is_uppercase, tt) smp_alone real_time_parsed

sysrq_from_str_iff_example :
    (sysrq_from_str memory (codes "438") ≡ ok (allowed_functions 438))
    ↔ ((n : ℕ) × SpellsNumber (codes "438") n × StandsFor n (allowed_functions 438))
sysrq_from_str_iff_example =
    sysrq_from_str_iff memory (λ all n. refl) (codes "438") (allowed_functions 438)

from_str_iff_example :
    (from_str (codes "6.1.300-13") ≡ ok debian) ↔ Spells (codes "6.1.300-13") debian
from_str_iff_example = from_str_iff (codes "6.1.300-13") debian
