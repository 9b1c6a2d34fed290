-- ===== src/Tests/Written.antt =====
-- Values that are read back after they were written.
use async_procfs.Std.Ints.{show_int, show_uint}
use async_procfs.Helpers.{write_file, write_value, write_value_to}
use async_procfs.Prelude.{
  All, true, pos, negsuc, ◌<◌, ◌≡◌, refl, ap, List, [], ◌∷◌, ◌++◌, Text, Bytes, FilePath, codes,
  arith, returned,
}
use async_procfs.Std.Chars.{is_whitespace}
use async_procfs.Std.Utf8.{as_bytes, as_bytes_of_ascii}
use async_procfs.Env.{Env}
use async_procfs.Env.Memory.{memory, Disk}
use async_procfs.Machine.{State}
use async_procfs.Procfs.{AsyncProcfs}
use async_procfs.Helpers.RoundTrip.{Keeps}
use async_procfs.Kernel.Version.{version, cached, from_u32}
use async_procfs.Kernel.SysRq.{allowed_functions, sysrq, set_sysrq, to_number}
use async_procfs.Kernel.SysRq.RoundTrip.{sysrq-set_sysrq}
use async_procfs.Kernel.Limits.{threads_max, set_threads_max, refuses}
use async_procfs.Kernel.Limits.Shm.{threads_max-set_threads_max}
use async_procfs.Process.{Process}
use async_procfs.Process.Scores.{set_oom_score_adj}
use async_procfs.Process.Scores.Adjust.{KeepsScore}

abbrev first_content : List (FilePath × Bytes) → Bytes
first_content [] = []
first_content ((p, b) ∷ files) = b

-- A world with one file, which shows what was last written, with a newline behind it.
abbrev one_file : Env
one_file = record memory {
  open_at = λ base p o d. returned p d;
  write_all = λ f b d. returned tt (record d { files = (f, b) ∷ [] });
  hybrid_read_to_string = λ f d. returned (first_content d.files ++ (0x0a ∷ [])) d;
  read_to_string = λ f d. returned (first_content d.files ++ (0x0a ∷ [])) d;
}

abbrev procfs : AsyncProcfs Text
procfs = record { file = codes "/proc"; root = codes "/proc" }

newline_is_space : is_whitespace 0x0a ≡ true
unfolding is_whitespace
newline_is_space = refl

written_text :
    (text : Text) (f : FilePath) (w₁ w₂ : Disk)
    → All (λ c. c < 0x80) text
    → one_file.write_all f (as_bytes text) w₁ ≡ returned tt w₂
    → first_content w₂.files ≡ text
written_text text f w₁ w₂ ascii h = cc (as_bytes_of_ascii text ascii, h)

shown_text :
    (text : Text) (f : FilePath) (w₁ w₂ : Disk)
    → All (λ c. c < 0x80) text
    → one_file.write_all f (as_bytes text) w₁ ≡ returned tt w₂
    → one_file.hybrid_read_to_string f w₂ ≡ returned (text ++ (0x0a ∷ [])) w₂
shown_text text f w₁ w₂ ascii h =
    ap (λ (t : Text). returned (t ++ (0x0a ∷ [])) w₂) (written_text text f w₁ w₂ ascii h)

one_file-Keeps : (path : FilePath) → Keeps one_file procfs path (0x0a ∷ [])
one_file-Keeps path = record {
  tail_is_space = (newline_is_space, tt);
  shown = λ text w w₁ w₂ f ascii opened written.
      (path, w₂, w₂, refl, shown_text text f w₁ w₂ ascii written);
}

abbrev empty : State Disk
empty = record {
  world = record { files = []; links = []; dirs = []; stats = [] };
  kernel = 19661062;
}

abbrev holding : Text → Bytes → State Disk
holding path b = record {
  world = record { files = (path, b) ∷ []; links = []; dirs = []; stats = [] };
  kernel = 19661062;
}

sysrq_written :
    set_sysrq one_file procfs (allowed_functions 438) empty
    ≡ returned tt (holding (codes "sys/kernel/sysrq") (codes "438"))
unfolding set_sysrq write_value write_file as_bytes show_uint to_number
sysrq_written = refl

sysrq-set_sysrq_example :
    (u : State Disk) × (sysrq one_file procfs (holding (codes "sys/kernel/sysrq") (codes "438"))
      ≡ returned (allowed_functions 438) u)
sysrq-set_sysrq_example =
    sysrq-set_sysrq one_file procfs (0x0a ∷ []) (λ all n. refl)
      (one_file-Keeps (codes "sys/kernel/sysrq")) (allowed_functions 438) empty
      (holding (codes "sys/kernel/sysrq") (codes "438")) (omega arith, refl) sysrq_written

version_known : cached one_file procfs empty ≡ returned (version 6 1 300) empty
unfolding cached from_u32
version_known = refl

threads_written :
    set_threads_max one_file procfs 4096 empty
    ≡ returned tt (holding (codes "sys/kernel/threads-max") (codes "4096"))
unfolding set_threads_max cached refuses from_u32 write_value write_file as_bytes show_uint
threads_written = refl

threads_max-set_threads_max_example :
    (u : State Disk) × (threads_max one_file procfs
        (holding (codes "sys/kernel/threads-max") (codes "4096"))
      ≡ returned 4096 u)
threads_max-set_threads_max_example =
    threads_max-set_threads_max one_file procfs (0x0a ∷ [])
      (one_file-Keeps (codes "sys/kernel/threads-max")) 4096 empty
      (holding (codes "sys/kernel/threads-max") (codes "4096")) (omega arith) (omega arith)
      (λ p u e. cc (version_known, e)) threads_written

abbrev shell : Process Text
shell = record { fd = codes "/proc/7"; pid = pos 7; path = codes "/proc/7"; procfs = procfs }

one_file-KeepsScore : KeepsScore one_file shell (0x0a ∷ [])
one_file-KeepsScore = record {
  tail_is_space = (newline_is_space, tt);
  shown = λ text w w₁ w₂ f ascii opened written.
      (codes "oom_score_adj", w₂, w₂, refl, shown_text text f w₁ w₂ ascii written);
}

score_written :
    set_oom_score_adj one_file shell (negsuc 499) empty
    ≡ returned tt (holding (codes "oom_score_adj") (codes "-500"))
unfolding set_oom_score_adj write_value_to as_bytes show_int
score_written = refl
